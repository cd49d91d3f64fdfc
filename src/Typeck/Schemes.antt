-- ===== src/Typeck/Schemes.antt =====
-- crates/izel_typeck/src/lib.rs: `generalize` and `instantiate`. Both sets of a search are lists. The
-- bounds of a scheme are left out: `verify_bound` returns nothing and changes nothing.
use izel.Prelude.{
  ℕ, zero, suc, Option, none, some, List, [], ◌∷◌, ◌++◌, ltb, if◌then◌else◌, ◌>>=◌, contains, Text,
}
use izel.Typeck.{
  Ty, optional, cascade, pointer, function, var, param, static, assoc, builtin_witness, Tys, no_tys,
  tys, NamedTys, no_named, named, EffectSet, concrete, effect_var, row, effect_param, Scheme,
}
use izel.Typeck.State.{
  Map, get, level_or_zero, TypeChecker, scheme_of, find, resolve_scheme, new_var, new_effect_var,
  has_name,
}
use izel.Typeck.Prune.{prune, prune_effects}

-- What the search of `generalize` collects.
pub record Found : Type 0 where
  pub vars : List ℕ
  pub seen : List ℕ
  pub effect_vars : List ℕ
  pub seen_effects : List ℕ
  pub names : List Text
  pub seen_names : List Text

-- `if seen.insert(id) { …; if level > self.current_level { vars.push(id) } }`
abbrev pub see_var : TypeChecker → ℕ → Found → Found
see_var s id found = if contains found.seen id then found else record found {
  seen = id ∷ found.seen;
  vars =
      if ltb s.current_level (level_or_zero (get s.var_levels id))
      then found.vars ++ id ∷ []
      else found.vars;
}

abbrev pub see_effect_var : TypeChecker → ℕ → Found → Found
see_effect_var s id found = if contains found.seen_effects id then found else record found {
  seen_effects = id ∷ found.seen_effects;
  effect_vars =
      if ltb s.current_level (level_or_zero (get s.effect_var_levels id))
      then found.effect_vars ++ id ∷ []
      else found.effect_vars;
}

abbrev pub see_name : Text → Found → Found
see_name name found =
    if has_name name found.seen_names
    then found
    else record found { seen_names = name ∷ found.seen_names; names = found.names ++ name ∷ [] }

unfoldable pub find_gen_effect_vars : ℕ → TypeChecker → EffectSet → Found → Option Found
unfolding get contains
find_gen_effect_vars zero s e found = none
find_gen_effect_vars (suc fuel) s e found = elim (prune_effects s.effect_substitutions e) [
  | effect_var id ↦ some (see_effect_var s id found)
  | row _ tail ↦ find_gen_effect_vars fuel s tail found
  | _ ↦ some found
]

-- `for p in params { self.find_gen_vars(p, …) }`
unfoldable pub find_in_tys : (Ty → Found → Option Found) → Tys → Found → Option Found
find_in_tys walk no_tys found = some found
find_in_tys walk (tys t ts) found = walk t found >>= find_in_tys walk ts

unfoldable pub find_in_named : (Ty → Found → Option Found) → NamedTys → Found → Option Found
find_in_named walk no_named found = some found
find_in_named walk (named _ t ts) found = walk t found >>= find_in_named walk ts

-- Witnesses and predicates are not searched.
unfoldable pub find_in_parts :
    (Ty → Found → Option Found) → ℕ → TypeChecker → Ty → Found → Option Found
unfolding get contains has_name find_in_tys find_in_named find_gen_effect_vars
find_in_parts walk fuel s (var id) found = some (see_var s id found)
find_in_parts walk fuel s (param name) found = some (see_name name found)
find_in_parts walk fuel s (function params ret effects) found =
    find_in_tys walk params found >>= walk ret >>= find_gen_effect_vars fuel s effects
find_in_parts walk fuel s (optional inner) found = walk inner found
find_in_parts walk fuel s (cascade inner) found = walk inner found
find_in_parts walk fuel s (pointer inner _ _) found = walk inner found
find_in_parts walk fuel s (builtin_witness _ inner) found = walk inner found
find_in_parts walk fuel s (static fields) found = find_in_named walk fields found
find_in_parts walk fuel s (assoc inner _) found = walk inner found
find_in_parts walk fuel s _ found = some found

unfoldable pub find_gen_vars : ℕ → TypeChecker → Ty → Found → Option Found
find_gen_vars zero s t found = none
find_gen_vars (suc fuel) s t found =
    find_in_parts (find_gen_vars fuel s) fuel s (prune s.substitutions t) found

abbrev pub nothing_found : Found
nothing_found = record {
  vars = [];
  seen = [];
  effect_vars = [];
  seen_effects = [];
  names = [];
  seen_names = [];
}

unfoldable pub generalize : ℕ → TypeChecker → Ty → Option Scheme
unfolding find_gen_vars
generalize fuel s t = find_gen_vars fuel s t nothing_found >>= λ found.
    some (scheme_of found.vars found.effect_vars found.names t)

-- The new variables that `instantiate` puts in the place of the old.
pub record Mapping : Type 0 where
  pub vars : Map Ty
  pub effect_vars : Map EffectSet
  pub names : List (Text × Ty)

abbrev pub or_else : {A : Type 0} → Option A → A → A
or_else none a = a
or_else (some b) a = b

unfoldable pub substitute_row : (EffectSet → EffectSet) → Map EffectSet → EffectSet → EffectSet
unfolding get
substitute_row walk mapping (effect_var id) = or_else (get mapping id) (effect_var id)
substitute_row walk mapping (row vals tail) = row vals (walk tail)
substitute_row walk mapping (concrete v) = concrete v
substitute_row walk mapping (effect_param p) = effect_param p

-- Without fuel the set is left as it is.
unfoldable pub substitute_effects : ℕ → TypeChecker → Map EffectSet → EffectSet → EffectSet
substitute_effects zero s mapping e = e
substitute_effects (suc fuel) s mapping e =
    substitute_row (substitute_effects fuel s mapping) mapping
      (prune_effects s.effect_substitutions e)

unfoldable mutual
  unfolding get find substitute_effects

  pub substitute_scheme : ℕ → TypeChecker → Mapping → Ty → Ty
  substitute_scheme fuel s m (var id) = or_else (get m.vars id) (var id)
  substitute_scheme fuel s m (param name) = or_else (find m.names name) (param name)
  substitute_scheme fuel s m (function params ret effects) =
      function (substitute_scheme_tys fuel s m params) (substitute_scheme fuel s m ret)
        (substitute_effects fuel s m.effect_vars effects)
  substitute_scheme fuel s m (optional inner) = optional (substitute_scheme fuel s m inner)
  substitute_scheme fuel s m (cascade inner) = cascade (substitute_scheme fuel s m inner)
  substitute_scheme fuel s m (pointer inner is_mut l) =
      pointer (substitute_scheme fuel s m inner) is_mut l
  substitute_scheme fuel s m (builtin_witness kind inner) =
      builtin_witness kind (substitute_scheme fuel s m inner)
  substitute_scheme fuel s m (static fields) = static (substitute_scheme_named fuel s m fields)
  substitute_scheme fuel s m (assoc base name) = assoc (substitute_scheme fuel s m base) name
  substitute_scheme fuel s m t = t

  pub substitute_scheme_tys : ℕ → TypeChecker → Mapping → Tys → Tys
  substitute_scheme_tys fuel s m no_tys = no_tys
  substitute_scheme_tys fuel s m (tys t ts) =
      tys (substitute_scheme fuel s m t) (substitute_scheme_tys fuel s m ts)

  pub substitute_scheme_named : ℕ → TypeChecker → Mapping → NamedTys → NamedTys
  substitute_scheme_named fuel s m no_named = no_named
  substitute_scheme_named fuel s m (named name t ts) =
      named name (substitute_scheme fuel s m t) (substitute_scheme_named fuel s m ts)

-- `for &v in &scheme.vars { mapping.insert(v, self.new_var()) }`
unfoldable pub map_vars : List ℕ → TypeChecker → Map Ty → Map Ty × TypeChecker
map_vars [] s m = (m, s)
map_vars (v ∷ vs) s m = let r = new_var s in map_vars vs r.1 ((v, r.0) ∷ m)

unfoldable pub map_effect_vars : List ℕ → TypeChecker → Map EffectSet → Map EffectSet × TypeChecker
map_effect_vars [] s m = (m, s)
map_effect_vars (v ∷ vs) s m = let r = new_effect_var s in map_effect_vars vs r.1 ((v, r.0) ∷ m)

unfoldable pub map_names :
    List Text → TypeChecker → List (Text × Ty) → List (Text × Ty) × TypeChecker
map_names [] s m = (m, s)
map_names (name ∷ names) s m = let r = new_var s in map_names names r.1 ((name, r.0) ∷ m)

unfoldable pub instantiate : ℕ → Scheme → TypeChecker → Ty × TypeChecker
unfolding map_vars map_effect_vars map_names substitute_scheme
instantiate fuel scheme s =
    let r = map_vars scheme.vars s [] in
    let e = map_effect_vars scheme.effect_vars r.1 [] in
    let n = map_names scheme.names e.1 [] in
    (
      substitute_scheme fuel n.1 (record { vars = r.0; effect_vars = e.0; names = n.0 }) scheme.ty,
      n.1,
    )

abbrev instantiate_found : ℕ → TypeChecker → Option Scheme → Option Ty × TypeChecker
instantiate_found fuel s none = (none, s)
instantiate_found fuel s (some scheme) = let r = instantiate fuel scheme s in (some r.0, r.1)

unfoldable pub resolve_name : ℕ → Text → TypeChecker → Option Ty × TypeChecker
unfolding instantiate resolve_scheme
resolve_name fuel name s = instantiate_found fuel s (resolve_scheme name s)
