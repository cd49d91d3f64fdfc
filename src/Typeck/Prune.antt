-- ===== src/Typeck/Prune.antt =====
-- crates/izel_typeck/src/lib.rs: `prune` and `prune_effects`, the occurs checks and the binding of
-- variables. A chain of bindings is followed for at most `steps` of the substitution, which is enough
-- where it has no cycle. The walks over a type take fuel for their depth.
use izel.Prelude.{
  ℕ, zero, suc, ◌+◌, Bool, true, false, Option, none, some, [], ◌∷◌, ◌==◌, ltb, if◌then◌else◌,
}
use izel.Typeck.{
  Ty, optional, cascade, pointer, function, var, static, assoc, witness, builtin_witness, Tys,
  no_tys, tys, NamedTys, no_named, named, EffectSet, effect_var, row,
}
use izel.Typeck.State.{Map, get, level_or_zero, TypeChecker, M, and_then, answer}

-- The variable that a type is, and an effect set.
abbrev pub ty_var : Ty → Option ℕ
ty_var (var id) = some id
ty_var _ = none

abbrev pub effect_set_var : EffectSet → Option ℕ
effect_set_var (effect_var id) = some id
effect_set_var _ = none

-- What is behind the chain of bindings that starts at a term.
unfoldable pub chase : {T : Type 0} → (T → Option ℕ) → ℕ → Map T → T → T
chase var_of zero m t = t
chase var_of (suc fuel) m t = elim (var_of t) [
  | none ↦ t
  | some id ↦ elim (get m id) [ none ↦ t | some u ↦ chase var_of fuel m u ]
]

unfoldable pub steps : {T : Type 0} → Map T → ℕ
steps [] = 0
steps (_ ∷ m) = steps m + suc (steps m)

unfoldable pub prune : Map Ty → Ty → Ty
prune m t = chase ty_var (steps m) m t

unfoldable pub prune_effects : Map EffectSet → EffectSet → EffectSet
prune_effects m e = chase effect_set_var (steps m) m e

-- `if id == other_id { return }`, and else the new entry
abbrev pub bind_to : {T : Type 0} → Option ℕ → ℕ → T → Map T → Map T
bind_to none id t m = (id, t) ∷ m
bind_to (some other) id t m = if id == other then m else (id, t) ∷ m

unfoldable pub bind_var : ℕ → Ty → TypeChecker → TypeChecker
bind_var id ty s = record s { substitutions = bind_to (ty_var ty) id ty s.substitutions }

-- `if let Some(level) = self.var_levels.get_mut(&id) { *level = (*level).min(var_level) }`
abbrev pub lower_level : ℕ → ℕ → Option ℕ → Map ℕ → Map ℕ
lower_level id level none m = m
lower_level id level (some old) m = (id, if ltb old level then old else level) ∷ m

-- `for t in tys { if !f(t) { return false } } true`
unfoldable pub all_tys : (Ty → M Bool) → Tys → M Bool
all_tys f no_tys = answer true
all_tys f (tys t ts) = and_then (f t) (all_tys f ts)

unfoldable pub all_named : (Ty → M Bool) → NamedTys → M Bool
all_named f no_named = answer true
all_named f (named _ t ts) = and_then (f t) (all_named f ts)

abbrev pub adjust_level : ℕ → ℕ → TypeChecker → TypeChecker
adjust_level id level s = record s {
  var_levels = lower_level id level (get s.var_levels id) s.var_levels;
}

-- The cases of the walk on what the type is, with the walk on the parts.
unfoldable pub check_parts : (Ty → M Bool) → ℕ → ℕ → Ty → M Bool
unfolding all_tys all_named answer get
check_parts walk var_id var_level (var id) s =
    if id == var_id then some (false, s) else some (true, adjust_level id var_level s)
check_parts walk var_id var_level (function params ret _) s =
    and_then (all_tys walk params) (walk ret) s
check_parts walk var_id var_level (optional inner) s = walk inner s
check_parts walk var_id var_level (cascade inner) s = walk inner s
check_parts walk var_id var_level (pointer inner _ _) s = walk inner s
check_parts walk var_id var_level (assoc inner _) s = walk inner s
check_parts walk var_id var_level (witness inner) s = walk inner s
check_parts walk var_id var_level (builtin_witness _ inner) s = walk inner s
check_parts walk var_id var_level (static fields) s = all_named walk fields s
check_parts walk var_id var_level _ s = some (true, s)

unfoldable pub check_and_adjust : ℕ → ℕ → ℕ → Ty → M Bool
check_and_adjust zero var_id var_level t s = none
check_and_adjust (suc fuel) var_id var_level t s =
    check_parts (check_and_adjust fuel var_id var_level) var_id var_level (prune s.substitutions t)
      s

-- `self.bind_var(var_id, ty.clone()); true`
unfoldable pub then_bind : ℕ → Ty → M Bool
unfolding bind_var
then_bind id t s = some (true, bind_var id t s)

unfoldable pub occurs_check_and_adjust_levels : ℕ → ℕ → Ty → M Bool
unfolding then_bind get
occurs_check_and_adjust_levels fuel var_id t s =
    and_then (check_and_adjust fuel var_id (level_or_zero (get s.var_levels var_id)) t)
      (then_bind var_id t) s

unfoldable pub occurs_check_effects : ℕ → ℕ → EffectSet → TypeChecker → Option Bool
occurs_check_effects zero id e s = none
occurs_check_effects (suc fuel) id e s = elim (prune_effects s.effect_substitutions e) [
  | effect_var other ↦ some (id == other)
  | row _ tail ↦ occurs_check_effects fuel id tail s
  | _ ↦ some false
]

abbrev pub lower_effect_level : ℕ → ℕ → TypeChecker → TypeChecker
lower_effect_level level id s =
    if ltb level (level_or_zero (get s.effect_var_levels id))
    then record s { effect_var_levels = (id, level) ∷ s.effect_var_levels }
    else s

unfoldable pub adjust_effect_levels : ℕ → ℕ → EffectSet → TypeChecker → Option TypeChecker
unfolding get
adjust_effect_levels zero level e s = none
adjust_effect_levels (suc fuel) level e s = elim (prune_effects s.effect_substitutions e) [
  | effect_var id ↦ some (lower_effect_level level id s)
  | row _ tail ↦ adjust_effect_levels fuel level tail s
  | _ ↦ some s
]
