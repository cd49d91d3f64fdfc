-- ===== src/Typeck/State.antt =====
-- crates/izel_typeck/src/lib.rs: the state of the type checker that unification, schemes and scopes use,
-- its maps and its scopes. A map is a list of entries, the newest first; the entries of `trait_impls`
-- are one list, in the order in which the code visits them.
use izel.Prelude.{
  ℕ, suc, ◌+◌, ◌-◌, Bool, true, false, ◌||◌, Option, none, some, List, [], ◌∷◌, ◌==◌, codes,
  if◌then◌else◌, ◌>>=◌, Text, text_eq,
}
use izel.Ast
use izel.Typeck.{Ty, var, EffectSet, effect_var, Scheme, hidden}

abbrev pub Map : Type 0 → Type 0
Map A = List (ℕ × A)

-- `get` of a map
unfoldable pub get : {A : Type 0} → Map A → ℕ → Option A
get [] id = none
get ((k, a) ∷ m) id = let more = get m id in if k == id then some a else more

-- `get(&id).cloned().unwrap_or(0)` of the levels
abbrev pub level_or_zero : Option ℕ → ℕ
level_or_zero none = 0
level_or_zero (some l) = l

-- An implementation of a weave: its target, and the aliases among its items.
abbrev pub TraitImpl : Type 0
TraitImpl = Ty × List (Text × Ast.AstType)

pub record TypeChecker : Type 0 where
  pub substitutions : Map Ty
  pub effect_substitutions : Map EffectSet
  pub env : List (List (Text × Scheme))
  pub overload_env : List (Text × List Scheme)
  pub current_level : ℕ
  pub var_levels : Map ℕ
  pub effect_var_levels : Map ℕ
  pub next_var : ℕ
  pub next_effect_var : ℕ
  pub trait_impls : List TraitImpl
  pub current_attributes : List Text
  pub in_raw_block : Bool
  pub current_self : Option Ty

-- A method of the checker: its result and the new state. `none` is a run that does not end.
abbrev pub M : Type 0 → Type 0
M A = TypeChecker → Option (A × TypeChecker)

-- `a && b`, and an early `return false`.
unfoldable pub and_then : M Bool → M Bool → M Bool
and_then a b s = a s >>= λ r. elim r.0 [ true ↦ b r.1 | false ↦ some (false, r.1) ]

unfoldable pub answer : Bool → M Bool
answer b s = some (b, s)

abbrev pub enter_level : TypeChecker → TypeChecker
enter_level s = record s { current_level = s.current_level + 1 }

-- `none` is the overflow at level 0.
abbrev pub exit_level : TypeChecker → Option TypeChecker
exit_level s =
    if s.current_level == 0 then none else some (record s { current_level = s.current_level - 1 })

abbrev pub push_scope : TypeChecker → TypeChecker
push_scope s = record s { env = [] ∷ s.env }

-- `Vec::pop`, the scopes being listed from the last
abbrev pub pop : {A : Type 0} → List A → List A
pop [] = []
pop (x ∷ xs) = xs

abbrev pub pop_scope : TypeChecker → TypeChecker
pop_scope s = record s { env = pop s.env }

abbrev pub insert_last : Text → Scheme → List (List (Text × Scheme)) → List (List (Text × Scheme))
insert_last name scheme [] = []
insert_last name scheme (scope ∷ env) = ((name, scheme) ∷ scope) ∷ env

unfoldable pub define_scheme : Text → Scheme → TypeChecker → TypeChecker
define_scheme name scheme s = record s { env = insert_last name scheme s.env }

-- A scheme of a type alone, as `define` and `generalize` make it.
abbrev pub scheme_of : List ℕ → List ℕ → List Text → Ty → Scheme
scheme_of vars effect_vars names ty = record {
  vars = vars;
  effect_vars = effect_vars;
  names = names;
  bounds = [];
  ty = ty;
  param_names = [];
  requires = [];
  ensures = [];
  intrinsic = none;
  visibility = hidden;
}

unfoldable pub define : Text → Ty → TypeChecker → TypeChecker
unfolding define_scheme
define name ty s = define_scheme name (scheme_of [] [] [] ty) s

-- `get` of a scope
unfoldable pub find : {A : Type 0} → List (Text × A) → Text → Option A
find [] name = none
find ((key, a) ∷ m) name = let more = find m name in if text_eq key name then some a else more

-- Every visibility lets the scheme be found.
unfoldable pub resolve_in : List (List (Text × Scheme)) → Text → Option Scheme
resolve_in [] name = none
resolve_in (scope ∷ env) name =
    let outer = resolve_in env name in elim (find scope name) [ none ↦ outer | some s ↦ some s ]

unfoldable pub resolve_scheme : Text → TypeChecker → Option Scheme
unfolding resolve_in find
resolve_scheme name s = resolve_in s.env name

abbrev pub new_var : TypeChecker → Ty × TypeChecker
new_var s = (
  var s.next_var,
  record s { var_levels = (s.next_var, s.current_level) ∷ s.var_levels; next_var = suc s.next_var },
)

abbrev pub new_effect_var : TypeChecker → EffectSet × TypeChecker
new_effect_var s = (
  effect_var s.next_effect_var,
  record s {
    effect_var_levels = (s.next_effect_var, s.current_level) ∷ s.effect_var_levels;
    next_effect_var = suc s.next_effect_var;
  },
)

unfoldable pub has_name : Text → List Text → Bool
has_name name [] = false
has_name name (x ∷ xs) = text_eq x name || has_name name xs

unfoldable pub is_proof_mode : TypeChecker → Bool
unfolding has_name
is_proof_mode s = s.in_raw_block || has_name (codes "proof") s.current_attributes
