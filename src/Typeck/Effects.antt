-- ===== src/Typeck/Effects.antt =====
-- crates/izel_typeck/src/lib.rs: sets of effects, from `unify_effects` to `bind_effect_var`. The calls
-- that go round take fuel for their depth.
use izel.Prelude.{
  ℕ, zero, suc, Bool, true, false, ◌&&◌, ◌||◌, Option, none, some, List, [], ◌∷◌, ◌==◌,
  if◌then◌else◌, ◌>>=◌, text_eq,
}
use izel.Typeck.{
  Effect, pure, EffectSet, concrete, effect_var, row, effect_param, Effect-discrete,
  effects-discrete, is_yes,
}
use izel.Typeck.State.{get, level_or_zero, TypeChecker, M, new_effect_var}
use izel.Typeck.Prune.{prune_effects, occurs_check_effects, adjust_effect_levels}

unfoldable pub effect_eq : Effect → Effect → Bool
unfolding Effect-discrete
effect_eq a b = is_yes (Effect-discrete a b)

-- `contains`
unfoldable pub has : List Effect → Effect → Bool
has [] e = false
has (x ∷ xs) e = effect_eq x e || has xs e

abbrev pub is_empty : List Effect → Bool
is_empty [] = true
is_empty (_ ∷ _) = false

-- `for e in es { if !v.contains(e) { return false } } true`
unfoldable pub all_in : List Effect → List Effect → Bool
all_in [] v = true
all_in (e ∷ es) v = has v e && all_in es v

-- `iter().filter(|e| **e != Effect::Pure)`
unfoldable pub without_pure : List Effect → List Effect
without_pure [] = []
without_pure (e ∷ es) = let rest = without_pure es in if effect_eq e pure then rest else e ∷ rest

-- `iter().filter(|e| !vals.contains(e))`
unfoldable pub minus : List Effect → List Effect → List Effect
minus [] vals = []
minus (e ∷ es) vals = let rest = minus es vals in if has vals e then rest else e ∷ rest

abbrev pub no_effect : List Effect → Bool
no_effect v = is_empty v || has v pure

unfoldable pub covers : List Effect → List Effect → Bool
covers v1 v2 =
    if no_effect v1 && no_effect v2 then true else all_in (without_pure v1) (without_pure v2)

abbrev pub insert_effects : ℕ → EffectSet → TypeChecker → Bool × TypeChecker
insert_effects id e s = (true, record s { effect_substitutions = (id, e) ∷ s.effect_substitutions })

abbrev pub is_var : EffectSet → ℕ → Bool
is_var (effect_var other) id = id == other
is_var _ id = false

unfoldable pub bind_effect_var : ℕ → ℕ → EffectSet → M Bool
unfolding get
bind_effect_var fuel id e s =
    if is_var e id
    then some (true, s)
    else occurs_check_effects fuel id e s >>= λ occurs.
        (if occurs
          then some (false, s)
          else adjust_effect_levels fuel (level_or_zero (get s.effect_var_levels id)) e s
            >>= λ adjusted. some (insert_effects id e adjusted))

-- The case of a set and a row.
unfoldable pub unify_row :
    (EffectSet → EffectSet → M Bool) → List Effect → List Effect → EffectSet → M Bool
unify_row unify v vals tail s =
    if has v pure && is_empty vals
    then some (true, s)
    else if all_in vals v
    then unify tail (concrete (minus v vals)) s
    else some (false, s)

unfoldable pub unify_effect_heads :
    (EffectSet → EffectSet → M Bool) → ℕ → EffectSet → EffectSet → M Bool
unfolding unify_row covers bind_effect_var
unify_effect_heads unify fuel (effect_var id1) (effect_var id2) s =
    if id1 == id2 then some (true, s) else bind_effect_var fuel id1 (effect_var id2) s
unify_effect_heads unify fuel (effect_var id) other s = bind_effect_var fuel id other s
unify_effect_heads unify fuel other (effect_var id) s = bind_effect_var fuel id other s
unify_effect_heads unify fuel (concrete v1) (concrete v2) s = some (covers v1 v2, s)
unify_effect_heads unify fuel (row vals1 tail1) (row vals2 tail2) s =
    if is_yes (effects-discrete vals1 vals2) then unify tail1 tail2 s else some (false, s)
unify_effect_heads unify fuel (concrete v) (row vals tail) s = unify_row unify v vals tail s
unify_effect_heads unify fuel (row vals tail) (concrete v) s = unify_row unify v vals tail s
unify_effect_heads unify fuel (effect_param p1) (effect_param p2) s = some (text_eq p1 p2, s)
unify_effect_heads unify fuel _ _ s = some (false, s)

unfoldable pub unify_effects : ℕ → EffectSet → EffectSet → M Bool
unify_effects zero e1 e2 s = none
unify_effects (suc fuel) e1 e2 s =
    unify_effect_heads (unify_effects fuel) fuel (prune_effects s.effect_substitutions e1)
      (prune_effects s.effect_substitutions e2) s

abbrev pub grow : ℕ → ℕ → Effect → EffectSet × TypeChecker → Option TypeChecker
grow fuel id e (tail, s) = bind_effect_var fuel id (row (e ∷ []) tail) s >>= λ r. some r.1

unfoldable pub add_single_effect : ℕ → EffectSet → Effect → TypeChecker → Option TypeChecker
add_single_effect zero current e s = none
add_single_effect (suc fuel) current e s = elim (prune_effects s.effect_substitutions current) [
  | effect_var id ↦ grow fuel id e (new_effect_var s)
  | row vals tail ↦ elim (has vals e) [ true ↦ some s | false ↦ add_single_effect fuel tail e s ]
  | _ ↦ some s
]

-- `for e in v { self.add_single_effect(&current, e) }`
unfoldable pub add_effects : ℕ → EffectSet → List Effect → TypeChecker → Option TypeChecker
add_effects fuel current [] s = some s
add_effects fuel current (e ∷ es) s =
    add_single_effect fuel current e s >>= add_effects fuel current es

unfoldable pub accumulate_effects : ℕ → EffectSet → EffectSet → TypeChecker → Option TypeChecker
unfolding unify_effects
accumulate_effects zero current new s = none
accumulate_effects (suc fuel) current new s =
    let into = prune_effects s.effect_substitutions current in
    elim (prune_effects s.effect_substitutions new) [
      | concrete v ↦ add_effects fuel into v s
      | row vals tail ↦ add_effects fuel into vals s >>= accumulate_effects fuel into tail
      | effect_var id ↦ unify_effects fuel into (effect_var id) s >>= λ r. some r.1
      | effect_param p ↦ unify_effects fuel into (effect_param p) s >>= λ r. some r.1
    ]

unfoldable pub has_effect : ℕ → EffectSet → Effect → TypeChecker → Option Bool
has_effect zero set target s = none
has_effect (suc fuel) set target s = elim (prune_effects s.effect_substitutions set) [
  | concrete v ↦ some (has v target || has v pure)
  | row vals tail ↦ elim (has vals target) [
    | true ↦ some true
    | false ↦ has_effect fuel tail target s
  ]
  | _ ↦ some false
]
