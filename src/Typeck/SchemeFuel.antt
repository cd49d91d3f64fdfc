-- ===== src/Typeck/SchemeFuel.antt =====
-- crates/izel_typeck/src/lib.rs, `substitute_effects`: where no bindings form a cycle, all fuel above the
-- size of the set with every binding put in gives one result.
use izel.Prelude.{ℕ, zero, suc, ◌<◌, ◌≡◌, refl, ap, arith}
use izel.Typeck.{EffectSet, concrete, effect_var, row, effect_param}
use izel.Typeck.State.{Map, TypeChecker}
use izel.Typeck.Prune.{prune_effects}
use izel.Typeck.Schemes.{substitute_row, substitute_effects}
use izel.Typeck.Terms.{Acyclic}
use izel.Typeck.EffectTerms.{
  effect_terms, size_effects, resolve_effects, resolve_effects-prune_effects, resolve_effects-row,
}

module _ (m : Map EffectSet) (mapping : Map EffectSet) where
  substitute_row_lem :
      (walk walk' : EffectSet → EffectSet) (e : EffectSet)
      → ((u : EffectSet)
          → size_effects (resolve_effects m u) < size_effects (resolve_effects m e)
          → walk u ≡ walk' u)
      → substitute_row walk mapping e ≡ substitute_row walk' mapping e
  unfolding substitute_row size_effects
  substitute_row_lem walk walk' (row vals tail) f =
      ap (row vals) (f tail (rw (resolve_effects-row m vals tail) (omega arith)))
  substitute_row_lem walk walk' (effect_var id) f = refl
  substitute_row_lem walk walk' (concrete v) f = refl
  substitute_row_lem walk walk' (effect_param p) f = refl

pub substitute_effects_fuel :
    (n k : ℕ) (s : TypeChecker) (mapping : Map EffectSet) (e : EffectSet)
    → Acyclic effect_terms s.effect_substitutions
    → size_effects (resolve_effects s.effect_substitutions e) < n
    → size_effects (resolve_effects s.effect_substitutions e) < k
    → substitute_effects n s mapping e ≡ substitute_effects k s mapping e
unfolding substitute_effects
substitute_effects_fuel zero k s mapping e a p q = absurd (omega arith)
substitute_effects_fuel (suc n) zero s mapping e a p q = absurd (omega arith)
substitute_effects_fuel (suc n) (suc k) s mapping e a p q =
    let m = s.effect_substitutions in
    let same = ap size_effects (resolve_effects-prune_effects m e a) in
    substitute_row_lem m mapping (substitute_effects n s mapping) (substitute_effects k s mapping)
      (prune_effects m e)
      (λ u small.
        substitute_effects_fuel n k s mapping u a (omega (arith, same, small))
          (omega (arith, same, small)))
