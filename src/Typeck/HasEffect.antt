-- ===== src/Typeck/HasEffect.antt =====
-- crates/izel_typeck/src/lib.rs: `has_effect` against its reading on a set with every binding put in.
use izel.Prelude.{ℕ, zero, suc, ◌<◌, ◌≡◌, refl, arith, Bool, true, false, ◌||◌, Option, some}
use izel.Typeck.{Effect, pure, EffectSet, concrete, effect_var, row, effect_param}
use izel.Typeck.State.{Map, TypeChecker}
use izel.Typeck.Prune.{prune_effects}
use izel.Typeck.Effects.{has, has_effect}
use izel.Typeck.Terms.{Acyclic, IsRoot}
use izel.Typeck.EffectTerms.{
  effect_terms, size_effects, resolve_effects, resolve_effects-prune_effects, prune_effects-IsRoot,
  resolve_effects_root, resolve_effects-row, resolve_effects-concrete, resolve_effects-param,
}

-- A concrete set that has `pure` has every effect, and what a variable or a parameter stands for has none.
abbrev pub holds : EffectSet → Effect → Bool
holds (concrete v) target = has v target || has v pure
holds (row vals tail) target = has vals target || holds tail target
holds _ target = false

round : (EffectSet → Option Bool) → EffectSet → Effect → Option Bool
round walk e target = elim e [
  | concrete v ↦ some (has v target || has v pure)
  | row vals tail ↦ elim (has vals target) [ true ↦ some true | false ↦ walk tail ]
  | _ ↦ some false
]

pick_lem :
    {rest : Option Bool} {b : Bool} (first : Bool)
    → rest ≡ some b
    → elim first [ true ↦ some true | false ↦ rest ] ≡ some (first || b)
pick_lem true eq = refl
pick_lem false eq = eq

module _ (m : Map EffectSet) (target : Effect) (walk : EffectSet → Option Bool) where
  round_lem :
      (e : EffectSet)
      → ((u : EffectSet)
          → size_effects (resolve_effects m u) < size_effects (resolve_effects m e)
          → walk u ≡ some (holds (resolve_effects m u) target))
      → IsRoot effect_terms m e
      → round walk e target ≡ some (holds (resolve_effects m e) target)
  unfolding round size_effects
  round_lem (effect_var k) f root = rw (resolve_effects_root m k root) refl
  round_lem (concrete v) f root = rw (resolve_effects-concrete m v) refl
  round_lem (effect_param p) f root = rw (resolve_effects-param m p) refl
  round_lem (row vals tail) f root =
      let eq = resolve_effects-row m vals tail in
      rw eq (pick_lem (has vals target) (f tail (rw eq (omega arith))))

-- Where no bindings form a cycle, `has_effect` returns, with the reading of the set with every binding
-- put in: whether some row or the concrete set at the end has the effect, or that set has `pure`. Fuel
-- above the size of that set is enough.
pub has_effect-holds :
    (fuel : ℕ) (e : EffectSet) (target : Effect) (s : TypeChecker)
    → Acyclic effect_terms s.effect_substitutions
    → size_effects (resolve_effects s.effect_substitutions e) < fuel
    → has_effect fuel e target s ≡ some (holds (resolve_effects s.effect_substitutions e) target)
unfolding has_effect round
has_effect-holds zero e target s a h = absurd (omega arith)
has_effect-holds (suc fuel) e target s a h =
    let m = s.effect_substitutions in
    let same = resolve_effects-prune_effects m e a in
    rw same at (
      round_lem m target (λ u. has_effect fuel u target s) (prune_effects m e)
        (λ u small.
          has_effect-holds fuel u target s a (let less = rw same at small in omega (arith, less)))
        (prune_effects-IsRoot m e a))
