-- ===== src/Typeck/Covers.antt =====
-- crates/izel_typeck/src/lib.rs, `unify_effects`: what it is for one set of effects to cover another.
use izel.Prelude.{
  and_eq_true, ℕ, suc, some, ◌≡◌, ◌≢◌, ◌↔◌, ◌⊎◌, inl, inr, refl, arith, Bool, true, not, ◌&&◌, List,
  [], ◌∷◌, Bool-cases,
}
use izel.Typeck.{Effect, pure, EffectSet, concrete, Effect-discrete, is_yes}
use izel.Typeck.State.{Map, TypeChecker}
use izel.Typeck.Prune.{steps, prune_effects}
use izel.Typeck.Terms.{chase_root}
use izel.Typeck.EffectTerms.{effect_terms}
use izel.Typeck.Effects.{
  effect_eq, has, all_in, without_pure, no_effect, covers, unify_effect_heads, unify_effects,
}

effect_eq_iff : (a b : Effect) → (effect_eq a b ≡ true) ↔ (a ≡ b)
unfolding effect_eq
effect_eq_iff a b = decided (Effect-discrete a b)
  where
    decided : (d : Dec (a ≡ b)) → (is_yes d ≡ true) ↔ (a ≡ b)
    decided (yes e) = (λ _. e, λ _. refl)
    decided (no n) = (λ h. cc, λ e. absurd (n e))

has-without_pure :
    (v : List Effect) (e : Effect) → has (without_pure v) e ≡ (has v e && not (effect_eq e pure))
unfolding has without_pure
has-without_pure [] e = refl
has-without_pure (x ∷ v) e =
    ground
      (arith, has-without_pure v e, effect_eq_iff x pure, effect_eq_iff e pure, effect_eq_iff x e)

all_in_iff :
    (es v : List Effect) → (all_in es v ≡ true) ↔ ((e : Effect) → has es e ≡ true → has v e ≡ true)
unfolding has all_in
all_in_iff [] v = (λ _ e h. cc, λ _. refl)
all_in_iff (x ∷ es) v = (
  λ h e found. elim (Bool-cases (effect_eq x e)) [
    | inl same ↦ let at : x ≡ e = (effect_eq_iff x e).0 same in rw (← at) (ground arith)
    | inr other ↦ (all_in_iff es v).0 (ground arith) e (ground arith)
  ],
  λ all.
      let first = all x (ground (arith, effect_eq_iff x x)) in
      let others = (all_in_iff es v).1 (λ e found. all e (ground arith)) in ground arith,
)

in_both : (v : List Effect) (e : Effect) → has (without_pure v) e ≡ true → has v e ≡ true
in_both v e h = ground (arith, has-without_pure v e)

is_impure : (v : List Effect) (e : Effect) → has (without_pure v) e ≡ true → e ≢ pure
is_impure v e h p = absurd (ground (arith, has-without_pure v e, effect_eq_iff e pure))

in_impure :
    (v : List Effect) (e : Effect) → e ≢ pure → has v e ≡ true → has (without_pure v) e ≡ true
in_impure v e impure h = ground (arith, has-without_pure v e, effect_eq_iff e pure)

-- The set is empty or holds `pure`, whatever else it holds.
abbrev pub IsEmptyOrPure : List Effect → Type 0
IsEmptyOrPure v = (v ≡ []) ⊎ (has v pure ≡ true)

no_effect_iff : (v : List Effect) → (no_effect v ≡ true) ↔ IsEmptyOrPure v
unfolding has
no_effect_iff [] = (λ _. inl refl, λ _. refl)
no_effect_iff (e ∷ v) = (λ h. inr h, elim [ inl empty ↦ absurd cc | inr h ↦ h ])

covers_iff :
    (v1 v2 : List Effect)
    → (covers v1 v2 ≡ true) ↔ (
        (IsEmptyOrPure v1 × IsEmptyOrPure v2)
        ⊎ ((e : Effect) → e ≢ pure → has v1 e ≡ true → has v2 e ≡ true))
unfolding covers
covers_iff v1 v2 = elim (Bool-cases (no_effect v1 && no_effect v2)) [
  | inl none_such ↦ (
    λ _.
        let (p, q) = and_eq_true _ _ none_such in
        inl ((no_effect_iff v1).0 p, (no_effect_iff v2).0 q),
    λ _. rw none_such refl,
  )
  | inr effects ↦ rw effects (
    λ h. inr (λ e impure found.
        in_both v2 e
          ((all_in_iff (without_pure v1) (without_pure v2)).0 h e (in_impure v1 e impure found))),
    elim [
      | inl (p, q) ↦
          let p' = (no_effect_iff v1).1 p in
          let q' = (no_effect_iff v2).1 q in absurd (ground (arith, p', q'))
      | inr all ↦ (all_in_iff (without_pure v1) (without_pure v2)).1 (λ e found.
          let impure = is_impure v1 e found in
          in_impure v2 e impure (all e impure (in_both v1 e found)))
    ],
  )
]

prune_effects-concrete :
    (m : Map EffectSet) (v : List Effect) → prune_effects m (concrete v) ≡ concrete v
unfolding prune_effects
prune_effects-concrete m v = chase_root effect_terms (steps m) m (concrete v) (λ id e. cc)

unify_effects-covers :
    (fuel : ℕ) (v1 v2 : List Effect) (s : TypeChecker)
    → unify_effects (suc fuel) (concrete v1) (concrete v2) s ≡ some (covers v1 v2, s)
unfolding unify_effects unify_effect_heads
unify_effects-covers fuel v1 v2 s =
    rw
      (
        prune_effects-concrete s.effect_substitutions v1,
        prune_effects-concrete s.effect_substitutions v2,
      )
      refl

-- `unify_effects` on two concrete sets changes nothing, and answers `true` exactly when each of the
-- two is empty or holds `pure`, or when the second holds every effect of the first but `pure`. A set
-- that holds `pure` counts so whatever else it holds: `io` and `pure` unify with the empty set.
pub unify_effects-concrete_iff :
    (fuel : ℕ) (v1 v2 : List Effect) (s : TypeChecker)
    → (b : Bool) × (unify_effects (suc fuel) (concrete v1) (concrete v2) s ≡ some (b, s))
      × ((b ≡ true) ↔ (
          (IsEmptyOrPure v1 × IsEmptyOrPure v2)
          ⊎ ((e : Effect) → e ≢ pure → has v1 e ≡ true → has v2 e ≡ true)))
unify_effects-concrete_iff fuel v1 v2 s =
    (covers v1 v2, unify_effects-covers fuel v1 v2 s, covers_iff v1 v2)
