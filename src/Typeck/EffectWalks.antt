-- ===== src/Typeck/EffectWalks.antt =====
-- crates/izel_typeck/src/lib.rs: on an acyclic substitution of effects `occurs_check_effects` and
-- `adjust_effect_levels` end.
use mathlib.Core.Path.{subst}
use izel.Prelude.{
  ℕ, zero, suc, ◌≤◌, ◌<◌, ◌≡◌, refl, sym, arith, Bool, false, Option, some, ◌∷◌, ◌==◌,
  if◌then◌else◌, ltb, Bool-cases, inl, inr,
}
use izel.Typeck.{EffectSet, concrete, effect_var, row, effect_param}
use izel.Typeck.State.{Map, get, level_or_zero, TypeChecker}
use izel.Typeck.Prune.{
  prune_effects, occurs_check_effects, lower_effect_level, adjust_effect_levels,
}
use izel.Typeck.Terms.{Acyclic, IsRoot}
use izel.Typeck.EffectTerms.{
  occurs_effects, size_effects, effect_terms, resolve_effects, resolve_effects-prune_effects,
  prune_effects-IsRoot, resolve_effects_root, resolve_effects-row, resolve_effects-concrete,
  resolve_effects-param,
}

-- One round of the occurs check, on what the set is.
occurs_round : (EffectSet → Option Bool) → ℕ → EffectSet → Option Bool
occurs_round walk id e = elim e [
  | effect_var other ↦ some (id == other)
  | row _ tail ↦ walk tail
  | _ ↦ some false
]

module _ (m : Map EffectSet) (a : Acyclic effect_terms m) where
  occurs_round_lem :
      (walk : EffectSet → Option Bool) (n id : ℕ) (e : EffectSet)
      → ((u : EffectSet)
          → size_effects (resolve_effects m u) < n
          → walk u ≡ some (occurs_effects id (resolve_effects m u)))
      → IsRoot effect_terms m e
      → size_effects (resolve_effects m e) ≤ n
      → occurs_round walk id e ≡ some (occurs_effects id (resolve_effects m e))
  unfolding occurs_round occurs_effects size_effects
  occurs_round_lem walk n id (effect_var k) f root h = rw (resolve_effects_root m k root) refl
  occurs_round_lem walk n id (row vals tail) f root h =
      let eq = resolve_effects-row m vals tail in
      let fits = rw eq at h in rw eq (f tail (omega (arith, fits)))
  occurs_round_lem walk n id (concrete v) f root h = rw (resolve_effects-concrete m v) refl
  occurs_round_lem walk n id (effect_param p) f root h = rw (resolve_effects-param m p) refl

  pub occurs_check_effects_lem :
      (fuel id : ℕ) (e : EffectSet) (s : TypeChecker)
      → s.effect_substitutions ≡ m
      → size_effects (resolve_effects m e) < fuel
      → occurs_check_effects fuel id e s ≡ some (occurs_effects id (resolve_effects m e))
  unfolding occurs_check_effects occurs_round
  occurs_check_effects_lem zero id e s q h = absurd (omega arith)
  occurs_check_effects_lem (suc fuel) id e s q h =
      let walk = λ (u : EffectSet). occurs_check_effects fuel id u s in
      let same = resolve_effects-prune_effects m e a in
      subst
        (λ x.
          occurs_round walk id (prune_effects x e) ≡ some (occurs_effects id (resolve_effects m e)))
        (sym q)
        (rw same at (
          occurs_round_lem walk fuel id (prune_effects m e)
            (λ u small. occurs_check_effects_lem fuel id u s q small) (prune_effects-IsRoot m e a)
            (rw same (omega arith))))

-- One round of `adjust_effect_levels`, on what the set is.
adjust_round : (EffectSet → Option TypeChecker) → ℕ → EffectSet → TypeChecker → Option TypeChecker
adjust_round walk level e s = elim e [
  | effect_var id ↦ some (lower_effect_level level id s)
  | row _ tail ↦ walk tail
  | _ ↦ some s
]

-- With any fuel from `n` on, the state but for the levels of its effect variables.
abbrev LevelsOf : ℕ → TypeChecker → (ℕ → Option TypeChecker) → Type 0
LevelsOf n s w =
    (ls : Map ℕ) × ((fuel : ℕ) → n ≤ fuel → w fuel ≡ some (record s { effect_var_levels = ls }))

lowered_levels : ℕ → ℕ → Map ℕ → Map ℕ
unfolding get
lowered_levels level id ls = if ltb level (level_or_zero (get ls id)) then (id, level) ∷ ls else ls

module _ (m : Map EffectSet) (a : Acyclic effect_terms m) where
  adjust_round-LevelsOf :
      (walk : ℕ → EffectSet → Option TypeChecker) (n level : ℕ) (e : EffectSet) (s : TypeChecker)
      → ((u : EffectSet)
          → size_effects (resolve_effects m u) < n
          → LevelsOf n s (λ fuel. walk fuel u))
      → size_effects (resolve_effects m e) ≤ n
      → LevelsOf n s (λ fuel. adjust_round (walk fuel) level e s)
  unfolding adjust_round size_effects lowered_levels
  adjust_round-LevelsOf walk n level (effect_var k) s f h =
      elim (Bool-cases (ltb level (level_or_zero (get s.effect_var_levels k)))) [
        | inl less ↦ ((k, level) ∷ s.effect_var_levels, λ _ _. rw less refl)
        | inr more ↦ (s.effect_var_levels, λ _ _. rw more refl)
      ]
  adjust_round-LevelsOf walk n level (row vals tail) s f h =
      let fits = rw (resolve_effects-row m vals tail) at h in f tail (omega (arith, fits))
  adjust_round-LevelsOf walk n level (concrete v) s f h = (s.effect_var_levels, λ _ _. refl)
  adjust_round-LevelsOf walk n level (effect_param p) s f h = (s.effect_var_levels, λ _ _. refl)

  pub adjust_effect_levels-LevelsOf :
      (n level : ℕ) (e : EffectSet) (s : TypeChecker)
      → s.effect_substitutions ≡ m
      → size_effects (resolve_effects m e) < n
      → LevelsOf n s (λ fuel. adjust_effect_levels fuel level e s)
  unfolding adjust_effect_levels adjust_round
  adjust_effect_levels-LevelsOf zero level e s q h = absurd (omega arith)
  adjust_effect_levels-LevelsOf (suc n) level e s q h =
      let walk = λ (fuel : ℕ) (u : EffectSet). adjust_effect_levels fuel level u s in
      let (ls, parts) =
        adjust_round-LevelsOf walk n level (prune_effects m e) s
          (λ u small. adjust_effect_levels-LevelsOf n level u s q small)
          (rw (resolve_effects-prune_effects m e a) (omega arith)) in
      (
        ls,
        elim [
          | zero ↦ λ le. absurd (omega arith)
          | suc fuel ↦ λ le.
              subst
                (λ x.
                  adjust_round (walk fuel) level (prune_effects x e) s
                  ≡ some (record s { effect_var_levels = ls }))
                (sym q) (parts fuel (omega arith))
        ],
      )
