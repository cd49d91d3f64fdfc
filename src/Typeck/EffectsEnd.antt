-- ===== src/Typeck/EffectsEnd.antt =====
-- crates/izel_typeck/src/lib.rs: on an acyclic substitution of effects `bind_effect_var` and `unify_effects`
-- end, and leave one.
use izel.Prelude.{
  ℕ, zero, suc, ◌+◌, ◌≤◌, ◌<◌, ◌≡◌, refl, arith, Bool, true, false, ◌&&◌, some, List, ◌∷◌, ◌==◌,
  if◌then◌else◌, none, Bool-cases, inl, inr, text_eq,
}
use izel.Typeck.{
  Effect, pure, EffectSet, concrete, effect_var, row, effect_param, effects-discrete, is_yes,
}
use izel.Typeck.State.{Map, get, level_or_zero, TypeChecker, M}
use izel.Typeck.Prune.{prune_effects}
use izel.Typeck.Effects.{
  has, is_empty, all_in, minus, covers, is_var, bind_effect_var, unify_row, unify_effect_heads,
  unify_effects,
}
use izel.Typeck.Terms.{Acyclic, IsRoot}
use izel.Typeck.EffectTerms.{
  occurs_effects, size_effects, effect_terms, resolve_effects, resolve_effects-prune_effects,
  prune_effects-IsRoot, resolve_effects_root, resolve_effects-row, resolve_effects-concrete,
}
use izel.Typeck.EffectWalks.{occurs_check_effects_lem, adjust_effect_levels-LevelsOf}

-- With any fuel from `n` on, the state but for what is known of its effect variables; no bindings
-- form a cycle.
abbrev pub Settles : ℕ → TypeChecker → (ℕ → M Bool) → Type 0
Settles n s w =
    (b : Bool) × (es : Map EffectSet) × (ls : Map ℕ) × ((fuel : ℕ)
      → n ≤ fuel
      → w fuel s ≡ some (b, record s { effect_substitutions = es; effect_var_levels = ls }))
    × Acyclic effect_terms es

answer-Settles :
    (n : ℕ) (b : Bool) (s : TypeChecker)
    → Acyclic effect_terms s.effect_substitutions
    → Settles n s (λ _ s. some (b, s))
answer-Settles n b s a = (b, s.effect_substitutions, s.effect_var_levels, λ _ _. refl, a)

bind_effect_var-Settles :
    (n id : ℕ) (e : EffectSet) (s : TypeChecker)
    → Acyclic effect_terms s.effect_substitutions
    → get s.effect_substitutions id ≡ none
    → size_effects (resolve_effects s.effect_substitutions e) < n
    → Settles n s (λ fuel. bind_effect_var fuel id e)
unfolding bind_effect_var
bind_effect_var-Settles n id e s a new h = elim (Bool-cases (is_var e id)) [
  | inl same ↦ (true, s.effect_substitutions, s.effect_var_levels, (λ _ _. rw same refl), a)
  | inr other ↦
      let m = s.effect_substitutions in
      elim (Bool-cases (occurs_effects id (resolve_effects m e))) [
        | inl occurs ↦ (
          false,
          s.effect_substitutions,
          s.effect_var_levels,
          λ fuel le.
              rw (other, occurs_check_effects_lem m a fuel id e s refl (omega arith), occurs) refl,
          a,
        )
        | inr fresh ↦
            let (ls, adjusted) =
              adjust_effect_levels-LevelsOf m a n (level_or_zero (get s.effect_var_levels id)) e s
                refl h in
            (
              true,
              (id, e) ∷ m,
              ls,
              λ fuel le.
                  rw
                    (
                      other,
                      occurs_check_effects_lem m a fuel id e s refl (omega arith),
                      fresh,
                      adjusted fuel le,
                    )
                    refl,
              (a, new, unfold resolve_effects in fresh),
            )
      ]
]

module _ (s : TypeChecker) (a : Acyclic effect_terms s.effect_substitutions)
    (walk : ℕ → EffectSet → EffectSet → M Bool) (n : ℕ) where
  abbrev m : Map EffectSet
  m = s.effect_substitutions

  abbrev size : EffectSet → ℕ
  size e = size_effects (resolve_effects m e)

  if-Settles :
      (t : Bool) (x y : ℕ → M Bool)
      → Settles n s x
      → Settles n s y
      → Settles n s (λ fuel s. if t then x fuel s else y fuel s)
  if-Settles true x y p q = p
  if-Settles false x y p q = q

  root-Settles :
      (id : ℕ) (e : EffectSet)
      → IsRoot effect_terms m (effect_var id)
      → size (effect_var id) + size e ≤ n
      → Settles n s (λ fuel. bind_effect_var fuel id e)
  unfolding size_effects
  root-Settles id e root h =
      let fits = rw (resolve_effects_root m id root) at h in
      bind_effect_var-Settles n id e s a (root id refl) (omega (arith, fits))

  module _ (f : (u v : EffectSet) → size u + size v < n → Settles n s (λ fuel. walk fuel u v)) where
    unify_row-Settles :
        (v vals : List Effect) (tail : EffectSet)
        → size (row vals tail) < n
        → Settles n s (λ fuel. unify_row (walk fuel) v vals tail)
    unfolding unify_row size_effects
    unify_row-Settles v vals tail h =
        let fits = rw (resolve_effects-row m vals tail) at h in
        let rest =
          f tail (concrete (minus v vals))
            (rw (resolve_effects-concrete m (minus v vals)) (omega (arith, fits))) in
        if-Settles (has v pure && is_empty vals) (λ _ s. some (true, s))
          (λ fuel s.
            if all_in vals v then walk fuel tail (concrete (minus v vals)) s else some (false, s))
          (answer-Settles n true s a)
          (if-Settles (all_in vals v) (λ fuel. walk fuel tail (concrete (minus v vals)))
            (λ _ s. some (false, s)) rest (answer-Settles n false s a))

    unify_effect_heads-Settles :
        (e1 e2 : EffectSet)
        → IsRoot effect_terms m e1
        → IsRoot effect_terms m e2
        → size e1 + size e2 ≤ n
        → Settles n s (λ fuel. unify_effect_heads (walk fuel) fuel e1 e2)
    unfolding unify_effect_heads size_effects
    unify_effect_heads-Settles (effect_var i) (effect_var j) r1 r2 h =
        if-Settles (i == j) (λ _ s. some (true, s)) (λ fuel. bind_effect_var fuel i (effect_var j))
          (answer-Settles n true s a) (root-Settles i (effect_var j) r1 h)
    unify_effect_heads-Settles (effect_var i) (concrete v) r1 r2 h =
        root-Settles i (concrete v) r1 h
    unify_effect_heads-Settles (effect_var i) (row vals tail) r1 r2 h =
        root-Settles i (row vals tail) r1 h
    unify_effect_heads-Settles (effect_var i) (effect_param p) r1 r2 h =
        root-Settles i (effect_param p) r1 h
    unify_effect_heads-Settles (concrete v) (effect_var i) r1 r2 h =
        root-Settles i (concrete v) r2 (omega arith)
    unify_effect_heads-Settles (row vals tail) (effect_var i) r1 r2 h =
        root-Settles i (row vals tail) r2 (omega arith)
    unify_effect_heads-Settles (effect_param p) (effect_var i) r1 r2 h =
        root-Settles i (effect_param p) r2 (omega arith)
    unify_effect_heads-Settles (concrete v1) (concrete v2) r1 r2 h =
        answer-Settles n (covers v1 v2) s a
    unify_effect_heads-Settles (row vals1 tail1) (row vals2 tail2) r1 r2 h =
        let fits = rw (resolve_effects-row m vals1 tail1, resolve_effects-row m vals2 tail2) at h in
        if-Settles (is_yes (effects-discrete vals1 vals2)) (λ fuel. walk fuel tail1 tail2)
          (λ _ s. some (false, s)) (f tail1 tail2 (omega (arith, fits)))
          (answer-Settles n false s a)
    unify_effect_heads-Settles (concrete v) (row vals tail) r1 r2 h =
        unify_row-Settles v vals tail
          (let e = rw (resolve_effects-concrete m v) at h in omega (arith, e))
    unify_effect_heads-Settles (row vals tail) (concrete v) r1 r2 h =
        unify_row-Settles v vals tail
          (let e = rw (resolve_effects-concrete m v) at h in omega (arith, e))
    unify_effect_heads-Settles (effect_param p1) (effect_param p2) r1 r2 h =
        answer-Settles n (text_eq p1 p2) s a
    unify_effect_heads-Settles (concrete v) (effect_param p) r1 r2 h = answer-Settles n false s a
    unify_effect_heads-Settles (effect_param p) (concrete v) r1 r2 h = answer-Settles n false s a
    unify_effect_heads-Settles (row vals tail) (effect_param p) r1 r2 h = answer-Settles n false s a
    unify_effect_heads-Settles (effect_param p) (row vals tail) r1 r2 h = answer-Settles n false s a

-- `unify_effects` returns on every two sets where no bindings of effect variables form a cycle, and
-- then none do in the state that it returns. Every fuel above the sizes of the two sets, with all
-- bindings put in, gives one result. The bindings and the levels of effect variables alone change.
pub unify_effects-Settles :
    (n : ℕ) (e1 e2 : EffectSet) (s : TypeChecker)
    → Acyclic effect_terms s.effect_substitutions
    → size_effects (resolve_effects s.effect_substitutions e1)
        + size_effects (resolve_effects s.effect_substitutions e2)
      < n
    → Settles n s (λ fuel. unify_effects fuel e1 e2)
unfolding unify_effects
unify_effects-Settles zero e1 e2 s a h = absurd (omega arith)
unify_effects-Settles (suc n) e1 e2 s a h =
    let m = s.effect_substitutions in
    let (b, es, ls, parts, acyclic) =
      unify_effect_heads-Settles s a unify_effects n
        (λ u v small. unify_effects-Settles n u v s a small) (prune_effects m e1)
        (prune_effects m e2) (prune_effects-IsRoot m e1 a) (prune_effects-IsRoot m e2 a)
        (rw (resolve_effects-prune_effects m e1 a, resolve_effects-prune_effects m e2 a)
          (omega arith)) in
    (
      b,
      es,
      ls,
      elim [ zero ↦ λ le. absurd (omega arith) | suc fuel ↦ λ le. parts fuel (omega arith) ],
      acyclic,
    )
