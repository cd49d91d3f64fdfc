-- ===== src/Typeck/Ends.antt =====
-- crates/izel_typeck/src/lib.rs: what it is for a part of `unify` to end in a sound state, and the rules
-- for sequences, bindings and effects.
use izel.Prelude.{
  ℕ, suc, ◌+◌, ◌≤◌, ◌<◌, ◌≡◌, ◌⊎◌, inl, inr, refl, sym, ap, ◌∙◌, arith, Bool, true, false, Option,
  none, some, ◌∷◌, Bool-cases, ◌==◌,
}
use izel.Typeck.{var, Ty, Tys, NamedTys, EffectSet}
use izel.Typeck.State.{Map, get, level_or_zero, TypeChecker, M, and_then, answer, is_proof_mode}
use izel.Typeck.Prune.{ty_var, bind_to, bind_var, then_bind, occurs_check_and_adjust_levels}
use izel.Typeck.Terms.{Acyclic, apply_unbound, apply_bound, get-cons_at}
use izel.Typeck.TyTerms.{ty_terms, ty_occurs_at, occurs_ty, resolve, resolve_tys, resolve_named}
use izel.Typeck.EffectTerms.{effect_terms, size_effects, resolve_effects}
use izel.Typeck.Effects.{unify_effects}
use izel.Typeck.Occurs.{check_and_adjust-Answers}
use izel.Typeck.EffectsEnd.{unify_effects-Settles}
use izel.Typeck.Coercion.{
  Coerces, AllCoerce, FieldsCoerce, Extends, unchanged, bound, Extends-trans, Coerces-Extends,
  AllCoerce-Extends,
}
use izel.Typeck.Plain.{IsPlain, BindsPlain, free, free-bind, size}

-- No bindings form a cycle, and every variable is one that was made.
pub record IsSound (s : TypeChecker) : Type 0 where
  pub acyclic : Acyclic ty_terms s.substitutions
  pub effects_acyclic : Acyclic effect_terms s.effect_substitutions
  pub plain : BindsPlain s.next_var s.substitutions

-- A sound state behind `s`: no type variable was bound, or fewer are unbound.
pub record After (s s' : TypeChecker) : Type 0 where
  pub sound : IsSound s'
  pub progress :
      (s'.substitutions ≡ s.substitutions)
      ⊎ (free s'.substitutions s.next_var < free s.substitutions s.next_var)
  pub same_next : s'.next_var ≡ s.next_var
  pub extends : Extends s.substitutions s'.substitutions
  pub same_mode : is_proof_mode s' ≡ is_proof_mode s

-- With enough fuel there is one result, and `Q` holds behind an answer `true`.
abbrev pub Ends : (TypeChecker → Type 0) → (ℕ → M Bool) → TypeChecker → Type 0
Ends Q w s =
    (enough : ℕ) × (b : Bool) × (s' : TypeChecker) × ((fuel : ℕ)
      → enough ≤ fuel
      → w fuel s ≡ some (b, s'))
    × After s s'
    × (b ≡ true → Q s')

-- The two types agree in the state.
abbrev pub Agree : Ty → Ty → TypeChecker → Type 0
Agree t u s = Coerces (is_proof_mode s) (resolve s.substitutions t) (resolve s.substitutions u)

abbrev pub AllAgree : Tys → Tys → TypeChecker → Type 0
AllAgree ts us s =
    AllCoerce (is_proof_mode s) (resolve_tys s.substitutions ts) (resolve_tys s.substitutions us)

abbrev pub FieldsAgree : NamedTys → NamedTys → TypeChecker → Type 0
FieldsAgree ts us s =
    FieldsCoerce (is_proof_mode s) (resolve_named s.substitutions ts)
      (resolve_named s.substitutions us)

pub Agree-After : {s s' : TypeChecker} (t u : Ty) → After s s' → Agree t u s → Agree t u s'
Agree-After t u a h = rw a.same_mode (Coerces-Extends t u a.extends h)

pub AllAgree-After :
    {s s' : TypeChecker} (ts us : Tys) → After s s' → AllAgree ts us s → AllAgree ts us s'
AllAgree-After ts us a h = rw a.same_mode (AllCoerce-Extends ts us a.extends h)

After-refl : {s : TypeChecker} → IsSound s → After s s
After-refl h = record {
  sound = h;
  progress = inl refl;
  same_next = refl;
  extends = unchanged;
  same_mode = refl;
}

progress_trans :
    (n n' : ℕ) (m k j : Map Ty)
    → n' ≡ n
    → (k ≡ m) ⊎ (free k n < free m n)
    → (j ≡ k) ⊎ (free j n' < free k n')
    → (j ≡ m) ⊎ (free j n < free m n)
progress_trans n n' m k j q (inl e) (inl f) = inl (f ∙ e)
progress_trans n n' m k j q (inl e) (inr lt) =
    let lt' = rw q at lt in inr (omega (arith, lt', ap (λ x. free x n) e))
progress_trans n n' m k j q (inr lt) (inl f) = inr (omega (arith, lt, ap (λ x. free x n) f))
progress_trans n n' m k j q (inr lt) (inr lt') =
    let less = rw q at lt' in inr (omega (arith, lt, less))

pub After-trans : {s t u : TypeChecker} → After s t → After t u → After s u
After-trans {s} {t} {u} a b = record {
  sound = b.sound;
  progress =
      progress_trans s.next_var t.next_var s.substitutions t.substitutions u.substitutions
        a.same_next a.progress b.progress;
  same_next = b.same_next ∙ a.same_next;
  extends = Extends-trans a.extends b.extends;
  same_mode = b.same_mode ∙ a.same_mode;
}

pub Ends-map :
    {Q R : TypeChecker → Type 0} (w : ℕ → M Bool) {s : TypeChecker}
    → ((s' : TypeChecker) → After s s' → Q s' → R s')
    → Ends Q w s
    → Ends R w s
Ends-map w f (n, b, s', runs, after, holds) = (n, b, s', runs, after, λ e. f s' after (holds e))

pub answer-Ends :
    (Q : TypeChecker → Type 0) (b : Bool) (s : TypeChecker)
    → IsSound s
    → (b ≡ true → Q s)
    → Ends Q (λ _. answer b) s
unfolding answer
answer-Ends Q b s h holds = (0, b, s, λ _ _. refl, After-refl h, holds)

pub and_then-Ends :
    (Q R : TypeChecker → Type 0) (v w : ℕ → M Bool) (s : TypeChecker)
    → Ends Q v s
    → ((t : TypeChecker) → After s t → Q t → Ends R w t)
    → Ends R (λ fuel. and_then (v fuel) (w fuel)) s
unfolding and_then
and_then-Ends Q R v w s (n, true, t, runs, after, holds) f =
    let (k, b, u, more, later, now) = f t after (holds refl) in
    (
      n + k,
      b,
      u,
      λ fuel le. rw (runs fuel (omega arith), more fuel (omega arith)) refl,
      After-trans after later,
      now,
    )
and_then-Ends Q R v w s (n, false, t, runs, after, holds) f =
    (n, false, t, λ fuel le. rw (runs fuel le) refl, after, λ e. cc)

bind_to_other :
    (o : Option ℕ) (id : ℕ) (t : Ty) (m : Map Ty) → ¬ (o ≡ some id) → bind_to o id t m ≡ (id, t) ∷ m
bind_to_other none id t m h = refl
bind_to_other (some k) id t m h = elim (Bool-cases (id == k)) [
  | inl same ↦ let e : id ≡ k = ground arith in absurd (h (ap some (sym e)))
  | inr other ↦ rw other refl
]

not_itself :
    (m : Map Ty) (id : ℕ) (t : Ty)
    → get m id ≡ none
    → occurs_ty id (resolve m t) ≡ false
    → ¬ (ty_var t ≡ some id)
unfolding resolve
not_itself m id t new fresh e = cc (apply_unbound ty_terms m id t e new, fresh, ty_occurs_at id t e)

-- A variable stands for the type that it is bound to.
abbrev pub StandsFor : ℕ → Ty → TypeChecker → Type 0
StandsFor id t s = resolve s.substitutions (var id) ≡ resolve s.substitutions t

bound-StandsFor :
    (id : ℕ) (t : Ty) (s : TypeChecker)
    → IsSound s
    → get s.substitutions id ≡ none
    → occurs_ty id (resolve s.substitutions t) ≡ false
    → StandsFor id t (record s { substitutions = (id, t) ∷ s.substitutions })
unfolding resolve
bound-StandsFor id t s h new fresh =
    let m = s.substitutions in
    apply_bound ty_terms ((id, t) ∷ m) id (var id) t (h.acyclic, new, fresh) refl
      (get-cons_at ty_terms id t m)

-- A binding of a variable, where it is not refused.
pub bind-Ends :
    (id : ℕ) (t : Ty) (s : TypeChecker)
    → IsSound s
    → get s.substitutions id ≡ none
    → id < s.next_var
    → IsPlain s.next_var t
    → Ends (StandsFor id t) (λ fuel. occurs_check_and_adjust_levels fuel id t) s
unfolding occurs_check_and_adjust_levels and_then then_bind bind_var size is_proof_mode
bind-Ends id t s h new below plain =
    let m = s.substitutions in
    let (ls, checks) =
      check_and_adjust-Answers m (suc (size m t)) id (level_or_zero (get s.var_levels id)) t
        h.acyclic (omega arith) s refl in
    elim (Bool-cases (occurs_ty id (resolve m t))) [
      | inl occurs ↦ (
        suc (size m t),
        false,
        record s { var_levels = ls },
        λ fuel le. rw (checks fuel le, occurs) refl,
        record {
          sound = record {
            acyclic = h.acyclic;
            effects_acyclic = h.effects_acyclic;
            plain = h.plain;
          };
          progress = inl refl;
          same_next = refl;
          extends = unchanged;
          same_mode = refl;
        },
        λ e. cc,
      )
      | inr fresh ↦ (
        suc (size m t),
        true,
        record s { substitutions = (id, t) ∷ m; var_levels = ls },
        λ fuel le.
            rw
              (checks fuel le, fresh, bind_to_other (ty_var t) id t m (not_itself m id t new fresh))
              refl,
        record {
          sound = record {
            acyclic = (h.acyclic, new, unfold resolve in fresh);
            effects_acyclic = h.effects_acyclic;
            plain = (below, plain, h.plain);
          };
          progress = inr (free-bind id t m s.next_var new below);
          same_next = refl;
          extends = bound id t unchanged;
          same_mode = refl;
        },
        λ _. bound-StandsFor id t s h new (unfold resolve in fresh),
      )
    ]

pub effects-Ends :
    (e1 e2 : EffectSet) (s : TypeChecker)
    → IsSound s
    → Ends (λ _. Unit) (λ fuel. unify_effects fuel e1 e2) s
unfolding is_proof_mode
effects-Ends e1 e2 s h =
    let m = s.effect_substitutions in
    let enough = suc (size_effects (resolve_effects m e1) + size_effects (resolve_effects m e2)) in
    let (b, es, ls, runs, acyclic) =
      unify_effects-Settles enough e1 e2 s h.effects_acyclic (omega arith) in
    (
      enough,
      b,
      record s { effect_substitutions = es; effect_var_levels = ls },
      runs,
      record {
        sound = record { acyclic = h.acyclic; effects_acyclic = acyclic; plain = h.plain };
        progress = inl refl;
        same_next = refl;
        extends = unchanged;
        same_mode = refl;
      },
      λ _. tt,
    )

-- Fewer than `n` variables are unbound, or at most `n` are and what is left has a size below `k`.
abbrev pub Within : ℕ → ℕ → (Map Ty → ℕ) → TypeChecker → Type 0
Within n k left s =
    (free s.substitutions s.next_var < n)
    ⊎ ((free s.substitutions s.next_var ≤ n) × (left s.substitutions < k))

pub Within-le :
    (n k : ℕ) (left less : Map Ty → ℕ) (s : TypeChecker)
    → less s.substitutions ≤ left s.substitutions
    → Within n k left s
    → Within n k less s
Within-le n k left less s le (inl few) = inl few
Within-le n k left less s le (inr (few, small)) = inr (few, omega (arith, le, small))

pub Within-After :
    (n k : ℕ) (left : Map Ty → ℕ) {s t : TypeChecker}
    → After s t
    → Within n k left s
    → Within n k left t
Within-After n k left {s} {t} a w = within a.progress w
  where
    within :
        (t.substitutions ≡ s.substitutions)
          ⊎ (free t.substitutions s.next_var < free s.substitutions s.next_var)
        → Within n k left s
        → Within n k left t
    within p w = rw a.same_next (within_free p w)
      where
        within_free :
            (t.substitutions ≡ s.substitutions)
              ⊎ (free t.substitutions s.next_var < free s.substitutions s.next_var)
            → Within n k left s
            → (free t.substitutions s.next_var < n)
              ⊎ ((free t.substitutions s.next_var ≤ n) × (left t.substitutions < k))
        within_free (inl e) w = rw e w
        within_free (inr lt) (inl few) = inl (omega (arith, lt, few))
        within_free (inr lt) (inr (few, _)) = inl (omega (arith, lt, few))
