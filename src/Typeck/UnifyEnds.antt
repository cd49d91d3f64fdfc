-- ===== src/Typeck/UnifyEnds.antt =====
-- crates/izel_typeck/src/lib.rs: `unify` returns, leaves a sound state, and is right where it answers `true`.
use izel.Prelude.{ℕ, zero, suc, ◌+◌, ◌≤◌, ◌≡◌, inl, inr, refl, arith, Bool, true, some, ◌∙◌}
use izel.Typeck.{Ty, var, assoc}
use izel.Typeck.State.{TypeChecker, M, is_proof_mode}
use izel.Typeck.Prune.{prune}
use izel.Typeck.TyTerms.{prune-IsRoot, resolve, resolve-prune}
use izel.Typeck.Plain.{IsPlain, prune-IsPlain, free, size, size-prune}
use izel.Typeck.Unify.{arm, run_arm, through_assoc, unify_pruned, unify}
use izel.Typeck.Coercion.{Coerces, resolve-Extends}
use izel.Typeck.Ends.{IsSound, After, Ends, Within, Agree}
use izel.Typeck.UnifyArms.{arm-Ends}

through_assoc-plain :
    (n fuel : ℕ) (g : Ty → M Bool) (t : Ty) (next : M Bool) (s : TypeChecker)
    → IsPlain n t
    → through_assoc fuel g t next s ≡ next s
unfolding through_assoc IsPlain
through_assoc-plain n fuel g (assoc t name) next s p = absurd p
through_assoc-plain n fuel g (var k) next s p = refl
through_assoc-plain n fuel g _ next s p = refl

-- One call, on the types behind the chains of bindings.
call-Ends :
    (n k : ℕ)
    → ((s : TypeChecker) (t u : Ty)
        → IsSound s
        → IsPlain s.next_var t
        → IsPlain s.next_var u
        → Within n k (λ m. size m t + size m u) s
        → Ends (Agree t u) (λ fuel. unify fuel t u) s)
    → (s : TypeChecker) (t u : Ty) → IsSound s
    → IsPlain s.next_var t
    → IsPlain s.next_var u
    → free s.substitutions s.next_var ≤ n
    → size s.substitutions t + size s.substitutions u ≤ k
    → Ends (Agree t u) (λ fuel. unify fuel t u) s
unfolding unify unify_pruned
call-Ends n k f s t u h p q few le =
    let m = s.substitutions in
    let t' = prune m t in
    let u' = prune m u in
    let p' = prune-IsPlain s.next_var m t h.plain p in
    let q' = prune-IsPlain s.next_var m u h.plain q in
    let (enough, b, s', runs, after, agrees) =
      arm-Ends n k f s h few (omega (arith, size-prune m t h.acyclic, size-prune m u h.acyclic))
        (arm t' u') (prune-IsRoot m t h.acyclic) (prune-IsRoot m u h.acyclic) p' q' in
    (
      suc enough,
      b,
      s',
      elim [
        | zero ↦ λ fits. absurd (omega arith)
        | suc fuel ↦ λ fits.
            through_assoc-plain s.next_var fuel (λ x. unify fuel x u') t'
              (through_assoc fuel (unify fuel t') u' (run_arm (unify fuel) fuel (arm t' u'))) s p'
            ∙ through_assoc-plain s.next_var fuel (unify fuel t') u'
                (run_arm (unify fuel) fuel (arm t' u')) s q'
            ∙ runs fuel (omega arith)
      ],
      after,
      λ e. pruned s' after (agrees e),
    )
  where
    pruned :
        (s' : TypeChecker)
        → After s s'
        → Agree (prune s.substitutions t) (prune s.substitutions u) s'
        → Agree t u s'
    pruned s' a agree =
        let m = s.substitutions in
        rw
          (
            ← resolve-Extends (prune m t) t a.extends (resolve-prune m t h.acyclic),
            ← resolve-Extends (prune m u) u a.extends (resolve-prune m u h.acyclic),
          )
          agree

unify-Ends :
    (n k : ℕ) (s : TypeChecker) (t u : Ty)
    → IsSound s
    → IsPlain s.next_var t
    → IsPlain s.next_var u
    → free s.substitutions s.next_var ≤ n
    → size s.substitutions t + size s.substitutions u ≤ k
    → Ends (Agree t u) (λ fuel. unify fuel t u) s
unify-Ends zero zero = call-Ends zero zero (λ s t u h p q. elim [
  | inl few ↦ absurd (omega arith)
  | inr (few, small) ↦ absurd (omega arith)
])
unify-Ends zero (suc k) = call-Ends zero (suc k) (λ s t u h p q. elim [
  | inl few ↦ absurd (omega arith)
  | inr (few, small) ↦ unify-Ends zero k s t u h p q few (omega arith)
])
unify-Ends (suc n) zero = call-Ends (suc n) zero (λ s t u h p q. elim [
  | inl few ↦
      unify-Ends n (size s.substitutions t + size s.substitutions u) s t u h p q (omega arith)
        (omega arith)
  | inr (few, small) ↦ absurd (omega arith)
])
unify-Ends (suc n) (suc k) = call-Ends (suc n) (suc k) (λ s t u h p q. elim [
  | inl few ↦
      unify-Ends n (size s.substitutions t + size s.substitutions u) s t u h p q (omega arith)
        (omega arith)
  | inr (few, small) ↦ unify-Ends (suc n) k s t u h p q few (omega arith)
])

-- `unify` returns on every two types without associated types, in a state in which no bindings of
-- type or effect variables form a cycle and every type variable is below `next_var`: with every fuel
-- from some bound on it gives one answer and one state. No bindings form a cycle in that state
-- either, its type variables are below `next_var`, which is unchanged, and either no type variable
-- was bound or fewer are left unbound.
pub unify_returns :
    (s : TypeChecker) (t u : Ty)
    → IsSound s
    → IsPlain s.next_var t
    → IsPlain s.next_var u
    → (enough : ℕ) × (b : Bool) × (s' : TypeChecker) × ((fuel : ℕ)
        → enough ≤ fuel
        → unify fuel t u s ≡ some (b, s'))
      × After s s'
unify_returns s t u h p q =
    let (enough, b, s', runs, after, _) =
      unify-Ends (free s.substitutions s.next_var) (size s.substitutions t + size s.substitutions u)
        s t u h p q (omega arith) (omega arith) in
    (enough, b, s', runs, after)

-- On every two types without associated types, in such a state, `unify` returns, and where it answers
-- `true` the two types, with every binding of the new state put in, coerce: they are equal but for
-- the promotions of optional and cascade types, of witnesses, which take plain values in proof mode
-- alone, of `none`, `never` and the type of errors, for the spans in predicates and for the
-- effects of functions.
pub unify_sound :
    (s : TypeChecker) (t u : Ty)
    → IsSound s
    → IsPlain s.next_var t
    → IsPlain s.next_var u
    → (enough : ℕ) × (b : Bool) × (s' : TypeChecker) × ((fuel : ℕ)
        → enough ≤ fuel
        → unify fuel t u s ≡ some (b, s'))
      × (b ≡ true
          → Coerces (is_proof_mode s) (resolve s'.substitutions t) (resolve s'.substitutions u))
unify_sound s t u h p q =
    let (enough, b, s', runs, after, agree) =
      unify-Ends (free s.substitutions s.next_var) (size s.substitutions t + size s.substitutions u)
        s t u h p q (omega arith) (omega arith) in
    (enough, b, s', runs, λ e. rw (← after.same_mode) (agree e))
