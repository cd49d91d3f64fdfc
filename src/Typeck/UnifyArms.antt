-- ===== src/Typeck/UnifyArms.antt =====
-- crates/izel_typeck/src/lib.rs: each arm of `unify` ends in a sound state, where the calls that it makes do.
use izel.Prelude.{
  ℕ, ◌+◌, ◌≤◌, ◌<◌, ◌≡◌, inl, inr, refl, arith, Bool, true, false, ◌∙◌, ◌&&◌, ◌==◌, Bool-cases,
  ==_iff, and_eq_true,
}
use izel.Ast.Equality.{bool_eq, bool_eq_iff}
use izel.Ast.AlphaEq.{alpha_eq}
use izel.Typeck.{
  Ty, var, PrimType-discrete, BuiltinWitness-discrete, Lifetime-discrete, is_yes, prim, adt,
  optional, cascade, error, predicate, static, function, is_yes_true, never, PrimType,
}
use izel.Typeck.State.{TypeChecker, and_then, answer, is_proof_mode}
use izel.Typeck.Prune.{occurs_check_and_adjust_levels}
use izel.Typeck.Effects.{unify_effects}
use izel.Typeck.Terms.{IsRoot}
use izel.Typeck.TyTerms.{ty_terms, resolve}
use izel.Typeck.TyResolve.{
  resolve-prim, resolve-error, resolve-predicate, resolve-optional, resolve-cascade,
  resolve-witness, resolve-pointer, resolve-builtin, resolve-static, resolve-function,
}
use izel.Typeck.Plain.{IsPlain, free, size, sizes, sizes_named, size_laws}
use izel.Typeck.Unify.{
  Arm, both_var, var_left, var_right, never_left, never_right, prims, none_optional, optional_none,
  none_cascade, cascade_none, optional_cascade, cascade_optional, statics, optionals, cascades,
  pointers, witnesses, builtins, functions, adts, predicates, to_optional, to_cascade,
  from_optional, from_cascade, from_witness, to_witness, to_builtin, from_builtin, error_left,
  error_right, otherwise, unify_zip, unify_named, same_length, same_length_named, run_arm, unify,
}
use izel.Typeck.Coercion
use izel.Typeck.Coercion.{Coerces, equal, resolve-Extends}
use izel.Typeck.Ends.{
  IsSound, After-trans, Ends, Within, Within-After, answer-Ends, and_then-Ends, bind-Ends,
  effects-Ends, Ends-map, Agree, AllAgree, AllAgree-After, Agree-After, StandsFor,
}
use izel.Typeck.EndsLists.{zip-Ends, named-Ends}

module _ (n k : ℕ)
    (f : (s : TypeChecker) (t u : Ty)
      → IsSound s
      → IsPlain s.next_var t
      → IsPlain s.next_var u
      → Within n k (λ m. size m t + size m u) s
      → Ends (Agree t u) (λ fuel. unify fuel t u) s) where
  again :
      (s : TypeChecker) (t u : Ty)
      → IsSound s
      → IsPlain s.next_var t
      → IsPlain s.next_var u
      → free s.substitutions s.next_var ≤ n
      → size s.substitutions t + size s.substitutions u < k
      → Ends (Agree t u) (λ fuel. unify fuel t u) s
  again s t u h p q few small = f s t u h p q (inr (few, small))

  guarded :
      (b : Bool) (s : TypeChecker) (t u : Ty)
      → IsSound s
      → IsPlain s.next_var t
      → IsPlain s.next_var u
      → free s.substitutions s.next_var ≤ n
      → size s.substitutions t + size s.substitutions u < k
      → Ends (λ s'. (b ≡ true) × Agree t u s') (λ fuel. and_then (answer b) (unify fuel t u)) s
  guarded b s t u h p q few small =
      and_then-Ends (λ _. b ≡ true) (λ s'. (b ≡ true) × Agree t u s') (λ _. answer b)
        (λ fuel. unify fuel t u) s (answer-Ends (λ _. b ≡ true) b s h (λ e. e))
        (λ s' a e.
          Ends-map (λ fuel. unify fuel t u) (λ _ _ agree. (e, agree))
            (f s' t u a.sound (rw a.same_next p) (rw a.same_next q)
              (Within-After n k (λ m. size m t + size m u) a (inr (few, small)))))

  bound_left :
      (id : ℕ) (t : Ty) {s : TypeChecker}
      → Ends (StandsFor id t) (λ fuel. occurs_check_and_adjust_levels fuel id t) s
      → Ends (Agree (var id) t) (λ fuel. occurs_check_and_adjust_levels fuel id t) s
  bound_left id t =
      Ends-map (λ fuel. occurs_check_and_adjust_levels fuel id t)
        (λ s' a e. rw e (equal (resolve s'.substitutions t)))

  pub arm-Ends :
      (s : TypeChecker)
      → IsSound s
      → free s.substitutions s.next_var ≤ n
      → {t u : Ty} → size s.substitutions t + size s.substitutions u ≤ k
      → (a : Arm t u) → IsRoot ty_terms s.substitutions t
      → IsRoot ty_terms s.substitutions u
      → IsPlain s.next_var t
      → IsPlain s.next_var u
      → Ends (Agree t u) (λ fuel. run_arm (unify fuel) fuel a) s
  unfolding run_arm IsPlain
  arm-Ends s h few le (both_var id1 id2) r1 r2 p1 p2 = elim (Bool-cases (id1 == id2)) [
    | inl one ↦
        let e : id1 ≡ id2 = ground arith in
        rw one (
          answer-Ends (Agree (var id1) (var id2)) true s h
            (λ _. rw e (equal (resolve s.substitutions (var id2)))))
    | inr two ↦ rw two (bound_left id1 (var id2) (bind-Ends id1 (var id2) s h (r1 id1 refl) p1 p2))
  ]
  arm-Ends s h few le (var_left id t) r1 r2 p1 p2 =
      bound_left id t (bind-Ends id t s h (r1 id refl) p1 p2)
  arm-Ends s h few le (var_right t id) r1 r2 p1 p2 =
      Ends-map (λ fuel. occurs_check_and_adjust_levels fuel id t)
        (λ s' a e. rw e (equal (resolve s'.substitutions t)))
        (bind-Ends id t s h (r2 id refl) p2 p1)
  arm-Ends s h few le (never_left t) r1 r2 p1 p2 = answer-Ends (Agree (prim never) t) true s h (λ e.
      rw (resolve-prim s.substitutions never) (Coercion.never_left (resolve s.substitutions t)))
  arm-Ends s h few le (never_right t) r1 r2 p1 p2 =
      answer-Ends (Agree t (prim never)) true s h (λ e.
        rw (resolve-prim s.substitutions never) (Coercion.never_right (resolve s.substitutions t)))
  arm-Ends s h few le (none_optional t) r1 r2 p1 p2 =
      answer-Ends (Agree (prim PrimType.none) (optional t)) true s h (λ e.
        rw (resolve-prim s.substitutions PrimType.none, resolve-optional s.substitutions t)
          (Coercion.none_optional (resolve s.substitutions t)))
  arm-Ends s h few le (optional_none t) r1 r2 p1 p2 =
      answer-Ends (Agree (optional t) (prim PrimType.none)) true s h (λ e.
        rw (resolve-prim s.substitutions PrimType.none, resolve-optional s.substitutions t)
          (Coercion.optional_none (resolve s.substitutions t)))
  arm-Ends s h few le (none_cascade t) r1 r2 p1 p2 =
      answer-Ends (Agree (prim PrimType.none) (cascade t)) true s h (λ e.
        rw (resolve-prim s.substitutions PrimType.none, resolve-cascade s.substitutions t)
          (Coercion.none_cascade (resolve s.substitutions t)))
  arm-Ends s h few le (cascade_none t) r1 r2 p1 p2 =
      answer-Ends (Agree (cascade t) (prim PrimType.none)) true s h (λ e.
        rw (resolve-prim s.substitutions PrimType.none, resolve-cascade s.substitutions t)
          (Coercion.cascade_none (resolve s.substitutions t)))
  arm-Ends s h few le (error_left t) r1 r2 p1 p2 =
      answer-Ends (Agree error t) true s h
        (λ e. rw (resolve-error s.substitutions) (Coercion.error_left (resolve s.substitutions t)))
  arm-Ends s h few le (error_right t) r1 r2 p1 p2 =
      answer-Ends (Agree t error) true s h
        (λ e. rw (resolve-error s.substitutions) (Coercion.error_right (resolve s.substitutions t)))
  arm-Ends s h few le (prims p q) r1 r2 p1 p2 =
      answer-Ends (Agree (prim p) (prim q)) (is_yes (PrimType-discrete p q)) s h
        (λ e. rw (is_yes_true (PrimType-discrete p q) e) (equal (resolve s.substitutions (prim q))))
  arm-Ends s h few le (adts id1 id2) r1 r2 p1 p2 =
      answer-Ends (Agree (adt id1) (adt id2)) (id1 == id2) s h
        (λ e. rw ((==_iff id1 id2).0 e) (equal (resolve s.substitutions (adt id2))))
  arm-Ends s h few le (predicates e1 e2) r1 r2 p1 p2 =
      answer-Ends (Agree (predicate e1) (predicate e2)) (alpha_eq e1 e2) s h (λ e.
        rw (resolve-predicate s.substitutions e1, resolve-predicate s.substitutions e2)
          (Coercion.predicates e1 e2 e))
  arm-Ends s h few le (otherwise t1 t2) r1 r2 p1 p2 = answer-Ends (Agree t1 t2) false s h (λ e. cc)
  arm-Ends s h few le (optional_cascade o c) r1 r2 p1 p2 =
      Ends-map (λ fuel. unify fuel o c)
        (λ s' a h.
          rw (resolve-optional s'.substitutions o, resolve-cascade s'.substitutions c)
            (Coercion.optional_cascade h))
        (again s o c h p1 p2 few (omega size_laws))
  arm-Ends s h few le (cascade_optional c o) r1 r2 p1 p2 =
      Ends-map (λ fuel. unify fuel c o)
        (λ s' a h.
          rw (resolve-cascade s'.substitutions c, resolve-optional s'.substitutions o)
            (Coercion.cascade_optional h))
        (again s c o h p1 p2 few (omega size_laws))
  arm-Ends s h few le (optionals o1 o2) r1 r2 p1 p2 =
      Ends-map (λ fuel. unify fuel o1 o2)
        (λ s' a h.
          rw (resolve-optional s'.substitutions o1, resolve-optional s'.substitutions o2)
            (Coercion.optionals h))
        (again s o1 o2 h p1 p2 few (omega size_laws))
  arm-Ends s h few le (cascades c1 c2) r1 r2 p1 p2 =
      Ends-map (λ fuel. unify fuel c1 c2)
        (λ s' a h.
          rw (resolve-cascade s'.substitutions c1, resolve-cascade s'.substitutions c2)
            (Coercion.cascades h))
        (again s c1 c2 h p1 p2 few (omega size_laws))
  arm-Ends s h few le (witnesses w1 w2) r1 r2 p1 p2 =
      Ends-map (λ fuel. unify fuel w1 w2)
        (λ s' a h.
          rw (resolve-witness s'.substitutions w1, resolve-witness s'.substitutions w2)
            (Coercion.witnesses h))
        (again s w1 w2 h p1 p2 few (omega size_laws))
  arm-Ends s h few le (to_optional t o) r1 r2 p1 p2 =
      Ends-map (λ fuel. unify fuel t o)
        (λ s' a h. rw (resolve-optional s'.substitutions o) (Coercion.to_optional h))
        (again s t o h p1 p2 few (omega size_laws))
  arm-Ends s h few le (to_cascade t c) r1 r2 p1 p2 =
      Ends-map (λ fuel. unify fuel t c)
        (λ s' a h. rw (resolve-cascade s'.substitutions c) (Coercion.to_cascade h))
        (again s t c h p1 p2 few (omega size_laws))
  arm-Ends s h few le (from_optional o t) r1 r2 p1 p2 =
      Ends-map (λ fuel. unify fuel o t)
        (λ s' a h. rw (resolve-optional s'.substitutions o) (Coercion.from_optional h))
        (again s o t h p1 p2 few (omega size_laws))
  arm-Ends s h few le (from_cascade c t) r1 r2 p1 p2 =
      Ends-map (λ fuel. unify fuel c t)
        (λ s' a h. rw (resolve-cascade s'.substitutions c) (Coercion.from_cascade h))
        (again s c t h p1 p2 few (omega size_laws))
  arm-Ends s h few le (to_witness t w) r1 r2 p1 p2 =
      Ends-map (λ fuel. unify fuel t w)
        (λ s' a h. rw (resolve-witness s'.substitutions w) (Coercion.to_witness h))
        (again s t w h p1 p2 few (omega size_laws))
  arm-Ends s h few le (to_builtin t kind inner) r1 r2 p1 p2 =
      Ends-map (λ fuel. unify fuel t inner)
        (λ s' a h. rw (resolve-builtin s'.substitutions kind inner) (Coercion.to_builtin kind h))
        (again s t inner h p1 p2 few (omega size_laws))
  arm-Ends s h few le (pointers t1 m1 l1 t2 m2 l2) r1 r2 p1 p2 =
      Ends-map
        (λ fuel.
          and_then (answer (bool_eq m1 m2 && is_yes (Lifetime-discrete l1 l2))) (unify fuel t1 t2))
        (λ s' a (e, h).
          let (m, l) = and_eq_true (bool_eq m1 m2) (is_yes (Lifetime-discrete l1 l2)) e in
          rw
            (
              (bool_eq_iff m1 m2).0 m,
              is_yes_true (Lifetime-discrete l1 l2) l,
              resolve-pointer s'.substitutions t1 m2 l2,
              resolve-pointer s'.substitutions t2 m2 l2,
            )
            (Coercion.pointers m2 l2 h))
        (guarded (bool_eq m1 m2 && is_yes (Lifetime-discrete l1 l2)) s t1 t2 h p1 p2 few
          (omega size_laws))
  arm-Ends s h few le (builtins k1 t1 k2 t2) r1 r2 p1 p2 =
      Ends-map
        (λ fuel. and_then (answer (is_yes (BuiltinWitness-discrete k1 k2))) (unify fuel t1 t2))
        (λ s' a (e, h).
          rw
            (
              is_yes_true (BuiltinWitness-discrete k1 k2) e,
              resolve-builtin s'.substitutions k2 t1,
              resolve-builtin s'.substitutions k2 t2,
            )
            (Coercion.builtins k2 h))
        (guarded (is_yes (BuiltinWitness-discrete k1 k2)) s t1 t2 h p1 p2 few (omega size_laws))
  arm-Ends s h few le (from_witness w t) r1 r2 p1 p2 =
      Ends-map (λ fuel. and_then (answer (is_proof_mode s)) (unify fuel w t))
        (λ s' a (e, h).
          rw (resolve-witness s'.substitutions w) (Coercion.from_witness (a.same_mode ∙ e) h))
        (guarded (is_proof_mode s) s w t h p1 p2 few (omega size_laws))
  arm-Ends s h few le (from_builtin kind inner t) r1 r2 p1 p2 =
      Ends-map (λ fuel. and_then (answer (is_proof_mode s)) (unify fuel inner t))
        (λ s' a (e, h).
          rw (resolve-builtin s'.substitutions kind inner)
            (Coercion.from_builtin kind (a.same_mode ∙ e) h))
        (guarded (is_proof_mode s) s inner t h p1 p2 few (omega size_laws))
  arm-Ends s h few le (statics f1 f2) r1 r2 p1 p2 =
      and_then-Ends (λ _. same_length_named f1 f2 ≡ true) (Agree (static f1) (static f2))
        (λ _. answer (same_length_named f1 f2)) (λ fuel. unify_named (unify fuel) f1 f2) s
        (answer-Ends (λ _. same_length_named f1 f2 ≡ true) (same_length_named f1 f2) s h (λ e. e))
        (λ s1 a e.
          Ends-map (λ fuel. unify_named (unify fuel) f1 f2)
            (λ s' a' h.
              rw (resolve-static s'.substitutions f1, resolve-static s'.substitutions f2)
                (Coercion.statics h))
            (named-Ends unify n k f f1 f2 s1 e a.sound (rw a.same_next p1) (rw a.same_next p2) (
              Within-After n k (λ m. sizes_named m f1 + sizes_named m f2) a
                (inr (few, omega size_laws)))))
  arm-Ends s h few le (functions ps1 t1 e1 ps2 t2 e2) r1 r2 (ps, p) (qs, q) =
      let goal = Agree (function ps1 t1 e1) (function ps2 t2 e2) in
      let tail = λ (fuel : ℕ). and_then (unify fuel t1 t2) (unify_effects fuel e1 e2) in
      and_then-Ends (λ _. same_length ps1 ps2 ≡ true) goal (λ _. answer (same_length ps1 ps2))
        (λ fuel. and_then (unify_zip (unify fuel) ps1 ps2) (tail fuel)) s
        (answer-Ends (λ _. same_length ps1 ps2 ≡ true) (same_length ps1 ps2) s h (λ e. e))
        (λ s1 a1 e.
          and_then-Ends (AllAgree ps1 ps2) goal (λ fuel. unify_zip (unify fuel) ps1 ps2) tail s1
            (zip-Ends unify n k f ps1 ps2 s1 e a1.sound (rw a1.same_next ps) (rw a1.same_next qs)
              (Within-After n k (λ m. sizes m ps1 + sizes m ps2) a1 (inr (few, omega size_laws))))
            (λ s2 a2 all.
              let both = After-trans a1 a2 in
              and_then-Ends (Agree t1 t2) goal (λ fuel. unify fuel t1 t2)
                (λ fuel. unify_effects fuel e1 e2) s2
                (f s2 t1 t2 a2.sound (rw both.same_next p) (rw both.same_next q)
                  (Within-After n k (λ m. size m t1 + size m t2) both (inr (few, omega size_laws))))
                (λ s3 a3 one.
                  Ends-map (λ fuel. unify_effects fuel e1 e2)
                    (λ s' a' _.
                      rw
                        (
                          resolve-function s'.substitutions ps1 t1 e1,
                          resolve-function s'.substitutions ps2 t2 e2,
                        )
                        (Coercion.functions e1 e2 (AllAgree-After ps1 ps2 (After-trans a3 a') all)
                          (Agree-After t1 t2 a' one)))
                    (effects-Ends e1 e2 s3 a3.sound))))
