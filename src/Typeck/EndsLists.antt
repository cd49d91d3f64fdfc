-- ===== src/Typeck/EndsLists.antt =====
-- crates/izel_typeck/src/lib.rs: the loops of `unify` over parameters and fields end in a sound state.
use izel.Prelude.{ℕ, ◌+◌, ◌≡◌, true, text_eq, text_eq_iff}
use izel.Typeck.{Ty, Tys, no_tys, tys, NamedTys, no_named, named}
use izel.Typeck.State.{Map, TypeChecker, and_then, answer}
use izel.Typeck.TyResolve.{resolve_tys-cons, resolve_tys-nil, resolve_named-cons, resolve_named-nil}
use izel.Typeck.Coercion.{nil, cons, no_field, field}
use izel.Typeck.Plain.{IsPlain, ArePlain, ArePlainNamed, size, sizes, sizes_named, size_laws}
use izel.Typeck.Unify.{Unifier, unify_zip, unify_named, same_length, same_length_named}
use izel.Typeck.Ends.{
  IsSound, Ends, Agree, AllAgree, FieldsAgree, Agree-After, After-trans, Ends-map, answer-Ends,
  and_then-Ends, Within, Within-le, Within-After,
}

module _ (walk : ℕ → Unifier) (n k : ℕ)
    (f : (s : TypeChecker) (t u : Ty)
      → IsSound s
      → IsPlain s.next_var t
      → IsPlain s.next_var u
      → Within n k (λ m. size m t + size m u) s
      → Ends (Agree t u) (λ fuel. walk fuel t u) s) where
  pub zip-Ends :
      (ts us : Tys) (s : TypeChecker)
      → same_length ts us ≡ true
      → IsSound s
      → ArePlain s.next_var ts
      → ArePlain s.next_var us
      → Within n k (λ m. sizes m ts + sizes m us) s
      → Ends (AllAgree ts us) (λ fuel. unify_zip (walk fuel) ts us) s
  unfolding unify_zip same_length IsPlain
  zip-Ends (tys t ts) (tys u us) s same h (p, ps) (q, qs) w =
      let all = λ (m : Map Ty). sizes m (tys t ts) + sizes m (tys u us) in
      let rest = λ (m : Map Ty). sizes m ts + sizes m us in
      and_then-Ends (Agree t u) (AllAgree (tys t ts) (tys u us)) (λ fuel. walk fuel t u)
        (λ fuel. unify_zip (walk fuel) ts us) s
        (f s t u h p q (Within-le n k all (λ m. size m t + size m u) s (omega size_laws) w))
        (λ s' a first.
          Ends-map (λ fuel. unify_zip (walk fuel) ts us)
            (λ s2 a2 others.
              rw (resolve_tys-cons s2.substitutions t ts, resolve_tys-cons s2.substitutions u us)
                (cons (Agree-After t u a2 first) others))
            (zip-Ends ts us s' same a.sound (rw a.same_next ps) (rw a.same_next qs)
              (Within-After n k rest a (Within-le n k all rest s (omega size_laws) w))))
  zip-Ends no_tys no_tys s same h p q w =
      answer-Ends (AllAgree no_tys no_tys) true s h (λ _. rw (resolve_tys-nil s.substitutions) nil)
  zip-Ends no_tys (tys u us) s same h p q w = cc
  zip-Ends (tys t ts) no_tys s same h p q w = cc

  pub named-Ends :
      (ts us : NamedTys) (s : TypeChecker)
      → same_length_named ts us ≡ true
      → IsSound s
      → ArePlainNamed s.next_var ts
      → ArePlainNamed s.next_var us
      → Within n k (λ m. sizes_named m ts + sizes_named m us) s
      → Ends (FieldsAgree ts us) (λ fuel. unify_named (walk fuel) ts us) s
  unfolding unify_named same_length_named IsPlain
  named-Ends (named a t ts) (named b u us) s same h (p, ps) (q, qs) w =
      let all = λ (m : Map Ty). sizes_named m (named a t ts) + sizes_named m (named b u us) in
      let rest = λ (m : Map Ty). sizes_named m ts + sizes_named m us in
      let goal = FieldsAgree (named a t ts) (named b u us) in
      and_then-Ends (λ _. text_eq a b ≡ true) goal (λ _. answer (text_eq a b))
        (λ fuel. and_then (walk fuel t u) (unify_named (walk fuel) ts us)) s
        (answer-Ends (λ _. text_eq a b ≡ true) (text_eq a b) s h (λ e. e))
        (λ s1 a1 name.
          and_then-Ends (Agree t u) goal (λ fuel. walk fuel t u)
            (λ fuel. unify_named (walk fuel) ts us) s1
            (f s1 t u a1.sound (rw a1.same_next p) (rw a1.same_next q) (
              Within-After n k (λ m. size m t + size m u) a1
                (Within-le n k all (λ m. size m t + size m u) s (omega size_laws) w)))
            (λ s2 a2 first.
              let both = After-trans a1 a2 in
              let one : a ≡ b = (text_eq_iff a b).0 name in
              Ends-map (λ fuel. unify_named (walk fuel) ts us)
                (λ s3 a3 others.
                  rw
                    (
                      resolve_named-cons s3.substitutions a t ts,
                      resolve_named-cons s3.substitutions b u us,
                      one,
                    )
                    (field b (Agree-After t u a3 first) others))
                (named-Ends ts us s2 same a2.sound (rw both.same_next ps) (rw both.same_next qs)
                  (Within-After n k rest both (Within-le n k all rest s (omega size_laws) w)))))
  named-Ends no_named no_named s same h p q w =
      answer-Ends (FieldsAgree no_named no_named) true s h
        (λ _. rw (resolve_named-nil s.substitutions) no_field)
  named-Ends no_named (named b u us) s same h p q w = cc
  named-Ends (named a t ts) no_named s same h p q w = cc
