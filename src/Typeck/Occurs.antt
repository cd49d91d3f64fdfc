-- ===== src/Typeck/Occurs.antt =====
-- crates/izel_typeck/src/lib.rs: `check_and_adjust` ends on an acyclic substitution, and decides whether
-- a variable occurs in a type with every binding put in.
use mathlib.Core.Path.{subst}
use izel.Prelude.{
  ℕ, zero, suc, ◌+◌, ◌≤◌, ◌<◌, ◌≡◌, refl, sym, arith, Bool, true, false, not, ◌&&◌, ◌||◌, Option,
  some, ◌==◌, if◌then◌else◌, Bool-cases, inl, inr,
}
use izel.Typeck.{
  Ty, prim, adt, optional, cascade, pointer, function, var, param, static, assoc, witness,
  builtin_witness, predicate, error, Tys, no_tys, tys, NamedTys, no_named, named,
}
use izel.Typeck.State.{Map, get, level_or_zero, TypeChecker, M, and_then, answer}
use izel.Typeck.Prune.{
  bind_var, then_bind, prune, all_tys, all_named, check_parts, check_and_adjust, adjust_level,
  lower_level, occurs_check_and_adjust_levels,
}
use izel.Typeck.Terms.{Acyclic, IsRoot}
use izel.Typeck.TyTerms.{
  occurs_ty, occurs_tys, occurs_named, size_ty, size_tys, size_named, ty_terms, resolve,
  resolve_tys, resolve_named, resolve-prune, resolve_root, prune-IsRoot,
}
use izel.Typeck.TyResolve.{
  resolve-optional, resolve-cascade, resolve-witness, resolve-pointer, resolve-builtin,
  resolve-assoc, resolve-static, resolve-function, resolve_tys-nil, resolve_tys-cons,
  resolve_named-nil, resolve_named-cons, resolve-prim, resolve-adt, resolve-param,
  resolve-predicate, resolve-error,
}

module _ (m : Map Ty) where
  -- With any fuel from `n` on the walk answers `b`, and changes levels alone.
  abbrev pub Answers : ℕ → (ℕ → M Bool) → Bool → Type 0
  Answers n w b =
      (s : TypeChecker)
      → s.substitutions ≡ m
      → (ls : Map ℕ) × ((fuel : ℕ) → n ≤ fuel → w fuel s ≡ some (b, record s { var_levels = ls }))

  and_then-Answers :
      (n : ℕ) (v w : ℕ → M Bool) (b c : Bool)
      → Answers n v b
      → Answers n w c
      → Answers n (λ fuel. and_then (v fuel) (w fuel)) (b && c)
  unfolding and_then
  and_then-Answers n v w true c f g s e =
      let (ls, p) = f s e in
      let (ks, q) = g (record s { var_levels = ls }) e in
      (ks, λ fuel le. rw (p fuel le, q fuel le) refl)
  and_then-Answers n v w false c f g s e =
      let (ls, p) = f s e in (ls, λ fuel le. rw (p fuel le) refl)

  answer-Answers : (n : ℕ) (b : Bool) → Answers n (λ _. answer b) b
  unfolding answer
  answer-Answers n b s e = (s.var_levels, λ _ _. refl)

  not_or : (p q : Bool) → (not p && not q) ≡ not (p || q)
  not_or p q = ground arith

  module _ (id : ℕ) (walk : ℕ → Ty → M Bool) where
    abbrev Walks : ℕ → Type 0
    Walks n =
        (t : Ty)
        → size_ty (resolve m t) < n
        → Answers n (λ fuel. walk fuel t) (not (occurs_ty id (resolve m t)))

    all_tys-Answers :
        (n : ℕ) (ts : Tys)
        → Walks n
        → size_tys (resolve_tys m ts) < n
        → Answers n (λ fuel. all_tys (walk fuel) ts) (not (occurs_tys id (resolve_tys m ts)))
    unfolding all_tys size_ty occurs_ty
    all_tys-Answers n no_tys f h = rw (resolve_tys-nil m) (answer-Answers n true)
    all_tys-Answers n (tys t ts) f h =
        let eq = resolve_tys-cons m t ts in
        let fits = rw eq at h in
        let p = occurs_ty id (resolve m t) in
        let ps = occurs_tys id (resolve_tys m ts) in
        rw (eq, ← not_or p ps)
          (and_then-Answers n (λ fuel. walk fuel t) (λ fuel. all_tys (walk fuel) ts) (not p)
            (not ps) (f t (omega (arith, fits))) (all_tys-Answers n ts f (omega (arith, fits))))

    all_named-Answers :
        (n : ℕ) (ts : NamedTys)
        → Walks n
        → size_named (resolve_named m ts) < n
        → Answers n (λ fuel. all_named (walk fuel) ts) (not (occurs_named id (resolve_named m ts)))
    unfolding all_named size_ty occurs_ty
    all_named-Answers n no_named f h = rw (resolve_named-nil m) (answer-Answers n true)
    all_named-Answers n (named name t ts) f h =
        let eq = resolve_named-cons m name t ts in
        let fits = rw eq at h in
        let p = occurs_ty id (resolve m t) in
        let ps = occurs_named id (resolve_named m ts) in
        rw (eq, ← not_or p ps)
          (and_then-Answers n (λ fuel. walk fuel t) (λ fuel. all_named (walk fuel) ts) (not p)
            (not ps) (f t (omega (arith, fits))) (all_named-Answers n ts f (omega (arith, fits))))

    function-Answers :
        (n : ℕ) (ps : Tys) (r : Ty)
        → Walks n
        → size_tys (resolve_tys m ps) + size_ty (resolve m r) < n
        → Answers n
            (λ fuel. and_then (all_tys (walk fuel) ps) (walk fuel r))
            (not (occurs_tys id (resolve_tys m ps) || occurs_ty id (resolve m r)))
    function-Answers n ps r f h =
        let p = occurs_tys id (resolve_tys m ps) in
        let q = occurs_ty id (resolve m r) in
        rw (← not_or p q) (
          and_then-Answers n (λ fuel. all_tys (walk fuel) ps) (λ fuel. walk fuel r) (not p) (not q)
            (all_tys-Answers n ps f (omega arith)) (f r (omega arith)))

    var-Answers :
        (n level k : ℕ)
        → Answers n
            (λ _ s. if k == id then some (false, s) else some (true, adjust_level k level s))
            (not (k == id))
    var-Answers n level k s e = elim (Bool-cases (k == id)) [
      | inl same ↦ (s.var_levels, λ _ _. rw same refl)
      | inr other ↦ (lower_level k level (get s.var_levels k) s.var_levels, λ _ _. rw other refl)
    ]

    check_parts-Answers :
        (n level : ℕ) (t : Ty)
        → IsRoot ty_terms m t
        → Walks n
        → size_ty (resolve m t) ≤ n
        → Answers n (λ fuel. check_parts (walk fuel) id level t) (not (occurs_ty id (resolve m t)))
    unfolding check_parts size_ty occurs_ty
    check_parts-Answers n level (var k) root f h =
        rw (resolve_root m k root) (var-Answers n level k)
    check_parts-Answers n level (function ps r e) root f h =
        let eq = resolve-function m ps r e in
        let fits = rw eq at h in rw eq (function-Answers n ps r f (omega (arith, fits)))
    check_parts-Answers n level (optional t) root f h =
        let eq = resolve-optional m t in let fits = rw eq at h in rw eq (f t (omega (arith, fits)))
    check_parts-Answers n level (cascade t) root f h =
        let eq = resolve-cascade m t in let fits = rw eq at h in rw eq (f t (omega (arith, fits)))
    check_parts-Answers n level (pointer t is_mut l) root f h =
        let eq = resolve-pointer m t is_mut l in
        let fits = rw eq at h in rw eq (f t (omega (arith, fits)))
    check_parts-Answers n level (assoc t name) root f h =
        let eq = resolve-assoc m t name in
        let fits = rw eq at h in rw eq (f t (omega (arith, fits)))
    check_parts-Answers n level (witness t) root f h =
        let eq = resolve-witness m t in let fits = rw eq at h in rw eq (f t (omega (arith, fits)))
    check_parts-Answers n level (builtin_witness kind t) root f h =
        let eq = resolve-builtin m kind t in
        let fits = rw eq at h in rw eq (f t (omega (arith, fits)))
    check_parts-Answers n level (static fs) root f h =
        let eq = resolve-static m fs in
        let fits = rw eq at h in rw eq (all_named-Answers n fs f (omega (arith, fits)))
    check_parts-Answers n level (prim p) root f h = rw (resolve-prim m p) (answer-Answers n true)
    check_parts-Answers n level (adt k) root f h = rw (resolve-adt m k) (answer-Answers n true)
    check_parts-Answers n level (param name) root f h =
        rw (resolve-param m name) (answer-Answers n true)
    check_parts-Answers n level (predicate e) root f h =
        rw (resolve-predicate m e) (answer-Answers n true)
    check_parts-Answers n level error root f h = rw (resolve-error m) (answer-Answers n true)

  -- Whether the variable occurs in the type, with every binding put in.
  pub check_and_adjust-Answers :
      (n id level : ℕ) (t : Ty)
      → Acyclic ty_terms m
      → size_ty (resolve m t) < n
      → Answers n (λ fuel. check_and_adjust fuel id level t) (not (occurs_ty id (resolve m t)))
  unfolding check_and_adjust
  check_and_adjust-Answers zero id level t a h s e = absurd (omega arith)
  check_and_adjust-Answers (suc n) id level t a h s e =
      let same = resolve-prune m t a in
      let walk = λ (fuel : ℕ). check_and_adjust fuel id level in
      let (ls, parts) =
        check_parts-Answers id walk n level (prune m t) (prune-IsRoot m t a)
          (λ u small. check_and_adjust-Answers n id level u a small) (rw same (omega arith)) s e in
      (
        ls,
        elim [
          | zero ↦ λ le. absurd (omega arith)
          | suc fuel ↦ λ le.
              subst
                (λ x.
                  check_parts (walk fuel) id level (prune x t) s
                  ≡ some (not (occurs_ty id (resolve m t)), record s { var_levels = ls }))
                (sym e) (rw same at (parts fuel (omega arith)))
        ],
      )

abbrev pub refuse_or_bind : Bool → ℕ → Ty → TypeChecker → Option (Bool × TypeChecker)
refuse_or_bind true id t s = some (false, s)
refuse_or_bind false id t s = some (true, bind_var id t s)

-- Where no bindings form a cycle, the occurs check answers `false` exactly when the variable occurs in
-- the type with every binding put in, and binds the variable if not. Fuel above the size of that
-- type is enough. Nothing changes but levels and that binding.
pub occurs_check_lem :
    (fuel id : ℕ) (t : Ty) (s : TypeChecker)
    → Acyclic ty_terms s.substitutions
    → size_ty (resolve s.substitutions t) < fuel
    → (ls : Map ℕ) × (occurs_check_and_adjust_levels fuel id t s
        ≡ refuse_or_bind
            (occurs_ty id (resolve s.substitutions t))
            id
            t
            (record s { var_levels = ls }))
unfolding occurs_check_and_adjust_levels and_then answer then_bind
occurs_check_lem fuel id t s a h =
    let m = s.substitutions in
    let (ls, runs) =
      check_and_adjust-Answers m fuel id (level_or_zero (get s.var_levels id)) t a h s refl in
    (ls, rw (runs fuel (omega arith)) (branch (occurs_ty id (resolve m t)) ls))
  where
    branch :
        (occurs : Bool) (ls : Map ℕ)
        → and_then (answer (not occurs)) (then_bind id t) (record s { var_levels = ls })
          ≡ refuse_or_bind occurs id t (record s { var_levels = ls })
    branch true ls = refl
    branch false ls = refl
