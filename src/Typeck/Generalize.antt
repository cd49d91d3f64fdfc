-- ===== src/Typeck/Generalize.antt =====
-- crates/izel_typeck/src/lib.rs: `generalize` quantifies the unbound variables of a type that were made
-- inside the scope that is open.
use izel.Prelude.{
  false, ℕ, zero, suc, ◌+◌, ◌≤◌, ◌<◌, ◌≡◌, refl, arith, ◌&&◌, ◌||◌, Option, some, contains, ◌>>=◌,
}
use izel.Typeck.{
  Ty, prim, adt, optional, cascade, pointer, function, var, param, static, assoc, witness,
  builtin_witness, predicate, error, Tys, no_tys, tys, NamedTys, no_named, named, EffectSet, Scheme,
}
use izel.Typeck.State.{Map, TypeChecker, scheme_of}
use izel.Typeck.Prune.{prune}
use izel.Typeck.Schemes.{
  Found, see_name, find_gen_effect_vars, find_in_tys, find_in_named, find_in_parts, find_gen_vars,
  nothing_found, generalize,
}
use izel.Typeck.Terms.{Acyclic, IsRoot}
use izel.Typeck.EffectTerms.{effect_terms, size_effects, resolve_effects}
use izel.Typeck.TyTerms.{
  occurs_ty, size_ty, size_tys, size_named, ty_terms, resolve, resolve_tys, resolve_named,
  resolve-prune, resolve_root, prune-IsRoot,
}
use izel.Typeck.TyResolve.{
  resolve-optional, resolve-cascade, resolve-witness, resolve-pointer, resolve-builtin,
  resolve-assoc, resolve-static, resolve-function, resolve_tys-nil, resolve_tys-cons,
  resolve_named-nil, resolve_named-cons, resolve-prim, resolve-adt, resolve-param,
  resolve-predicate, resolve-error,
}
use izel.Typeck.Standing.{has_witness, stands-occurs_ty, stands, stands_tys, stands_named}
use izel.Typeck.Quantified.{
  is_deeper, Sees, none-Sees, bind-Sees, var-Sees, Leaves-Sees, see_name-Leaves, effects-Leaves,
  bind-Leaves,
}

module _ (s : TypeChecker) (a : Acyclic ty_terms s.substitutions)
    (b : Acyclic effect_terms s.effect_substitutions) where
  -- The search of every type smaller than `k`.
  abbrev SeesBelow : ℕ → (ℕ → Ty → Found → Option Found) → Type 0
  SeesBelow k walk =
      (u : Ty)
      → size_ty (resolve s.substitutions u) < k
      → Sees s (λ fuel. walk fuel u) (λ id. stands id (resolve s.substitutions u))

  module _ (walk : ℕ → Ty → Found → Option Found) (k : ℕ) (f : SeesBelow k walk) where
    abbrev m : Map Ty
    m = s.substitutions

    find_in_tys-Sees :
        (ts : Tys)
        → size_tys (resolve_tys m ts) < k
        → Sees s (λ fuel. find_in_tys (walk fuel) ts) (λ id. stands_tys id (resolve_tys m ts))
    unfolding find_in_tys stands size_ty
    find_in_tys-Sees no_tys h = rw (resolve_tys-nil m) (none-Sees s)
    find_in_tys-Sees (tys t ts) h =
        let eq = resolve_tys-cons m t ts in
        let fits = rw eq at h in
        rw eq (
          bind-Sees s (λ fuel. walk fuel t) (λ fuel. find_in_tys (walk fuel) ts)
            (λ id. stands id (resolve m t)) (λ id. stands_tys id (resolve_tys m ts))
            (f t (omega (arith, fits))) (find_in_tys-Sees ts (omega (arith, fits))))

    find_in_named-Sees :
        (ts : NamedTys)
        → size_named (resolve_named m ts) < k
        → Sees s (λ fuel. find_in_named (walk fuel) ts) (λ id. stands_named id (resolve_named m ts))
    unfolding find_in_named stands size_ty
    find_in_named-Sees no_named h = rw (resolve_named-nil m) (none-Sees s)
    find_in_named-Sees (named name t ts) h =
        let eq = resolve_named-cons m name t ts in
        let fits = rw eq at h in
        rw eq (
          bind-Sees s (λ fuel. walk fuel t) (λ fuel. find_in_named (walk fuel) ts)
            (λ id. stands id (resolve m t)) (λ id. stands_named id (resolve_named m ts))
            (f t (omega (arith, fits))) (find_in_named-Sees ts (omega (arith, fits))))

    function-Sees :
        (ps : Tys) (r : Ty) (e : EffectSet)
        → size_tys (resolve_tys m ps) + size_ty (resolve m r) < k
        → Sees s
            (λ fuel found.
              find_in_tys (walk fuel) ps found >>= walk fuel r >>= find_gen_effect_vars fuel s e)
            (λ id. stands_tys id (resolve_tys m ps) || stands id (resolve m r))
    function-Sees ps r e h =
        bind-Leaves s (λ fuel found. find_in_tys (walk fuel) ps found >>= walk fuel r)
          (λ fuel. find_gen_effect_vars fuel s e)
          (λ id. stands_tys id (resolve_tys m ps) || stands id (resolve m r))
          (bind-Sees s (λ fuel. find_in_tys (walk fuel) ps) (λ fuel. walk fuel r)
            (λ id. stands_tys id (resolve_tys m ps)) (λ id. stands id (resolve m r))
            (find_in_tys-Sees ps (omega arith)) (f r (omega arith)))
          (effects-Leaves s (suc (size_effects (resolve_effects s.effect_substitutions e))) e b
            (omega arith))

    find_in_parts-Sees :
        (t : Ty)
        → IsRoot ty_terms m t
        → size_ty (resolve m t) ≤ k
        → Sees s (λ fuel. find_in_parts (walk fuel) fuel s t) (λ id. stands id (resolve m t))
    unfolding find_in_parts stands size_ty
    find_in_parts-Sees (var id) root h = rw (resolve_root m id root) (var-Sees s id)
    find_in_parts-Sees (param name) root h =
        rw (resolve-param m name)
          (Leaves-Sees s (λ _ found. some (see_name name found)) (see_name-Leaves s name))
    find_in_parts-Sees (function ps r e) root h =
        let eq = resolve-function m ps r e in
        let fits = rw eq at h in rw eq (function-Sees ps r e (omega (arith, fits)))
    find_in_parts-Sees (optional t) root h =
        let eq = resolve-optional m t in let fits = rw eq at h in rw eq (f t (omega (arith, fits)))
    find_in_parts-Sees (cascade t) root h =
        let eq = resolve-cascade m t in let fits = rw eq at h in rw eq (f t (omega (arith, fits)))
    find_in_parts-Sees (pointer t is_mut l) root h =
        let eq = resolve-pointer m t is_mut l in
        let fits = rw eq at h in rw eq (f t (omega (arith, fits)))
    find_in_parts-Sees (assoc t name) root h =
        let eq = resolve-assoc m t name in
        let fits = rw eq at h in rw eq (f t (omega (arith, fits)))
    find_in_parts-Sees (builtin_witness kind t) root h =
        let eq = resolve-builtin m kind t in
        let fits = rw eq at h in rw eq (f t (omega (arith, fits)))
    find_in_parts-Sees (static fs) root h =
        let eq = resolve-static m fs in
        let fits = rw eq at h in rw eq (find_in_named-Sees fs (omega (arith, fits)))
    find_in_parts-Sees (witness t) root h = rw (resolve-witness m t) (none-Sees s)
    find_in_parts-Sees (prim p) root h = rw (resolve-prim m p) (none-Sees s)
    find_in_parts-Sees (adt id) root h = rw (resolve-adt m id) (none-Sees s)
    find_in_parts-Sees (predicate e) root h = rw (resolve-predicate m e) (none-Sees s)
    find_in_parts-Sees error root h = rw (resolve-error m) (none-Sees s)

  find_gen_vars-Sees :
      (k : ℕ) (t : Ty)
      → size_ty (resolve s.substitutions t) < k
      → Sees s (λ fuel. find_gen_vars fuel s t) (λ id. stands id (resolve s.substitutions t))
  unfolding find_gen_vars
  find_gen_vars-Sees zero t h = absurd (omega arith)
  find_gen_vars-Sees (suc k) t h =
      let same = resolve-prune s.substitutions t a in
      let (n, p) =
        find_in_parts-Sees (λ fuel. find_gen_vars fuel s) k (find_gen_vars-Sees k)
          (prune s.substitutions t) (prune-IsRoot s.substitutions t a) (rw same (omega arith)) in
      (
        suc n,
        λ found c.
            let (after, ca, seen, runs) = p found c in
            (
              after,
              ca,
              λ id. rw same at (seen id),
              elim [ zero ↦ λ le. absurd (omega arith) | suc fuel ↦ λ le. runs fuel (omega arith) ],
            ),
      )

-- Where no bindings form a cycle, and the type with every binding put in has no witness of a type,
-- `generalize` returns, with all fuel from some bound on. It quantifies a variable exactly when the variable
-- occurs in the type with every binding put in and is deeper than the scope that is open; the type
-- of the scheme is the type as given.
pub generalize_lem :
    (t : Ty) (s : TypeChecker)
    → Acyclic ty_terms s.substitutions
    → Acyclic effect_terms s.effect_substitutions
    → has_witness (resolve s.substitutions t) ≡ false
    → (n : ℕ) × (scheme : Scheme) × ((fuel : ℕ) → n ≤ fuel → generalize fuel s t ≡ some scheme)
      × ((id : ℕ)
          → contains scheme.vars id ≡ (occurs_ty id (resolve s.substitutions t) && is_deeper s id))
      × (scheme.ty ≡ t)
unfolding generalize contains
generalize_lem t s a b no_witness =
    let (n, p) =
      find_gen_vars-Sees s a b (suc (size_ty (resolve s.substitutions t))) t (omega arith) in
    let (after, c, seen, runs) = p nothing_found (λ id. refl) in
    (
      n,
      scheme_of after.vars after.effect_vars after.names t,
      λ fuel le. rw (runs fuel le) refl,
      λ id. rw (c id, seen id, stands-occurs_ty id (resolve s.substitutions t) no_witness) refl,
      refl,
    )
