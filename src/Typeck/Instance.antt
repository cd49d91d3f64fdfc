-- ===== src/Typeck/Instance.antt =====
-- crates/izel_typeck/src/lib.rs: the variables of what `instantiate` returns.
use izel.Typeck.Terms.{get-cons_at}
use izel.Typeck.TyTerms.{replace_ty, replace_ty_fresh, ty_terms, resolve, occurs_ty}
use izel.Prelude.{
  none_some, or_eq_false, ℕ, ◌≤◌, ◌≡◌, ◌⊎◌, refl, sym, ap, ◌∙◌, arith, Bool, true, false, ◌||◌,
  Option, none, some, [], ◌∷◌, ◌==◌, contains, Bool-cases, inl, inr, Text,
}
use izel.Typeck.{
  witness, Ty, optional, cascade, pointer, function, var, param, static, assoc, builtin_witness,
  Tys, no_tys, tys, NamedTys, no_named, named, Scheme,
}
use izel.Typeck.State.{Map, get, find, TypeChecker}
use izel.Typeck.Schemes.{
  Mapping, map_vars, map_effect_vars, map_names, substitute_scheme, substitute_scheme_tys,
  substitute_scheme_named, instantiate, or_else,
}
use izel.Typeck.Standing.{
  has_witness, any_witness, fields_witness, stands-occurs_ty, stands, stands_tys, stands_named,
}
use izel.Typeck.Quantified.{==_sound}
use izel.Typeck.NewVars.{
  IsNew, NewIn, NewNames, map_vars_lem, map_effect_vars_next, map_names_lem,
  instantiate-substitutions,
}

or_true : (q : Bool) → (q || true) ≡ true
or_true q = ground arith

module _ (b : ℕ) (m : Mapping) (id : ℕ) where
  -- What holds of `p` is new, or is left as it was and holds of `q`.
  abbrev From : Bool → Bool → Type 0
  From p q = p ≡ true → (b ≤ id) ⊎ ((get m.vars id ≡ none) × (q ≡ true))

  or-From : (p q p' q' : Bool) → From p q → From p' q' → From (p || p') (q || q')
  or-From true q p' q' f g e = elim (f refl) [
    | inl new ↦ inl new
    | inr (kept, holds) ↦ inr (kept, rw holds refl)
  ]
  or-From false q p' q' f g e = elim (g e) [
    | inl new ↦ inl new
    | inr (kept, holds) ↦ inr (kept, rw holds (or_true q))
  ]

  new-From : (t : Ty) (q : Bool) → IsNew b t → From (stands id t) q
  unfolding stands
  new-From t q (k, is_var, le) e =
      let same = rw is_var at e in inl (let at = ==_sound k id same in omega arith)

  var-From :
      (v : ℕ) (found : Option Ty)
      → get m.vars v ≡ found
      → ((t : Ty) → found ≡ some t → IsNew b t)
      → From (stands id (or_else found (var v))) (v == id)
  unfolding stands
  var-From v none eq f e = inr (ap (get m.vars) (sym (==_sound v id e)) ∙ eq, e)
  var-From v (some t) eq f e = new-From t (v == id) (f t refl) e

  name-From :
      (name : Text) (found : Option Ty)
      → ((t : Ty) → found ≡ some t → IsNew b t)
      → From (stands id (or_else found (param name))) false
  unfolding stands
  name-From name none f e = absurd cc
  name-From name (some t) f e = new-From t false (f t refl) e

  module _ (fuel : ℕ) (s : TypeChecker) (new : NewIn b m.vars) (names : NewNames b m.names) where
    mutual
      unfolding stands substitute_scheme

      substitute-From : (t : Ty) → From (stands id (substitute_scheme fuel s m t)) (stands id t)
      substitute-From (var v) = var-From v (get m.vars v) refl (new v)
      substitute-From (param name) = name-From name (find m.names name) (names name)
      substitute-From (function ps r e) =
          or-From (stands_tys id (substitute_scheme_tys fuel s m ps)) (stands_tys id ps)
            (stands id (substitute_scheme fuel s m r)) (stands id r) (tys-From ps)
            (substitute-From r)
      substitute-From (optional t) = substitute-From t
      substitute-From (cascade t) = substitute-From t
      substitute-From (pointer t _ _) = substitute-From t
      substitute-From (builtin_witness _ t) = substitute-From t
      substitute-From (static fs) = named-From fs
      substitute-From (assoc t _) = substitute-From t
      substitute-From _ = λ e. absurd cc

      tys-From :
          (ts : Tys) → From (stands_tys id (substitute_scheme_tys fuel s m ts)) (stands_tys id ts)
      tys-From no_tys = λ e. absurd cc
      tys-From (tys t ts) =
          or-From (stands id (substitute_scheme fuel s m t)) (stands id t)
            (stands_tys id (substitute_scheme_tys fuel s m ts)) (stands_tys id ts)
            (substitute-From t) (tys-From ts)

      named-From :
          (ts : NamedTys)
          → From (stands_named id (substitute_scheme_named fuel s m ts)) (stands_named id ts)
      named-From no_named = λ e. absurd cc
      named-From (named _ t ts) =
          or-From (stands id (substitute_scheme fuel s m t)) (stands id t)
            (stands_named id (substitute_scheme_named fuel s m ts)) (stands_named id ts)
            (substitute-From t) (named-From ts)

    var-witness :
        (t : Ty) (found : Option Ty)
        → ((u : Ty) → found ≡ some u → IsNew b u)
        → has_witness t ≡ false
        → has_witness (or_else found t) ≡ false
    unfolding has_witness
    var-witness t none f h = h
    var-witness t (some u) f h = let (k, is_var, le) = f u refl in rw is_var refl

    mutual
      unfolding has_witness substitute_scheme

      substitute-witness :
          (t : Ty) → has_witness t ≡ false → has_witness (substitute_scheme fuel s m t) ≡ false
      substitute-witness (var v) h = var-witness (var v) (get m.vars v) (new v) h
      substitute-witness (param name) h =
          var-witness (param name) (find m.names name) (names name) h
      substitute-witness (function ps r e) h =
          let (hs, hr) = or_eq_false (any_witness ps) (has_witness r) h in
          rw (tys-witness ps hs, substitute-witness r hr) refl
      substitute-witness (optional t) h = substitute-witness t h
      substitute-witness (cascade t) h = substitute-witness t h
      substitute-witness (pointer t _ _) h = substitute-witness t h
      substitute-witness (builtin_witness _ t) h = substitute-witness t h
      substitute-witness (static fs) h = named-witness fs h
      substitute-witness (assoc t _) h = substitute-witness t h
      substitute-witness (witness t) h = absurd cc
      substitute-witness _ h = refl

      tys-witness :
          (ts : Tys)
          → any_witness ts ≡ false
          → any_witness (substitute_scheme_tys fuel s m ts) ≡ false
      tys-witness no_tys h = refl
      tys-witness (tys t ts) h =
          let (ht, hs) = or_eq_false (has_witness t) (any_witness ts) h in
          rw (substitute-witness t ht, tys-witness ts hs) refl

      named-witness :
          (ts : NamedTys)
          → fields_witness ts ≡ false
          → fields_witness (substitute_scheme_named fuel s m ts) ≡ false
      named-witness no_named h = refl
      named-witness (named _ t ts) h =
          let (ht, hs) = or_eq_false (has_witness t) (fields_witness ts) h in
          rw (substitute-witness t ht, named-witness ts hs) refl

-- The variables of a type are not bound.
abbrev pub IsUnbound : Map Ty → Ty → Type 0
IsUnbound m t = (k : ℕ) → occurs_ty k t ≡ true → get m k ≡ none

resolve_unbound : (m : Map Ty) (t : Ty) → IsUnbound m t → resolve m t ≡ t
unfolding resolve get
resolve_unbound [] t h = refl
resolve_unbound ((id, u) ∷ m) t h =
    let rest = resolve_unbound m t (λ k o.
      let whole = h k o in
      elim (Bool-cases (id == k)) [
        | inl same ↦ absurd (none_some (sym (rw same at whole)))
        | inr other ↦ rw other at whole
      ]) in
    ap (replace_ty id (resolve m u)) rest
    ∙ replace_ty_fresh id (resolve m u) t (elim (Bool-cases (occurs_ty id t)) [
      | inl there ↦
          let whole = h id there in absurd (none_some (sym whole ∙ get-cons_at ty_terms id u m))
      | inr absent ↦ absent
    ])

-- A variable of an instance was made by the call, or occurs in the type of the scheme unquantified.
instance_lem :
    (fuel : ℕ) (scheme : Scheme) (s : TypeChecker) (id : ℕ)
    → has_witness scheme.ty ≡ false
    → occurs_ty id (instantiate fuel scheme s).0 ≡ true
    → (s.next_var ≤ id) ⊎ ((contains scheme.vars id ≡ false) × (occurs_ty id scheme.ty ≡ true))
unfolding instantiate
instance_lem fuel scheme s id plain e =
    let (new, more, covers) =
      map_vars_lem s.next_var scheme.vars s [] (omega arith) (λ v t e. absurd (none_some e)) in
    let r = map_vars scheme.vars s [] in
    let ev = map_effect_vars scheme.effect_vars r.1 [] in
    let names =
      map_names_lem s.next_var scheme.names ev.1 []
        (rw (map_effect_vars_next scheme.effect_vars r.1 []) more)
        (λ v t e. absurd (none_some e)) in
    let n = map_names scheme.names ev.1 [] in
    let mapping : Mapping = record { vars = r.0; effect_vars = ev.0; names = n.0 } in
    let plain' = substitute-witness s.next_var mapping id fuel n.1 new names scheme.ty plain in
    let stands_there = stands-occurs_ty id (instantiate fuel scheme s).0 plain' ∙ e in
    elim (substitute-From s.next_var mapping id fuel n.1 new names scheme.ty stands_there) [
      | inl made ↦ inl made
      | inr (kept, there) ↦
          inr ((covers id kept).0, sym (stands-occurs_ty id scheme.ty plain) ∙ there)
    ]

-- Where the type of the scheme has no witness of a type and none of its variables is bound, nor one that
-- is not made yet, a variable that occurs in what `instantiate` returns, with every binding of the state
-- that it leaves put in, was made by this call, or occurs in the type of the scheme and is not
-- quantified.
pub instantiate_lem :
    (fuel : ℕ) (scheme : Scheme) (s : TypeChecker) (id : ℕ)
    → has_witness scheme.ty ≡ false
    → IsUnbound s.substitutions scheme.ty
    → ((k : ℕ) → s.next_var ≤ k → get s.substitutions k ≡ none)
    → (let made = instantiate fuel scheme s in
        occurs_ty id (resolve made.1.substitutions made.0) ≡ true)
    → (s.next_var ≤ id) ⊎ ((contains scheme.vars id ≡ false) × (occurs_ty id scheme.ty ≡ true))
instantiate_lem fuel scheme s id plain unbound unmade e =
    let t = (instantiate fuel scheme s).0 in
    let free : IsUnbound s.substitutions t = λ k there.
      elim (instance_lem fuel scheme s k plain there) [
        | inl new ↦ unmade k new
        | inr (_, old) ↦ unbound k old
      ] in
    let same =
      ap (λ m. resolve m t) (instantiate-substitutions fuel scheme s)
      ∙ resolve_unbound s.substitutions t free in
    instance_lem fuel scheme s id plain (sym (ap (occurs_ty id) same) ∙ e)
