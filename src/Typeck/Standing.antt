-- ===== src/Typeck/Standing.antt =====
-- crates/izel_typeck/src/lib.rs: the variables of a type that `generalize` searches, which are all where the
-- type has no witness.
use izel.Typeck.TyTerms.{occurs_ty, occurs_tys, occurs_named}
use izel.Prelude.{or_eq_false, ℕ, ◌≡◌, refl, Bool, true, false, ◌||◌, ◌==◌}
use izel.Typeck.{
  witness, Ty, optional, cascade, pointer, function, var, static, assoc, builtin_witness, Tys,
  no_tys, tys, NamedTys, no_named, named,
}

-- Whether a variable stands in a type outside its witnesses.
unfoldable mutual
  pub stands : ℕ → Ty → Bool
  stands id (var k) = k == id
  stands id (optional t) = stands id t
  stands id (cascade t) = stands id t
  stands id (pointer t _ _) = stands id t
  stands id (function ps r _) = stands_tys id ps || stands id r
  stands id (static fs) = stands_named id fs
  stands id (assoc t _) = stands id t
  stands id (builtin_witness _ t) = stands id t
  stands id _ = false

  pub stands_tys : ℕ → Tys → Bool
  stands_tys id no_tys = false
  stands_tys id (tys t ts) = stands id t || stands_tys id ts

  pub stands_named : ℕ → NamedTys → Bool
  stands_named id no_named = false
  stands_named id (named _ t ts) = stands id t || stands_named id ts

-- Whether a witness of a type stands in a type.
unfoldable mutual
  pub has_witness : Ty → Bool
  has_witness (witness t) = true
  has_witness (optional t) = has_witness t
  has_witness (cascade t) = has_witness t
  has_witness (pointer t _ _) = has_witness t
  has_witness (function ps r _) = any_witness ps || has_witness r
  has_witness (static fs) = fields_witness fs
  has_witness (assoc t _) = has_witness t
  has_witness (builtin_witness _ t) = has_witness t
  has_witness _ = false

  pub any_witness : Tys → Bool
  any_witness no_tys = false
  any_witness (tys t ts) = has_witness t || any_witness ts

  pub fields_witness : NamedTys → Bool
  fields_witness no_named = false
  fields_witness (named _ t ts) = has_witness t || fields_witness ts

or_cong :
    (p q : Bool) {a b c d : Bool}
    → (p || q) ≡ false
    → (p ≡ false → a ≡ c)
    → (q ≡ false → b ≡ d)
    → (a || b) ≡ (c || d)
or_cong p q h f g = let (hp, hq) = or_eq_false p q h in λ i. f hp i || g hq i

-- Without witnesses the variables that stand in a type are those that occur in it.
mutual
  unfolding stands has_witness occurs_ty

  pub stands-occurs_ty : (id : ℕ) (t : Ty) → has_witness t ≡ false → stands id t ≡ occurs_ty id t
  stands-occurs_ty id (witness t) h = absurd cc
  stands-occurs_ty id (optional t) h = stands-occurs_ty id t h
  stands-occurs_ty id (cascade t) h = stands-occurs_ty id t h
  stands-occurs_ty id (pointer t _ _) h = stands-occurs_ty id t h
  stands-occurs_ty id (function ps r _) h =
      or_cong (any_witness ps) (has_witness r) h (stands_tys-occurs_tys id ps)
        (stands-occurs_ty id r)
  stands-occurs_ty id (static fs) h = stands_named-occurs_named id fs h
  stands-occurs_ty id (assoc t _) h = stands-occurs_ty id t h
  stands-occurs_ty id (builtin_witness _ t) h = stands-occurs_ty id t h
  stands-occurs_ty id _ h = refl

  stands_tys-occurs_tys :
      (id : ℕ) (ts : Tys) → any_witness ts ≡ false → stands_tys id ts ≡ occurs_tys id ts
  stands_tys-occurs_tys id no_tys h = refl
  stands_tys-occurs_tys id (tys t ts) h =
      or_cong (has_witness t) (any_witness ts) h (stands-occurs_ty id t)
        (stands_tys-occurs_tys id ts)

  stands_named-occurs_named :
      (id : ℕ) (ts : NamedTys) → fields_witness ts ≡ false → stands_named id ts ≡ occurs_named id ts
  stands_named-occurs_named id no_named h = refl
  stands_named-occurs_named id (named _ t ts) h =
      or_cong (has_witness t) (fields_witness ts) h (stands-occurs_ty id t)
        (stands_named-occurs_named id ts)
