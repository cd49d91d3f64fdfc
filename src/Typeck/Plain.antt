-- ===== src/Typeck/Plain.antt =====
-- crates/izel_typeck/src/lib.rs: types with the variables below a bound and with no associated type, the
-- variables that are left unbound, and the sizes of types with all bindings put in.
use izel.Prelude.{
  ℕ, zero, suc, ◌+◌, ◌≤◌, ◌<◌, ◌≡◌, refl, ap, arith, Bool, true, false, Option, none, some, List,
  [], ◌∷◌, ◌==◌, if◌then◌else◌, Bool-cases, Option-cases, inl, inr, Text,
}
use izel.Typeck.{
  Ty, optional, cascade, pointer, function, var, static, assoc, witness, builtin_witness, Tys,
  no_tys, tys, NamedTys, no_named, named, EffectSet, Lifetime, BuiltinWitness,
}
use izel.Typeck.State.{Map, get}
use izel.Typeck.Prune.{ty_var, chase, steps, prune}
use izel.Typeck.Terms.{Acyclic, IsRoot}
use izel.Typeck.TyTerms.{
  size_ty, size_tys, size_named, ty_terms, resolve, resolve-prune, resolve_tys, resolve_named,
  resolve_root,
}
use izel.Typeck.TyResolve.{
  resolve-optional, resolve-cascade, resolve-witness, resolve-pointer, resolve-builtin,
  resolve-static, resolve-function, resolve_tys-cons, resolve_named-cons,
}

-- The variables are below `n`, and there is no associated type.
unfoldable mutual
  pub IsPlain : ℕ → Ty → Type 0
  IsPlain n (var k) = k < n
  IsPlain n (optional t) = IsPlain n t
  IsPlain n (cascade t) = IsPlain n t
  IsPlain n (pointer t _ _) = IsPlain n t
  IsPlain n (function ps r _) = ArePlain n ps × IsPlain n r
  IsPlain n (static fs) = ArePlainNamed n fs
  IsPlain n (assoc t name) = ⊥
  IsPlain n (witness t) = IsPlain n t
  IsPlain n (builtin_witness _ t) = IsPlain n t
  IsPlain n _ = Unit

  pub ArePlain : ℕ → Tys → Type 0
  ArePlain n no_tys = Unit
  ArePlain n (tys t ts) = IsPlain n t × ArePlain n ts

  pub ArePlainNamed : ℕ → NamedTys → Type 0
  ArePlainNamed n no_named = Unit
  ArePlainNamed n (named _ t ts) = IsPlain n t × ArePlainNamed n ts

abbrev pub BindsPlain : ℕ → Map Ty → Type 0
BindsPlain n [] = Unit
BindsPlain n ((id, u) ∷ m) = (id < n) × IsPlain n u × BindsPlain n m

get-IsPlain :
    (n : ℕ) (m : Map Ty) (id : ℕ) (u : Ty) → BindsPlain n m → get m id ≡ some u → IsPlain n u
unfolding get
get-IsPlain n [] id u p h = cc
get-IsPlain n ((k, v) ∷ m) id u (lt, p, ps) h = elim (Bool-cases (k == id)) [
  | inl same ↦ let e : v ≡ u = ground arith in rw (← e) p
  | inr other ↦ get-IsPlain n m id u ps (ground arith)
]

chase-IsPlain :
    (n fuel : ℕ) (m : Map Ty) (t : Ty)
    → BindsPlain n m
    → IsPlain n t
    → IsPlain n (chase ty_var fuel m t)
unfolding chase
chase-IsPlain n zero m t b p = p
chase-IsPlain n (suc fuel) m (var k) b p = elim (Option-cases (get m k)) [
  | inl e ↦ rw (chase, e) p
  | inr (u, e) ↦ rw (chase, e) (chase-IsPlain n fuel m u b (get-IsPlain n m k u b e))
]
chase-IsPlain n (suc fuel) m t b p = p

pub prune-IsPlain :
    (n : ℕ) (m : Map Ty) (t : Ty) → BindsPlain n m → IsPlain n t → IsPlain n (prune m t)
unfolding prune
prune-IsPlain n m t b p = chase-IsPlain n (steps m) m t b p

abbrev is_bound : {A : Type 0} → Option A → Bool
is_bound none = false
is_bound (some _) = true

-- The number of variables below `n` that are not bound.
unfoldable pub free : Map Ty → ℕ → ℕ
free m zero = 0
free m (suc n) = (if is_bound (get m n) then 0 else 1) + free m n

free_above : (id : ℕ) (u : Ty) (m : Map Ty) (n : ℕ) → n ≤ id → free ((id, u) ∷ m) n ≡ free m n
unfolding free get
free_above id u m zero h = refl
free_above id u m (suc n) h = ground (arith, free_above id u m n)

pub free-bind :
    (id : ℕ) (u : Ty) (m : Map Ty) (n : ℕ)
    → get m id ≡ none
    → id < n
    → free ((id, u) ∷ m) n < free m n
unfolding free get
free-bind id u m zero new h = elim h [ ]
free-bind id u m (suc n) new h = elim (Bool-cases (id == n)) [
  | inl same ↦
      let e : id ≡ n = ground arith in
      let unbound : get m n ≡ none = rw (← e) new in ground (arith, free_above id u m n)
  | inr other ↦ ground (arith, free-bind id u m n)
]

-- The size of a type with every binding put in.
unfoldable pub size : Map Ty → Ty → ℕ
unfolding size_ty
size m t = size_ty (resolve m t)

unfoldable pub sizes : Map Ty → Tys → ℕ
unfolding size_ty
sizes m ts = size_tys (resolve_tys m ts)

unfoldable pub sizes_named : Map Ty → NamedTys → ℕ
unfolding size_ty
sizes_named m ts = size_named (resolve_named m ts)

ty_size_pos : (t : Ty) → 0 < size_ty t
unfolding size_ty
ty_size_pos (var k) = omega arith
ty_size_pos _ = omega arith

pub size_pos : (m : Map Ty) (t : Ty) → 0 < size m t
unfolding size
size_pos m t = ty_size_pos (resolve m t)

pub size-optional : (m : Map Ty) (t : Ty) → size m (optional t) ≡ suc (size m t)
unfolding size
size-optional m t = rw (resolve-optional m t) refl

pub size-cascade : (m : Map Ty) (t : Ty) → size m (cascade t) ≡ suc (size m t)
unfolding size
size-cascade m t = rw (resolve-cascade m t) refl

pub size-witness : (m : Map Ty) (t : Ty) → size m (witness t) ≡ suc (size m t)
unfolding size
size-witness m t = rw (resolve-witness m t) refl

pub size-pointer :
    (m : Map Ty) (t : Ty) (is_mut : Bool) (l : Lifetime)
    → size m (pointer t is_mut l) ≡ suc (size m t)
unfolding size
size-pointer m t is_mut l = rw (resolve-pointer m t is_mut l) refl

pub size-builtin :
    (m : Map Ty) (kind : BuiltinWitness) (t : Ty) → size m (builtin_witness kind t) ≡ suc (size m t)
unfolding size
size-builtin m kind t = rw (resolve-builtin m kind t) refl

pub size-static : (m : Map Ty) (fs : NamedTys) → size m (static fs) ≡ suc (sizes_named m fs)
unfolding size sizes_named
size-static m fs = rw (resolve-static m fs) refl

pub size-function :
    (m : Map Ty) (ps : Tys) (r : Ty) (e : EffectSet)
    → size m (function ps r e) ≡ suc (sizes m ps + size m r)
unfolding size sizes
size-function m ps r e = rw (resolve-function m ps r e) refl

pub sizes-cons : (m : Map Ty) (t : Ty) (ts : Tys) → sizes m (tys t ts) ≡ size m t + sizes m ts
unfolding size sizes
sizes-cons m t ts = rw (resolve_tys-cons m t ts) refl

pub sizes_named-cons :
    (m : Map Ty) (name : Text) (t : Ty) (ts : NamedTys)
    → sizes_named m (named name t ts) ≡ size m t + sizes_named m ts
unfolding size sizes_named
sizes_named-cons m name t ts = rw (resolve_named-cons m name t ts) refl

pub size_root : (m : Map Ty) (k : ℕ) → IsRoot ty_terms m (var k) → size m (var k) ≡ 1
unfolding size
size_root m k root = rw (resolve_root m k root) refl

pub size-prune : (m : Map Ty) (t : Ty) → Acyclic ty_terms m → size m (prune m t) ≡ size m t
unfolding size
size-prune m t a = ap size_ty (resolve-prune m t a)

pub ruleset size_laws = (
  arith, size_pos, size-optional, size-cascade, size-witness, size-pointer, size-builtin,
  size-static, size-function, sizes-cons, sizes_named-cons,
)
