-- ===== src/Typeck/TyTerms.antt =====
-- crates/izel_typeck/src/lib.rs: types as terms with variables, and `prune` on them.
use izel.Prelude.{
  ℕ, suc, ◌+◌, ◌≡◌, ◌≢◌, refl, ap, arith, Bool, true, false, ◌||◌, some, [], ◌∷◌, ◌==◌, or_eq_false,
  if◌then◌else◌,
}
use izel.Typeck.{
  Ty, optional, cascade, pointer, function, var, static, assoc, witness, builtin_witness, Tys,
  no_tys, tys, NamedTys, no_named, named,
}
use izel.Typeck.State.{Map}
use izel.Typeck.Prune.{ty_var, steps, prune}
use izel.Typeck.Terms.{Terms, apply, Acyclic, IsRoot, apply-chase, apply_unbound, chase-IsRoot}

unfoldable mutual
  pub replace_ty : ℕ → Ty → Ty → Ty
  replace_ty id u (var k) = if k == id then u else var k
  replace_ty id u (optional t) = optional (replace_ty id u t)
  replace_ty id u (cascade t) = cascade (replace_ty id u t)
  replace_ty id u (pointer t is_mut l) = pointer (replace_ty id u t) is_mut l
  replace_ty id u (function ps r e) = function (replace_tys id u ps) (replace_ty id u r) e
  replace_ty id u (static fs) = static (replace_named id u fs)
  replace_ty id u (assoc t name) = assoc (replace_ty id u t) name
  replace_ty id u (witness t) = witness (replace_ty id u t)
  replace_ty id u (builtin_witness kind t) = builtin_witness kind (replace_ty id u t)
  replace_ty id u t = t

  pub replace_tys : ℕ → Ty → Tys → Tys
  replace_tys id u no_tys = no_tys
  replace_tys id u (tys t ts) = tys (replace_ty id u t) (replace_tys id u ts)

  pub replace_named : ℕ → Ty → NamedTys → NamedTys
  replace_named id u no_named = no_named
  replace_named id u (named name t ts) = named name (replace_ty id u t) (replace_named id u ts)

unfoldable mutual
  pub occurs_ty : ℕ → Ty → Bool
  occurs_ty id (var k) = k == id
  occurs_ty id (optional t) = occurs_ty id t
  occurs_ty id (cascade t) = occurs_ty id t
  occurs_ty id (pointer t _ _) = occurs_ty id t
  occurs_ty id (function ps r _) = occurs_tys id ps || occurs_ty id r
  occurs_ty id (static fs) = occurs_named id fs
  occurs_ty id (assoc t _) = occurs_ty id t
  occurs_ty id (witness t) = occurs_ty id t
  occurs_ty id (builtin_witness _ t) = occurs_ty id t
  occurs_ty id _ = false

  pub occurs_tys : ℕ → Tys → Bool
  occurs_tys id no_tys = false
  occurs_tys id (tys t ts) = occurs_ty id t || occurs_tys id ts

  pub occurs_named : ℕ → NamedTys → Bool
  occurs_named id no_named = false
  occurs_named id (named _ t ts) = occurs_ty id t || occurs_named id ts

unfoldable mutual
  pub size_ty : Ty → ℕ
  size_ty (optional t) = suc (size_ty t)
  size_ty (cascade t) = suc (size_ty t)
  size_ty (pointer t _ _) = suc (size_ty t)
  size_ty (function ps r _) = suc (size_tys ps + size_ty r)
  size_ty (static fs) = suc (size_named fs)
  size_ty (assoc t _) = suc (size_ty t)
  size_ty (witness t) = suc (size_ty t)
  size_ty (builtin_witness _ t) = suc (size_ty t)
  size_ty _ = 1

  pub size_tys : Tys → ℕ
  size_tys no_tys = 0
  size_tys (tys t ts) = size_ty t + size_tys ts

  pub size_named : NamedTys → ℕ
  size_named no_named = 0
  size_named (named _ t ts) = size_ty t + size_named ts

mutual
  unfolding replace_ty occurs_ty

  pub replace_ty_fresh : (id : ℕ) (u t : Ty) → occurs_ty id t ≡ false → replace_ty id u t ≡ t
  replace_ty_fresh id u (var k) h = ground arith
  replace_ty_fresh id u (optional t) h = ap optional (replace_ty_fresh id u t h)
  replace_ty_fresh id u (cascade t) h = ap cascade (replace_ty_fresh id u t h)
  replace_ty_fresh id u (pointer t is_mut l) h =
      ap (λ x. pointer x is_mut l) (replace_ty_fresh id u t h)
  replace_ty_fresh id u (function ps r e) h =
      let (hs, hr) = or_eq_false (occurs_tys id ps) (occurs_ty id r) h in
      λ i. function (replace_tys_fresh id u ps hs i) (replace_ty_fresh id u r hr i) e
  replace_ty_fresh id u (static fs) h = ap static (replace_named_fresh id u fs h)
  replace_ty_fresh id u (assoc t name) h = ap (λ x. assoc x name) (replace_ty_fresh id u t h)
  replace_ty_fresh id u (witness t) h = ap witness (replace_ty_fresh id u t h)
  replace_ty_fresh id u (builtin_witness kind t) h =
      ap (builtin_witness kind) (replace_ty_fresh id u t h)
  replace_ty_fresh id u _ h = refl

  pub replace_tys_fresh :
      (id : ℕ) (u : Ty) (ts : Tys) → occurs_tys id ts ≡ false → replace_tys id u ts ≡ ts
  replace_tys_fresh id u no_tys h = refl
  replace_tys_fresh id u (tys t ts) h =
      let (ht, hs) = or_eq_false (occurs_ty id t) (occurs_tys id ts) h in
      λ i. tys (replace_ty_fresh id u t ht i) (replace_tys_fresh id u ts hs i)

  replace_named_fresh :
      (id : ℕ) (u : Ty) (ts : NamedTys) → occurs_named id ts ≡ false → replace_named id u ts ≡ ts
  replace_named_fresh id u no_named h = refl
  replace_named_fresh id u (named name t ts) h =
      let (ht, hs) = or_eq_false (occurs_ty id t) (occurs_named id ts) h in
      λ i. named name (replace_ty_fresh id u t ht i) (replace_named_fresh id u ts hs i)

pub ty_replace_at : (id : ℕ) (u t : Ty) → ty_var t ≡ some id → replace_ty id u t ≡ u
unfolding replace_ty
ty_replace_at id u (var k) h = ground arith
ty_replace_at id u _ h = cc

pub ty_replace_other : (id k : ℕ) (u t : Ty) → ty_var t ≡ some k → id ≢ k → replace_ty id u t ≡ t
unfolding replace_ty
ty_replace_other id k u (var j) h n = ground arith
ty_replace_other id k u _ h n = cc

pub ty_occurs_at : (id : ℕ) (t : Ty) → ty_var t ≡ some id → occurs_ty id t ≡ true
unfolding occurs_ty
ty_occurs_at id (var k) h = ground arith
ty_occurs_at id _ h = cc

abbrev pub ty_terms : Terms
ty_terms = record {
  Term = Ty;
  var_of = ty_var;
  replace = replace_ty;
  occurs = occurs_ty;
  replace_at = ty_replace_at;
  replace_other = ty_replace_other;
  replace_fresh = replace_ty_fresh;
  occurs_at = ty_occurs_at;
}

-- A type with every binding put in.
unfoldable pub resolve : Map Ty → Ty → Ty
resolve m t = apply ty_terms m t

unfoldable pub resolve_tys : Map Ty → Tys → Tys
resolve_tys [] ts = ts
resolve_tys ((id, u) ∷ m) ts = replace_tys id (resolve m u) (resolve_tys m ts)

unfoldable pub resolve_named : Map Ty → NamedTys → NamedTys
resolve_named [] ts = ts
resolve_named ((id, u) ∷ m) ts = replace_named id (resolve m u) (resolve_named m ts)

pub resolve-prune : (m : Map Ty) (t : Ty) → Acyclic ty_terms m → resolve m (prune m t) ≡ resolve m t
unfolding prune resolve
resolve-prune m t a = apply-chase ty_terms (steps m) m t a

pub prune-IsRoot : (m : Map Ty) (t : Ty) → Acyclic ty_terms m → IsRoot ty_terms m (prune m t)
unfolding prune
prune-IsRoot m t a = chase-IsRoot ty_terms m (steps m) t a (omega arith)

pub resolve_root : (m : Map Ty) (k : ℕ) → IsRoot ty_terms m (var k) → resolve m (var k) ≡ var k
unfolding resolve
resolve_root m k root = apply_unbound ty_terms m k (var k) refl (root k refl)

-- `prune` ends where no bindings form a cycle: what it returns is no bound variable, and is the same
-- type with every binding put in.
pub prune_lem :
    (m : Map Ty) (t : Ty)
    → Acyclic ty_terms m
    → IsRoot ty_terms m (prune m t) × (resolve m (prune m t) ≡ resolve m t)
prune_lem m t a = (prune-IsRoot m t a, resolve-prune m t a)
