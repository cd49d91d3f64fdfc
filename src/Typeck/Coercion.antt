-- ===== src/Typeck/Coercion.antt =====
-- crates/izel_typeck/src/lib.rs: what `unify` promises of two types with all bindings put in. A value of
-- the one is accepted where the other is expected, or the other way round; `proof` says whether plain
-- values are accepted as witnesses.
use izel.Prelude.{ℕ, ◌≡◌, ap, Bool, true, ◌∷◌, Text}
use izel.Ast
use izel.Ast.AlphaEq.{alpha_eq}
use izel.Typeck.{
  Ty, prim, optional, cascade, pointer, function, static, witness, builtin_witness, predicate,
  error, Tys, no_tys, tys, NamedTys, no_named, named, EffectSet, PrimType, never, Lifetime,
  BuiltinWitness,
}
use izel.Typeck.State.{Map}
use izel.Typeck.TyTerms.{replace_ty, replace_tys, replace_named, resolve, resolve_tys}

mutual
  pub data Coerces (proof : Bool) : Ty → Ty → Type 0 where
    equal : (t : Ty) → Coerces proof t t
    never_left : (t : Ty) → Coerces proof (prim never) t
    never_right : (t : Ty) → Coerces proof t (prim never)
    none_optional : (o : Ty) → Coerces proof (prim PrimType.none) (optional o)
    optional_none : (o : Ty) → Coerces proof (optional o) (prim PrimType.none)
    none_cascade : (c : Ty) → Coerces proof (prim PrimType.none) (cascade c)
    cascade_none : (c : Ty) → Coerces proof (cascade c) (prim PrimType.none)
    optionals : {a b : Ty} → Coerces proof a b → Coerces proof (optional a) (optional b)
    cascades : {a b : Ty} → Coerces proof a b → Coerces proof (cascade a) (cascade b)
    optional_cascade : {a b : Ty} → Coerces proof a b → Coerces proof (optional a) (cascade b)
    cascade_optional : {a b : Ty} → Coerces proof a b → Coerces proof (cascade a) (optional b)
    witnesses : {a b : Ty} → Coerces proof a b → Coerces proof (witness a) (witness b)
    builtins :
        {a b : Ty} (kind : BuiltinWitness)
        → Coerces proof a b
        → Coerces proof (builtin_witness kind a) (builtin_witness kind b)
    pointers :
        {a b : Ty} (is_mut : Bool) (l : Lifetime)
        → Coerces proof a b
        → Coerces proof (pointer a is_mut l) (pointer b is_mut l)
    functions :
        {ps qs : Tys} {a b : Ty} (e1 e2 : EffectSet)
        → AllCoerce proof ps qs
        → Coerces proof a b
        → Coerces proof (function ps a e1) (function qs b e2)
    statics : {fs gs : NamedTys} → FieldsCoerce proof fs gs → Coerces proof (static fs) (static gs)
    predicates :
        (e1 e2 : Ast.Expr) → alpha_eq e1 e2 ≡ true → Coerces proof (predicate e1) (predicate e2)
    to_optional : {a b : Ty} → Coerces proof a b → Coerces proof a (optional b)
    to_cascade : {a b : Ty} → Coerces proof a b → Coerces proof a (cascade b)
    from_optional : {a b : Ty} → Coerces proof a b → Coerces proof (optional a) b
    from_cascade : {a b : Ty} → Coerces proof a b → Coerces proof (cascade a) b
    from_witness : {a b : Ty} → proof ≡ true → Coerces proof a b → Coerces proof (witness a) b
    to_witness : {a b : Ty} → Coerces proof a b → Coerces proof a (witness b)
    to_builtin :
        {a b : Ty} (kind : BuiltinWitness)
        → Coerces proof a b
        → Coerces proof a (builtin_witness kind b)
    from_builtin :
        {a b : Ty} (kind : BuiltinWitness)
        → proof ≡ true
        → Coerces proof a b
        → Coerces proof (builtin_witness kind a) b
    error_left : (t : Ty) → Coerces proof error t
    error_right : (t : Ty) → Coerces proof t error

  pub data AllCoerce (proof : Bool) : Tys → Tys → Type 0 where
    nil : AllCoerce proof no_tys no_tys
    cons :
        {a b : Ty} {ps qs : Tys}
        → Coerces proof a b
        → AllCoerce proof ps qs
        → AllCoerce proof (tys a ps) (tys b qs)

  pub data FieldsCoerce (proof : Bool) : NamedTys → NamedTys → Type 0 where
    no_field : FieldsCoerce proof no_named no_named
    field :
        {a b : Ty} {fs gs : NamedTys} (name : Text)
        → Coerces proof a b
        → FieldsCoerce proof fs gs
        → FieldsCoerce proof (named name a fs) (named name b gs)

-- A variable that is replaced in both types.
mutual
  unfolding replace_ty

  Coerces-replace_ty :
      {proof : Bool} (id : ℕ) (u : Ty) {a b : Ty}
      → Coerces proof a b
      → Coerces proof (replace_ty id u a) (replace_ty id u b)
  Coerces-replace_ty id u (equal t) = equal (replace_ty id u t)
  Coerces-replace_ty id u (never_left t) = never_left (replace_ty id u t)
  Coerces-replace_ty id u (never_right t) = never_right (replace_ty id u t)
  Coerces-replace_ty id u (none_optional o) = none_optional (replace_ty id u o)
  Coerces-replace_ty id u (optional_none o) = optional_none (replace_ty id u o)
  Coerces-replace_ty id u (none_cascade c) = none_cascade (replace_ty id u c)
  Coerces-replace_ty id u (cascade_none c) = cascade_none (replace_ty id u c)
  Coerces-replace_ty id u (optionals h) = optionals (Coerces-replace_ty id u h)
  Coerces-replace_ty id u (cascades h) = cascades (Coerces-replace_ty id u h)
  Coerces-replace_ty id u (optional_cascade h) = optional_cascade (Coerces-replace_ty id u h)
  Coerces-replace_ty id u (cascade_optional h) = cascade_optional (Coerces-replace_ty id u h)
  Coerces-replace_ty id u (witnesses h) = witnesses (Coerces-replace_ty id u h)
  Coerces-replace_ty id u (to_optional h) = to_optional (Coerces-replace_ty id u h)
  Coerces-replace_ty id u (to_cascade h) = to_cascade (Coerces-replace_ty id u h)
  Coerces-replace_ty id u (from_optional h) = from_optional (Coerces-replace_ty id u h)
  Coerces-replace_ty id u (from_cascade h) = from_cascade (Coerces-replace_ty id u h)
  Coerces-replace_ty id u (to_witness h) = to_witness (Coerces-replace_ty id u h)
  Coerces-replace_ty id u (builtins kind h) = builtins kind (Coerces-replace_ty id u h)
  Coerces-replace_ty id u (pointers is_mut l h) = pointers is_mut l (Coerces-replace_ty id u h)
  Coerces-replace_ty id u (functions e1 e2 hs h) =
      functions e1 e2 (AllCoerce-replace_tys id u hs) (Coerces-replace_ty id u h)
  Coerces-replace_ty id u (statics hs) = statics (FieldsCoerce-replace_named id u hs)
  Coerces-replace_ty id u (predicates e1 e2 h) = predicates e1 e2 h
  Coerces-replace_ty id u (from_witness p h) = from_witness p (Coerces-replace_ty id u h)
  Coerces-replace_ty id u (to_builtin kind h) = to_builtin kind (Coerces-replace_ty id u h)
  Coerces-replace_ty id u (from_builtin kind p h) = from_builtin kind p (Coerces-replace_ty id u h)
  Coerces-replace_ty id u (error_left t) = error_left (replace_ty id u t)
  Coerces-replace_ty id u (error_right t) = error_right (replace_ty id u t)

  AllCoerce-replace_tys :
      {proof : Bool} (id : ℕ) (u : Ty) {ps qs : Tys}
      → AllCoerce proof ps qs
      → AllCoerce proof (replace_tys id u ps) (replace_tys id u qs)
  AllCoerce-replace_tys id u nil = nil
  AllCoerce-replace_tys id u (cons h hs) =
      cons (Coerces-replace_ty id u h) (AllCoerce-replace_tys id u hs)

  FieldsCoerce-replace_named :
      {proof : Bool} (id : ℕ) (u : Ty) {fs gs : NamedTys}
      → FieldsCoerce proof fs gs
      → FieldsCoerce proof (replace_named id u fs) (replace_named id u gs)
  FieldsCoerce-replace_named id u no_field = no_field
  FieldsCoerce-replace_named id u (field name h hs) =
      field name (Coerces-replace_ty id u h) (FieldsCoerce-replace_named id u hs)

-- Bindings made on top of a substitution.
pub data Extends (m : Map Ty) : Map Ty → Type 0 where
  unchanged : Extends m m
  bound : {n : Map Ty} (id : ℕ) (u : Ty) → Extends m n → Extends m ((id, u) ∷ n)

pub Extends-trans : {m n o : Map Ty} → Extends m n → Extends n o → Extends m o
Extends-trans e unchanged = e
Extends-trans e (bound id u f) = bound id u (Extends-trans e f)

pub resolve-Extends :
    {m n : Map Ty} (a b : Ty) → Extends m n → resolve m a ≡ resolve m b → resolve n a ≡ resolve n b
unfolding resolve
resolve-Extends a b unchanged e = e
resolve-Extends a b (bound {n} id u f) e =
    ap (replace_ty id (resolve n u)) (resolve-Extends a b f e)

pub Coerces-Extends :
    {proof : Bool} {m n : Map Ty} (a b : Ty)
    → Extends m n
    → Coerces proof (resolve m a) (resolve m b)
    → Coerces proof (resolve n a) (resolve n b)
unfolding resolve
Coerces-Extends a b unchanged h = h
Coerces-Extends a b (bound {n} id u f) h =
    Coerces-replace_ty id (resolve n u) (Coerces-Extends a b f h)

pub AllCoerce-Extends :
    {proof : Bool} {m n : Map Ty} (ps qs : Tys)
    → Extends m n
    → AllCoerce proof (resolve_tys m ps) (resolve_tys m qs)
    → AllCoerce proof (resolve_tys n ps) (resolve_tys n qs)
unfolding resolve_tys
AllCoerce-Extends ps qs unchanged h = h
AllCoerce-Extends ps qs (bound {n} id u f) h =
    AllCoerce-replace_tys id (resolve n u) (AllCoerce-Extends ps qs f h)
