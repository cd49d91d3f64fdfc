-- ===== src/Typeck/TyResolve.antt =====
-- crates/izel_typeck/src/lib.rs: what a substitution does to each form of type.
use izel.Prelude.{◌≡◌, refl, Bool, [], ◌∷◌, Text}
use izel.Ast
use izel.Typeck.{
  Ty, prim, adt, optional, cascade, pointer, function, param, static, assoc, witness,
  builtin_witness, predicate, error, Tys, no_tys, tys, NamedTys, no_named, named, EffectSet,
  Lifetime, BuiltinWitness, PrimType, DefId,
}
use izel.Typeck.State.{Map}
use izel.Typeck.TyTerms.{replace_ty, resolve, resolve_tys, resolve_named}

pub resolve-optional : (m : Map Ty) (t : Ty) → resolve m (optional t) ≡ optional (resolve m t)
unfolding resolve resolve_tys resolve_named replace_ty
resolve-optional [] t = refl
resolve-optional ((id, u) ∷ m) t = rw (resolve-optional m t) refl

pub resolve-cascade : (m : Map Ty) (t : Ty) → resolve m (cascade t) ≡ cascade (resolve m t)
unfolding resolve resolve_tys resolve_named replace_ty
resolve-cascade [] t = refl
resolve-cascade ((id, u) ∷ m) t = rw (resolve-cascade m t) refl

pub resolve-witness : (m : Map Ty) (t : Ty) → resolve m (witness t) ≡ witness (resolve m t)
unfolding resolve resolve_tys resolve_named replace_ty
resolve-witness [] t = refl
resolve-witness ((id, u) ∷ m) t = rw (resolve-witness m t) refl

pub resolve-pointer :
    (m : Map Ty) (t : Ty) (is_mut : Bool) (l : Lifetime)
    → resolve m (pointer t is_mut l) ≡ pointer (resolve m t) is_mut l
unfolding resolve resolve_tys resolve_named replace_ty
resolve-pointer [] t is_mut l = refl
resolve-pointer ((id, u) ∷ m) t is_mut l = rw (resolve-pointer m t is_mut l) refl

pub resolve-builtin :
    (m : Map Ty) (kind : BuiltinWitness) (t : Ty)
    → resolve m (builtin_witness kind t) ≡ builtin_witness kind (resolve m t)
unfolding resolve resolve_tys resolve_named replace_ty
resolve-builtin [] kind t = refl
resolve-builtin ((id, u) ∷ m) kind t = rw (resolve-builtin m kind t) refl

pub resolve-assoc :
    (m : Map Ty) (t : Ty) (name : Text) → resolve m (assoc t name) ≡ assoc (resolve m t) name
unfolding resolve resolve_tys resolve_named replace_ty
resolve-assoc [] t name = refl
resolve-assoc ((id, u) ∷ m) t name = rw (resolve-assoc m t name) refl

pub resolve-static :
    (m : Map Ty) (fs : NamedTys) → resolve m (static fs) ≡ static (resolve_named m fs)
unfolding resolve resolve_tys resolve_named replace_ty
resolve-static [] fs = refl
resolve-static ((id, u) ∷ m) fs = rw (resolve-static m fs) refl

pub resolve-function :
    (m : Map Ty) (ps : Tys) (r : Ty) (e : EffectSet)
    → resolve m (function ps r e) ≡ function (resolve_tys m ps) (resolve m r) e
unfolding resolve resolve_tys resolve_named replace_ty
resolve-function [] ps r e = refl
resolve-function ((id, u) ∷ m) ps r e = rw (resolve-function m ps r e) refl

pub resolve_tys-nil : (m : Map Ty) → resolve_tys m no_tys ≡ no_tys
unfolding resolve resolve_tys resolve_named replace_ty
resolve_tys-nil [] = refl
resolve_tys-nil ((id, u) ∷ m) = rw (resolve_tys-nil m) refl

pub resolve_tys-cons :
    (m : Map Ty) (t : Ty) (ts : Tys)
    → resolve_tys m (tys t ts) ≡ tys (resolve m t) (resolve_tys m ts)
unfolding resolve resolve_tys resolve_named replace_ty
resolve_tys-cons [] t ts = refl
resolve_tys-cons ((id, u) ∷ m) t ts = rw (resolve_tys-cons m t ts) refl

pub resolve_named-nil : (m : Map Ty) → resolve_named m no_named ≡ no_named
unfolding resolve resolve_tys resolve_named replace_ty
resolve_named-nil [] = refl
resolve_named-nil ((id, u) ∷ m) = rw (resolve_named-nil m) refl

pub resolve_named-cons :
    (m : Map Ty) (name : Text) (t : Ty) (ts : NamedTys)
    → resolve_named m (named name t ts) ≡ named name (resolve m t) (resolve_named m ts)
unfolding resolve resolve_tys resolve_named replace_ty
resolve_named-cons [] name t ts = refl
resolve_named-cons ((id, u) ∷ m) name t ts = rw (resolve_named-cons m name t ts) refl

pub resolve-prim : (m : Map Ty) (p : PrimType) → resolve m (prim p) ≡ prim p
unfolding resolve resolve_tys resolve_named replace_ty
resolve-prim [] p = refl
resolve-prim ((id, u) ∷ m) p = rw (resolve-prim m p) refl

pub resolve-adt : (m : Map Ty) (id1 : DefId) → resolve m (adt id1) ≡ adt id1
unfolding resolve resolve_tys resolve_named replace_ty
resolve-adt [] id1 = refl
resolve-adt ((id, u) ∷ m) id1 = rw (resolve-adt m id1) refl

pub resolve-param : (m : Map Ty) (name : Text) → resolve m (param name) ≡ param name
unfolding resolve resolve_tys resolve_named replace_ty
resolve-param [] name = refl
resolve-param ((id, u) ∷ m) name = rw (resolve-param m name) refl

pub resolve-predicate : (m : Map Ty) (e : Ast.Expr) → resolve m (predicate e) ≡ predicate e
unfolding resolve resolve_tys resolve_named replace_ty
resolve-predicate [] e = refl
resolve-predicate ((id, u) ∷ m) e = rw (resolve-predicate m e) refl

pub resolve-error : (m : Map Ty) → resolve m error ≡ error
unfolding resolve resolve_tys resolve_named replace_ty
resolve-error [] = refl
resolve-error ((id, u) ∷ m) = rw (resolve-error m) refl
