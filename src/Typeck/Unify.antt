-- ===== src/Typeck/Unify.antt =====
-- crates/izel_typeck/src/lib.rs: `unify`. An arm of its `match` on two types is a constructor of
-- `Arm`, and `arm` finds the first that fits. The calls that go round take fuel for their depth.
use izel.Prelude.{ℕ, zero, suc, Bool, true, false, ◌&&◌, none, ◌==◌, if◌then◌else◌, text_eq}
use izel.Ast
use izel.Ast.Equality.{bool_eq}
use izel.Ast.AlphaEq.{alpha_eq}
use izel.Typeck.{
  Ty, prim, adt, optional, cascade, pointer, function, var, static, assoc, witness, builtin_witness,
  predicate, error, Tys, no_tys, tys, NamedTys, no_named, named, EffectSet, PrimType, never, DefId,
  Lifetime, BuiltinWitness, PrimType-discrete, BuiltinWitness-discrete, Lifetime-discrete, is_yes,
}
use izel.Typeck.State.{M, and_then, answer, is_proof_mode}
use izel.Typeck.Prune.{prune, occurs_check_and_adjust_levels}
use izel.Typeck.Effects.{unify_effects}
use izel.Typeck.Lower.{resolve_assoc_type}

pub data Arm : Ty → Ty → Type 0 where
  both_var : (id1 id2 : ℕ) → Arm (var id1) (var id2)
  var_left : (id : ℕ) (t : Ty) → Arm (var id) t
  var_right : (t : Ty) (id : ℕ) → Arm t (var id)
  never_left : (t : Ty) → Arm (prim never) t
  never_right : (t : Ty) → Arm t (prim never)
  prims : (p1 p2 : PrimType) → Arm (prim p1) (prim p2)
  none_optional : (o : Ty) → Arm (prim PrimType.none) (optional o)
  optional_none : (o : Ty) → Arm (optional o) (prim PrimType.none)
  none_cascade : (c : Ty) → Arm (prim PrimType.none) (cascade c)
  cascade_none : (c : Ty) → Arm (cascade c) (prim PrimType.none)
  optional_cascade : (o c : Ty) → Arm (optional o) (cascade c)
  cascade_optional : (c o : Ty) → Arm (cascade c) (optional o)
  statics : (f1 f2 : NamedTys) → Arm (static f1) (static f2)
  optionals : (o1 o2 : Ty) → Arm (optional o1) (optional o2)
  cascades : (c1 c2 : Ty) → Arm (cascade c1) (cascade c2)
  pointers :
      (p1 : Ty) (m1 : Bool) (l1 : Lifetime) (p2 : Ty) (m2 : Bool) (l2 : Lifetime)
      → Arm (pointer p1 m1 l1) (pointer p2 m2 l2)
  witnesses : (w1 w2 : Ty) → Arm (witness w1) (witness w2)
  builtins :
      (k1 : BuiltinWitness) (t1 : Ty) (k2 : BuiltinWitness) (t2 : Ty)
      → Arm (builtin_witness k1 t1) (builtin_witness k2 t2)
  functions :
      (p1 : Tys) (r1 : Ty) (e1 : EffectSet) (p2 : Tys) (r2 : Ty) (e2 : EffectSet)
      → Arm (function p1 r1 e1) (function p2 r2 e2)
  adts : (id1 id2 : DefId) → Arm (adt id1) (adt id2)
  predicates : (e1 e2 : Ast.Expr) → Arm (predicate e1) (predicate e2)
  to_optional : (t o : Ty) → Arm t (optional o)
  to_cascade : (t c : Ty) → Arm t (cascade c)
  from_optional : (o t : Ty) → Arm (optional o) t
  from_cascade : (c t : Ty) → Arm (cascade c) t
  from_witness : (w t : Ty) → Arm (witness w) t
  to_witness : (t w : Ty) → Arm t (witness w)
  to_builtin : (t : Ty) (k : BuiltinWitness) (inner : Ty) → Arm t (builtin_witness k inner)
  from_builtin : (k : BuiltinWitness) (inner t : Ty) → Arm (builtin_witness k inner) t
  error_left : (t : Ty) → Arm error t
  error_right : (t : Ty) → Arm t error
  otherwise : (t1 t2 : Ty) → Arm t1 t2

unfoldable pub arm : (t1 t2 : Ty) → Arm t1 t2
arm (var id1) (var id2) = both_var id1 id2
arm (var id) t = var_left id t
arm t (var id) = var_right t id
arm (prim never) t = never_left t
arm t (prim never) = never_right t
arm (prim p1) (prim p2) = prims p1 p2
arm (prim PrimType.none) (optional o) = none_optional o
arm (optional o) (prim PrimType.none) = optional_none o
arm (prim PrimType.none) (cascade c) = none_cascade c
arm (cascade c) (prim PrimType.none) = cascade_none c
arm (optional o) (cascade c) = optional_cascade o c
arm (cascade c) (optional o) = cascade_optional c o
arm (static f1) (static f2) = statics f1 f2
arm (optional o1) (optional o2) = optionals o1 o2
arm (cascade c1) (cascade c2) = cascades c1 c2
arm (pointer p1 m1 l1) (pointer p2 m2 l2) = pointers p1 m1 l1 p2 m2 l2
arm (witness w1) (witness w2) = witnesses w1 w2
arm (builtin_witness k1 t1) (builtin_witness k2 t2) = builtins k1 t1 k2 t2
arm (function p1 r1 e1) (function p2 r2 e2) = functions p1 r1 e1 p2 r2 e2
arm (adt id1) (adt id2) = adts id1 id2
arm (predicate e1) (predicate e2) = predicates e1 e2
arm t (optional o) = to_optional t o
arm t (cascade c) = to_cascade t c
arm (optional o) t = from_optional o t
arm (cascade c) t = from_cascade c t
arm (witness w) t = from_witness w t
arm t (witness w) = to_witness t w
arm t (builtin_witness k inner) = to_builtin t k inner
arm (builtin_witness k inner) t = from_builtin k inner t
arm error t = error_left t
arm t error = error_right t
arm t1 t2 = otherwise t1 t2

abbrev pub Unifier : Type 0
Unifier = Ty → Ty → M Bool

-- `if p1.len() != p2.len() { return false }` and the loop over both
unfoldable pub same_length : Tys → Tys → Bool
same_length no_tys no_tys = true
same_length (tys _ ts) (tys _ us) = same_length ts us
same_length _ _ = false

unfoldable pub unify_zip : Unifier → Tys → Tys → M Bool
unify_zip unify (tys t ts) (tys u us) = and_then (unify t u) (unify_zip unify ts us)
unify_zip unify _ _ = answer true

unfoldable pub same_length_named : NamedTys → NamedTys → Bool
same_length_named no_named no_named = true
same_length_named (named _ _ ts) (named _ _ us) = same_length_named ts us
same_length_named _ _ = false

unfoldable pub unify_named : Unifier → NamedTys → NamedTys → M Bool
unify_named unify (named n1 t ts) (named n2 u us) =
    and_then (answer (text_eq n1 n2)) (and_then (unify t u) (unify_named unify ts us))
unify_named unify _ _ = answer true

-- The right-hand sides of the arms.
unfoldable pub run_arm : Unifier → ℕ → {t1 t2 : Ty} → Arm t1 t2 → M Bool
run_arm unify fuel (both_var id1 id2) =
    if id1 == id2 then answer true else occurs_check_and_adjust_levels fuel id1 (var id2)
run_arm unify fuel (var_left id t) = occurs_check_and_adjust_levels fuel id t
run_arm unify fuel (var_right t id) = occurs_check_and_adjust_levels fuel id t
run_arm unify fuel (never_left t) = answer true
run_arm unify fuel (never_right t) = answer true
run_arm unify fuel (prims p1 p2) = answer (is_yes (PrimType-discrete p1 p2))
run_arm unify fuel (none_optional o) = answer true
run_arm unify fuel (optional_none o) = answer true
run_arm unify fuel (none_cascade c) = answer true
run_arm unify fuel (cascade_none c) = answer true
run_arm unify fuel (optional_cascade o c) = unify o c
run_arm unify fuel (cascade_optional c o) = unify c o
run_arm unify fuel (statics f1 f2) =
    and_then (answer (same_length_named f1 f2)) (unify_named unify f1 f2)
run_arm unify fuel (optionals o1 o2) = unify o1 o2
run_arm unify fuel (cascades c1 c2) = unify c1 c2
run_arm unify fuel (pointers p1 m1 l1 p2 m2 l2) =
    and_then (answer (bool_eq m1 m2 && is_yes (Lifetime-discrete l1 l2))) (unify p1 p2)
run_arm unify fuel (witnesses w1 w2) = unify w1 w2
run_arm unify fuel (builtins k1 t1 k2 t2) =
    and_then (answer (is_yes (BuiltinWitness-discrete k1 k2))) (unify t1 t2)
run_arm unify fuel (functions p1 r1 e1 p2 r2 e2) =
    and_then (answer (same_length p1 p2))
      (and_then (unify_zip unify p1 p2) (and_then (unify r1 r2) (unify_effects fuel e1 e2)))
run_arm unify fuel (adts id1 id2) = answer (id1 == id2)
run_arm unify fuel (predicates e1 e2) = answer (alpha_eq e1 e2)
run_arm unify fuel (to_optional t o) = unify t o
run_arm unify fuel (to_cascade t c) = unify t c
run_arm unify fuel (from_optional o t) = unify o t
run_arm unify fuel (from_cascade c t) = unify c t
run_arm unify fuel (from_witness w t) = λ s. and_then (answer (is_proof_mode s)) (unify w t) s
run_arm unify fuel (to_witness t w) = unify t w
run_arm unify fuel (to_builtin t k inner) = unify t inner
run_arm unify fuel (from_builtin k inner t) =
    λ s. and_then (answer (is_proof_mode s)) (unify inner t) s
run_arm unify fuel (error_left t) = answer true
run_arm unify fuel (error_right t) = answer true
run_arm unify fuel (otherwise t1 t2) = answer false

-- `let resolved = …; if resolved != Type::Error { return self.unify(…) }`, for a type that is an
-- associated one. The state is kept where nothing was found.
abbrev pub is_error : Ty → Bool
is_error error = true
is_error _ = false

unfoldable pub through_assoc : ℕ → (Ty → M Bool) → Ty → M Bool → M Bool
unfolding resolve_assoc_type
through_assoc fuel unify (assoc base name) next s =
    let r = resolve_assoc_type fuel base name s in
    elim (is_error r.0) [ true ↦ next r.1 | false ↦ unify r.0 r.1 ]
through_assoc fuel unify t next s = next s

unfoldable pub unify_pruned : Unifier → ℕ → Ty → Ty → M Bool
unfolding through_assoc arm run_arm
unify_pruned unify fuel t1 t2 =
    through_assoc fuel (λ t. unify t t2) t1
      (through_assoc fuel (unify t1) t2 (run_arm unify fuel (arm t1 t2)))

unfoldable pub unify : ℕ → Unifier
unify zero t1 t2 s = none
unify (suc fuel) t1 t2 s =
    unify_pruned (unify fuel) fuel (prune s.substitutions t1) (prune s.substitutions t2) s
