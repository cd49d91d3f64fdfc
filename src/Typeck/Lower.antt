-- ===== src/Typeck/Lower.antt =====
-- crates/izel_typeck/src/lib.rs: `lower_ast_type`, and `resolve_assoc_type` with it. `fuel` is for the
-- effects of the schemes that are instantiated.
use izel.Prelude.{ℕ, Option, none, some, List, [], ◌∷◌, codes, if◌then◌else◌, Text}
use izel.Ast
use izel.Typeck.{
  Ty, prim, optional, cascade, pointer, function, assoc, witness, builtin_witness, predicate, error,
  Tys, no_tys, tys, PrimType, i32, i64, u8, u16, u32, u64, f32, f64, str, bool, void, never,
  concrete, anonymous, BuiltinWitness, non_zero, in_bounds, sorted, Ty-discrete, is_yes,
}
use izel.Typeck.State.{TypeChecker, TraitImpl, find, new_var}
use izel.Typeck.Prune.{prune}
use izel.Typeck.Schemes.{or_else, resolve_name}

abbrev builtin_prims : List (Text × PrimType)
builtin_prims =
    (codes "int", i32)
    ∷ (codes "i32", i32)
    ∷ (codes "never", never)
    ∷ (codes "i64", i64)
    ∷ (codes "u8", u8)
    ∷ (codes "u16", u16)
    ∷ (codes "u32", u32)
    ∷ (codes "u64", u64)
    ∷ (codes "usize", u64)
    ∷ (codes "float", f32)
    ∷ (codes "f32", f32)
    ∷ (codes "f64", f64)
    ∷ (codes "str", str)
    ∷ (codes "bool", bool)
    ∷ (codes "void", void)
    ∷ []

abbrev builtin_witnesses : List (Text × BuiltinWitness)
builtin_witnesses =
    (codes "NonZero", non_zero) ∷ (codes "InBounds", in_bounds) ∷ (codes "Sorted", sorted) ∷ []

abbrev Lowered : Type 0
Lowered = Ty × TypeChecker

-- `if let Some(t) = self.resolve_name(s) { t } else { Type::Error }`
unfoldable pub resolve_or_error : ℕ → Text → TypeChecker → Lowered
unfolding resolve_name
resolve_or_error fuel name s = let r = resolve_name fuel name s in (or_else r.0 error, r.1)

abbrev lower_prim : ℕ → Text → Option PrimType → TypeChecker → Lowered
lower_prim fuel name (some p) s = (prim p, s)
lower_prim fuel name none s = resolve_or_error fuel name s

abbrev change : (Ty → Ty) → Lowered → Lowered
change f r = (f r.0, r.1)

-- `for part in &parts[1..] { current = Type::Assoc(…) }`
unfoldable pub assoc_of : Ty → List Text → Ty
assoc_of t [] = t
assoc_of t (part ∷ parts) = assoc_of (assoc t part) parts

-- The cases of a path. A first argument is given by the way in which it is lowered.
abbrev lower_path : ℕ → List Text → Option (TypeChecker → Lowered) → TypeChecker → Lowered
lower_path fuel [] inner s = resolve_or_error fuel [] s
lower_path fuel (name ∷ []) inner s = elim (find builtin_witnesses name) [
  | some kind ↦ elim inner [
    | some lower ↦ change (builtin_witness kind) (lower s)
    | none ↦ change (builtin_witness kind) (new_var s)
  ]
  | none ↦ resolve_or_error fuel name s
]
lower_path fuel (name ∷ part ∷ parts) inner s =
    change (λ t. assoc_of t (part ∷ parts)) (resolve_or_error fuel name s)

abbrev lower_self : ℕ → Option Ty → TypeChecker → Lowered
lower_self fuel (some t) s = (t, s)
lower_self fuel none s = resolve_or_error fuel (codes "Self") s

unfoldable mutual
  unfolding resolve_or_error find assoc_of

  pub lower_generic_arg : ℕ → Ast.GenericArg → TypeChecker → Lowered
  lower_generic_arg fuel (Ast.type_arg t) s = lower_ast_type fuel t s
  lower_generic_arg fuel (Ast.expr_arg e) s = (predicate e, s)

  pub lower_first : ℕ → Ast.GenericArgs → Option (TypeChecker → Lowered)
  lower_first fuel Ast.no_generics = none
  lower_first fuel (Ast.generics a _) = some (lower_generic_arg fuel a)

  pub lower_ast_type : ℕ → Ast.AstType → TypeChecker → Lowered
  lower_ast_type fuel (Ast.prim name) s = lower_prim fuel name (find builtin_prims name) s
  lower_ast_type fuel (Ast.optional inner) s = change optional (lower_ast_type fuel inner s)
  lower_ast_type fuel (Ast.cascade_type inner) s = change cascade (lower_ast_type fuel inner s)
  lower_ast_type fuel (Ast.pointer inner is_mut) s =
      change (λ t. pointer t is_mut (anonymous 0)) (lower_ast_type fuel inner s)
  lower_ast_type fuel (Ast.witness inner) s = change witness (lower_generic_arg fuel inner s)
  lower_ast_type fuel (Ast.path_type parts gen_args) s =
      lower_path fuel parts (lower_first fuel gen_args) s
  lower_ast_type fuel Ast.self_type s = lower_self fuel s.current_self s
  lower_ast_type fuel (Ast.function params ret _) s =
      let ps = lower_ast_types fuel params s in
      change (λ t. function ps.0 t (concrete [])) (lower_ast_type fuel ret ps.1)
  lower_ast_type fuel Ast.error s = (error, s)

  pub lower_ast_types : ℕ → Ast.AstTypes → TypeChecker → Tys × TypeChecker
  lower_ast_types fuel Ast.no_types s = (no_tys, s)
  lower_ast_types fuel (Ast.types t ts) s =
      let r = lower_ast_type fuel t s in
      let rs = lower_ast_types fuel ts r.1 in (tys r.0 rs.0, rs.1)

-- `if a.name == name { return self.lower_ast_type(&a.ty) }`, and else the next implementation.
abbrev lower_alias : ℕ → Option Ast.AstType → Lowered → TypeChecker → Lowered
lower_alias fuel none others s = others
lower_alias fuel (some t) others s = lower_ast_type fuel t s

-- The first alias of the name among the implementations for the type.
unfoldable pub resolve_assoc_in : ℕ → Ty → Text → List TraitImpl → TypeChecker → Lowered
unfolding Ty-discrete find lower_ast_type
resolve_assoc_in fuel base name [] s = (error, s)
resolve_assoc_in fuel base name ((target, aliases) ∷ impls) s =
    let others = resolve_assoc_in fuel base name impls s in
    if is_yes (Ty-discrete base target)
    then lower_alias fuel (find aliases name) others s
    else others

unfoldable pub resolve_assoc_type : ℕ → Ty → Text → TypeChecker → Lowered
unfolding resolve_assoc_in
resolve_assoc_type fuel base name s =
    resolve_assoc_in fuel (prune s.substitutions base) name s.trait_impls s
