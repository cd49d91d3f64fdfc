-- ===== src/Ast/Self.antt =====
-- crates/izel_parser/src/ast.rs: `alpha_eq` takes a tree for equal to the one without its spans.
use izel.Prelude.{Bool, true, ◌&&◌, ◌≡◌, refl, text_eq_iff, texts_eq_iff}
use izel.Ast.Equality.{
  bool_eq_iff, binary_op_eq_iff, unary_op_eq_iff, literal_eq_iff, option_text_eq_iff,
}
use izel.Ast.AlphaEq.{
  alpha_eq, alpha_eq_opt_expr, alpha_eq_arg, alpha_eq_args, alpha_eq_field_inits, alpha_eq_block,
  alpha_eq_opt_block, alpha_eq_stmt, alpha_eq_stmts, alpha_eq_generic_arg, alpha_eq_generic_args,
  alpha_eq_ast_type, alpha_eq_ast_types, alpha_eq_opt_type, alpha_eq_arm, alpha_eq_arms,
  alpha_eq_pattern, alpha_eq_patterns, alpha_eq_field_patterns,
}
use izel.Ast.Spans.{
  erase_spans, erase_spans_opt_expr, erase_spans_arg, erase_spans_args, erase_spans_field_inits,
  erase_spans_block, erase_spans_opt_block, erase_spans_stmt, erase_spans_stmts,
  erase_spans_generic_arg, erase_spans_generic_args, erase_spans_ast_type, erase_spans_ast_types,
  erase_spans_opt_type, erase_spans_arm, erase_spans_arms, erase_spans_pattern,
  erase_spans_patterns, erase_spans_field_patterns,
}
use izel.Ast.{
  Expr, OptExpr, Arg, Args, FieldInits, Block, OptBlock, Stmt, Stmts, GenericArg, GenericArgs,
  AstType, AstTypes, OptType, Arm, Arms, Pattern, Patterns, FieldPatterns, literal, ident, binary,
  unary, call, member, path, block_expr, given, branch, loop, while_loop, each, raw, bind,
  struct_literal, return, next, break, zone, cascade, seek, tide, witness_new, no_expr, some_expr,
  arg, no_args, args, no_inits, inits, block, no_block, some_block, expr_stmt, let_stmt, assign,
  no_stmts, stmts, type_arg, expr_arg, no_generics, generics, prim, path_type, optional,
  cascade_type, pointer, witness, self_type, error, function, no_types, types, no_type, some_type,
  arm, no_arms, arms, ident_pattern, variant, literal_pattern, struct_pattern, tuple, slice, rest,
  or_pattern, wildcard, no_patterns, patterns, no_fields, fields,
}

and_true : {p q : Bool} → p ≡ true → q ≡ true → (p && q) ≡ true
and_true e h = cc

mutual
  unfolding alpha_eq erase_spans

  pub alpha_eq_erase : (a : Expr) → alpha_eq a (erase_spans a) ≡ true
  alpha_eq_erase (literal a1) = (literal_eq_iff a1 a1).1 refl
  alpha_eq_erase (ident a1 _) = (text_eq_iff a1 a1).1 refl
  alpha_eq_erase (binary a1 a2 a3) =
      and_true (and_true ((binary_op_eq_iff a1 a1).1 refl) (alpha_eq_erase a2)) (alpha_eq_erase a3)
  alpha_eq_erase (unary a1 a2) = and_true ((unary_op_eq_iff a1 a1).1 refl) (alpha_eq_erase a2)
  alpha_eq_erase (call a1 a2) = and_true (alpha_eq_erase a1) (alpha_eq_erase_args a2)
  alpha_eq_erase (member a1 a2 _) = and_true (alpha_eq_erase a1) ((text_eq_iff a2 a2).1 refl)
  alpha_eq_erase (path a1 a2) =
      and_true ((texts_eq_iff a1 a1).1 refl) (alpha_eq_erase_generic_args a2)
  alpha_eq_erase (block_expr a1) = alpha_eq_erase_block a1
  alpha_eq_erase (given a1 a2 a3) =
      and_true (and_true (alpha_eq_erase a1) (alpha_eq_erase_block a2)) (alpha_eq_erase_opt_expr a3)
  alpha_eq_erase (branch a1 a2) = and_true (alpha_eq_erase a1) (alpha_eq_erase_arms a2)
  alpha_eq_erase (loop a1) = alpha_eq_erase_block a1
  alpha_eq_erase (while_loop a1 a2) = and_true (alpha_eq_erase a1) (alpha_eq_erase_block a2)
  alpha_eq_erase (each a1 a2 a3) =
      and_true (and_true ((text_eq_iff a1 a1).1 refl) (alpha_eq_erase a2)) (alpha_eq_erase_block a3)
  alpha_eq_erase (raw a1) = alpha_eq_erase a1
  alpha_eq_erase (bind a1 a2) = and_true ((texts_eq_iff a1 a1).1 refl) (alpha_eq_erase a2)
  alpha_eq_erase (struct_literal a1 a2) =
      and_true (alpha_eq_erase_ast_type a1) (alpha_eq_erase_field_inits a2)
  alpha_eq_erase (return a1) = alpha_eq_erase a1
  alpha_eq_erase next = refl
  alpha_eq_erase break = refl
  alpha_eq_erase (zone a1 a2) = and_true ((text_eq_iff a1 a1).1 refl) (alpha_eq_erase_block a2)
  alpha_eq_erase (cascade a1 a2) = and_true (alpha_eq_erase a1) (alpha_eq_erase_opt_expr a2)
  alpha_eq_erase (seek a1 a2 a3) =
      and_true (and_true (alpha_eq_erase_block a1) ((option_text_eq_iff a2 a2).1 refl))
        (alpha_eq_erase_opt_block a3)
  alpha_eq_erase (tide a1) = alpha_eq_erase a1
  alpha_eq_erase (witness_new a1) = alpha_eq_erase_generic_arg a1

  alpha_eq_erase_opt_expr : (a : OptExpr) → alpha_eq_opt_expr a (erase_spans_opt_expr a) ≡ true
  alpha_eq_erase_opt_expr no_expr = refl
  alpha_eq_erase_opt_expr (some_expr a1) = alpha_eq_erase a1

  alpha_eq_erase_arg : (a : Arg) → alpha_eq_arg a (erase_spans_arg a) ≡ true
  alpha_eq_erase_arg (arg a1 a2 _) =
      and_true ((option_text_eq_iff a1 a1).1 refl) (alpha_eq_erase a2)

  alpha_eq_erase_args : (a : Args) → alpha_eq_args a (erase_spans_args a) ≡ true
  alpha_eq_erase_args no_args = refl
  alpha_eq_erase_args (args a1 a2) = and_true (alpha_eq_erase_arg a1) (alpha_eq_erase_args a2)

  alpha_eq_erase_field_inits :
      (a : FieldInits) → alpha_eq_field_inits a (erase_spans_field_inits a) ≡ true
  alpha_eq_erase_field_inits no_inits = refl
  alpha_eq_erase_field_inits (inits a1 a2 a3) =
      and_true (and_true ((text_eq_iff a1 a1).1 refl) (alpha_eq_erase a2))
        (alpha_eq_erase_field_inits a3)

  alpha_eq_erase_block : (a : Block) → alpha_eq_block a (erase_spans_block a) ≡ true
  alpha_eq_erase_block (block a1 a2 _) =
      and_true (alpha_eq_erase_stmts a1) (alpha_eq_erase_opt_expr a2)

  alpha_eq_erase_opt_block : (a : OptBlock) → alpha_eq_opt_block a (erase_spans_opt_block a) ≡ true
  alpha_eq_erase_opt_block no_block = refl
  alpha_eq_erase_opt_block (some_block a1) = alpha_eq_erase_block a1

  alpha_eq_erase_stmt : (a : Stmt) → alpha_eq_stmt a (erase_spans_stmt a) ≡ true
  alpha_eq_erase_stmt (expr_stmt a1) = alpha_eq_erase a1
  alpha_eq_erase_stmt (let_stmt a1 a2 a3 _) =
      and_true (and_true (alpha_eq_erase_pattern a1) (alpha_eq_erase_opt_type a2))
        (alpha_eq_erase_opt_expr a3)
  alpha_eq_erase_stmt (assign a1 a2 _) = and_true (alpha_eq_erase a1) (alpha_eq_erase a2)

  alpha_eq_erase_stmts : (a : Stmts) → alpha_eq_stmts a (erase_spans_stmts a) ≡ true
  alpha_eq_erase_stmts no_stmts = refl
  alpha_eq_erase_stmts (stmts a1 a2) = and_true (alpha_eq_erase_stmt a1) (alpha_eq_erase_stmts a2)

  alpha_eq_erase_generic_arg :
      (a : GenericArg) → alpha_eq_generic_arg a (erase_spans_generic_arg a) ≡ true
  alpha_eq_erase_generic_arg (type_arg a1) = alpha_eq_erase_ast_type a1
  alpha_eq_erase_generic_arg (expr_arg a1) = alpha_eq_erase a1

  alpha_eq_erase_generic_args :
      (a : GenericArgs) → alpha_eq_generic_args a (erase_spans_generic_args a) ≡ true
  alpha_eq_erase_generic_args no_generics = refl
  alpha_eq_erase_generic_args (generics a1 a2) =
      and_true (alpha_eq_erase_generic_arg a1) (alpha_eq_erase_generic_args a2)

  alpha_eq_erase_ast_type : (a : AstType) → alpha_eq_ast_type a (erase_spans_ast_type a) ≡ true
  alpha_eq_erase_ast_type (prim a1) = (text_eq_iff a1 a1).1 refl
  alpha_eq_erase_ast_type (path_type a1 a2) =
      and_true ((texts_eq_iff a1 a1).1 refl) (alpha_eq_erase_generic_args a2)
  alpha_eq_erase_ast_type (optional a1) = alpha_eq_erase_ast_type a1
  alpha_eq_erase_ast_type (cascade_type a1) = alpha_eq_erase_ast_type a1
  alpha_eq_erase_ast_type (pointer a1 a2) =
      and_true (alpha_eq_erase_ast_type a1) ((bool_eq_iff a2 a2).1 refl)
  alpha_eq_erase_ast_type (witness a1) = alpha_eq_erase_generic_arg a1
  alpha_eq_erase_ast_type self_type = refl
  alpha_eq_erase_ast_type error = refl
  alpha_eq_erase_ast_type (function a1 a2 a3) =
      and_true (and_true (alpha_eq_erase_ast_types a1) (alpha_eq_erase_ast_type a2))
        ((texts_eq_iff a3 a3).1 refl)

  alpha_eq_erase_ast_types : (a : AstTypes) → alpha_eq_ast_types a (erase_spans_ast_types a) ≡ true
  alpha_eq_erase_ast_types no_types = refl
  alpha_eq_erase_ast_types (types a1 a2) =
      and_true (alpha_eq_erase_ast_type a1) (alpha_eq_erase_ast_types a2)

  alpha_eq_erase_opt_type : (a : OptType) → alpha_eq_opt_type a (erase_spans_opt_type a) ≡ true
  alpha_eq_erase_opt_type no_type = refl
  alpha_eq_erase_opt_type (some_type a1) = alpha_eq_erase_ast_type a1

  alpha_eq_erase_arm : (a : Arm) → alpha_eq_arm a (erase_spans_arm a) ≡ true
  alpha_eq_erase_arm (arm a1 a2 a3 _) =
      and_true (and_true (alpha_eq_erase_pattern a1) (alpha_eq_erase_opt_expr a2))
        (alpha_eq_erase a3)

  alpha_eq_erase_arms : (a : Arms) → alpha_eq_arms a (erase_spans_arms a) ≡ true
  alpha_eq_erase_arms no_arms = refl
  alpha_eq_erase_arms (arms a1 a2) = and_true (alpha_eq_erase_arm a1) (alpha_eq_erase_arms a2)

  alpha_eq_erase_pattern : (a : Pattern) → alpha_eq_pattern a (erase_spans_pattern a) ≡ true
  alpha_eq_erase_pattern (ident_pattern a1 a2 _) =
      and_true ((text_eq_iff a1 a1).1 refl) ((bool_eq_iff a2 a2).1 refl)
  alpha_eq_erase_pattern (variant a1 a2) =
      and_true ((text_eq_iff a1 a1).1 refl) (alpha_eq_erase_patterns a2)
  alpha_eq_erase_pattern (literal_pattern a1) = (literal_eq_iff a1 a1).1 refl
  alpha_eq_erase_pattern (struct_pattern a1 a2) =
      and_true (alpha_eq_erase_ast_type a1) (alpha_eq_erase_field_patterns a2)
  alpha_eq_erase_pattern (tuple a1) = alpha_eq_erase_patterns a1
  alpha_eq_erase_pattern (slice a1) = alpha_eq_erase_patterns a1
  alpha_eq_erase_pattern (rest a1) = (text_eq_iff a1 a1).1 refl
  alpha_eq_erase_pattern (or_pattern a1) = alpha_eq_erase_patterns a1
  alpha_eq_erase_pattern wildcard = refl

  alpha_eq_erase_patterns : (a : Patterns) → alpha_eq_patterns a (erase_spans_patterns a) ≡ true
  alpha_eq_erase_patterns no_patterns = refl
  alpha_eq_erase_patterns (patterns a1 a2) =
      and_true (alpha_eq_erase_pattern a1) (alpha_eq_erase_patterns a2)

  alpha_eq_erase_field_patterns :
      (a : FieldPatterns) → alpha_eq_field_patterns a (erase_spans_field_patterns a) ≡ true
  alpha_eq_erase_field_patterns no_fields = refl
  alpha_eq_erase_field_patterns (fields a1 a2 a3) =
      and_true (and_true ((text_eq_iff a1 a1).1 refl) (alpha_eq_erase_pattern a2))
        (alpha_eq_erase_field_patterns a3)
