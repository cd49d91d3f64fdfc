-- ===== src/Ast/AlphaEq.antt =====
-- crates/izel_parser/src/ast.rs: the trait `AlphaEq`, equality of syntax trees that does not look at
-- spans. A length test and the `all` over the zipped lists is one walk over both lists here.
use izel.Prelude.{Bool, true, false, ◌&&◌, text_eq, texts_eq}
use izel.Ast.Equality.{bool_eq, binary_op_eq, unary_op_eq, literal_eq, option_text_eq}
use izel.Ast.{
  Expr, OptExpr, Arg, Args, FieldInits, Block, OptBlock, Stmt, Stmts, GenericArg, GenericArgs,
  AstType, AstTypes, OptType, Arm, Arms, Pattern, Patterns, FieldPatterns, literal, ident, binary,
  unary, call, member, path, block_expr, given, branch, loop, while_loop, each, raw, bind,
  struct_literal, return, next, break, zone, cascade, seek, tide, witness_new, no_expr, some_expr,
  arg, no_args, args, no_inits, inits, block, no_block, some_block, expr_stmt, let_stmt, assign,
  no_stmts, stmts, type_arg, expr_arg, no_generics, generics, prim, path_type, optional,
  cascade_type, pointer, witness, self_type, error, function, no_types, types, no_type, some_type,
  arm, no_arms, arms, ident_pattern, variant, literal_pattern, struct_pattern, tuple, slice, rest,
  or_pattern, wildcard, no_patterns, patterns, no_fields, fields,
}

unfoldable mutual
  pub alpha_eq : Expr → Expr → Bool
  alpha_eq (literal a1) (literal b1) = literal_eq a1 b1
  alpha_eq (ident a1 _) (ident b1 _) = text_eq a1 b1
  alpha_eq (binary a1 a2 a3) (binary b1 b2 b3) =
      binary_op_eq a1 b1 && alpha_eq a2 b2 && alpha_eq a3 b3
  alpha_eq (unary a1 a2) (unary b1 b2) = unary_op_eq a1 b1 && alpha_eq a2 b2
  alpha_eq (call a1 a2) (call b1 b2) = alpha_eq a1 b1 && alpha_eq_args a2 b2
  alpha_eq (member a1 a2 _) (member b1 b2 _) = alpha_eq a1 b1 && text_eq a2 b2
  alpha_eq (path a1 a2) (path b1 b2) = texts_eq a1 b1 && alpha_eq_generic_args a2 b2
  alpha_eq (block_expr a1) (block_expr b1) = alpha_eq_block a1 b1
  alpha_eq (given a1 a2 a3) (given b1 b2 b3) =
      alpha_eq a1 b1 && alpha_eq_block a2 b2 && alpha_eq_opt_expr a3 b3
  alpha_eq (branch a1 a2) (branch b1 b2) = alpha_eq a1 b1 && alpha_eq_arms a2 b2
  alpha_eq (loop a1) (loop b1) = alpha_eq_block a1 b1
  alpha_eq (while_loop a1 a2) (while_loop b1 b2) = alpha_eq a1 b1 && alpha_eq_block a2 b2
  alpha_eq (each a1 a2 a3) (each b1 b2 b3) = text_eq a1 b1 && alpha_eq a2 b2 && alpha_eq_block a3 b3
  alpha_eq (raw a1) (raw b1) = alpha_eq a1 b1
  alpha_eq (bind a1 a2) (bind b1 b2) = texts_eq a1 b1 && alpha_eq a2 b2
  alpha_eq (struct_literal a1 a2) (struct_literal b1 b2) =
      alpha_eq_ast_type a1 b1 && alpha_eq_field_inits a2 b2
  alpha_eq (return a1) (return b1) = alpha_eq a1 b1
  alpha_eq next next = true
  alpha_eq break break = true
  alpha_eq (zone a1 a2) (zone b1 b2) = text_eq a1 b1 && alpha_eq_block a2 b2
  alpha_eq (cascade a1 a2) (cascade b1 b2) = alpha_eq a1 b1 && alpha_eq_opt_expr a2 b2
  alpha_eq (seek a1 a2 a3) (seek b1 b2 b3) =
      alpha_eq_block a1 b1 && option_text_eq a2 b2 && alpha_eq_opt_block a3 b3
  alpha_eq (tide a1) (tide b1) = alpha_eq a1 b1
  alpha_eq (witness_new a1) (witness_new b1) = alpha_eq_generic_arg a1 b1
  alpha_eq _ _ = false

  pub alpha_eq_opt_expr : OptExpr → OptExpr → Bool
  alpha_eq_opt_expr no_expr no_expr = true
  alpha_eq_opt_expr (some_expr a1) (some_expr b1) = alpha_eq a1 b1
  alpha_eq_opt_expr _ _ = false

  pub alpha_eq_arg : Arg → Arg → Bool
  alpha_eq_arg (arg a1 a2 _) (arg b1 b2 _) = option_text_eq a1 b1 && alpha_eq a2 b2

  pub alpha_eq_args : Args → Args → Bool
  alpha_eq_args no_args no_args = true
  alpha_eq_args (args a1 a2) (args b1 b2) = alpha_eq_arg a1 b1 && alpha_eq_args a2 b2
  alpha_eq_args _ _ = false

  pub alpha_eq_field_inits : FieldInits → FieldInits → Bool
  alpha_eq_field_inits no_inits no_inits = true
  alpha_eq_field_inits (inits a1 a2 a3) (inits b1 b2 b3) =
      text_eq a1 b1 && alpha_eq a2 b2 && alpha_eq_field_inits a3 b3
  alpha_eq_field_inits _ _ = false

  pub alpha_eq_block : Block → Block → Bool
  alpha_eq_block (block a1 a2 _) (block b1 b2 _) = alpha_eq_stmts a1 b1 && alpha_eq_opt_expr a2 b2

  pub alpha_eq_opt_block : OptBlock → OptBlock → Bool
  alpha_eq_opt_block no_block no_block = true
  alpha_eq_opt_block (some_block a1) (some_block b1) = alpha_eq_block a1 b1
  alpha_eq_opt_block _ _ = false

  pub alpha_eq_stmt : Stmt → Stmt → Bool
  alpha_eq_stmt (expr_stmt a1) (expr_stmt b1) = alpha_eq a1 b1
  alpha_eq_stmt (let_stmt a1 a2 a3 _) (let_stmt b1 b2 b3 _) =
      alpha_eq_pattern a1 b1 && alpha_eq_opt_type a2 b2 && alpha_eq_opt_expr a3 b3
  alpha_eq_stmt (assign a1 a2 _) (assign b1 b2 _) = alpha_eq a1 b1 && alpha_eq a2 b2
  alpha_eq_stmt _ _ = false

  pub alpha_eq_stmts : Stmts → Stmts → Bool
  alpha_eq_stmts no_stmts no_stmts = true
  alpha_eq_stmts (stmts a1 a2) (stmts b1 b2) = alpha_eq_stmt a1 b1 && alpha_eq_stmts a2 b2
  alpha_eq_stmts _ _ = false

  pub alpha_eq_generic_arg : GenericArg → GenericArg → Bool
  alpha_eq_generic_arg (type_arg a1) (type_arg b1) = alpha_eq_ast_type a1 b1
  alpha_eq_generic_arg (expr_arg a1) (expr_arg b1) = alpha_eq a1 b1
  alpha_eq_generic_arg _ _ = false

  pub alpha_eq_generic_args : GenericArgs → GenericArgs → Bool
  alpha_eq_generic_args no_generics no_generics = true
  alpha_eq_generic_args (generics a1 a2) (generics b1 b2) =
      alpha_eq_generic_arg a1 b1 && alpha_eq_generic_args a2 b2
  alpha_eq_generic_args _ _ = false

  pub alpha_eq_ast_type : AstType → AstType → Bool
  alpha_eq_ast_type (prim a1) (prim b1) = text_eq a1 b1
  alpha_eq_ast_type (path_type a1 a2) (path_type b1 b2) =
      texts_eq a1 b1 && alpha_eq_generic_args a2 b2
  alpha_eq_ast_type (optional a1) (optional b1) = alpha_eq_ast_type a1 b1
  alpha_eq_ast_type (cascade_type a1) (cascade_type b1) = alpha_eq_ast_type a1 b1
  alpha_eq_ast_type (pointer a1 a2) (pointer b1 b2) = alpha_eq_ast_type a1 b1 && bool_eq a2 b2
  alpha_eq_ast_type (witness a1) (witness b1) = alpha_eq_generic_arg a1 b1
  alpha_eq_ast_type self_type self_type = true
  alpha_eq_ast_type error error = true
  alpha_eq_ast_type (function a1 a2 a3) (function b1 b2 b3) =
      alpha_eq_ast_types a1 b1 && alpha_eq_ast_type a2 b2 && texts_eq a3 b3
  alpha_eq_ast_type _ _ = false

  pub alpha_eq_ast_types : AstTypes → AstTypes → Bool
  alpha_eq_ast_types no_types no_types = true
  alpha_eq_ast_types (types a1 a2) (types b1 b2) =
      alpha_eq_ast_type a1 b1 && alpha_eq_ast_types a2 b2
  alpha_eq_ast_types _ _ = false

  pub alpha_eq_opt_type : OptType → OptType → Bool
  alpha_eq_opt_type no_type no_type = true
  alpha_eq_opt_type (some_type a1) (some_type b1) = alpha_eq_ast_type a1 b1
  alpha_eq_opt_type _ _ = false

  pub alpha_eq_arm : Arm → Arm → Bool
  alpha_eq_arm (arm a1 a2 a3 _) (arm b1 b2 b3 _) =
      alpha_eq_pattern a1 b1 && alpha_eq_opt_expr a2 b2 && alpha_eq a3 b3

  pub alpha_eq_arms : Arms → Arms → Bool
  alpha_eq_arms no_arms no_arms = true
  alpha_eq_arms (arms a1 a2) (arms b1 b2) = alpha_eq_arm a1 b1 && alpha_eq_arms a2 b2
  alpha_eq_arms _ _ = false

  pub alpha_eq_pattern : Pattern → Pattern → Bool
  alpha_eq_pattern (ident_pattern a1 a2 _) (ident_pattern b1 b2 _) = text_eq a1 b1 && bool_eq a2 b2
  alpha_eq_pattern (variant a1 a2) (variant b1 b2) = text_eq a1 b1 && alpha_eq_patterns a2 b2
  alpha_eq_pattern (literal_pattern a1) (literal_pattern b1) = literal_eq a1 b1
  alpha_eq_pattern (struct_pattern a1 a2) (struct_pattern b1 b2) =
      alpha_eq_ast_type a1 b1 && alpha_eq_field_patterns a2 b2
  alpha_eq_pattern (tuple a1) (tuple b1) = alpha_eq_patterns a1 b1
  alpha_eq_pattern (slice a1) (slice b1) = alpha_eq_patterns a1 b1
  alpha_eq_pattern (rest a1) (rest b1) = text_eq a1 b1
  alpha_eq_pattern (or_pattern a1) (or_pattern b1) = alpha_eq_patterns a1 b1
  alpha_eq_pattern wildcard wildcard = true
  alpha_eq_pattern _ _ = false

  pub alpha_eq_patterns : Patterns → Patterns → Bool
  alpha_eq_patterns no_patterns no_patterns = true
  alpha_eq_patterns (patterns a1 a2) (patterns b1 b2) =
      alpha_eq_pattern a1 b1 && alpha_eq_patterns a2 b2
  alpha_eq_patterns _ _ = false

  pub alpha_eq_field_patterns : FieldPatterns → FieldPatterns → Bool
  alpha_eq_field_patterns no_fields no_fields = true
  alpha_eq_field_patterns (fields a1 a2 a3) (fields b1 b2 b3) =
      text_eq a1 b1 && alpha_eq_pattern a2 b2 && alpha_eq_field_patterns a3 b3
  alpha_eq_field_patterns _ _ = false
