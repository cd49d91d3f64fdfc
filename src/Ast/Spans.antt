-- ===== src/Ast/Spans.antt =====
-- Syntax trees without their spans: every span is the one that `Span::dummy` makes.
use izel.Span.{dummy}
use izel.Ast.{
  Expr, OptExpr, Arg, Args, FieldInits, Block, OptBlock, Stmt, Stmts, GenericArg, GenericArgs,
  AstType, AstTypes, OptType, Arm, Arms, Pattern, Patterns, FieldPatterns, literal, ident, binary,
  unary, call, member, path, block_expr, given, branch, loop, while_loop, each, raw, bind,
  struct_literal, return, next, break, zone, cascade, seek, tide, witness_new, no_expr, some_expr,
  arg, no_args, args, no_inits, inits, block, no_block, some_block, expr_stmt, let_stmt, assign,
  no_stmts, stmts, type_arg, expr_arg, no_generics, generics, prim, path_type, optional,
  cascade_type, pointer, witness, self_type, error, function, no_types, types, no_type, some_type,
  arm, no_arms, arms, ident_pattern, variant, literal_pattern, struct_pattern, tuple, slice, rest,
  or_pattern, wildcard, no_patterns, patterns, no_fields, fields,
}

unfoldable mutual
  pub erase_spans : Expr → Expr
  erase_spans (literal a1) = literal a1
  erase_spans (ident a1 _) = ident a1 dummy
  erase_spans (binary a1 a2 a3) = binary a1 (erase_spans a2) (erase_spans a3)
  erase_spans (unary a1 a2) = unary a1 (erase_spans a2)
  erase_spans (call a1 a2) = call (erase_spans a1) (erase_spans_args a2)
  erase_spans (member a1 a2 _) = member (erase_spans a1) a2 dummy
  erase_spans (path a1 a2) = path a1 (erase_spans_generic_args a2)
  erase_spans (block_expr a1) = block_expr (erase_spans_block a1)
  erase_spans (given a1 a2 a3) =
      given (erase_spans a1) (erase_spans_block a2) (erase_spans_opt_expr a3)
  erase_spans (branch a1 a2) = branch (erase_spans a1) (erase_spans_arms a2)
  erase_spans (loop a1) = loop (erase_spans_block a1)
  erase_spans (while_loop a1 a2) = while_loop (erase_spans a1) (erase_spans_block a2)
  erase_spans (each a1 a2 a3) = each a1 (erase_spans a2) (erase_spans_block a3)
  erase_spans (raw a1) = raw (erase_spans a1)
  erase_spans (bind a1 a2) = bind a1 (erase_spans a2)
  erase_spans (struct_literal a1 a2) =
      struct_literal (erase_spans_ast_type a1) (erase_spans_field_inits a2)
  erase_spans (return a1) = return (erase_spans a1)
  erase_spans next = next
  erase_spans break = break
  erase_spans (zone a1 a2) = zone a1 (erase_spans_block a2)
  erase_spans (cascade a1 a2) = cascade (erase_spans a1) (erase_spans_opt_expr a2)
  erase_spans (seek a1 a2 a3) = seek (erase_spans_block a1) a2 (erase_spans_opt_block a3)
  erase_spans (tide a1) = tide (erase_spans a1)
  erase_spans (witness_new a1) = witness_new (erase_spans_generic_arg a1)

  pub erase_spans_opt_expr : OptExpr → OptExpr
  erase_spans_opt_expr no_expr = no_expr
  erase_spans_opt_expr (some_expr a1) = some_expr (erase_spans a1)

  pub erase_spans_arg : Arg → Arg
  erase_spans_arg (arg a1 a2 _) = arg a1 (erase_spans a2) dummy

  pub erase_spans_args : Args → Args
  erase_spans_args no_args = no_args
  erase_spans_args (args a1 a2) = args (erase_spans_arg a1) (erase_spans_args a2)

  pub erase_spans_field_inits : FieldInits → FieldInits
  erase_spans_field_inits no_inits = no_inits
  erase_spans_field_inits (inits a1 a2 a3) = inits a1 (erase_spans a2) (erase_spans_field_inits a3)

  pub erase_spans_block : Block → Block
  erase_spans_block (block a1 a2 _) = block (erase_spans_stmts a1) (erase_spans_opt_expr a2) dummy

  pub erase_spans_opt_block : OptBlock → OptBlock
  erase_spans_opt_block no_block = no_block
  erase_spans_opt_block (some_block a1) = some_block (erase_spans_block a1)

  pub erase_spans_stmt : Stmt → Stmt
  erase_spans_stmt (expr_stmt a1) = expr_stmt (erase_spans a1)
  erase_spans_stmt (let_stmt a1 a2 a3 _) =
      let_stmt (erase_spans_pattern a1) (erase_spans_opt_type a2) (erase_spans_opt_expr a3) dummy
  erase_spans_stmt (assign a1 a2 _) = assign (erase_spans a1) (erase_spans a2) dummy

  pub erase_spans_stmts : Stmts → Stmts
  erase_spans_stmts no_stmts = no_stmts
  erase_spans_stmts (stmts a1 a2) = stmts (erase_spans_stmt a1) (erase_spans_stmts a2)

  pub erase_spans_generic_arg : GenericArg → GenericArg
  erase_spans_generic_arg (type_arg a1) = type_arg (erase_spans_ast_type a1)
  erase_spans_generic_arg (expr_arg a1) = expr_arg (erase_spans a1)

  pub erase_spans_generic_args : GenericArgs → GenericArgs
  erase_spans_generic_args no_generics = no_generics
  erase_spans_generic_args (generics a1 a2) =
      generics (erase_spans_generic_arg a1) (erase_spans_generic_args a2)

  pub erase_spans_ast_type : AstType → AstType
  erase_spans_ast_type (prim a1) = prim a1
  erase_spans_ast_type (path_type a1 a2) = path_type a1 (erase_spans_generic_args a2)
  erase_spans_ast_type (optional a1) = optional (erase_spans_ast_type a1)
  erase_spans_ast_type (cascade_type a1) = cascade_type (erase_spans_ast_type a1)
  erase_spans_ast_type (pointer a1 a2) = pointer (erase_spans_ast_type a1) a2
  erase_spans_ast_type (witness a1) = witness (erase_spans_generic_arg a1)
  erase_spans_ast_type self_type = self_type
  erase_spans_ast_type error = error
  erase_spans_ast_type (function a1 a2 a3) =
      function (erase_spans_ast_types a1) (erase_spans_ast_type a2) a3

  pub erase_spans_ast_types : AstTypes → AstTypes
  erase_spans_ast_types no_types = no_types
  erase_spans_ast_types (types a1 a2) = types (erase_spans_ast_type a1) (erase_spans_ast_types a2)

  pub erase_spans_opt_type : OptType → OptType
  erase_spans_opt_type no_type = no_type
  erase_spans_opt_type (some_type a1) = some_type (erase_spans_ast_type a1)

  pub erase_spans_arm : Arm → Arm
  erase_spans_arm (arm a1 a2 a3 _) =
      arm (erase_spans_pattern a1) (erase_spans_opt_expr a2) (erase_spans a3) dummy

  pub erase_spans_arms : Arms → Arms
  erase_spans_arms no_arms = no_arms
  erase_spans_arms (arms a1 a2) = arms (erase_spans_arm a1) (erase_spans_arms a2)

  pub erase_spans_pattern : Pattern → Pattern
  erase_spans_pattern (ident_pattern a1 a2 _) = ident_pattern a1 a2 dummy
  erase_spans_pattern (variant a1 a2) = variant a1 (erase_spans_patterns a2)
  erase_spans_pattern (literal_pattern a1) = literal_pattern a1
  erase_spans_pattern (struct_pattern a1 a2) =
      struct_pattern (erase_spans_ast_type a1) (erase_spans_field_patterns a2)
  erase_spans_pattern (tuple a1) = tuple (erase_spans_patterns a1)
  erase_spans_pattern (slice a1) = slice (erase_spans_patterns a1)
  erase_spans_pattern (rest a1) = rest a1
  erase_spans_pattern (or_pattern a1) = or_pattern (erase_spans_patterns a1)
  erase_spans_pattern wildcard = wildcard

  pub erase_spans_patterns : Patterns → Patterns
  erase_spans_patterns no_patterns = no_patterns
  erase_spans_patterns (patterns a1 a2) =
      patterns (erase_spans_pattern a1) (erase_spans_patterns a2)

  pub erase_spans_field_patterns : FieldPatterns → FieldPatterns
  erase_spans_field_patterns no_fields = no_fields
  erase_spans_field_patterns (fields a1 a2 a3) =
      fields a1 (erase_spans_pattern a2) (erase_spans_field_patterns a3)
