-- ===== src/Ast/Right.antt =====
-- crates/izel_parser/src/ast.rs: `alpha_eq` does not see the spans of its second argument.
use izel.Prelude.{Bool, ◌&&◌, ◌≡◌, refl}
use izel.Ast.AlphaEq.{
  alpha_eq, alpha_eq_opt_expr, alpha_eq_arg, alpha_eq_args, alpha_eq_field_inits, alpha_eq_block,
  alpha_eq_opt_block, alpha_eq_stmt, alpha_eq_stmts, alpha_eq_generic_arg, alpha_eq_generic_args,
  alpha_eq_ast_type, alpha_eq_ast_types, alpha_eq_opt_type, alpha_eq_arm, alpha_eq_arms,
  alpha_eq_pattern, alpha_eq_patterns, alpha_eq_field_patterns,
}
use izel.Ast.Spans.{
  erase_spans, erase_spans_opt_expr, erase_spans_arg, erase_spans_args, erase_spans_field_inits,
  erase_spans_block, erase_spans_opt_block, erase_spans_stmt, erase_spans_stmts,
  erase_spans_generic_arg, erase_spans_generic_args, erase_spans_ast_type, erase_spans_ast_types,
  erase_spans_opt_type, erase_spans_arm, erase_spans_arms, erase_spans_pattern,
  erase_spans_patterns, erase_spans_field_patterns,
}
use izel.Ast.{
  Expr, OptExpr, Arg, Args, FieldInits, Block, OptBlock, Stmt, Stmts, GenericArg, GenericArgs,
  AstType, AstTypes, OptType, Arm, Arms, Pattern, Patterns, FieldPatterns, literal, ident, binary,
  unary, call, member, path, block_expr, given, branch, loop, while_loop, each, raw, bind,
  struct_literal, return, next, break, zone, cascade, seek, tide, witness_new, no_expr, some_expr,
  arg, no_args, args, no_inits, inits, block, no_block, some_block, expr_stmt, let_stmt, assign,
  no_stmts, stmts, type_arg, expr_arg, no_generics, generics, prim, path_type, optional,
  cascade_type, pointer, witness, self_type, error, function, no_types, types, no_type, some_type,
  arm, no_arms, arms, ident_pattern, variant, literal_pattern, struct_pattern, tuple, slice, rest,
  or_pattern, wildcard, no_patterns, patterns, no_fields, fields,
}

and_cong : {p q r s : Bool} → p ≡ q → r ≡ s → (p && r) ≡ (q && s)
and_cong e h = λ i. e i && h i

mutual
  unfolding alpha_eq erase_spans

  pub alpha_eq_right : (a b : Expr) → alpha_eq a (erase_spans b) ≡ alpha_eq a b
  alpha_eq_right (literal a1) (literal b1) = refl
  alpha_eq_right (ident a1 _) (ident b1 _) = refl
  alpha_eq_right (binary a1 a2 a3) (binary b1 b2 b3) =
      and_cong (and_cong refl (alpha_eq_right a2 b2)) (alpha_eq_right a3 b3)
  alpha_eq_right (unary a1 a2) (unary b1 b2) = and_cong refl (alpha_eq_right a2 b2)
  alpha_eq_right (call a1 a2) (call b1 b2) =
      and_cong (alpha_eq_right a1 b1) (alpha_eq_right_args a2 b2)
  alpha_eq_right (member a1 a2 _) (member b1 b2 _) = and_cong (alpha_eq_right a1 b1) refl
  alpha_eq_right (path a1 a2) (path b1 b2) = and_cong refl (alpha_eq_right_generic_args a2 b2)
  alpha_eq_right (block_expr a1) (block_expr b1) = alpha_eq_right_block a1 b1
  alpha_eq_right (given a1 a2 a3) (given b1 b2 b3) =
      and_cong (and_cong (alpha_eq_right a1 b1) (alpha_eq_right_block a2 b2))
        (alpha_eq_right_opt_expr a3 b3)
  alpha_eq_right (branch a1 a2) (branch b1 b2) =
      and_cong (alpha_eq_right a1 b1) (alpha_eq_right_arms a2 b2)
  alpha_eq_right (loop a1) (loop b1) = alpha_eq_right_block a1 b1
  alpha_eq_right (while_loop a1 a2) (while_loop b1 b2) =
      and_cong (alpha_eq_right a1 b1) (alpha_eq_right_block a2 b2)
  alpha_eq_right (each a1 a2 a3) (each b1 b2 b3) =
      and_cong (and_cong refl (alpha_eq_right a2 b2)) (alpha_eq_right_block a3 b3)
  alpha_eq_right (raw a1) (raw b1) = alpha_eq_right a1 b1
  alpha_eq_right (bind a1 a2) (bind b1 b2) = and_cong refl (alpha_eq_right a2 b2)
  alpha_eq_right (struct_literal a1 a2) (struct_literal b1 b2) =
      and_cong (alpha_eq_right_ast_type a1 b1) (alpha_eq_right_field_inits a2 b2)
  alpha_eq_right (return a1) (return b1) = alpha_eq_right a1 b1
  alpha_eq_right next next = refl
  alpha_eq_right break break = refl
  alpha_eq_right (zone a1 a2) (zone b1 b2) = and_cong refl (alpha_eq_right_block a2 b2)
  alpha_eq_right (cascade a1 a2) (cascade b1 b2) =
      and_cong (alpha_eq_right a1 b1) (alpha_eq_right_opt_expr a2 b2)
  alpha_eq_right (seek a1 a2 a3) (seek b1 b2 b3) =
      and_cong (and_cong (alpha_eq_right_block a1 b1) refl) (alpha_eq_right_opt_block a3 b3)
  alpha_eq_right (tide a1) (tide b1) = alpha_eq_right a1 b1
  alpha_eq_right (witness_new a1) (witness_new b1) = alpha_eq_right_generic_arg a1 b1
  alpha_eq_right _ _ = refl

  pub alpha_eq_right_opt_expr :
      (a b : OptExpr) → alpha_eq_opt_expr a (erase_spans_opt_expr b) ≡ alpha_eq_opt_expr a b
  alpha_eq_right_opt_expr no_expr no_expr = refl
  alpha_eq_right_opt_expr (some_expr a1) (some_expr b1) = alpha_eq_right a1 b1
  alpha_eq_right_opt_expr _ _ = refl

  pub alpha_eq_right_arg : (a b : Arg) → alpha_eq_arg a (erase_spans_arg b) ≡ alpha_eq_arg a b
  alpha_eq_right_arg (arg a1 a2 _) (arg b1 b2 _) = and_cong refl (alpha_eq_right a2 b2)

  pub alpha_eq_right_args : (a b : Args) → alpha_eq_args a (erase_spans_args b) ≡ alpha_eq_args a b
  alpha_eq_right_args no_args no_args = refl
  alpha_eq_right_args (args a1 a2) (args b1 b2) =
      and_cong (alpha_eq_right_arg a1 b1) (alpha_eq_right_args a2 b2)
  alpha_eq_right_args _ _ = refl

  pub alpha_eq_right_field_inits :
      (a b : FieldInits)
      → alpha_eq_field_inits a (erase_spans_field_inits b) ≡ alpha_eq_field_inits a b
  alpha_eq_right_field_inits no_inits no_inits = refl
  alpha_eq_right_field_inits (inits a1 a2 a3) (inits b1 b2 b3) =
      and_cong (and_cong refl (alpha_eq_right a2 b2)) (alpha_eq_right_field_inits a3 b3)
  alpha_eq_right_field_inits _ _ = refl

  pub alpha_eq_right_block :
      (a b : Block) → alpha_eq_block a (erase_spans_block b) ≡ alpha_eq_block a b
  alpha_eq_right_block (block a1 a2 _) (block b1 b2 _) =
      and_cong (alpha_eq_right_stmts a1 b1) (alpha_eq_right_opt_expr a2 b2)

  pub alpha_eq_right_opt_block :
      (a b : OptBlock) → alpha_eq_opt_block a (erase_spans_opt_block b) ≡ alpha_eq_opt_block a b
  alpha_eq_right_opt_block no_block no_block = refl
  alpha_eq_right_opt_block (some_block a1) (some_block b1) = alpha_eq_right_block a1 b1
  alpha_eq_right_opt_block _ _ = refl

  pub alpha_eq_right_stmt : (a b : Stmt) → alpha_eq_stmt a (erase_spans_stmt b) ≡ alpha_eq_stmt a b
  alpha_eq_right_stmt (expr_stmt a1) (expr_stmt b1) = alpha_eq_right a1 b1
  alpha_eq_right_stmt (let_stmt a1 a2 a3 _) (let_stmt b1 b2 b3 _) =
      and_cong (and_cong (alpha_eq_right_pattern a1 b1) (alpha_eq_right_opt_type a2 b2))
        (alpha_eq_right_opt_expr a3 b3)
  alpha_eq_right_stmt (assign a1 a2 _) (assign b1 b2 _) =
      and_cong (alpha_eq_right a1 b1) (alpha_eq_right a2 b2)
  alpha_eq_right_stmt _ _ = refl

  pub alpha_eq_right_stmts :
      (a b : Stmts) → alpha_eq_stmts a (erase_spans_stmts b) ≡ alpha_eq_stmts a b
  alpha_eq_right_stmts no_stmts no_stmts = refl
  alpha_eq_right_stmts (stmts a1 a2) (stmts b1 b2) =
      and_cong (alpha_eq_right_stmt a1 b1) (alpha_eq_right_stmts a2 b2)
  alpha_eq_right_stmts _ _ = refl

  pub alpha_eq_right_generic_arg :
      (a b : GenericArg)
      → alpha_eq_generic_arg a (erase_spans_generic_arg b) ≡ alpha_eq_generic_arg a b
  alpha_eq_right_generic_arg (type_arg a1) (type_arg b1) = alpha_eq_right_ast_type a1 b1
  alpha_eq_right_generic_arg (expr_arg a1) (expr_arg b1) = alpha_eq_right a1 b1
  alpha_eq_right_generic_arg _ _ = refl

  pub alpha_eq_right_generic_args :
      (a b : GenericArgs)
      → alpha_eq_generic_args a (erase_spans_generic_args b) ≡ alpha_eq_generic_args a b
  alpha_eq_right_generic_args no_generics no_generics = refl
  alpha_eq_right_generic_args (generics a1 a2) (generics b1 b2) =
      and_cong (alpha_eq_right_generic_arg a1 b1) (alpha_eq_right_generic_args a2 b2)
  alpha_eq_right_generic_args _ _ = refl

  pub alpha_eq_right_ast_type :
      (a b : AstType) → alpha_eq_ast_type a (erase_spans_ast_type b) ≡ alpha_eq_ast_type a b
  alpha_eq_right_ast_type (prim a1) (prim b1) = refl
  alpha_eq_right_ast_type (path_type a1 a2) (path_type b1 b2) =
      and_cong refl (alpha_eq_right_generic_args a2 b2)
  alpha_eq_right_ast_type (optional a1) (optional b1) = alpha_eq_right_ast_type a1 b1
  alpha_eq_right_ast_type (cascade_type a1) (cascade_type b1) = alpha_eq_right_ast_type a1 b1
  alpha_eq_right_ast_type (pointer a1 a2) (pointer b1 b2) =
      and_cong (alpha_eq_right_ast_type a1 b1) refl
  alpha_eq_right_ast_type (witness a1) (witness b1) = alpha_eq_right_generic_arg a1 b1
  alpha_eq_right_ast_type self_type self_type = refl
  alpha_eq_right_ast_type error error = refl
  alpha_eq_right_ast_type (function a1 a2 a3) (function b1 b2 b3) =
      and_cong (and_cong (alpha_eq_right_ast_types a1 b1) (alpha_eq_right_ast_type a2 b2)) refl
  alpha_eq_right_ast_type _ _ = refl

  pub alpha_eq_right_ast_types :
      (a b : AstTypes) → alpha_eq_ast_types a (erase_spans_ast_types b) ≡ alpha_eq_ast_types a b
  alpha_eq_right_ast_types no_types no_types = refl
  alpha_eq_right_ast_types (types a1 a2) (types b1 b2) =
      and_cong (alpha_eq_right_ast_type a1 b1) (alpha_eq_right_ast_types a2 b2)
  alpha_eq_right_ast_types _ _ = refl

  pub alpha_eq_right_opt_type :
      (a b : OptType) → alpha_eq_opt_type a (erase_spans_opt_type b) ≡ alpha_eq_opt_type a b
  alpha_eq_right_opt_type no_type no_type = refl
  alpha_eq_right_opt_type (some_type a1) (some_type b1) = alpha_eq_right_ast_type a1 b1
  alpha_eq_right_opt_type _ _ = refl

  pub alpha_eq_right_arm : (a b : Arm) → alpha_eq_arm a (erase_spans_arm b) ≡ alpha_eq_arm a b
  alpha_eq_right_arm (arm a1 a2 a3 _) (arm b1 b2 b3 _) =
      and_cong (and_cong (alpha_eq_right_pattern a1 b1) (alpha_eq_right_opt_expr a2 b2))
        (alpha_eq_right a3 b3)

  pub alpha_eq_right_arms : (a b : Arms) → alpha_eq_arms a (erase_spans_arms b) ≡ alpha_eq_arms a b
  alpha_eq_right_arms no_arms no_arms = refl
  alpha_eq_right_arms (arms a1 a2) (arms b1 b2) =
      and_cong (alpha_eq_right_arm a1 b1) (alpha_eq_right_arms a2 b2)
  alpha_eq_right_arms _ _ = refl

  pub alpha_eq_right_pattern :
      (a b : Pattern) → alpha_eq_pattern a (erase_spans_pattern b) ≡ alpha_eq_pattern a b
  alpha_eq_right_pattern (ident_pattern a1 a2 _) (ident_pattern b1 b2 _) = refl
  alpha_eq_right_pattern (variant a1 a2) (variant b1 b2) =
      and_cong refl (alpha_eq_right_patterns a2 b2)
  alpha_eq_right_pattern (literal_pattern a1) (literal_pattern b1) = refl
  alpha_eq_right_pattern (struct_pattern a1 a2) (struct_pattern b1 b2) =
      and_cong (alpha_eq_right_ast_type a1 b1) (alpha_eq_right_field_patterns a2 b2)
  alpha_eq_right_pattern (tuple a1) (tuple b1) = alpha_eq_right_patterns a1 b1
  alpha_eq_right_pattern (slice a1) (slice b1) = alpha_eq_right_patterns a1 b1
  alpha_eq_right_pattern (rest a1) (rest b1) = refl
  alpha_eq_right_pattern (or_pattern a1) (or_pattern b1) = alpha_eq_right_patterns a1 b1
  alpha_eq_right_pattern wildcard wildcard = refl
  alpha_eq_right_pattern _ _ = refl

  pub alpha_eq_right_patterns :
      (a b : Patterns) → alpha_eq_patterns a (erase_spans_patterns b) ≡ alpha_eq_patterns a b
  alpha_eq_right_patterns no_patterns no_patterns = refl
  alpha_eq_right_patterns (patterns a1 a2) (patterns b1 b2) =
      and_cong (alpha_eq_right_pattern a1 b1) (alpha_eq_right_patterns a2 b2)
  alpha_eq_right_patterns _ _ = refl

  pub alpha_eq_right_field_patterns :
      (a b : FieldPatterns)
      → alpha_eq_field_patterns a (erase_spans_field_patterns b) ≡ alpha_eq_field_patterns a b
  alpha_eq_right_field_patterns no_fields no_fields = refl
  alpha_eq_right_field_patterns (fields a1 a2 a3) (fields b1 b2 b3) =
      and_cong (and_cong refl (alpha_eq_right_pattern a2 b2)) (alpha_eq_right_field_patterns a3 b3)
  alpha_eq_right_field_patterns _ _ = refl
