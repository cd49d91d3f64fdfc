-- ===== src/Ast/Sound.antt =====
-- crates/izel_parser/src/ast.rs: trees that `alpha_eq` takes for equal differ in spans alone.
use mathlib.Core.Bool.{false≢true}
use izel.Prelude.{Bool, true, false, ◌&&◌, ◌≡◌, refl, text_eq_iff, texts_eq_iff}
use izel.Span.{dummy}
use izel.Prelude.{text_eq, texts_eq}
use izel.Ast.Equality.{
  bool_eq, binary_op_eq, unary_op_eq, option_text_eq, bool_eq_iff, binary_op_eq_iff,
  unary_op_eq_iff, literal_eq_iff, option_text_eq_iff,
}
use izel.Ast.AlphaEq.{
  alpha_eq, alpha_eq_opt_expr, alpha_eq_arg, alpha_eq_args, alpha_eq_field_inits, alpha_eq_block,
  alpha_eq_opt_block, alpha_eq_stmt, alpha_eq_stmts, alpha_eq_generic_arg, alpha_eq_generic_args,
  alpha_eq_ast_type, alpha_eq_ast_types, alpha_eq_opt_type, alpha_eq_arm, alpha_eq_arms,
  alpha_eq_pattern, alpha_eq_patterns, alpha_eq_field_patterns,
}
use izel.Ast.Spans.{
  erase_spans, erase_spans_opt_expr, erase_spans_arg, erase_spans_args, erase_spans_field_inits,
  erase_spans_block, erase_spans_opt_block, erase_spans_stmt, erase_spans_stmts,
  erase_spans_generic_arg, erase_spans_generic_args, erase_spans_ast_type, erase_spans_ast_types,
  erase_spans_opt_type, erase_spans_arm, erase_spans_arms, erase_spans_pattern,
  erase_spans_patterns, erase_spans_field_patterns,
}
use izel.Ast.{
  Expr, OptExpr, Arg, Args, FieldInits, Block, OptBlock, Stmt, Stmts, GenericArg, GenericArgs,
  AstType, AstTypes, OptType, Arm, Arms, Pattern, Patterns, FieldPatterns, literal, ident, binary,
  unary, call, member, path, block_expr, given, branch, loop, while_loop, each, raw, bind,
  struct_literal, return, next, break, zone, cascade, seek, tide, witness_new, no_expr, some_expr,
  arg, no_args, args, no_inits, inits, block, no_block, some_block, expr_stmt, let_stmt, assign,
  no_stmts, stmts, type_arg, expr_arg, no_generics, generics, prim, path_type, optional,
  cascade_type, pointer, witness, self_type, error, function, no_types, types, no_type, some_type,
  arm, no_arms, arms, ident_pattern, variant, literal_pattern, struct_pattern, tuple, slice, rest,
  or_pattern, wildcard, no_patterns, patterns, no_fields, fields,
}

and_left : (p q : Bool) → (p && q) ≡ true → p ≡ true
and_left true q h = refl
and_left false q h = h

and_right : (p q : Bool) → (p && q) ≡ true → q ≡ true
and_right true q h = h
and_right false q h = absurd (false≢true h)

mutual
  unfolding alpha_eq erase_spans

  pub alpha_eq_sound : (a b : Expr) → alpha_eq a b ≡ true → erase_spans a ≡ erase_spans b
  alpha_eq_sound (literal a1) (literal b1) h = λ i. literal (((literal_eq_iff a1 b1).0 h) i)
  alpha_eq_sound (ident a1 _) (ident b1 _) h = λ i. ident (((text_eq_iff a1 b1).0 h) i) dummy
  alpha_eq_sound (binary a1 a2 a3) (binary b1 b2 b3) h = λ i.
      binary
        (((binary_op_eq_iff a1 b1).0 (
            and_left (binary_op_eq a1 b1) (alpha_eq a2 b2)
              (and_left (binary_op_eq a1 b1 && alpha_eq a2 b2) (alpha_eq a3 b3) h)))
          i)
        ((alpha_eq_sound a2 b2 (
            and_right (binary_op_eq a1 b1) (alpha_eq a2 b2)
              (and_left (binary_op_eq a1 b1 && alpha_eq a2 b2) (alpha_eq a3 b3) h)))
          i)
        ((alpha_eq_sound a3 b3
            (and_right (binary_op_eq a1 b1 && alpha_eq a2 b2) (alpha_eq a3 b3) h))
          i)
  alpha_eq_sound (unary a1 a2) (unary b1 b2) h = λ i.
      unary (((unary_op_eq_iff a1 b1).0 (and_left (unary_op_eq a1 b1) (alpha_eq a2 b2) h)) i)
        ((alpha_eq_sound a2 b2 (and_right (unary_op_eq a1 b1) (alpha_eq a2 b2) h)) i)
  alpha_eq_sound (call a1 a2) (call b1 b2) h = λ i.
      call ((alpha_eq_sound a1 b1 (and_left (alpha_eq a1 b1) (alpha_eq_args a2 b2) h)) i)
        ((alpha_eq_sound_args a2 b2 (and_right (alpha_eq a1 b1) (alpha_eq_args a2 b2) h)) i)
  alpha_eq_sound (member a1 a2 _) (member b1 b2 _) h = λ i.
      member ((alpha_eq_sound a1 b1 (and_left (alpha_eq a1 b1) (text_eq a2 b2) h)) i)
        (((text_eq_iff a2 b2).0 (and_right (alpha_eq a1 b1) (text_eq a2 b2) h)) i) dummy
  alpha_eq_sound (path a1 a2) (path b1 b2) h = λ i.
      path (((texts_eq_iff a1 b1).0 (and_left (texts_eq a1 b1) (alpha_eq_generic_args a2 b2) h)) i)
        ((alpha_eq_sound_generic_args a2 b2
            (and_right (texts_eq a1 b1) (alpha_eq_generic_args a2 b2) h))
          i)
  alpha_eq_sound (block_expr a1) (block_expr b1) h =
      λ i. block_expr ((alpha_eq_sound_block a1 b1 h) i)
  alpha_eq_sound (given a1 a2 a3) (given b1 b2 b3) h = λ i.
      given
        ((alpha_eq_sound a1 b1 (
            and_left (alpha_eq a1 b1) (alpha_eq_block a2 b2)
              (and_left (alpha_eq a1 b1 && alpha_eq_block a2 b2) (alpha_eq_opt_expr a3 b3) h)))
          i)
        ((alpha_eq_sound_block a2 b2 (
            and_right (alpha_eq a1 b1) (alpha_eq_block a2 b2)
              (and_left (alpha_eq a1 b1 && alpha_eq_block a2 b2) (alpha_eq_opt_expr a3 b3) h)))
          i)
        ((alpha_eq_sound_opt_expr a3 b3
            (and_right (alpha_eq a1 b1 && alpha_eq_block a2 b2) (alpha_eq_opt_expr a3 b3) h))
          i)
  alpha_eq_sound (branch a1 a2) (branch b1 b2) h = λ i.
      branch ((alpha_eq_sound a1 b1 (and_left (alpha_eq a1 b1) (alpha_eq_arms a2 b2) h)) i)
        ((alpha_eq_sound_arms a2 b2 (and_right (alpha_eq a1 b1) (alpha_eq_arms a2 b2) h)) i)
  alpha_eq_sound (loop a1) (loop b1) h = λ i. loop ((alpha_eq_sound_block a1 b1 h) i)
  alpha_eq_sound (while_loop a1 a2) (while_loop b1 b2) h = λ i.
      while_loop ((alpha_eq_sound a1 b1 (and_left (alpha_eq a1 b1) (alpha_eq_block a2 b2) h)) i)
        ((alpha_eq_sound_block a2 b2 (and_right (alpha_eq a1 b1) (alpha_eq_block a2 b2) h)) i)
  alpha_eq_sound (each a1 a2 a3) (each b1 b2 b3) h = λ i.
      each
        (((text_eq_iff a1 b1).0 (
            and_left (text_eq a1 b1) (alpha_eq a2 b2)
              (and_left (text_eq a1 b1 && alpha_eq a2 b2) (alpha_eq_block a3 b3) h)))
          i)
        ((alpha_eq_sound a2 b2 (
            and_right (text_eq a1 b1) (alpha_eq a2 b2)
              (and_left (text_eq a1 b1 && alpha_eq a2 b2) (alpha_eq_block a3 b3) h)))
          i)
        ((alpha_eq_sound_block a3 b3
            (and_right (text_eq a1 b1 && alpha_eq a2 b2) (alpha_eq_block a3 b3) h))
          i)
  alpha_eq_sound (raw a1) (raw b1) h = λ i. raw ((alpha_eq_sound a1 b1 h) i)
  alpha_eq_sound (bind a1 a2) (bind b1 b2) h = λ i.
      bind (((texts_eq_iff a1 b1).0 (and_left (texts_eq a1 b1) (alpha_eq a2 b2) h)) i)
        ((alpha_eq_sound a2 b2 (and_right (texts_eq a1 b1) (alpha_eq a2 b2) h)) i)
  alpha_eq_sound (struct_literal a1 a2) (struct_literal b1 b2) h = λ i.
      struct_literal
        ((alpha_eq_sound_ast_type a1 b1
            (and_left (alpha_eq_ast_type a1 b1) (alpha_eq_field_inits a2 b2) h))
          i)
        ((alpha_eq_sound_field_inits a2 b2
            (and_right (alpha_eq_ast_type a1 b1) (alpha_eq_field_inits a2 b2) h))
          i)
  alpha_eq_sound (return a1) (return b1) h = λ i. return ((alpha_eq_sound a1 b1 h) i)
  alpha_eq_sound next next h = refl
  alpha_eq_sound break break h = refl
  alpha_eq_sound (zone a1 a2) (zone b1 b2) h = λ i.
      zone (((text_eq_iff a1 b1).0 (and_left (text_eq a1 b1) (alpha_eq_block a2 b2) h)) i)
        ((alpha_eq_sound_block a2 b2 (and_right (text_eq a1 b1) (alpha_eq_block a2 b2) h)) i)
  alpha_eq_sound (cascade a1 a2) (cascade b1 b2) h = λ i.
      cascade ((alpha_eq_sound a1 b1 (and_left (alpha_eq a1 b1) (alpha_eq_opt_expr a2 b2) h)) i)
        ((alpha_eq_sound_opt_expr a2 b2 (and_right (alpha_eq a1 b1) (alpha_eq_opt_expr a2 b2) h)) i)
  alpha_eq_sound (seek a1 a2 a3) (seek b1 b2 b3) h = λ i.
      seek
        ((alpha_eq_sound_block a1 b1 (
            and_left (alpha_eq_block a1 b1) (option_text_eq a2 b2) (
              and_left (alpha_eq_block a1 b1 && option_text_eq a2 b2) (alpha_eq_opt_block a3 b3)
                h)))
          i)
        (((option_text_eq_iff a2 b2).0 (
            and_right (alpha_eq_block a1 b1) (option_text_eq a2 b2) (
              and_left (alpha_eq_block a1 b1 && option_text_eq a2 b2) (alpha_eq_opt_block a3 b3)
                h)))
          i)
        ((alpha_eq_sound_opt_block a3 b3
            (and_right (alpha_eq_block a1 b1 && option_text_eq a2 b2) (alpha_eq_opt_block a3 b3) h))
          i)
  alpha_eq_sound (tide a1) (tide b1) h = λ i. tide ((alpha_eq_sound a1 b1 h) i)
  alpha_eq_sound (witness_new a1) (witness_new b1) h =
      λ i. witness_new ((alpha_eq_sound_generic_arg a1 b1 h) i)
  alpha_eq_sound _ _ h = absurd (false≢true h)

  pub alpha_eq_sound_opt_expr :
      (a b : OptExpr)
      → alpha_eq_opt_expr a b ≡ true
      → erase_spans_opt_expr a ≡ erase_spans_opt_expr b
  alpha_eq_sound_opt_expr no_expr no_expr h = refl
  alpha_eq_sound_opt_expr (some_expr a1) (some_expr b1) h =
      λ i. some_expr ((alpha_eq_sound a1 b1 h) i)
  alpha_eq_sound_opt_expr _ _ h = absurd (false≢true h)

  pub alpha_eq_sound_arg :
      (a b : Arg) → alpha_eq_arg a b ≡ true → erase_spans_arg a ≡ erase_spans_arg b
  alpha_eq_sound_arg (arg a1 a2 _) (arg b1 b2 _) h = λ i.
      arg (((option_text_eq_iff a1 b1).0 (and_left (option_text_eq a1 b1) (alpha_eq a2 b2) h)) i)
        ((alpha_eq_sound a2 b2 (and_right (option_text_eq a1 b1) (alpha_eq a2 b2) h)) i) dummy

  pub alpha_eq_sound_args :
      (a b : Args) → alpha_eq_args a b ≡ true → erase_spans_args a ≡ erase_spans_args b
  alpha_eq_sound_args no_args no_args h = refl
  alpha_eq_sound_args (args a1 a2) (args b1 b2) h = λ i.
      args ((alpha_eq_sound_arg a1 b1 (and_left (alpha_eq_arg a1 b1) (alpha_eq_args a2 b2) h)) i)
        ((alpha_eq_sound_args a2 b2 (and_right (alpha_eq_arg a1 b1) (alpha_eq_args a2 b2) h)) i)
  alpha_eq_sound_args _ _ h = absurd (false≢true h)

  pub alpha_eq_sound_field_inits :
      (a b : FieldInits)
      → alpha_eq_field_inits a b ≡ true
      → erase_spans_field_inits a ≡ erase_spans_field_inits b
  alpha_eq_sound_field_inits no_inits no_inits h = refl
  alpha_eq_sound_field_inits (inits a1 a2 a3) (inits b1 b2 b3) h = λ i.
      inits
        (((text_eq_iff a1 b1).0 (
            and_left (text_eq a1 b1) (alpha_eq a2 b2)
              (and_left (text_eq a1 b1 && alpha_eq a2 b2) (alpha_eq_field_inits a3 b3) h)))
          i)
        ((alpha_eq_sound a2 b2 (
            and_right (text_eq a1 b1) (alpha_eq a2 b2)
              (and_left (text_eq a1 b1 && alpha_eq a2 b2) (alpha_eq_field_inits a3 b3) h)))
          i)
        ((alpha_eq_sound_field_inits a3 b3
            (and_right (text_eq a1 b1 && alpha_eq a2 b2) (alpha_eq_field_inits a3 b3) h))
          i)
  alpha_eq_sound_field_inits _ _ h = absurd (false≢true h)

  pub alpha_eq_sound_block :
      (a b : Block) → alpha_eq_block a b ≡ true → erase_spans_block a ≡ erase_spans_block b
  alpha_eq_sound_block (block a1 a2 _) (block b1 b2 _) h = λ i.
      block
        ((alpha_eq_sound_stmts a1 b1 (and_left (alpha_eq_stmts a1 b1) (alpha_eq_opt_expr a2 b2) h))
          i)
        ((alpha_eq_sound_opt_expr a2 b2
            (and_right (alpha_eq_stmts a1 b1) (alpha_eq_opt_expr a2 b2) h))
          i)
        dummy

  pub alpha_eq_sound_opt_block :
      (a b : OptBlock)
      → alpha_eq_opt_block a b ≡ true
      → erase_spans_opt_block a ≡ erase_spans_opt_block b
  alpha_eq_sound_opt_block no_block no_block h = refl
  alpha_eq_sound_opt_block (some_block a1) (some_block b1) h =
      λ i. some_block ((alpha_eq_sound_block a1 b1 h) i)
  alpha_eq_sound_opt_block _ _ h = absurd (false≢true h)

  pub alpha_eq_sound_stmt :
      (a b : Stmt) → alpha_eq_stmt a b ≡ true → erase_spans_stmt a ≡ erase_spans_stmt b
  alpha_eq_sound_stmt (expr_stmt a1) (expr_stmt b1) h = λ i. expr_stmt ((alpha_eq_sound a1 b1 h) i)
  alpha_eq_sound_stmt (let_stmt a1 a2 a3 _) (let_stmt b1 b2 b3 _) h = λ i.
      let_stmt
        ((alpha_eq_sound_pattern a1 b1 (
            and_left (alpha_eq_pattern a1 b1) (alpha_eq_opt_type a2 b2) (
              and_left (alpha_eq_pattern a1 b1 && alpha_eq_opt_type a2 b2) (alpha_eq_opt_expr a3 b3)
                h)))
          i)
        ((alpha_eq_sound_opt_type a2 b2 (
            and_right (alpha_eq_pattern a1 b1) (alpha_eq_opt_type a2 b2) (
              and_left (alpha_eq_pattern a1 b1 && alpha_eq_opt_type a2 b2) (alpha_eq_opt_expr a3 b3)
                h)))
          i)
        ((alpha_eq_sound_opt_expr a3 b3 (
            and_right (alpha_eq_pattern a1 b1 && alpha_eq_opt_type a2 b2) (alpha_eq_opt_expr a3 b3)
              h))
          i)
        dummy
  alpha_eq_sound_stmt (assign a1 a2 _) (assign b1 b2 _) h = λ i.
      assign ((alpha_eq_sound a1 b1 (and_left (alpha_eq a1 b1) (alpha_eq a2 b2) h)) i)
        ((alpha_eq_sound a2 b2 (and_right (alpha_eq a1 b1) (alpha_eq a2 b2) h)) i) dummy
  alpha_eq_sound_stmt _ _ h = absurd (false≢true h)

  pub alpha_eq_sound_stmts :
      (a b : Stmts) → alpha_eq_stmts a b ≡ true → erase_spans_stmts a ≡ erase_spans_stmts b
  alpha_eq_sound_stmts no_stmts no_stmts h = refl
  alpha_eq_sound_stmts (stmts a1 a2) (stmts b1 b2) h = λ i.
      stmts
        ((alpha_eq_sound_stmt a1 b1 (and_left (alpha_eq_stmt a1 b1) (alpha_eq_stmts a2 b2) h)) i)
        ((alpha_eq_sound_stmts a2 b2 (and_right (alpha_eq_stmt a1 b1) (alpha_eq_stmts a2 b2) h)) i)
  alpha_eq_sound_stmts _ _ h = absurd (false≢true h)

  pub alpha_eq_sound_generic_arg :
      (a b : GenericArg)
      → alpha_eq_generic_arg a b ≡ true
      → erase_spans_generic_arg a ≡ erase_spans_generic_arg b
  alpha_eq_sound_generic_arg (type_arg a1) (type_arg b1) h =
      λ i. type_arg ((alpha_eq_sound_ast_type a1 b1 h) i)
  alpha_eq_sound_generic_arg (expr_arg a1) (expr_arg b1) h =
      λ i. expr_arg ((alpha_eq_sound a1 b1 h) i)
  alpha_eq_sound_generic_arg _ _ h = absurd (false≢true h)

  pub alpha_eq_sound_generic_args :
      (a b : GenericArgs)
      → alpha_eq_generic_args a b ≡ true
      → erase_spans_generic_args a ≡ erase_spans_generic_args b
  alpha_eq_sound_generic_args no_generics no_generics h = refl
  alpha_eq_sound_generic_args (generics a1 a2) (generics b1 b2) h = λ i.
      generics
        ((alpha_eq_sound_generic_arg a1 b1
            (and_left (alpha_eq_generic_arg a1 b1) (alpha_eq_generic_args a2 b2) h))
          i)
        ((alpha_eq_sound_generic_args a2 b2
            (and_right (alpha_eq_generic_arg a1 b1) (alpha_eq_generic_args a2 b2) h))
          i)
  alpha_eq_sound_generic_args _ _ h = absurd (false≢true h)

  pub alpha_eq_sound_ast_type :
      (a b : AstType)
      → alpha_eq_ast_type a b ≡ true
      → erase_spans_ast_type a ≡ erase_spans_ast_type b
  alpha_eq_sound_ast_type (prim a1) (prim b1) h = λ i. prim (((text_eq_iff a1 b1).0 h) i)
  alpha_eq_sound_ast_type (path_type a1 a2) (path_type b1 b2) h = λ i.
      path_type
        (((texts_eq_iff a1 b1).0 (and_left (texts_eq a1 b1) (alpha_eq_generic_args a2 b2) h)) i)
        ((alpha_eq_sound_generic_args a2 b2
            (and_right (texts_eq a1 b1) (alpha_eq_generic_args a2 b2) h))
          i)
  alpha_eq_sound_ast_type (optional a1) (optional b1) h =
      λ i. optional ((alpha_eq_sound_ast_type a1 b1 h) i)
  alpha_eq_sound_ast_type (cascade_type a1) (cascade_type b1) h =
      λ i. cascade_type ((alpha_eq_sound_ast_type a1 b1 h) i)
  alpha_eq_sound_ast_type (pointer a1 a2) (pointer b1 b2) h = λ i.
      pointer
        ((alpha_eq_sound_ast_type a1 b1 (and_left (alpha_eq_ast_type a1 b1) (bool_eq a2 b2) h)) i)
        (((bool_eq_iff a2 b2).0 (and_right (alpha_eq_ast_type a1 b1) (bool_eq a2 b2) h)) i)
  alpha_eq_sound_ast_type (witness a1) (witness b1) h =
      λ i. witness ((alpha_eq_sound_generic_arg a1 b1 h) i)
  alpha_eq_sound_ast_type self_type self_type h = refl
  alpha_eq_sound_ast_type error error h = refl
  alpha_eq_sound_ast_type (function a1 a2 a3) (function b1 b2 b3) h = λ i.
      function
        ((alpha_eq_sound_ast_types a1 b1 (
            and_left (alpha_eq_ast_types a1 b1) (alpha_eq_ast_type a2 b2)
              (and_left (alpha_eq_ast_types a1 b1 && alpha_eq_ast_type a2 b2) (texts_eq a3 b3) h)))
          i)
        ((alpha_eq_sound_ast_type a2 b2 (
            and_right (alpha_eq_ast_types a1 b1) (alpha_eq_ast_type a2 b2)
              (and_left (alpha_eq_ast_types a1 b1 && alpha_eq_ast_type a2 b2) (texts_eq a3 b3) h)))
          i)
        (((texts_eq_iff a3 b3).0
            (and_right (alpha_eq_ast_types a1 b1 && alpha_eq_ast_type a2 b2) (texts_eq a3 b3) h))
          i)
  alpha_eq_sound_ast_type _ _ h = absurd (false≢true h)

  pub alpha_eq_sound_ast_types :
      (a b : AstTypes)
      → alpha_eq_ast_types a b ≡ true
      → erase_spans_ast_types a ≡ erase_spans_ast_types b
  alpha_eq_sound_ast_types no_types no_types h = refl
  alpha_eq_sound_ast_types (types a1 a2) (types b1 b2) h = λ i.
      types
        ((alpha_eq_sound_ast_type a1 b1
            (and_left (alpha_eq_ast_type a1 b1) (alpha_eq_ast_types a2 b2) h))
          i)
        ((alpha_eq_sound_ast_types a2 b2
            (and_right (alpha_eq_ast_type a1 b1) (alpha_eq_ast_types a2 b2) h))
          i)
  alpha_eq_sound_ast_types _ _ h = absurd (false≢true h)

  pub alpha_eq_sound_opt_type :
      (a b : OptType)
      → alpha_eq_opt_type a b ≡ true
      → erase_spans_opt_type a ≡ erase_spans_opt_type b
  alpha_eq_sound_opt_type no_type no_type h = refl
  alpha_eq_sound_opt_type (some_type a1) (some_type b1) h =
      λ i. some_type ((alpha_eq_sound_ast_type a1 b1 h) i)
  alpha_eq_sound_opt_type _ _ h = absurd (false≢true h)

  pub alpha_eq_sound_arm :
      (a b : Arm) → alpha_eq_arm a b ≡ true → erase_spans_arm a ≡ erase_spans_arm b
  alpha_eq_sound_arm (arm a1 a2 a3 _) (arm b1 b2 b3 _) h = λ i.
      arm
        ((alpha_eq_sound_pattern a1 b1 (
            and_left (alpha_eq_pattern a1 b1) (alpha_eq_opt_expr a2 b2)
              (and_left (alpha_eq_pattern a1 b1 && alpha_eq_opt_expr a2 b2) (alpha_eq a3 b3) h)))
          i)
        ((alpha_eq_sound_opt_expr a2 b2 (
            and_right (alpha_eq_pattern a1 b1) (alpha_eq_opt_expr a2 b2)
              (and_left (alpha_eq_pattern a1 b1 && alpha_eq_opt_expr a2 b2) (alpha_eq a3 b3) h)))
          i)
        ((alpha_eq_sound a3 b3
            (and_right (alpha_eq_pattern a1 b1 && alpha_eq_opt_expr a2 b2) (alpha_eq a3 b3) h))
          i)
        dummy

  pub alpha_eq_sound_arms :
      (a b : Arms) → alpha_eq_arms a b ≡ true → erase_spans_arms a ≡ erase_spans_arms b
  alpha_eq_sound_arms no_arms no_arms h = refl
  alpha_eq_sound_arms (arms a1 a2) (arms b1 b2) h = λ i.
      arms ((alpha_eq_sound_arm a1 b1 (and_left (alpha_eq_arm a1 b1) (alpha_eq_arms a2 b2) h)) i)
        ((alpha_eq_sound_arms a2 b2 (and_right (alpha_eq_arm a1 b1) (alpha_eq_arms a2 b2) h)) i)
  alpha_eq_sound_arms _ _ h = absurd (false≢true h)

  pub alpha_eq_sound_pattern :
      (a b : Pattern) → alpha_eq_pattern a b ≡ true → erase_spans_pattern a ≡ erase_spans_pattern b
  alpha_eq_sound_pattern (ident_pattern a1 a2 _) (ident_pattern b1 b2 _) h = λ i.
      ident_pattern (((text_eq_iff a1 b1).0 (and_left (text_eq a1 b1) (bool_eq a2 b2) h)) i)
        (((bool_eq_iff a2 b2).0 (and_right (text_eq a1 b1) (bool_eq a2 b2) h)) i) dummy
  alpha_eq_sound_pattern (variant a1 a2) (variant b1 b2) h = λ i.
      variant (((text_eq_iff a1 b1).0 (and_left (text_eq a1 b1) (alpha_eq_patterns a2 b2) h)) i)
        ((alpha_eq_sound_patterns a2 b2 (and_right (text_eq a1 b1) (alpha_eq_patterns a2 b2) h)) i)
  alpha_eq_sound_pattern (literal_pattern a1) (literal_pattern b1) h =
      λ i. literal_pattern (((literal_eq_iff a1 b1).0 h) i)
  alpha_eq_sound_pattern (struct_pattern a1 a2) (struct_pattern b1 b2) h = λ i.
      struct_pattern
        ((alpha_eq_sound_ast_type a1 b1
            (and_left (alpha_eq_ast_type a1 b1) (alpha_eq_field_patterns a2 b2) h))
          i)
        ((alpha_eq_sound_field_patterns a2 b2
            (and_right (alpha_eq_ast_type a1 b1) (alpha_eq_field_patterns a2 b2) h))
          i)
  alpha_eq_sound_pattern (tuple a1) (tuple b1) h = λ i. tuple ((alpha_eq_sound_patterns a1 b1 h) i)
  alpha_eq_sound_pattern (slice a1) (slice b1) h = λ i. slice ((alpha_eq_sound_patterns a1 b1 h) i)
  alpha_eq_sound_pattern (rest a1) (rest b1) h = λ i. rest (((text_eq_iff a1 b1).0 h) i)
  alpha_eq_sound_pattern (or_pattern a1) (or_pattern b1) h =
      λ i. or_pattern ((alpha_eq_sound_patterns a1 b1 h) i)
  alpha_eq_sound_pattern wildcard wildcard h = refl
  alpha_eq_sound_pattern _ _ h = absurd (false≢true h)

  pub alpha_eq_sound_patterns :
      (a b : Patterns)
      → alpha_eq_patterns a b ≡ true
      → erase_spans_patterns a ≡ erase_spans_patterns b
  alpha_eq_sound_patterns no_patterns no_patterns h = refl
  alpha_eq_sound_patterns (patterns a1 a2) (patterns b1 b2) h = λ i.
      patterns
        ((alpha_eq_sound_pattern a1 b1
            (and_left (alpha_eq_pattern a1 b1) (alpha_eq_patterns a2 b2) h))
          i)
        ((alpha_eq_sound_patterns a2 b2
            (and_right (alpha_eq_pattern a1 b1) (alpha_eq_patterns a2 b2) h))
          i)
  alpha_eq_sound_patterns _ _ h = absurd (false≢true h)

  pub alpha_eq_sound_field_patterns :
      (a b : FieldPatterns)
      → alpha_eq_field_patterns a b ≡ true
      → erase_spans_field_patterns a ≡ erase_spans_field_patterns b
  alpha_eq_sound_field_patterns no_fields no_fields h = refl
  alpha_eq_sound_field_patterns (fields a1 a2 a3) (fields b1 b2 b3) h = λ i.
      fields
        (((text_eq_iff a1 b1).0 (
            and_left (text_eq a1 b1) (alpha_eq_pattern a2 b2) (
              and_left (text_eq a1 b1 && alpha_eq_pattern a2 b2) (alpha_eq_field_patterns a3 b3)
                h)))
          i)
        ((alpha_eq_sound_pattern a2 b2 (
            and_right (text_eq a1 b1) (alpha_eq_pattern a2 b2) (
              and_left (text_eq a1 b1 && alpha_eq_pattern a2 b2) (alpha_eq_field_patterns a3 b3)
                h)))
          i)
        ((alpha_eq_sound_field_patterns a3 b3
            (and_right (text_eq a1 b1 && alpha_eq_pattern a2 b2) (alpha_eq_field_patterns a3 b3) h))
          i)
  alpha_eq_sound_field_patterns _ _ h = absurd (false≢true h)
