-- ===== src/Ast/Tests.antt =====
-- `alpha_eq` and the printer of spans on concrete trees.
use izel.Prelude.{Bool, codes, text_eq, ◌≡◌, ◌↔◌, refl, true, none}
use izel.Span.{Span, dummy}
use izel.Ast.{
  BinaryOp, Expr, Literal, binary, call, ident, literal, arg, no_args, args, block_expr, block,
  no_stmts, stmts, let_stmt, ident_pattern, no_type, some_expr,
}
use izel.Ast.Equality
use izel.Ast.AlphaEq
use izel.Ast.AlphaEq.{alpha_eq}
use izel.Ast.Spans.{erase_spans}
use izel.Ast.AlphaEqLaws.{alpha_eq-erase_spans}

-- `{ let x = f(1); x + x }` at a place.
abbrev tree : Span → Expr
tree s = block_expr (
    block
      (stmts
        (let_stmt (ident_pattern (codes "x") Bool.false s) no_type
          (some_expr
            (call (ident (codes "f") s) (args (arg none (literal (Literal.int 1)) s) no_args)))
          s)
        no_stmts)
      (some_expr (binary BinaryOp.add (ident (codes "x") s) (ident (codes "x") s))) s)

abbrev elsewhere : Span
elsewhere = record { lo = 40; hi = 60; source_id = 3 }

trees_alpha_eq : alpha_eq (tree dummy) (tree elsewhere) ≡ true
unfolding AlphaEq.alpha_eq Equality.bool_eq Equality.literal_eq Equality.option_text_eq
    Equality.binary_op_eq Equality.BinaryOp-discrete text_eq
trees_alpha_eq = refl

alpha_eq-erase_spans_example :
    (alpha_eq (tree dummy) (tree elsewhere) ≡ true)
    ↔ (erase_spans (tree dummy) ≡ erase_spans (tree elsewhere))
alpha_eq-erase_spans_example = alpha_eq-erase_spans (tree dummy) (tree elsewhere)
