-- ===== src/Eval/Tests.antt =====
-- The evaluator on concrete expressions.
use izel.Prelude.{
  ℕ, ◌-◌, ◌≡◌, ◌↔◌, ◌⊎◌, refl, arith, none, some, false, ◌==◌, ltb, leb, codes, text_eq,
}
use izel.Span.{dummy}
use izel.Ast.{
  BinaryOp, Expr, Literal, binary, ident, literal, block_expr, block, no_stmts, stmts, let_stmt,
  assign, ident_pattern, no_type, some_expr,
}
use izel.Eval.I128
use izel.Eval.I128.{modulus, min_value, minus_one, div_i128, rem_i128}
use izel.Eval.Run
use izel.Eval.Run.{ConstValue, Context, Floats, int, insert, int_binary, eval_expr}
use izel.Eval.Arithmetic.{Divides, int_binary-eq-none, int_binary-Divides}

-- Floats that are whole numbers, enough for expressions without floats.
abbrev whole : Floats
whole = record {
  add_f64 = λ a b. a;
  sub_f64 = λ a b. a;
  mul_f64 = λ a b. a;
  div_f64 = λ a b. a;
  neg_f64 = λ a. a;
  eq_f64 = λ a b. a == b;
  lt_f64 = λ a b. ltb a b;
  le_f64 = λ a b. leb a b;
}

abbrev x : Expr
x = ident (codes "x") dummy

-- `{ let x = 7; x = x - 9; x / 2 }`
abbrev halved : Expr
halved = block_expr (
    block
      (stmts
        (let_stmt (ident_pattern (codes "x") false dummy) no_type
          (some_expr (literal (Literal.int 7))) dummy)
        (stmts (assign x (binary BinaryOp.sub x (literal (Literal.int 9))) dummy) no_stmts))
      (some_expr (binary BinaryOp.div x (literal (Literal.int 2)))) dummy)

abbrev empty : Context
empty name = none

halved_value : eval_expr whole halved empty ≡ some (int minus_one)
unfolding Run.eval_expr Run.eval_binary Run.int_binary I128.wrapping_sub I128.div_i128 text_eq
halved_value = refl

int_binary-eq-none_example : (int_binary BinaryOp.rem min_value minus_one ≡ none) ↔ (
    ((BinaryOp.rem ≡ BinaryOp.div) ⊎ (BinaryOp.rem ≡ BinaryOp.rem))
    × (min_value ≡ min_value)
    × (minus_one ≡ minus_one))
int_binary-eq-none_example = int_binary-eq-none BinaryOp.rem min_value minus_one

-- -7 / 2 is -3, and -7 % 2 is -1.
int_binary-Divides_example :
    (q : ℕ) × (r : ℕ) × (int_binary BinaryOp.div (modulus - 7) 2 ≡ some (int q))
    × (int_binary BinaryOp.rem (modulus - 7) 2 ≡ some (int r))
    × Divides (modulus - 7) 2 q r
int_binary-Divides_example =
    int_binary-Divides (modulus - 7) 2 (omega arith) (omega arith) (omega arith) refl

divided :
    (int_binary BinaryOp.div (modulus - 7) 2 ≡ some (int (modulus - 3)))
    × (int_binary BinaryOp.rem (modulus - 7) 2 ≡ some (int minus_one))
unfolding int_binary I128.div_i128 I128.rem_i128
divided = (refl, refl)
