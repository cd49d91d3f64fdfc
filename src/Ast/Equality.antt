-- ===== src/Ast/Equality.antt =====
-- crates/izel_parser/src/ast.rs: the equality tests that `derive(PartialEq)` and the `impl PartialEq`
-- of `Literal` give, and that each decides equality.
use izel.Prelude.{
  Bool, true, false, Option, none, some, ◌≡◌, ◌↔◌, refl, arith, ◌==◌, Text, text_eq, text_eq_iff,
}
use izel.Ast.{
  BinaryOp, UnaryOp, Literal, int, float, str, bool, nil, neg, not_op, bit_not, deref, ref,
}

unfoldable pub bool_eq : Bool → Bool → Bool
bool_eq true b = b
bool_eq false true = false
bool_eq false false = true

pub bool_eq_iff : (a b : Bool) → (bool_eq a b ≡ true) ↔ (a ≡ b)
unfolding bool_eq
bool_eq_iff a b = ground arith

unfoldable pub BinaryOp-discrete : Discrete BinaryOp
BinaryOp-discrete = hlevel

abbrev is_yes {ℓ} : {A : Type ℓ} → Dec A → Bool
is_yes (yes _) = true
is_yes (no _) = false

is_yes_iff {ℓ} : {A : Type ℓ} (d : Dec A) → (is_yes d ≡ true) ↔ A
is_yes_iff (yes a) = (λ _. a, λ _. refl)
is_yes_iff (no n) = (λ e. cc, λ a. absurd (n a))

unfoldable pub binary_op_eq : BinaryOp → BinaryOp → Bool
unfolding BinaryOp-discrete
binary_op_eq a b = is_yes (BinaryOp-discrete a b)

pub binary_op_eq_iff : (a b : BinaryOp) → (binary_op_eq a b ≡ true) ↔ (a ≡ b)
unfolding binary_op_eq
binary_op_eq_iff a b = is_yes_iff (BinaryOp-discrete a b)

unfoldable pub unary_op_eq : UnaryOp → UnaryOp → Bool
unfolding bool_eq
unary_op_eq neg neg = true
unary_op_eq not_op not_op = true
unary_op_eq bit_not bit_not = true
unary_op_eq deref deref = true
unary_op_eq (ref a) (ref b) = bool_eq a b
unary_op_eq _ _ = false

pub unary_op_eq_iff : (a b : UnaryOp) → (unary_op_eq a b ≡ true) ↔ (a ≡ b)
unfolding unary_op_eq
unary_op_eq_iff (ref a) (ref b) = ground (arith, bool_eq_iff a b)
unary_op_eq_iff _ _ = ground arith

-- Floats are compared by their bits.
unfoldable pub literal_eq : Literal → Literal → Bool
unfolding bool_eq
literal_eq (int a) (int b) = a == b
literal_eq (float a) (float b) = a == b
literal_eq (str a) (str b) = text_eq a b
literal_eq (bool a) (bool b) = bool_eq a b
literal_eq nil nil = true
literal_eq _ _ = false

pub literal_eq_iff : (a b : Literal) → (literal_eq a b ≡ true) ↔ (a ≡ b)
unfolding literal_eq
literal_eq_iff (str a) (str b) = ground (arith, text_eq_iff a b)
literal_eq_iff (bool a) (bool b) = ground (arith, bool_eq_iff a b)
literal_eq_iff _ _ = ground arith

unfoldable pub option_text_eq : Option Text → Option Text → Bool
option_text_eq (some a) (some b) = text_eq a b
option_text_eq none none = true
option_text_eq _ _ = false

pub option_text_eq_iff : (a b : Option Text) → (option_text_eq a b ≡ true) ↔ (a ≡ b)
unfolding option_text_eq
option_text_eq_iff (some a) (some b) = ground (arith, text_eq_iff a b)
option_text_eq_iff _ _ = ground arith
