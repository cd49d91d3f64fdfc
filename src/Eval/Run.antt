-- ===== src/Eval/Run.antt =====
-- crates/izel_parser/src/eval.rs: `eval_expr` and `eval_block`. The context, a `HashMap`, is the
-- function of its lookups; the operations of `f64`, on bit patterns, are a parameter. `none` is a
-- panic, which only an integer division can cause.
use Prim.Native.Nat.{bit_and, bit_or, bit_xor}
use izel.Prelude.{
  ℕ, Bool, true, false, ◌&&◌, ◌||◌, not, Option, none, some, ◌++◌, ltb, ◌==◌, if◌then◌else◌, ◌>>=◌,
  Text, text_eq,
}
use izel.Ast.{
  Literal, BinaryOp, UnaryOp, Expr, OptExpr, Block, Stmt, Stmts, Pattern, literal, ident, binary,
  unary, block_expr, given, no_expr, some_expr, block, expr_stmt, let_stmt, assign, no_stmts, stmts,
  ident_pattern,
}
use izel.Ast.Equality.{bool_eq}
use izel.Eval.I128.{
  wrapping_add, wrapping_sub, wrapping_mul, wrapping_neg, bitwise_not, div_i128, rem_i128,
  wrapping_shl, wrapping_shr, lt_i128, le_i128,
}

pub data ConstValue : Type 0 where
  int : ℕ → ConstValue
  float : ℕ → ConstValue
  bool : Bool → ConstValue
  string : Text → ConstValue
  nil : ConstValue
  unknown : ConstValue

abbrev pub Context : Type 0
Context = Text → Option ConstValue

-- `HashMap::insert`
abbrev pub insert : Text → ConstValue → Context → Context
insert name v ctx other = if text_eq other name then some v else ctx other

abbrev pub value_or_unknown : Option ConstValue → ConstValue
value_or_unknown none = unknown
value_or_unknown (some v) = v

-- `contains_key`
abbrev pub is_some : Option ConstValue → Bool
is_some none = false
is_some (some v) = true

-- The operations of `f64`.
pub record Floats : Type 0 where
  pub add_f64 : ℕ → ℕ → ℕ
  pub sub_f64 : ℕ → ℕ → ℕ
  pub mul_f64 : ℕ → ℕ → ℕ
  pub div_f64 : ℕ → ℕ → ℕ
  pub neg_f64 : ℕ → ℕ
  pub eq_f64 : ℕ → ℕ → Bool
  pub lt_f64 : ℕ → ℕ → Bool
  pub le_f64 : ℕ → ℕ → Bool

abbrev pub literal_value : Literal → ConstValue
literal_value (Literal.int i) = int i
literal_value (Literal.float f) = float f
literal_value (Literal.bool b) = bool b
literal_value (Literal.str s) = string s
literal_value Literal.nil = nil

abbrev int_result : Option ℕ → Option ConstValue
int_result none = none
int_result (some i) = some (int i)

unfoldable pub int_binary : BinaryOp → ℕ → ℕ → Option ConstValue
int_binary BinaryOp.add l r = some (int (wrapping_add l r))
int_binary BinaryOp.sub l r = some (int (wrapping_sub l r))
int_binary BinaryOp.mul l r = some (int (wrapping_mul l r))
int_binary BinaryOp.div l r = if not (r == 0) then int_result (div_i128 l r) else some unknown
int_binary BinaryOp.rem l r = if not (r == 0) then int_result (rem_i128 l r) else some unknown
int_binary BinaryOp.bit_and l r = some (int (bit_and l r))
int_binary BinaryOp.bit_or l r = some (int (bit_or l r))
int_binary BinaryOp.bit_xor l r = some (int (bit_xor l r))
int_binary BinaryOp.shl l r = some (if ltb r 128 then int (wrapping_shl l r) else unknown)
int_binary BinaryOp.shr l r = some (if ltb r 128 then int (wrapping_shr l r) else unknown)
int_binary BinaryOp.eq l r = some (bool (l == r))
int_binary BinaryOp.ne l r = some (bool (not (l == r)))
int_binary BinaryOp.lt l r = some (bool (lt_i128 l r))
int_binary BinaryOp.gt l r = some (bool (lt_i128 r l))
int_binary BinaryOp.le l r = some (bool (le_i128 l r))
int_binary BinaryOp.ge l r = some (bool (le_i128 r l))
int_binary _ l r = some unknown

unfoldable pub bool_binary : BinaryOp → Bool → Bool → ConstValue
bool_binary BinaryOp.and l r = bool (l && r)
bool_binary BinaryOp.or l r = bool (l || r)
bool_binary BinaryOp.eq l r = bool (bool_eq l r)
bool_binary BinaryOp.ne l r = bool (not (bool_eq l r))
bool_binary _ l r = unknown

unfoldable pub string_binary : BinaryOp → Text → Text → ConstValue
string_binary BinaryOp.add l r = string (l ++ r)
string_binary BinaryOp.eq l r = bool (text_eq l r)
string_binary BinaryOp.ne l r = bool (not (text_eq l r))
string_binary _ l r = unknown

unfoldable pub nil_binary : BinaryOp → ConstValue
nil_binary BinaryOp.eq = bool true
nil_binary BinaryOp.ne = bool false
nil_binary _ = unknown

-- What a statement leaves: a panic, an early return of `Unknown`, or the scope behind it.
pub data Flow : Type 0 where
  panicked : Flow
  returned_unknown : Flow
  scoped : Context → Flow

-- `if value == ConstValue::Unknown { return Unknown }`, and a panic on the way to the value.
abbrev pub unless_unknown : Option ConstValue → (ConstValue → Flow) → Flow
unless_unknown none k = panicked
unless_unknown (some unknown) k = returned_unknown
unless_unknown (some v) k = k v

abbrev pub bind_pattern : Pattern → Context → ConstValue → Flow
bind_pattern (ident_pattern name _ _) ctx v = scoped (insert name v ctx)
bind_pattern _ ctx v = returned_unknown

abbrev pub assign_to : Expr → Context → ConstValue → Flow
assign_to (ident name _) ctx v =
    if is_some (ctx name) then scoped (insert name v ctx) else returned_unknown
assign_to _ ctx v = returned_unknown

-- A statement, or what follows it, in the scope that is left.
abbrev pub then_flow : Flow → (Context → Flow) → Flow
then_flow panicked k = panicked
then_flow returned_unknown k = returned_unknown
then_flow (scoped ctx) k = k ctx

abbrev pub then_value : Flow → (Context → Option ConstValue) → Option ConstValue
then_value panicked k = none
then_value returned_unknown k = some unknown
then_value (scoped ctx) k = k ctx

-- `match eval_expr(cond)` of a `Given`, on the values of its branches.
abbrev pub given_branch : ConstValue → Option ConstValue → Option ConstValue → Option ConstValue
given_branch (bool true) t e = t
given_branch (bool false) t e = e
given_branch _ t e = some unknown

module _ (floats : Floats) where
  open floats use {add_f64, sub_f64, mul_f64, div_f64, neg_f64, eq_f64, lt_f64, le_f64}

  unfoldable pub float_binary : BinaryOp → ℕ → ℕ → ConstValue
  float_binary BinaryOp.add l r = float (add_f64 l r)
  float_binary BinaryOp.sub l r = float (sub_f64 l r)
  float_binary BinaryOp.mul l r = float (mul_f64 l r)
  float_binary BinaryOp.div l r = if not (eq_f64 r 0) then float (div_f64 l r) else unknown
  float_binary BinaryOp.eq l r = bool (eq_f64 l r)
  float_binary BinaryOp.ne l r = bool (not (eq_f64 l r))
  float_binary BinaryOp.lt l r = bool (lt_f64 l r)
  float_binary BinaryOp.gt l r = bool (lt_f64 r l)
  float_binary BinaryOp.le l r = bool (le_f64 l r)
  float_binary BinaryOp.ge l r = bool (le_f64 r l)
  float_binary _ l r = unknown

  -- `match (lv, rv)`
  unfoldable pub eval_binary : BinaryOp → ConstValue → ConstValue → Option ConstValue
  eval_binary op (int l) (int r) = int_binary op l r
  eval_binary op (float l) (float r) = some (float_binary op l r)
  eval_binary op (bool l) (bool r) = some (bool_binary op l r)
  eval_binary op (string l) (string r) = some (string_binary op l r)
  eval_binary op nil nil = some (nil_binary op)
  eval_binary op _ _ = some unknown

  unfoldable pub eval_unary : UnaryOp → ConstValue → ConstValue
  eval_unary UnaryOp.neg (int i) = int (wrapping_neg i)
  eval_unary UnaryOp.bit_not (int i) = int (bitwise_not i)
  eval_unary UnaryOp.neg (float f) = float (neg_f64 f)
  eval_unary UnaryOp.not_op (bool b) = bool (not b)
  eval_unary _ _ = unknown

  unfoldable mutual
    pub eval_expr : Expr → Context → Option ConstValue
    eval_expr (literal lit) ctx = some (literal_value lit)
    eval_expr (ident name _) ctx = some (value_or_unknown (ctx name))
    eval_expr (block_expr b) ctx = eval_block b ctx
    eval_expr (given c t e) ctx =
        eval_expr c ctx >>= λ v. given_branch v (eval_block t ctx) (eval_trailing e ctx)
    eval_expr (binary op l r) ctx =
        eval_expr l ctx >>= λ lv. (eval_expr r ctx >>= λ rv. eval_binary op lv rv)
    eval_expr (unary op e) ctx = eval_expr e ctx >>= λ v. some (eval_unary op v)
    eval_expr _ ctx = some unknown

    -- An `else` branch or a trailing expression, `Nil` where there is none.
    pub eval_trailing : OptExpr → Context → Option ConstValue
    eval_trailing no_expr ctx = some nil
    eval_trailing (some_expr e) ctx = eval_expr e ctx

    pub eval_block : Block → Context → Option ConstValue
    eval_block (block ss e _) ctx = then_value (eval_stmts ss ctx) (eval_trailing e)

    pub eval_stmts : Stmts → Context → Flow
    eval_stmts no_stmts ctx = scoped ctx
    eval_stmts (stmts s ss) ctx = then_flow (eval_stmt s ctx) (eval_stmts ss)

    pub eval_stmt : Stmt → Context → Flow
    eval_stmt (let_stmt pat _ init _) ctx = eval_let init pat ctx
    eval_stmt (assign target e _) ctx = unless_unknown (eval_expr e ctx) (assign_to target ctx)
    eval_stmt (expr_stmt e) ctx = unless_unknown (eval_expr e ctx) (λ _. scoped ctx)

    pub eval_let : OptExpr → Pattern → Context → Flow
    eval_let no_expr pat ctx = returned_unknown
    eval_let (some_expr e) pat ctx = unless_unknown (eval_expr e ctx) (bind_pattern pat ctx)
