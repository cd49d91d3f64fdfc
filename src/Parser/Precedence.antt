-- ===== src/Parser/Precedence.antt =====
-- crates/izel_parser/src/expr.rs: `Precedence`, ordered as it is declared.
use izel.Prelude.{ℕ}
use izel.Lexer.Token.{
  TokenKind, pipe, question_question, or_kw, and_kw, eq_eq, not_eq, is_kw, lt, gt, le, ge, caret,
  ampersand, plus, minus, star, slash, percent, as_kw, bang, dot, open_paren, open_bracket,
  double_colon, open_brace, question,
}

pub data Precedence : Type 0 where
  none pipeline coalesce logical_or logical_and equality comparison bit_or bit_xor : Precedence
  bit_and shift sum product unary cast type call : Precedence

-- `derive(PartialOrd)`
unfoldable pub rank : Precedence → ℕ
rank none = 0
rank pipeline = 1
rank coalesce = 2
rank logical_or = 3
rank logical_and = 4
rank equality = 5
rank comparison = 6
rank bit_or = 7
rank bit_xor = 8
rank bit_and = 9
rank shift = 10
rank sum = 11
rank product = 12
rank unary = 13
rank cast = 14
rank type = 15
rank call = 16

unfoldable pub from_kind : TokenKind → Precedence
from_kind pipe = pipeline
from_kind question_question = coalesce
from_kind or_kw = logical_or
from_kind and_kw = logical_and
from_kind eq_eq = equality
from_kind not_eq = equality
from_kind is_kw = equality
from_kind lt = comparison
from_kind gt = comparison
from_kind le = comparison
from_kind ge = comparison
from_kind caret = bit_xor
from_kind ampersand = bit_and
from_kind plus = sum
from_kind minus = sum
from_kind star = product
from_kind slash = product
from_kind percent = product
from_kind as_kw = cast
from_kind bang = call
from_kind dot = call
from_kind open_paren = call
from_kind open_bracket = call
from_kind double_colon = call
from_kind open_brace = call
from_kind question = call
from_kind _ = none
