-- ===== src/Lexer/Token.antt =====
-- crates/izel_lexer/src/lib.rs: token kinds and tokens. Where a variant's name is a word of this
-- language or a library constructor, `_kw` hangs on (`open_kw`, `true_kw`).
use izel.Prelude.{Bool, true, false}
use izel.Span.{Span}

pub data Base : Type 0 where
  binary octal decimal hexadecimal : Base

pub data TokenKind : Type 0 where
  forge shape scroll weave ward macro echo branch given else_kw loop each while break : TokenKind
  next_kw give let_kw raw bridge flow tide zone dual seek catch draw open_kw hidden pkg : TokenKind
  pure sole self_kw self_type true_kw false_kw nil as_kw in_kw of_kw is_kw not_kw and_kw : TokenKind
  or_kw comptime static extern type_kw alias impl for_kw bind ident float tilde bang at : TokenKind
  pipe bar double_colon arrow fat_arrow dot_dot dot_dot_eq dot question question_question :
      TokenKind
  pound equal plus minus star slash percent caret ampersand ampersand_tilde lt gt le ge : TokenKind
  eq_eq not_eq or_or and_and open_paren close_paren open_brace close_brace open_bracket : TokenKind
  close_bracket comma semicolon colon whitespace comment unknown eof : TokenKind
  int : Base → Bool → TokenKind
  str interpolated_str byte_str char byte : Bool → TokenKind

pub record Token : Type 0 where
  pub kind : TokenKind
  pub span : Span

-- `kind == TokenKind::Eof`
abbrev pub is_eof_kind : TokenKind → Bool
is_eof_kind eof = true
is_eof_kind _ = false
