-- ===== src/Lexer/NextToken.antt =====
-- crates/izel_lexer/src/lexer.rs: the lexer's state, `next_token`, and the loop by which every
-- caller runs it to the end of the source. `none` is a panic.
use izel.Prelude.{
  ℕ, zero, suc, ◌^◌, ◌%◌, ◌&&◌, not, Option, none, some, List, [], ◌∷◌, ◌==◌, if◌then◌else◌, ◌>>=◌,
  length,
}
use izel.Span.{SourceId, BytePos, Span}
use izel.Lexer.Token.{
  TokenKind, Token, is_eof_kind, tilde, not_eq, bang, at, pipe, bar, double_colon, colon, arrow,
  minus, question_question, question, pound, plus, star, slash, percent, caret, ampersand_tilde,
  ampersand, le, lt, ge, gt, open_paren, close_paren, open_brace, close_brace, open_bracket,
  close_bracket, comma, semicolon, fat_arrow, eq_eq, equal, dot_dot, dot_dot_eq, dot, whitespace,
  comment, unknown, eof,
}
use izel.Lexer.Cursor
use izel.Lexer.Cursor.{
  CharTables, Cursor, eof_char, first, second, is_eof, bump, advance, eat_while, pos_within,
  is_ascii_digit,
}
use izel.Lexer.Literals.{
  lex_number, lex_string, lex_char, lex_interpolated_string, eat_multi_line_comment,
}
use izel.Lexer.Ident.{is_ident_start, lex_ident_or_keyword}

pub record Lexer : Type 0 where
  pub source : List ℕ
  pub cursor : Cursor
  pub source_id : SourceId

unfoldable pub new : List ℕ → SourceId → Lexer
unfolding Cursor.new
new source source_id = record { source = source; cursor = Cursor.new source; source_id = source_id }

-- `pos_within(...) as u32`
unfoldable pub pos : List ℕ → Cursor → BytePos
pos source s = pos_within source s % 2 ^ 32

unfoldable pub make_span : SourceId → BytePos → BytePos → Span
make_span source_id start end = record { lo = start; hi = end; source_id = source_id }

-- `if first() == c { bump(); long } else { short }`
abbrev follow : ℕ → TokenKind → TokenKind → Cursor → TokenKind × Cursor
follow c long short s = if first s == c then (long, advance s) else (short, s)

abbrev after_equal : Cursor → TokenKind × Cursor
after_equal s =
    if first s == b'>'
    then (fat_arrow, advance s)
    else if first s == b'='
    then (eq_eq, advance s)
    else (equal, s)

abbrev after_dot : Cursor → TokenKind × Cursor
after_dot s = if first s == b'.' then follow b'=' dot_dot_eq dot_dot (advance s) else (dot, s)

-- The arms for sigils and punctuation; `none` where the match goes on to the arms below them.
unfoldable pub sigil : ℕ → Cursor → Option (TokenKind × Cursor)
sigil c s =
    if c == b'~'
    then some (tilde, s)
    else if c == b'!'
    then some (follow b'=' not_eq bang s)
    else if c == b'@'
    then some (at, s)
    else if c == b'|'
    then some (follow b'>' pipe bar s)
    else if c == b':'
    then some (follow b':' double_colon colon s)
    else if c == b'-'
    then some (follow b'>' arrow minus s)
    else if c == b'='
    then some (after_equal s)
    else if c == b'.'
    then some (after_dot s)
    else if c == b'?'
    then some (follow b'?' question_question question s)
    else if c == b'#'
    then some (pound, s)
    else if c == b'+'
    then some (plus, s)
    else if c == b'*'
    then some (star, s)
    else if c == b'/'
    then some (slash, s)
    else if c == b'%'
    then some (percent, s)
    else if c == b'^'
    then some (caret, s)
    else if c == b'&'
    then some (follow b'~' ampersand_tilde ampersand s)
    else if c == b'<'
    then some (follow b'=' le lt s)
    else if c == b'>'
    then some (follow b'=' ge gt s)
    else if c == b'('
    then some (open_paren, s)
    else if c == b')'
    then some (close_paren, s)
    else if c == b'{'
    then some (open_brace, s)
    else if c == b'}'
    then some (close_brace, s)
    else if c == b'['
    then some (open_bracket, s)
    else if c == b']'
    then some (close_bracket, s)
    else if c == b','
    then some (comma, s)
    else if c == b';'
    then some (semicolon, s)
    else none

-- The two characters that open a comment are ahead: the cursor behind it.
unfoldable pub eat_comment : Cursor → Option Cursor
eat_comment s =
    if not (first s == b'/')
    then none
    else if second s == b'/'
    then some (eat_while (λ c. not (c == b'\n') && not (c == eof_char)) (advance (advance s)))
    else if second s == b'~'
    then some (eat_multi_line_comment (advance (advance s)))
    else none

module _ (tables : CharTables) where
  -- The last arms of the match on the first character `c`, which is read.
  unfoldable pub lex_other : List ℕ → ℕ → Cursor → Option (TokenKind × Cursor)
  lex_other source c s =
      if is_ident_start tables c
      then lex_ident_or_keyword tables source c s
      else if is_ascii_digit c
      then some (lex_number c s)
      else if c == b'"'
      then some (lex_string s)
      else if c == b'\''
      then some (lex_char s)
      else if c == b'`'
      then some (lex_interpolated_string s)
      else some (unknown, s)

  abbrev or_other : Option (TokenKind × Cursor) → List ℕ → ℕ → Cursor → Option (TokenKind × Cursor)
  or_other (some read) source c s = some read
  or_other none source c s = lex_other source c s

  -- `match first { … }`
  unfoldable pub lex_first : List ℕ → ℕ → Cursor → Option (TokenKind × Cursor)
  lex_first source c s = or_other (sigil c s) source c s

  abbrev or_first : Option Cursor → List ℕ → Cursor → Option (TokenKind × Cursor)
  or_first (some t) source s = some (comment, t)
  or_first none source s = (bump s).0 >>= λ c. lex_first source c (advance s)

  -- The kind of the next token and the cursor behind it.
  unfoldable pub next_kind : List ℕ → Cursor → Option (TokenKind × Cursor)
  next_kind source s =
      if is_eof s
      then some (eof, s)
      else if tables.is_whitespace (first s)
      then some (whitespace, eat_while tables.is_whitespace (advance s))
      else or_first (eat_comment s) source s

  unfoldable pub next_token : Lexer → Option (Token × Lexer)
  next_token l = next_kind l.source l.cursor >>= λ read.
      (let span = make_span l.source_id (pos l.source l.cursor) (pos l.source read.1) in
        some (record { kind = read.0; span = span }, record l { cursor = read.1 }))

  -- `loop { let token = lexer.next_token(); if token.kind == Eof { break } tokens.push(token) }`;
  -- `none` is a panic or the end of the fuel.
  unfoldable pub tokens_loop : ℕ → Lexer → Option (List Token)
  tokens_loop zero l = none
  tokens_loop (suc fuel) l = next_token l >>= λ read.
      (let rest = tokens_loop fuel read.1 in
        if is_eof_kind read.0.kind then some [] else rest >>= λ ts. some (read.0 ∷ ts))

  unfoldable pub tokens : List ℕ → SourceId → Option (List Token)
  unfolding new
  tokens source source_id = tokens_loop (suc (length source)) (new source source_id)
