-- ===== src/Lexer/Literals.antt =====
-- crates/izel_lexer/src/lexer.rs: the literals, from `lex_number` to `eat_multi_line_comment`. The
-- receiver `&mut self` of these methods is the cursor, which is all that they change. Each loop
-- that calls `bump` once a round has a round for every character left and one for the end.
use izel.Prelude.{
  ℕ, zero, suc, ◌+◌, ◌-◌, Bool, true, false, ◌&&◌, ◌||◌, not, Option, none, some, ltb, ◌==◌,
  if◌then◌else◌, length,
}
use izel.Lexer.Token.{
  Base, binary, octal, decimal, hexadecimal, TokenKind, float, unknown, int, str, interpolated_str,
  byte_str, char, byte,
}
use izel.Lexer.Cursor.{
  Cursor, first, second, bump, advance, bump_if, eat_while, eat_escape, is_ascii_digit,
  is_ascii_hexdigit,
}

-- The base that the character behind a leading `0` stands for, if it does.
abbrev pub number_prefix : ℕ → Cursor → Base × Cursor
number_prefix c s =
    if c == b'0'
    then (if first s == b'x'
        then (hexadecimal, advance s)
        else if first s == b'b'
        then (binary, advance s)
        else if first s == b'o'
        then (octal, advance s)
        else (decimal, s))
    else (decimal, s)

abbrev is_hexadecimal : Base → Bool
is_hexadecimal hexadecimal = true
is_hexadecimal _ = false

unfoldable pub is_number_continue : Base → ℕ → Bool
is_number_continue base c =
    is_ascii_digit c || c == b'_' || (is_hexadecimal base && is_ascii_hexdigit c)

unfoldable pub is_fraction : ℕ → Bool
is_fraction c = is_ascii_digit c || c == b'_'

unfoldable pub lex_number_from : Base × Cursor → TokenKind × Cursor
lex_number_from (base, s) =
    let t = eat_while (is_number_continue base) s in
    if first t == b'.' && not (second t == b'.')
    then (float, eat_while is_fraction (advance t))
    else (int base false, t)

unfoldable pub lex_number : ℕ → Cursor → TokenKind × Cursor
unfolding lex_number_from
lex_number c s = lex_number_from (number_prefix c s)

-- The loop that `lex_string`, `lex_interpolated_string` and `lex_byte_string` share but for the
-- closing quote: the flag `terminated`, and the cursor behind the loop.
unfoldable pub quoted_loop : ℕ → ℕ → Cursor → Bool × Cursor
quoted_loop zero quote s = (false, s)
quoted_loop (suc fuel) quote s =
    let t = advance s in
    elim (bump s).0 [
      | none ↦ (false, t)
      | some c ↦
          let again = quoted_loop fuel quote (if c == b'\\' then eat_escape t else t) in
          if c == quote then (true, t) else again
    ]

unfoldable pub quoted : ℕ → Cursor → Bool × Cursor
quoted quote s = quoted_loop (suc (length s.chars)) quote s

unfoldable pub lex_string : Cursor → TokenKind × Cursor
lex_string s = let (terminated, t) = quoted b'"' s in (str terminated, t)

unfoldable pub lex_interpolated_string : Cursor → TokenKind × Cursor
lex_interpolated_string s = let (terminated, t) = quoted b'`' s in (interpolated_str terminated, t)

unfoldable pub lex_byte_string : Cursor → TokenKind × Cursor
lex_byte_string s = let (terminated, t) = quoted b'"' s in (byte_str terminated, t)

-- The body that `lex_char` and `lex_byte_literal` share.
abbrev pub char_body : Option ℕ → Cursor → Bool × Cursor
char_body none t = (false, t)
char_body (some c) t =
    let u = if c == b'\\' then eat_escape t else t in
    (if first u == b'\'' then (true, advance u) else (false, u))

unfoldable pub lex_char : Cursor → TokenKind × Cursor
lex_char s = let (terminated, t) = char_body (bump s).0 (advance s) in (char terminated, t)

unfoldable pub lex_byte_literal : Cursor → TokenKind × Cursor
lex_byte_literal s = let (terminated, t) = char_body (bump s).0 (advance s) in (byte terminated, t)

-- `while first() == '#' && n < limit { bump(); n += 1 }`
unfoldable pub closing_loop : ℕ → ℕ → ℕ → Cursor → ℕ × Cursor
closing_loop zero limit n s = (n, s)
closing_loop (suc fuel) limit n s =
    let again = closing_loop fuel limit (n + 1) (advance s) in
    if first s == b'#' && ltb n limit then again else (n, s)

-- `while first() == '#' { bump(); hashes += 1 }`
unfoldable pub hashes_loop : ℕ → ℕ → Cursor → ℕ × Cursor
hashes_loop zero n s = (n, s)
hashes_loop (suc fuel) n s =
    let again = hashes_loop fuel (n + 1) (advance s) in if first s == b'#' then again else (n, s)

-- The `loop` of `lex_raw_string`, up to a quote with `hashes` hashes behind it.
unfoldable pub raw_loop : ℕ → ℕ → Cursor → Bool × Cursor
raw_loop zero hashes s = (false, s)
raw_loop (suc fuel) hashes s =
    let t = advance s in
    elim (bump s).0 [
      | none ↦ (false, t)
      | some c ↦
          let closing = closing_loop (length t.chars) hashes 0 t in
          let quote = c == b'"' in
          let again = raw_loop fuel hashes (if quote then closing.1 else t) in
          if quote && closing.0 == hashes then (true, closing.1) else again
    ]

unfoldable pub lex_raw_string : Cursor → TokenKind × Cursor
lex_raw_string s =
    let (hashes, t) = hashes_loop (length s.chars) 0 s in
    if not (first t == b'"')
    then (unknown, t)
    else (let u = advance t in
        let (terminated, v) = raw_loop (suc (length u.chars)) hashes u in (str terminated, v))

-- A block comment `/~ … ~/`, which nests. The first two characters are read.
unfoldable pub comment_loop : ℕ → ℕ → Cursor → Cursor
comment_loop zero depth s = s
comment_loop (suc fuel) depth s =
    let t = advance s in
    elim (bump s).0 [
      | none ↦ t
      | some c ↦
          let opens = c == b'/' && first t == b'~' in
          let closes = c == b'~' && first t == b'/' in
          let deeper = if opens then depth + 1 else if closes then depth - 1 else depth in
          let u = bump_if (opens || closes) t in
          let again = comment_loop fuel deeper u in if closes && deeper == 0 then u else again
    ]

unfoldable pub eat_multi_line_comment : Cursor → Cursor
eat_multi_line_comment s = comment_loop (suc (length s.chars)) 1 s
