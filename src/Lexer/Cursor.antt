-- ===== src/Lexer/Cursor.antt =====
-- crates/izel_lexer/src/cursor.rs and string_reader.rs: the cursor over the characters that are
-- left. A character is its code point, and a text the list of its characters.
use izel.Prelude.{
  ℕ, zero, suc, ◌+◌, ◌-◌, Bool, true, false, not, ◌&&◌, ◌||◌, Option, none, some, List, [], ◌∷◌,
  ltb, leb, ◌==◌, if◌then◌else◌, length,
}

-- The Unicode predicates of the standard library's `char`, which the code only calls.
pub record CharTables : Type 0 where
  pub is_whitespace : ℕ → Bool
  pub is_alphabetic : ℕ → Bool
  pub is_alphanumeric : ℕ → Bool

-- `char::len_utf8`
unfoldable pub len_utf8 : ℕ → ℕ
len_utf8 c = if ltb c 0x80 then 1 else if ltb c 0x800 then 2 else if ltb c 0x1_0000 then 3 else 4

-- `str::len`, in bytes
unfoldable pub str_len : List ℕ → ℕ
str_len [] = 0
str_len (c ∷ cs) = len_utf8 c + str_len cs

abbrev pub eof_char : ℕ
eof_char = 0

abbrev within : ℕ → ℕ → ℕ → Bool
within lo hi c = leb lo c && leb c hi

-- `char::is_ascii_digit` and `char::is_ascii_hexdigit`
unfoldable pub is_ascii_digit : ℕ → Bool
is_ascii_digit c = within b'0' b'9' c

unfoldable pub is_ascii_hexdigit : ℕ → Bool
is_ascii_hexdigit c = within b'0' b'9' c || within b'a' b'f' c || within b'A' b'F' c

pub record Cursor : Type 0 where
  pub chars : List ℕ
  pub len_remaining : ℕ

unfoldable pub new : List ℕ → Cursor
new source = record { chars = source; len_remaining = str_len source }

abbrev first_of : List ℕ → ℕ
first_of [] = eof_char
first_of (c ∷ cs) = c

abbrev second_of : List ℕ → ℕ
second_of [] = eof_char
second_of (c ∷ cs) = first_of cs

abbrev is_empty : List ℕ → Bool
is_empty [] = true
is_empty (c ∷ cs) = false

unfoldable pub first : Cursor → ℕ
first s = first_of s.chars

unfoldable pub second : Cursor → ℕ
second s = second_of s.chars

unfoldable pub is_eof : Cursor → Bool
is_eof s = is_empty s.chars

-- `bump` on the characters that are left
abbrev bump_of : List ℕ → Cursor → Option ℕ × Cursor
bump_of [] s = (none, s)
bump_of (c ∷ cs) s = (some c, record { chars = cs; len_remaining = s.len_remaining - len_utf8 c })

unfoldable pub bump : Cursor → Option ℕ × Cursor
bump s = bump_of s.chars s

-- The cursor behind a `bump` whose character is not used.
abbrev pub advance : Cursor → Cursor
advance s = (bump s).1

-- `while pred(first()) && !is_eof() { bump() }`, with a round for each character that is left
unfoldable pub eat_while_loop : ℕ → (ℕ → Bool) → Cursor → Cursor
eat_while_loop zero pred s = s
eat_while_loop (suc fuel) pred s =
    let rest = eat_while_loop fuel pred (advance s) in
    if pred (first s) && not (is_eof s) then rest else s

unfoldable pub eat_while : (ℕ → Bool) → Cursor → Cursor
eat_while pred s = eat_while_loop (length s.chars) pred s

unfoldable pub pos_within : List ℕ → Cursor → ℕ
pos_within source s = str_len source - str_len s.chars

-- One `if first() == c { bump() }`.
abbrev pub bump_if : Bool → Cursor → Cursor
bump_if test s = if test then advance s else s

-- The arms of `eat_escape` on the character behind the backslash.
unfoldable pub eat_escape_of : Option ℕ → Cursor → Cursor
eat_escape_of none s = s
eat_escape_of (some c) s =
    if c == b'n' || c == b'r' || c == b't' || c == b'\\' || c == b'\'' || c == b'"' || c == b'0'
    then s
    else if c == b'u' && first s == b'{'
    then (let t = eat_while (λ d. is_ascii_hexdigit d || d == b'_') (advance s) in
        bump_if (first t == b'}') t)
    else if c == b'x' && is_ascii_hexdigit (first s)
    then (let t = advance s in bump_if (is_ascii_hexdigit (first t)) t)
    else s

unfoldable pub eat_escape : Cursor → Cursor
unfolding eat_escape_of
eat_escape s = let (c, t) = bump s in eat_escape_of c t
