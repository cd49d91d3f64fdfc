-- ===== src/Lexer/TokenText.antt =====
-- crates/izel_lexer/src/lexer.rs, `next_token`: which token stands at a given text.
use izel.Prelude.{
  ℕ, ◌<◌, ◌≡◌, refl, true, false, ◌&&◌, ◌||◌, Option, none, some, inl, inr, List, ◌∷◌, ◌++◌, arith,
  ◌==◌, leb,
}
use izel.Lexer.Token.{TokenKind, str, interpolated_str, comment}
use izel.Lexer.Cursor.{CharTables, Cursor, second, advance, is_ascii_digit}
use izel.Lexer.Literals.{lex_string, lex_interpolated_string}
use izel.Lexer.Ident.{is_ident_start}
use izel.Lexer.NextToken.{sigil, eat_comment, lex_other, lex_first, next_kind}
use izel.Lexer.Reads.{chars-behind, is_eof-cons, first-cons, bump-cons}
use izel.Lexer.Strings.{escape_text, quoted-escape_text}
use izel.Lexer.Comments.{Body, eat_multi_line_comment-Body}

-- What the standard library documents of the Unicode predicates at ASCII characters.
pub record IsUnicode (tables : CharTables) : Type 0 where
  pub ascii_whitespace :
      (c : ℕ) → c < 128 → tables.is_whitespace c ≡ (leb 9 c && leb c 13 || c == b' ')
  pub ascii_alphabetic :
      (c : ℕ)
      → c < 128
      → tables.is_alphabetic c ≡ (leb b'a' c && leb c b'z' || leb b'A' c && leb c b'Z')
  pub ascii_alphanumeric :
      (c : ℕ)
      → c < 128
      → tables.is_alphanumeric c
        ≡ (leb b'a' c && leb c b'z' || leb b'A' c && leb c b'Z' || leb b'0' c && leb c b'9')

-- The next token is of this kind, and this text is left behind it.
abbrev pub Finds : TokenKind → List ℕ → Option (TokenKind × Cursor) → Type 0
Finds k rest none = ⊥
Finds k rest (some r) = (r.0 ≡ k) × (r.1.chars ≡ rest)

eat_comment-none :
    (c : ℕ) (cs : List ℕ) (s : Cursor)
    → s.chars ≡ c ∷ cs
    → (c == b'/') ≡ false
    → eat_comment s ≡ none
unfolding eat_comment
eat_comment-none c cs s e h = ground (arith, first-cons s e)

pub next_kind-lex_first :
    (tables : CharTables) (c : ℕ) (cs source : List ℕ) (s : Cursor)
    → s.chars ≡ c ∷ cs
    → tables.is_whitespace c ≡ false
    → (c == b'/') ≡ false
    → next_kind tables source s ≡ lex_first tables source c (advance s)
unfolding next_kind
next_kind-lex_first tables c cs source s e w h =
    rw (is_eof-cons s e, first-cons s e, w, eat_comment-none c cs s e h, bump-cons s e)

module _ (tables : CharTables) (u : IsUnicode tables) where
  -- The string token of any text, whose quotes and backslashes are escaped, is terminated and ends
  -- right behind its closing quote.
  pub next_kind-string :
      (text rest source : List ℕ) (s : Cursor)
      → s.chars ≡ b'"' ∷ (escape_text b'"' text ++ (b'"' ∷ rest))
      → Finds (str true) rest (next_kind tables source s)
  unfolding lex_first sigil lex_other is_ident_start is_ascii_digit lex_string
  next_kind-string text rest source s e =
      let blank = u.ascii_whitespace b'"' (omega arith) in
      let letter = u.ascii_alphabetic b'"' (omega arith) in
      let ends = quoted-escape_text b'"' (inl refl) text rest (advance s) (chars-behind s e) in
      rw (next_kind-lex_first tables b'"' _ source s e blank refl) (ground (arith, letter, ends))

  -- So is the interpolated string token of any text, between backquotes.
  pub next_kind-interpolated_string :
      (text rest source : List ℕ) (s : Cursor)
      → s.chars ≡ b'`' ∷ (escape_text b'`' text ++ (b'`' ∷ rest))
      → Finds (interpolated_str true) rest (next_kind tables source s)
  unfolding lex_first sigil lex_other is_ident_start is_ascii_digit lex_interpolated_string
  next_kind-interpolated_string text rest source s e =
      let blank = u.ascii_whitespace b'`' (omega arith) in
      let letter = u.ascii_alphabetic b'`' (omega arith) in
      let ends = quoted-escape_text b'`' (inr refl) text rest (advance s) (chars-behind s e) in
      rw (next_kind-lex_first tables b'`' _ source s e blank refl) (ground (arith, letter, ends))

  -- A block comment, with comments nested in it to any depth, is one token that ends right behind
  -- the mark that closes it.
  pub next_kind-comment :
      {body : List ℕ} (rest source : List ℕ) (s : Cursor)
      → Body body
      → s.chars ≡ b'/' ∷ b'~' ∷ (body ++ (b'~' ∷ b'/' ∷ rest))
      → Finds comment rest (next_kind tables source s)
  unfolding next_kind eat_comment second
  next_kind-comment rest source s b e =
      let blank = u.ascii_whitespace b'/' (omega arith) in
      let t = advance (advance s) in
      let whole =
        eat_multi_line_comment-Body rest t b (chars-behind (advance s) (chars-behind s e)) in
      rw (is_eof-cons s e, first-cons s e, blank) (ground (arith, first-cons s e, whole))
