-- ===== src/Lexer/Forward.antt =====
-- crates/izel_lexer/src/lexer.rs: the literals, identifiers and sigils read forward, and none of
-- them yields the kind `Eof`.
use izel.Prelude.{
  ℕ, zero, suc, ◌+◌, ◌-◌, ◌≡◌, refl, Bool, true, false, not, ◌&&◌, Option, none, some, ◌==◌, List,
  [], ◌∷◌, arith, length,
}
use izel.Lexer.Token.{Base, TokenKind, is_eof_kind}
use izel.Lexer.Cursor.{Cursor, first, bump, advance, eat_while, eat_escape, eof_char}
use izel.Lexer.Literals.{
  number_prefix, lex_number_from, lex_number, is_number_continue, is_fraction, quoted_loop, quoted,
  lex_string, lex_interpolated_string, lex_byte_string, char_body, lex_char, lex_byte_literal,
  closing_loop, hashes_loop, raw_loop, lex_raw_string, comment_loop, eat_multi_line_comment,
}
use izel.Lexer.Ident.{keywords, keyword_in, keyword, ident_kind}
use izel.Lexer.NextToken.{sigil, eat_comment}
use izel.Lexer.Reads.{
  Reads, stay, step, Reads-trans, Reads-advance, Reads-eat_while, Reads-eat_escape,
}

-- A kind that is not `Eof`, with a cursor that the code reaches from `s` by `bump`.
abbrev pub Lexes : Cursor → TokenKind × Cursor → Type 0
Lexes s r = (is_eof_kind r.0 ≡ false) × Reads s r.1

abbrev has_no_eof : List (List ℕ × TokenKind) → Bool
has_no_eof [] = true
has_no_eof ((word, k) ∷ rest) = not (is_eof_kind k) && has_no_eof rest

Reads-number_prefix : (c : ℕ) (s : Cursor) → Reads s (number_prefix c s).1
Reads-number_prefix c s = ground (arith, stay {s = s}, Reads-advance s)

lex_number_from-Lexes : (r : Base × Cursor) → Lexes r.1 (lex_number_from r)
unfolding lex_number_from
lex_number_from-Lexes (base, s) =
    let t = eat_while (is_number_continue base) s in
    let whole : Reads s t = Reads-eat_while _ s in
    let fraction = Reads-trans whole (step (Reads-eat_while is_fraction (advance t))) in
    ground (arith, whole, fraction)

pub lex_number-Lexes : (c : ℕ) (s : Cursor) → Lexes s (lex_number c s)
unfolding lex_number
lex_number-Lexes c s =
    let (kind, reads) = lex_number_from-Lexes (number_prefix c s) in
    (kind, Reads-trans (Reads-number_prefix c s) reads)

Reads-quoted_loop : (fuel quote : ℕ) (s : Cursor) → Reads s (quoted_loop fuel quote s).1
unfolding quoted_loop
Reads-quoted_loop zero quote s = stay
Reads-quoted_loop (suc fuel) quote s =
    let t = advance s in
    let escaped = Reads-trans (Reads-eat_escape t) (Reads-quoted_loop fuel quote (eat_escape t)) in
    ground (arith, Reads-advance s, step escaped, step (Reads-quoted_loop fuel quote t))

pub Reads-quoted : (quote : ℕ) (s : Cursor) → Reads s (quoted quote s).1
unfolding quoted
Reads-quoted quote s = Reads-quoted_loop (suc (length s.chars)) quote s

pub lex_string-Lexes : (s : Cursor) → Lexes s (lex_string s)
unfolding lex_string
lex_string-Lexes s = (refl, Reads-quoted b'"' s)

pub lex_interpolated_string-Lexes : (s : Cursor) → Lexes s (lex_interpolated_string s)
unfolding lex_interpolated_string
lex_interpolated_string-Lexes s = (refl, Reads-quoted b'`' s)

pub lex_byte_string-Lexes : (s : Cursor) → Lexes s (lex_byte_string s)
unfolding lex_byte_string
lex_byte_string-Lexes s = (refl, Reads-quoted b'"' s)

Reads-char_body : (o : Option ℕ) (t : Cursor) → Reads t (char_body o t).1
Reads-char_body none t = stay
Reads-char_body (some c) t =
    let escaped = Reads-eat_escape t in
    ground (
      arith,
      stay {s = t},
      Reads-advance t,
      escaped,
      Reads-trans escaped (Reads-advance (eat_escape t)),
    )

pub lex_char-Lexes : (s : Cursor) → Lexes s (lex_char s)
unfolding lex_char
lex_char-Lexes s = (refl, step (Reads-char_body (bump s).0 (advance s)))

pub lex_byte_literal-Lexes : (s : Cursor) → Lexes s (lex_byte_literal s)
unfolding lex_byte_literal
lex_byte_literal-Lexes s = (refl, step (Reads-char_body (bump s).0 (advance s)))

Reads-closing_loop : (fuel limit n : ℕ) (s : Cursor) → Reads s (closing_loop fuel limit n s).1
unfolding closing_loop
Reads-closing_loop zero limit n s = stay
Reads-closing_loop (suc fuel) limit n s =
    ground (arith, stay {s = s}, step (Reads-closing_loop fuel limit (n + 1) (advance s)))

Reads-hashes_loop : (fuel n : ℕ) (s : Cursor) → Reads s (hashes_loop fuel n s).1
unfolding hashes_loop
Reads-hashes_loop zero n s = stay
Reads-hashes_loop (suc fuel) n s =
    ground (arith, stay {s = s}, step (Reads-hashes_loop fuel (n + 1) (advance s)))

Reads-raw_loop : (fuel hashes : ℕ) (s : Cursor) → Reads s (raw_loop fuel hashes s).1
unfolding raw_loop
Reads-raw_loop zero hashes s = stay
Reads-raw_loop (suc fuel) hashes s =
    let t = advance s in
    let u = (closing_loop (length t.chars) hashes 0 t).1 in
    let closing : Reads s u = step (Reads-closing_loop (length t.chars) hashes 0 t) in
    ground (
      arith,
      Reads-advance s,
      closing,
      step (Reads-raw_loop fuel hashes t),
      Reads-trans closing (Reads-raw_loop fuel hashes u),
    )

pub lex_raw_string-Lexes : (s : Cursor) → Lexes s (lex_raw_string s)
unfolding lex_raw_string
lex_raw_string-Lexes s =
    let opening = hashes_loop (length s.chars) 0 s in
    let t = opening.1 in
    let u = advance t in
    let hashes : Reads s t = Reads-hashes_loop (length s.chars) 0 s in
    let body = Reads-raw_loop (suc (length u.chars)) opening.0 u in
    ground (arith, hashes, Reads-trans hashes (step body))

Reads-comment_loop : (fuel depth : ℕ) (s : Cursor) → Reads s (comment_loop fuel depth s)
unfolding comment_loop
Reads-comment_loop zero depth s = stay
Reads-comment_loop (suc fuel) depth s =
    let t = advance s in
    let u = advance t in
    ground (
      arith,
      Reads-advance s,
      step (Reads-advance t),
      step (Reads-comment_loop fuel depth t),
      step (step (Reads-comment_loop fuel (depth + 1) u)),
      step (step (Reads-comment_loop fuel (depth - 1) u)),
    )

pub Reads-eat_multi_line_comment : (s : Cursor) → Reads s (eat_multi_line_comment s)
unfolding eat_multi_line_comment
Reads-eat_multi_line_comment s = Reads-comment_loop (suc (length s.chars)) 1 s

-- No keyword of the table is the kind `Eof`.
keyword_in-ne-eof :
    (table : List (List ℕ × TokenKind)) (text : List ℕ)
    → has_no_eof table ≡ true
    → is_eof_kind (keyword_in table text) ≡ false
unfolding keyword_in
keyword_in-ne-eof [] text h = refl
keyword_in-ne-eof ((word, k) ∷ rest) text h = ground (arith, keyword_in-ne-eof rest text)

pub keyword-ne-eof : (text : List ℕ) → is_eof_kind (keyword text) ≡ false
unfolding keyword
keyword-ne-eof text = keyword_in-ne-eof keywords text refl

-- No panic, and a kind and cursor as in `Lexes`.
abbrev pub Yields : Cursor → Option (TokenKind × Cursor) → Type 0
Yields s none = ⊥
Yields s (some r) = Lexes s r

-- The `unwrap` behind the test for a quote finds a character.
ident_kind-Yields_of : (text cs : List ℕ) (s : Cursor) → s.chars ≡ cs → Yields s (ident_kind text s)
unfolding ident_kind first bump
ident_kind-Yields_of text [] s e =
    ground (arith, stay {s = s}, lex_raw_string-Lexes s, keyword-ne-eof text)
ident_kind-Yields_of text (c ∷ cs) s e =
    let string = lex_byte_string-Lexes (advance s) in
    let literal = lex_byte_literal-Lexes (advance s) in
    ground (
      arith,
      stay {s = s},
      lex_raw_string-Lexes s,
      keyword-ne-eof text,
      string.0,
      Reads-trans (Reads-advance s) string.1,
      literal.0,
      Reads-trans (Reads-advance s) literal.1,
    )

pub ident_kind-Yields : (text : List ℕ) (s : Cursor) → Yields s (ident_kind text s)
ident_kind-Yields text s = ident_kind-Yields_of text s.chars s refl

-- A sigil is one to three characters.
abbrev pub YieldsIfAny : Cursor → Option (TokenKind × Cursor) → Type 0
YieldsIfAny s none = Unit
YieldsIfAny s (some r) = Lexes s r

pub sigil-YieldsIfAny : (c : ℕ) (s : Cursor) → YieldsIfAny s (sigil c s)
unfolding sigil
sigil-YieldsIfAny c s =
    ground (arith, stay {s = s}, Reads-advance s, step (Reads-advance (advance s)))

-- A comment takes at least the first of the two characters that open it.
abbrev pub ReadsIfAny : Cursor → Option Cursor → Type 0
ReadsIfAny s none = Unit
ReadsIfAny s (some t) = Reads s t

pub eat_comment-ReadsIfAny : (s : Cursor) → ReadsIfAny (advance s) (eat_comment s)
unfolding eat_comment
eat_comment-ReadsIfAny s =
    let u = advance (advance s) in
    ground (
      arith,
      step (Reads-eat_while (λ c. not (c == b'\n') && not (c == eof_char)) u),
      step (Reads-eat_multi_line_comment u),
    )
