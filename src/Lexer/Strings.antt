-- ===== src/Lexer/Strings.antt =====
-- crates/izel_lexer/src/lexer.rs, `lex_string`, `lex_interpolated_string` and `lex_byte_string`:
-- where a quoted literal ends.
use izel.Prelude.{
  ℕ, zero, suc, ◌<◌, ◌≡◌, refl, ap, ◌∙◌, Bool, true, false, ◌||◌, ◌⊎◌, inl, inr, List, [], ◌∷◌,
  ◌++◌, arith, ◌==◌, ==_refl, Bool-cases, if◌then◌else◌, length,
}
use izel.Lexer.Cursor.{Cursor, bump, advance, eat_escape, eat_escape_of}
use izel.Lexer.Literals.{quoted_loop, quoted}
use izel.Lexer.Reads.{chars-behind, bump-cons, bump-nil, Reads-length-le, Reads-eat_escape}

-- A text with a backslash before each quote and each backslash.
abbrev pub escape_text : ℕ → List ℕ → List ℕ
escape_text quote [] = []
escape_text quote (c ∷ cs) =
    if c == quote || c == b'\\' then b'\\' ∷ c ∷ escape_text quote cs else c ∷ escape_text quote cs

-- The quotes of the three literals.
abbrev pub IsQuote : ℕ → Type 0
IsQuote quote = (quote ≡ b'"') ⊎ (quote ≡ b'`')

-- An escaped quote or backslash is one character behind the backslash.
eat_escape_one :
    (quote c : ℕ) (cs : List ℕ) (s : Cursor)
    → IsQuote quote
    → (c == quote || c == b'\\') ≡ true
    → s.chars ≡ c ∷ cs
    → eat_escape s ≡ advance s
unfolding eat_escape eat_escape_of bump
eat_escape_one quote c cs s q h e = ground arith

abbrev EndsAt : List ℕ → Bool × Cursor → Type 0
EndsAt rest r = (r.0 ≡ true) × (r.1.chars ≡ rest)

pub quoted_loop-close :
    (fuel quote : ℕ) (cs : List ℕ) (s : Cursor)
    → s.chars ≡ quote ∷ cs
    → quoted_loop (suc fuel) quote s ≡ (true, advance s)
unfolding quoted_loop
quoted_loop-close fuel quote cs s e = ground (arith, bump-cons s e, ==_refl quote)

pub quoted_loop-plain :
    (fuel quote c : ℕ) (cs : List ℕ) (s : Cursor)
    → s.chars ≡ c ∷ cs
    → (c == quote || c == b'\\') ≡ false
    → quoted_loop (suc fuel) quote s ≡ quoted_loop fuel quote (advance s)
unfolding quoted_loop
quoted_loop-plain fuel quote c cs s e h = ground (arith, bump-cons s e)

pub quoted_loop-backslash :
    (fuel quote : ℕ) (cs : List ℕ) (s : Cursor)
    → s.chars ≡ b'\\' ∷ cs
    → (b'\\' == quote) ≡ false
    → quoted_loop (suc fuel) quote s ≡ quoted_loop fuel quote (eat_escape (advance s))
unfolding quoted_loop
quoted_loop-backslash fuel quote cs s e h = ground (arith, bump-cons s e)

module _ (quote : ℕ) (q : IsQuote quote) where
  quoted_loop-escape_text :
      (fuel : ℕ) (text rest : List ℕ) (s : Cursor)
      → s.chars ≡ escape_text quote text ++ (quote ∷ rest)
      → length s.chars < fuel
      → EndsAt rest (quoted_loop fuel quote s)
  quoted_loop-escape_text zero text rest s e h = absurd (omega arith)
  quoted_loop-escape_text (suc fuel) [] rest s e h =
      rw (quoted_loop-close fuel quote rest s e) (refl, chars-behind s e)
  quoted_loop-escape_text (suc fuel) (c ∷ cs) rest s e h =
      elim (Bool-cases (c == quote || c == b'\\')) [
        | inl special ↦
            let behind = escape_text quote cs ++ (quote ∷ rest) in
            let e' : s.chars ≡ b'\\' ∷ c ∷ behind = e ∙ rw special in
            let t = advance s in
            let et : t.chars ≡ c ∷ behind = chars-behind s e' in
            let u = advance t in
            let eu : u.chars ≡ behind = chars-behind t et in
            let differs : (b'\\' == quote) ≡ false = ground arith in
            rw
              (
                quoted_loop-backslash fuel quote _ s e' differs,
                eat_escape_one quote c _ t q special et,
              )
              (quoted_loop-escape_text fuel cs rest u eu
                (omega (arith, ap length e', ap length eu)))
        | inr plain ↦
            let e' : s.chars ≡ c ∷ (escape_text quote cs ++ (quote ∷ rest)) = e ∙ rw plain in
            let et = chars-behind s e' in
            rw (quoted_loop-plain fuel quote c _ s e' plain) (
              quoted_loop-escape_text fuel cs rest (advance s) et
                (omega (arith, ap length e', ap length et)))
      ]

  -- The loop ends right behind the quote that closes an escaped text.
  pub quoted-escape_text :
      (text rest : List ℕ) (s : Cursor)
      → s.chars ≡ escape_text quote text ++ (quote ∷ rest)
      → EndsAt rest (quoted quote s)
  unfolding quoted
  quoted-escape_text text rest s e =
      quoted_loop-escape_text (suc (length s.chars)) text rest s e (omega arith)

quoted_loop_end :
    (fuel quote : ℕ) (cs : List ℕ) (s : Cursor)
    → s.chars ≡ cs
    → length cs < fuel
    → (quoted_loop fuel quote s).0 ≡ false
    → (quoted_loop fuel quote s).1.chars ≡ []
unfolding quoted_loop
quoted_loop_end zero quote cs s a h e = absurd (omega arith)
quoted_loop_end (suc fuel) quote [] s a h e = ground (arith, bump-nil s a)
quoted_loop_end (suc fuel) quote (c ∷ cs) s a h e =
    let t = advance s in
    let at : t.chars ≡ cs = chars-behind s a in
    let u = eat_escape t in
    let shorter = Reads-length-le (Reads-eat_escape t) in
    ground (
      arith,
      bump-cons s a,
      λ (p : (quoted_loop fuel quote t).0 ≡ false).
          quoted_loop_end fuel quote t.chars t refl (omega (arith, ap length at)) p,
      λ (p : (quoted_loop fuel quote u).0 ≡ false).
          quoted_loop_end fuel quote u.chars u refl (omega (arith, ap length at)) p,
    )

-- A quoted literal is unterminated only at the end of the source.
pub quoted-end :
    (quote : ℕ) (s : Cursor) → (quoted quote s).0 ≡ false → (quoted quote s).1.chars ≡ []
unfolding quoted
quoted-end quote s e = quoted_loop_end (suc (length s.chars)) quote s.chars s refl (omega arith) e
