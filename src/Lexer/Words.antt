-- ===== src/Lexer/Words.antt =====
-- crates/izel_lexer/src/lexer.rs, `lex_ident_or_keyword`: the token of an identifier or keyword.
use izel.Prelude.{
  ℕ, zero, suc, ◌≡◌, refl, sym, ap, ◌∙◌, Bool, true, false, ◌&&◌, ◌||◌, not, none, some, List, [],
  ◌∷◌, ◌++◌, arith, ◌==◌, length, length-append, ◌≤◌,
}
use mathlib.Core.List.{append_cancel_right}
use izel.Lexer.Cursor.{CharTables, Cursor, first, advance, eat_while_loop, eat_while}
use izel.Lexer.Ident.{is_ident_start, is_ident_continue, ident_kind, lex_ident_or_keyword, keyword}
use izel.Lexer.NextToken.{sigil, lex_other, lex_first, next_kind}
use izel.Lexer.Reads.{is_eof-cons, is_eof-nil, first-cons, chars-behind, chars-advance}
use izel.Lexer.Slices.{eat_ident_text_lem}
use izel.Lexer.TokenText.{IsUnicode, Finds, next_kind-lex_first}

abbrev pub all : (ℕ → Bool) → List ℕ → Bool
all p [] = true
all p (c ∷ cs) = p c && all p cs

-- The text is over, or its first character fails the test.
abbrev pub stops : (ℕ → Bool) → List ℕ → Bool
stops p [] = true
stops p (c ∷ cs) = not (p c)

module _ (pred : ℕ → Bool) (rest : List ℕ) (stop : stops pred rest ≡ true) where
  eat_while_loop-stops :
      (fuel : ℕ) (s : Cursor) (cs : List ℕ)
      → cs ≡ rest
      → s.chars ≡ cs
      → eat_while_loop fuel pred s ≡ s
  unfolding eat_while_loop
  eat_while_loop-stops zero s cs e h = refl
  eat_while_loop-stops (suc fuel) s [] e h = ground (arith, is_eof-nil s h)
  eat_while_loop-stops (suc fuel) s (c ∷ cs) e h =
      let stop' : not (pred c) ≡ true = rw (← e) at stop in ground (arith, first-cons s h)

  eat_while_loop-all :
      (fuel : ℕ) (word : List ℕ) (s : Cursor)
      → s.chars ≡ word ++ rest
      → all pred word ≡ true
      → length word ≤ fuel
      → (eat_while_loop fuel pred s).chars ≡ rest
  unfolding eat_while_loop
  eat_while_loop-all fuel [] s e a h = rw (eat_while_loop-stops fuel s rest refl e) e
  eat_while_loop-all zero (c ∷ cs) s e a h = absurd (omega arith)
  eat_while_loop-all (suc fuel) (c ∷ cs) s e a h =
      let all_behind : all pred cs ≡ true = ground arith in
      let rec =
        eat_while_loop-all fuel cs (advance s) (chars-behind s e) all_behind (omega arith) in
      ground (arith, first-cons s e, is_eof-cons s e, rec)

  -- `eat_while` takes the longest run of characters that pass the test, and no more.
  pub eat_while-all :
      (word : List ℕ) (s : Cursor)
      → s.chars ≡ word ++ rest
      → all pred word ≡ true
      → (eat_while pred s).chars ≡ rest
  unfolding eat_while
  eat_while-all word s e a =
      eat_while_loop-all (length s.chars) word s e a
        (omega (arith, ap length e, length-append word rest))

sigil-none :
    (tables : CharTables) (u : IsUnicode tables) (c : ℕ) (s : Cursor)
    → is_ident_start tables c ≡ true
    → sigil c s ≡ none
unfolding sigil is_ident_start
sigil-none tables u c s h = ground (arith, u.ascii_alphabetic c)

start-ne-slash :
    (tables : CharTables) (u : IsUnicode tables) (c : ℕ)
    → is_ident_start tables c ≡ true
    → (c == b'/') ≡ false
unfolding is_ident_start
start-ne-slash tables u c h = ground (arith, u.ascii_alphabetic c)

-- A quote or a hash, which makes a literal of a prefix `r` or `b`.
abbrev pub is_literal_mark : ℕ → Bool
is_literal_mark c = c == b'"' || c == b'\'' || c == b'#'

first-stops :
    (rest : List ℕ) (s : Cursor)
    → s.chars ≡ rest
    → stops is_literal_mark rest ≡ true
    → is_literal_mark (first s) ≡ false
unfolding first
first-stops [] s e h = ground arith
first-stops (c ∷ cs) s e h = ground arith

ident_kind-keyword :
    (text : List ℕ) (s : Cursor)
    → is_literal_mark (first s) ≡ false
    → ident_kind text s ≡ some (keyword text, s)
unfolding ident_kind
ident_kind-keyword text s h = ground arith

module _ (tables : CharTables) where
  lex_ident_or_keyword-word :
      (pre : List ℕ) (w : ℕ) (ws rest source : List ℕ) (s : Cursor)
      → source ≡ pre ++ (w ∷ s.chars)
      → s.chars ≡ ws ++ rest
      → all (is_ident_continue tables) ws ≡ true
      → stops (is_ident_continue tables) rest ≡ true
      → stops is_literal_mark rest ≡ true
      → Finds (keyword (w ∷ ws)) rest (lex_ident_or_keyword tables source w s)
  unfolding lex_ident_or_keyword
  lex_ident_or_keyword-word pre w ws rest source s whole e a stop mark =
      let t = eat_while (is_ident_continue tables) s in
      let (read, splits, text) = eat_ident_text_lem tables pre w s source whole in
      let et = eat_while-all (is_ident_continue tables) rest stop ws s e a in
      let same : read ≡ ws =
        append_cancel_right read ws rest (ap (λ r. read ++ r) (sym et) ∙ sym splits ∙ e) in
      let kind = ident_kind-keyword (w ∷ read) t (first-stops rest t et mark) in
      rw (text, kind) (ap (λ r. keyword (w ∷ r)) same, et)

module _ (tables : CharTables) (u : IsUnicode tables) where
  -- A word (a start character and characters that continue it) in front of a rest that does not
  -- continue it, and that begins with no quote and no hash, is one token. Its kind is what the
  -- table of keywords gives for exactly that word.
  pub next_kind-word :
      (pre : List ℕ) (w : ℕ) (ws rest source : List ℕ) (s : Cursor)
      → source ≡ pre ++ s.chars
      → s.chars ≡ w ∷ (ws ++ rest)
      → is_ident_start tables w ≡ true
      → tables.is_whitespace w ≡ false
      → all (is_ident_continue tables) ws ≡ true
      → stops (is_ident_continue tables) rest ≡ true
      → stops is_literal_mark rest ≡ true
      → Finds (keyword (w ∷ ws)) rest (next_kind tables source s)
  unfolding lex_first lex_other
  next_kind-word pre w ws rest source s whole e start blank a stop mark =
      let t = advance s in
      let found =
        lex_ident_or_keyword-word tables pre w ws rest source t
          (whole ∙ ap (λ cs. pre ++ cs) (chars-advance s e)) (chars-behind s e) a stop mark in
      let none_of = sigil-none tables u w t start in
      let no_slash = start-ne-slash tables u w start in
      rw (next_kind-lex_first tables w _ source s e blank no_slash, none_of, start) found
