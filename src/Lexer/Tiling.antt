-- ===== src/Lexer/Tiling.antt =====
-- crates/izel_lexer/src/lexer.rs: `next_token` does not panic, takes at least one character until
-- the end, and the spans of the tokens tile the source.
use izel.Prelude.{
  ℕ, zero, suc, ◌+◌, ◌-◌, ◌^◌, ◌%◌, ◌≤◌, ◌<◌, ◌≡◌, refl, sym, ap, ◌∙◌, false, Option, none, some,
  List, [], ◌∷◌, ◌++◌, append_assoc, arith, length, length-append, Option-cases, inl, inr,
}
use izel.Span.{SourceId}
use izel.Lexer.Token.{TokenKind, Token, eof, is_eof_kind}
use izel.Lexer.Cursor.{CharTables, Cursor, str_len, advance, eat_while, pos_within}
use izel.Lexer.Ident.{is_ident_continue, lex_ident_or_keyword, ident_kind}
use izel.Lexer.NextToken.{
  Lexer, new, pos, make_span, sigil, eat_comment, lex_other, lex_first, next_kind, next_token,
  tokens_loop, tokens,
}
use izel.Lexer.Reads.{
  Reads, stay, step, Reads-trans, Reads-eat_while, Reads-Splits, Reads-IsValid, IsValid,
  is_eof-cons, bump-cons, chars-advance, is_eof-nil,
}
use izel.Lexer.Forward.{
  Yields, ident_kind-Yields, lex_number-Lexes, lex_string-Lexes, lex_char-Lexes,
  lex_interpolated_string-Lexes, sigil-YieldsIfAny, eat_comment-ReadsIfAny,
}
use izel.Lexer.Slices.{eat_ident_text_lem, str_len-append}

Yields-trans :
    {s t : Cursor} (o : Option (TokenKind × Cursor)) → Reads s t → Yields t o → Yields s o
Yields-trans none r y = y
Yields-trans (some read) r y = (y.0, Reads-trans r y.1)

-- What a call of `next_kind` before the end of the source gives: a kind other than `Eof`, and a
-- text of at least one character that is taken off the characters ahead.
pub record IsNext (s : Cursor) (o : Option (TokenKind × Cursor)) : Type 0 where
  pub kind : TokenKind
  pub text : List ℕ
  pub after : Cursor
  pub result : o ≡ some (kind, after)
  pub splits : s.chars ≡ text ++ after.chars
  pub reads : Reads s after
  pub not_empty : 1 ≤ length text
  pub not_eof : is_eof_kind kind ≡ false

-- The tokens, in order, cover the text, which begins at the byte offset `start`: each has a text of
-- its own, and its span runs from the start to the end of that text, as 32-bit offsets.
abbrev pub Tiles : SourceId → ℕ → List ℕ → List Token → Type 0
Tiles id start ahead [] = ahead ≡ []
Tiles id start ahead (t ∷ ts) =
    (text : List ℕ) × (rest : List ℕ) × (ahead ≡ text ++ rest)
    × (1 ≤ length text)
    × (is_eof_kind t.kind ≡ false)
    × (t.span.lo ≡ start % 2 ^ 32)
    × (t.span.hi ≡ (start + str_len text) % 2 ^ 32)
    × (t.span.source_id ≡ id)
    × Tiles id (start + str_len text) rest ts

-- The invariant of the lexer's state: the cursor stands in the source, behind the characters read,
-- and counts the bytes that are left.
pub record IsLexer (l : Lexer) : Type 0 where
  pub behind : List ℕ
  pub splits : l.source ≡ behind ++ l.cursor.chars
  pub valid : IsValid l.cursor

pos_lem :
    (pre : List ℕ) (source : List ℕ) (s : Cursor)
    → source ≡ pre ++ s.chars
    → pos source s ≡ str_len pre % 2 ^ 32
unfolding pos pos_within
pos_lem pre source s e =
    let whole = ap str_len e ∙ str_len-append pre s.chars in
    let offset : str_len source - str_len s.chars ≡ str_len pre = omega arith in rw offset

module _ (tables : CharTables) where
  lex_ident_or_keyword-Yields :
      (pre : List ℕ) (c : ℕ) (s : Cursor) (source : List ℕ)
      → source ≡ pre ++ (c ∷ s.chars)
      → Yields s (lex_ident_or_keyword tables source c s)
  unfolding lex_ident_or_keyword
  lex_ident_or_keyword-Yields pre c s source e =
      let (read, splits, whole) = eat_ident_text_lem tables pre c s source e in
      let t = eat_while (is_ident_continue tables) s in
      rw whole (
        Yields-trans (ident_kind (c ∷ read) t) (Reads-eat_while (is_ident_continue tables) s)
          (ident_kind-Yields (c ∷ read) t))

  lex_other-Yields :
      (pre : List ℕ) (c : ℕ) (s : Cursor) (source : List ℕ)
      → source ≡ pre ++ (c ∷ s.chars)
      → Yields s (lex_other tables source c s)
  unfolding lex_other
  lex_other-Yields pre c s source e = ground (
    arith,
    stay {s = s},
    lex_ident_or_keyword-Yields pre c s source e,
    lex_number-Lexes c s,
    lex_string-Lexes s,
    lex_char-Lexes s,
    lex_interpolated_string-Lexes s,
  )

  lex_first-Yields :
      (pre : List ℕ) (c : ℕ) (s : Cursor) (source : List ℕ)
      → source ≡ pre ++ (c ∷ s.chars)
      → Yields s (lex_first tables source c s)
  unfolding lex_first
  lex_first-Yields pre c s source e =
      let other = lex_other-Yields pre c s source e in
      elim (Option-cases (sigil c s)) [
        | inl more ↦ rw more other
        | inr (read, found) ↦ rw found (rw found at (sigil-YieldsIfAny c s))
      ]

  -- Before the end of the source: no panic, no `Eof`, and at least one character is taken.
  next_kind-Yields :
      (pre : List ℕ) (c : ℕ) (cs : List ℕ) (s : Cursor) (source : List ℕ)
      → source ≡ pre ++ s.chars
      → s.chars ≡ c ∷ cs
      → Yields (advance s) (next_kind tables source s)
  unfolding next_kind
  next_kind-Yields pre c cs s source e h =
      let t = advance s in
      let blanks = Reads-eat_while tables.is_whitespace t in
      let ahead = e ∙ ap (λ text. pre ++ text) (chars-advance s h) in
      let lexed = lex_first-Yields pre c t source ahead in
      let comment_read = eat_comment-ReadsIfAny s in
      rw (is_eof-cons s h) (elim (Option-cases (eat_comment s)) [
        | inl plain ↦ rw (plain, bump-cons s h) (ground (arith, blanks, lexed))
        | inr (u, found) ↦
            rw found
              (let read : Reads t u = rw found at comment_read in ground (arith, blanks, read))
      ])

  IsNext-of :
      (c : ℕ) (s : Cursor) (o : Option (TokenKind × Cursor))
      → s.chars ≡ c ∷ (advance s).chars
      → Yields (advance s) o
      → IsNext s o
  IsNext-of c s none e y = absurd y
  IsNext-of c s (some (k, after)) e y =
      let (read, splits) = Reads-Splits y.1 in
      record {
        kind = k;
        text = c ∷ read;
        after = after;
        result = refl;
        splits = e ∙ ap (λ cs. c ∷ cs) splits;
        reads = step y.1;
        not_empty = omega arith;
        not_eof = y.0;
      }

  -- `next_token` before the end of the source.
  pub next_kind-IsNext :
      (pre : List ℕ) (c : ℕ) (cs : List ℕ) (s : Cursor) (source : List ℕ)
      → source ≡ pre ++ s.chars
      → s.chars ≡ c ∷ cs
      → IsNext s (next_kind tables source s)
  next_kind-IsNext pre c cs s source e h =
      IsNext-of c s (next_kind tables source s) (chars-advance s h)
        (next_kind-Yields pre c cs s source e h)

  next_kind-nil :
      (source : List ℕ) (s : Cursor) → s.chars ≡ [] → next_kind tables source s ≡ some (eof, s)
  unfolding next_kind
  next_kind-nil source s e = rw (is_eof-nil s e)

  -- A call that finds the cursor at `after` moves the lexer there.
  next_token-eq :
      (l : Lexer) (kind : TokenKind) (after : Cursor) {t : Token} {m : Lexer}
      → next_kind tables l.source l.cursor ≡ some (kind, after)
      → next_token tables l ≡ some (t, m)
      → m ≡ record l { cursor = after }
  unfolding next_token
  next_token-eq l k after h e = ground arith

  next_token-IsLexer_of :
      (ahead : List ℕ) (l : Lexer) {t : Token} {m : Lexer}
      → l.cursor.chars ≡ ahead
      → IsLexer l
      → next_token tables l ≡ some (t, m)
      → IsLexer m
  next_token-IsLexer_of [] l a i e =
      rw (next_token-eq l _ _ (next_kind-nil l.source l.cursor a) e) i
  next_token-IsLexer_of (c ∷ cs) l a i e =
      let n = next_kind-IsNext i.behind c cs l.cursor l.source i.splits a in
      rw (next_token-eq l n.kind n.after n.result e) (record {
        behind = i.behind ++ n.text;
        splits =
            i.splits
            ∙ ap (λ r. i.behind ++ r) n.splits
            ∙ sym (append_assoc i.behind n.text n.after.chars);
        valid = Reads-IsValid n.reads i.valid;
      })

  -- Every call of `next_token` keeps the state of the lexer well formed: the characters ahead are a
  -- rest of the source, and `len_remaining` is their length in bytes.
  pub next_token-IsLexer :
      (l m : Lexer) (t : Token) → IsLexer l → next_token tables l ≡ some (t, m) → IsLexer m
  next_token-IsLexer l m t i e = next_token-IsLexer_of l.cursor.chars l refl i e

  tokens_loop-Tiles :
      (fuel : ℕ) (pre ahead : List ℕ) (l : Lexer)
      → l.source ≡ pre ++ l.cursor.chars
      → l.cursor.chars ≡ ahead
      → length ahead < fuel
      → (ts : List Token) × (tokens_loop tables fuel l ≡ some ts)
        × Tiles l.source_id (str_len pre) ahead ts
  unfolding tokens_loop next_token
  tokens_loop-Tiles zero pre ahead l e a h = absurd (omega arith)
  tokens_loop-Tiles (suc fuel) pre [] l e a h = ([], rw (next_kind-nil l.source l.cursor a), refl)
  tokens_loop-Tiles (suc fuel) pre (c ∷ cs) l e a h =
      let n = next_kind-IsNext pre c cs l.cursor l.source e a in
      let m : Lexer = record l { cursor = n.after } in
      let e' : m.source ≡ (pre ++ n.text) ++ m.cursor.chars =
        e ∙ ap (λ t. pre ++ t) n.splits ∙ sym (append_assoc pre n.text n.after.chars) in
      let lengths = ap length (sym a ∙ n.splits) ∙ length-append n.text n.after.chars in
      let shorter : length m.cursor.chars < fuel = omega (arith, n.not_empty) in
      let (ts, loop, tiles) =
        tokens_loop-Tiles fuel (pre ++ n.text) m.cursor.chars m e' refl shorter in
      let t : Token = record {
        kind = n.kind;
        span = make_span l.source_id (pos l.source l.cursor) (pos l.source n.after);
      } in
      let ends = str_len-append pre n.text in
      let lo : t.span.lo ≡ str_len pre % 2 ^ 32 =
        unfold make_span in pos_lem pre l.source l.cursor e in
      let hi : t.span.hi ≡ (str_len pre + str_len n.text) % 2 ^ 32 =
        unfold make_span in
        pos_lem (pre ++ n.text) l.source n.after e' ∙ ap (λ k. k % 2 ^ 32) ends in
      (
        t ∷ ts,
        rw (n.result, n.not_eof, loop),
        (
          n.text,
          n.after.chars,
          sym a ∙ n.splits,
          n.not_empty,
          n.not_eof,
          lo,
          hi,
          unfold make_span in refl,
          rw (← ends) tiles,
        ),
      )

  -- For every source, the loop that calls `next_token` until `Eof` ends, without a panic, and its
  -- tokens tile the source from offset 0 to the end: each token has a text of one character or
  -- more, the texts in order are the source, and each span holds the source's identifier and the
  -- byte offsets at which its text starts and ends, modulo 2^32.
  pub tokens-Tiles :
      (source : List ℕ) (id : SourceId)
      → (ts : List Token) × (tokens tables source id ≡ some ts) × Tiles id 0 source ts
  unfolding tokens new
  tokens-Tiles source id =
      unfold str_len in
      tokens_loop-Tiles (suc (length source)) [] source (new source id) refl refl (omega arith)
