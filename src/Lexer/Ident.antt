-- ===== src/Lexer/Ident.antt =====
-- crates/izel_lexer/src/lexer.rs: identifiers, keywords and the prefixes of raw and byte literals.
-- A slice of the source that does not lie on character boundaries is a panic, and so is `unwrap`
-- of `None`: `none` stands for it here.
use izel.Prelude.{
  codes, text_eq, ℕ, zero, suc, ◌-◌, Bool, ◌&&◌, ◌||◌, Option, none, some, List, [], ◌∷◌, ltb, ◌==◌,
  if◌then◌else◌, ◌>>=◌,
}
use izel.Lexer.Token.{
  TokenKind, ident, forge, shape, scroll, weave, ward, macro, echo, branch, given, else_kw, loop,
  each, while, break, next_kw, give, let_kw, raw, bridge, flow, tide, zone, dual, seek, catch, draw,
  open_kw, hidden, pkg, pure, sole, self_kw, self_type, true_kw, false_kw, nil, as_kw, in_kw, of_kw,
  is_kw, not_kw, and_kw, or_kw, comptime, static, extern, type_kw, alias, impl, for_kw, bind,
}
use izel.Lexer.Cursor.{CharTables, Cursor, len_utf8, first, bump, advance, eat_while, pos_within}
use izel.Lexer.Literals.{lex_raw_string, lex_byte_string, lex_byte_literal}

-- The arms of the `match` on the text of an identifier, in the order of the source.
abbrev pub keywords : List (List ℕ × TokenKind)
keywords =
    (codes "forge", forge)
    ∷ (codes "shape", shape)
    ∷ (codes "scroll", scroll)
    ∷ (codes "weave", weave)
    ∷ (codes "ward", ward)
    ∷ (codes "macro", macro)
    ∷ (codes "echo", echo)
    ∷ (codes "branch", branch)
    ∷ (codes "given", given)
    ∷ (codes "else", else_kw)
    ∷ (codes "loop", loop)
    ∷ (codes "each", each)
    ∷ (codes "while", while)
    ∷ (codes "break", break)
    ∷ (codes "next", next_kw)
    ∷ (codes "give", give)
    ∷ (codes "let", let_kw)
    ∷ (codes "raw", raw)
    ∷ (codes "bridge", bridge)
    ∷ (codes "flow", flow)
    ∷ (codes "tide", tide)
    ∷ (codes "zone", zone)
    ∷ (codes "dual", dual)
    ∷ (codes "seek", seek)
    ∷ (codes "catch", catch)
    ∷ (codes "draw", draw)
    ∷ (codes "open", open_kw)
    ∷ (codes "hidden", hidden)
    ∷ (codes "pkg", pkg)
    ∷ (codes "pure", pure)
    ∷ (codes "sole", sole)
    ∷ (codes "self", self_kw)
    ∷ (codes "Self", self_type)
    ∷ (codes "true", true_kw)
    ∷ (codes "false", false_kw)
    ∷ (codes "nil", nil)
    ∷ (codes "as", as_kw)
    ∷ (codes "in", in_kw)
    ∷ (codes "of", of_kw)
    ∷ (codes "is", is_kw)
    ∷ (codes "not", not_kw)
    ∷ (codes "and", and_kw)
    ∷ (codes "or", or_kw)
    ∷ (codes "comptime", comptime)
    ∷ (codes "static", static)
    ∷ (codes "extern", extern)
    ∷ (codes "type", type_kw)
    ∷ (codes "alias", alias)
    ∷ (codes "impl", impl)
    ∷ (codes "for", for_kw)
    ∷ (codes "bind", bind)
    ∷ []

unfoldable pub keyword_in : List (List ℕ × TokenKind) → List ℕ → TokenKind
keyword_in [] text = ident
keyword_in ((word, kind) ∷ rest) text = if text_eq text word then kind else keyword_in rest text

unfoldable pub keyword : List ℕ → TokenKind
unfolding keyword_in
keyword text = keyword_in keywords text

-- `&source[start..]` and `&source[..end]`, at byte offsets
unfoldable pub skip_bytes : ℕ → List ℕ → Option (List ℕ)
skip_bytes zero cs = some cs
skip_bytes (suc n) [] = none
skip_bytes (suc n) (c ∷ cs) =
    if ltb (suc n) (len_utf8 c) then none else skip_bytes (suc n - len_utf8 c) cs

unfoldable pub take_bytes : ℕ → List ℕ → Option (List ℕ)
take_bytes zero cs = some []
take_bytes (suc n) [] = none
take_bytes (suc n) (c ∷ cs) =
    if ltb (suc n) (len_utf8 c)
    then none
    else (take_bytes (suc n - len_utf8 c) cs >>= λ rest. some (c ∷ rest))

unfoldable pub slice : List ℕ → ℕ → ℕ → Option (List ℕ)
unfolding skip_bytes take_bytes
slice source start end =
    if ltb end start then none else skip_bytes start source >>= take_bytes (end - start)

-- The prefix test and the `match` of `lex_ident_or_keyword`, on the text that was read.
unfoldable pub ident_kind : List ℕ → Cursor → Option (TokenKind × Cursor)
ident_kind text s =
    if text_eq text (codes "r") && (first s == b'"' || first s == b'#')
    then some (lex_raw_string s)
    else if text_eq text (codes "b") && (first s == b'"' || first s == b'\'')
    then ((bump s).0 >>= λ next.
        some (if next == b'"' then lex_byte_string (advance s) else lex_byte_literal (advance s)))
    else some (keyword text, s)

module _ (tables : CharTables) where
  unfoldable pub is_ident_start : ℕ → Bool
  is_ident_start c = tables.is_alphabetic c || c == b'_'

  unfoldable pub is_ident_continue : ℕ → Bool
  is_ident_continue c = tables.is_alphanumeric c || c == b'_'

  -- The offset and text of the identifier whose first character `c` is already read, and the cursor.
  unfoldable pub eat_ident_text : List ℕ → ℕ → Cursor → Option (ℕ × List ℕ × Cursor)
  eat_ident_text source c s =
      let start = pos_within source s - len_utf8 c in
      let t = eat_while is_ident_continue s in
      slice source start (pos_within source t) >>= λ text. some (start, text, t)

  unfoldable pub lex_ident_or_keyword : List ℕ → ℕ → Cursor → Option (TokenKind × Cursor)
  lex_ident_or_keyword source c s = eat_ident_text source c s >>= λ read. ident_kind read.1 read.2
