-- ===== src/Fmt/Ink.antt =====
-- crates/izel_fmt/src/formatter.rs: what formatting a tree does to the characters that are no
-- whitespace.
use izel.Prelude.{
  ℕ, zero, suc, ◌≡◌, refl, ap, ◌∙◌, arith, Bool, true, false, Bool-cases, inl, inr, not, ◌&&◌, ◌||◌,
  Option, some, [], ◌∷◌, ◌++◌, append-nil, ltb, if◌then◌else◌, ◌>>=◌, Text,
}
use izel.Lexer.Cursor.{CharTables}
use izel.Lexer.Token.{TokenKind, Token, whitespace, is_eof_kind}
use izel.Lexer.TokenText.{IsUnicode}
use izel.Parser.Tree.{SyntaxNode, Children, node, no_children, node_then, token_then}
use izel.Parser.Kinds.{kind_in}
use izel.Fmt.{
  Formatter, ends_with, newline, space, spaces, dedent, push_newline, push_blank_line, push_space,
  push_str, is_blank, text_of, space_before, space_after, put_token, put_comment,
}

module _ (tables : CharTables) where
  open tables use {is_whitespace}

  -- The characters of a text that are no whitespace.
  unfoldable pub ink : Text → Text
  ink [] = []
  ink (c ∷ cs) = let rest = ink cs in if is_whitespace c then rest else c ∷ rest

  -- A result to which the characters of `t` are added, whitespace apart.
  pub record Wrote (f : Formatter) (t : Text) (o : Option Formatter) : Type 0 where
    pub result : Formatter
    pub returns : o ≡ some result
    pub inked : ink result.output ≡ ink f.output ++ ink t

module _ (source : Text) where
  -- The text of a token that is neither whitespace nor the end.
  unfoldable pub token_text : Token → Option Text
  token_text t = elim (kind_in (whitespace ∷ []) t.kind) [
    | true ↦ some []
    | false ↦ text_of source t >>= λ text. some (if is_eof_kind t.kind then [] else text)
  ]

  -- The texts of the tokens of a tree in order, where each is a slice of the source.
  unfoldable mutual
    pub texts : Children → Option Text
    texts no_children = some []
    texts (node_then n cs) = node_text n >>= λ s. texts cs >>= λ t. some (s ++ t)
    texts (token_then t cs) = token_text t >>= λ s. texts cs >>= λ u. some (s ++ u)

    pub node_text : SyntaxNode → Option Text
    node_text (node k cs) = texts cs

module _ (tables : CharTables) (u : IsUnicode tables) where
  pub ink-append : (s t : Text) → ink tables (s ++ t) ≡ ink tables s ++ ink tables t
  unfolding ink
  ink-append [] t = refl
  ink-append (c ∷ s) t = elim (Bool-cases (tables.is_whitespace c)) [
    | inl is ↦ rw is (ink-append s t)
    | inr is_not ↦ rw is_not (ap (λ (r : Text). c ∷ r) (ink-append s t))
  ]

  pub newline_blank : ink tables newline ≡ []
  unfolding ink
  newline_blank = rw (u.ascii_whitespace 10 (omega arith)) refl

  space_blank : ink tables space ≡ []
  unfolding ink
  space_blank = rw (u.ascii_whitespace 32 (omega arith)) refl

  spaces_blank : (n : ℕ) → ink tables (spaces n) ≡ []
  unfolding ink spaces
  spaces_blank zero = refl
  spaces_blank (suc n) = rw (u.ascii_whitespace 32 (omega arith)) (spaces_blank n)

  -- Whitespace behind an output.
  blank_behind : (s t : Text) → ink tables t ≡ [] → ink tables (s ++ t) ≡ ink tables s
  blank_behind s t e = ink-append s t ∙ ap (λ r. ink tables s ++ r) e ∙ append-nil (ink tables s)

  pub push_newline-ink : (f : Formatter) → ink tables (push_newline f).output ≡ ink tables f.output
  unfolding push_newline
  push_newline-ink f = elim (Bool-cases (ends_with newline f.output)) [
    | inl is ↦ rw is refl
    | inr is_not ↦ rw is_not (blank_behind f.output newline newline_blank)
  ]

  pub push_space-ink : (f : Formatter) → ink tables (push_space f).output ≡ ink tables f.output
  unfolding push_space
  push_space-ink f = elim (Bool-cases (ends_with space f.output || ends_with newline f.output)) [
    | inl is ↦ rw is refl
    | inr is_not ↦ rw is_not (blank_behind f.output space space_blank)
  ]

  pub push_blank_line-ink :
      (f : Formatter) → ink tables (push_blank_line f).output ≡ ink tables f.output
  unfolding push_blank_line
  push_blank_line-ink f = elim (Bool-cases (ends_with (10 ∷ 10 ∷ []) f.output)) [
    | inl is ↦ rw is refl
    | inr is_not ↦ rw is_not (elim (Bool-cases (ends_with newline f.output)) [
      | inl one ↦ rw one (blank_behind f.output newline newline_blank)
      | inr none_here ↦ rw none_here (
          blank_behind (f.output ++ newline) newline newline_blank
          ∙ blank_behind f.output newline newline_blank)
    ])
  ]

  pub push_str-ink :
      (s : Text) (f : Formatter)
      → ink tables (push_str tables s f).output ≡ ink tables f.output ++ ink tables s
  unfolding push_str
  push_str-ink s f = elim (Bool-cases (f.needs_indent && not (is_blank tables s))) [
    | inl is ↦ rw is (
        ink-append (f.output ++ spaces f.indent_level) s
        ∙ ap (λ r. r ++ ink tables s)
            (blank_behind f.output (spaces f.indent_level) (spaces_blank f.indent_level)))
    | inr is_not ↦ rw is_not (ink-append f.output s)
  ]

  pub dedent-output : (f : Formatter) → (dedent f).output ≡ f.output
  unfolding dedent
  dedent-output f = elim (Bool-cases (ltb 0 f.indent_level)) [
    | inl is ↦ rw is refl
    | inr is_not ↦ rw is_not refl
  ]

  -- A step of the formatter that is made or not.
  pub if-ink :
      (b : Bool) (f g h : Formatter)
      → ink tables f.output ≡ ink tables h.output
      → ink tables g.output ≡ ink tables h.output
      → ink tables (if b then f else g).output ≡ ink tables h.output
  if-ink true f g h d e = d
  if-ink false f g h d e = e

  pub put_token-ink :
      (k : TokenKind) (text : Text) (f : Formatter)
      → ink tables (put_token tables k text f).output ≡ ink tables f.output ++ ink tables text
  put_token-ink k text f =
      let before = if space_before k then push_space f else f in
      let put = push_str tables text before in
      if-ink (space_after k) (push_space put) put put (push_space-ink put) refl
      ∙ push_str-ink text before
      ∙ ap (λ r. r ++ ink tables text)
          (if-ink (space_before k) (push_space f) f f (push_space-ink f) refl)

  pub put_comment-ink :
      (text : Text) (f : Formatter)
      → ink tables (put_comment tables text f).output ≡ ink tables f.output ++ ink tables text
  put_comment-ink text f = push_newline-ink (push_str tables text f) ∙ push_str-ink text f
