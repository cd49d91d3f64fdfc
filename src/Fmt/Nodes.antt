-- ===== src/Fmt/Nodes.antt =====
-- crates/izel_fmt/src/formatter.rs: formatting a tree writes the texts of its tokens, and only
-- whitespace besides.
use izel.Prelude.{
  ◌≡◌, refl, ap, sym, ◌∙◌, arith, Bool, true, false, Bool-cases, inl, inr, Option, none, some,
  from_some, [], ◌∷◌, ◌++◌, append_assoc, append-nil, not, ◌&&◌, if◌then◌else◌, ◌>>=◌, Text,
}
use izel.Lexer.Cursor.{CharTables}
use izel.Lexer.Token.{
  TokenKind, Token, whitespace, comment, comma, semicolon, open_brace, close_brace, is_eof_kind,
}
use izel.Lexer.TokenText.{IsUnicode}
use izel.Parser.Tree.{SyntaxNode, Children, kind_of_node, node, no_children, node_then, token_then}
use izel.Parser.Kinds.{kind_in}
use izel.Fmt.{
  Formatter, ends_with, newline, indent, dedent, push_newline, push_space, text_of, put_token,
  put_comment, format_token, format_element,
}
use izel.Fmt.Format.{
  Layout, file, body, plain, layout, after_statement, after_item, is_statement, close_line,
  body_token, format_node, format_file, format_body, format_plain,
}
use izel.Fmt.Ink.{
  push_newline-ink, push_space-ink, push_blank_line-ink, dedent-output, put_token-ink,
  put_comment-ink, if-ink, ink-append, ink, token_text, texts, node_text, Wrote,
}

-- An `Option` chain that returns.
both :
    (o p : Option Text) (t : Text)
    → (o >>= λ a. p >>= λ b. some (a ++ b)) ≡ some t
    → (a : Text) × (b : Text) × (o ≡ some a) × (p ≡ some b) × (t ≡ a ++ b)
both none p t h = absurd (ground arith)
both (some a) none t h = absurd (ground arith)
both (some a) (some b) t h = (a, b, refl, refl, ap (from_some []) (sym h))

mapped :
    {A : Type 0} (o : Option A) (f : A → Text) (t : Text)
    → (o >>= λ a. some (f a)) ≡ some t
    → (a : A) × (o ≡ some a) × (t ≡ f a)
mapped none f t h = absurd (ground arith)
mapped (some a) f t h = (a, refl, ap (from_some []) (sym h))

-- The kinds that are laid out are no whitespace.
not_blank :
    (k : TokenKind)
    → kind_in (whitespace ∷ []) k ≡ true
    → (kind_in (open_brace ∷ []) k ≡ false)
      × (kind_in (close_brace ∷ []) k ≡ false)
      × (kind_in (comma ∷ semicolon ∷ []) k ≡ false)
unfolding kind_in
not_blank whitespace h = (refl, refl, refl)
not_blank _ h = absurd (ground arith)

comment_not_end : (k : TokenKind) → kind_in (comment ∷ []) k ≡ true → is_eof_kind k ≡ false
unfolding kind_in
comment_not_end comment h = refl
comment_not_end _ h = absurd (ground arith)

module _ (tables : CharTables) (u : IsUnicode tables) (source : Text) where
  wrote :
      (f g : Formatter) (t : Text)
      → ink tables g.output ≡ ink tables f.output ++ ink tables t
      → Wrote tables f t (some g)
  wrote f g t e = record { result = g; returns = refl; inked = e }

  elim-Wrote :
      {f : Formatter} {t : Text} (b : Bool) (x y : Option Formatter)
      → (b ≡ true → Wrote tables f t x)
      → (b ≡ false → Wrote tables f t y)
      → Wrote tables f t (elim b [ true ↦ x | false ↦ y ])
  elim-Wrote true x y p q = p refl
  elim-Wrote false x y p q = q refl

  -- From an output with the same characters.
  Wrote-from :
      {f g : Formatter} {t : Text} {o : Option Formatter}
      → ink tables g.output ≡ ink tables f.output
      → Wrote tables g t o
      → Wrote tables f t o
  Wrote-from {t = t} e w = record {
    result = w.result;
    returns = w.returns;
    inked = w.inked ∙ ap (λ r. r ++ ink tables t) e;
  }

  -- A step that writes whitespace at most follows.
  Wrote-then :
      {f : Formatter} {t : Text} (o : Option Formatter) (k : Formatter → Formatter)
      → ((g : Formatter) → ink tables (k g).output ≡ ink tables g.output)
      → Wrote tables f t o
      → Wrote tables f t (o >>= λ g. some (k g))
  Wrote-then o k e w = record {
    result = k w.result;
    returns = rw w.returns refl;
    inked = e w.result ∙ w.inked;
  }

  Wrote-bind :
      {f : Formatter} {s t : Text} (o : Option Formatter) (k : Formatter → Option Formatter)
      → Wrote tables f s o
      → ((g : Formatter) → Wrote tables g t (k g))
      → Wrote tables f (s ++ t) (o >>= k)
  Wrote-bind {f} {s} {t} o k w q =
      let w' = q w.result in
      record {
        result = w'.result;
        returns = rw w.returns w'.returns;
        inked =
            w'.inked
            ∙ ap (λ r. r ++ ink tables t) w.inked
            ∙ append_assoc (ink tables f.output) (ink tables s) (ink tables t)
            ∙ ap (λ r. ink tables f.output ++ r) (sym (ink-append tables u s t));
      }

  format_token-Wrote :
      (t : Token) (s : Text) (f : Formatter)
      → (text_of source t >>= λ text. some (if is_eof_kind t.kind then [] else text)) ≡ some s
      → Wrote tables f s (format_token tables source t f)
  unfolding format_token ink
  format_token-Wrote t s f h =
      let (text, e, d) =
        mapped (text_of source t) (λ text. if is_eof_kind t.kind then [] else text) s h in
      rw (e, d)
        (elim (Bool-cases (is_eof_kind t.kind)) [
          | inl is ↦ rw is (wrote f f [] (sym (append-nil (ink tables f.output))))
          | inr is_not ↦
              rw is_not (
                wrote f (put_token tables t.kind text f) text
                  (put_token-ink tables u t.kind text f))
        ])

  abbrev shown : Token → Option Text
  shown t = text_of source t >>= λ text. some (if is_eof_kind t.kind then [] else text)

  blank_text : (t : Token) → kind_in (whitespace ∷ []) t.kind ≡ true → token_text source t ≡ some []
  unfolding token_text
  blank_text t e = rw (e, token_text) refl

  shown_text :
      (t : Token) → kind_in (whitespace ∷ []) t.kind ≡ false → token_text source t ≡ shown t
  unfolding token_text
  shown_text t e = rw (e, token_text) refl

  -- A token of a kind that is laid out.
  laid_out :
      (t : Token) (s : Text)
      → token_text source t ≡ some s
      → (kind_in (whitespace ∷ []) t.kind ≡ true → ⊥)
      → shown t ≡ some s
  laid_out t s h seen = elim (Bool-cases (kind_in (whitespace ∷ []) t.kind)) [
    | inl is ↦ absurd (seen is)
    | inr is_not ↦ sym (shown_text t is_not) ∙ h
  ]

  comment-Wrote :
      (t : Token) (s : Text) (f : Formatter)
      → kind_in (comment ∷ []) t.kind ≡ true
      → shown t ≡ some s
      → Wrote tables f s (text_of source t >>= λ text. some (put_comment tables text f))
  comment-Wrote t s f is h =
      let (text, e, d) =
        mapped (text_of source t) (λ text. if is_eof_kind t.kind then [] else text) s h in
      let same : s ≡ text = d ∙ rw (comment_not_end t.kind is) refl in
      rw (e, same) (wrote f (put_comment tables text f) text (put_comment-ink tables u text f))

  format_element-Wrote :
      (t : Token) (s : Text) (f : Formatter)
      → token_text source t ≡ some s
      → Wrote tables f s (format_element tables source t f)
  unfolding format_element ink
  format_element-Wrote t s f h =
      let write = text_of source t >>= λ text. some (put_comment tables text f) in
      let put = format_token tables source t f in
      elim-Wrote (kind_in (whitespace ∷ []) t.kind) (some f)
        (elim (kind_in (comment ∷ []) t.kind) [ true ↦ write | false ↦ put ])
        (λ is.
          let e : s ≡ [] = ap (from_some []) (sym h ∙ blank_text t is) in
          rw e (wrote f f [] (sym (append-nil (ink tables f.output)))))
        (λ is_not.
          let h' = sym (shown_text t is_not) ∙ h in
          elim-Wrote (kind_in (comment ∷ []) t.kind) write put (λ is. comment-Wrote t s f is h')
            (λ _. format_token-Wrote t s f h'))

  close_line-ink :
      (f : Formatter) → ink tables (close_line tables source f).output ≡ ink tables f.output
  close_line-ink f =
      if-ink tables u (ends_with newline f.output) f (push_newline f) f refl
        (push_newline-ink tables u f)

  body_token-Wrote :
      (t : Token) (s : Text) (f : Formatter)
      → token_text source t ≡ some s
      → Wrote tables f s (body_token tables source t f)
  unfolding body_token indent
  body_token-Wrote t s f h =
      let put : Formatter → Option Formatter = format_token tables source t in
      let open_line = put (push_space f) >>= λ g. some (push_newline (indent g)) in
      let close = put (close_line tables source (dedent f)) in
      let end_line = put f >>= λ g. some (push_newline g) in
      let other = format_element tables source t f in
      let separated : Option Formatter = elim (kind_in (comma ∷ semicolon ∷ []) t.kind) [
        | true ↦ end_line
        | false ↦ other
      ] in
      elim-Wrote (kind_in (open_brace ∷ []) t.kind) open_line
        (elim (kind_in (close_brace ∷ []) t.kind) [ true ↦ close | false ↦ separated ])
        (λ is.
          let h' = laid_out t s h (λ blank. ground (arith, (not_blank t.kind blank).0)) in
          Wrote-then (put (push_space f)) (λ g. push_newline (indent g))
            (λ g. push_newline-ink tables u (indent g))
            (Wrote-from (push_space-ink tables u f) (format_token-Wrote t s (push_space f) h')))
        (λ _.
          elim-Wrote (kind_in (close_brace ∷ []) t.kind) close separated
            (λ is.
              let h' = laid_out t s h (λ blank. ground (arith, (not_blank t.kind blank).1)) in
              Wrote-from (close_line-ink (dedent f) ∙ ap (ink tables) (dedent-output tables u f))
                (format_token-Wrote t s (close_line tables source (dedent f)) h'))
            (λ _.
              elim-Wrote (kind_in (comma ∷ semicolon ∷ []) t.kind) end_line other
                (λ is.
                  let h' = laid_out t s h (λ blank. ground (arith, (not_blank t.kind blank).2)) in
                  Wrote-then (put f) push_newline (push_newline-ink tables u)
                    (format_token-Wrote t s f h'))
                (λ _. format_element-Wrote t s f h)))

  statement-ink :
      (is_block : Bool) (n : SyntaxNode) (g : Formatter)
      → ink tables (after_statement is_block n g).output ≡ ink tables g.output
  statement-ink is_block n g =
      if-ink tables u
        (is_block && is_statement (kind_of_node n) && not (ends_with newline g.output))
        (push_newline g) g g (push_newline-ink tables u g) refl

  after_item-ink :
      (cs : Children) (g : Formatter) → ink tables (after_item cs g).output ≡ ink tables g.output
  after_item-ink no_children g = refl
  after_item-ink (node_then _ _) g = push_blank_line-ink tables u g
  after_item-ink (token_then _ _) g = push_blank_line-ink tables u g

  laid-Wrote :
      {f : Formatter} {s : Text} (l : Layout) (x z : Option Formatter) (y : Bool → Option Formatter)
      → Wrote tables f s x
      → Wrote tables f s z
      → ((b : Bool) → Wrote tables f s (y b))
      → Wrote tables f s (elim l [ file ↦ x | body b ↦ y b | plain ↦ z ])
  laid-Wrote file x z y p q r = p
  laid-Wrote (body b) x z y p q r = r b
  laid-Wrote plain x z y p q r = q

  -- Formatting a tree returns where the texts of its tokens are slices of the source, and adds these
  -- texts to the output, whitespace apart: every other character is written once and in its order.
  mutual
    unfolding format_node format_file format_body format_plain node_text texts ink

    pub format_node-Wrote :
        (n : SyntaxNode) (s : Text) (f : Formatter)
        → node_text source n ≡ some s
        → Wrote tables f s (format_node tables source n f)
    format_node-Wrote (node k cs) s f h =
        laid-Wrote (layout k) (format_file tables source cs f) (format_plain tables source cs f)
          (λ b. format_body tables source b cs f) (file-Wrote cs s f h) (plain-Wrote cs s f h)
          (λ b. body-Wrote b cs s f h)

    file-Wrote :
        (cs : Children) (s : Text) (f : Formatter)
        → texts source cs ≡ some s
        → Wrote tables f s (format_file tables source cs f)
    file-Wrote no_children s f h =
        rw (ap (from_some []) (sym h)) (wrote f f [] (sym (append-nil (ink tables f.output))))
    file-Wrote (node_then n cs) s f h =
        let (a, b, p, q, e) = both (node_text source n) (texts source cs) s h in
        rw e (
          Wrote-bind (format_node tables source n f)
            (λ g. format_file tables source cs (after_item cs g)) (format_node-Wrote n a f p)
            (λ g. Wrote-from (after_item-ink cs g) (file-Wrote cs b (after_item cs g) q)))
    file-Wrote (token_then t cs) s f h =
        let (a, b, p, q, e) = both (token_text source t) (texts source cs) s h in
        rw e (
          Wrote-bind (format_element tables source t f) (format_file tables source cs)
            (format_element-Wrote t a f p) (λ g. file-Wrote cs b g q))

    body-Wrote :
        (is_block : Bool) (cs : Children) (s : Text) (f : Formatter)
        → texts source cs ≡ some s
        → Wrote tables f s (format_body tables source is_block cs f)
    body-Wrote is_block no_children s f h =
        rw (ap (from_some []) (sym h)) (wrote f f [] (sym (append-nil (ink tables f.output))))
    body-Wrote is_block (node_then n cs) s f h =
        let (a, b, p, q, e) = both (node_text source n) (texts source cs) s h in
        rw e (
          Wrote-bind (format_node tables source n f)
            (λ g. format_body tables source is_block cs (after_statement is_block n g))
            (format_node-Wrote n a f p)
            (λ g.
              Wrote-from (statement-ink is_block n g)
                (body-Wrote is_block cs b (after_statement is_block n g) q)))
    body-Wrote is_block (token_then t cs) s f h =
        let (a, b, p, q, e) = both (token_text source t) (texts source cs) s h in
        rw e (
          Wrote-bind (body_token tables source t f) (format_body tables source is_block cs)
            (body_token-Wrote t a f p) (λ g. body-Wrote is_block cs b g q))

    plain-Wrote :
        (cs : Children) (s : Text) (f : Formatter)
        → texts source cs ≡ some s
        → Wrote tables f s (format_plain tables source cs f)
    plain-Wrote no_children s f h =
        rw (ap (from_some []) (sym h)) (wrote f f [] (sym (append-nil (ink tables f.output))))
    plain-Wrote (node_then n cs) s f h =
        let (a, b, p, q, e) = both (node_text source n) (texts source cs) s h in
        rw e (
          Wrote-bind (format_node tables source n f) (format_plain tables source cs)
            (format_node-Wrote n a f p) (λ g. plain-Wrote cs b g q))
    plain-Wrote (token_then t cs) s f h =
        let (a, b, p, q, e) = both (token_text source t) (texts source cs) s h in
        rw e (
          Wrote-bind (format_element tables source t f) (format_plain tables source cs)
            (format_element-Wrote t a f p) (λ g. plain-Wrote cs b g q))
