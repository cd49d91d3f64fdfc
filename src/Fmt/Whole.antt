-- ===== src/Fmt/Whole.antt =====
-- crates/izel_fmt/src/formatter.rs: `format_source`, from the tokens that the lexer gave.
use izel.Prelude.{
  ◌≡◌, refl, ap, sym, ◌∙◌, arith, true, Bool-cases, inl, inr, ◌&&◌, Option, some, List, [], ◌∷◌,
  ◌++◌, append-nil, ◌>>=◌, Text, text_eq,
}
use izel.Lexer.Cursor.{CharTables}
use izel.Lexer.Token.{Token}
use izel.Lexer.TokenText.{IsUnicode}
use izel.Parser.Tree.{SyntaxNode}
use izel.Parser.Steps.{Parser}
use izel.Parser.Run.{parse_source_file}
use izel.Fmt.{new, newline, finish, trim_end}
use izel.Fmt.Format.{format_node}
use izel.Fmt.Ink.{ink, ink-append, newline_blank, node_text}
use izel.Fmt.Nodes.{format_node-Wrote}

unfoldable pub format_tokens : CharTables → Text → List Token → Option Text
format_tokens tables source tokens = parse_source_file tokens >>= λ r.
    format_node tables source r.0 new >>= λ f. some (finish tables f)

empty_lem : (s : Text) → text_eq s [] ≡ true → s ≡ []
unfolding text_eq
empty_lem [] h = refl
empty_lem (c ∷ s) h = absurd (ground arith)

module _ (tables : CharTables) (u : IsUnicode tables) where
  trim_end-ink : (s : Text) → ink tables (trim_end tables s) ≡ ink tables s
  unfolding trim_end ink
  trim_end-ink [] = refl
  trim_end-ink (c ∷ s) =
      elim (Bool-cases (text_eq (trim_end tables s) [] && tables.is_whitespace c)) [
        | inl is ↦
            let blank : tables.is_whitespace c ≡ true = ground arith in
            let empty = empty_lem (trim_end tables s) (ground arith) in
            rw is (rw blank (sym (ap (ink tables) empty) ∙ trim_end-ink s))
        | inr is_not ↦ rw is_not (rw (trim_end-ink s) refl)
      ]

  -- Where the parser returns a tree whose tokens are slices of the source, formatting returns a text
  -- whose characters that are no whitespace are those of the tokens of the tree, in their order: the
  -- formatter only ever adds and takes away whitespace.
  pub format_tokens-ink :
      (source : Text) (tokens : List Token) (tree : SyntaxNode) (p : Parser) (t : Text)
      → parse_source_file tokens ≡ some (tree, p)
      → node_text source tree ≡ some t
      → (out : Text) × (format_tokens tables source tokens ≡ some out)
        × (ink tables out ≡ ink tables t)
  unfolding format_tokens finish ink
  format_tokens-ink source tokens tree p t e h =
      let w = format_node-Wrote tables u source tree t new h in
      let out = finish tables w.result in
      (
        out,
        rw (e, w.returns) refl,
        ink-append tables u (trim_end tables w.result.output) newline
            ∙ ap (λ r. ink tables (trim_end tables w.result.output) ++ r) (newline_blank tables u)
            ∙ append-nil (ink tables (trim_end tables w.result.output))
            ∙ trim_end-ink w.result.output
            ∙ w.inked,
      )
