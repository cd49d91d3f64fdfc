-- ===== src/Parser/Types.antt =====
-- crates/izel_parser/src/lib.rs: types, generic parameters, fields, variants, parameters, effects and
-- attributes.
use izel.Prelude.{Bool, true, false, ◌&&◌, some, [], ◌∷◌, ◌>>=◌}
use izel.Lexer.Token.{
  TokenKind, is_eof_kind, question, star, tilde, raw, bang, lt, gt, open_bracket, close_bracket,
  colon, comma, open_kw, hidden, pkg, open_brace, close_brace, open_paren, close_paren, ampersand,
  dot_dot, self_kw, equal, at, pound,
}
use izel.Parser.Tree.{NodeKind, SyntaxNode, kind_of_node}
use izel.Parser.Kinds.{naming, kind_in}
use izel.Parser.Precedence.{Precedence}
use izel.Parser.Steps.{
  M, Act, Step, Calls, ◌⨟◌, done, start, from, skip, instead, push_bump, push_trivia, push_node, on,
  when, choose, while_in, until, ensure_progress, current_kind, eat_trivia,
}
use izel.Parser.Control.{parse_generic_args, parse_raw_expr}
use izel.Parser.Expr.{parse_expr_with, parse_postfix_bang}

unfoldable pub generic_param : Act SyntaxNode
generic_param =
    push_trivia
    ⨟ when naming (
        push_bump
        ⨟ push_trivia
        ⨟ when (colon ∷ []) (push_bump ⨟ push_trivia ⨟ when naming push_bump))
    ⨟ done NodeKind.generic_param

unfoldable pub generic_params_to : TokenKind → Step
generic_params_to close =
    push_bump
    ⨟ until (close ∷ []) (
        ensure_progress (
          push_node (start generic_param)
          ⨟ push_trivia
          ⨟ when (comma ∷ []) push_bump
          ⨟ push_trivia))
    ⨟ when (close ∷ []) push_bump

unfoldable pub parse_generic_params : M SyntaxNode
parse_generic_params = start (
    push_trivia
    ⨟ on (lt ∷ []) (generic_params_to gt)
        (when (open_bracket ∷ []) (generic_params_to close_bracket))
    ⨟ done NodeKind.generic_params)

-- `while matches!(self.current_kind(), Open | Hidden | Pkg)`
unfoldable pub visibility : Step
visibility = while_in (open_kw ∷ hidden ∷ pkg ∷ []) (push_bump ⨟ push_trivia)

-- The payload of a variant, up to `close`.
unfoldable pub payload_to : TokenKind → Step
payload_to close = push_bump ⨟ until (close ∷ []) push_bump ⨟ when (close ∷ []) push_bump

unfoldable pub parse_variant : M SyntaxNode
parse_variant = start (
    push_trivia
    ⨟ visibility
    ⨟ when naming (
        push_bump
        ⨟ push_trivia
        ⨟ on (open_brace ∷ []) (payload_to close_brace)
            (when (open_paren ∷ []) (payload_to close_paren)))
    ⨟ push_trivia
    ⨟ when (comma ∷ []) push_bump
    ⨟ done NodeKind.variant)

-- The children that `parse_effects` returns are added to those of its caller.
unfoldable pub parse_effects : Step
parse_effects = while_in (bang ∷ []) (
    ensure_progress
      (push_node (start (push_bump ⨟ when naming push_bump ⨟ done NodeKind.effect)) ⨟ push_trivia))

abbrev pub is_ident_node : NodeKind → Bool
is_ident_node NodeKind.ident = true
is_ident_node _ = false

module _ (calls : Calls) where
  open calls use {parse_expr, parse_type}

  -- A type that is an expression: its `!`, and its generic arguments.
  abbrev pub type_bang : SyntaxNode → M SyntaxNode
  type_bang res p = elim (kind_in (bang ∷ []) (current_kind p)) [
    | true ↦ parse_postfix_bang calls res p
    | false ↦ some (res, p)
  ]

  abbrev pub type_generics : SyntaxNode → M SyntaxNode
  type_generics res p =
      elim (is_ident_node (kind_of_node res) && kind_in (lt ∷ []) (current_kind p)) [
        | true ↦ from res (push_node (parse_generic_args calls) ⨟ done NodeKind.type) p
        | false ↦ some (res, p)
      ]

  unfoldable pub parse_named_type : M SyntaxNode
  parse_named_type p = parse_expr_with calls Precedence.call p >>= λ r.
      type_bang r.0 (eat_trivia r.1).1 >>= λ s. type_generics s.0 s.1

  unfoldable pub parse_type_here : M SyntaxNode
  parse_type_here = start (
      push_trivia
      ⨟ on (question ∷ []) (push_bump ⨟ push_node parse_type ⨟ done NodeKind.optional_type) (
          on (star ∷ [])
            (push_bump
              ⨟ when (tilde ∷ []) push_bump
              ⨟ push_node parse_type
              ⨟ done NodeKind.pointer_type)
            (on (raw ∷ []) (instead (parse_raw_expr calls)) (instead parse_named_type))))

  unfoldable pub parse_field : M SyntaxNode
  parse_field = start (
      push_trivia
      ⨟ visibility
      ⨟ when naming (push_bump ⨟ push_trivia)
      ⨟ when (colon ∷ []) (push_bump ⨟ push_trivia)
      ⨟ push_trivia
      ⨟ push_node parse_type_here
      ⨟ push_trivia
      ⨟ when (comma ∷ []) push_bump
      ⨟ done NodeKind.field)

  unfoldable pub parse_param : M SyntaxNode
  parse_param = start (
      push_trivia
      ⨟ while_in (tilde ∷ ampersand ∷ []) (push_bump ⨟ push_trivia)
      ⨟ when (dot_dot ∷ []) (push_bump ⨟ push_trivia)
      ⨟ on (self_kw ∷ naming)
          (push_bump
            ⨟ push_trivia
            ⨟ when (colon ∷ []) (push_bump ⨟ push_trivia ⨟ push_node parse_type_here ⨟ push_trivia)
            ⨟ when (equal ∷ []) (push_bump ⨟ push_trivia ⨟ push_node (parse_expr Precedence.none))
            ⨟ done NodeKind.param_part)
          (choose (λ p. is_eof_kind (current_kind p)) skip push_bump ⨟ done NodeKind.param_part))

  unfoldable pub attribute_args : Step
  attribute_args =
      push_bump
      ⨟ until (close_paren ∷ []) (
          push_node (parse_expr Precedence.none)
          ⨟ push_trivia
          ⨟ when (comma ∷ []) (push_bump ⨟ push_trivia))
      ⨟ when (close_paren ∷ []) push_bump

  unfoldable pub parse_attribute : M SyntaxNode
  parse_attribute = start (
      push_trivia
      ⨟ on (at ∷ [])
          (push_bump
            ⨟ push_trivia
            ⨟ when naming push_bump
            ⨟ push_trivia
            ⨟ when (open_paren ∷ []) attribute_args
            ⨟ done NodeKind.attribute)
          (on (pound ∷ [])
            (push_bump
              ⨟ push_trivia
              ⨟ on (open_bracket ∷ [])
                  (push_bump
                    ⨟ push_trivia
                    ⨟ when naming push_bump
                    ⨟ push_trivia
                    ⨟ when (open_paren ∷ []) (attribute_args ⨟ push_trivia)
                    ⨟ when (close_bracket ∷ []) push_bump
                    ⨟ done NodeKind.attribute)
                  (done NodeKind.attribute))
            (done NodeKind.attribute)))

  unfoldable pub parse_attributes : M SyntaxNode
  parse_attributes = start (
      while_in (at ∷ pound ∷ []) (ensure_progress (push_node parse_attribute ⨟ push_trivia))
      ⨟ done NodeKind.attributes)
