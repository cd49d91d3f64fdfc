-- ===== src/Parser/Patterns.antt =====
-- crates/izel_parser/src/lib.rs: `parse_pattern`.
use izel.Prelude.{Bool, true, false, [], ◌∷◌}
use izel.Lexer.Token.{
  TokenKind, tilde, open_paren, close_paren, open_bracket, close_bracket, dot_dot, comma, int, str,
  interpolated_str, true_kw, false_kw, nil, double_colon, open_brace, close_brace, pipe,
}
use izel.Parser.Tree.{NodeKind, SyntaxNode}
use izel.Parser.Kinds.{naming}
use izel.Parser.Steps.{
  M, Step, Calls, ◌⨟◌, done, start, push_bump, push_trivia, push_node, on, when, choose, while_in,
  until, current_kind,
}

unfoldable pub is_pattern_literal : TokenKind → Bool
is_pattern_literal (int _ _) = true
is_pattern_literal (str _) = true
is_pattern_literal (interpolated_str _) = true
is_pattern_literal true_kw = true
is_pattern_literal false_kw = true
is_pattern_literal nil = true
is_pattern_literal _ = false

module _ (calls : Calls) where
  open calls use {parse_pattern}

  unfoldable pub comma_here : Step
  comma_here = when (comma ∷ []) (push_bump ⨟ push_trivia)

  -- Patterns up to `close`, without `ensure_progress`.
  unfoldable pub patterns_to : TokenKind → Step
  patterns_to close =
      push_bump
      ⨟ push_trivia
      ⨟ until (close ∷ []) (push_node parse_pattern ⨟ push_trivia ⨟ comma_here)
      ⨟ when (close ∷ []) push_bump

  unfoldable pub slice_patterns : Step
  slice_patterns =
      push_bump
      ⨟ push_trivia
      ⨟ until (close_bracket ∷ []) (
          on (dot_dot ∷ []) (push_bump ⨟ push_trivia ⨟ when naming push_bump)
            (push_node parse_pattern)
          ⨟ push_trivia
          ⨟ comma_here)
      ⨟ when (close_bracket ∷ []) push_bump

  unfoldable pub path_segments : Step
  path_segments =
      while_in (double_colon ∷ []) (push_bump ⨟ push_trivia ⨟ when naming push_bump ⨟ push_trivia)

  unfoldable pub named_pattern : Step
  named_pattern = when naming (
      push_bump
      ⨟ push_trivia
      ⨟ on (double_colon ∷ open_brace ∷ [])
          (path_segments ⨟ when (open_brace ∷ []) (patterns_to close_brace))
          (when (open_paren ∷ []) (patterns_to close_paren)))

  unfoldable pub pattern_body : Step
  pattern_body = on (tilde ∷ []) (push_bump ⨟ push_trivia ⨟ when naming push_bump) (
      on (open_paren ∷ []) (patterns_to close_paren) (
        on (open_bracket ∷ []) slice_patterns
          (choose (λ p. is_pattern_literal (current_kind p)) push_bump named_pattern)))

  unfoldable pub parse_pattern_here : M SyntaxNode
  parse_pattern_here = start (
      push_trivia
      ⨟ pattern_body
      ⨟ push_trivia
      ⨟ when (pipe ∷ []) (push_bump ⨟ push_node parse_pattern)
      ⨟ done NodeKind.pattern)
