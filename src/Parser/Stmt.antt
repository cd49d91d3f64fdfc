-- ===== src/Parser/Stmt.antt =====
-- crates/izel_parser/src/lib.rs: statements.
use izel.Prelude.{Bool, ◌&&◌, [], ◌∷◌}
use izel.Lexer.Token.{let_kw, tilde, colon, equal, semicolon, give, open_brace, ident}
use izel.Parser.Tree.{NodeKind, SyntaxNode}
use izel.Parser.Kinds.{kind_in}
use izel.Parser.Precedence.{Precedence}
use izel.Parser.Steps.{
  Parser, M, Act, Step, Calls, ◌⨟◌, done, start, instead, push_bump, push_trivia, push_node, on,
  when, choose, current_kind,
}
use izel.Parser.Control.{parse_block}
use izel.Parser.Expr.{parse_expr_with, kind_behind}
use izel.Parser.Types.{parse_type_here}

-- An identifier and `=`.
abbrev pub is_plain_assign : Parser → Bool
is_plain_assign p =
    kind_in (ident ∷ []) (current_kind p) && kind_in (equal ∷ []) (kind_behind 1 p.rest)

-- `if self.current_kind() == TokenKind::Semicolon`, at the end of a statement.
unfoldable pub semicolon_here : Step
semicolon_here = when (semicolon ∷ []) push_bump

module _ (calls : Calls) where
  open calls use {parse_pattern}

  abbrev expr_here : Step
  expr_here = push_node (parse_expr_with calls Precedence.none)

  unfoldable pub let_stmt : Act SyntaxNode
  let_stmt =
      push_bump
      ⨟ push_trivia
      ⨟ push_node parse_pattern
      ⨟ push_trivia
      ⨟ when (colon ∷ []) (push_bump ⨟ push_trivia ⨟ push_node (parse_type_here calls))
      ⨟ push_trivia
      ⨟ when (equal ∷ []) (push_bump ⨟ expr_here)
      ⨟ push_trivia
      ⨟ semicolon_here
      ⨟ done NodeKind.let_stmt

  unfoldable pub give_stmt : Act SyntaxNode
  give_stmt =
      push_bump ⨟ push_trivia ⨟ expr_here ⨟ push_trivia ⨟ semicolon_here ⨟ done NodeKind.give_stmt

  unfoldable pub assign_stmt : Act SyntaxNode
  assign_stmt =
      push_bump
      ⨟ push_trivia
      ⨟ push_bump
      ⨟ push_trivia
      ⨟ expr_here
      ⨟ push_trivia
      ⨟ semicolon_here
      ⨟ done NodeKind.assign_stmt

  unfoldable pub expr_stmt : Act SyntaxNode
  expr_stmt = expr_here ⨟ push_trivia ⨟ semicolon_here ⨟ done NodeKind.expr_stmt

  -- A block as a statement: the children read so far are not used.
  unfoldable pub block_stmt : M SyntaxNode
  block_stmt = start (push_node (parse_block calls) ⨟ done NodeKind.block)

  unfoldable pub parse_stmt_after_trivia : Act SyntaxNode
  parse_stmt_after_trivia = on (let_kw ∷ tilde ∷ []) let_stmt (
      on (give ∷ []) give_stmt
        (on (open_brace ∷ []) (instead block_stmt) (choose is_plain_assign assign_stmt expr_stmt)))

  unfoldable pub parse_stmt_here : M SyntaxNode
  parse_stmt_here = start (push_trivia ⨟ parse_stmt_after_trivia)
