-- ===== src/Parser/Control.antt =====
-- crates/izel_parser/src/lib.rs and expr.rs: blocks, generic arguments, and the expressions that a
-- keyword begins. `children` holds the keyword.
use izel.Prelude.{ℕ, zero, suc, none, [], ◌∷◌, length}
use izel.Lexer.Token.{
  open_brace, close_brace, lt, gt, open_bracket, close_bracket, comma, else_kw, given, fat_arrow,
  in_kw, bar, catch, TokenKind,
}
use izel.Parser.Tree.{NodeKind, SyntaxNode}
use izel.Parser.Kinds.{naming}
use izel.Parser.Precedence.{Precedence}
use izel.Parser.Steps.{
  M, Act, Step, Calls, ◌⨟◌, done, start, push_bump, push_trivia, push_node, on, when, until,
  ensure_progress, in_condition,
}

module _ (calls : Calls) where
  open calls use {parse_expr, parse_stmt, parse_pattern}

  unfoldable pub parse_block : M SyntaxNode
  parse_block = start (
      push_trivia
      ⨟ when (open_brace ∷ []) (
          push_bump
          ⨟ push_trivia
          ⨟ until (close_brace ∷ []) (ensure_progress (push_node parse_stmt ⨟ push_trivia))
          ⨟ when (close_brace ∷ []) push_bump)
      ⨟ done NodeKind.block)

  -- `if self.current_kind() == TokenKind::OpenBrace { children.push(Node(self.parse_block())) }`
  unfoldable pub block_here : Step
  block_here = when (open_brace ∷ []) (push_node parse_block)

  -- A list of arguments up to `close`.
  unfoldable pub generic_args_to : TokenKind → Step
  generic_args_to close =
      push_bump
      ⨟ until (close ∷ []) (
          ensure_progress (
            push_node
              (start (push_node (parse_expr Precedence.comparison) ⨟ done NodeKind.generic_arg))
            ⨟ push_trivia
            ⨟ when (comma ∷ []) push_bump
            ⨟ push_trivia))
      ⨟ when (close ∷ []) push_bump

  unfoldable pub parse_generic_args : M SyntaxNode
  parse_generic_args = start (
      push_trivia
      ⨟ on (lt ∷ []) (generic_args_to gt) (when (open_bracket ∷ []) (generic_args_to close_bracket))
      ⨟ done NodeKind.generic_args)

  unfoldable pub parse_raw_expr : M SyntaxNode
  parse_raw_expr = start (
      push_bump
      ⨟ push_trivia
      ⨟ on (open_brace ∷ []) (push_node parse_block) (push_node (parse_expr Precedence.none))
      ⨟ done NodeKind.raw_expr)

  -- `parse_given_expr`, which calls itself behind an `else`: with fuel for each token left.
  unfoldable pub given_chain : ℕ → Act SyntaxNode
  given_chain zero = λ children p. none
  given_chain (suc fuel) =
      push_trivia
      ⨟ push_node (in_condition (parse_expr Precedence.none))
      ⨟ push_trivia
      ⨟ block_here
      ⨟ push_trivia
      ⨟ when (else_kw ∷ []) (
          push_bump
          ⨟ push_trivia
          ⨟ on (given ∷ []) (push_node (start (push_bump ⨟ given_chain fuel))) block_here)
      ⨟ done NodeKind.given_expr

  unfoldable pub parse_given_expr : Act SyntaxNode
  parse_given_expr children p = given_chain (suc (length p.rest)) children p

  unfoldable pub branch_arm : Step
  branch_arm =
      push_node parse_pattern
      ⨟ push_trivia
      ⨟ when (given ∷ [])
          (push_bump ⨟ push_trivia ⨟ push_node (parse_expr Precedence.none) ⨟ push_trivia)
      ⨟ when (fat_arrow ∷ []) (push_bump ⨟ push_trivia ⨟ push_node (parse_expr Precedence.none))
      ⨟ push_trivia
      ⨟ when (comma ∷ []) push_bump
      ⨟ push_trivia

  unfoldable pub parse_branch_expr : Act SyntaxNode
  parse_branch_expr =
      push_trivia
      ⨟ push_node (parse_expr Precedence.call)
      ⨟ push_trivia
      ⨟ on (open_brace ∷ [])
          (push_bump
            ⨟ until (close_brace ∷ []) (ensure_progress branch_arm)
            ⨟ when (close_brace ∷ []) push_bump
            ⨟ done NodeKind.branch_expr)
          (done NodeKind.branch_expr)

  unfoldable pub parse_loop_expr : Act SyntaxNode
  parse_loop_expr = push_trivia ⨟ block_here ⨟ done NodeKind.loop_expr

  unfoldable pub parse_while_expr : Act SyntaxNode
  parse_while_expr =
      push_trivia
      ⨟ push_node (in_condition (parse_expr Precedence.none))
      ⨟ push_trivia
      ⨟ block_here
      ⨟ done NodeKind.while_expr

  unfoldable pub parse_each_expr : Act SyntaxNode
  parse_each_expr =
      push_trivia
      ⨟ push_node (parse_expr Precedence.call)
      ⨟ push_trivia
      ⨟ when (in_kw ∷ []) (push_bump ⨟ push_trivia ⨟ push_node (parse_expr Precedence.call))
      ⨟ push_trivia
      ⨟ block_here
      ⨟ done NodeKind.each_expr

  unfoldable pub parse_bind_expr : Act SyntaxNode
  parse_bind_expr =
      push_trivia
      ⨟ when (bar ∷ []) (push_bump ⨟ until (bar ∷ []) push_bump ⨟ when (bar ∷ []) push_bump)
      ⨟ push_trivia
      ⨟ push_node (parse_expr Precedence.none)
      ⨟ done NodeKind.bind_expr

  unfoldable pub parse_zone_expr : Act SyntaxNode
  parse_zone_expr =
      push_trivia ⨟ when naming push_bump ⨟ push_trivia ⨟ block_here ⨟ done NodeKind.zone_expr

  unfoldable pub parse_seek_expr : Act SyntaxNode
  parse_seek_expr =
      push_trivia
      ⨟ push_node parse_block
      ⨟ push_trivia
      ⨟ when (catch ∷ [])
          (push_bump ⨟ push_trivia ⨟ when naming push_bump ⨟ push_trivia ⨟ push_node parse_block)
      ⨟ done NodeKind.seek_expr
