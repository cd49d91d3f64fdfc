-- ===== src/Parser/Good/Expr.antt =====
-- crates/izel_parser/src/expr.rs: the functions for expressions.
use izel.Prelude.{ℕ}
use izel.Lexer.Token.{TokenKind, open_paren, double_colon, open_brace, question, dot, bang}
use izel.Parser.Tree.{SyntaxNode, node_leaves}
use izel.Parser.Precedence.{Precedence, from_kind}
use izel.Parser.Steps.{Calls}
use izel.Parser.Expr.{
  macro_args, parse_ident, parse_paren, parse_keyword, parse_primary, parse_binary, call_arg,
  parse_call, parse_path_or_turbofish, parse_struct_literal_expr, parse_member_access,
  parse_postfix_bang, parse_optional_chaining, extend_lhs,
}
use izel.Parser.Good.{within, below, before_end, stays, moves, Good, GoodM, GoodFrom}
use izel.Parser.Good.Guards.{on_branch-Good}
use izel.Parser.Good.Calls.{GoodCalls, run_rules}
use izel.Parser.Good.Control.{
  parse_generic_args-Good, parse_raw_expr-Good, parse_given_expr-Good, parse_branch_expr-Good,
  parse_loop_expr-Good, parse_while_expr-Good, parse_each_expr-Good, parse_zone_expr-Good,
  parse_bind_expr-Good, parse_seek_expr-Good,
}

module _ (Stuck : Type 0) {n : ℕ} (calls : Calls) (good : GoodCalls Stuck n calls) where
  macro_args-Good :
      (close : TokenKind) → Good Stuck below n stays node_leaves (macro_args calls close)
  unfolding macro_args
  macro_args-Good close = search (run_rules, good.expr) depth 30

  parse_ident-Good : Good Stuck before_end n moves node_leaves (parse_ident calls)
  unfolding parse_ident
  parse_ident-Good = search (run_rules, macro_args-Good) depth 30

  parse_paren-Good : Good Stuck before_end n moves node_leaves (parse_paren calls)
  unfolding parse_paren
  parse_paren-Good = search (run_rules, good.expr) depth 30

  parse_keyword-Good : Good Stuck within n moves node_leaves (parse_keyword calls)
  unfolding parse_keyword
  parse_keyword-Good =
      let given_expr = parse_given_expr-Good Stuck calls good in
      let branch_expr = parse_branch_expr-Good Stuck calls good in
      let loop_expr = parse_loop_expr-Good Stuck calls good in
      let while_expr = parse_while_expr-Good Stuck calls good in
      let each_expr = parse_each_expr-Good Stuck calls good in
      let zone_expr = parse_zone_expr-Good Stuck calls good in
      let bind_expr = parse_bind_expr-Good Stuck calls good in
      let seek_expr = parse_seek_expr-Good Stuck calls good in
      let raw_expr = parse_raw_expr-Good Stuck calls good in
      search (on_branch-Good, run_rules, good.expr) depth 40

  pub parse_primary-Good : GoodM Stuck within n moves (parse_primary calls)
  unfolding parse_primary
  parse_primary-Good =
      search (run_rules, parse_ident-Good, parse_paren-Good, parse_keyword-Good) depth 30

  parse_binary-Good :
      (lhs : SyntaxNode) (prec : Precedence)
      → GoodFrom Stuck (node_leaves lhs) below n moves (parse_binary calls lhs prec)
  unfolding parse_binary
  parse_binary-Good lhs prec = search (run_rules, good.expr) depth 30

  call_arg-Good : Good Stuck below n moves node_leaves (call_arg calls)
  unfolding call_arg
  call_arg-Good = search (run_rules, good.expr) depth 30

  parse_call-Good :
      (lhs : SyntaxNode) → GoodFrom Stuck (node_leaves lhs) below n moves (parse_call calls lhs)
  unfolding parse_call
  parse_call-Good lhs = search (run_rules, call_arg-Good) depth 30

  parse_path_or_turbofish-Good :
      (lhs : SyntaxNode)
      → GoodFrom Stuck (node_leaves lhs) below n moves (parse_path_or_turbofish calls lhs)
  unfolding parse_path_or_turbofish
  parse_path_or_turbofish-Good lhs =
      search (run_rules, parse_generic_args-Good Stuck calls good) depth 30

  parse_struct_literal_expr-Good :
      (lhs : SyntaxNode)
      → GoodFrom Stuck (node_leaves lhs) below n moves (parse_struct_literal_expr calls lhs)
  unfolding parse_struct_literal_expr
  parse_struct_literal_expr-Good lhs = search (run_rules, good.expr) depth 30

  parse_member_access-Good :
      (lhs : SyntaxNode)
      → GoodFrom Stuck (node_leaves lhs) below n moves (parse_member_access calls lhs)
  unfolding parse_member_access
  parse_member_access-Good lhs = search run_rules depth 30

  pub parse_postfix_bang-Good :
      (lhs : SyntaxNode)
      → GoodFrom Stuck (node_leaves lhs) below n moves (parse_postfix_bang calls lhs)
  unfolding parse_postfix_bang
  parse_postfix_bang-Good lhs = search (run_rules, good.expr) depth 30

  parse_optional_chaining-Good :
      (lhs : SyntaxNode)
      → GoodFrom Stuck (node_leaves lhs) below n moves (parse_optional_chaining calls lhs)
  unfolding parse_optional_chaining
  parse_optional_chaining-Good lhs = search run_rules depth 30

  pub extend_lhs-Good :
      (kind : TokenKind) (lhs : SyntaxNode)
      → GoodFrom Stuck (node_leaves lhs) below n moves (extend_lhs calls kind lhs)
  unfolding extend_lhs
  extend_lhs-Good open_paren lhs = parse_call-Good lhs
  extend_lhs-Good double_colon lhs = parse_path_or_turbofish-Good lhs
  extend_lhs-Good open_brace lhs = parse_struct_literal_expr-Good lhs
  extend_lhs-Good question lhs = parse_optional_chaining-Good lhs
  extend_lhs-Good dot lhs = parse_member_access-Good lhs
  extend_lhs-Good bang lhs = parse_postfix_bang-Good lhs
  extend_lhs-Good kind lhs = parse_binary-Good lhs (from_kind kind)
