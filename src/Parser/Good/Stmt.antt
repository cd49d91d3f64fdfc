-- ===== src/Parser/Good/Stmt.antt =====
-- crates/izel_parser/src/lib.rs: the functions for statements.
use mathlib.Core.Path.{subst}
use izel.Prelude.{ℕ, ◌≡◌, refl, sym, arith, true, List, [], ◌∷◌}
use izel.Span.{Span}
use izel.Lexer.Token.{TokenKind, Token, open_brace, close_brace, eof}
use izel.Parser.Tree.{NodeKind, SyntaxNode, no_children, extend, leaves, node_leaves}
use izel.Parser.Kinds.{kind_in}
use izel.Parser.Precedence.{Precedence}
use izel.Parser.Steps.{
  Calls, Parser, Act, current_kind, first_kind, start, done, ◌⨟◌, when, on, instead, until,
  ensure_progress, push_bump, push_node, push_trivia, eat_trivia, trivia, after_trivia,
  trivia_count,
}
use izel.Parser.Control.{parse_block}
use izel.Parser.Expr.{parse_expr_with}
use izel.Parser.Types.{parse_type_here}
use izel.Parser.Stmt.{
  semicolon_here, let_stmt, give_stmt, assign_stmt, expr_stmt, block_stmt, parse_stmt_after_trivia,
  parse_stmt_here,
}
use izel.Parser.Good.{Mode, within, before_end, stays, moves, Ready, Run, Good, GoodM}
use izel.Parser.Good.Runs.{kind_in_held, Run-bind, Ready-Post, Ready-not_end}
use izel.Parser.Good.Rules.{if-Run, push_node-Run, instead-Run, widen, widen_node}
use izel.Parser.Good.Guards.{on_let-Good}
use izel.Parser.Good.Primitives.{done-Good}
use izel.Parser.Good.Calls.{GoodCalls, run_rules}
use izel.Parser.Good.Pratt.{at_pos, parse_expr_with-Good}
use izel.Parser.Good.Types.{parse_type_here-Good}

-- The tokens of a parser that stands at an opening brace.
brace_lem : (k : TokenKind) → kind_in (open_brace ∷ []) k ≡ true → k ≡ open_brace
unfolding kind_in
brace_lem open_brace h = refl
brace_lem _ h = absurd (ground arith)

-- A parser at a token of a kind.
abbrev at_kind : TokenKind → Span → List Token → ℕ → ℕ → Parser
at_kind k span ts depth pos = at_pos (record { kind = k; span = span } ∷ ts) depth pos

module _ (Stuck : Type 0) {n : ℕ} where
  pub semicolon_here-Good : {mode : Mode} → Good Stuck mode n stays leaves semicolon_here
  unfolding semicolon_here
  semicolon_here-Good = search run_rules

module _ (Stuck : Type 0) {n : ℕ} (calls : Calls) (good : GoodCalls Stuck n calls) where
  expr-Good :
      {mode : Mode} (min : Precedence) → GoodM Stuck mode n moves (parse_expr_with calls min)
  expr-Good = parse_expr_with-Good Stuck calls good

  type-Good : {mode : Mode} → GoodM Stuck mode n moves (parse_type_here calls)
  type-Good = parse_type_here-Good Stuck calls good

  let_stmt-Good : Stuck → Good Stuck before_end n moves node_leaves (let_stmt calls)
  unfolding let_stmt
  let_stmt-Good s =
      search (run_rules, expr-Good, type-Good, semicolon_here-Good, good.pattern s) depth 30

  give_stmt-Good : Good Stuck before_end n moves node_leaves (give_stmt calls)
  unfolding give_stmt
  give_stmt-Good = search (run_rules, expr-Good, semicolon_here-Good) depth 30

  assign_stmt-Good : Good Stuck within n moves node_leaves (assign_stmt calls)
  unfolding assign_stmt
  assign_stmt-Good = search (run_rules, expr-Good, semicolon_here-Good) depth 30

  expr_stmt-Good : Good Stuck within n moves node_leaves (expr_stmt calls)
  unfolding expr_stmt
  expr_stmt-Good = search (run_rules, expr-Good, semicolon_here-Good) depth 30

  -- What a block does at its brace.
  abbrev braced : Act SyntaxNode
  braced =
      (push_bump
        ⨟ push_trivia
        ⨟ until (close_brace ∷ []) (ensure_progress (push_node calls.parse_stmt ⨟ push_trivia))
        ⨟ when (close_brace ∷ []) push_bump)
      ⨟ done NodeKind.block

  braced-Good : Good Stuck before_end n moves node_leaves braced
  braced-Good = search (run_rules, good.stmt) depth 30

  -- A block reads something where it begins with a brace.
  block-Run :
      (span : Span) (ts : List Token) (depth pos : ℕ)
      → Ready Stuck before_end n (at_kind open_brace span ts depth pos)
      → Run Stuck node_leaves moves []
          (at_kind open_brace span ts depth pos)
          (parse_block calls (at_kind open_brace span ts depth pos))
  unfolding parse_block start ◌⨟◌ push_trivia eat_trivia trivia after_trivia trivia_count when on
      kind_in leaves extend
  block-Run span ts depth pos r =
      subst
        (λ (k : ℕ).
          Run Stuck node_leaves moves [] (at_kind open_brace span ts depth pos)
            (braced no_children (at_kind open_brace span ts depth k)))
        (omega arith) (braced-Good.at no_children (at_kind open_brace span ts depth pos) r)

  block_at :
      (k : TokenKind) (span : Span) (ts : List Token) (depth pos : ℕ)
      → k ≡ open_brace
      → Ready Stuck before_end n (at_kind k span ts depth pos)
      → Run Stuck node_leaves moves []
          (at_kind k span ts depth pos)
          (parse_block calls (at_kind k span ts depth pos))
  block_at k span ts depth pos e =
      subst
        (λ (j : TokenKind).
          Ready Stuck before_end n (at_kind j span ts depth pos)
          → Run Stuck node_leaves moves [] (at_kind j span ts depth pos)
              (parse_block calls (at_kind j span ts depth pos)))
        (sym e) (block-Run span ts depth pos)

  block_of :
      (ts : List Token) (depth pos : ℕ)
      → kind_in (open_brace ∷ []) (first_kind ts) ≡ true
      → Ready Stuck before_end n (at_pos ts depth pos)
      → Run Stuck node_leaves moves []
          (at_pos ts depth pos)
          (parse_block calls (at_pos ts depth pos))
  block_of [] depth pos h r = absurd (ground (arith, kind_in_held (open_brace ∷ []) eof h))
  block_of (t ∷ ts) depth pos h r = block_at t.kind t.span ts depth pos (brace_lem t.kind h) r

  block_stmt-Run :
      (p : Parser)
      → kind_in (open_brace ∷ []) (current_kind p) ≡ true
      → Ready Stuck before_end n p
      → Run Stuck node_leaves moves [] p (block_stmt calls p)
  unfolding block_stmt start ◌⨟◌ push_node leaves
  block_stmt-Run p h r =
      Run-bind Stuck (push_node (parse_block calls) no_children p) (done NodeKind.block)
        (push_node-Run Stuck no_children (parse_block calls p)
          (block_of p.rest p.condition_expr_depth p.pos h r))
        (λ cs q run.
          (done-Good Stuck {mode = within} {n = n} NodeKind.block).at cs q
            (Ready-Post Stuck n before_end r run))

  on_block-Good :
      {b : Act SyntaxNode}
      → Good Stuck within n moves node_leaves b
      → Good Stuck within n moves node_leaves (on (open_brace ∷ []) (instead (block_stmt calls)) b)
  unfolding on instead
  on_block-Good {b} g = record {
    at = λ cs p r.
        if-Run Stuck (kind_in (open_brace ∷ []) (current_kind p)) (block_stmt calls p) (b cs p)
          (λ is. instead-Run Stuck cs (block_stmt calls p) (
            block_stmt-Run p is (
              Ready-not_end Stuck n within p r
                (kind_in_held (open_brace ∷ []) (current_kind p) is))))
          (λ _. g.at cs p r);
  }

  stmt_after_trivia : Good Stuck within n moves node_leaves (parse_stmt_after_trivia calls)
  unfolding parse_stmt_after_trivia
  stmt_after_trivia =
      search
        (
          on_let-Good, on_block-Good, run_rules, let_stmt-Good, give_stmt-Good, assign_stmt-Good,
          expr_stmt-Good,
        )
        depth 30

  stmt_within : GoodM Stuck within n moves (parse_stmt_here calls)
  unfolding parse_stmt_here
  stmt_within = search (run_rules, stmt_after_trivia) depth 30

  module _ {mode : Mode} where
    pub parse_stmt_after_trivia-Good :
        Good Stuck mode n moves node_leaves (parse_stmt_after_trivia calls)
    parse_stmt_after_trivia-Good = widen Stuck stmt_after_trivia

    pub parse_stmt_here-Good : GoodM Stuck mode n moves (parse_stmt_here calls)
    parse_stmt_here-Good = widen_node Stuck stmt_within
