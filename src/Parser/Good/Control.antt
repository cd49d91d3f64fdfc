-- ===== src/Parser/Good/Control.antt =====
-- crates/izel_parser/src/lib.rs and expr.rs: blocks, generic arguments and the expressions that a
-- keyword begins.
use izel.Prelude.{ℕ, zero, suc, ◌-◌, ◌≤◌, inl, inr, arith, length}
use izel.Lexer.Token.{TokenKind}
use izel.Parser.Tree.{Children, leaves, node_leaves}
use izel.Parser.Steps.{Calls, Parser}
use izel.Parser.Control.{
  parse_block, block_here, generic_args_to, parse_generic_args, parse_raw_expr, given_chain,
  parse_given_expr, branch_arm, parse_branch_expr, parse_loop_expr, parse_while_expr,
  parse_each_expr, parse_bind_expr, parse_zone_expr, parse_seek_expr,
}
use izel.Parser.Good.{Mode, within, below, before_end, stays, moves, Good, GoodM, Ready, Run}
use izel.Parser.Good.Rules.{widen_node}
use izel.Parser.Good.Guards.{on_fewer-Good}
use izel.Parser.Good.Calls.{GoodCalls, run_rules, weaken_calls}

module _ (Stuck : Type 0) {n : ℕ} (calls : Calls) (good : GoodCalls Stuck n calls) where
  parse_block-within : GoodM Stuck within n stays (parse_block calls)
  unfolding parse_block
  parse_block-within = search (run_rules, good.stmt) depth 30

  pub parse_block-Good : {mode : Mode} → GoodM Stuck mode n stays (parse_block calls)
  parse_block-Good = widen_node Stuck parse_block-within

  pub block_here-Good : {mode : Mode} → Good Stuck mode n stays leaves (block_here calls)
  unfolding block_here
  block_here-Good = search (run_rules, parse_block-Good) depth 30

  generic_args_to-Good :
      (close : TokenKind) → Good Stuck below n stays leaves (generic_args_to calls close)
  unfolding generic_args_to
  generic_args_to-Good close = search (run_rules, good.expr) depth 30

  pub parse_generic_args-Good : GoodM Stuck below n stays (parse_generic_args calls)
  unfolding parse_generic_args
  parse_generic_args-Good = search (run_rules, generic_args_to-Good) depth 30

  pub parse_raw_expr-Good : GoodM Stuck before_end n moves (parse_raw_expr calls)
  unfolding parse_raw_expr
  parse_raw_expr-Good = search (run_rules, good.expr, parse_block-Good) depth 30

  branch_arm-Good : Stuck → Good Stuck below n stays leaves (branch_arm calls)
  unfolding branch_arm
  branch_arm-Good s = search (run_rules, good.expr, good.pattern s) depth 30

  pub parse_branch_expr-Good :
      Stuck → Good Stuck below n stays node_leaves (parse_branch_expr calls)
  unfolding parse_branch_expr
  parse_branch_expr-Good s = let arm = branch_arm-Good s in search (run_rules, good.expr) depth 30

  pub parse_loop_expr-Good : Good Stuck below n stays node_leaves (parse_loop_expr calls)
  unfolding parse_loop_expr
  parse_loop_expr-Good = search (run_rules, block_here-Good) depth 30

  pub parse_while_expr-Good : Good Stuck below n stays node_leaves (parse_while_expr calls)
  unfolding parse_while_expr
  parse_while_expr-Good = search (run_rules, good.expr, block_here-Good) depth 30

  pub parse_each_expr-Good : Good Stuck below n stays node_leaves (parse_each_expr calls)
  unfolding parse_each_expr
  parse_each_expr-Good = search (run_rules, good.expr, block_here-Good) depth 30

  pub parse_bind_expr-Good : Good Stuck below n stays node_leaves (parse_bind_expr calls)
  unfolding parse_bind_expr
  parse_bind_expr-Good = search (run_rules, good.expr) depth 30

  pub parse_zone_expr-Good : Good Stuck below n stays node_leaves (parse_zone_expr calls)
  unfolding parse_zone_expr
  parse_zone_expr-Good = search (run_rules, block_here-Good) depth 30

  pub parse_seek_expr-Good : Good Stuck below n stays node_leaves (parse_seek_expr calls)
  unfolding parse_seek_expr
  parse_seek_expr-Good = search (run_rules, parse_block-Good) depth 30

none_below : (Stuck : Type 0) (k : ℕ) (p : Parser) → k ≤ 0 → Ready Stuck below k p → Stuck
none_below Stuck k p h (inl s) = s
none_below Stuck k p h (inr (b, c)) = absurd (omega arith)

-- A chain of `given … else given …`, with fuel for each token left.
given_chain-Good :
    (Stuck : Type 0) (fuel k : ℕ) (calls : Calls)
    → GoodCalls Stuck k calls
    → k ≤ fuel
    → Good Stuck below k stays node_leaves (given_chain calls fuel)
unfolding given_chain
given_chain-Good Stuck zero k calls good h = record {
  at = λ cs p r. record { ends = none_below Stuck k p h r };
}
given_chain-Good Stuck (suc fuel) k calls good h =
    let rest =
      given_chain-Good Stuck fuel (k - 1) calls (weaken_calls Stuck calls (omega arith) good)
        (omega (arith, h)) in
    let block = block_here-Good Stuck calls good {mode = below} in
    search (on_fewer-Good, run_rules, good.expr) depth 40

given_at :
    (Stuck : Type 0) (n : ℕ) (calls : Calls) (cs : Children) (p : Parser)
    → GoodCalls Stuck n calls
    → Ready Stuck below n p
    → Run Stuck node_leaves stays (leaves cs) p (given_chain calls (suc (length p.rest)) cs p)
given_at Stuck n calls cs p good (inl s) =
    (given_chain-Good Stuck (suc (length p.rest)) 0 calls
        (weaken_calls Stuck calls (omega arith) good) (omega arith)).at
      cs p (inl s)
given_at Stuck n calls cs p good (inr (b, free)) =
    let k = suc (length p.rest) in
    (given_chain-Good Stuck k k calls (weaken_calls Stuck calls (omega arith) good)
        (omega arith)).at
      cs p (inr (omega arith, free))

module _ (Stuck : Type 0) {n : ℕ} (calls : Calls) (good : GoodCalls Stuck n calls) where
  pub parse_given_expr-Good : Good Stuck below n stays node_leaves (parse_given_expr calls)
  unfolding parse_given_expr
  parse_given_expr-Good = record { at = λ cs p r. given_at Stuck n calls cs p good r }
