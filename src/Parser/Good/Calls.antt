-- ===== src/Parser/Good/Calls.antt =====
-- crates/izel_parser/src: what a function needs of those that it calls, and the rules for all that a
-- function is put together from.
use izel.Prelude.{ℕ, ◌≤◌, List}
use izel.Lexer.Token.{Token}
use izel.Parser.Tree.{SyntaxNode, leaves}
use izel.Parser.Precedence.{Precedence}
use izel.Parser.Steps.{Act, M, Calls, ◌⨟◌, push_bump, push_node}
use izel.Parser.Good.{Mode, below, stays, moves, Good, GoodM}
use izel.Parser.Good.Primitives.{
  push_bump-Good, skip-Good, done-Good, push_trivia-Good, drop_trivia-Good,
}
use izel.Parser.Good.Runs.{moved_mode}
use izel.Parser.Good.Rules.{
  slow, slow_node, bump_seq, seq_moves, seq_stays, on-Good, choose-Good, when-Good, start-Good,
  push_node-Good, instead-Good,
}
use izel.Parser.Good.Loops.{while_in-Good, until-Good, separated_in-Good, separated_before-Good}
use izel.Parser.Good.Guards.{
  ensure_progress-Good, ensure_progress_at_or_before-Good, push_offset-Good, in_condition-GoodM,
  from-Good, weaken,
}

-- The calls read something, patterns apart.
pub record GoodCalls (Stuck : Type 0) (n : ℕ) (calls : Calls) : Type 0 where
  pub expr : (min : Precedence) → GoodM Stuck below n moves (calls.parse_expr min)
  pub stmt : GoodM Stuck below n moves calls.parse_stmt
  pub type : GoodM Stuck below n moves calls.parse_type
  pub pattern : Stuck → GoodM Stuck below n stays calls.parse_pattern
  pub decl : GoodM Stuck below n moves calls.parse_decl

pub weaken_calls :
    (Stuck : Type 0) {k n : ℕ} (calls : Calls)
    → k ≤ n
    → GoodCalls Stuck n calls
    → GoodCalls Stuck k calls
weaken_calls Stuck calls h good = record {
  expr = λ min. weaken Stuck h (good.expr min);
  stmt = weaken Stuck h good.stmt;
  type = weaken Stuck h good.type;
  pattern = λ s. weaken Stuck h (good.pattern s);
  decl = weaken Stuck h good.decl;
}

module _ (Stuck : Type 0) {n : ℕ} {mode : Mode} where
  pub push_bump_slow : Good Stuck mode n stays leaves push_bump
  push_bump_slow = slow Stuck (push_bump-Good Stuck)

  pub bump_seq_slow :
      {A : Type 0} {leaf : A → List Token} {k : Act A}
      → Good Stuck (moved_mode mode) n stays leaf k
      → Good Stuck mode n stays leaf (push_bump ⨟ k)
  bump_seq_slow h = slow Stuck (bump_seq Stuck h)

  pub push_slow :
      {m : M SyntaxNode} → GoodM Stuck mode n moves m → Good Stuck mode n stays leaves (push_node m)
  push_slow g = push_node-Good Stuck (slow_node Stuck g)

pub ruleset run_rules = (
  push_bump-Good, push_bump_slow, skip-Good, done-Good, push_trivia-Good, drop_trivia-Good,
  bump_seq, bump_seq_slow, seq_moves, seq_stays, on-Good, choose-Good, when-Good, start-Good,
  push_node-Good, instead-Good, while_in-Good, until-Good, separated_in-Good, separated_before-Good,
  ensure_progress-Good, ensure_progress_at_or_before-Good, push_offset-Good, in_condition-GoodM,
  from-Good, push_slow,
)
