-- ===== src/Parser/Good/Total.antt =====
-- crates/izel_parser/src: the parser with its functions calling one another.
use izel.Prelude.{ℕ, zero, suc, ◌-◌, ◌≤◌, inl, inr, arith, none}
use izel.Parser.Tree.{SyntaxNode}
use izel.Parser.Steps.{Parser, M}
use izel.Parser.Decl.{parse_source_file_with}
use izel.Parser.Run.{calls_to}
use izel.Parser.Good.{within, below, Pace, stays, Ready, GoodM}
use izel.Parser.Good.Calls.{GoodCalls}
use izel.Parser.Good.Pratt.{parse_expr_with-Good}
use izel.Parser.Good.Stmt.{parse_stmt_here-Good}
use izel.Parser.Good.Types.{parse_type_here-Good}
use izel.Parser.Good.Patterns.{parse_pattern-Good}
use izel.Parser.Good.Decl.{parse_decl_here-Good, parse_source_file-Good}

-- With fewer than `n` tokens left there are at most `n - 1`.
Ready-at_most :
    (Stuck : Type 0) (n : ℕ) (p : Parser) → Ready Stuck below n p → Ready Stuck within (n - 1) p
Ready-at_most Stuck n p (inl s) = inl s
Ready-at_most Stuck n p (inr (b, c)) = inr (omega (arith, b), c)

at_most :
    (Stuck : Type 0) (n : ℕ) {pace : Pace} {m : M SyntaxNode}
    → GoodM Stuck within (n - 1) pace m
    → GoodM Stuck below n pace m
at_most Stuck n g = record { at = λ p r. g.at p (Ready-at_most Stuck n p r) }

-- Where no token may be left, no run is made but one that need not return.
Ready-none : (Stuck : Type 0) (n : ℕ) (p : Parser) → n ≤ 0 → Ready Stuck below n p → Stuck
Ready-none Stuck n p h (inl s) = s
Ready-none Stuck n p h (inr (b, c)) = absurd (omega (arith, b, h))

no_run : (Stuck : Type 0) (n : ℕ) {pace : Pace} → n ≤ 0 → GoodM Stuck below n pace (λ p. none)
no_run Stuck n h = record { at = λ p r. record { ends = Ready-none Stuck n p h r } }

calls-Good : (Stuck : Type 0) (depth n : ℕ) → n ≤ depth → GoodCalls Stuck n (calls_to depth)
unfolding calls_to
calls-Good Stuck zero n h = record {
  expr = λ min. no_run Stuck n h;
  stmt = no_run Stuck n h;
  type = no_run Stuck n h;
  pattern = λ s. no_run Stuck n h;
  decl = no_run Stuck n h;
}
calls-Good Stuck (suc depth) n h =
    let calls = calls_to depth in
    let good = calls-Good Stuck depth (n - 1) (omega (arith, h)) in
    record {
      expr = λ min. at_most Stuck n (parse_expr_with-Good Stuck calls good min);
      stmt = at_most Stuck n (parse_stmt_here-Good Stuck calls good);
      type = at_most Stuck n (parse_type_here-Good Stuck calls good);
      pattern = λ s. at_most Stuck n (parse_pattern-Good Stuck s calls good);
      decl = at_most Stuck n (parse_decl_here-Good Stuck calls good);
    }

-- The parser of a whole source, at a depth of calls that is enough or where a run need not return.
pub source_file-Good :
    (Stuck : Type 0) (depth n : ℕ)
    → n ≤ depth
    → GoodM Stuck within n stays (parse_source_file_with (calls_to depth))
source_file-Good Stuck depth n h =
    parse_source_file-Good Stuck (calls_to depth) (calls-Good Stuck depth n h)
