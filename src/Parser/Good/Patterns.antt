-- ===== src/Parser/Good/Patterns.antt =====
-- crates/izel_parser/src/lib.rs: `parse_pattern`, whose loops need not end: every rule is for a run that
-- may not return.
use mathlib.Core.List.Sublist
use izel.Prelude.{ℕ, zero, suc, Bool, some, ◌>>=◌, inl, List, length}
use izel.Lexer.Token.{TokenKind}
use izel.Parser.Tree.{Children, leaves}
use izel.Parser.Kinds.{kind_before}
use izel.Parser.Steps.{Calls, Parser, Step, current_kind, repeat, until}
use izel.Parser.Patterns.{
  comma_here, patterns_to, slice_patterns, path_segments, named_pattern, pattern_body,
  parse_pattern_here,
}
use izel.Parser.Good.{Mode, within, below, before_end, stays, Run, Good, GoodM}
use izel.Parser.Good.Primitives.{still}
use izel.Parser.Good.Runs.{Run-bind}
use izel.Parser.Good.Loops.{ite-Run, some-Run}
use izel.Parser.Good.Calls.{GoodCalls, run_rules}

module _ (Stuck : Type 0) (stuck : Stuck) {n : ℕ} {mode : Mode} {s : Step}
    (g : Good Stuck mode n stays leaves s) where
  endless-Run :
      (test : TokenKind → Bool) (fuel : ℕ) (cs : Children) (p : Parser)
      → Run Stuck leaves stays (leaves cs) p (repeat fuel test s cs p)
  unfolding repeat
  endless-Run test zero cs p = record { ends = stuck }
  endless-Run test (suc fuel) cs p =
      ite-Run Stuck (test (current_kind p)) (s cs p >>= λ r. repeat fuel test s r.0 r.1)
        (some (cs, p))
        (λ _.
          Run-bind Stuck (s cs p) (repeat fuel test s) (g.at cs p (inl stuck))
            (λ ds q run. endless-Run test fuel ds q))
        (λ _. some-Run Stuck (still (Sublist.refl (leaves cs))))

  endless_until-Good : (ks : List TokenKind) → Good Stuck mode n stays leaves (until ks s)
  unfolding until
  endless_until-Good ks = record {
    at = λ cs p r. endless-Run (kind_before ks) (suc (length p.rest)) cs p;
  }

module _ (Stuck : Type 0) (stuck : Stuck) {n : ℕ} (calls : Calls)
    (good : GoodCalls Stuck n calls) where
  pattern-Good : GoodM Stuck below n stays calls.parse_pattern
  pattern-Good = good.pattern stuck

  comma_here-Good : {mode : Mode} → Good Stuck mode n stays leaves (comma_here calls)
  unfolding comma_here
  comma_here-Good = search run_rules depth 30

  patterns_to-Good :
      (close : TokenKind) → Good Stuck before_end n stays leaves (patterns_to calls close)
  unfolding patterns_to
  patterns_to-Good close =
      search (endless_until-Good, run_rules, pattern-Good, comma_here-Good) depth 30

  patterns_below : (close : TokenKind) → Good Stuck below n stays leaves (patterns_to calls close)
  unfolding patterns_to
  patterns_below close =
      search (endless_until-Good, run_rules, pattern-Good, comma_here-Good) depth 30

  slice_patterns-Good : Good Stuck before_end n stays leaves (slice_patterns calls)
  unfolding slice_patterns
  slice_patterns-Good =
      search (endless_until-Good, run_rules, pattern-Good, comma_here-Good) depth 30

  path_segments-Good : Good Stuck below n stays leaves (path_segments calls)
  unfolding path_segments
  path_segments-Good = search run_rules depth 30

  named_pattern-Good : Good Stuck within n stays leaves (named_pattern calls)
  unfolding named_pattern
  named_pattern-Good = search (run_rules, path_segments-Good, patterns_below) depth 30

  pattern_body-Good : Good Stuck within n stays leaves (pattern_body calls)
  unfolding pattern_body
  pattern_body-Good =
      search (run_rules, patterns_to-Good, slice_patterns-Good, named_pattern-Good) depth 30

  pub parse_pattern-Good : GoodM Stuck within n stays (parse_pattern_here calls)
  unfolding parse_pattern_here
  parse_pattern-Good = search (run_rules, pattern_body-Good, pattern-Good) depth 30
