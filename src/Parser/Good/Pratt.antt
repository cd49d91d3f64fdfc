-- ===== src/Parser/Good/Pratt.antt =====
-- crates/izel_parser/src/expr.rs: `parse_expr`, whose loop ends and leaves only what stands in the way
-- of its precedence.
use mathlib.Core.List.{sublist-append_left}
use mathlib.Core.List.Sublist
use izel.Prelude.{
  ℕ, zero, suc, ◌≡◌, ◌<◌, refl, ap, sym, ◌∙◌, inl, inr, arith, true, false, Bool-cases, some, ◌>>=◌,
  List, [], ◌∷◌, length,
}
use mathlib.Core.Path.{subst}
use izel.Lexer.Token.{TokenKind, Token, is_eof_kind, eof, whitespace, comment}
use izel.Parser.Tree.{SyntaxNode, leaves, node_leaves}
use izel.Parser.Kinds.{is_trivia}
use izel.Parser.Precedence.{Precedence, from_kind, rank}
use izel.Parser.Steps.{
  Calls, Parser, first_kind, current_kind, bump, bumps, trivia_count, after_trivia, eat_trivia,
}
use izel.Parser.Expr.{parse_primary, extend_lhs, stops, expr_loop, parse_expr_with}
use izel.Parser.Good.{
  Mode, within, below, after, stays, moves, Post, Ready, Run, GoodM, left-lt, left-le,
}
use izel.Parser.Good.Primitives.{still, trivia-Post}
use izel.Parser.Good.Runs.{Run-join, Run-bind, Ready-Post, Ready-moved, Ready-not_end}
use izel.Parser.Good.Rules.{slow-Run, widen_node}
use izel.Parser.Good.Loops.{ite-Run, some-Run}
use izel.Parser.Good.Calls.{GoodCalls}
use izel.Parser.Good.Expr.{parse_primary-Good, extend_lhs-Good}

trivia_not_eof : (k : TokenKind) → is_trivia k ≡ true → is_eof_kind k ≡ false
trivia_not_eof whitespace h = refl
trivia_not_eof comment h = refl
trivia_not_eof _ h = absurd (ground arith)

abbrev pub at_pos : List Token → ℕ → ℕ → Parser
at_pos ts depth pos = record { rest = ts; pos = pos; condition_expr_depth = depth }

bump_lem :
    (t : Token) (ts : List Token) (pos depth : ℕ)
    → is_eof_kind t.kind ≡ false
    → bump (at_pos (t ∷ ts) depth pos) ≡ (t, at_pos ts depth (suc pos))
unfolding bump
bump_lem t ts pos depth e = rw e refl

-- Reading as many tokens as there are trivia reads the trivia.
bumps-trivia :
    (ts : List Token) (pos depth : ℕ)
    → bumps (trivia_count ts) (record { rest = ts; pos = pos; condition_expr_depth = depth })
      ≡ (eat_trivia (record { rest = ts; pos = pos; condition_expr_depth = depth })).1
unfolding bumps bump trivia_count after_trivia eat_trivia
bumps-trivia [] pos depth = ap (at_pos [] depth) (omega arith)
bumps-trivia (t ∷ ts) pos depth = elim (Bool-cases (is_trivia t.kind)) [
  | inl more ↦
      let e = trivia_not_eof t.kind more in
      rw more (
        ap (λ (r : Token × Parser). bumps (trivia_count ts) r.1) (bump_lem t ts pos depth e)
        ∙ bumps-trivia ts (suc pos) depth
        ∙ ap (at_pos (after_trivia ts) depth) (omega arith))
  | inr none_here ↦ rw none_here (ap (at_pos (t ∷ ts) depth) (omega arith))
]

no_rank_at_end : (k : TokenKind) → is_eof_kind k ≡ true → rank (from_kind k) ≡ 0
unfolding rank from_kind
no_rank_at_end eof h = refl
no_rank_at_end _ h = absurd (ground arith)

goes_on :
    (min : Precedence) (p : Parser)
    → stops min p ≡ false
    → is_eof_kind (first_kind (after_trivia p.rest)) ≡ false
goes_on min p h = elim (Bool-cases (is_eof_kind (first_kind (after_trivia p.rest)))) [
  | inl is ↦ absurd (ground (arith, no_rank_at_end (first_kind (after_trivia p.rest)) is))
  | inr is_not ↦ is_not
]

below_after : (Stuck : Type 0) (n : ℕ) (p : Parser) → Ready Stuck below n p → Ready Stuck after n p
below_after Stuck n p (inl s) = inl s
below_after Stuck n p (inr (b, c)) = inr ((omega arith, inl b), c)

module _ (Stuck : Type 0) {n : ℕ} (calls : Calls) (good : GoodCalls Stuck n calls) where
  expr_loop-Run :
      (fuel : ℕ) (min : Precedence) (lhs : SyntaxNode) (p : Parser)
      → Ready Stuck after n p
      → length p.rest < fuel
      → Run Stuck node_leaves stays (node_leaves lhs) p (expr_loop calls fuel min lhs p)
  unfolding expr_loop eat_trivia
  expr_loop-Run zero min lhs p r h = absurd (omega (arith, h))
  expr_loop-Run (suc fuel) min lhs p r h =
      let kind = first_kind (after_trivia p.rest) in
      let q = bumps (trivia_count p.rest) p in
      let next = extend_lhs calls kind lhs q >>= λ r. expr_loop calls fuel min r.0 r.1 in
      ite-Run Stuck (stops min p) (some (lhs, p)) next
        (λ _. some-Run Stuck (still (Sublist.refl (node_leaves lhs))))
        (λ on.
          let e = bumps-trivia p.rest p.pos p.condition_expr_depth in
          let ahead =
            subst (λ (x : Parser). Post node_leaves stays (node_leaves lhs) p lhs x) (sym e)
              (trivia-Post {leaf = node_leaves} {a = lhs} p
                (sublist-append_left (node_leaves lhs) (leaves (eat_trivia p).0))) in
          let held = ap (λ (x : Parser). is_eof_kind (current_kind x)) e ∙ goes_on min p on in
          let ready = Ready-not_end Stuck n after q (Ready-Post Stuck n after r ahead) held in
          slow-Run Stuck next (
            Run-join Stuck next ahead (
              Run-bind Stuck (extend_lhs calls kind lhs q) (expr_loop calls fuel min)
                ((extend_lhs-Good Stuck calls good kind lhs).at q ready)
                (λ a v run.
                  expr_loop-Run fuel min a v
                    (below_after Stuck n v (Ready-Post Stuck n below ready run))
                    (omega (arith, left-le ahead, left-lt run held, h))))))

  parse_expr-Good : (min : Precedence) → GoodM Stuck within n moves (parse_expr_with calls min)
  unfolding parse_expr_with
  parse_expr-Good min = record {
    at = λ p r.
        Run-bind Stuck (parse_primary calls p)
          (λ a q. expr_loop calls (suc (length q.rest)) min a q)
          ((parse_primary-Good Stuck calls good).at p r)
          (λ a q run.
            expr_loop-Run (suc (length q.rest)) min a q (Ready-moved Stuck n within r run)
              (omega arith));
  }

  pub parse_expr_with-Good :
      {mode : Mode} (min : Precedence) → GoodM Stuck mode n moves (parse_expr_with calls min)
  parse_expr_with-Good min = widen_node Stuck (parse_expr-Good min)
