-- ===== src/Parser/Good/Guards.antt =====
-- crates/izel_parser/src: `ensure_progress`, `condition_expr_depth`, and branches whose start is known
-- better.
use mathlib.Core.List.Sublist
use izel.Prelude.{
  ℕ, zero, suc, ◌+◌, ◌-◌, ◌≤◌, ◌<◌, ◌≡◌, inl, inr, refl, Bool, true, false, some, List, [], ◌∷◌,
  append-nil, arith, length, if◌then◌else◌, ◌==◌, leb,
}
use izel.Lexer.Token.{TokenKind, Token, is_eof_kind, let_kw, tilde, branch}
use izel.Parser.Tree.{SyntaxNode, Children, no_children, node_then, leaves, node_leaves}
use izel.Parser.Kinds.{kind_in}
use izel.Parser.Steps.{
  Parser, M, Act, Step, current_kind, first_kind, bump, push_bumps, trivia_count, from, on,
  ensure_progress, ensure_progress_at_or_before, in_condition,
}
use izel.Parser.Expr.{push_offset}
use izel.Parser.Good.{
  Pace, stays, moves, Post, Mode, within, below, before_end, after, Ready, Run, Good, GoodM,
  GoodFrom, Post-join, Advance, pattern_free, starts_pattern,
}
use izel.Parser.Good.Primitives.{bump-Post, push_bump-Good, skip-Good}
use izel.Parser.Good.Runs.{kind_in_held, Run-map, slow-Post, not_end, Ready-within}
use izel.Parser.Good.Rules.{if-Run, on-Good, seq_stays, slow}
use izel.Parser.Good.Loops.{some-Run}

module _ (Stuck : Type 0) where
  moved-Post :
      {pace : Pace} {before : List Token} {p q : Parser} {ds : Children}
      (run : Post leaves pace before p ds q)
      → 0 < length run.used
      → Post leaves moves before p ds q
  moved-Post run h = record {
    used = run.used;
    split = run.split;
    moved = run.moved;
    depth = run.depth;
    order = run.order;
    held = run.held;
    advance = λ e. h;
  }

  forced-Run :
      {pace : Pace} {before : List Token} {p q : Parser} {ds : Children} (t : Bool)
      (run : Post leaves pace before p ds q)
      → (t ≡ false → 0 < length run.used)
      → Run Stuck leaves moves before p (if t then some (ds, (bump q).1) else some (ds, q))
  forced-Run {q = q} {ds} true run f =
      some-Run Stuck (Post-join (slow-Post Stuck run) (bump-Post q (Sublist.refl (leaves ds))))
  forced-Run false run f = some-Run Stuck (moved-Post run (f refl))

  equal_zero : (a b k : ℕ) → a ≡ b + k → (a == b) ≡ false → 0 < k
  equal_zero a b k e h = ground arith

  leb_zero : (a b k : ℕ) → a ≡ b + k → leb a b ≡ false → 0 < k
  leb_zero a b k e h = ground arith

push_bumps-Good : (Stuck : Type 0) {n : ℕ} (k : ℕ) → Good Stuck within n stays leaves (push_bumps k)
unfolding push_bumps
push_bumps-Good Stuck zero = skip-Good Stuck
push_bumps-Good Stuck (suc k) =
    seq_stays Stuck (slow Stuck (push_bump-Good Stuck)) (push_bumps-Good Stuck k)

pub push_offset-Good :
    (Stuck : Type 0) {n : ℕ} {mode : Mode} → Good Stuck mode n stays leaves push_offset
unfolding push_offset
push_offset-Good Stuck {n} {mode} = record {
  at = λ cs p r.
      (push_bumps-Good Stuck {n = n} (trivia_count p.rest)).at cs p (Ready-within Stuck n mode p r);
}

Advance-depth :
    (pace : Pace) (p : Parser) (d : ℕ) (used : List Token)
    → Advance pace (record p { condition_expr_depth = d }) used
    → Advance pace p used
Advance-depth stays p d used h = tt
Advance-depth moves p d used h = h

Ready-depth :
    (Stuck : Type 0) (n : ℕ) (mode : Mode) (p : Parser) (d : ℕ)
    → Ready Stuck mode n p
    → Ready Stuck mode n (record p { condition_expr_depth = d })
Ready-depth Stuck n mode p d (inl s) = inl s
Ready-depth Stuck n within p d (inr r) = inr r
Ready-depth Stuck n below p d (inr r) = inr r
Ready-depth Stuck n before_end p d (inr r) = inr r
Ready-depth Stuck n after p d (inr r) = inr r

pattern_free_first :
    (ts : List Token) → pattern_free ts ≡ true → starts_pattern (first_kind ts) ≡ false
unfolding pattern_free
pattern_free_first [] h = refl
pattern_free_first (t ∷ ts) h = ground arith

module _ (Stuck : Type 0) {n : ℕ} {mode : Mode} where
  module _ {s : Step} where
    pub ensure_progress-Good :
        Good Stuck mode n stays leaves s → Good Stuck mode n moves leaves (ensure_progress s)
    unfolding ensure_progress
    ensure_progress-Good g = record {
      at = λ cs p r.
          Run-map Stuck (s cs p)
            (λ r. if r.1.pos == p.pos then some (r.0, (bump r.1).1) else some r) (g.at cs p r)
            (λ ds q run.
              forced-Run Stuck (q.pos == p.pos) run
                (equal_zero Stuck q.pos p.pos (length run.used) run.moved));
    }

    pub ensure_progress_at_or_before-Good :
        Good Stuck mode n stays leaves s
        → Good Stuck mode n moves leaves (ensure_progress_at_or_before s)
    unfolding ensure_progress_at_or_before
    ensure_progress_at_or_before-Good g = record {
      at = λ cs p r.
          Run-map Stuck (s cs p)
            (λ r. if leb r.1.pos p.pos then some (r.0, (bump r.1).1) else some r) (g.at cs p r)
            (λ ds q run.
              forced-Run Stuck (leb q.pos p.pos) run
                (leb_zero Stuck q.pos p.pos (length run.used) run.moved));
    }

  pub in_condition-GoodM :
      {pace : Pace} {m : M SyntaxNode}
      → GoodM Stuck mode n pace m
      → GoodM Stuck mode n pace (in_condition m)
  unfolding in_condition
  in_condition-GoodM {pace} {m} g = record {
    at = λ p r.
        let d = suc p.condition_expr_depth in
        let deep = record p { condition_expr_depth = d } in
        Run-map Stuck (m deep)
          (λ r. some (r.0, record r.1 { condition_expr_depth = r.1.condition_expr_depth - 1 }))
          (g.at deep (Ready-depth Stuck n mode p d r))
          (λ a q run. record {
            ends = record {
              used = run.used;
              split = run.split;
              moved = run.moved;
              depth = omega (arith, run.depth);
              order = run.order;
              held = run.held;
              advance = Advance-depth pace p d run.used run.advance;
            };
          });
  }

  pub from-Good :
      {pace : Pace} {act : Act SyntaxNode} (lhs : SyntaxNode)
      → Good Stuck mode n pace node_leaves act
      → GoodFrom Stuck (node_leaves lhs) mode n pace (from lhs act)
  unfolding from leaves
  from-Good {pace} {act} lhs g = record {
    at = λ p r. rw (append-nil (node_leaves lhs)) at (g.at (node_then lhs no_children) p r);
  }

  -- Where patterns are read, which is only where a run need not return.
  pub on_pattern-Good :
      {A : Type 0} {leaf : A → List Token} {pace : Pace} (ks : List TokenKind) {a b : Act A}
      → ((k : TokenKind) → kind_in ks k ≡ true → starts_pattern k ≡ true)
      → (Stuck → Good Stuck (not_end mode) n pace leaf a)
      → Good Stuck mode n pace leaf b
      → Good Stuck mode n pace leaf (on ks a b)
  unfolding on
  on_pattern-Good {leaf = leaf} {pace = pace} ks {a} {b} starts g h = record {
    at = λ cs p r. case_of cs p r;
  }
    where
      case_of :
          (cs : Children) (p : Parser)
          → Ready Stuck mode n p
          → Run Stuck leaf pace (leaves cs) p (on ks a b cs p)
      case_of cs p (inl s) = (on-Good Stuck ks (g s) h).at cs p (inl s)
      case_of cs p (inr (c, free)) =
          if-Run Stuck (kind_in ks (current_kind p)) (a cs p) (b cs p)
            (λ is.
              absurd (ground (arith, starts (current_kind p) is, pattern_free_first p.rest free)))
            (λ _. h.at cs p (inr (c, free)))

branch_only : (k : TokenKind) → kind_in (branch ∷ []) k ≡ true → starts_pattern k ≡ true
unfolding kind_in
branch_only branch h = refl
branch_only _ h = absurd (ground arith)

let_only : (k : TokenKind) → kind_in (let_kw ∷ tilde ∷ []) k ≡ true → starts_pattern k ≡ true
unfolding kind_in
let_only let_kw h = refl
let_only tilde h = refl
let_only _ h = absurd (ground arith)

module _ (Stuck : Type 0) {n : ℕ} {mode : Mode} {A : Type 0} {leaf : A → List Token} {pace : Pace}
    {a b : Act A} where
  pub on_branch-Good :
      (Stuck → Good Stuck (not_end mode) n pace leaf a)
      → Good Stuck mode n pace leaf b
      → Good Stuck mode n pace leaf (on (branch ∷ []) a b)
  on_branch-Good = on_pattern-Good Stuck (branch ∷ []) branch_only

  pub on_let-Good :
      (Stuck → Good Stuck (not_end mode) n pace leaf a)
      → Good Stuck mode n pace leaf b
      → Good Stuck mode n pace leaf (on (let_kw ∷ tilde ∷ []) a b)
  on_let-Good = on_pattern-Good Stuck (let_kw ∷ tilde ∷ []) let_only

-- A smaller bound.
Ready-weaken :
    (Stuck : Type 0) {k n : ℕ} (p : Parser) → k ≤ n → Ready Stuck below k p → Ready Stuck below n p
Ready-weaken Stuck p h (inl s) = inl s
Ready-weaken Stuck p h (inr (b, c)) = inr (omega (arith, h), c)

pub weaken :
    (Stuck : Type 0) {k n : ℕ} {pace : Pace} {m : M SyntaxNode}
    → k ≤ n
    → GoodM Stuck below n pace m
    → GoodM Stuck below k pace m
weaken Stuck h g = record { at = λ p r. g.at p (Ready-weaken Stuck p h r) }

Ready-fewer :
    (Stuck : Type 0) (k : ℕ) (p : Parser)
    → Ready Stuck below k p
    → is_eof_kind (current_kind p) ≡ false
    → Ready Stuck before_end (k - 1) p
Ready-fewer Stuck k p (inl s) e = inl s
Ready-fewer Stuck k p (inr (b, c)) e = inr ((omega (arith, b), e), c)

-- A branch on the kind of a token, after which fewer are left.
pub on_fewer-Good :
    (Stuck : Type 0) {k : ℕ} {A : Type 0} {leaf : A → List Token} {pace : Pace}
    (ks : List TokenKind) {a b : Act A}
    → Good Stuck before_end (k - 1) pace leaf a
    → Good Stuck below k pace leaf b
    → Good Stuck below k pace leaf (on ks a b)
unfolding on
on_fewer-Good Stuck {k} ks {a} {b} g h = record {
  at = λ cs p r.
      if-Run Stuck (kind_in ks (current_kind p)) (a cs p) (b cs p)
        (λ is. g.at cs p (Ready-fewer Stuck k p r (kind_in_held ks (current_kind p) is)))
        (λ _. h.at cs p r);
}
