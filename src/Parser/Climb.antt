-- ===== src/Parser/Climb.antt =====
-- crates/izel_parser/src/expr.rs: where an expression stops.
use izel.Prelude.{
  ℕ, zero, suc, ◌≡◌, ap, sym, ◌∙◌, inl, inr, Option-cases, arith, true, false, not, ◌||◌, leb, ◌==◌,
  Bool-cases, some_inj, none_some, Option, some, none, List, [], ◌∷◌, ◌↔◌, ◌⊎◌, ◌<◌, ◌>>=◌, length,
}
use izel.Lexer.Token.{
  TokenKind, pipe, question_question, or_kw, and_kw, eq_eq, not_eq, is_kw, lt, gt, le, ge, caret,
  ampersand, plus, minus, star, slash, percent, as_kw, bang, dot, open_paren, open_bracket,
  double_colon, open_brace, question,
}
use izel.Parser.Tree.{SyntaxNode}
use izel.Parser.Kinds.{kind_in, any_kind, tag}
use izel.Parser.Precedence.{Precedence, rank, from_kind}
use izel.Parser.Steps.{Parser, Calls, M, bumps, first_kind, after_trivia, trivia_count}
use izel.Parser.Expr.{parse_primary, extend_lhs, stops, expr_loop, parse_expr_with}

abbrev postfix : List TokenKind
postfix = bang ∷ dot ∷ open_paren ∷ open_bracket ∷ double_colon ∷ open_brace ∷ question ∷ []

abbrev tightest : List TokenKind
tightest = as_kw ∷ postfix

abbrev products : List TokenKind
products = star ∷ slash ∷ percent ∷ tightest

abbrev sums : List TokenKind
sums = plus ∷ minus ∷ products

abbrev bitwise : List TokenKind
bitwise = caret ∷ ampersand ∷ sums

abbrev comparisons : List TokenKind
comparisons = lt ∷ gt ∷ le ∷ ge ∷ bitwise

abbrev equalities : List TokenKind
equalities = eq_eq ∷ not_eq ∷ is_kw ∷ comparisons

-- The operators that bind tighter than a precedence, from the pipe to the calls.
abbrev pub tighter : Precedence → List TokenKind
tighter Precedence.none = pipe ∷ question_question ∷ or_kw ∷ and_kw ∷ equalities
tighter Precedence.pipeline = question_question ∷ or_kw ∷ and_kw ∷ equalities
tighter Precedence.coalesce = or_kw ∷ and_kw ∷ equalities
tighter Precedence.logical_or = and_kw ∷ equalities
tighter Precedence.logical_and = equalities
tighter Precedence.equality = comparisons
tighter Precedence.comparison = bitwise
tighter Precedence.bit_or = bitwise
tighter Precedence.bit_xor = ampersand ∷ sums
tighter Precedence.bit_and = sums
tighter Precedence.shift = sums
tighter Precedence.sum = products
tighter Precedence.product = tightest
tighter Precedence.unary = tightest
tighter Precedence.cast = postfix
tighter Precedence.type = postfix
tighter Precedence.call = []

table :
    (min : Precedence) (k : TokenKind)
    → (leb (rank (from_kind k)) (rank min) || rank (from_kind k) == 0)
      ≡ not (kind_in (tighter min) k)
unfolding rank from_kind kind_in any_kind tag
table Precedence.none k = ground arith
table Precedence.pipeline k = ground arith
table Precedence.coalesce k = ground arith
table Precedence.logical_or k = ground arith
table Precedence.logical_and k = ground arith
table Precedence.equality k = ground arith
table Precedence.comparison k = ground arith
table Precedence.bit_or k = ground arith
table Precedence.bit_xor k = ground arith
table Precedence.bit_and k = ground arith
table Precedence.shift k = ground arith
table Precedence.sum k = ground arith
table Precedence.product k = ground arith
table Precedence.unary k = ground arith
table Precedence.cast k = ground arith
table Precedence.type k = ground arith
table Precedence.call k = ground arith

-- An expression of this least precedence ends here: what is next, trivia apart, is the opening brace
-- behind a condition, or none of the operators that bind tighter.
abbrev pub IsEnd : Precedence → Parser → Type 0
IsEnd min p =
    ((0 < p.condition_expr_depth)
      × (kind_in (open_brace ∷ []) (first_kind (after_trivia p.rest)) ≡ true))
    ⊎ (kind_in (tighter min) (first_kind (after_trivia p.rest)) ≡ false)

stops_iff : (min : Precedence) (p : Parser) → (stops min p ≡ true) ↔ IsEnd min p
stops_iff min p =
    let eq = table min (first_kind (after_trivia p.rest)) in
    (
      λ h. elim (Bool-cases (kind_in (tighter min) (first_kind (after_trivia p.rest)))) [
        | inl more ↦ inl (ground (arith, eq))
        | inr ended ↦ inr ended
      ],
      elim [ inl (deep, brace) ↦ ground (arith, eq) | inr ended ↦ ground (arith, eq) ],
    )

-- What holds of every result of a last run holds of the result of all.
holds_after :
    (k : SyntaxNode → M SyntaxNode) (Q : Parser → Type 0)
    → ((a b : SyntaxNode) (p q : Parser) → k a p ≡ some (b, q) → Q q)
    → (o : Option (SyntaxNode × Parser)) (b : SyntaxNode) (q : Parser)
    → (o >>= λ r. k r.0 r.1) ≡ some (b, q)
    → Q q
holds_after k Q f none b q e = absurd (none_some e)
holds_after k Q f (some (a, p)) b q e = f a b p q e

module _ (calls : Calls) (min : Precedence) where
  expr_loop_ended :
      (fuel : ℕ) (lhs tree : SyntaxNode) (p q : Parser)
      → stops min p ≡ true
      → expr_loop calls (suc fuel) min lhs p ≡ some (tree, q)
      → (tree ≡ lhs) × (q ≡ p)
  unfolding expr_loop
  expr_loop_ended fuel lhs tree p q is h =
      let e = some_inj (rw is at h) in (sym (ap (λ r. r.0) e), sym (ap (λ r. r.1) e))

  expr_loop-stops :
      (fuel : ℕ) (lhs tree : SyntaxNode) (p q : Parser)
      → expr_loop calls fuel min lhs p ≡ some (tree, q)
      → stops min q ≡ true
  unfolding expr_loop
  expr_loop-stops zero lhs tree p q h = absurd (none_some h)
  expr_loop-stops (suc fuel) lhs tree p q h = elim (Bool-cases (stops min p)) [
    | inl is ↦ let e = ap (λ r. r.1) (some_inj (rw is at h)) in ap (stops min) (sym e) ∙ is
    | inr is_not ↦
        let kind = first_kind (after_trivia p.rest) in
        holds_after (expr_loop calls fuel min) (λ v. stops min v ≡ true) (expr_loop-stops fuel)
          (extend_lhs calls kind lhs (bumps (trivia_count p.rest) p)) tree q (rw is_not at h)
  ]

-- An expression that is parsed with a least precedence ends where none of the operators that bind tighter
-- is next, or the opening brace behind a condition is; and it is its primary expression alone exactly
-- when it may end behind that. The functions that are called may be any.
pub parse_expr_stops :
    (calls : Calls) (min : Precedence) (tree : SyntaxNode) (p q : Parser)
    → parse_expr_with calls min p ≡ some (tree, q)
    → IsEnd min q
      × (lhs : SyntaxNode) × (v : Parser) × (parse_primary calls p ≡ some (lhs, v))
      × (IsEnd min v ↔ ((tree ≡ lhs) × (q ≡ v)))
unfolding parse_expr_with
parse_expr_stops calls min tree p q h = elim (Option-cases (parse_primary calls p)) [
  | inl e ↦ absurd (none_some (rw e at h))
  | inr ((lhs, v), e) ↦
      let loop = rw e at h in
      let fuel = length v.rest in
      let ended = (stops_iff min q).0 (expr_loop-stops calls min (suc fuel) lhs tree v q loop) in
      (
        ended,
        lhs,
        v,
        e,
        (
          λ at_end. expr_loop_ended calls min fuel lhs tree v q ((stops_iff min v).1 at_end) loop,
          λ (_, same). rw same at ended,
        ),
      )
]
