-- ===== src/Parser/Good.antt =====
-- crates/izel_parser/src: what every function of the parser keeps. A run reads tokens from the front of
-- the rest, and the tokens of its result are among those it was given and those it read, in order.
pub mod Primitives
pub mod Runs
pub mod Rules
pub mod Loops
pub mod Guards
pub mod Calls
pub mod Control
pub mod Expr
pub mod Pratt
pub mod Types
pub mod Stmt
pub mod Decl
pub mod Patterns
pub mod Total
use mathlib.Core.List.{Sublist}
use mathlib.Core.List.Sublist
use izel.Prelude.{
  ℕ, zero, suc, ◌+◌, ◌≤◌, ◌<◌, ◌≡◌, ◌⊎◌, inl, inr, refl, ap, sym, ◌∙◌, Bool, true, false, ◌&&◌, not,
  Option, none, some, List, [], ◌∷◌, ◌++◌, append_assoc, arith, length, length-append, Bool-cases,
}
use izel.Lexer.Token.{TokenKind, Token, let_kw, tilde, branch, is_eof_kind}
use izel.Parser.Tree.{SyntaxNode, Children, leaves, node_leaves}
use izel.Parser.Steps.{Parser, M, Act, current_kind, first_kind}

-- No `let`, `~` or `branch`, behind which patterns are read.
abbrev pub starts_pattern : TokenKind → Bool
starts_pattern let_kw = true
starts_pattern tilde = true
starts_pattern branch = true
starts_pattern _ = false

unfoldable pub pattern_free : List Token → Bool
pattern_free [] = true
pattern_free (t ∷ ts) = not (starts_pattern t.kind) && pattern_free ts

-- Whether a run is known to read something, where the input is not at its end.
pub data Pace : Type 0 where
  stays moves : Pace

abbrev pub Advance : Pace → Parser → List Token → Type 0
Advance stays p used = Unit
Advance moves p used = is_eof_kind (current_kind p) ≡ false → 0 < length used

-- A run from `p` to `p'` with the result `a`, where `before` are the tokens of the children so far.
pub record Post {A : Type 0} (leaf : A → List Token) (pace : Pace) (before : List Token)
    (p : Parser) (a : A) (p' : Parser) : Type 0 where
  pub used : List Token
  pub split : p.rest ≡ used ++ p'.rest
  pub moved : p'.pos ≡ p.pos + length used
  pub depth : p'.condition_expr_depth ≡ p.condition_expr_depth
  pub order : Sublist (leaf a) (before ++ used)
  pub held : is_eof_kind (current_kind p) ≡ true → used ≡ []
  pub advance : Advance pace p used

-- Where a run may start: with at most `n` tokens left, with fewer, with at most `n` and not at the
-- end, or with fewer unless it is at the end.
pub data Mode : Type 0 where
  within below before_end after : Mode

abbrev pub Bound : Mode → ℕ → Parser → Type 0
Bound within n p = length p.rest ≤ n
Bound below n p = length p.rest < n
Bound before_end n p = (length p.rest ≤ n) × (is_eof_kind (current_kind p) ≡ false)
Bound after n p =
    (length p.rest ≤ n) × ((length p.rest < n) ⊎ (is_eof_kind (current_kind p) ≡ true))

-- `Stuck` is what a run that does not return proves: nothing where it is the empty type, so that
-- every run returns, and then the start has to be bounded and free of patterns.
module _ (Stuck : Type 0) where
  abbrev pub Ensures : {A : Type 0} → (A → Parser → Type 0) → Option (A × Parser) → Type 0
  Ensures Q none = Stuck
  Ensures Q (some (a, p')) = Q a p'

  abbrev pub Ready : Mode → ℕ → Parser → Type 0
  Ready mode n p = Stuck ⊎ (Bound mode n p × (pattern_free p.rest ≡ true))

  -- A run that does not return makes `Stuck` true, and any other has `Post`.
  pub record Run {A : Type 0} (leaf : A → List Token) (pace : Pace) (before : List Token)
      (p : Parser) (o : Option (A × Parser)) : Type 0 where
    pub ends : Ensures (λ a p'. Post leaf pace before p a p') o

  pub record Good {A : Type 0} (mode : Mode) (n : ℕ) (pace : Pace) (leaf : A → List Token)
      (act : Act A) : Type 0 where
    pub at : (cs : Children) (p : Parser) → Ready mode n p → Run leaf pace (leaves cs) p (act cs p)

  pub record GoodM (mode : Mode) (n : ℕ) (pace : Pace) (m : M SyntaxNode) : Type 0 where
    pub at : (p : Parser) → Ready mode n p → Run node_leaves pace [] p (m p)

  -- An action whose first children are given with it.
  pub record GoodFrom (before : List Token) (mode : Mode) (n : ℕ) (pace : Pace) (m : M SyntaxNode)
      : Type 0 where
    pub at : (p : Parser) → Ready mode n p → Run node_leaves pace before p (m p)

-- Runs one after the other.
abbrev pub join : Pace → Pace → Pace
join moves q = moves
join stays q = q

left-eq :
    {A : Type 0} {leaf : A → List Token} {pace : Pace} {before : List Token} {p p' : Parser} {a : A}
    (run : Post leaf pace before p a p')
    → length p.rest ≡ length run.used + length p'.rest
left-eq {p = p} {p' = p'} run = ap length run.split ∙ length-append run.used p'.rest

pub left-le :
    {A : Type 0} {leaf : A → List Token} {pace : Pace} {before : List Token} {p p' : Parser} {a : A}
    → Post leaf pace before p a p'
    → length p'.rest ≤ length p.rest
left-le run = omega (arith, left-eq run)

pub left-lt :
    {A : Type 0} {leaf : A → List Token} {before : List Token} {p p' : Parser} {a : A}
    → Post leaf moves before p a p'
    → is_eof_kind (current_kind p) ≡ false
    → length p'.rest < length p.rest
left-lt run h = omega (arith, left-eq run, run.advance h)

pattern_free-append : (s t : List Token) → pattern_free (s ++ t) ≡ true → pattern_free t ≡ true
unfolding pattern_free
pattern_free-append [] t h = h
pattern_free-append (x ∷ s) t h = pattern_free-append s t (ground arith)

pub pattern_free-Post :
    {A : Type 0} {leaf : A → List Token} {pace : Pace} {before : List Token} {p p' : Parser} {a : A}
    → Post leaf pace before p a p'
    → pattern_free p.rest ≡ true
    → pattern_free p'.rest ≡ true
pattern_free-Post {p' = p'} run h = pattern_free-append run.used p'.rest (rw run.split at h)

Advance-join :
    (one two : Pace) (p q : Parser) (u v : List Token)
    → Advance one p u
    → Advance two q v
    → (u ≡ [] → q.rest ≡ p.rest)
    → Advance (join one two) p (u ++ v)
Advance-join moves two p q u v f g e = λ h. omega (arith, f h, length-append u v)
Advance-join stays stays p q u v f g e = tt
Advance-join stays moves p q [] v f g e = λ h. g (rw (ap first_kind (e refl)) h)
Advance-join stays moves p q (x ∷ u) v f g e = λ h. omega arith

module _ {A B : Type 0} {leaf : A → List Token} {leaf' : B → List Token} {one two : Pace}
    {before : List Token} {p q r : Parser} {b : B} {a : A} (first : Post leaf' one before p b q)
    (second : Post leaf two (leaf' b) q a r) where
  same_rest : first.used ≡ [] → q.rest ≡ p.rest
  same_rest e = sym (first.split ∙ ap (λ u. u ++ q.rest) e)

  joined_order : Sublist (leaf a) (before ++ (first.used ++ second.used))
  joined_order =
      rw (← append_assoc before first.used second.used)
        (Sublist.trans second.order (Sublist.append first.order (Sublist.refl second.used)))

  pub Post-join : Post leaf (join one two) before p a r
  Post-join = record {
    used = first.used ++ second.used;
    split =
        first.split
        ∙ ap (λ u. first.used ++ u) second.split
        ∙ sym (append_assoc first.used second.used r.rest);
    moved = omega (arith, first.moved, second.moved, length-append first.used second.used);
    depth = second.depth ∙ first.depth;
    order = joined_order;
    held = λ h.
        let e = first.held h in
        let f = second.held (rw (ap first_kind (same_rest e)) h) in rw (e, f) refl;
    advance =
        Advance-join one two p q first.used second.used first.advance second.advance same_rest;
  }
