-- ===== src/Parser/Good/Runs.antt =====
-- crates/izel_parser/src: runs one after the other, and where the later ones start.
use izel.Prelude.{
  ℕ, ◌≡◌, inl, inr, refl, ap, sym, ◌∙◌, true, false, Option, none, some, List, ◌++◌, arith,
  Bool-cases, ◌>>=◌,
}
use izel.Lexer.Token.{TokenKind, Token, is_eof_kind, eof}
use izel.Parser.Kinds.{kind_in, kind_before}
use izel.Parser.Steps.{Parser, M, current_kind, first_kind}
use izel.Parser.Good.{
  Pace, stays, moves, Post, Mode, within, below, before_end, after, Bound, Ready, Run, Post-join,
  join, left-le, left-lt, pattern_free-Post,
}

pub kind_in_held :
    (ks : List TokenKind) (k : TokenKind) → kind_in ks k ≡ true → is_eof_kind k ≡ false
unfolding kind_in
kind_in_held ks eof h = absurd (ground arith)
kind_in_held ks _ h = refl

pub kind_before_held :
    (ks : List TokenKind) (k : TokenKind) → kind_before ks k ≡ true → is_eof_kind k ≡ false
unfolding kind_before
kind_before_held ks eof h = absurd (ground arith)
kind_before_held ks _ h = refl

module _ (Stuck : Type 0) where
  pub Run-map :
      {A B : Type 0} {leaf : A → List Token} {leaf' : B → List Token} {one two : Pace}
      {before before' : List Token} {p p' : Parser} (o : Option (A × Parser))
      (f : A × Parser → Option (B × Parser))
      → Run Stuck leaf one before p o
      → ((a : A) (r : Parser)
          → Post leaf one before p a r
          → Run Stuck leaf' two before' p' (f (a, r)))
      → Run Stuck leaf' two before' p' (o >>= f)
  Run-map none f h g = record { ends = h.ends }
  Run-map (some (a, r)) f h g = g a r h.ends

  pub Run-join :
      {A B : Type 0} {leaf : A → List Token} {leaf' : B → List Token} {one two : Pace}
      {before : List Token} {p q : Parser} {b : B} (o : Option (A × Parser))
      → Post leaf' one before p b q
      → Run Stuck leaf two (leaf' b) q o
      → Run Stuck leaf (join one two) before p o
  Run-join none first h = record { ends = h.ends }
  Run-join (some (a, r)) first h = record { ends = Post-join first h.ends }

  -- A run goes on with what the run before it left.
  pub Run-bind :
      {A B : Type 0} {leaf : A → List Token} {leaf' : B → List Token} {one two : Pace}
      {before : List Token} {p : Parser} (o : Option (B × Parser)) (k : B → M A)
      → Run Stuck leaf' one before p o
      → ((b : B) (q : Parser)
          → Post leaf' one before p b q
          → Run Stuck leaf two (leaf' b) q (k b q))
      → Run Stuck leaf (join one two) before p (o >>= λ r. k r.0 r.1)
  Run-bind o k h g =
      Run-map o (λ r. k r.0 r.1) h (λ b q first. Run-join (k b q) first (g b q first))

  pub slow-Post :
      {A : Type 0} {leaf : A → List Token} {pace : Pace} {before : List Token} {p q : Parser}
      {a : A}
      → Post leaf pace before p a q
      → Post leaf stays before p a q
  slow-Post run = record {
    used = run.used;
    split = run.split;
    moved = run.moved;
    depth = run.depth;
    order = run.order;
    held = run.held;
    advance = tt;
  }

-- Where a run may start once another has been made from there, once that has read something unless it
-- was at the end, and once the kind of the token is known.
abbrev pub then_mode : Mode → Mode
then_mode within = within
then_mode below = below
then_mode before_end = within
then_mode after = after

abbrev pub moved_mode : Mode → Mode
moved_mode within = after
moved_mode below = below
moved_mode before_end = below
moved_mode after = after

abbrev pub not_end : Mode → Mode
not_end within = before_end
not_end below = below
not_end before_end = before_end
not_end after = below

at_end :
    {A : Type 0} {leaf : A → List Token} {pace : Pace} {before : List Token} {p q : Parser} {a : A}
    → Post leaf pace before p a q
    → is_eof_kind (current_kind p) ≡ true
    → is_eof_kind (current_kind q) ≡ true
at_end {p = p} {q = q} run h =
    let e : p.rest ≡ q.rest = run.split ∙ ap (λ u. u ++ q.rest) (run.held h) in
    ap (λ ts. is_eof_kind (first_kind ts)) (sym e) ∙ h

module _ {A : Type 0} {leaf : A → List Token} {pace : Pace} {before : List Token} {p q : Parser}
    {a : A} (n : ℕ) where
  Bound-Post :
      (mode : Mode) → Bound mode n p → Post leaf pace before p a q → Bound (then_mode mode) n q
  Bound-Post within b run = omega (arith, left-le run)
  Bound-Post below b run = omega (arith, left-le run)
  Bound-Post before_end b run = omega (arith, left-le run, b.0)
  Bound-Post after (b, inl c) run = (omega (arith, left-le run), inl (omega (arith, left-le run)))
  Bound-Post after (b, inr c) run = (omega (arith, left-le run), inr (at_end run c))

Bound-not_end :
    (n : ℕ) (p : Parser) (mode : Mode)
    → Bound mode n p
    → is_eof_kind (current_kind p) ≡ false
    → Bound (not_end mode) n p
Bound-not_end n p within b e = (b, e)
Bound-not_end n p below b e = b
Bound-not_end n p before_end b e = b
Bound-not_end n p after (b, inl c) e = c
Bound-not_end n p after (b, inr c) e = absurd (ground arith)

module _ {A : Type 0} {leaf : A → List Token} {before : List Token} {p q : Parser} {a : A}
    (n : ℕ) where
  Bound-moved :
      (mode : Mode) → Bound mode n p → Post leaf moves before p a q → Bound (moved_mode mode) n q
  Bound-moved within b run = elim (Bool-cases (is_eof_kind (current_kind p))) [
    | inl is ↦ (omega (arith, left-le run), inr (at_end run is))
    | inr is_not ↦ (omega (arith, left-le run), inl (omega (arith, left-lt run is_not)))
  ]
  Bound-moved below b run = omega (arith, left-le run)
  Bound-moved before_end b run = omega (arith, left-lt run b.1, b.0)
  Bound-moved after b run = Bound-Post n after b run

module _ (Stuck : Type 0) (n : ℕ) (mode : Mode) where
  pub Ready-Post :
      {A : Type 0} {leaf : A → List Token} {pace : Pace} {before : List Token} {p q : Parser}
      {a : A}
      → Ready Stuck mode n p
      → Post leaf pace before p a q
      → Ready Stuck (then_mode mode) n q
  Ready-Post (inl s) run = inl s
  Ready-Post (inr (b, c)) run = inr (Bound-Post n mode b run, pattern_free-Post run c)

  pub Ready-moved :
      {A : Type 0} {leaf : A → List Token} {before : List Token} {p q : Parser} {a : A}
      → Ready Stuck mode n p
      → Post leaf moves before p a q
      → Ready Stuck (moved_mode mode) n q
  Ready-moved (inl s) run = inl s
  Ready-moved (inr (b, c)) run = inr (Bound-moved n mode b run, pattern_free-Post run c)

  pub Ready-not_end :
      (p : Parser)
      → Ready Stuck mode n p
      → is_eof_kind (current_kind p) ≡ false
      → Ready Stuck (not_end mode) n p
  Ready-not_end p (inl s) e = inl s
  Ready-not_end p (inr (b, c)) e = inr (Bound-not_end n p mode b e, c)

-- Any start is one within.
pub Ready-within :
    (Stuck : Type 0) (n : ℕ) (mode : Mode) (p : Parser)
    → Ready Stuck mode n p
    → Ready Stuck within n p
Ready-within Stuck n mode p (inl s) = inl s
Ready-within Stuck n within p (inr r) = inr r
Ready-within Stuck n below p (inr (b, c)) = inr (omega arith, c)
Ready-within Stuck n before_end p (inr (b, c)) = inr (b.0, c)
Ready-within Stuck n after p (inr (b, c)) = inr (b.0, c)
