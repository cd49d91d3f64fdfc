-- ===== src/Parser/Good/Loops.antt =====
-- crates/izel_parser/src: one rule for each loop, and for the parts that change what a run keeps.
use mathlib.Core.List.Sublist
use izel.Prelude.{
  ℕ, zero, suc, ◌<◌, ◌≡◌, inl, inr, refl, Bool, true, false, Option, some, List, arith, length,
  if◌then◌else◌, ◌>>=◌,
}
use izel.Lexer.Token.{TokenKind, Token, is_eof_kind}
use izel.Parser.Tree.{Children, leaves}
use izel.Parser.Kinds.{kind_in, kind_before}
use izel.Parser.Steps.{
  Parser, Step, current_kind, skip, push_bump, push_trivia, ◌⨟◌, on, when, repeat, while_in, until,
  separated, separated_loop,
}
use izel.Parser.Good.{
  Pace, stays, moves, Post, Mode, within, below, before_end, after, Ready, Run, Good, left-le,
  left-lt,
}
use izel.Parser.Good.Primitives.{still, push_bump-Good, push_trivia-Good}
use izel.Parser.Good.Runs.{
  kind_in_held, kind_before_held, Run-bind, then_mode, not_end, Ready-Post, Ready-not_end,
}
use izel.Parser.Good.Rules.{slow-Run, if-Run}

module _ (Stuck : Type 0) where
  pub ite-Run :
      {A : Type 0} {leaf : A → List Token} {pace : Pace} {before : List Token} {p : Parser}
      (t : Bool) (x y : Option (A × Parser))
      → (t ≡ true → Run Stuck leaf pace before p x)
      → (t ≡ false → Run Stuck leaf pace before p y)
      → Run Stuck leaf pace before p (if t then x else y)
  ite-Run true x y f g = f refl
  ite-Run false x y f g = g refl

  pub some-Run :
      {A : Type 0} {leaf : A → List Token} {pace : Pace} {before : List Token} {p q : Parser}
      {a : A}
      → Post leaf pace before p a q
      → Run Stuck leaf pace before p (some (a, q))
  some-Run run = record { ends = run }

module _ (Stuck : Type 0) where
  -- A run behind one that may not have read anything.
  pub then-Run :
      {one two : Pace} (s t : Step) (cs : Children) (p : Parser)
      → Run Stuck leaves one (leaves cs) p (s cs p)
      → ((ds : Children) (q : Parser)
          → Post leaves one (leaves cs) p ds q
          → Run Stuck leaves two (leaves ds) q (t ds q))
      → Run Stuck leaves stays (leaves cs) p ((s ⨟ t) cs p)
  unfolding ◌⨟◌
  then-Run s t cs p g h = slow-Run Stuck ((s ⨟ t) cs p) (Run-bind Stuck (s cs p) t g h)

-- The modes that the rounds of a loop keep.
abbrev pub loops : Mode → Bool
loops before_end = false
loops _ = true

Ready-keeps :
    (Stuck : Type 0) (n : ℕ) (mode : Mode) (p : Parser)
    → loops mode ≡ true
    → Ready Stuck (then_mode (not_end mode)) n p
    → Ready Stuck mode n p
Ready-keeps Stuck n mode p l (inl s) = inl s
Ready-keeps Stuck n within p l (inr r) = inr r
Ready-keeps Stuck n below p l (inr r) = inr r
Ready-keeps Stuck n before_end p l (inr r) = absurd (ground arith)
Ready-keeps Stuck n after p l (inr (b, c)) = inr ((omega arith, inl b), c)

Ready-steady :
    (Stuck : Type 0) (n : ℕ) (mode : Mode) (p : Parser)
    → loops mode ≡ true
    → Ready Stuck (then_mode mode) n p
    → Ready Stuck mode n p
Ready-steady Stuck n within p l r = r
Ready-steady Stuck n below p l r = r
Ready-steady Stuck n before_end p l r = absurd (ground arith)
Ready-steady Stuck n after p l r = r

-- A loop whose test fails at the end.
module _ (Stuck : Type 0) (n : ℕ) (mode : Mode) (l : loops mode ≡ true) (test : TokenKind → Bool)
    (held : (k : TokenKind) → test k ≡ true → is_eof_kind k ≡ false) {s : Step}
    (g : Good Stuck (not_end mode) n moves leaves s) where
  repeat-Run :
      (fuel : ℕ) (cs : Children) (p : Parser)
      → Ready Stuck mode n p
      → length p.rest < fuel
      → Run Stuck leaves stays (leaves cs) p (repeat fuel test s cs p)
  unfolding repeat
  repeat-Run zero cs p r h = absurd (omega (arith, h))
  repeat-Run (suc fuel) cs p r h =
      ite-Run Stuck (test (current_kind p)) (s cs p >>= λ r. repeat fuel test s r.0 r.1)
        (some (cs, p))
        (λ is.
          let e = held (current_kind p) is in
          let r' = Ready-not_end Stuck n mode p r e in
          slow-Run Stuck (s cs p >>= λ r. repeat fuel test s r.0 r.1) (
            Run-bind Stuck (s cs p) (repeat fuel test s) (g.at cs p r') (λ ds q run.
              repeat-Run fuel ds q
                (Ready-keeps Stuck n mode q l (Ready-Post Stuck n (not_end mode) r' run))
                (omega (arith, left-lt run e, h)))))
        (λ _. some-Run Stuck (still (Sublist.refl (leaves cs))))

  next-Run :
      (ks : List TokenKind) (fuel : ℕ) (loop : Step) (cs : Children) (p : Parser)
      → Ready Stuck mode n p
      → length p.rest < fuel
      → ((ds : Children) (q : Parser)
          → Ready Stuck mode n q
          → length q.rest < fuel
          → Run Stuck leaves stays (leaves ds) q (loop ds q))
      → Run Stuck leaves stays (leaves cs) p (when ks (push_bump ⨟ push_trivia ⨟ loop) cs p)
  unfolding when on skip
  next-Run ks fuel loop cs p r h again =
      if-Run Stuck (kind_in ks (current_kind p)) ((push_bump ⨟ push_trivia ⨟ loop) cs p)
        (some (cs, p))
        (λ is.
          let r' = Ready-not_end Stuck n mode p r (kind_in_held ks (current_kind p) is) in
          then-Run Stuck push_bump (push_trivia ⨟ loop) cs p
            ((push_bump-Good Stuck {n = n}).at cs p r')
            (λ ds q one.
              let ready = Ready-keeps Stuck n mode q l (Ready-Post Stuck n (not_end mode) r' one) in
              then-Run Stuck push_trivia loop ds q ((push_trivia-Good Stuck {n = n}).at ds q ready)
                (λ es v two.
                  again es v (Ready-steady Stuck n mode v l (Ready-Post Stuck n mode ready two))
                    (omega (arith, left-le one, left-le two, h)))))
        (λ _. some-Run Stuck (still (Sublist.refl (leaves cs))))

  separated-Run :
      (ks : List TokenKind) (fuel : ℕ) (cs : Children) (p : Parser)
      → Ready Stuck mode n p
      → length p.rest < fuel
      → Run Stuck leaves stays (leaves cs) p (separated_loop fuel test s ks cs p)
  unfolding separated_loop
  separated-Run ks zero cs p r h = absurd (omega (arith, h))
  separated-Run ks (suc fuel) cs p r h =
      let loop = separated_loop fuel test s ks in
      let again = when ks (push_bump ⨟ push_trivia ⨟ loop) in
      ite-Run Stuck (test (current_kind p)) ((s ⨟ again) cs p) (some (cs, p))
        (λ is.
          let e = held (current_kind p) is in
          let r' = Ready-not_end Stuck n mode p r e in
          then-Run Stuck s again cs p (g.at cs p r') (λ ds q run.
            next-Run ks fuel loop ds q
              (Ready-keeps Stuck n mode q l (Ready-Post Stuck n (not_end mode) r' run))
              (omega (arith, left-lt run e, h)) (λ es v. separated-Run ks fuel es v)))
        (λ _. some-Run Stuck (still (Sublist.refl (leaves cs))))

module _ (Stuck : Type 0) {n : ℕ} {mode : Mode} {s : Step} (ks : List TokenKind) where
  pub while_in-Good :
      loops mode ≡ true
      → Good Stuck (not_end mode) n moves leaves s
      → Good Stuck mode n stays leaves (while_in ks s)
  unfolding while_in
  while_in-Good l g = record {
    at = λ cs p r.
        repeat-Run Stuck n mode l (kind_in ks) (kind_in_held ks) g (suc (length p.rest)) cs p r
          (omega arith);
  }

  pub until-Good :
      loops mode ≡ true
      → Good Stuck (not_end mode) n moves leaves s
      → Good Stuck mode n stays leaves (until ks s)
  unfolding until
  until-Good l g = record {
    at = λ cs p r.
        repeat-Run Stuck n mode l (kind_before ks) (kind_before_held ks) g (suc (length p.rest)) cs
          p r (omega arith);
  }

  pub separated_in-Good :
      (js : List TokenKind)
      → loops mode ≡ true
      → Good Stuck (not_end mode) n moves leaves s
      → Good Stuck mode n stays leaves (separated (kind_in js) s ks)
  unfolding separated
  separated_in-Good js l g = record {
    at = λ cs p r.
        separated-Run Stuck n mode l (kind_in js) (kind_in_held js) g ks (suc (length p.rest)) cs p
          r (omega arith);
  }

  pub separated_before-Good :
      (js : List TokenKind)
      → loops mode ≡ true
      → Good Stuck (not_end mode) n moves leaves s
      → Good Stuck mode n stays leaves (separated (kind_before js) s ks)
  unfolding separated
  separated_before-Good js l g = record {
    at = λ cs p r.
        separated-Run Stuck n mode l (kind_before js) (kind_before_held js) g ks
          (suc (length p.rest)) cs p r (omega arith);
  }
