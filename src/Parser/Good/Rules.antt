-- ===== src/Parser/Good/Rules.antt =====
-- crates/izel_parser/src: one rule for each way in which the functions of the parser put actions
-- together.
use mathlib.Core.List.{sublist-append_right}
use mathlib.Core.List.Sublist
use izel.Prelude.{ℕ, ◌≡◌, refl, Bool, true, false, Option, none, some, List, [], append-nil, ◌>>=◌}
use izel.Lexer.Token.{TokenKind, Token}
use izel.Parser.Tree.{
  SyntaxNode, Children, no_children, node_then, push_node_to, leaves, node_leaves,
}
use izel.Parser.Kinds.{kind_in}
use izel.Parser.Steps.{
  Parser, M, Act, Step, current_kind, push_bump, ◌⨟◌, start, push_node, instead, on, when, choose,
}
use izel.Parser.Good.{Pace, stays, moves, Mode, within, Run, Good, GoodM, join}
use izel.Parser.Good.Primitives.{leaves-extend, push_bump-Good, skip-Good}
use izel.Parser.Good.Runs.{
  kind_in_held, Run-bind, slow-Post, then_mode, moved_mode, not_end, Ready-Post, Ready-moved,
  Ready-not_end, Ready-within,
}

module _ (Stuck : Type 0) {A : Type 0} {leaf : A → List Token} where
  pub slow-Run :
      {pace : Pace} {before : List Token} {p : Parser} (o : Option (A × Parser))
      → Run Stuck leaf pace before p o
      → Run Stuck leaf stays before p o
  slow-Run none h = record { ends = h.ends }
  slow-Run (some (a, r)) h = record { ends = slow-Post Stuck h.ends }

  pub if-Run :
      {pace : Pace} {before : List Token} {p : Parser} (t : Bool) (x y : Option (A × Parser))
      → (t ≡ true → Run Stuck leaf pace before p x)
      → (t ≡ false → Run Stuck leaf pace before p y)
      → Run Stuck leaf pace before p (elim t [ true ↦ x | false ↦ y ])
  if-Run true x y f g = f refl
  if-Run false x y f g = g refl

module _ (Stuck : Type 0) {n : ℕ} {mode : Mode} {A : Type 0} {leaf : A → List Token} where
  pub slow : {act : Act A} → Good Stuck mode n moves leaf act → Good Stuck mode n stays leaf act
  slow {act = act} g = record { at = λ cs p r. slow-Run Stuck (act cs p) (g.at cs p r) }

  pub widen :
      {pace : Pace} {act : Act A}
      → Good Stuck within n pace leaf act
      → Good Stuck mode n pace leaf act
  widen g = record { at = λ cs p r. g.at cs p (Ready-within Stuck n mode p r) }

  module _ {two : Pace} {s : Step} {k : Act A} where
    seq :
        {one : Pace}
        → Good Stuck mode n one leaves s
        → Good Stuck (then_mode mode) n two leaf k
        → Good Stuck mode n (join one two) leaf (s ⨟ k)
    unfolding ◌⨟◌
    seq g h = record {
      at = λ cs p r.
          Run-bind Stuck (s cs p) k (g.at cs p r)
            (λ ds q run. h.at ds q (Ready-Post Stuck n mode r run));
    }

    seq_moved :
        Good Stuck mode n moves leaves s
        → Good Stuck (moved_mode mode) n two leaf k
        → Good Stuck mode n moves leaf (s ⨟ k)
    unfolding ◌⨟◌
    seq_moved g h = record {
      at = λ cs p r.
          Run-bind Stuck (s cs p) k (g.at cs p r)
            (λ ds q run. h.at ds q (Ready-moved Stuck n mode r run));
    }

  -- A token is read first, or another action that reads something, or one that may read nothing.
  pub bump_seq :
      {k : Act A}
      → Good Stuck (moved_mode mode) n stays leaf k
      → Good Stuck mode n moves leaf (push_bump ⨟ k)
  bump_seq h = seq_moved (push_bump-Good Stuck) h

  pub seq_moves :
      {s : Step} {k : Act A}
      → Good Stuck mode n moves leaves s
      → Good Stuck (moved_mode mode) n stays leaf k
      → Good Stuck mode n moves leaf (s ⨟ k)
  seq_moves g h = seq_moved g h

  pub seq_stays :
      {pace : Pace} {s : Step} {k : Act A}
      → Good Stuck mode n stays leaves s
      → Good Stuck (then_mode mode) n pace leaf k
      → Good Stuck mode n pace leaf (s ⨟ k)
  seq_stays g h = seq g h

  module _ {pace : Pace} {a b : Act A} where
    pub on-Good :
        (ks : List TokenKind)
        → Good Stuck (not_end mode) n pace leaf a
        → Good Stuck mode n pace leaf b
        → Good Stuck mode n pace leaf (on ks a b)
    unfolding on
    on-Good ks g h = record {
      at = λ cs p r.
          if-Run Stuck (kind_in ks (current_kind p)) (a cs p) (b cs p)
            (λ is. g.at cs p (Ready-not_end Stuck n mode p r (kind_in_held ks (current_kind p) is)))
            (λ _. h.at cs p r);
    }

    pub choose-Good :
        (test : Parser → Bool)
        → Good Stuck mode n pace leaf a
        → Good Stuck mode n pace leaf b
        → Good Stuck mode n pace leaf (choose test a b)
    unfolding choose
    choose-Good test g h = record {
      at = λ cs p r. if-Run Stuck (test p) (a cs p) (b cs p) (λ _. g.at cs p r) (λ _. h.at cs p r);
    }

module _ (Stuck : Type 0) {n : ℕ} {mode : Mode} where
  pub when-Good :
      (ks : List TokenKind) {s : Step}
      → Good Stuck (not_end mode) n stays leaves s
      → Good Stuck mode n stays leaves (when ks s)
  unfolding when
  when-Good ks g = on-Good Stuck ks g (skip-Good Stuck)

  module _ {pace : Pace} where
    pub start-Good :
        {act : Act SyntaxNode}
        → Good Stuck mode n pace node_leaves act
        → GoodM Stuck mode n pace (start act)
    unfolding start leaves
    start-Good g = record { at = λ p r. g.at no_children p r }

    pub widen_node : {m : M SyntaxNode} → GoodM Stuck within n pace m → GoodM Stuck mode n pace m
    widen_node g = record { at = λ p r. g.at p (Ready-within Stuck n mode p r) }

  pub slow_node : {m : M SyntaxNode} → GoodM Stuck mode n moves m → GoodM Stuck mode n stays m
  slow_node {m = m} g = record { at = λ p r. slow-Run Stuck (m p) (g.at p r) }

module _ (Stuck : Type 0) where
  pub push_node-Run :
      {pace : Pace} {p : Parser} (cs : Children) (o : Option (SyntaxNode × Parser))
      → Run Stuck node_leaves pace [] p o
      → Run Stuck leaves pace (leaves cs) p (o >>= λ r. some (push_node_to cs r.0, r.1))
  unfolding leaves
  push_node-Run cs none h = record { ends = h.ends }
  push_node-Run cs (some (a, q)) h = record {
    ends = record {
      used = h.ends.used;
      split = h.ends.split;
      moved = h.ends.moved;
      depth = h.ends.depth;
      order =
          rw (leaves-extend cs (node_then a no_children), append-nil (node_leaves a))
            (Sublist.append (Sublist.refl (leaves cs)) h.ends.order);
      held = h.ends.held;
      advance = h.ends.advance;
    };
  }

  pub instead-Run :
      {pace : Pace} {p : Parser} (cs : Children) (o : Option (SyntaxNode × Parser))
      → Run Stuck node_leaves pace [] p o
      → Run Stuck node_leaves pace (leaves cs) p o
  instead-Run cs none h = record { ends = h.ends }
  instead-Run cs (some (a, q)) h = record {
    ends = record {
      used = h.ends.used;
      split = h.ends.split;
      moved = h.ends.moved;
      depth = h.ends.depth;
      order = Sublist.trans h.ends.order (sublist-append_right (leaves cs) h.ends.used);
      held = h.ends.held;
      advance = h.ends.advance;
    };
  }

module _ (Stuck : Type 0) {n : ℕ} {mode : Mode} {pace : Pace} {m : M SyntaxNode} where
  pub push_node-Good : GoodM Stuck mode n pace m → Good Stuck mode n pace leaves (push_node m)
  unfolding push_node
  push_node-Good g = record { at = λ cs p r. push_node-Run Stuck cs (m p) (g.at p r) }

  pub instead-Good : GoodM Stuck mode n pace m → Good Stuck mode n pace node_leaves (instead m)
  unfolding instead
  instead-Good g = record { at = λ cs p r. instead-Run Stuck cs (m p) (g.at p r) }
