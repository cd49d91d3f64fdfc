-- ===== src/Parser/Good/Primitives.antt =====
-- crates/izel_parser/src/lib.rs: `bump`, trivia and the other actions that call nothing.
use mathlib.Core.List.{Sublist, sublist-append_left}
use mathlib.Core.List.Sublist
use izel.Prelude.{
  ℕ, suc, ◌+◌, ◌<◌, ◌≡◌, inl, inr, refl, ap, sym, true, false, List, [], ◌∷◌, ◌++◌, append_assoc,
  append-nil, arith, length, Bool-cases,
}
use izel.Lexer.Token.{TokenKind, whitespace, comment, Token, is_eof_kind}
use izel.Parser.Tree.{
  NodeKind, Children, no_children, node_then, token_then, extend, leaves, node_leaves,
}
use izel.Parser.Kinds.{is_trivia}
use izel.Parser.Steps.{
  Parser, current_kind, first_kind, bump, trivia, trivia_count, after_trivia, eat_trivia, done,
  skip, push_bump, push_trivia, drop_trivia,
}
use izel.Parser.Good.{stays, moves, Post, Mode, Good}

pub leaves-extend : (cs ds : Children) → leaves (extend cs ds) ≡ leaves cs ++ leaves ds
unfolding leaves extend
leaves-extend no_children ds = refl
leaves-extend (node_then n cs) ds =
    rw (leaves-extend cs ds) (sym (append_assoc (node_leaves n) (leaves cs) (leaves ds)))
leaves-extend (token_then t cs) ds = ground (arith, leaves-extend cs ds)

-- Nothing is read.
pub still :
    {A : Type 0} {leaf : A → List Token} {a : A} {before : List Token} {p : Parser}
    → Sublist (leaf a) before
    → Post leaf stays before p a p
still {before = before} h = record {
  used = [];
  split = refl;
  moved = omega arith;
  depth = refl;
  order = rw (append-nil before) h;
  held = λ e. refl;
  advance = tt;
}

-- A read of a token, whatever becomes of it.
record Bump (p : Parser) : Type 0 where
  used : List Token
  split : p.rest ≡ used ++ (bump p).1.rest
  moved : (bump p).1.pos ≡ p.pos + length used
  depth : (bump p).1.condition_expr_depth ≡ p.condition_expr_depth
  token : leaves (token_then (bump p).0 no_children) ≡ used
  held : is_eof_kind (current_kind p) ≡ true → used ≡ []
  advance : is_eof_kind (current_kind p) ≡ false → 0 < length used

Bump-of :
    (ts : List Token) (pos depth : ℕ)
    → Bump (record { rest = ts; pos = pos; condition_expr_depth = depth })
unfolding bump leaves
Bump-of [] pos depth = record {
  used = [];
  split = refl;
  moved = omega arith;
  depth = refl;
  token = refl;
  held = λ e. refl;
  advance = λ e. absurd (ground arith);
}
Bump-of (t ∷ ts) pos depth = elim (Bool-cases (is_eof_kind t.kind)) [
  | inl end ↦ record {
    used = [];
    split = rw end refl;
    moved = rw end (omega arith);
    depth = rw end refl;
    token = ground arith;
    held = λ e. refl;
    advance = λ e. absurd (ground arith);
  }
  | inr more ↦ record {
    used = t ∷ [];
    split = rw more refl;
    moved = rw more (omega arith);
    depth = rw more refl;
    token = ground arith;
    held = λ e. absurd (ground arith);
    advance = λ e. omega arith;
  }
]

Bump-at : (p : Parser) → Bump p
Bump-at p = Bump-of p.rest p.pos p.condition_expr_depth

-- A read whose token is dropped.
pub bump-Post :
    {A : Type 0} {leaf : A → List Token} {a : A} {before : List Token} (p : Parser)
    → Sublist (leaf a) before
    → Post leaf moves before p a (bump p).1
bump-Post {before = before} p h =
    let b = Bump-at p in
    record {
      used = b.used;
      split = b.split;
      moved = b.moved;
      depth = b.depth;
      order = Sublist.trans h (sublist-append_left before b.used);
      held = b.held;
      advance = b.advance;
    }

trivia_lem : (k : TokenKind) → is_trivia k ≡ true → is_eof_kind k ≡ false
trivia_lem whitespace h = refl
trivia_lem comment h = refl
trivia_lem _ h = absurd (ground arith)

eof_lem : (k : TokenKind) → is_eof_kind k ≡ true → is_trivia k ≡ false
eof_lem k h = elim (Bool-cases (is_trivia k)) [
  | inl t ↦ absurd (ground (arith, trivia_lem k t))
  | inr f ↦ f
]

record Trivia (ts : List Token) : Type 0 where
  split : ts ≡ leaves (trivia ts) ++ after_trivia ts
  counted : trivia_count ts ≡ length (leaves (trivia ts))
  held : is_eof_kind (first_kind ts) ≡ true → leaves (trivia ts) ≡ []

Trivia-of : (ts : List Token) → Trivia ts
unfolding leaves trivia after_trivia trivia_count
Trivia-of [] = record { split = refl; counted = refl; held = λ e. refl }
Trivia-of (t ∷ ts) = elim (Bool-cases (is_trivia t.kind)) [
  | inl more ↦
      let e = trivia_lem t.kind more in
      let rest = Trivia-of ts in
      record {
        split = rw (more, e) (ap (λ (us : List Token). t ∷ us) rest.split);
        counted = rw (more, e) (ap suc rest.counted);
        held = λ h. absurd (ground arith);
      }
  | inr none_here ↦ record {
    split = rw none_here refl;
    counted = rw none_here refl;
    held = λ h. rw none_here refl;
  }
]

-- Reading trivia, whether or not they become children.
pub trivia-Post :
    {A : Type 0} {leaf : A → List Token} {a : A} {before : List Token} (p : Parser)
    → Sublist (leaf a) (before ++ leaves (eat_trivia p).0)
    → Post leaf stays before p a (eat_trivia p).1
unfolding eat_trivia
trivia-Post p h =
    let t = Trivia-of p.rest in
    record {
      used = leaves (trivia p.rest);
      split = t.split;
      moved = ap (λ (k : ℕ). p.pos + k) t.counted;
      depth = refl;
      order = h;
      held = t.held;
      advance = tt;
    }

module _ (Stuck : Type 0) {mode : Mode} {n : ℕ} where
  pub push_bump-Good : Good Stuck mode n moves leaves push_bump
  unfolding push_bump
  push_bump-Good = record {
    at = λ cs p r.
        let b = Bump-at p in
        record {
          ends = record {
            used = b.used;
            split = b.split;
            moved = b.moved;
            depth = b.depth;
            order =
                rw (leaves-extend cs (token_then (bump p).0 no_children), b.token)
                  (Sublist.refl (leaves cs ++ b.used));
            held = b.held;
            advance = b.advance;
          };
        };
  }

  pub skip-Good : Good Stuck mode n stays leaves skip
  unfolding skip
  skip-Good = record { at = λ cs p r. record { ends = still (Sublist.refl (leaves cs)) } }

  pub done-Good : (kind : NodeKind) → Good Stuck mode n stays node_leaves (done kind)
  unfolding done node_leaves
  done-Good kind = record { at = λ cs p r. record { ends = still (Sublist.refl (leaves cs)) } }

  pub push_trivia-Good : Good Stuck mode n stays leaves push_trivia
  unfolding push_trivia
  push_trivia-Good = record {
    at = λ cs p r. record {
      ends = trivia-Post p (
          rw (leaves-extend cs (eat_trivia p).0)
            (Sublist.refl (leaves cs ++ leaves (eat_trivia p).0)));
    };
  }

  pub drop_trivia-Good : Good Stuck mode n stays leaves drop_trivia
  unfolding drop_trivia
  drop_trivia-Good = record {
    at = λ cs p r. record {
      ends = trivia-Post p (sublist-append_left (leaves cs) (leaves (eat_trivia p).0));
    };
  }
