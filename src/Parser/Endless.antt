-- ===== src/Parser/Endless.antt =====
-- crates/izel_parser/src/lib.rs: the loops of `parse_pattern` at a token that begins no pattern.
use izel.Prelude.{
  ℕ, zero, suc, ◌+◌, ◌≡◌, refl, ap, arith, Bool, true, false, not, ◌&&◌, Option, some, none, List,
  [], ◌∷◌,
}
use izel.Lexer.Token.{TokenKind, Token, is_eof_kind, tilde, open_paren, open_bracket, comma, pipe}
use izel.Parser.Tree.{
  NodeKind, Children, node, node_then, token_then, no_children, extend, push_node_to, push_token_to,
}
use izel.Parser.Kinds.{kind_in, kind_before, naming, is_trivia}
use izel.Parser.Steps.{
  Parser, Step, Act, Calls, current_kind, start, done, skip, ◌⨟◌, push_node, push_trivia, on, when,
  choose, repeat, push_bump, bump, bumps, until, eat_trivia, trivia, after_trivia, trivia_count,
}
use izel.Parser.Patterns.{
  is_pattern_literal, patterns_to, comma_here, named_pattern, pattern_body, parse_pattern_here,
}
use izel.Parser.Run.{calls_to}

-- The token begins no pattern, ends no list that `close` ends, and is none that the loop reads.
abbrev pub is_stop : TokenKind → TokenKind → Bool
is_stop close k =
    not (is_trivia k)
    && not (kind_in (tilde ∷ []) k)
    && not (kind_in (open_paren ∷ []) k)
    && not (kind_in (open_bracket ∷ []) k)
    && not (is_pattern_literal k)
    && not (kind_in naming k)
    && not (kind_in (pipe ∷ []) k)
    && not (kind_in (comma ∷ []) k)
    && kind_before (close ∷ []) k

extend_none : (cs : Children) → extend cs no_children ≡ cs
unfolding extend
extend_none no_children = refl
extend_none (node_then n cs) = ap (node_then n) (extend_none cs)
extend_none (token_then t cs) = ap (token_then t) (extend_none cs)

-- One step of a run at a time.
seq_to :
    {A : Type 0} (s : Step) (k : Act A) {cs ds : Children} {p q : Parser} {r : Option (A × Parser)}
    → s cs p ≡ some (ds, q)
    → k ds q ≡ r
    → (s ⨟ k) cs p ≡ r
unfolding ◌⨟◌
seq_to s k e f = rw e f

seq_none :
    {A : Type 0} (s : Step) (k : Act A) {cs : Children} {p : Parser}
    → s cs p ≡ none
    → (s ⨟ k) cs p ≡ none
unfolding ◌⨟◌
seq_none s k e = rw e refl

on_else :
    {A : Type 0} (ks : List TokenKind) (a b : Act A) {cs : Children} {p : Parser}
    {r : Option (A × Parser)}
    → kind_in ks (current_kind p) ≡ false
    → b cs p ≡ r
    → on ks a b cs p ≡ r
unfolding on
on_else ks a b e f = rw (e, on) f

choose_else :
    {A : Type 0} (test : Parser → Bool) (a b : Act A) {cs : Children} {p : Parser}
    {r : Option (A × Parser)}
    → test p ≡ false
    → b cs p ≡ r
    → choose test a b cs p ≡ r
unfolding choose
choose_else test a b e f = rw (e, choose) f

when_not :
    (ks : List TokenKind) (s : Step) {cs : Children} {p : Parser}
    → kind_in ks (current_kind p) ≡ false
    → when ks s cs p ≡ some (cs, p)
unfolding when skip
when_not ks s e = on_else ks s skip e refl

module _ (close : TokenKind) (t : Token) (ts : List Token) (depth pos : ℕ)
    (h : is_stop close t.kind ≡ true) where
  abbrev here : Parser
  here = record { rest = t ∷ ts; pos = pos; condition_expr_depth = depth }

  trivia_here : (cs : Children) → push_trivia cs here ≡ some (cs, here)
  unfolding push_trivia eat_trivia trivia after_trivia trivia_count
  trivia_here cs =
      let e : is_trivia t.kind ≡ false = ground arith in
      let f : pos + 0 ≡ pos = omega arith in rw (e, extend_none cs, f) refl

  body_here : (calls : Calls) → pattern_body calls no_children here ≡ some (no_children, here)
  unfolding pattern_body named_pattern
  body_here calls = on_else _ _ _ (ground arith) (
      on_else _ _ _ (ground arith) (
        on_else _ _ _ (ground arith)
          (choose_else _ _ _ (ground arith) (when_not _ _ (ground arith)))))

  -- A pattern here is empty.
  pattern_here :
      (calls : Calls)
      → parse_pattern_here calls here ≡ some (node NodeKind.pattern no_children, here)
  unfolding parse_pattern_here start done
  pattern_here calls = seq_to _ _ (trivia_here no_children) (
      seq_to _ _ (body_here calls)
        (seq_to _ _ (trivia_here no_children) (seq_to _ _ (when_not _ _ (ground arith)) refl)))

  -- A round of the loop reads nothing.
  round_here :
      (calls : Calls) (cs : Children)
      → calls.parse_pattern here ≡ some (node NodeKind.pattern no_children, here)
      → (push_node calls.parse_pattern ⨟ push_trivia ⨟ comma_here calls) cs here
        ≡ some (push_node_to cs (node NodeKind.pattern no_children), here)
  unfolding push_node comma_here
  round_here calls cs e =
      seq_to _ _ (rw e refl) (seq_to _ _ (trivia_here _) (when_not _ _ (ground arith)))

  no_end :
      (calls : Calls)
      → calls.parse_pattern here ≡ some (node NodeKind.pattern no_children, here)
      → (rounds : ℕ) (cs : Children)
      → repeat rounds
          (kind_before (close ∷ []))
          (push_node calls.parse_pattern ⨟ push_trivia ⨟ comma_here calls)
          cs
          here
        ≡ none
  unfolding repeat
  no_end calls e zero cs = refl
  no_end calls e (suc rounds) cs =
      let on : kind_before (close ∷ []) t.kind ≡ true = ground arith in
      rw (on, round_here calls cs e)
        (no_end calls e rounds (push_node_to cs (node NodeKind.pattern no_children)))

-- Where the token behind an opening token, which is not the end of the input, begins no pattern, is no
-- comma and does not close the list, `patterns_to` has no result. A round of its loop at that token leaves
-- the parser where it is, so that the loop has no result in any number of rounds.
pub patterns_never_end :
    (close : TokenKind) (o t : Token) (ts : List Token) (condition pos depth rounds : ℕ)
    (cs : Children)
    → is_eof_kind o.kind ≡ false
    → is_stop close t.kind ≡ true
    → (let calls = calls_to (suc depth) in
        let item = push_node calls.parse_pattern ⨟ push_trivia ⨟ comma_here calls in
        let stuck : Parser = record {
          rest = t ∷ ts;
          pos = suc pos;
          condition_expr_depth = condition;
        } in
        (patterns_to calls close cs
            (record { rest = o ∷ t ∷ ts; pos = pos; condition_expr_depth = condition })
          ≡ none)
        × ((ds : Children) × (item cs stuck ≡ some (ds, stuck)))
        × (repeat rounds (kind_before (close ∷ [])) item cs stuck ≡ none))
unfolding calls_to patterns_to push_bump bump bumps until
patterns_never_end close o t ts condition pos depth rounds cs not_eof h =
    let calls = calls_to (suc depth) in
    let here_is = pattern_here close t ts condition (suc pos) h (calls_to depth) in
    let never = no_end close t ts condition (suc pos) h calls here_is in
    (
      seq_to _ _ {ds = push_token_to cs o} (rw not_eof refl)
          (seq_to _ _ (trivia_here close t ts condition (suc pos) h _) (seq_none _ _ (never _ _))),
      (_, round_here close t ts condition (suc pos) h calls cs here_is),
      never rounds cs,
    )
