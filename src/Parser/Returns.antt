-- ===== src/Parser/Returns.antt =====
-- crates/izel_parser/src/lib.rs: what `parse_source_file` returns.
use mathlib.Core.List.{Sublist, sublist-append_left}
use mathlib.Core.List.Sublist
use izel.Prelude.{
  ℕ, zero, suc, ◌+◌, ◌≡◌, ◌⊎◌, refl, ap, sym, ◌∙◌, inl, inr, arith, Bool, true, false, Bool-cases,
  from_some, Option, some, none, ◌>>=◌, List, [], length, length-append,
}
use izel.Lexer.Token.{TokenKind, Token, is_eof_kind, eof}
use izel.Parser.Tree.{NodeKind, SyntaxNode, Children, no_children, node, kind_of_node, node_leaves}
use izel.Parser.Kinds.{kind_before}
use izel.Parser.Steps.{
  Parser, Step, Calls, new, start, current_kind, repeat, until, done, ◌⨟◌,
  ensure_progress_at_or_before, push_node, push_trivia,
}
use izel.Parser.Decl.{parse_decl_here, parse_source_file_with}
use izel.Parser.Run.{calls_to, parse_source_file}
use izel.Parser.Good.{stays, Post, Run, pattern_free}
use izel.Parser.Good.Total.{source_file-Good}

-- The result of the parser on `tokens`.
pub record Parsed (tokens : List Token) (tree : SyntaxNode) (p : Parser) : Type 0 where
  pub kind : kind_of_node tree ≡ NodeKind.source_file
  pub at_end : is_eof_kind (current_kind p) ≡ true
  pub read : p.pos + length p.rest ≡ length tokens
  pub depth : p.condition_expr_depth ≡ 0
  pub order : Sublist (node_leaves tree) tokens

-- A loop returns where its test fails.
stops_after :
    (k : Children → Parser → Option (Children × Parser)) (Q : Parser → Type 0)
    → ((cs ds : Children) (p q : Parser) → k cs p ≡ some (ds, q) → Q q)
    → (o : Option (Children × Parser)) (ds : Children) (q : Parser)
    → (o >>= λ r. k r.0 r.1) ≡ some (ds, q)
    → Q q
stops_after k Q f none ds q e = absurd (ground arith)
stops_after k Q f (some (es, v)) ds q e = f es ds v q e

repeat_stops :
    (fuel : ℕ) (test : TokenKind → Bool) (s : Step) (cs ds : Children) (p q : Parser)
    → repeat fuel test s cs p ≡ some (ds, q)
    → test (current_kind q) ≡ false
unfolding repeat
repeat_stops zero test s cs ds p q h = absurd (ground arith)
repeat_stops (suc fuel) test s cs ds p q h = elim (Bool-cases (test (current_kind p))) [
  | inl is ↦
      stops_after (repeat fuel test s) (λ v. test (current_kind v) ≡ false)
        (repeat_stops fuel test s) (s cs p) ds q (rw is at h)
  | inr is_not ↦
      let e : p ≡ q =
        ap (λ (o : Option (Children × Parser)). (from_some {A = Children × Parser} (cs, p) o).1)
          (rw is_not at h) in
      ap (λ (v : Parser). test (current_kind v)) (sym e) ∙ is_not
]

before_none : (k : TokenKind) → kind_before [] k ≡ false → is_eof_kind k ≡ true
unfolding kind_before
before_none eof h = refl
before_none _ h = absurd (ground arith)

-- The end of `parse_source_file`.
finished :
    (o : Option (Children × Parser)) (tree : SyntaxNode) (q : Parser)
    → (o >>= λ r. done NodeKind.source_file r.0 r.1) ≡ some (tree, q)
    → (cs : Children) × (o ≡ some (cs, q)) × (kind_of_node tree ≡ NodeKind.source_file)
unfolding done
finished none tree q h = absurd (ground arith)
finished (some (cs, p)) tree q h =
    let e = ap (from_some (node NodeKind.source_file cs, p)) h in
    (cs, ap (λ r. some (cs, r.1)) e, ap (λ r. kind_of_node r.0) (sym e))

source_file_ends :
    (calls : Calls) (p q : Parser) (tree : SyntaxNode)
    → parse_source_file_with calls p ≡ some (tree, q)
    → (is_eof_kind (current_kind q) ≡ true) × (kind_of_node tree ≡ NodeKind.source_file)
unfolding parse_source_file_with start ◌⨟◌ until
source_file_ends calls p q tree h =
    let body = ensure_progress_at_or_before (push_node (parse_decl_here calls) ⨟ push_trivia) in
    let fuel = suc (length p.rest) in
    let (cs, e, kind) = finished (repeat fuel (kind_before []) body no_children p) tree q h in
    (
      before_none (current_kind q) (repeat_stops fuel (kind_before []) body no_children cs p q e),
      kind,
    )

-- From what a run keeps.
Parsed-Post :
    (calls : Calls) (tokens : List Token) (tree : SyntaxNode) (p : Parser)
    → parse_source_file_with calls (new tokens) ≡ some (tree, p)
    → Post node_leaves stays [] (new tokens) tree p
    → Parsed tokens tree p
Parsed-Post calls tokens tree p h run =
    let (end, kind) = source_file_ends calls (new tokens) p tree h in
    record {
      kind = kind;
      at_end = end;
      read = omega (arith, run.moved, ap length run.split, length-append run.used p.rest);
      depth = run.depth;
      order = rw run.split (Sublist.trans run.order (sublist-append_left run.used p.rest));
    }

Parsed-Run :
    (Stuck : Type 0) (calls : Calls) (tokens : List Token) (o : Option (SyntaxNode × Parser))
    → parse_source_file_with calls (new tokens) ≡ o
    → Run Stuck node_leaves stays [] (new tokens) o
    → Stuck ⊎ ((tree : SyntaxNode) × (p : Parser) × (o ≡ some (tree, p)) × Parsed tokens tree p)
Parsed-Run Stuck calls tokens none e h = inl h.ends
Parsed-Run Stuck calls tokens (some (tree, p)) e h =
    inr (tree, p, refl, Parsed-Post calls tokens tree p e h.ends)

-- Without `let`, `~` and `branch`, behind which patterns are read, the parser returns, whatever the
-- other tokens are. It returns a source file, at the end of the input, with `condition_expr_depth` back
-- at 0 and `pos` at the tokens read; and the tokens of the tree are tokens of the input in their order,
-- none of them twice.
pub parse_source_file_returns :
    (tokens : List Token)
    → pattern_free tokens ≡ true
    → (tree : SyntaxNode) × (p : Parser) × (parse_source_file tokens ≡ some (tree, p))
      × Parsed tokens tree p
unfolding parse_source_file
parse_source_file_returns tokens free =
    let n = length tokens in
    let calls = calls_to (suc n) in
    let run =
      (source_file-Good ⊥ (suc n) n (omega arith)).at (new tokens) (inr (omega arith, free)) in
    elim (Parsed-Run ⊥ calls tokens (parse_source_file_with calls (new tokens)) refl run) [
      | inl never ↦ absurd never
      | inr result ↦ result
    ]

-- With any tokens, and calls to any depth, a result of the parser is such a source file.
pub parse_source_file_keeps :
    (depth : ℕ) (tokens : List Token) (tree : SyntaxNode) (p : Parser)
    → parse_source_file_with (calls_to depth) (new tokens) ≡ some (tree, p)
    → Parsed tokens tree p
parse_source_file_keeps depth tokens tree p h =
    let run = (source_file-Good Unit depth depth (omega arith)).at (new tokens) (inl tt) in
    Parsed-Post (calls_to depth) tokens tree p h (rw h at run).ends
