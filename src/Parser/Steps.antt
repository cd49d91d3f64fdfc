-- ===== src/Parser/Steps.antt =====
-- crates/izel_parser/src/lib.rs: the state of the parser, `bump`, `eat_trivia` and `ensure_progress`,
-- and the ways in which its functions put them together. The tokens are those from `pos` on, so that
-- `tokens.get(pos + k)` is the one of index `k`. A function that fills a vector of children is an
-- action from the children so far to a result; `none` is a run that does not end.
use izel.Prelude.{
  ℕ, zero, suc, ◌+◌, ◌-◌, Bool, true, false, Option, none, some, List, [], ◌∷◌, ◌==◌, leb,
  if◌then◌else◌, ◌>>=◌, length,
}
use izel.Span.{dummy}
use izel.Lexer.Token.{TokenKind, Token, eof, is_eof_kind}
use izel.Parser.Tree.{
  NodeKind, SyntaxNode, Children, node, no_children, node_then, token_then, extend, push_node_to,
  push_token_to,
}
use izel.Parser.Precedence.{Precedence}
use izel.Parser.Kinds.{kind_in, kind_before, is_trivia}

pub record Parser : Type 0 where
  pub rest : List Token
  pub pos : ℕ
  pub condition_expr_depth : ℕ

-- `Parser::new`
abbrev pub new : List Token → Parser
new tokens = record { rest = tokens; pos = 0; condition_expr_depth = 0 }

abbrev pub first_kind : List Token → TokenKind
first_kind [] = eof
first_kind (t ∷ ts) = t.kind

abbrev pub current_kind : Parser → TokenKind
current_kind p = first_kind p.rest

abbrev eof_token : Token
eof_token = record { kind = eof; span = dummy }

abbrev bump_from : List Token → Parser → Token × Parser
bump_from [] p = (eof_token, p)
bump_from (t ∷ ts) p =
    if is_eof_kind t.kind then (t, p) else (t, record p { rest = ts; pos = suc p.pos })

unfoldable pub bump : Parser → Token × Parser
bump p = bump_from p.rest p

unfoldable pub bumps : ℕ → Parser → Parser
bumps zero p = p
bumps (suc n) p = bumps n (bump p).1

-- The trivia in front of the tokens: as children, their number, and what is behind them.
unfoldable pub trivia : List Token → Children
trivia [] = no_children
trivia (t ∷ ts) =
    let more = trivia ts in if is_trivia t.kind then token_then t more else no_children

unfoldable pub trivia_count : List Token → ℕ
trivia_count [] = 0
trivia_count (t ∷ ts) = let more = trivia_count ts in if is_trivia t.kind then suc more else 0

unfoldable pub after_trivia : List Token → List Token
after_trivia [] = []
after_trivia (t ∷ ts) = let more = after_trivia ts in if is_trivia t.kind then more else t ∷ ts

unfoldable pub eat_trivia : Parser → Children × Parser
eat_trivia p =
    (trivia p.rest, record p { rest = after_trivia p.rest; pos = p.pos + trivia_count p.rest })

-- A function of the parser, and one that is given the children read so far.
abbrev pub M : Type 0 → Type 0
M A = Parser → Option (A × Parser)

abbrev pub Act : Type 0 → Type 0
Act A = Children → M A

abbrev pub Step : Type 0
Step = Act Children

infixr 6 ◌⨟◌
unfoldable pub ◌⨟◌ : {A : Type 0} → Step → Act A → Act A
◌⨟◌ s k cs p = s cs p >>= λ r. k r.0 r.1

-- `SyntaxNode::new(kind, children)`
unfoldable pub done : NodeKind → Act SyntaxNode
done kind cs p = some (node kind cs, p)

-- `vec![]`
unfoldable pub start : {A : Type 0} → Act A → M A
start act = act no_children

unfoldable pub skip : Step
skip cs p = some (cs, p)

-- `children.push(SyntaxElement::Token(self.bump()))`
unfoldable pub push_bump : Step
push_bump cs p = let r = bump p in some (push_token_to cs r.0, r.1)

-- `children.extend(self.eat_trivia())`
unfoldable pub push_trivia : Step
push_trivia cs p = let r = eat_trivia p in some (extend cs r.0, r.1)

-- `self.eat_trivia();`
unfoldable pub drop_trivia : Step
drop_trivia cs p = some (cs, (eat_trivia p).1)

-- `for _ in 0..offset { children.push(SyntaxElement::Token(self.bump())) }`
unfoldable pub push_bumps : ℕ → Step
push_bumps zero = skip
push_bumps (suc n) = push_bump ⨟ push_bumps n

-- `children.push(SyntaxElement::Node(…))`
unfoldable pub push_node : M SyntaxNode → Step
push_node m cs p = m p >>= λ r. some (push_node_to cs r.0, r.1)

-- A result that does not use the children.
unfoldable pub instead : M SyntaxNode → Act SyntaxNode
instead m cs p = m p

-- `match self.current_kind() { A | B => … }`, and `if` on the current kind.
unfoldable pub on : {A : Type 0} → List TokenKind → Act A → Act A → Act A
on ks a b cs p = elim (kind_in ks (current_kind p)) [ true ↦ a cs p | false ↦ b cs p ]

unfoldable pub when : List TokenKind → Step → Step
when ks s = on ks s skip

-- `if` on what lies ahead.
unfoldable pub choose : {A : Type 0} → (Parser → Bool) → Act A → Act A → Act A
choose test a b cs p = elim (test p) [ true ↦ a cs p | false ↦ b cs p ]

-- A loop has a round for each token left and one more.
unfoldable pub repeat : ℕ → (TokenKind → Bool) → Step → Step
repeat zero test s cs p = none
repeat (suc fuel) test s cs p =
    let again = s cs p >>= λ r. repeat fuel test s r.0 r.1 in
    if test (current_kind p) then again else some (cs, p)

-- `while self.current_kind() == A || …`
unfoldable pub while_in : List TokenKind → Step → Step
while_in ks s cs p = repeat (suc (length p.rest)) (kind_in ks) s cs p

-- `while self.current_kind() != A && self.current_kind() != TokenKind::Eof`
unfoldable pub until : List TokenKind → Step → Step
until ks s cs p = repeat (suc (length p.rest)) (kind_before ks) s cs p

-- `let start = self.pos; …; self.ensure_progress(start)`
unfoldable pub ensure_progress : Step → Step
ensure_progress s cs p =
    s cs p >>= λ r. (if r.1.pos == p.pos then some (r.0, (bump r.1).1) else some r)

-- The same with `self.ensure_progress_at_or_before(start)`.
unfoldable pub ensure_progress_at_or_before : Step → Step
ensure_progress_at_or_before s cs p =
    s cs p >>= λ r. (if leb r.1.pos p.pos then some (r.0, (bump r.1).1) else some r)

-- `self.condition_expr_depth += 1; …; self.condition_expr_depth -= 1`
unfoldable pub in_condition : M SyntaxNode → M SyntaxNode
in_condition m p = m (record p { condition_expr_depth = suc p.condition_expr_depth }) >>= λ r.
    some (r.0, record r.1 { condition_expr_depth = r.1.condition_expr_depth - 1 })

-- The functions that call one another through the tree. They are taken from one level of recursion
-- below; the others are called as they are.
pub record Calls : Type 0 where
  pub parse_expr : Precedence → M SyntaxNode
  pub parse_stmt : M SyntaxNode
  pub parse_type : M SyntaxNode
  pub parse_pattern : M SyntaxNode
  pub parse_decl : M SyntaxNode

-- `vec![SyntaxElement::Node(lhs)]`
unfoldable pub from : {A : Type 0} → SyntaxNode → Act A → M A
from lhs act = act (node_then lhs no_children)

-- `while test { …; if self.current_kind() == A { bump; eat_trivia } else { break } }`
unfoldable pub separated_loop : ℕ → (TokenKind → Bool) → Step → List TokenKind → Step
separated_loop zero test s ks cs p = none
separated_loop (suc fuel) test s ks cs p =
    let next = (s ⨟ when ks (push_bump ⨟ push_trivia ⨟ separated_loop fuel test s ks)) cs p in
    if test (current_kind p) then next else some (cs, p)

unfoldable pub separated : (TokenKind → Bool) → Step → List TokenKind → Step
separated test s ks cs p = separated_loop (suc (length p.rest)) test s ks cs p
