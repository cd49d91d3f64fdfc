-- ===== src/Parser/Expr.antt =====
-- crates/izel_parser/src/expr.rs: expressions, by precedence climbing.
use izel.Prelude.{
  ℕ, zero, suc, Bool, true, false, ◌&&◌, ◌||◌, none, some, List, [], ◌∷◌, ◌==◌, ltb, leb,
  if◌then◌else◌, ◌>>=◌, length,
}
use izel.Lexer.Token.{
  TokenKind, Token, int, float, str, interpolated_str, true_kw, false_kw, nil, ident, self_kw,
  self_type, bang, open_paren, open_bracket, close_paren, close_bracket, comma, minus, not_kw,
  tilde, star, tide, ampersand, ampersand_tilde, given, branch, loop, while, each, zone, bind, seek,
  raw, colon, double_colon, lt, open_brace, close_brace, dot, question, or_kw,
}
use izel.Parser.Tree.{NodeKind, SyntaxNode}
use izel.Parser.Kinds.{naming, kind_in}
use izel.Parser.Precedence.{Precedence, rank, from_kind}
use izel.Parser.Steps.{
  Parser, M, Act, Step, Calls, ◌⨟◌, done, start, from, skip, instead, bumps, push_bump, push_bumps,
  push_trivia, push_node, on, when, choose, until, first_kind, current_kind, after_trivia,
  trivia_count,
}
use izel.Parser.Control.{
  parse_generic_args, parse_raw_expr, parse_given_expr, parse_branch_expr, parse_loop_expr,
  parse_while_expr, parse_each_expr, parse_bind_expr, parse_zone_expr, parse_seek_expr,
}

-- The kind of the first token from `pos + k` on that is no trivia.
abbrev pub kind_behind : ℕ → List Token → TokenKind
kind_behind zero ts = first_kind (after_trivia ts)
kind_behind (suc k) [] = first_kind []
kind_behind (suc k) (t ∷ ts) = kind_behind k ts

-- An identifier is read: `!` and an opening bracket follow, with trivia in between.
abbrev skip_one : List Token → List Token
skip_one [] = []
skip_one (t ∷ ts) = ts

abbrev pub is_macro_invocation : Parser → Bool
is_macro_invocation p =
    kind_in (bang ∷ []) (kind_behind 0 p.rest)
    && kind_in (open_paren ∷ open_bracket ∷ []) (kind_behind 0 (skip_one (after_trivia p.rest)))

-- A label and a colon.
abbrev pub is_named : Parser → Bool
is_named p = kind_in naming (current_kind p) && kind_in (colon ∷ []) (kind_behind 1 p.rest)

unfoldable pub is_literal : TokenKind → Bool
is_literal (int _ _) = true
is_literal float = true
is_literal (str _) = true
is_literal (interpolated_str _) = true
is_literal true_kw = true
is_literal false_kw = true
is_literal nil = true
is_literal _ = false

unfoldable pub is_str : TokenKind → Bool
is_str (str _) = true
is_str _ = false

-- `for _ in 0..offset`, with the trivia ahead counted.
unfoldable pub push_offset : Step
push_offset cs p = push_bumps (trivia_count p.rest) cs p

-- `break`: a brace behind a condition, or an operator that binds no tighter.
abbrev pub stops : Precedence → Parser → Bool
stops min p =
    let kind = first_kind (after_trivia p.rest) in
    (ltb 0 p.condition_expr_depth && kind_in (open_brace ∷ []) kind)
    || (leb (rank (from_kind kind)) (rank min) || rank (from_kind kind) == 0)

abbrev or_ahead : Parser → Bool
or_ahead p = kind_in (or_kw ∷ []) (kind_behind 0 p.rest)

module _ (calls : Calls) where
  open calls use {parse_expr}

  unfoldable pub macro_args : TokenKind → Act SyntaxNode
  macro_args close =
      push_bump
      ⨟ push_trivia
      ⨟ until (close ∷ []) (
          push_node
            (start (push_trivia ⨟ push_node (parse_expr Precedence.none) ⨟ done NodeKind.arg))
          ⨟ push_trivia
          ⨟ when (comma ∷ []) (push_bump ⨟ push_trivia))
      ⨟ when (close ∷ []) push_bump
      ⨟ done NodeKind.macro_call

  unfoldable pub parse_ident : Act SyntaxNode
  parse_ident =
      push_bump
      ⨟ choose is_macro_invocation
          (push_offset
            ⨟ push_bump
            ⨟ push_trivia
            ⨟ on (open_paren ∷ []) (macro_args close_paren) (macro_args close_bracket))
          (done NodeKind.ident)

  unfoldable pub parse_paren : Act SyntaxNode
  parse_paren =
      push_bump
      ⨟ push_node (parse_expr Precedence.none)
      ⨟ push_trivia
      ⨟ when (close_paren ∷ []) push_bump
      ⨟ done NodeKind.paren_expr

  -- `match kind`, from the unary operators on.
  unfoldable pub parse_keyword : Act SyntaxNode
  parse_keyword =
      on (minus ∷ not_kw ∷ tilde ∷ star ∷ tide ∷ ampersand ∷ ampersand_tilde ∷ [])
        (push_bump ⨟ push_node (parse_expr Precedence.unary) ⨟ done NodeKind.unary_expr)
        (on (given ∷ []) (push_bump ⨟ parse_given_expr calls) (
          on (branch ∷ []) (push_bump ⨟ parse_branch_expr calls) (
            on (loop ∷ []) (push_bump ⨟ parse_loop_expr calls) (
              on (while ∷ []) (push_bump ⨟ parse_while_expr calls) (
                on (each ∷ []) (push_bump ⨟ parse_each_expr calls) (
                  on (zone ∷ []) (push_bump ⨟ parse_zone_expr calls) (
                    on (bind ∷ []) (push_bump ⨟ parse_bind_expr calls) (
                      on (seek ∷ []) (push_bump ⨟ parse_seek_expr calls) (
                        on (raw ∷ []) (instead (parse_raw_expr calls))
                          (push_bump ⨟ done NodeKind.error))))))))))

  unfoldable pub parse_primary : M SyntaxNode
  parse_primary = start (
      push_trivia
      ⨟ choose (λ p. is_literal (current_kind p)) (push_bump ⨟ done NodeKind.literal)
          (on (ident ∷ self_kw ∷ self_type ∷ []) parse_ident
            (on (open_paren ∷ []) parse_paren parse_keyword)))

  unfoldable pub parse_binary : SyntaxNode → Precedence → M SyntaxNode
  parse_binary lhs prec =
      from lhs (push_trivia ⨟ push_bump ⨟ push_node (parse_expr prec) ⨟ done NodeKind.binary_expr)

  unfoldable pub call_arg : Act SyntaxNode
  call_arg =
      push_trivia
      ⨟ choose is_named
          (push_bump
            ⨟ push_trivia
            ⨟ push_bump
            ⨟ push_trivia
            ⨟ push_node (parse_expr Precedence.none))
          (push_node (parse_expr Precedence.none))
      ⨟ done NodeKind.arg

  unfoldable pub parse_call : SyntaxNode → M SyntaxNode
  parse_call lhs = from lhs (
      push_trivia
      ⨟ push_bump
      ⨟ until (close_paren ∷ [])
          (push_node (start call_arg) ⨟ push_trivia ⨟ when (comma ∷ []) (push_bump ⨟ push_trivia))
      ⨟ when (close_paren ∷ []) push_bump
      ⨟ done NodeKind.call_expr)

  unfoldable pub parse_path_or_turbofish : SyntaxNode → M SyntaxNode
  parse_path_or_turbofish lhs = from lhs (
      push_trivia
      ⨟ push_bump
      ⨟ push_trivia
      ⨟ on (lt ∷ []) (push_node (parse_generic_args calls)) (when (ident ∷ []) push_bump)
      ⨟ done NodeKind.path_expr)

  unfoldable pub parse_struct_literal_expr : SyntaxNode → M SyntaxNode
  parse_struct_literal_expr lhs = from lhs (
      push_trivia
      ⨟ push_bump
      ⨟ until (close_brace ∷ []) (
          push_node (parse_expr Precedence.none)
          ⨟ push_trivia
          ⨟ when (colon ∷ []) (push_bump ⨟ push_trivia ⨟ push_node (parse_expr Precedence.none))
          ⨟ push_trivia
          ⨟ when (comma ∷ []) push_bump
          ⨟ push_trivia)
      ⨟ when (close_brace ∷ []) push_bump
      ⨟ done NodeKind.struct_literal)

  unfoldable pub parse_member_access : SyntaxNode → M SyntaxNode
  parse_member_access lhs = from lhs (
      push_trivia
      ⨟ push_bump
      ⨟ push_trivia
      ⨟ when (ident ∷ []) push_bump
      ⨟ done NodeKind.member_expr)

  unfoldable pub parse_postfix_bang : SyntaxNode → M SyntaxNode
  parse_postfix_bang lhs = from lhs (
      push_trivia
      ⨟ push_bump
      ⨟ choose or_ahead (push_offset ⨟ push_bump ⨟ push_node (parse_expr Precedence.none)) skip
      ⨟ done NodeKind.cascade_expr)

  unfoldable pub parse_optional_chaining : SyntaxNode → M SyntaxNode
  parse_optional_chaining lhs = from lhs (
      push_trivia
      ⨟ push_bump
      ⨟ push_trivia
      ⨟ when (dot ∷ []) (push_bump ⨟ push_trivia ⨟ when (ident ∷ []) push_bump)
      ⨟ done NodeKind.member_expr)

  -- The `if` chain on the kind of the operator.
  unfoldable pub extend_lhs : TokenKind → SyntaxNode → M SyntaxNode
  extend_lhs open_paren lhs = parse_call lhs
  extend_lhs double_colon lhs = parse_path_or_turbofish lhs
  extend_lhs open_brace lhs = parse_struct_literal_expr lhs
  extend_lhs question lhs = parse_optional_chaining lhs
  extend_lhs dot lhs = parse_member_access lhs
  extend_lhs bang lhs = parse_postfix_bang lhs
  extend_lhs kind lhs = parse_binary lhs (from_kind kind)

  unfoldable pub expr_loop : ℕ → Precedence → SyntaxNode → M SyntaxNode
  expr_loop zero min lhs p = none
  expr_loop (suc fuel) min lhs p =
      let next =
        extend_lhs (first_kind (after_trivia p.rest)) lhs (bumps (trivia_count p.rest) p) >>= λ r.
        expr_loop fuel min r.0 r.1 in
      if stops min p then some (lhs, p) else next

  unfoldable pub parse_expr_with : Precedence → M SyntaxNode
  parse_expr_with min p = parse_primary p >>= λ r. expr_loop (suc (length r.1.rest)) min r.0 r.1
