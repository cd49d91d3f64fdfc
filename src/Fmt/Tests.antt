-- ===== src/Fmt/Tests.antt =====
-- The formatter on a concrete source.
use izel.Prelude.{ℕ, ◌≡◌, refl, List, [], ◌∷◌, some, Text, codes}
use izel.Lexer.Ident
use izel.Lexer.Cursor
use izel.Lexer.Token.{TokenKind, Token, draw, whitespace, ident, double_colon, semicolon}
use izel.Parser.Tree
use izel.Parser.Kinds
use izel.Parser.Steps
use izel.Parser.Precedence
use izel.Parser.Control
use izel.Parser.Expr
use izel.Parser.Types
use izel.Parser.Patterns
use izel.Parser.Stmt
use izel.Parser.Decl
use izel.Parser.Run
use izel.Parser.Tree.{NodeKind, SyntaxNode, node, no_children, node_then, token_then}
use izel.Parser.Steps.{Parser}
use izel.Parser.Run.{parse_source_file}
use izel.Lexer.Ascii.{ascii, ascii-IsUnicode}
use izel.Fmt.Ink
use izel.Fmt.Ink.{ink, node_text}
use izel.Fmt
use izel.Fmt.Whole.{format_tokens, format_tokens-ink}

abbrev source : Text
source = codes "draw  a::b;"

abbrev token_at : TokenKind → ℕ → ℕ → Token
token_at k lo hi = record { kind = k; span = record { lo = lo; hi = hi; source_id = 0 } }

abbrev tokens : List Token
tokens =
    token_at draw 0 4
    ∷ token_at whitespace 4 6
    ∷ token_at ident 6 7
    ∷ token_at double_colon 7 9
    ∷ token_at ident 9 10
    ∷ token_at semicolon 10 11
    ∷ []

abbrev tree : SyntaxNode
tree = node NodeKind.source_file (
    node_then
      (node NodeKind.draw_decl (
        token_then (token_at draw 0 4) (
          token_then (token_at whitespace 4 6) (
            token_then (token_at ident 6 7) (
              token_then (token_at double_colon 7 9) (
                token_then (token_at ident 9 10)
                  (token_then (token_at semicolon 10 11) no_children)))))))
      no_children)

abbrev end : Parser
end = record { rest = []; pos = 6; condition_expr_depth = 0 }

parsed : parse_source_file tokens ≡ some (tree, end)
unfolding Tree.extend Tree.leaves Tree.node_leaves Kinds.tag Kinds.any_kind Kinds.kind_in
    Kinds.kind_before Steps.bump Steps.bumps Steps.trivia Steps.trivia_count Steps.after_trivia
    Steps.eat_trivia Steps.◌⨟◌ Steps.done Steps.start Steps.skip Steps.push_bump Steps.push_trivia
    Steps.drop_trivia Steps.push_bumps Steps.push_node Steps.instead Steps.on Steps.when
    Steps.choose Steps.repeat Steps.while_in Steps.until Steps.ensure_progress
    Steps.ensure_progress_at_or_before Steps.in_condition Steps.from Steps.separated_loop
    Steps.separated Precedence.rank Precedence.from_kind Control.parse_block Control.block_here
    Control.generic_args_to Control.parse_generic_args Control.parse_raw_expr Control.given_chain
    Control.parse_given_expr Control.branch_arm Control.parse_branch_expr Control.parse_loop_expr
    Control.parse_while_expr Control.parse_each_expr Control.parse_bind_expr Control.parse_zone_expr
    Control.parse_seek_expr Expr.is_literal Expr.is_str Expr.push_offset Expr.macro_args
    Expr.parse_ident Expr.parse_paren Expr.parse_keyword Expr.parse_primary Expr.parse_binary
    Expr.call_arg Expr.parse_call Expr.parse_path_or_turbofish Expr.parse_struct_literal_expr
    Expr.parse_member_access Expr.parse_postfix_bang Expr.parse_optional_chaining Expr.extend_lhs
    Expr.expr_loop Expr.parse_expr_with Types.generic_param Types.generic_params_to
    Types.parse_generic_params Types.visibility Types.payload_to Types.parse_variant
    Types.parse_effects Types.parse_named_type Types.parse_type_here Types.parse_field
    Types.parse_param Types.attribute_args Types.parse_attribute Types.parse_attributes
    Patterns.is_pattern_literal Patterns.comma_here Patterns.patterns_to Patterns.slice_patterns
    Patterns.path_segments Patterns.named_pattern Patterns.pattern_body Patterns.parse_pattern_here
    Stmt.semicolon_here Stmt.let_stmt Stmt.give_stmt Stmt.assign_stmt Stmt.expr_stmt Stmt.block_stmt
    Stmt.parse_stmt_after_trivia Stmt.parse_stmt_here Decl.name_here Decl.generics_here
    Decl.macro_params_to Decl.parse_draw_after_keyword Decl.parse_scroll_after_keyword
    Decl.package_path Decl.modifiers Decl.decl_body Decl.parse_type_after_keyword
    Decl.parse_macro_after_keyword Decl.parse_echo_after_keyword Decl.parse_bridge_after_keyword
    Decl.forge_params Decl.parse_forge_after_keyword Decl.parse_impl_after_keywords
    Decl.parse_shape_after_keyword Decl.parse_ward_after_keyword Decl.dual_member Decl.dual_rest
    Decl.parse_dual_after_keyword Decl.parse_weave_after_keyword Decl.parse_static_after_keyword
    Decl.decl_after_modifiers Decl.parse_decl_here Decl.parse_source_file_with Run.calls_to
    Run.parse_source_file
parsed = refl

tree_text : node_text source tree ≡ some (codes "drawa::b;")
unfolding Ink.node_text Ink.token_text Fmt.text_of Ident.slice Cursor.len_utf8 Kinds.kind_in
    Kinds.any_kind Kinds.tag
tree_text = refl

format_tokens-ink_example :
    (out : Text) × (format_tokens ascii source tokens ≡ some out)
    × (ink ascii out ≡ ink ascii (codes "drawa::b;"))
format_tokens-ink_example =
    format_tokens-ink ascii ascii-IsUnicode source tokens tree end (codes "drawa::b;") parsed
      tree_text
