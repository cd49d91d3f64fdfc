-- ===== src/Parser/Tests.antt =====
-- The parser on concrete sources.
use izel.Prelude.{◌≡◌, ◌↔◌, refl, true, List, [], ◌∷◌, none, some}
use izel.Span.{dummy}
use izel.Lexer.Token.{
  TokenKind, Token, forge, ident, whitespace, open_paren, close_paren, open_brace, close_brace,
  give, plus, star, draw, double_colon, semicolon, eof,
}
use izel.Parser.Tree
use izel.Parser.Kinds
use izel.Parser.Steps
use izel.Parser.Precedence
use izel.Parser.Control
use izel.Parser.Expr
use izel.Parser.Types
use izel.Parser.Patterns
use izel.Parser.Stmt
use izel.Parser.Decl
use izel.Parser.Run
use izel.Parser.Endless
use izel.Parser.Tree.{NodeKind, SyntaxNode, Children, node, no_children, node_then, token_then}
use izel.Parser.Precedence.{Precedence}
use izel.Parser.Steps.{Parser, new, repeat, ◌⨟◌, push_node, push_trivia}
use izel.Parser.Kinds.{kind_before}
use izel.Parser.Expr.{parse_primary, parse_expr_with}
use izel.Parser.Patterns.{comma_here, patterns_to}
use izel.Parser.Decl.{parse_source_file_with}
use izel.Parser.Run.{calls_to, parse_source_file}
use izel.Parser.Good.{pattern_free}
use izel.Parser.Returns.{Parsed, parse_source_file_returns, parse_source_file_keeps}
use izel.Parser.Endless.{patterns_never_end}
use izel.Parser.Climb.{IsEnd, parse_expr_stops}

abbrev token_of : TokenKind → Token
token_of k = record { kind = k; span = dummy }

abbrev tokens_of : List TokenKind → List Token
tokens_of [] = []
tokens_of (k ∷ ks) = token_of k ∷ tokens_of ks

-- `forge f(){give a+b*c}`
abbrev source : List Token
source = tokens_of (
    forge ∷ whitespace ∷ ident ∷ open_paren ∷ close_paren ∷ open_brace ∷ give ∷ ident ∷ plus ∷ ident
    ∷ star ∷ ident ∷ close_brace ∷ eof ∷ [])

source_free : pattern_free source ≡ true
unfolding pattern_free
source_free = refl

parse_source_file_returns_example :
    (tree : SyntaxNode) × (p : Parser) × (parse_source_file source ≡ some (tree, p))
    × Parsed source tree p
parse_source_file_returns_example = parse_source_file_returns source source_free

-- `a+b*c;`
abbrev sum : Parser
sum = new (tokens_of (ident ∷ plus ∷ ident ∷ star ∷ ident ∷ semicolon ∷ []))

abbrev tokens_then : List TokenKind → Children → Children
tokens_then [] cs = cs
tokens_then (k ∷ ks) cs = token_then (token_of k) (tokens_then ks cs)

abbrev name : SyntaxNode
name = node NodeKind.ident (tokens_then (ident ∷ []) no_children)

abbrev sum_tree : SyntaxNode
sum_tree = node NodeKind.binary_expr (
    node_then name (
      token_then (token_of plus) (
        node_then
          (node NodeKind.binary_expr
            (node_then name (token_then (token_of star) (node_then name no_children))))
          no_children)))

abbrev sum_rest : Parser
sum_rest = record { rest = tokens_of (semicolon ∷ []); pos = 5; condition_expr_depth = 0 }

-- The product is the right operand of the sum.
sum_parsed : parse_expr_with (calls_to 3) Precedence.none sum ≡ some (sum_tree, sum_rest)
unfolding Tree.extend Tree.leaves Tree.node_leaves Kinds.tag Kinds.any_kind Kinds.kind_in
    Kinds.kind_before Steps.bump Steps.bumps Steps.trivia Steps.trivia_count Steps.after_trivia
    Steps.eat_trivia Steps.◌⨟◌ Steps.done Steps.start Steps.skip Steps.push_bump Steps.push_trivia
    Steps.drop_trivia Steps.push_bumps Steps.push_node Steps.instead Steps.on Steps.when
    Steps.choose Steps.repeat Steps.while_in Steps.until Steps.ensure_progress
    Steps.ensure_progress_at_or_before Steps.in_condition Steps.from Steps.separated_loop
    Steps.separated Precedence.rank Precedence.from_kind Control.parse_block Control.block_here
    Control.generic_args_to Control.parse_generic_args Control.parse_raw_expr Control.given_chain
    Control.parse_given_expr Control.branch_arm Control.parse_branch_expr Control.parse_loop_expr
    Control.parse_while_expr Control.parse_each_expr Control.parse_bind_expr Control.parse_zone_expr
    Control.parse_seek_expr Expr.is_literal Expr.is_str Expr.push_offset Expr.macro_args
    Expr.parse_ident Expr.parse_paren Expr.parse_keyword Expr.parse_primary Expr.parse_binary
    Expr.call_arg Expr.parse_call Expr.parse_path_or_turbofish Expr.parse_struct_literal_expr
    Expr.parse_member_access Expr.parse_postfix_bang Expr.parse_optional_chaining Expr.extend_lhs
    Expr.expr_loop Expr.parse_expr_with Types.generic_param Types.generic_params_to
    Types.parse_generic_params Types.visibility Types.payload_to Types.parse_variant
    Types.parse_effects Types.parse_named_type Types.parse_type_here Types.parse_field
    Types.parse_param Types.attribute_args Types.parse_attribute Types.parse_attributes
    Patterns.is_pattern_literal Patterns.comma_here Patterns.patterns_to Patterns.slice_patterns
    Patterns.path_segments Patterns.named_pattern Patterns.pattern_body Patterns.parse_pattern_here
    Stmt.semicolon_here Stmt.let_stmt Stmt.give_stmt Stmt.assign_stmt Stmt.expr_stmt Stmt.block_stmt
    Stmt.parse_stmt_after_trivia Stmt.parse_stmt_here Decl.name_here Decl.generics_here
    Decl.macro_params_to Decl.parse_draw_after_keyword Decl.parse_scroll_after_keyword
    Decl.package_path Decl.modifiers Decl.decl_body Decl.parse_type_after_keyword
    Decl.parse_macro_after_keyword Decl.parse_echo_after_keyword Decl.parse_bridge_after_keyword
    Decl.forge_params Decl.parse_forge_after_keyword Decl.parse_impl_after_keywords
    Decl.parse_shape_after_keyword Decl.parse_ward_after_keyword Decl.dual_member Decl.dual_rest
    Decl.parse_dual_after_keyword Decl.parse_weave_after_keyword Decl.parse_static_after_keyword
    Decl.decl_after_modifiers Decl.parse_decl_here Decl.parse_source_file_with Run.calls_to
    Run.parse_source_file
sum_parsed = refl

parse_expr_stops_example :
    IsEnd Precedence.none sum_rest
    × (lhs : SyntaxNode) × (v : Parser) × (parse_primary (calls_to 3) sum ≡ some (lhs, v))
    × (IsEnd Precedence.none v ↔ ((sum_tree ≡ lhs) × (sum_rest ≡ v)))
parse_expr_stops_example =
    parse_expr_stops (calls_to 3) Precedence.none sum_tree sum sum_rest sum_parsed

-- `draw a::b;`
abbrev import : List Token
import = tokens_of (draw ∷ whitespace ∷ ident ∷ double_colon ∷ ident ∷ semicolon ∷ eof ∷ [])

abbrev import_tree : SyntaxNode
import_tree = node NodeKind.source_file (
    node_then
      (node NodeKind.draw_decl (
        tokens_then (draw ∷ whitespace ∷ ident ∷ double_colon ∷ ident ∷ semicolon ∷ [])
          no_children))
      no_children)

abbrev import_end : Parser
import_end = record { rest = tokens_of (eof ∷ []); pos = 6; condition_expr_depth = 0 }

import_parsed : parse_source_file_with (calls_to 1) (new import) ≡ some (import_tree, import_end)
unfolding Tree.extend Tree.leaves Tree.node_leaves Kinds.tag Kinds.any_kind Kinds.kind_in
    Kinds.kind_before Steps.bump Steps.bumps Steps.trivia Steps.trivia_count Steps.after_trivia
    Steps.eat_trivia Steps.◌⨟◌ Steps.done Steps.start Steps.skip Steps.push_bump Steps.push_trivia
    Steps.drop_trivia Steps.push_bumps Steps.push_node Steps.instead Steps.on Steps.when
    Steps.choose Steps.repeat Steps.while_in Steps.until Steps.ensure_progress
    Steps.ensure_progress_at_or_before Steps.in_condition Steps.from Steps.separated_loop
    Steps.separated Precedence.rank Precedence.from_kind Control.parse_block Control.block_here
    Control.generic_args_to Control.parse_generic_args Control.parse_raw_expr Control.given_chain
    Control.parse_given_expr Control.branch_arm Control.parse_branch_expr Control.parse_loop_expr
    Control.parse_while_expr Control.parse_each_expr Control.parse_bind_expr Control.parse_zone_expr
    Control.parse_seek_expr Expr.is_literal Expr.is_str Expr.push_offset Expr.macro_args
    Expr.parse_ident Expr.parse_paren Expr.parse_keyword Expr.parse_primary Expr.parse_binary
    Expr.call_arg Expr.parse_call Expr.parse_path_or_turbofish Expr.parse_struct_literal_expr
    Expr.parse_member_access Expr.parse_postfix_bang Expr.parse_optional_chaining Expr.extend_lhs
    Expr.expr_loop Expr.parse_expr_with Types.generic_param Types.generic_params_to
    Types.parse_generic_params Types.visibility Types.payload_to Types.parse_variant
    Types.parse_effects Types.parse_named_type Types.parse_type_here Types.parse_field
    Types.parse_param Types.attribute_args Types.parse_attribute Types.parse_attributes
    Patterns.is_pattern_literal Patterns.comma_here Patterns.patterns_to Patterns.slice_patterns
    Patterns.path_segments Patterns.named_pattern Patterns.pattern_body Patterns.parse_pattern_here
    Stmt.semicolon_here Stmt.let_stmt Stmt.give_stmt Stmt.assign_stmt Stmt.expr_stmt Stmt.block_stmt
    Stmt.parse_stmt_after_trivia Stmt.parse_stmt_here Decl.name_here Decl.generics_here
    Decl.macro_params_to Decl.parse_draw_after_keyword Decl.parse_scroll_after_keyword
    Decl.package_path Decl.modifiers Decl.decl_body Decl.parse_type_after_keyword
    Decl.parse_macro_after_keyword Decl.parse_echo_after_keyword Decl.parse_bridge_after_keyword
    Decl.forge_params Decl.parse_forge_after_keyword Decl.parse_impl_after_keywords
    Decl.parse_shape_after_keyword Decl.parse_ward_after_keyword Decl.dual_member Decl.dual_rest
    Decl.parse_dual_after_keyword Decl.parse_weave_after_keyword Decl.parse_static_after_keyword
    Decl.decl_after_modifiers Decl.parse_decl_here Decl.parse_source_file_with Run.calls_to
    Run.parse_source_file
import_parsed = refl

parse_source_file_keeps_example : Parsed import import_tree import_end
parse_source_file_keeps_example =
    parse_source_file_keeps 1 import import_tree import_end import_parsed

-- `let (+`, at the `+`.
plus_stops : Endless.is_stop close_paren plus ≡ true
unfolding Tree.extend Tree.leaves Tree.node_leaves Kinds.tag Kinds.any_kind Kinds.kind_in
    Kinds.kind_before Steps.bump Steps.bumps Steps.trivia Steps.trivia_count Steps.after_trivia
    Steps.eat_trivia Steps.◌⨟◌ Steps.done Steps.start Steps.skip Steps.push_bump Steps.push_trivia
    Steps.drop_trivia Steps.push_bumps Steps.push_node Steps.instead Steps.on Steps.when
    Steps.choose Steps.repeat Steps.while_in Steps.until Steps.ensure_progress
    Steps.ensure_progress_at_or_before Steps.in_condition Steps.from Steps.separated_loop
    Steps.separated Precedence.rank Precedence.from_kind Control.parse_block Control.block_here
    Control.generic_args_to Control.parse_generic_args Control.parse_raw_expr Control.given_chain
    Control.parse_given_expr Control.branch_arm Control.parse_branch_expr Control.parse_loop_expr
    Control.parse_while_expr Control.parse_each_expr Control.parse_bind_expr Control.parse_zone_expr
    Control.parse_seek_expr Expr.is_literal Expr.is_str Expr.push_offset Expr.macro_args
    Expr.parse_ident Expr.parse_paren Expr.parse_keyword Expr.parse_primary Expr.parse_binary
    Expr.call_arg Expr.parse_call Expr.parse_path_or_turbofish Expr.parse_struct_literal_expr
    Expr.parse_member_access Expr.parse_postfix_bang Expr.parse_optional_chaining Expr.extend_lhs
    Expr.expr_loop Expr.parse_expr_with Types.generic_param Types.generic_params_to
    Types.parse_generic_params Types.visibility Types.payload_to Types.parse_variant
    Types.parse_effects Types.parse_named_type Types.parse_type_here Types.parse_field
    Types.parse_param Types.attribute_args Types.parse_attribute Types.parse_attributes
    Patterns.is_pattern_literal Patterns.comma_here Patterns.patterns_to Patterns.slice_patterns
    Patterns.path_segments Patterns.named_pattern Patterns.pattern_body Patterns.parse_pattern_here
    Stmt.semicolon_here Stmt.let_stmt Stmt.give_stmt Stmt.assign_stmt Stmt.expr_stmt Stmt.block_stmt
    Stmt.parse_stmt_after_trivia Stmt.parse_stmt_here Decl.name_here Decl.generics_here
    Decl.macro_params_to Decl.parse_draw_after_keyword Decl.parse_scroll_after_keyword
    Decl.package_path Decl.modifiers Decl.decl_body Decl.parse_type_after_keyword
    Decl.parse_macro_after_keyword Decl.parse_echo_after_keyword Decl.parse_bridge_after_keyword
    Decl.forge_params Decl.parse_forge_after_keyword Decl.parse_impl_after_keywords
    Decl.parse_shape_after_keyword Decl.parse_ward_after_keyword Decl.dual_member Decl.dual_rest
    Decl.parse_dual_after_keyword Decl.parse_weave_after_keyword Decl.parse_static_after_keyword
    Decl.decl_after_modifiers Decl.parse_decl_here Decl.parse_source_file_with Run.calls_to
    Run.parse_source_file
plus_stops = refl

patterns_never_end_example :
    let item = push_node (calls_to 4).parse_pattern ⨟ push_trivia ⨟ comma_here (calls_to 4) in
    let stuck : Parser = record {
      rest = tokens_of (plus ∷ eof ∷ []);
      pos = 3;
      condition_expr_depth = 0;
    } in
    (patterns_to (calls_to 4) close_paren no_children (record {
      rest = tokens_of (open_paren ∷ plus ∷ eof ∷ []);
      pos = 2;
      condition_expr_depth = 0;
    })
      ≡ none)
    × ((ds : Children) × (item no_children stuck ≡ some (ds, stuck)))
    × (repeat 100 (kind_before (close_paren ∷ [])) item no_children stuck ≡ none)
patterns_never_end_example =
    patterns_never_end close_paren (token_of open_paren) (token_of plus) (tokens_of (eof ∷ [])) 0 2
      3 100 no_children refl plus_stops
