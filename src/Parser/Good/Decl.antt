-- ===== src/Parser/Good/Decl.antt =====
-- crates/izel_parser/src/lib.rs: the functions for declarations.
use izel.Prelude.{ℕ, [], ◌∷◌}
use izel.Lexer.Token.{TokenKind, forge, shape, scroll, dual, weave, ward, impl, type_kw, draw}
use izel.Parser.Tree.{leaves, node_leaves}
use izel.Parser.Steps.{Calls, Step}
use izel.Parser.Control.{block_here}
use izel.Parser.Types.{parse_type_here, parse_field, parse_param, parse_attributes}
use izel.Parser.Decl.{
  name_here, generics_here, macro_params_to, parse_draw_after_keyword, parse_scroll_after_keyword,
  package_path, modifiers, decl_body, parse_type_after_keyword, parse_macro_after_keyword,
  parse_echo_after_keyword, parse_bridge_after_keyword, forge_params, parse_forge_after_keyword,
  parse_impl_after_keywords, parse_shape_after_keyword, parse_ward_after_keyword, dual_member,
  dual_rest, parse_dual_after_keyword, parse_weave_after_keyword, parse_static_after_keyword,
  decl_after_modifiers, parse_decl_here, parse_source_file_with,
}
use izel.Parser.Good.{Mode, within, below, stays, moves, Good, GoodM}
use izel.Parser.Good.Rules.{widen_node, on-Good, push_node-Good}
use izel.Parser.Good.Calls.{GoodCalls, push_slow, run_rules}
use izel.Parser.Good.Control.{block_here-Good}
use izel.Parser.Good.Types.{
  parse_type_here-Good, parse_field-Good, parse_param-Good, parse_variant-Good, parse_effects-Good,
  parse_attributes-Good, parse_generic_params-Good,
}
use izel.Parser.Good.Stmt.{semicolon_here-Good, parse_stmt_after_trivia-Good}

-- The parts that call nothing.
module _ (Stuck : Type 0) {n : ℕ} where
  name_here-Good : {mode : Mode} → Good Stuck mode n stays leaves name_here
  unfolding name_here
  name_here-Good = search run_rules

  generics_here-Good : {mode : Mode} → Good Stuck mode n stays leaves generics_here
  unfolding generics_here
  generics_here-Good = search (run_rules, parse_generic_params-Good)

  params_below : (close : TokenKind) → Good Stuck below n stays leaves (macro_params_to close)
  unfolding macro_params_to
  params_below close = search run_rules depth 30

  draw-Good : Good Stuck below n stays node_leaves parse_draw_after_keyword
  unfolding parse_draw_after_keyword
  draw-Good = search (run_rules, semicolon_here-Good) depth 30

  scroll-Good : Good Stuck below n stays node_leaves parse_scroll_after_keyword
  unfolding parse_scroll_after_keyword
  scroll-Good = search (run_rules, name_here-Good, parse_variant-Good) depth 30

  package_path-Good : Good Stuck below n stays leaves package_path
  unfolding package_path
  package_path-Good = search run_rules depth 30

  modifiers-Good : Good Stuck within n stays leaves modifiers
  unfolding modifiers
  modifiers-Good = search (run_rules, package_path-Good) depth 30

module _ (Stuck : Type 0) {n : ℕ} (calls : Calls) (good : GoodCalls Stuck n calls) where
  type-Good : {mode : Mode} → GoodM Stuck mode n moves (parse_type_here calls)
  type-Good = parse_type_here-Good Stuck calls good

  field-Good : {mode : Mode} → GoodM Stuck mode n stays (parse_field calls)
  field-Good = parse_field-Good Stuck calls good

  param-Good : {mode : Mode} → GoodM Stuck mode n stays (parse_param calls)
  param-Good = parse_param-Good Stuck calls good

  attributes-Good : {mode : Mode} → GoodM Stuck mode n stays (parse_attributes calls)
  attributes-Good = parse_attributes-Good Stuck calls good

  block-Good : {mode : Mode} → Good Stuck mode n stays leaves (block_here calls)
  block-Good = block_here-Good Stuck calls good

  body_below : Good Stuck below n stays leaves (decl_body calls)
  unfolding decl_body
  body_below = search (run_rules, good.decl) depth 30

  type_alias-Good : Good Stuck below n stays node_leaves (parse_type_after_keyword calls)
  unfolding parse_type_after_keyword
  type_alias-Good = search (run_rules, name_here-Good, type-Good) depth 30

  macro-Good : Good Stuck below n stays node_leaves (parse_macro_after_keyword calls)
  unfolding parse_macro_after_keyword
  macro-Good = search (run_rules, name_here-Good, block-Good, params_below) depth 30

  echo-Good : Good Stuck below n stays node_leaves (parse_echo_after_keyword calls)
  unfolding parse_echo_after_keyword
  echo-Good = search (run_rules, block-Good) depth 30

  bridge-Good : Good Stuck below n stays node_leaves (parse_bridge_after_keyword calls)
  unfolding parse_bridge_after_keyword
  bridge-Good = search (run_rules, good.decl) depth 30

  forge_params-Good : Good Stuck below n stays leaves (forge_params calls)
  unfolding forge_params
  forge_params-Good = search (run_rules, param-Good) depth 30

  forge-Good : Good Stuck below n stays node_leaves (parse_forge_after_keyword calls)
  unfolding parse_forge_after_keyword
  forge-Good =
      search
        (
          run_rules, name_here-Good, generics_here-Good, forge_params-Good, type-Good,
          parse_effects-Good, block-Good,
        )
        depth 40

  impl-Good : Good Stuck below n stays node_leaves (parse_impl_after_keywords calls)
  unfolding parse_impl_after_keywords
  impl-Good = search (run_rules, type-Good, body_below) depth 30

  shape-Good : Good Stuck below n stays node_leaves (parse_shape_after_keyword calls)
  unfolding parse_shape_after_keyword
  shape-Good =
      search (run_rules, name_here-Good, generics_here-Good, field-Good, impl-Good) depth 40

  ward-Good : Good Stuck below n stays node_leaves (parse_ward_after_keyword calls)
  unfolding parse_ward_after_keyword
  ward-Good = search (run_rules, name_here-Good, body_below) depth 30

  dual_member-Good : Good Stuck below n stays leaves (dual_member calls)
  unfolding dual_member
  dual_member-Good =
      on-Good Stuck (forge ∷ shape ∷ scroll ∷ dual ∷ weave ∷ ward ∷ impl ∷ type_kw ∷ draw ∷ [])
        (push_slow Stuck good.decl) (push_node-Good Stuck field-Good)

  dual_rest-Good :
      {member : Step}
      → Good Stuck below n stays leaves member
      → Good Stuck below n stays node_leaves (dual_rest calls member)
  unfolding dual_rest
  dual_rest-Good h = search (run_rules, name_here-Good, generics_here-Good) depth 30

  dual-Good : Good Stuck below n stays node_leaves (parse_dual_after_keyword calls)
  unfolding parse_dual_after_keyword
  dual-Good = search (run_rules, dual_rest-Good, dual_member-Good, good.decl) depth 30

  weave-Good : Good Stuck below n stays node_leaves (parse_weave_after_keyword calls)
  unfolding parse_weave_after_keyword
  weave-Good = search (run_rules, type-Good, impl-Good, body_below) depth 30

  static-Good : Good Stuck below n stays node_leaves (parse_static_after_keyword calls)
  unfolding parse_static_after_keyword
  static-Good = search (run_rules, name_here-Good, type-Good, good.expr) depth 30

  decl_after_modifiers-Good : Good Stuck within n moves node_leaves (decl_after_modifiers calls)
  unfolding decl_after_modifiers
  decl_after_modifiers-Good =
      let stmt = parse_stmt_after_trivia-Good Stuck calls good {mode = within} in
      search
        (
          run_rules, forge-Good, shape-Good, scroll-Good, ward-Good, macro-Good, dual-Good,
          weave-Good, impl-Good, type_alias-Good, draw-Good, static-Good, echo-Good, bridge-Good,
        )
        depth 40

  decl_within : GoodM Stuck within n moves (parse_decl_here calls)
  unfolding parse_decl_here
  decl_within =
      search (run_rules, attributes-Good, modifiers-Good, decl_after_modifiers-Good) depth 30

  pub parse_decl_here-Good : {mode : Mode} → GoodM Stuck mode n moves (parse_decl_here calls)
  parse_decl_here-Good = widen_node Stuck decl_within

  pub parse_source_file-Good : GoodM Stuck within n stays (parse_source_file_with calls)
  unfolding parse_source_file_with
  parse_source_file-Good = search (run_rules, parse_decl_here-Good) depth 30
