-- ===== src/Parser/Good/Types.antt =====
-- crates/izel_parser/src/lib.rs: the functions for types, fields, variants, parameters, effects and
-- attributes.
use mathlib.Core.List.{sublist-append_left}
use mathlib.Core.List.Sublist
use izel.Prelude.{ℕ, ◌&&◌, some, [], ◌∷◌, arith, ◌>>=◌}
use izel.Lexer.Token.{TokenKind, raw, bang, lt}
use izel.Parser.Tree.{NodeKind, SyntaxNode, kind_of_node, leaves, node_leaves}
use izel.Parser.Kinds.{kind_in}
use izel.Parser.Precedence.{Precedence}
use izel.Parser.Steps.{Calls, Parser, current_kind, eat_trivia, from, push_node, done, ◌⨟◌}
use izel.Parser.Expr.{parse_expr_with, parse_postfix_bang}
use izel.Parser.Control.{parse_generic_args}
use izel.Parser.Types.{
  generic_param, generic_params_to, parse_generic_params, visibility, payload_to, parse_variant,
  parse_effects, is_ident_node, type_bang, type_generics, parse_named_type, parse_type_here,
  parse_field, parse_param, attribute_args, parse_attribute, parse_attributes,
}
use izel.Parser.Good.{
  Mode, within, below, before_end, after, stays, moves, Ready, Run, Good, GoodM, GoodFrom,
}
use izel.Parser.Good.Runs.{kind_in_held, Run-bind, Run-join, Ready-Post, Ready-moved, Ready-not_end}
use izel.Parser.Good.Rules.{instead-Good, on-Good, if-Run, slow-Run, widen, widen_node}
use izel.Parser.Good.Loops.{some-Run}
use izel.Parser.Good.Primitives.{still, trivia-Post}
use izel.Parser.Good.Calls.{GoodCalls, run_rules}
use izel.Parser.Good.Control.{parse_generic_args-Good, parse_raw_expr-Good}
use izel.Parser.Good.Expr.{parse_postfix_bang-Good}
use izel.Parser.Good.Pratt.{parse_expr_with-Good}

module _ (Stuck : Type 0) {n : ℕ} where
  generic_param-Good : {mode : Mode} → Good Stuck mode n stays node_leaves generic_param
  unfolding generic_param
  generic_param-Good = search run_rules depth 30

  generic_params_to-Good :
      (close : TokenKind) → Good Stuck before_end n stays leaves (generic_params_to close)
  unfolding generic_params_to
  generic_params_to-Good close = search (run_rules, generic_param-Good) depth 30

  generic_params_within : GoodM Stuck within n stays parse_generic_params
  unfolding parse_generic_params
  generic_params_within = search (run_rules, generic_params_to-Good) depth 30

  visibility-within : Good Stuck within n stays leaves visibility
  unfolding visibility
  visibility-within = search run_rules depth 30

  payload_to-Good : (close : TokenKind) → Good Stuck before_end n stays leaves (payload_to close)
  unfolding payload_to
  payload_to-Good close = search run_rules depth 30

  variant_within : GoodM Stuck within n stays parse_variant
  unfolding parse_variant
  variant_within = search (run_rules, visibility-within, payload_to-Good) depth 30

  effects_within : Good Stuck within n stays leaves parse_effects
  unfolding parse_effects
  effects_within = search run_rules depth 30

  module _ {mode : Mode} where
    pub parse_generic_params-Good : GoodM Stuck mode n stays parse_generic_params
    parse_generic_params-Good = widen_node Stuck generic_params_within

    pub parse_variant-Good : GoodM Stuck mode n stays parse_variant
    parse_variant-Good = widen_node Stuck variant_within

    pub parse_effects-Good : Good Stuck mode n stays leaves parse_effects
    parse_effects-Good = widen Stuck effects_within

module _ (Stuck : Type 0) {n : ℕ} (calls : Calls) (good : GoodCalls Stuck n calls) where
  type_generics_from :
      (res : SyntaxNode)
      → GoodFrom Stuck
          (node_leaves res)
          below
          n
          stays
          (from res (push_node (parse_generic_args calls) ⨟ done NodeKind.type))
  type_generics_from res = search (run_rules, parse_generic_args-Good Stuck calls good) depth 30

  type_bang-Run :
      (res : SyntaxNode) (p : Parser)
      → Ready Stuck after n p
      → Run Stuck node_leaves stays (node_leaves res) p (type_bang calls res p)
  type_bang-Run res p r =
      let here = kind_in (bang ∷ []) (current_kind p) in
      let bang_expr = parse_postfix_bang calls res p in
      if-Run Stuck here bang_expr (some (res, p))
        (λ is. slow-Run Stuck bang_expr (
          (parse_postfix_bang-Good Stuck calls good res).at p
            (Ready-not_end Stuck n after p r (kind_in_held (bang ∷ []) (current_kind p) is))))
        (λ _. some-Run Stuck (still (Sublist.refl (node_leaves res))))

  type_generics-Run :
      (res : SyntaxNode) (p : Parser)
      → Ready Stuck after n p
      → Run Stuck node_leaves stays (node_leaves res) p (type_generics calls res p)
  type_generics-Run res p r =
      let here = is_ident_node (kind_of_node res) && kind_in (lt ∷ []) (current_kind p) in
      let generic = from res (push_node (parse_generic_args calls) ⨟ done NodeKind.type) p in
      if-Run Stuck here generic (some (res, p))
        (λ is. (type_generics_from res).at p (
          Ready-not_end Stuck n after p r (kind_in_held (lt ∷ []) (current_kind p) (ground arith))))
        (λ _. some-Run Stuck (still (Sublist.refl (node_leaves res))))

  -- What follows the expression of a type.
  type_rest-Run :
      (res : SyntaxNode) (p : Parser)
      → Ready Stuck after n p
      → Run Stuck node_leaves stays
          (node_leaves res)
          p
          (type_bang calls res (eat_trivia p).1 >>= λ s. type_generics calls s.0 s.1)
  type_rest-Run res p r =
      let q = (eat_trivia p).1 in
      let ahead =
        trivia-Post {leaf = node_leaves} {a = res} p
          (sublist-append_left (node_leaves res) (leaves (eat_trivia p).0)) in
      let ready = Ready-Post Stuck n after r ahead in
      Run-join Stuck (type_bang calls res q >>= λ s. type_generics calls s.0 s.1) ahead (
        Run-bind Stuck (type_bang calls res q) (type_generics calls) (type_bang-Run res q ready)
          (λ s v run. type_generics-Run s v (Ready-Post Stuck n after ready run)))

  named_type_within : GoodM Stuck within n moves (parse_named_type calls)
  unfolding parse_named_type
  named_type_within = record {
    at = λ p r.
        Run-bind Stuck (parse_expr_with calls Precedence.call p)
          (λ a q. type_bang calls a (eat_trivia q).1 >>= λ s. type_generics calls s.0 s.1)
          ((parse_expr_with-Good Stuck calls good {mode = within} Precedence.call).at p r)
          (λ a q run. type_rest-Run a q (Ready-moved Stuck n within r run));
  }

  type_within : GoodM Stuck within n moves (parse_type_here calls)
  unfolding parse_type_here
  type_within =
      let rest =
        on-Good Stuck (raw ∷ []) (instead-Good Stuck (parse_raw_expr-Good Stuck calls good))
          (instead-Good Stuck named_type_within) in
      search (run_rules, good.type) depth 30

  pub parse_type_here-Good : {mode : Mode} → GoodM Stuck mode n moves (parse_type_here calls)
  parse_type_here-Good = widen_node Stuck type_within

  field_within : GoodM Stuck within n stays (parse_field calls)
  unfolding parse_field
  field_within = search (run_rules, parse_type_here-Good, visibility-within) depth 30

  param_within : GoodM Stuck within n stays (parse_param calls)
  unfolding parse_param
  param_within = search (run_rules, parse_type_here-Good, good.expr) depth 30

  attribute_args-Good : Good Stuck before_end n stays leaves (attribute_args calls)
  unfolding attribute_args
  attribute_args-Good = search (run_rules, good.expr) depth 30

  attribute_within : GoodM Stuck within n stays (parse_attribute calls)
  unfolding parse_attribute
  attribute_within = search (run_rules, attribute_args-Good) depth 30

  attribute-Good : {mode : Mode} → GoodM Stuck mode n stays (parse_attribute calls)
  attribute-Good = widen_node Stuck attribute_within

  attributes_within : GoodM Stuck within n stays (parse_attributes calls)
  unfolding parse_attributes
  attributes_within = search (run_rules, attribute-Good) depth 30

  module _ {mode : Mode} where
    pub parse_field-Good : GoodM Stuck mode n stays (parse_field calls)
    parse_field-Good = widen_node Stuck field_within

    pub parse_param-Good : GoodM Stuck mode n stays (parse_param calls)
    parse_param-Good = widen_node Stuck param_within

    pub parse_attributes-Good : GoodM Stuck mode n stays (parse_attributes calls)
    parse_attributes-Good = widen_node Stuck attributes_within
