-- ===== src/Parser/Decl.antt =====
-- crates/izel_parser/src/lib.rs: declarations and source files.
use izel.Prelude.{[], ◌∷◌}
use izel.Lexer.Token.{
  TokenKind, equal, bang, open_paren, close_paren, open_bracket, close_bracket, open_brace,
  close_brace, comma, dot_dot, lt, arrow, impl, forge, shape, scroll, dual, weave, ward, type_kw,
  draw, static, echo, bridge, macro, for_kw, colon, plus, star, double_colon, slash, at, pound,
  open_kw, hidden, pkg, pure, sole, flow, comptime, extern, ident, tilde,
}
use izel.Parser.Tree.{NodeKind, SyntaxNode}
use izel.Parser.Kinds.{naming, kind_in, kind_before}
use izel.Parser.Precedence.{Precedence}
use izel.Parser.Steps.{
  M, Act, Step, Calls, ◌⨟◌, done, start, skip, push_bump, push_trivia, push_node, on, when, choose,
  while_in, until, separated, ensure_progress, ensure_progress_at_or_before, current_kind,
}
use izel.Parser.Control.{block_here}
use izel.Parser.Types.{
  parse_type_here, parse_generic_params, parse_field, parse_param, parse_variant, parse_effects,
  parse_attributes,
}
use izel.Parser.Expr.{is_str}
use izel.Parser.Stmt.{parse_stmt_after_trivia, semicolon_here}

-- `if self.is_naming_ident() { … }`, the name of a declaration.
unfoldable pub name_here : Step
name_here = when naming push_bump

unfoldable pub generics_here : Step
generics_here = when (lt ∷ []) (push_node parse_generic_params)

-- The parameters of a macro, up to `close`.
unfoldable pub macro_params_to : TokenKind → Step
macro_params_to close =
    push_bump
    ⨟ push_trivia
    ⨟ until (close ∷ []) (
        ensure_progress (
          when (dot_dot ∷ []) (push_bump ⨟ push_trivia)
          ⨟ push_bump
          ⨟ push_trivia
          ⨟ when (comma ∷ []) (push_bump ⨟ push_trivia)))
    ⨟ when (close ∷ []) push_bump

unfoldable pub parse_draw_after_keyword : Act SyntaxNode
parse_draw_after_keyword =
    push_trivia
    ⨟ separated (kind_in (star ∷ naming)) (push_bump ⨟ push_trivia) (double_colon ∷ slash ∷ [])
    ⨟ semicolon_here
    ⨟ done NodeKind.draw_decl

unfoldable pub parse_scroll_after_keyword : Act SyntaxNode
parse_scroll_after_keyword =
    push_trivia
    ⨟ name_here
    ⨟ push_trivia
    ⨟ when (open_brace ∷ []) (
        push_bump
        ⨟ until (close_brace ∷ []) (ensure_progress (push_node parse_variant ⨟ push_trivia))
        ⨟ when (close_brace ∷ []) push_bump)
    ⨟ done NodeKind.scroll_decl

-- `pkg(a::b)`: the loop stops at the first token that is neither a name nor `::`.
unfoldable pub package_path : Step
package_path =
    push_bump ⨟ while_in (ident ∷ double_colon ∷ []) push_bump ⨟ when (close_paren ∷ []) push_bump

unfoldable pub modifiers : Step
modifiers =
    while_in (open_kw ∷ hidden ∷ pkg ∷ pure ∷ sole ∷ flow ∷ comptime ∷ extern ∷ [])
      (on (pkg ∷ []) (push_bump ⨟ when (open_paren ∷ []) package_path) push_bump ⨟ push_trivia)

module _ (calls : Calls) where
  open calls use {parse_expr, parse_decl}

  -- `{ … }` of declarations, each with `ensure_progress`.
  unfoldable pub decl_body : Step
  decl_body =
      push_bump
      ⨟ until (close_brace ∷ []) (ensure_progress (push_node parse_decl ⨟ push_trivia))
      ⨟ when (close_brace ∷ []) push_bump

  unfoldable pub parse_type_after_keyword : Act SyntaxNode
  parse_type_after_keyword =
      push_trivia
      ⨟ name_here
      ⨟ push_trivia
      ⨟ when (equal ∷ []) (push_bump ⨟ push_trivia ⨟ push_node (parse_type_here calls))
      ⨟ done NodeKind.type_alias

  unfoldable pub parse_macro_after_keyword : Act SyntaxNode
  parse_macro_after_keyword =
      push_trivia
      ⨟ name_here
      ⨟ push_trivia
      ⨟ when (bang ∷ []) push_bump
      ⨟ push_trivia
      ⨟ on (open_paren ∷ []) (macro_params_to close_paren)
          (when (open_bracket ∷ []) (macro_params_to close_bracket))
      ⨟ push_trivia
      ⨟ block_here calls
      ⨟ done NodeKind.macro_decl

  unfoldable pub parse_echo_after_keyword : Act SyntaxNode
  parse_echo_after_keyword = push_trivia ⨟ block_here calls ⨟ done NodeKind.echo_decl

  unfoldable pub parse_bridge_after_keyword : Act SyntaxNode
  parse_bridge_after_keyword =
      push_trivia
      ⨟ choose (λ p. is_str (current_kind p)) push_bump skip
      ⨟ push_trivia
      ⨟ when (open_brace ∷ []) (
          push_bump
          ⨟ until (close_brace ∷ []) (push_node parse_decl ⨟ push_trivia)
          ⨟ when (close_brace ∷ []) push_bump)
      ⨟ done NodeKind.bridge_decl

  unfoldable pub forge_params : Step
  forge_params =
      push_bump
      ⨟ push_trivia
      ⨟ until (close_paren ∷ []) (
          ensure_progress (
            push_node (parse_param calls)
            ⨟ push_trivia
            ⨟ when (comma ∷ []) (push_bump ⨟ push_trivia)))
      ⨟ when (close_paren ∷ []) push_bump

  unfoldable pub parse_forge_after_keyword : Act SyntaxNode
  parse_forge_after_keyword =
      push_trivia
      ⨟ name_here
      ⨟ push_trivia
      ⨟ generics_here
      ⨟ push_trivia
      ⨟ when (open_paren ∷ []) forge_params
      ⨟ push_trivia
      ⨟ when (arrow ∷ []) (push_bump ⨟ push_trivia ⨟ push_node (parse_type_here calls))
      ⨟ push_trivia
      ⨟ parse_effects
      ⨟ push_trivia
      ⨟ block_here calls
      ⨟ done NodeKind.forge_decl

  unfoldable pub parse_impl_after_keywords : Act SyntaxNode
  parse_impl_after_keywords =
      push_trivia
      ⨟ push_node (parse_type_here calls)
      ⨟ push_trivia
      ⨟ push_trivia
      ⨟ when (open_brace ∷ []) decl_body
      ⨟ done NodeKind.impl_block

  unfoldable pub parse_shape_after_keyword : Act SyntaxNode
  parse_shape_after_keyword =
      push_trivia
      ⨟ on (impl ∷ []) (push_bump ⨟ parse_impl_after_keywords) (
          name_here
          ⨟ push_trivia
          ⨟ generics_here
          ⨟ push_trivia
          ⨟ on (open_brace ∷ [])
              (push_bump
                ⨟ until (close_brace ∷ [])
                    (ensure_progress (push_node (parse_field calls) ⨟ push_trivia))
                ⨟ when (close_brace ∷ []) push_bump
                ⨟ done NodeKind.shape_decl)
              (done NodeKind.shape_decl))

  unfoldable pub parse_ward_after_keyword : Act SyntaxNode
  parse_ward_after_keyword =
      push_trivia
      ⨟ name_here
      ⨟ push_trivia
      ⨟ on (open_brace ∷ []) (decl_body ⨟ done NodeKind.ward_decl) (done NodeKind.ward_decl)

  -- A member of a dual, where it is a shape.
  unfoldable pub dual_member : Step
  dual_member =
      on (forge ∷ shape ∷ scroll ∷ dual ∷ weave ∷ ward ∷ impl ∷ type_kw ∷ draw ∷ [])
        (push_node parse_decl) (push_node (parse_field calls))

  unfoldable pub dual_rest : Step → Act SyntaxNode
  dual_rest member =
      push_trivia
      ⨟ name_here
      ⨟ push_trivia
      ⨟ generics_here
      ⨟ push_trivia
      ⨟ when (open_brace ∷ []) (
          push_bump
          ⨟ until (close_brace ∷ []) (ensure_progress (member ⨟ push_trivia))
          ⨟ when (close_brace ∷ []) push_bump)
      ⨟ done NodeKind.dual_decl

  unfoldable pub parse_dual_after_keyword : Act SyntaxNode
  parse_dual_after_keyword =
      push_trivia
      ⨟ on (shape ∷ []) (push_bump ⨟ dual_rest dual_member) (dual_rest (push_node parse_decl))

  unfoldable pub parse_weave_after_keyword : Act SyntaxNode
  parse_weave_after_keyword =
      push_trivia
      ⨟ push_node (parse_type_here calls)
      ⨟ push_trivia
      ⨟ when (colon ∷ []) (
          push_bump
          ⨟ push_trivia
          ⨟ separated (kind_before (open_brace ∷ []))
              (push_node (parse_type_here calls) ⨟ push_trivia) (plus ∷ []))
      ⨟ on (for_kw ∷ []) (push_bump ⨟ parse_impl_after_keywords)
          (on (open_brace ∷ []) (decl_body ⨟ done NodeKind.weave_decl) (done NodeKind.weave_decl))

  unfoldable pub parse_static_after_keyword : Act SyntaxNode
  parse_static_after_keyword =
      push_trivia
      ⨟ when (tilde ∷ []) push_bump
      ⨟ push_trivia
      ⨟ name_here
      ⨟ push_trivia
      ⨟ when (colon ∷ []) (push_bump ⨟ push_trivia ⨟ push_node (parse_type_here calls))
      ⨟ push_trivia
      ⨟ when (equal ∷ []) (push_bump ⨟ push_trivia ⨟ push_node (parse_expr Precedence.none))
      ⨟ done NodeKind.static_decl

  -- `match self.current_kind()` of `parse_decl`.
  unfoldable pub decl_after_modifiers : Act SyntaxNode
  decl_after_modifiers = on (forge ∷ []) (push_bump ⨟ parse_forge_after_keyword) (
      on (shape ∷ []) (push_bump ⨟ parse_shape_after_keyword) (
        on (scroll ∷ []) (push_bump ⨟ parse_scroll_after_keyword) (
          on (ward ∷ []) (push_bump ⨟ parse_ward_after_keyword) (
            on (macro ∷ []) (push_bump ⨟ parse_macro_after_keyword) (
              on (dual ∷ []) (push_bump ⨟ parse_dual_after_keyword) (
                on (weave ∷ []) (push_bump ⨟ parse_weave_after_keyword) (
                  on (impl ∷ []) (push_bump ⨟ parse_impl_after_keywords) (
                    on (type_kw ∷ []) (push_bump ⨟ parse_type_after_keyword) (
                      on (draw ∷ []) (push_bump ⨟ parse_draw_after_keyword) (
                        on (static ∷ []) (push_bump ⨟ parse_static_after_keyword) (
                          on (echo ∷ []) (push_bump ⨟ parse_echo_after_keyword) (
                            on (bridge ∷ []) (push_bump ⨟ parse_bridge_after_keyword)
                              (parse_stmt_after_trivia calls)))))))))))))

  unfoldable pub parse_decl_here : M SyntaxNode
  parse_decl_here = start (
      push_trivia
      ⨟ when (at ∷ pound ∷ []) (push_node (parse_attributes calls) ⨟ push_trivia)
      ⨟ modifiers
      ⨟ decl_after_modifiers)

  unfoldable pub parse_source_file_with : M SyntaxNode
  parse_source_file_with = start (
      until [] (ensure_progress_at_or_before (push_node parse_decl_here ⨟ push_trivia))
      ⨟ done NodeKind.source_file)
