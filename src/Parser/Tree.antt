-- ===== src/Parser/Tree.antt =====
-- crates/izel_parser/src/cst.rs: the concrete syntax tree. The vector of children of a node is a type
-- of the block; `push` adds at its end.
use izel.Prelude.{List, [], ◌∷◌, ◌++◌, if◌then◌else◌}
use izel.Lexer.Token.{TokenKind, Token, is_eof_kind}

pub data NodeKind : Type 0 where
  source_file forge_decl shape_decl scroll_decl ward_decl dual_decl weave_decl impl_block : NodeKind
  type_alias type draw_decl macro_decl attribute attributes raw_expr identifier generic_params :
      NodeKind
  generic_param generic_args generic_arg field variant param_part param return_part block : NodeKind
  effect let_stmt assign_stmt give_stmt expr_stmt pattern literal ident binary_expr unary_expr :
      NodeKind
  call_expr paren_expr given_expr branch_expr loop_expr while_expr each_expr zone_expr : NodeKind
  optional_type pointer_type bind_expr path_expr struct_literal member_expr cascade_expr : NodeKind
  macro_call arg seek_expr static_decl echo_decl bridge_decl error : NodeKind
  token : TokenKind → NodeKind

mutual
  pub data SyntaxNode : Type 0 where
    node : NodeKind → Children → SyntaxNode

  -- `Vec<SyntaxElement>`
  pub data Children : Type 0 where
    no_children : Children
    node_then : SyntaxNode → Children → Children
    token_then : Token → Children → Children

abbrev pub kind_of_node : SyntaxNode → NodeKind
kind_of_node (node k _) = k

-- `children.extend(more)`
unfoldable pub extend : Children → Children → Children
extend no_children more = more
extend (node_then n cs) more = node_then n (extend cs more)
extend (token_then t cs) more = token_then t (extend cs more)

abbrev pub push_node_to : Children → SyntaxNode → Children
push_node_to cs n = extend cs (node_then n no_children)

abbrev pub push_token_to : Children → Token → Children
push_token_to cs t = extend cs (token_then t no_children)

-- The tokens of a tree in order, without the `Eof` tokens that a read at the end of the input gives.
unfoldable mutual
  pub leaves : Children → List Token
  leaves no_children = []
  leaves (node_then n cs) = node_leaves n ++ leaves cs
  leaves (token_then t cs) = if is_eof_kind t.kind then leaves cs else t ∷ leaves cs

  pub node_leaves : SyntaxNode → List Token
  node_leaves (node k cs) = leaves cs
