-- ===== src/Fmt/Format.antt =====
-- crates/izel_fmt/src/formatter.rs: `format_node`, by the way in which a kind of node is laid out.
use izel.Prelude.{Bool, true, false, not, ◌&&◌, Option, some, if◌then◌else◌, ◌>>=◌, Text, [], ◌∷◌}
use izel.Lexer.Cursor.{CharTables}
use izel.Lexer.Token.{Token, open_brace, close_brace, comma, semicolon}
use izel.Parser.Tree.{
  NodeKind, SyntaxNode, Children, node, no_children, node_then, token_then, kind_of_node,
}
use izel.Parser.Kinds.{kind_in}
use izel.Fmt.{
  Formatter, ends_with, newline, indent, dedent, push_newline, push_blank_line, push_space,
  format_token, format_element,
}

pub data Layout : Type 0 where
  file : Layout
  body : Bool → Layout
  plain : Layout

-- The `match` of `format_node`; a body is that of a block or not.
abbrev pub layout : NodeKind → Layout
layout NodeKind.source_file = file
layout NodeKind.block = body true
layout NodeKind.shape_decl = body false
layout NodeKind.scroll_decl = body false
layout NodeKind.weave_decl = body false
layout NodeKind.impl_block = body false
layout _ = plain

abbrev pub is_statement : NodeKind → Bool
is_statement NodeKind.let_stmt = true
is_statement NodeKind.expr_stmt = true
is_statement NodeKind.given_expr = true
is_statement NodeKind.while_expr = true
is_statement NodeKind.loop_expr = true
is_statement _ = false

-- Behind a node of a body, and behind one of a file that is not its last child.
abbrev pub after_statement : Bool → SyntaxNode → Formatter → Formatter
after_statement is_block n f =
    if is_block && is_statement (kind_of_node n) && not (ends_with newline f.output)
    then push_newline f
    else f

abbrev pub after_item : Children → Formatter → Formatter
after_item no_children f = f
after_item _ f = push_blank_line f

module _ (tables : CharTables) (source : Text) where
  abbrev pub close_line : Formatter → Formatter
  close_line f = if ends_with newline f.output then f else push_newline f

  unfoldable pub body_token : Token → Formatter → Option Formatter
  body_token t f = elim (kind_in (open_brace ∷ []) t.kind) [
    | true ↦ format_token tables source t (push_space f) >>= λ g. some (push_newline (indent g))
    | false ↦ elim (kind_in (close_brace ∷ []) t.kind) [
      | true ↦ format_token tables source t (close_line (dedent f))
      | false ↦ elim (kind_in (comma ∷ semicolon ∷ []) t.kind) [
        | true ↦ format_token tables source t f >>= λ g. some (push_newline g)
        | false ↦ format_element tables source t f
      ]
    ]
  ]

  unfoldable mutual
    pub format_node : SyntaxNode → Formatter → Option Formatter
    format_node (node k cs) f = elim (layout k) [
      | file ↦ format_file cs f
      | body is_block ↦ format_body is_block cs f
      | plain ↦ format_plain cs f
    ]

    pub format_file : Children → Formatter → Option Formatter
    format_file no_children f = some f
    format_file (node_then n cs) f = format_node n f >>= λ g. format_file cs (after_item cs g)
    format_file (token_then t cs) f = format_element tables source t f >>= λ g. format_file cs g

    pub format_body : Bool → Children → Formatter → Option Formatter
    format_body is_block no_children f = some f
    format_body is_block (node_then n cs) f =
        format_node n f >>= λ g. format_body is_block cs (after_statement is_block n g)
    format_body is_block (token_then t cs) f = body_token t f >>= λ g. format_body is_block cs g

    pub format_plain : Children → Formatter → Option Formatter
    format_plain no_children f = some f
    format_plain (node_then n cs) f = format_node n f >>= λ g. format_plain cs g
    format_plain (token_then t cs) f = format_element tables source t f >>= λ g. format_plain cs g
