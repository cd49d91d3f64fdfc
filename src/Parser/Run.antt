-- ===== src/Parser/Run.antt =====
-- crates/izel_parser/src/lib.rs: `Parser`, with its functions calling one another. The depth of the
-- calls is bounded by fuel: at `zero` no call returns.
use izel.Prelude.{ℕ, zero, suc, Option, none, List, length}
use izel.Lexer.Token.{Token}
use izel.Parser.Tree.{SyntaxNode}
use izel.Parser.Steps.{Parser, Calls, new}
use izel.Parser.Expr.{parse_expr_with}
use izel.Parser.Stmt.{parse_stmt_here}
use izel.Parser.Types.{parse_type_here}
use izel.Parser.Patterns.{parse_pattern_here}
use izel.Parser.Decl.{parse_decl_here, parse_source_file_with}

unfoldable pub calls_to : ℕ → Calls
calls_to zero = record {
  parse_expr = λ min p. none;
  parse_stmt = λ p. none;
  parse_type = λ p. none;
  parse_pattern = λ p. none;
  parse_decl = λ p. none;
}
calls_to (suc depth) = record {
  parse_expr = λ min. parse_expr_with (calls_to depth) min;
  parse_stmt = parse_stmt_here (calls_to depth);
  parse_type = parse_type_here (calls_to depth);
  parse_pattern = parse_pattern_here (calls_to depth);
  parse_decl = parse_decl_here (calls_to depth);
}

-- `Parser::new(tokens).parse_source_file()`: between one nested call and the next a token is read, so
-- there is fuel for each token and one call more.
unfoldable pub parse_source_file : List Token → Option (SyntaxNode × Parser)
parse_source_file tokens = parse_source_file_with (calls_to (suc (length tokens))) (new tokens)
