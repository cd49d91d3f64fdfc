-- ===== src/Parser.antt =====
-- crates/izel_parser/src: the parser of tokens to concrete syntax trees.
pub mod Tree
pub mod Kinds
pub mod Steps
pub mod Precedence
pub mod Control
pub mod Expr
pub mod Types
pub mod Patterns
pub mod Stmt
pub mod Decl
pub mod Run
pub mod Good
pub mod Returns
pub mod Endless
pub mod Climb
mod Tests
