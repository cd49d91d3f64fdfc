-- ===== src/Lexer.antt =====
-- crates/izel_lexer: the lexical analyser.
pub mod Token
pub mod Cursor
pub mod Reads
pub mod Literals
pub mod Ident
pub mod NextToken
pub mod Forward
pub mod Slices
pub mod Tiling
pub mod Strings
pub mod Comments
pub mod TokenText
pub mod Words
pub mod Ascii
mod Tests
