-- ===== src/Eval.antt =====
-- crates/izel_parser/src/eval.rs: the evaluator of constant expressions.
pub mod I128
pub mod Run
pub mod Arithmetic
mod Tests
