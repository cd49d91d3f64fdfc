-- ===== src/Borrow.antt =====
-- crates/izel_borrow/src/lib.rs: the borrow checker on the mid-level representation.
pub mod Liveness
pub mod Sets
pub mod Round
pub mod Fixpoint
pub mod Uses
pub mod Check
pub mod Moves
mod Tests
