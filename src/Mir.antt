-- ===== src/Mir.antt =====
-- crates/izel_mir/src/lib.rs: the mid-level representation. A block's identifier is its index in the
-- graph. Of petgraph's `DiGraph` the record `DiGraph` holds what the passes read: the weights of
-- the nodes in the order of their indices, and the successors of each node.
pub mod Dce
pub mod Used
pub mod Sweep
pub mod SweepLoop
pub mod Reachability
pub mod Semantics
pub mod Agree
pub mod Preservation
mod Tests
use izel.Prelude.{ℕ, Bool, Option, List, none, [], ◌∷◌, Text}
use izel.Typeck.{Ty}

abbrev pub BlockId : Type 0
BlockId = ℕ

-- `Local(usize)`
abbrev pub Local : Type 0
Local = ℕ

pub data Constant : Type 0 where
  int : ℕ → Constant
  float : ℕ → Constant
  bool : Bool → Constant
  str : Text → Constant

pub data BinOp : Type 0 where
  add sub mul div eq ne lt le gt ge : BinOp

pub data UnOp : Type 0 where
  not_op neg : UnOp

pub data Operand : Type 0 where
  copy : Local → Operand
  move : Local → Operand
  constant : Constant → Operand

pub data Rvalue : Type 0 where
  use_operand : Operand → Rvalue
  binary : BinOp → Operand → Operand → Rvalue
  unary : UnOp → Operand → Rvalue
  ref : Local → Bool → Rvalue

pub data Instruction : Type 0 where
  assign : Local → Rvalue → Instruction
  phi : Local → List (BlockId × Local) → Instruction
  call : Option Local → Text → List Operand → Instruction
  storage_live : Local → Instruction
  storage_dead : Local → Instruction
  assert : Operand → Text → Instruction
  zone_enter : Text → Instruction
  zone_exit : Text → Instruction

pub data Terminator : Type 0 where
  return : Option Operand → Terminator
  goto : BlockId → Terminator
  switch_int : Operand → List (ℕ × BlockId) → BlockId → Terminator
  abort : Terminator

pub record BasicBlock : Type 0 where
  pub instructions : List Instruction
  pub terminator : Option Terminator

pub record LocalData : Type 0 where
  pub name : Text
  pub ty : Ty

pub record DiGraph : Type 0 where
  pub weights : List BasicBlock
  pub neighbors : BlockId → List BlockId

pub record MirBody : Type 0 where
  pub blocks : DiGraph
  pub entry : BlockId
  pub locals : List LocalData
  pub arg_count : ℕ

-- `MirBody::new`
abbrev pub new : MirBody
new = record {
  blocks = record {
    weights = record { instructions = []; terminator = none } ∷ [];
    neighbors = λ _. [];
  };
  entry = 0;
  locals = [];
  arg_count = 0;
}
