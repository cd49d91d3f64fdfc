-- ===== src/Mir/Semantics.antt =====
-- What a body of crates/izel_mir/src/lib.rs does when it runs: the meaning that a pass has to keep. A
-- machine gives the values of constants and operators and the effect of calls on the world; the
-- locals are a function, and a step of fuel runs one block.
use izel.Prelude.{
  ℕ, zero, suc, Bool, Option, none, some, List, [], ◌∷◌, ◌==◌, if◌then◌else◌, get_elem?, Text,
}
use izel.Mir.{
  BlockId, Local, Constant, BinOp, UnOp, Operand, copy, move, constant, Rvalue, use_operand, binary,
  unary, ref, Instruction, assign, phi, call, assert, Terminator, return, goto, switch_int, abort,
  BasicBlock,
}

pub record Machine (V W : Type 0) : Type 0 where
  pub constant_value : Constant → V
  pub binary_value : BinOp → V → V → V
  pub unary_value : UnOp → V → V
  -- A reference to a local that holds a value.
  pub ref_value : Local → Bool → V → V
  -- What a phi without a source for the block left holds.
  pub no_value : V
  pub is_true : V → Bool
  pub discriminant : V → ℕ
  pub called : Text → List V → W → V × W
  -- Storage markers and zones.
  pub marked : Instruction → W → W

pub data Outcome (V W : Type 0) : Type 0 where
  continues : (Local → V) → W → Outcome V W
  failed : Text → W → Outcome V W

pub data Result (V W : Type 0) : Type 0 where
  out_of_fuel : Result V W
  returned : Option V → W → Result V W
  aborted : W → Result V W
  assertion_failed : Text → W → Result V W
  -- No such block, or a block without a terminator.
  stuck : W → Result V W

abbrev pub set : {V : Type 0} → Local → V → (Local → V) → Local → V
set l v e k = if l == k then v else e k

abbrev pub set_dest : {V : Type 0} → Option Local → V → (Local → V) → Local → V
set_dest none v e = e
set_dest (some l) v e = set l v e

-- The blocks that a terminator names.
unfoldable pub case_targets : List (ℕ × BlockId) → List BlockId
case_targets [] = []
case_targets ((_, b) ∷ cases) = b ∷ case_targets cases

abbrev pub targets : Option Terminator → List BlockId
targets (some (goto b)) = b ∷ []
targets (some (switch_int _ cases otherwise)) = otherwise ∷ case_targets cases
targets _ = []

unfoldable pub chosen : ℕ → List (ℕ × BlockId) → BlockId → BlockId
chosen d [] otherwise = otherwise
chosen d ((n, b) ∷ cases) otherwise = if d == n then b else chosen d cases otherwise

module _ {V W : Type 0} (machine : Machine V W) where
  unfoldable pub operand_value : Operand → (Local → V) → V
  operand_value (copy l) e = e l
  operand_value (move l) e = e l
  operand_value (constant c) e = machine.constant_value c

  unfoldable pub operand_values : List Operand → (Local → V) → List V
  operand_values [] e = []
  operand_values (op ∷ ops) e = operand_value op e ∷ operand_values ops e

  unfoldable pub rvalue_value : Rvalue → (Local → V) → V
  rvalue_value (use_operand op) e = operand_value op e
  rvalue_value (binary o l r) e = machine.binary_value o (operand_value l e) (operand_value r e)
  rvalue_value (unary o op) e = machine.unary_value o (operand_value op e)
  rvalue_value (ref l m) e = machine.ref_value l m (e l)

  unfoldable pub source_value : BlockId → List (BlockId × Local) → (Local → V) → V
  source_value prev [] e = machine.no_value
  source_value prev ((b, l) ∷ sources) e = if b == prev then e l else source_value prev sources e

  abbrev pub after_call : Option Local → V × W → (Local → V) → Outcome V W
  after_call dest (v, w) e = continues (set_dest dest v e) w

  unfoldable pub step : BlockId → Instruction → (Local → V) → W → Outcome V W
  step prev (assign l rv) e w = continues (set l (rvalue_value rv e) e) w
  step prev (phi l sources) e w = continues (set l (source_value prev sources e) e) w
  step prev (call dest f ops) e w = after_call dest (machine.called f (operand_values ops e) w) e
  step prev (assert op message) e w =
      if machine.is_true (operand_value op e) then continues e w else failed message w
  step prev i e w = continues e (machine.marked i w)

  abbrev pub then_outcome : Outcome V W → ((Local → V) → W → Outcome V W) → Outcome V W
  then_outcome (continues e w) k = k e w
  then_outcome (failed message w) k = failed message w

  unfoldable pub steps : BlockId → List Instruction → (Local → V) → W → Outcome V W
  steps prev [] e w = continues e w
  steps prev (i ∷ is) e w = then_outcome (step prev i e w) (steps prev is)

  abbrev pub return_value : Option Operand → (Local → V) → Option V
  return_value none e = none
  return_value (some op) e = some (operand_value op e)

  -- A terminator, with what a jump to a block leads to.
  unfoldable pub leave : Option Terminator → (Local → V) → W → (BlockId → Result V W) → Result V W
  leave none e w jump = stuck w
  leave (some (return op)) e w jump = returned (return_value op e) w
  leave (some (goto b)) e w jump = jump b
  leave (some (switch_int op cases otherwise)) e w jump =
      jump (chosen (machine.discriminant (operand_value op e)) cases otherwise)
  leave (some abort) e w jump = aborted w

  abbrev pub after_steps :
      Outcome V W → Option Terminator → (BlockId → (Local → V) → W → Result V W) → Result V W
  after_steps (continues e w) term jump = leave term e w (λ b. jump b e w)
  after_steps (failed message w) term jump = assertion_failed message w

  abbrev pub in_block :
      Option BasicBlock
      → BlockId
      → (Local → V)
      → W
      → (BlockId → (Local → V) → W → Result V W)
      → Result V W
  in_block none prev e w jump = stuck w
  in_block (some b) prev e w jump = after_steps (steps prev b.instructions e w) b.terminator jump

  unfoldable pub run_from : ℕ → List BasicBlock → BlockId → BlockId → (Local → V) → W → Result V W
  run_from zero bs prev at e w = out_of_fuel
  run_from (suc fuel) bs prev at e w =
      in_block (get_elem? bs at) prev e w (λ b e' w'. run_from fuel bs at b e' w')
