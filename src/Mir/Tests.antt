-- ===== src/Mir/Tests.antt =====
-- Dead code elimination on concrete bodies.
use izel.Prelude.{
  ℕ, suc, zero, ◌+◌, none, some, List, [], ◌∷◌, ◌≡◌, ◌↔◌, ◌<◌, refl, ap, arith, Option, contains,
  if◌then◌else◌, ◌==◌,
}
use izel.Mir.{
  BlockId, Constant, constant, copy, use_operand, binary, BinOp, assign, return, goto, BasicBlock,
  MirBody,
}
use izel.Mir.Dce
use izel.Mir.Dce.{run, reachable_blocks, used_locals, sweep_loop, instr_count}
use izel.Mir.Sweep.{KeptBlocks, ThinsBlocks}
use izel.Mir.SweepLoop.{sweep_loop_lem}
use izel.Mir.Semantics
use izel.Mir.Semantics.{Machine, Result, returned, run_from, targets}
use izel.Mir.Preservation.{IsWired, run_from-run}
use izel.Mir.Reachability.{In, Reaches, IsGraph, reachable_blocks-Reaches}

-- Locals 1 and 2 feed nothing but each other's successor; local 0 is returned.
abbrev first_block : BasicBlock
first_block = record {
  instructions =
      assign 0 (use_operand (constant (Constant.int 7)))
      ∷ assign 1 (use_operand (copy 0))
      ∷ assign 2 (binary BinOp.add (copy 1) (copy 0))
      ∷ [];
  terminator = some (goto 2);
}

abbrev orphan : BasicBlock
orphan = record { instructions = assign 5 (use_operand (copy 5)) ∷ []; terminator = some (goto 2) }

abbrev last_block : BasicBlock
last_block = record { instructions = []; terminator = some (return (some (copy 0))) }

abbrev edges : BlockId → List BlockId
edges b = if b == 0 then 2 ∷ [] else if b == 1 then 2 ∷ [] else []

abbrev sample : MirBody
sample = record {
  blocks = record { weights = first_block ∷ orphan ∷ last_block ∷ []; neighbors = edges };
  entry = 0;
  locals = [];
  arg_count = 0;
}

abbrev weights_of : Option MirBody → Option (List BasicBlock)
weights_of none = none
weights_of (some body) = some body.blocks.weights

sample_eliminated :
    weights_of (run sample)
    ≡ some (
        record first_block {
          instructions = assign 0 (use_operand (constant (Constant.int 7))) ∷ [];
        }
        ∷ record { instructions = []; terminator = none }
        ∷ last_block
        ∷ [])
unfolding Dce.run Dce.sweep_loop Dce.sweep_blocks Dce.sweep_instrs Dce.is_dead Dce.used_locals
    Dce.collect_instrs Dce.collect_used_locals_instr Dce.collect_used_locals_rvalue
    Dce.collect_used_locals_operand Dce.collect_used_locals_term Dce.instr_count
    Dce.reachable_blocks Dce.reach_loop Dce.edge_count Dce.push_all Dce.clear_unreachable contains
sample_eliminated = refl

edges_lt : (a b : BlockId) → a < 3 → In b (edges a) → b < 3
unfolding contains
edges_lt a b h i = ground arith

sample-IsGraph : IsGraph sample
sample-IsGraph = record { entry_lt = omega arith; neighbors_lt = edges_lt }

reachable_blocks-Reaches_example :
    (found : List BlockId) × (reachable_blocks sample ≡ some found)
    × ((a : BlockId) → In a found ↔ Reaches edges 0 a)
reachable_blocks-Reaches_example = reachable_blocks-Reaches sample sample-IsGraph

abbrev given_blocks : List BasicBlock
given_blocks = first_block ∷ orphan ∷ last_block ∷ []

sweep_loop_lem_example :
    (cs : List BasicBlock) × (sweep_loop (suc (instr_count given_blocks)) given_blocks ≡ some cs)
    × KeptBlocks (used_locals cs []) cs
    × ThinsBlocks (used_locals cs []) given_blocks cs
sweep_loop_lem_example = sweep_loop_lem given_blocks

-- Values are numbers, and calls give 0.
abbrev machine : Machine ℕ Unit
machine = record {
  constant_value = λ c. 7;
  binary_value = λ o a b. a + b;
  unary_value = λ o a. a;
  ref_value = λ l m a. a;
  no_value = 0;
  is_true = λ a. a == 1;
  discriminant = λ a. a;
  called = λ name args w. (0, w);
  marked = λ i w. w;
}

sample_run : run_from machine 5 given_blocks 0 0 (λ l. 0) tt ≡ returned (some 7) tt
unfolding Semantics.run_from Semantics.steps Semantics.step Semantics.rvalue_value
    Semantics.operand_value Semantics.leave
sample_run = refl

abbrev block_targets : Option BasicBlock → List BlockId
block_targets none = []
block_targets (some b) = targets b.terminator

sample-IsWired : IsWired sample
unfolding contains
sample-IsWired zero b is_b t i = rw (← ap block_targets is_b) at i
sample-IsWired (suc zero) b is_b t i = rw (← ap block_targets is_b) at i
sample-IsWired (suc (suc zero)) b is_b t i = rw (← ap block_targets is_b) at i
sample-IsWired (suc (suc (suc a))) b is_b t i = absurd (ground arith)

run_from-run_example :
    (after : MirBody) × (run sample ≡ some after)
    × (run_from machine 5 after.blocks.weights after.entry after.entry (λ l. 0) tt
        ≡ run_from machine 5 given_blocks 0 0 (λ l. 0) tt)
run_from-run_example = run_from-run machine sample sample-IsGraph sample-IsWired 5 (λ l. 0) tt
