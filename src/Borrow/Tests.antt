-- ===== src/Borrow/Tests.antt =====
-- The liveness analysis of a loop.
use izel.Prelude.{
  ◌≡◌, ◌↔◌, ◌<◌, ◌&&◌, not, refl, Bool, Option, true, false, none, some, List, [], ◌∷◌, ◌==◌,
  if◌then◌else◌, arith, contains,
}
use izel.Mir.{
  BlockId, BasicBlock, LocalData, Constant, constant, copy, move, use_operand, binary, BinOp,
  assign, call, return, goto, switch_int, MirBody,
}
use izel.Mir.Reachability.{In, IsGraph}
use izel.Borrow.Liveness
use izel.Borrow.Liveness.{LivenessAnalysis, compute, compute_loop, empty, get_block_uses_defs}
use izel.Borrow.Sets.{has}
use izel.Borrow.Round.{Live}
use izel.Borrow.Fixpoint.{compute-Live}
use izel.Typeck.{adt}
use izel.Borrow.Check.{is_type_copyable, check_args, Checked}
use izel.Borrow.Moves.{by_copy, check_args-Reads, reported}
use izel.Borrow.Uses.{ReadsFirst, get_block_uses_defs-ReadsFirst}

abbrev edges : BlockId → List BlockId
edges b = if b == 0 then 1 ∷ [] else if b == 1 then 2 ∷ 3 ∷ [] else if b == 2 then 1 ∷ [] else []

-- `let x = 0; while c { x = x + y }` and a call on `x`: 0 is `x`, 1 is `y` and 2 is `c`.
abbrev counting : MirBody
counting = record {
  blocks = record {
    weights =
        record {
          instructions = assign 0 (use_operand (constant (Constant.int 0))) ∷ [];
          terminator = some (goto 1);
        }
        ∷ record { instructions = []; terminator = some (switch_int (copy 2) ((1, 2) ∷ []) 3) }
        ∷ record {
          instructions = assign 0 (binary BinOp.add (copy 0) (copy 1)) ∷ [];
          terminator = some (goto 1);
        }
        ∷ record { instructions = call none [] (copy 0 ∷ []) ∷ []; terminator = some (return none) }
        ∷ [];
    neighbors = edges;
  };
  entry = 0;
  locals = [];
  arg_count = 0;
}

abbrev checked : Option LivenessAnalysis → (LivenessAnalysis → Bool) → Bool
checked none test = false
checked (some st) test = test st

-- `y` and `c` are live at the entry, and `x` is not; all three are live at the test of the loop.
counting_live :
    checked (compute_loop 5 counting empty) (λ st.
      has (st.live_in 0) 1
      && has (st.live_in 0) 2
      && not (has (st.live_in 0) 0)
      && has (st.live_in 1) 0)
    ≡ true
unfolding Liveness.compute_loop Liveness.round Liveness.visit Liveness.update Liveness.subset
    Liveness.gather Liveness.add_undefined Liveness.uses_defs Liveness.get_block_uses_defs
    Liveness.instrs_uses_defs Liveness.instr_uses_defs Liveness.get_rvalue_uses
    Liveness.get_operand_use Liveness.get_arg_uses contains
counting_live = refl

counting_neighbors : (a b : BlockId) → a < 4 → In b (edges a) → b < 4
unfolding contains
counting_neighbors a b h i = ground arith

counting-IsGraph : IsGraph counting
counting-IsGraph = record { entry_lt = omega arith; neighbors_lt = counting_neighbors }

compute-Live_example :
    (last : LivenessAnalysis) × (compute counting ≡ some last)
    × ((has (last.live_in 0) 1 ≡ true) ↔ Live counting 0 1)
compute-Live_example = compute-Live counting 0 1 counting-IsGraph (omega arith)

-- `y = x; x = y`, which reads `x` alone.
abbrev swapped : BasicBlock
swapped = record {
  instructions = assign 1 (use_operand (copy 0)) ∷ assign 0 (use_operand (copy 1)) ∷ [];
  terminator = none;
}

get_block_uses_defs-ReadsFirst_example :
    (contains (get_block_uses_defs swapped).0 1 ≡ true) ↔ ReadsFirst 1 none swapped.instructions
get_block_uses_defs-ReadsFirst_example = get_block_uses_defs-ReadsFirst swapped 1 tt tt

-- The operand of a return is no use.
return_unused :
    get_block_uses_defs (record { instructions = []; terminator = some (return (some (copy 0))) })
    ≡ ([], [])
unfolding get_block_uses_defs Liveness.instrs_uses_defs
return_unused = refl

abbrev owned : List LocalData
owned = record { name = []; ty = adt 0 } ∷ []

-- `f(move x, x)`
check_args-Reads_example :
    (d : Checked) × (check_args owned (λ l. none) 0 (move 0 ∷ copy 0 ∷ []) (0 ∷ [], []) ≡ some d)
    × (reported 0 d.1 ≡ true)
check_args-Reads_example =
    check_args-Reads owned (λ l. none) 0 0 (record { name = []; ty = adt 0 }) [] [] [] (copy 0)
      (0 ∷ [], []) refl (unfold is_type_copyable in refl) tt (omega arith) tt (omega arith) tt
      by_copy
