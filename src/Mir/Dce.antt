-- ===== src/Mir/Dce.antt =====
-- crates/izel_mir/src/optim.rs: dead code elimination. A `HashSet` of locals or of blocks is the list
-- of what was inserted. The two loops take fuel: the sweep a round for each instruction and one
-- more, the search a round for each edge and one for the entry, and one in which its stack is empty.
-- `none` is a lack of fuel.
use izel.Prelude.{
  ℕ, zero, suc, ◌+◌, Bool, true, false, not, ◌||◌, Option, none, some, List, [], ◌∷◌, if◌then◌else◌,
  length, contains, ◌>>=◌,
}
use izel.Mir.{
  BlockId, Local, Operand, copy, move, Rvalue, use_operand, binary, unary, ref, Instruction, assign,
  phi, call, assert, Terminator, return, switch_int, BasicBlock, MirBody,
}

unfoldable pub collect_used_locals_operand : Operand → List Local → List Local
collect_used_locals_operand (copy l) used = l ∷ used
collect_used_locals_operand (move l) used = l ∷ used
collect_used_locals_operand _ used = used

unfoldable pub collect_used_locals_rvalue : Rvalue → List Local → List Local
unfolding collect_used_locals_operand
collect_used_locals_rvalue (use_operand op) used = collect_used_locals_operand op used
collect_used_locals_rvalue (binary _ l r) used =
    collect_used_locals_operand r (collect_used_locals_operand l used)
collect_used_locals_rvalue (unary _ inner) used = collect_used_locals_operand inner used
collect_used_locals_rvalue (ref l _) used = l ∷ used

-- The loops over the operands of a `Phi` and of a `Call`.
unfoldable pub insert_sources : List (BlockId × Local) → List Local → List Local
insert_sources [] used = used
insert_sources ((_, l) ∷ ops) used = insert_sources ops (l ∷ used)

unfoldable pub collect_operands : List Operand → List Local → List Local
unfolding collect_used_locals_operand
collect_operands [] used = used
collect_operands (op ∷ ops) used = collect_operands ops (collect_used_locals_operand op used)

unfoldable pub collect_used_locals_instr : Instruction → List Local → List Local
unfolding collect_used_locals_rvalue insert_sources collect_operands
collect_used_locals_instr (assign _ rv) used = collect_used_locals_rvalue rv used
collect_used_locals_instr (phi _ operands) used = insert_sources operands used
collect_used_locals_instr (call _ _ ops) used = collect_operands ops used
collect_used_locals_instr (assert op _) used = collect_used_locals_operand op used
collect_used_locals_instr _ used = used

unfoldable pub collect_used_locals_term : Terminator → List Local → List Local
unfolding collect_used_locals_operand
collect_used_locals_term (return (some op)) used = collect_used_locals_operand op used
collect_used_locals_term (switch_int op _ _) used = collect_used_locals_operand op used
collect_used_locals_term _ used = used

unfoldable pub collect_instrs : List Instruction → List Local → List Local
collect_instrs [] used = used
collect_instrs (i ∷ is) used = collect_instrs is (collect_used_locals_instr i used)

abbrev pub collect_terminator : Option Terminator → List Local → List Local
collect_terminator none used = used
collect_terminator (some term) used = collect_used_locals_term term used

-- 1. Identify used locals.
unfoldable pub used_locals : List BasicBlock → List Local → List Local
used_locals [] used = used
used_locals (b ∷ bs) used =
    used_locals bs (collect_terminator b.terminator (collect_instrs b.instructions used))

-- The test by which the sweep removes an instruction.
unfoldable pub is_dead : List Local → Instruction → Bool
is_dead used (assign l _) = not (contains used l)
is_dead used (phi l _) = not (contains used l)
is_dead used _ = false

-- 2. Sweep unused assignments: the instructions that are left, and whether one was removed.
unfoldable pub sweep_instrs : List Local → List Instruction → List Instruction × Bool
sweep_instrs used [] = ([], false)
sweep_instrs used (i ∷ is) =
    let rest = sweep_instrs used is in
    if is_dead used i then (rest.0, true) else (i ∷ rest.0, rest.1)

unfoldable pub sweep_blocks : List Local → List BasicBlock → List BasicBlock × Bool
sweep_blocks used [] = ([], false)
sweep_blocks used (b ∷ bs) =
    let here = sweep_instrs used b.instructions in
    let rest = sweep_blocks used bs in
    (record b { instructions = here.0 } ∷ rest.0, here.1 || rest.1)

-- `while changed`
unfoldable pub sweep_loop : ℕ → List BasicBlock → Option (List BasicBlock)
sweep_loop zero bs = none
sweep_loop (suc fuel) bs =
    let swept = sweep_blocks (used_locals bs []) bs in
    let again = sweep_loop fuel swept.0 in if swept.1 then again else some swept.0

unfoldable pub instr_count : List BasicBlock → ℕ
instr_count [] = 0
instr_count (b ∷ bs) = length b.instructions + instr_count bs

-- `for succ in neighbors { stack.push(succ) }`; the top of the stack is the head of the list.
unfoldable pub push_all : List BlockId → List BlockId → List BlockId
push_all [] stack = stack
push_all (s ∷ succs) stack = push_all succs (s ∷ stack)

-- 3. The search for reachable blocks.
unfoldable pub reach_loop :
    ℕ → (BlockId → List BlockId) → List BlockId → List BlockId → Option (List BlockId)
reach_loop zero neighbors stack reachable = none
reach_loop (suc fuel) neighbors [] reachable = some reachable
reach_loop (suc fuel) neighbors (node ∷ stack) reachable =
    let seen = contains reachable node in
    reach_loop fuel neighbors (if seen then stack else push_all (neighbors node) stack)
      (if seen then reachable else node ∷ reachable)

-- The edges out of the nodes below `n`.
unfoldable pub edge_count : (BlockId → List BlockId) → ℕ → ℕ
edge_count neighbors zero = 0
edge_count neighbors (suc n) = length (neighbors n) + edge_count neighbors n

unfoldable pub reachable_blocks : MirBody → Option (List BlockId)
reachable_blocks body =
    reach_loop (suc (suc (edge_count body.blocks.neighbors (length body.blocks.weights))))
      body.blocks.neighbors (body.entry ∷ []) []

abbrev cleared : BasicBlock
cleared = record { instructions = []; terminator = none }

-- The last loop: the block of index `idx` and those behind it.
unfoldable pub clear_unreachable : List BlockId → ℕ → List BasicBlock → List BasicBlock
clear_unreachable reachable idx [] = []
clear_unreachable reachable idx (b ∷ bs) =
    (if contains reachable idx then b else cleared) ∷ clear_unreachable reachable (suc idx) bs

unfoldable pub run : MirBody → Option MirBody
run body = sweep_loop (suc (instr_count body.blocks.weights)) body.blocks.weights >>= λ swept.
    reachable_blocks body >>= λ reachable. some (record body {
      blocks = record {
        weights = clear_unreachable reachable 0 swept;
        neighbors = body.blocks.neighbors;
      };
    })
