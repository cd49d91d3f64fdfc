-- ===== src/Borrow/Liveness.antt =====
-- crates/izel_borrow/src/lib.rs: `LivenessAnalysis`. A `HashSet` of locals is the list of what was
-- inserted, and `!=` on two of them compares what they contain; a `HashMap` from blocks to sets is the
-- function of its lookups. The loop takes fuel: one round more than the sets of all the blocks can
-- grow by; `none` is a lack of it.
use izel.Prelude.{
  ℕ, zero, suc, ◌+◌, ◌*◌, Bool, true, false, ◌&&◌, ◌||◌, Option, none, some, List, [], ◌∷◌, ◌++◌,
  ◌==◌, if◌then◌else◌, contains, length, get_elem?,
}
use izel.Mir.{
  BlockId, Local, Operand, copy, move, Rvalue, use_operand, binary, unary, ref, Instruction, assign,
  call, Terminator, switch_int, BasicBlock, MirBody,
}

abbrev pub LiveMap : Type 0
LiveMap = BlockId → Option (List Local)

pub record LivenessAnalysis : Type 0 where
  pub live_in : LiveMap
  pub live_out : LiveMap

abbrev pub insert_unless : List Local → Local → List Local → List Local
insert_unless defs l uses = if contains defs l then uses else l ∷ uses

unfoldable pub get_operand_use : Operand → List Local → List Local → List Local
get_operand_use (copy l) uses defs = insert_unless defs l uses
get_operand_use (move l) uses defs = insert_unless defs l uses
get_operand_use _ uses defs = uses

unfoldable pub get_rvalue_uses : Rvalue → List Local → List Local → List Local
unfolding get_operand_use
get_rvalue_uses (use_operand op) uses defs = get_operand_use op uses defs
get_rvalue_uses (binary _ l r) uses defs = get_operand_use r (get_operand_use l uses defs) defs
get_rvalue_uses (unary _ op) uses defs = get_operand_use op uses defs
get_rvalue_uses (ref l _) uses defs = insert_unless defs l uses

unfoldable pub get_arg_uses : List Operand → List Local → List Local → List Local
get_arg_uses [] uses defs = uses
get_arg_uses (op ∷ ops) uses defs = get_arg_uses ops (get_operand_use op uses defs) defs

abbrev pub define_dest : Option Local → List Local → List Local
define_dest none defs = defs
define_dest (some l) defs = l ∷ defs

-- The uses and the definitions after an instruction.
unfoldable pub instr_uses_defs : Instruction → List Local × List Local → List Local × List Local
instr_uses_defs (assign l rv) (uses, defs) = (get_rvalue_uses rv uses defs, l ∷ defs)
instr_uses_defs (call dest _ args) (uses, defs) =
    (get_arg_uses args uses defs, define_dest dest defs)
instr_uses_defs _ found = found

unfoldable pub instrs_uses_defs :
    List Instruction → List Local × List Local → List Local × List Local
instrs_uses_defs [] found = found
instrs_uses_defs (i ∷ is) found = instrs_uses_defs is (instr_uses_defs i found)

abbrev pub terminator_uses_defs :
    Option Terminator → List Local × List Local → List Local × List Local
terminator_uses_defs (some (switch_int op _ _)) (uses, defs) = (get_operand_use op uses defs, defs)
terminator_uses_defs _ found = found

unfoldable pub get_block_uses_defs : BasicBlock → List Local × List Local
get_block_uses_defs b = terminator_uses_defs b.terminator (instrs_uses_defs b.instructions ([], []))

-- `mir.blocks[node]`: the nodes visited are blocks.
abbrev pub block_or_empty : Option BasicBlock → BasicBlock
block_or_empty none = record { instructions = []; terminator = none }
block_or_empty (some b) = b

unfoldable pub uses_defs : MirBody → BlockId → List Local × List Local
uses_defs mir node = get_block_uses_defs (block_or_empty (get_elem? mir.blocks.weights node))

abbrev pub set_or_empty : Option (List Local) → List Local
set_or_empty none = []
set_or_empty (some s) = s

-- `LiveOut[n] = U { LiveIn[s] | s in successors(n) }`
unfoldable pub gather : List BlockId → LiveMap → List Local
gather [] live_in = []
gather (s ∷ ss) live_in = set_or_empty (live_in s) ++ gather ss live_in

-- `LiveIn[n] = Use[n] U (LiveOut[n] - Def[n])`
unfoldable pub add_undefined : List Local → List Local → List Local → List Local
add_undefined [] defs uses = uses
add_undefined (l ∷ out) defs uses = add_undefined out defs (insert_unless defs l uses)

unfoldable pub subset : List Local → List Local → Bool
subset [] t = true
subset (l ∷ s) t = contains t l && subset s t

abbrev pub same_set : Option (List Local) → List Local → Bool
same_set none s = false
same_set (some t) s = subset t s && subset s t

-- `if map.get(&node) != Some(&s) { map.insert(node, s); changed = true }`
unfoldable pub update : BlockId → List Local → LiveMap → LiveMap × Bool
update node s m =
    if same_set (m node) s then (m, false) else ((λ k. if node == k then some s else m k), true)

unfoldable pub visit : MirBody → BlockId → LivenessAnalysis → LivenessAnalysis × Bool
visit mir node st =
    let out = gather (mir.blocks.neighbors node) st.live_in in
    let new_out = update node out st.live_out in
    let new_in =
      update node (add_undefined out (uses_defs mir node).1 (uses_defs mir node).0) st.live_in in
    (record { live_in = new_in.0; live_out = new_out.0 }, new_out.1 || new_in.1)

-- `for node in mir.blocks.node_indices()`: `rest` nodes, from `node` on.
unfoldable pub round : ℕ → MirBody → BlockId → LivenessAnalysis → LivenessAnalysis × Bool
round zero mir node st = (st, false)
round (suc rest) mir node st =
    let first = visit mir node st in
    let others = round rest mir (suc node) first.0 in (others.0, first.1 || others.1)

-- `while changed`
unfoldable pub compute_loop : ℕ → MirBody → LivenessAnalysis → Option LivenessAnalysis
compute_loop zero mir st = none
compute_loop (suc fuel) mir st =
    let done = round (length mir.blocks.weights) mir 0 st in
    let again = compute_loop fuel mir done.0 in if done.1 then again else some done.0

abbrev pub empty : LivenessAnalysis
empty = record { live_in = λ _. none; live_out = λ _. none }

-- The uses of the blocks below `n`.
unfoldable pub all_uses : MirBody → ℕ → List Local
all_uses mir zero = []
all_uses mir (suc n) = (uses_defs mir n).0 ++ all_uses mir n

unfoldable pub rounds : MirBody → ℕ
rounds mir =
    let n = length mir.blocks.weights in
    suc (n * suc (length (all_uses mir n)) + n * suc (length (all_uses mir n)))

unfoldable pub compute : MirBody → Option LivenessAnalysis
compute mir = compute_loop (rounds mir) mir empty
