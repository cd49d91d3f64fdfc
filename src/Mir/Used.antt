-- ===== src/Mir/Used.antt =====
-- crates/izel_mir/src/optim.rs: the set of used locals is the union of what each instruction and
-- terminator uses.
use izel.Prelude.{◌≡◌, refl, ◌||◌, Option, none, some, List, [], ◌∷◌, arith, contains}
use izel.Mir.{
  BlockId, Local, Operand, copy, Rvalue, use_operand, binary, unary, ref, Instruction, assign, phi,
  call, assert, Terminator, return, switch_int, BasicBlock,
}
use izel.Mir.Dce.{
  collect_used_locals_operand, collect_used_locals_rvalue, insert_sources, collect_operands,
  collect_used_locals_instr, collect_used_locals_term, collect_instrs, collect_terminator,
  used_locals,
}

-- A local is in the set that a collector leaves exactly when the collector adds it or it was there.
abbrev IsUnion : (List Local → List Local) → Type 0
IsUnion f =
    (used : List Local) (a : Local) → contains (f used) a ≡ (contains (f []) a || contains used a)

pub operand-IsUnion : (op : Operand) → IsUnion (collect_used_locals_operand op)
unfolding collect_used_locals_operand contains
operand-IsUnion (copy l) used a = ground arith
operand-IsUnion _ used a = ground arith

rvalue-IsUnion : (rv : Rvalue) → IsUnion (collect_used_locals_rvalue rv)
unfolding collect_used_locals_rvalue contains
rvalue-IsUnion (use_operand op) used a = operand-IsUnion op used a
rvalue-IsUnion (binary _ l r) used a = ground (
  arith,
  operand-IsUnion r (collect_used_locals_operand l used) a,
  operand-IsUnion r (collect_used_locals_operand l []) a,
  operand-IsUnion l used a,
)
rvalue-IsUnion (unary _ op) used a = operand-IsUnion op used a
rvalue-IsUnion (ref l _) used a = ground arith

pub sources-IsUnion : (ops : List (BlockId × Local)) → IsUnion (insert_sources ops)
unfolding insert_sources contains
sources-IsUnion [] used a = refl
sources-IsUnion ((_, l) ∷ ops) used a =
    ground (arith, sources-IsUnion ops (l ∷ used) a, sources-IsUnion ops (l ∷ []) a)

pub operands-IsUnion : (ops : List Operand) → IsUnion (collect_operands ops)
unfolding collect_operands contains
operands-IsUnion [] used a = refl
operands-IsUnion (op ∷ ops) used a = ground (
  arith,
  operands-IsUnion ops (collect_used_locals_operand op used) a,
  operands-IsUnion ops (collect_used_locals_operand op []) a,
  operand-IsUnion op used a,
)

pub instr-IsUnion : (i : Instruction) → IsUnion (collect_used_locals_instr i)
unfolding collect_used_locals_instr contains
instr-IsUnion (assign _ rv) used a = rvalue-IsUnion rv used a
instr-IsUnion (phi _ ops) used a = sources-IsUnion ops used a
instr-IsUnion (call _ _ ops) used a = operands-IsUnion ops used a
instr-IsUnion (assert op _) used a = operand-IsUnion op used a
instr-IsUnion _ used a = refl

pub term-IsUnion : (t : Terminator) → IsUnion (collect_used_locals_term t)
unfolding collect_used_locals_term contains
term-IsUnion (return (some op)) used a = operand-IsUnion op used a
term-IsUnion (switch_int op _ _) used a = operand-IsUnion op used a
term-IsUnion _ used a = refl

pub terminator-IsUnion : (o : Option Terminator) → IsUnion (collect_terminator o)
unfolding contains
terminator-IsUnion none used a = refl
terminator-IsUnion (some t) used a = term-IsUnion t used a

pub instrs-IsUnion : (is : List Instruction) → IsUnion (collect_instrs is)
unfolding collect_instrs contains
instrs-IsUnion [] used a = refl
instrs-IsUnion (i ∷ is) used a = ground (
  arith,
  instrs-IsUnion is (collect_used_locals_instr i used) a,
  instrs-IsUnion is (collect_used_locals_instr i []) a,
  instr-IsUnion i used a,
)

-- What a block uses.
abbrev pub block_uses : BasicBlock → List Local → List Local
block_uses b used = collect_terminator b.terminator (collect_instrs b.instructions used)

pub block-IsUnion : (b : BasicBlock) → IsUnion (block_uses b)
block-IsUnion b used a = ground (
  arith,
  terminator-IsUnion b.terminator (collect_instrs b.instructions used) a,
  terminator-IsUnion b.terminator (collect_instrs b.instructions []) a,
  instrs-IsUnion b.instructions used a,
)

pub used_locals-IsUnion : (bs : List BasicBlock) → IsUnion (used_locals bs)
unfolding used_locals contains
used_locals-IsUnion [] used a = refl
used_locals-IsUnion (b ∷ bs) used a = ground (
  arith,
  used_locals-IsUnion bs (block_uses b used) a,
  used_locals-IsUnion bs (block_uses b []) a,
  block-IsUnion b used a,
)
