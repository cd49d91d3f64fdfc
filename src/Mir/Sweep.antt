-- ===== src/Mir/Sweep.antt =====
-- crates/izel_mir/src/optim.rs, `Dce::run`, steps 1 and 2: what the sweep removes and what is left.
use izel.Prelude.{
  ◌≤◌, ◌<◌, ◌≡◌, refl, true, false, List, [], ◌∷◌, arith, length, Bool-cases, inl, inr,
}
use izel.Mir.{Local, Instruction, BasicBlock}
use izel.Mir.Dce.{is_dead, sweep_instrs, sweep_blocks, instr_count}

-- No instruction can be removed: each assigned local is used.
abbrev pub Kept : List Local → List Instruction → Type 0
Kept used [] = Unit
Kept used (i ∷ is) = (is_dead used i ≡ false) × Kept used is

abbrev pub KeptBlocks : List Local → List BasicBlock → Type 0
KeptBlocks used [] = Unit
KeptBlocks used (b ∷ bs) = Kept used b.instructions × KeptBlocks used bs

-- `Thins used is js`: `js` is `is` without some assignments and phis, whose targets are not in `used`.
pub data Thins (used : List Local) : List Instruction → List Instruction → Type 0 where
  done : Thins used [] []
  keep :
      {i : Instruction} {is js : List Instruction} → Thins used is js → Thins used (i ∷ is) (i ∷ js)
  drop :
      {i : Instruction} {is js : List Instruction}
      → is_dead used i ≡ true
      → Thins used is js
      → Thins used (i ∷ is) js

-- Block by block, with the terminators as they were.
pub data ThinsBlocks (used : List Local) : List BasicBlock → List BasicBlock → Type 0 where
  no_blocks : ThinsBlocks used [] []
  blocks :
      {b c : BasicBlock} {bs cs : List BasicBlock}
      → b.terminator ≡ c.terminator
      → Thins used b.instructions c.instructions
      → ThinsBlocks used bs cs
      → ThinsBlocks used (b ∷ bs) (c ∷ cs)

module _ (used : List Local) where
  sweep_instrs-Thins : (is : List Instruction) → Thins used is (sweep_instrs used is).0
  unfolding sweep_instrs
  sweep_instrs-Thins [] = done
  sweep_instrs-Thins (i ∷ is) = elim (Bool-cases (is_dead used i)) [
    | inl dead ↦ rw dead (drop dead (sweep_instrs-Thins is))
    | inr live ↦ rw live (keep (sweep_instrs-Thins is))
  ]

  sweep_instrs_unchanged :
      (is : List Instruction)
      → (sweep_instrs used is).1 ≡ false
      → ((sweep_instrs used is).0 ≡ is) × Kept used is
  unfolding sweep_instrs
  sweep_instrs_unchanged [] h = (refl, tt)
  sweep_instrs_unchanged (i ∷ is) h = ground (arith, sweep_instrs_unchanged is)

  sweep_instrs-length :
      (is : List Instruction)
      → (length (sweep_instrs used is).0 ≤ length is)
        × ((sweep_instrs used is).1 ≡ true → length (sweep_instrs used is).0 < length is)
  unfolding sweep_instrs
  sweep_instrs-length [] = ground arith
  sweep_instrs-length (i ∷ is) = ground (arith, sweep_instrs-length is)

  pub sweep_blocks-ThinsBlocks :
      (bs : List BasicBlock) → ThinsBlocks used bs (sweep_blocks used bs).0
  unfolding sweep_blocks
  sweep_blocks-ThinsBlocks [] = no_blocks
  sweep_blocks-ThinsBlocks (b ∷ bs) =
      blocks refl (sweep_instrs-Thins b.instructions) (sweep_blocks-ThinsBlocks bs)

  pub sweep_blocks_unchanged :
      (bs : List BasicBlock)
      → (sweep_blocks used bs).1 ≡ false
      → ((sweep_blocks used bs).0 ≡ bs) × KeptBlocks used bs
  unfolding sweep_blocks
  sweep_blocks_unchanged [] h = (refl, tt)
  sweep_blocks_unchanged (b ∷ bs) h =
      ground (arith, sweep_instrs_unchanged b.instructions, sweep_blocks_unchanged bs)

  pub sweep_blocks-instr_count :
      (bs : List BasicBlock)
      → (instr_count (sweep_blocks used bs).0 ≤ instr_count bs)
        × ((sweep_blocks used bs).1 ≡ true → instr_count (sweep_blocks used bs).0 < instr_count bs)
  unfolding sweep_blocks instr_count
  sweep_blocks-instr_count [] = ground arith
  sweep_blocks-instr_count (b ∷ bs) =
      ground (arith, sweep_instrs-length b.instructions, sweep_blocks-instr_count bs)
