-- ===== src/Mir/SweepLoop.antt =====
-- crates/izel_mir/src/optim.rs, `Dce::run`: the sweep is repeated until nothing changes.
use izel.Prelude.{
  ℕ, zero, suc, ◌<◌, ◌≡◌, refl, ap, ◌∙◌, true, some, List, [], ◌∷◌, arith, contains, Bool-cases,
  inl, inr,
}
use izel.Mir.{Local, Instruction, assign, phi, BasicBlock}
use izel.Mir.Dce.{
  collect_used_locals_instr, collect_instrs, collect_terminator, used_locals, is_dead, sweep_blocks,
  sweep_loop, instr_count,
}
use izel.Mir.Used.{instrs-IsUnion, terminator-IsUnion, used_locals-IsUnion, block_uses}
use izel.Mir.Sweep.{
  KeptBlocks, Thins, done, keep, drop, ThinsBlocks, no_blocks, blocks, sweep_blocks-ThinsBlocks,
  sweep_blocks_unchanged, sweep_blocks-instr_count,
}

abbrev Within : List Local → List Local → Type 0
Within small large = (a : Local) → contains small a ≡ true → contains large a ≡ true

is_dead-Within :
    (small large : List Local) (i : Instruction)
    → Within small large
    → is_dead large i ≡ true
    → is_dead small i ≡ true
unfolding is_dead
is_dead-Within small large (assign l _) w h = ground (arith, w l)
is_dead-Within small large (phi l _) w h = ground (arith, w l)
is_dead-Within small large _ w h = h

Thins-Within :
    {small large : List Local} {is js : List Instruction}
    → Within small large
    → Thins large is js
    → Thins small is js
Thins-Within {small} {large} w done = done
Thins-Within {small} {large} w (keep t) = keep (Thins-Within w t)
Thins-Within {small} {large} w (drop {i} h t) =
    drop (is_dead-Within small large i w h) (Thins-Within w t)

ThinsBlocks-Within :
    {small large : List Local} {bs cs : List BasicBlock}
    → Within small large
    → ThinsBlocks large bs cs
    → ThinsBlocks small bs cs
ThinsBlocks-Within w no_blocks = no_blocks
ThinsBlocks-Within w (blocks e t ts) = blocks e (Thins-Within w t) (ThinsBlocks-Within w ts)

module _ {used : List Local} where
  Thins-trans :
      {is js ks : List Instruction} → Thins used is js → Thins used js ks → Thins used is ks
  Thins-trans (drop h t) u = drop h (Thins-trans t u)
  Thins-trans done u = u
  Thins-trans (keep t) (keep u) = keep (Thins-trans t u)
  Thins-trans (keep t) (drop h u) = drop h (Thins-trans t u)

  ThinsBlocks-trans :
      {bs cs ds : List BasicBlock}
      → ThinsBlocks used bs cs
      → ThinsBlocks used cs ds
      → ThinsBlocks used bs ds
  ThinsBlocks-trans no_blocks no_blocks = no_blocks
  ThinsBlocks-trans (blocks e t ts) (blocks f u us) =
      blocks (e ∙ f) (Thins-trans t u) (ThinsBlocks-trans ts us)

  Thins-refl : (is : List Instruction) → Thins used is is
  Thins-refl [] = done
  Thins-refl (i ∷ is) = keep (Thins-refl is)

  -- Without the removed instructions no more locals are used.
  Thins-uses :
      {is js : List Instruction}
      → Thins used is js
      → Within (collect_instrs js []) (collect_instrs is [])
  unfolding collect_instrs
  Thins-uses done a h = h
  Thins-uses (keep {i} {is} {js} t) a h = ground (
    arith,
    instrs-IsUnion is (collect_used_locals_instr i []) a,
    instrs-IsUnion js (collect_used_locals_instr i []) a,
    Thins-uses t a,
  )
  Thins-uses (drop {i} {is} {js} d t) a h =
      ground (arith, instrs-IsUnion is (collect_used_locals_instr i []) a, Thins-uses t a)

  ThinsBlocks-uses :
      {bs cs : List BasicBlock}
      → ThinsBlocks used bs cs
      → Within (used_locals cs []) (used_locals bs [])
  unfolding used_locals
  ThinsBlocks-uses no_blocks a h = h
  ThinsBlocks-uses (blocks {b} {c} {bs} {cs} e t ts) a h = ground (
    arith,
    used_locals-IsUnion bs (block_uses b []) a,
    used_locals-IsUnion cs (block_uses c []) a,
    terminator-IsUnion b.terminator (collect_instrs b.instructions []) a,
    terminator-IsUnion c.terminator (collect_instrs c.instructions []) a,
    ap (λ o. contains (collect_terminator o []) a) e,
    Thins-uses t a,
    ThinsBlocks-uses ts a,
  )

ThinsBlocks-refl : {used : List Local} (bs : List BasicBlock) → ThinsBlocks used bs bs
ThinsBlocks-refl [] = no_blocks
ThinsBlocks-refl (b ∷ bs) = blocks refl (Thins-refl b.instructions) (ThinsBlocks-refl bs)

-- What the loop leaves of the blocks `bs`.
abbrev IsSwept : List BasicBlock → List BasicBlock → Type 0
IsSwept bs cs = KeptBlocks (used_locals cs []) cs × ThinsBlocks (used_locals cs []) bs cs

sweep_loop-IsSwept :
    (fuel : ℕ) (bs : List BasicBlock)
    → instr_count bs < fuel
    → (cs : List BasicBlock) × (sweep_loop fuel bs ≡ some cs) × IsSwept bs cs
unfolding sweep_loop
sweep_loop-IsSwept zero bs h = absurd (omega arith)
sweep_loop-IsSwept (suc fuel) bs h =
    let used = used_locals bs [] in
    let swept = sweep_blocks used bs in
    elim (Bool-cases swept.1) [
      | inl changed ↦
          let fewer = (sweep_blocks-instr_count used bs).1 changed in
          let (last, ends, (kept, thins)) = sweep_loop-IsSwept fuel swept.0 (omega arith) in
          let once = sweep_blocks-ThinsBlocks used bs in
          let fewer_used : Within (used_locals last []) used =
            λ a u. ThinsBlocks-uses once a (ThinsBlocks-uses thins a u) in
          (
            last,
            rw changed ends,
            (kept, ThinsBlocks-trans (ThinsBlocks-Within fewer_used once) thins),
          )
      | inr same ↦
          let (eq, kept) = sweep_blocks_unchanged used bs same in
          (bs, rw (same, eq) refl, (kept, ThinsBlocks-refl bs))
    ]

-- The sweep of dead code elimination ends: with a round for each instruction and one more its result is
-- not `none`, a lack of fuel. Of the blocks that it leaves, every assignment and every phi has a target
-- that some instruction or terminator left uses. And compared with the blocks given, each block has its
-- terminator and, in order, its instructions, but for assignments and phis to locals that nothing left
-- uses.
pub sweep_loop_lem :
    (bs : List BasicBlock)
    → (cs : List BasicBlock) × (sweep_loop (suc (instr_count bs)) bs ≡ some cs)
      × KeptBlocks (used_locals cs []) cs
      × ThinsBlocks (used_locals cs []) bs cs
sweep_loop_lem bs =
    let (cs, ends, (kept, thins)) = sweep_loop-IsSwept (suc (instr_count bs)) bs (omega arith) in
    (cs, ends, kept, thins)
