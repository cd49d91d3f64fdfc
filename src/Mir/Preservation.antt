-- ===== src/Mir/Preservation.antt =====
-- crates/izel_mir/src/optim.rs, `Dce::run`: a body does the same before and after.
use izel.Prelude.{
  ℕ, zero, suc, ◌+◌, ◌≡◌, refl, ap, sym, true, Option, none, some, List, [], ◌∷◌, arith, contains,
  get_elem?,
}
use izel.Mir.{
  BlockId, Local, Operand, Terminator, return, goto, switch_int, abort, BasicBlock, MirBody,
}
use izel.Mir.Dce.{
  collect_used_locals_term, collect_instrs, collect_terminator, used_locals, clear_unreachable, run,
}
use izel.Mir.Used.{block_uses, terminator-IsUnion, used_locals-IsUnion}
use izel.Mir.Sweep.{Thins, ThinsBlocks, no_blocks, blocks}
use izel.Mir.SweepLoop.{sweep_loop_lem}
use izel.Mir.Reachability.{
  In, Reaches, here, step, IsGraph, reachable_blocks-Reaches, contains-cons,
}
use izel.Mir.Semantics.{
  Machine, Outcome, continues, failed, Result, case_targets, targets, chosen, return_value, leave,
  after_steps, in_block, run_from,
}
use izel.Mir.Agree.{Agree, operand_value-Agree, AgreeOutcome, steps-AgreeOutcome}

-- The blocks that a terminator names are successors in the graph.
abbrev pub IsWired : MirBody → Type 0
IsWired body =
    (a : BlockId) (b : BasicBlock)
    → get_elem? body.blocks.weights a ≡ some b
    → (t : BlockId) → In t (targets b.terminator)
    → In t (body.blocks.neighbors a)

-- The blocks at one index before and after, as far as the set `used` and the block's place among the
-- successors require.
record SameBlock (used : List Local) (b c : BasicBlock) : Type 0 where
  same_terminator : b.terminator ≡ c.terminator
  thins : Thins used b.instructions c.instructions
  uses_used : (l : Local) → contains (block_uses c []) l ≡ true → contains used l ≡ true

abbrev SameAt : List Local → Option BasicBlock → Option BasicBlock → Type 0
SameAt used none none = Unit
SameAt used (some b) (some c) = SameBlock used b c
SameAt used _ _ = ⊥

get_elem?-SameAt :
    {used : List Local} {bs cs : List BasicBlock} (i : ℕ)
    → ThinsBlocks used bs cs
    → ((l : Local) → contains (used_locals cs []) l ≡ true → contains used l ≡ true)
    → SameAt used (get_elem? bs i) (get_elem? cs i)
unfolding used_locals
get_elem?-SameAt i no_blocks h = tt
get_elem?-SameAt zero (blocks {b} {c} {bs} {cs} e t ts) h = record {
  same_terminator = e;
  thins = t;
  uses_used = λ l u. h l (ground (arith, used_locals-IsUnion cs (block_uses c []) l));
}
get_elem?-SameAt (suc i) (blocks {b} {c} {bs} {cs} e t ts) h =
    get_elem?-SameAt i ts (λ l u. h l (ground (arith, used_locals-IsUnion cs (block_uses c []) l)))

get_elem?-clear_unreachable :
    (reachable : List BlockId) (cs : List BasicBlock) (start i : ℕ)
    → contains reachable (start + i) ≡ true
    → get_elem? (clear_unreachable reachable start cs) i ≡ get_elem? cs i
unfolding clear_unreachable
get_elem?-clear_unreachable reachable [] start i h = refl
get_elem?-clear_unreachable reachable (c ∷ cs) start zero h =
    let e : start + 0 ≡ start = omega arith in rw (rw e at h) refl
get_elem?-clear_unreachable reachable (c ∷ cs) start (suc i) h =
    let e : start + suc i ≡ suc start + i = omega arith in
    get_elem?-clear_unreachable reachable cs (suc start) i (rw e at h)

chosen-In :
    (d : ℕ) (cases : List (ℕ × BlockId)) (otherwise : BlockId)
    → In (chosen d cases otherwise) (otherwise ∷ case_targets cases)
unfolding chosen case_targets contains
chosen-In d [] otherwise = ground arith
chosen-In d ((n, b) ∷ cases) otherwise = ground (arith, chosen-In d cases otherwise)

module _ {V W : Type 0} (machine : Machine V W) where
  return_value-Agree :
      (o : Option Operand) (e f : Local → V)
      → Agree (collect_terminator (some (return o)) []) e f
      → return_value machine o e ≡ return_value machine o f
  unfolding collect_used_locals_term
  return_value-Agree none e f h = refl
  return_value-Agree (some op) e f h = ap some (operand_value-Agree machine op e f h)

  leave_lem :
      (term : Option Terminator) (e f : Local → V) (w : W) (j k : BlockId → Result V W)
      → Agree (collect_terminator term []) e f
      → ((t : BlockId) → In t (targets term) → j t ≡ k t)
      → leave machine term e w j ≡ leave machine term f w k
  unfolding leave collect_used_locals_term
  leave_lem none e f w j k h g = refl
  leave_lem (some (return o)) e f w j k h g =
      ap (λ v. Result.returned v w) (return_value-Agree o e f h)
  leave_lem (some (goto b)) e f w j k h g = g b (ground (arith, contains-cons b b []))
  leave_lem (some (switch_int op cases otherwise)) e f w j k h g =
      rw (operand_value-Agree machine op e f h) (g _ (chosen-In _ cases otherwise))
  leave_lem (some abort) e f w j k h g = refl

  after_steps_lem :
      (used : List Local) (o p : Outcome V W) (term : Option Terminator)
      → (j k : BlockId → (Local → V) → W → Result V W) → AgreeOutcome machine used o p
      → ((l : Local) → contains (collect_terminator term []) l ≡ true → contains used l ≡ true)
      → ((t : BlockId) (e f : Local → V) (w : W)
          → In t (targets term)
          → Agree used e f
          → j t e w ≡ k t f w)
      → after_steps machine o term j ≡ after_steps machine p term k
  after_steps_lem used (continues e w) (continues f v) term j k (h, eq) r g =
      rw (← eq) (leave_lem term e f w _ _ (λ l u. h l (r l u)) (λ t i. g t e f w i h))
  after_steps_lem used (failed m w) (failed n v) term j k (me, we) r g = rw (me, we) refl
  after_steps_lem used (continues e w) (failed n v) term j k h r g = elim h [ ]
  after_steps_lem used (failed m w) (continues f v) term j k h r g = elim h [ ]

  in_block_lem :
      (used : List Local) (o p : Option BasicBlock) (prev : BlockId) (e f : Local → V) (w : W)
      → (j k : BlockId → (Local → V) → W → Result V W) → SameAt used o p
      → Agree used e f
      → ((b : BasicBlock) (t : BlockId) (e' f' : Local → V) (w' : W)
          → o ≡ some b
          → In t (targets b.terminator)
          → Agree used e' f'
          → j t e' w' ≡ k t f' w')
      → in_block machine o prev e w j ≡ in_block machine p prev f w k
  in_block_lem used none none prev e f w j k s h g = refl
  in_block_lem used (some b) (some c) prev e f w j k s h g =
      let union =
        λ (l : Local). terminator-IsUnion c.terminator (collect_instrs c.instructions []) l in
      rw s.same_terminator (
        after_steps_lem used _ _ c.terminator j k
          (steps-AgreeOutcome machine used prev e f w s.thins
            (λ l u. s.uses_used l (ground (arith, union l))) h)
          (λ l u. s.uses_used l (ground (arith, union l)))
          (λ t e' f' w' i a. g b t e' f' w' refl (rw s.same_terminator i) a))
  in_block_lem used none (some c) prev e f w j k s h g = elim s [ ]
  in_block_lem used (some b) none prev e f w j k s h g = elim s [ ]

  module _ (body : MirBody) (cs ds : List BasicBlock) (wired : IsWired body)
      (thins : ThinsBlocks (used_locals cs []) body.blocks.weights cs)
      (kept : (a : BlockId)
        → Reaches body.blocks.neighbors body.entry a
        → get_elem? ds a ≡ get_elem? cs a) where
    run_from_lem :
        (fuel : ℕ) (prev at : BlockId) (e f : Local → V) (w : W)
        → Agree (used_locals cs []) e f
        → Reaches body.blocks.neighbors body.entry at
        → run_from machine fuel body.blocks.weights prev at e w
          ≡ run_from machine fuel ds prev at f w
    unfolding run_from
    run_from_lem zero prev at e f w h r = refl
    run_from_lem (suc fuel) prev at e f w h r = rw (kept at r) (
        in_block_lem (used_locals cs []) (get_elem? body.blocks.weights at) (get_elem? cs at) prev e
          f w _ _ (get_elem?-SameAt at thins (λ l u. u)) h
          (λ b t e' f' w' is_b i a.
            run_from_lem fuel at t e' f' w' a (step r (wired at b is_b t i))))

-- Dead code elimination ends, and keeps what a body does. On every machine, from all values of the locals and
-- for any number of blocks run, the body that it leaves returns the same value, aborts, fails an
-- assertion or is stuck alike, with the same effect of its calls on the world. It is required that
-- the entry and the successors of blocks are blocks, and that the graph has an edge to each
-- block that a terminator names.
pub run_from-run :
    {V W : Type 0} (machine : Machine V W) (body : MirBody)
    → IsGraph body
    → IsWired body
    → (fuel : ℕ) (e : Local → V) (w : W)
    → (after : MirBody) × (run body ≡ some after)
      × (run_from machine fuel after.blocks.weights after.entry after.entry e w
          ≡ run_from machine fuel body.blocks.weights body.entry body.entry e w)
unfolding run
run_from-run machine body g wired fuel e w =
    let (swept, sweep_ends, kept, thins) = sweep_loop_lem body.blocks.weights in
    let (reachable, search_ends, finds) = reachable_blocks-Reaches body g in
    let after = clear_unreachable reachable 0 swept in
    (
      record body { blocks = record { weights = after; neighbors = body.blocks.neighbors } },
      rw (sweep_ends, search_ends) refl,
      sym (
          run_from_lem machine body swept after wired thins
            (λ a r.
              let e : a ≡ 0 + a = omega arith in
              get_elem?-clear_unreachable reachable swept 0 a (rw e at ((finds a).1 r)))
            fuel body.entry body.entry e e w (λ l u. refl) here),
    )
