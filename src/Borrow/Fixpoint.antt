-- ===== src/Borrow/Fixpoint.antt =====
-- crates/izel_borrow/src/lib.rs, `LivenessAnalysis::compute`: the loop ends, with exactly the live locals.
use izel.Prelude.{
  ℕ, zero, suc, ◌+◌, ◌*◌, ◌≤◌, ◌<◌, ◌≡◌, ◌∙◌, ◌↔◌, some, refl, true, false, arith, contains, length,
  ◌==◌, Bool-cases, inl, inr,
}
use izel.Mir.{BlockId, Local, MirBody}
use izel.Mir.Reachability.{IsGraph}
use izel.Borrow.Liveness.{
  LivenessAnalysis, empty, visit, round, compute_loop, rounds, compute, all_uses,
}
use izel.Borrow.Sets.{has, gather-contains, total-le}
use izel.Borrow.Round.{
  Live, used, passed, IsSound, IsSolved, measure, count_blocks, next, visit-IsSound, visit-measure,
  visit_unchanged,
}

module _ (mir : MirBody) where
  round-IsSound :
      (rest node : BlockId) (st : LivenessAnalysis)
      → IsSound mir st
      → IsSound mir (round rest mir node st).0
  unfolding round
  round-IsSound zero node st s = s
  round-IsSound (suc rest) node st s =
      round-IsSound rest (suc node) (visit mir node st).0 (visit-IsSound mir st node s)

  round-measure :
      (rest node : BlockId) (st : LivenessAnalysis)
      → IsSound mir st
      → rest + node ≤ count_blocks mir
      → (measure mir st ≤ measure mir (round rest mir node st).0)
        × ((round rest mir node st).1 ≡ true
            → measure mir st < measure mir (round rest mir node st).0)
  unfolding round
  round-measure zero node st s h = (omega arith, λ e. absurd (ground arith))
  round-measure (suc rest) node st s h =
      let first = visit mir node st in
      let (le, lt) = visit-measure mir st node s (omega arith) in
      let (le_rest, lt_rest) =
        round-measure rest (suc node) first.0 (visit-IsSound mir st node s) (omega arith) in
      (
        omega (arith, le, le_rest),
        λ changed. elim (Bool-cases first.1) [
          | inl more ↦ omega (arith, lt more, le_rest)
          | inr same ↦ omega (arith, le, lt_rest (ground arith))
        ],
      )

  round_unchanged :
      (rest node : BlockId) (st : LivenessAnalysis)
      → IsSound mir st
      → (round rest mir node st).1 ≡ false
      → ((round rest mir node st).0 ≡ st)
        × ((k : BlockId) → node ≤ k → k < rest + node → IsSolved mir st k)
  unfolding round
  round_unchanged zero node st s h = (refl, λ k le lt. absurd (omega arith))
  round_unchanged (suc rest) node st s h =
      let first = visit mir node st in
      let (same, solved) = visit_unchanged mir st node s (ground arith) in
      let (same_rest, solved_rest) =
        round_unchanged rest (suc node) first.0 (visit-IsSound mir st node s) (ground arith) in
      (
        same_rest ∙ same,
        λ k le lt. elim (Bool-cases (node == k)) [
          | inl at ↦ let e : node ≡ k = ground arith in rw e at solved
          | inr other ↦ rw same at (solved_rest k (ground arith) (omega arith))
        ],
      )

  -- What the loop ends with.
  record IsFixpoint (st : LivenessAnalysis) : Type 0 where
    sound : IsSound mir st
    solved : (k : BlockId) → k < count_blocks mir → IsSolved mir st k

  abbrev most : ℕ
  most =
      count_blocks mir * suc (length (all_uses mir (count_blocks mir)))
      + count_blocks mir * suc (length (all_uses mir (count_blocks mir)))

  measure-le : (st : LivenessAnalysis) → measure mir st ≤ most
  measure-le st =
      let universe = all_uses mir (count_blocks mir) in
      omega (
        arith,
        total-le universe st.live_in (count_blocks mir),
        total-le universe st.live_out (count_blocks mir),
      )

  compute_loop-IsFixpoint :
      (fuel : ℕ) (st : LivenessAnalysis)
      → IsSound mir st
      → most < fuel + measure mir st
      → (last : LivenessAnalysis) × (compute_loop fuel mir st ≡ some last) × IsFixpoint last
  unfolding compute_loop
  compute_loop-IsFixpoint zero st s h = absurd (omega (arith, measure-le st))
  compute_loop-IsFixpoint (suc fuel) st s h =
      let done = round (count_blocks mir) mir 0 st in
      let s' = round-IsSound (count_blocks mir) 0 st s in
      elim (Bool-cases done.1) [
        | inl more ↦
            let grown = (round-measure (count_blocks mir) 0 st s (omega arith)).1 more in
            let (last, ends, f) = compute_loop-IsFixpoint fuel done.0 s' (omega (arith, grown)) in
            (last, rw more ends, f)
        | inr same ↦
            let (eq, solved) = round_unchanged (count_blocks mir) 0 st s same in
            (
              st,
              rw (same, eq) refl,
              record { sound = s; solved = λ k h. solved k (omega arith) (omega arith) },
            )
      ]

  empty-IsSound : IsSound mir empty
  unfolding contains
  empty-IsSound = record {
    live = λ k l h. absurd (ground arith);
    out_le = λ k l h. absurd (ground arith);
    in_le = λ k l h. absurd (ground arith);
  }

  compute-IsFixpoint : (last : LivenessAnalysis) × (compute mir ≡ some last) × IsFixpoint last
  unfolding compute rounds
  compute-IsFixpoint = compute_loop-IsFixpoint _ empty empty-IsSound (omega arith)

  Live-has :
      (st : LivenessAnalysis) {node : BlockId} {l : Local}
      → IsFixpoint st
      → IsGraph mir
      → node < count_blocks mir
      → Live mir node l
      → has (st.live_in node) l ≡ true
  Live-has st f g below (used {node} {l} i) = ground (arith, (f.solved node below).in_eq l)
  Live-has st f g below (passed {node} {successor} {l} edge live no_def) =
      let there = Live-has st f g (g.neighbors_lt node successor below edge) live in
      let out = gather-contains (next mir node) st.live_in l successor edge there in
      ground (arith, (f.solved node below).in_eq l, (f.solved node below).out_eq l)

-- The liveness analysis ends: its result is not `none`, a lack of fuel. And a local is in the set `live_in`
-- of a block exactly when some path of the graph leads from the block to one that has the local among its
-- uses, and no block before that one on the path has it among its definitions, where uses and
-- definitions are those that `get_block_uses_defs` gives. The successors of blocks have to be blocks.
pub compute-Live :
    (mir : MirBody) (node : BlockId) (l : Local)
    → IsGraph mir
    → node < length mir.blocks.weights
    → (last : LivenessAnalysis) × (compute mir ≡ some last)
      × ((has (last.live_in node) l ≡ true) ↔ Live mir node l)
compute-Live mir node l g below =
    let (last, ends, f) = compute-IsFixpoint mir in
    (last, ends, (λ h. f.sound.live node l h, λ h. Live-has mir last f g below h))
