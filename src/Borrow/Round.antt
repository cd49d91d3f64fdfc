-- ===== src/Borrow/Round.antt =====
-- crates/izel_borrow/src/lib.rs, `LivenessAnalysis::compute`: what a visit of a block and a round keep,
-- and what an unchanged round has established.
use izel.Prelude.{
  ℕ, zero, suc, ltb, ◌+◌, ◌≤◌, ◌<◌, ◌≡◌, refl, ap, true, false, not, ◌&&◌, ◌||◌, none, List, [],
  ◌∷◌, ◌==◌, if◌then◌else◌, arith, contains, length, get_elem?, Bool-cases, inl, inr,
}
use izel.Mir.{BlockId, Local, MirBody}
use izel.Mir.Reachability.{In}
use izel.Borrow.Liveness.{
  LiveMap, LivenessAnalysis, block_or_empty, get_block_uses_defs, instrs_uses_defs, uses_defs,
  gather, add_undefined, update, visit, all_uses,
}
use izel.Borrow.Sets.{
  has, contains-append, contains-add_undefined, gather-find, gather-contains, has-update, total,
  update-total, update_unchanged,
}

-- A local is live where a path of the graph leads to a block that has it among its uses, and no block on
-- the way, the last excepted, has it among its definitions.
pub data Live (mir : MirBody) : BlockId → Local → Type 0 where
  used : {node : BlockId} {l : Local} → In l (uses_defs mir node).0 → Live mir node l
  passed :
      {node successor : BlockId} {l : Local}
      → In successor (mir.blocks.neighbors node)
      → Live mir successor l
      → contains (uses_defs mir node).1 l ≡ false
      → Live mir node l

get_elem?-none : {A : Type 0} (xs : List A) (i : ℕ) → length xs ≤ i → get_elem? xs i ≡ none
get_elem?-none [] i h = refl
get_elem?-none (x ∷ xs) zero h = absurd (omega arith)
get_elem?-none (x ∷ xs) (suc i) h = get_elem?-none xs i (omega arith)

contains-all_uses :
    (mir : MirBody) (n node : BlockId) (l : Local)
    → node < n
    → In l (uses_defs mir node).0
    → In l (all_uses mir n)
unfolding all_uses
contains-all_uses mir zero node l h i = elim h [ ]
contains-all_uses mir (suc n) node l h i = elim (Bool-cases (node == n)) [
  | inl same ↦
      let e : node ≡ n = ground arith in
      ground (
        arith,
        contains-append (uses_defs mir n).0 (all_uses mir n) l,
        ap (λ (k : ℕ). contains (uses_defs mir k).0 l) e,
      )
  | inr other ↦
      let below : node < n = ground arith in
      let rest = contains-all_uses mir n node l below i in
      ground (arith, contains-append (uses_defs mir n).0 (all_uses mir n) l)
]

module _ (mir : MirBody) where
  abbrev pub uses : BlockId → List Local
  uses node = (uses_defs mir node).0

  abbrev pub defs : BlockId → List Local
  defs node = (uses_defs mir node).1

  abbrev pub next : BlockId → List BlockId
  next node = mir.blocks.neighbors node

  abbrev pub count_blocks : ℕ
  count_blocks = length mir.blocks.weights

  -- A node that is no block uses nothing.
  no_uses : (node : BlockId) (l : Local) → count_blocks ≤ node → contains (uses node) l ≡ false
  unfolding uses_defs get_block_uses_defs instrs_uses_defs contains
  no_uses node l h =
      ap (λ o. contains (get_block_uses_defs (block_or_empty o)).0 l)
        (get_elem?-none mir.blocks.weights node h)

  Live-In : {node : BlockId} {l : Local} → Live mir node l → In l (all_uses mir count_blocks)
  Live-In (passed i live d) = Live-In live
  Live-In (used {node} {l} i) = elim (Bool-cases (ltb node count_blocks)) [
    | inl b ↦ contains-all_uses mir count_blocks node l (ground arith) i
    | inr c ↦
        let far : count_blocks ≤ node = ground arith in absurd (ground (arith, no_uses node l far))
  ]

  -- What is kept: the sets hold live locals only, and none that the equations do not give.
  pub record IsSound (st : LivenessAnalysis) : Type 0 where
    pub live : (k : BlockId) (l : Local) → has (st.live_in k) l ≡ true → Live mir k l
    pub out_le :
        (k : BlockId) (l : Local)
        → has (st.live_out k) l ≡ true
        → contains (gather (next k) st.live_in) l ≡ true
    pub in_le :
        (k : BlockId) (l : Local)
        → has (st.live_in k) l ≡ true
        → ((has (st.live_out k) l && not (contains (defs k) l)) || contains (uses k) l) ≡ true

  -- The equations at a block.
  pub record IsSolved (st : LivenessAnalysis) (k : BlockId) : Type 0 where
    pub out_eq : (l : Local) → has (st.live_out k) l ≡ contains (gather (next k) st.live_in) l
    pub in_eq :
        (l : Local)
        → has (st.live_in k) l
          ≡ ((has (st.live_out k) l && not (contains (defs k) l)) || contains (uses k) l)

  gather_mono :
      (ss : List BlockId) (m m' : LiveMap) (l : Local)
      → ((k : BlockId) (a : Local) → has (m k) a ≡ true → has (m' k) a ≡ true)
      → contains (gather ss m) l ≡ true
      → contains (gather ss m') l ≡ true
  gather_mono ss m m' l h i =
      let (s, in_ss, found) = gather-find ss m l i in gather-contains ss m' l s in_ss (h s l found)

  -- The size of what is found.
  abbrev pub measure : LivenessAnalysis → ℕ
  measure s =
      total (all_uses mir count_blocks) s.live_in count_blocks
      + total (all_uses mir count_blocks) s.live_out count_blocks

  module _ (st : LivenessAnalysis) (node : BlockId) (sound : IsSound st) where
    abbrev out : List Local
    out = gather (next node) st.live_in

    abbrev inn : List Local
    inn = add_undefined out (defs node) (uses node)

    abbrev after : LivenessAnalysis
    after = (visit mir node st).0

    out_grows : (l : Local) → has (st.live_out node) l ≡ true → contains out l ≡ true
    out_grows l h = sound.out_le node l h

    inn_grows : (l : Local) → has (st.live_in node) l ≡ true → contains inn l ≡ true
    inn_grows l h = ground (
      arith,
      contains-add_undefined out (defs node) (uses node) l,
      sound.in_le node l h,
      out_grows l,
    )

    out-Live : (l : Local) → contains out l ≡ true → (s : BlockId) × In s (next node) × Live mir s l
    out-Live l h =
        let (s, i, found) = gather-find (next node) st.live_in l h in (s, i, sound.live s l found)

    inn-Live : (l : Local) → contains inn l ≡ true → Live mir node l
    inn-Live l h = elim (Bool-cases (contains (uses node) l)) [
      | inl u ↦ used u
      | inr not_used ↦
          let eq = contains-add_undefined out (defs node) (uses node) l in
          let (s, i, live) = out-Live l (ground (arith, eq)) in
          let d : contains (defs node) l ≡ false = ground (arith, eq) in passed i live d
    ]

    has-in :
        (k : BlockId) (l : Local)
        → has (after.live_in k) l ≡ (if node == k then contains inn l else has (st.live_in k) l)
    unfolding visit
    has-in k l = has-update node inn st.live_in k l

    has-out :
        (k : BlockId) (l : Local)
        → has (after.live_out k) l ≡ (if node == k then contains out l else has (st.live_out k) l)
    unfolding visit
    has-out k l = has-update node out st.live_out k l

    in_kept :
        (k : BlockId) (l : Local) → has (st.live_in k) l ≡ true → has (after.live_in k) l ≡ true
    in_kept k l h = elim (Bool-cases (node == k)) [
      | inl at ↦
          let e : node ≡ k = ground arith in
          let g = inn_grows l (rw (← ap (λ (a : ℕ). has (st.live_in a) l) e) at h) in
          ground (arith, has-in k l)
      | inr other ↦ ground (arith, has-in k l)
    ]

    pub visit-IsSound : IsSound after
    visit-IsSound = record {
      live = λ k l h. elim (Bool-cases (node == k)) [
        | inl at ↦
            let e : node ≡ k = ground arith in rw e at (inn-Live l (ground (arith, has-in k l)))
        | inr other ↦ sound.live k l (ground (arith, has-in k l))
      ];
      out_le = λ k l h.
          gather_mono (next k) st.live_in after.live_in l in_kept (elim (Bool-cases (node == k)) [
            | inl at ↦
                let e : node ≡ k = ground arith in
                let h' : contains out l ≡ true = ground (arith, has-out k l) in rw e at h'
            | inr other ↦ sound.out_le k l (ground (arith, has-out k l))
          ]);
      in_le = λ k l h. elim (Bool-cases (node == k)) [
        | inl at ↦
            let e : node ≡ k = ground arith in
            let d = ap (λ (a : ℕ). contains (defs a) l) e in
            let u = ap (λ (a : ℕ). contains (uses a) l) e in
            ground (
              arith,
              has-in k l,
              has-out k l,
              contains-add_undefined out (defs node) (uses node) l,
              d,
              u,
            )
        | inr other ↦ ground (arith, has-in k l, has-out k l, sound.in_le k l)
      ];
    }

    inn_inside : (l : Local) → contains inn l ≡ true → contains (all_uses mir count_blocks) l ≡ true
    inn_inside l h = Live-In (inn-Live l h)

    out_inside : (l : Local) → contains out l ≡ true → contains (all_uses mir count_blocks) l ≡ true
    out_inside l h = let (s, i, live) = out-Live l h in Live-In live

    pub visit-measure :
        node < count_blocks
        → (measure st ≤ measure after) × ((visit mir node st).1 ≡ true → measure st < measure after)
    unfolding visit
    visit-measure below =
        let universe = all_uses mir count_blocks in
        let (in_le, in_lt) =
          update-total universe st.live_in node inn count_blocks below inn_grows inn_inside in
        let (out_le, out_lt) =
          update-total universe st.live_out node out count_blocks below out_grows out_inside in
        (
          omega (arith, in_le, out_le),
          λ changed. elim (Bool-cases (update node out st.live_out).1) [
            | inl more ↦ omega (arith, out_lt more, in_le)
            | inr same ↦ omega (arith, out_le, in_lt (ground arith))
          ],
        )

    pub visit_unchanged : (visit mir node st).1 ≡ false → (after ≡ st) × IsSolved st node
    unfolding visit
    visit_unchanged h =
        let (out_same, out_eq) = update_unchanged node out st.live_out (ground arith) in
        let (in_same, in_eq) = update_unchanged node inn st.live_in (ground arith) in
        (
          rw (out_same, in_same) refl,
          record {
            out_eq = out_eq;
            in_eq = λ l.
                ground
                  (arith, in_eq l, out_eq l, contains-add_undefined out (defs node) (uses node) l);
          },
        )
