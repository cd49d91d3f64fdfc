-- ===== src/Mir/Reachability.antt =====
-- crates/izel_mir/src/optim.rs, `Dce::run`, step 3: the search finds exactly the blocks that a path
-- of the control flow graph reaches from the entry.
use izel.Prelude.{
  ℕ, zero, suc, ◌+◌, ◌≤◌, ◌<◌, ◌≡◌, ◌↔◌, inl, inr, refl, ap, some, some_inj, none_some, true, false,
  ◌||◌, List, [], ◌∷◌, ◌==◌, if◌then◌else◌, arith, contains, length, Bool-cases,
}
use izel.Mir.{BlockId, MirBody}
use izel.Mir.Dce.{push_all, reach_loop, edge_count, reachable_blocks}

-- `b` is among the blocks `bs`.
abbrev pub In : BlockId → List BlockId → Type 0
In b bs = contains bs b ≡ true

-- A path of the control flow graph.
pub data Reaches (neighbors : BlockId → List BlockId) (a : BlockId) : BlockId → Type 0 where
  here : Reaches neighbors a a
  step : {b c : BlockId} → Reaches neighbors a b → In c (neighbors b) → Reaches neighbors a c

-- The entry and every successor of a block are blocks.
pub record IsGraph (body : MirBody) : Type 0 where
  pub entry_lt : body.entry < length body.blocks.weights
  pub neighbors_lt :
      (a b : BlockId)
      → a < length body.blocks.weights
      → In b (body.blocks.neighbors a)
      → b < length body.blocks.weights

contains-push_all :
    (succs stack : List BlockId) (a : BlockId)
    → contains (push_all succs stack) a ≡ (contains succs a || contains stack a)
unfolding push_all contains
contains-push_all [] stack a = refl
contains-push_all (s ∷ succs) stack a = ground (arith, contains-push_all succs (s ∷ stack) a)

length-push_all :
    (succs stack : List BlockId) → length (push_all succs stack) ≡ length succs + length stack
unfolding push_all
length-push_all [] stack = omega arith
length-push_all (s ∷ succs) stack = omega (arith, length-push_all succs (s ∷ stack))

pub contains-cons : (x a : ℕ) (xs : List ℕ) → contains (x ∷ xs) a ≡ (x == a || contains xs a)
unfolding contains
contains-cons x a xs = refl

pub contains-nil : (a : ℕ) → contains [] a ≡ false
unfolding contains
contains-nil a = refl

module _ (neighbors : BlockId → List BlockId) where
  -- The edges out of the blocks below `n` that are not visited.
  edges_left : List BlockId → ℕ → ℕ
  edges_left visited zero = 0
  edges_left visited (suc n) =
      (if contains visited n then 0 else length (neighbors n)) + edges_left visited n

  edges_left_above :
      (node : BlockId) (visited : List BlockId) (n : ℕ)
      → n ≤ node
      → edges_left (node ∷ visited) n ≡ edges_left visited n
  unfolding edges_left
  edges_left_above node visited zero h = refl
  edges_left_above node visited (suc n) h =
      ground (arith, contains-cons node n visited, edges_left_above node visited n)

  edges_left_visit :
      (node : BlockId) (visited : List BlockId) (n : ℕ)
      → node < n
      → contains visited node ≡ false
      → edges_left (node ∷ visited) n + length (neighbors node) ≡ edges_left visited n
  unfolding edges_left
  edges_left_visit node visited zero h new = elim h [ ]
  edges_left_visit node visited (suc n) h new = elim (Bool-cases (node == n)) [
    | inl same ↦
        let e : node ≡ n = ground arith in
        ground (
          arith,
          contains-cons node n visited,
          edges_left_above node visited n,
          ap (λ k. length (neighbors k)) e,
          ap (contains visited) e,
        )
    | inr other ↦ ground (arith, contains-cons node n visited, edges_left_visit node visited n)
  ]

  edges_left-edge_count : (n : ℕ) → edges_left [] n ≡ edge_count neighbors n
  unfolding edges_left edge_count
  edges_left-edge_count zero = refl
  edges_left-edge_count (suc n) = ground (arith, contains-nil n, edges_left-edge_count n)

  module _ (entry : BlockId) where
    reach_loop-Reaches :
        (fuel : ℕ) (stack visited : List BlockId)
        → ((a : BlockId) → In a stack → Reaches neighbors entry a)
        → ((a : BlockId) → In a visited → Reaches neighbors entry a)
        → (found : List BlockId) → reach_loop fuel neighbors stack visited ≡ some found
        → (a : BlockId) → In a found
        → Reaches neighbors entry a
    unfolding reach_loop
    reach_loop-Reaches zero stack visited p q found ends a h = absurd (none_some ends)
    reach_loop-Reaches (suc fuel) [] visited p q found ends a h = q a (rw (← some_inj ends) at h)
    reach_loop-Reaches (suc fuel) (node ∷ stack) visited p q found ends a h =
        elim (Bool-cases (contains visited node)) [
          | inl seen ↦
              reach_loop-Reaches fuel stack visited
                (λ b i. p b (ground (arith, contains-cons node b stack))) q found (rw seen at ends)
                a h
          | inr new ↦
              let at_node = p node (ground (arith, contains-cons node node stack)) in
              reach_loop-Reaches fuel (push_all (neighbors node) stack) (node ∷ visited)
                (λ b i. elim (Bool-cases (contains (neighbors node) b)) [
                  | inl edge ↦ step at_node edge
                  | inr none_such ↦ p b (
                      ground (
                        arith,
                        contains-cons node b stack,
                        contains-push_all (neighbors node) stack b,
                      ))
                ])
                (λ b i. elim (Bool-cases (node == b)) [
                  | inl same ↦ let e : node ≡ b = ground arith in rw (← e) at_node
                  | inr other ↦ q b (ground (arith, contains-cons node b visited))
                ])
                found (rw new at ends) a h
        ]

  -- Every edge out of a visited block leads to a block that is visited or on the stack.
  abbrev Pending : List BlockId → List BlockId → Type 0
  Pending stack visited =
      (a b : BlockId)
      → In a visited
      → In b (neighbors a)
      → (contains visited b || contains stack b) ≡ true

  abbrev Closed : List BlockId → Type 0
  Closed bs = (a b : BlockId) → In a bs → In b (neighbors a) → In b bs

  -- With this fuel the search leaves nothing on the stack.
  record Finds (stack visited found : List BlockId) : Type 0 where
    closed : Closed found
    keeps : (a : BlockId) → In a visited → In a found
    takes : (a : BlockId) → In a stack → In a found

  module _ (n : ℕ) (inside : (a b : BlockId) → a < n → In b (neighbors a) → b < n) where
    visit-Pending :
        (node : BlockId) (stack visited : List BlockId)
        → Pending (node ∷ stack) visited
        → Pending (push_all (neighbors node) stack) (node ∷ visited)
    visit-Pending node stack visited inv a b i edge = elim (Bool-cases (node == a)) [
      | inl same ↦
          let e : node ≡ a = ground arith in
          ground (
            arith,
            contains-cons node b visited,
            contains-push_all (neighbors node) stack b,
            ap (λ k. contains (neighbors k) b) e,
          )
      | inr other ↦
          let i' : In a visited = ground (arith, contains-cons node a visited) in
          ground (
            arith,
            contains-cons node b visited,
            contains-cons node b stack,
            contains-push_all (neighbors node) stack b,
            inv a b i' edge,
          )
    ]

    skip-Pending :
        (node : BlockId) (stack visited : List BlockId)
        → In node visited
        → Pending (node ∷ stack) visited
        → Pending stack visited
    skip-Pending node stack visited seen inv a b i edge = elim (Bool-cases (node == b)) [
      | inl same ↦ let e : node ≡ b = ground arith in ground (arith, ap (contains visited) e)
      | inr other ↦ ground (arith, contains-cons node b stack, inv a b i edge)
    ]

    reach_loop-Finds :
        (fuel : ℕ) (stack visited : List BlockId)
        → length stack + edges_left visited n < fuel
        → ((a : BlockId) → In a stack → a < n)
        → Pending stack visited
        → (found : List BlockId) × (reach_loop fuel neighbors stack visited ≡ some found)
          × Finds stack visited found
    unfolding reach_loop
    reach_loop-Finds zero stack visited h below inv = absurd (omega arith)
    reach_loop-Finds (suc fuel) [] visited h below inv = (
      visited,
      refl,
      record {
        closed = λ a b i edge. ground (arith, inv a b i edge, contains-nil b);
        keeps = λ a i. i;
        takes = λ a i. ground (arith, contains-nil a);
      },
    )
    reach_loop-Finds (suc fuel) (node ∷ stack) visited h below inv =
        elim (Bool-cases (contains visited node)) [
          | inl seen ↦
              let (found, ends, rec) =
                reach_loop-Finds fuel stack visited (omega arith)
                  (λ a i. below a (ground (arith, contains-cons node a stack)))
                  (skip-Pending node stack visited seen inv) in
              (
                found,
                rw seen ends,
                record {
                  closed = rec.closed;
                  keeps = rec.keeps;
                  takes = λ a i. elim (Bool-cases (node == a)) [
                    | inl same ↦ let e : node ≡ a = ground arith in rec.keeps a (rw (← e) seen)
                    | inr other ↦ rec.takes a (ground (arith, contains-cons node a stack))
                  ];
                },
              )
          | inr new ↦
              let node_lt = below node (ground (arith, contains-cons node node stack)) in
              let pushed = push_all (neighbors node) stack in
              let (found, ends, rec) =
                reach_loop-Finds fuel pushed (node ∷ visited)
                  (omega (
                    arith,
                    edges_left_visit node visited n node_lt new,
                    length-push_all (neighbors node) stack,
                  ))
                  (λ a i. elim (Bool-cases (contains (neighbors node) a)) [
                    | inl edge ↦ inside node a node_lt edge
                    | inr none_such ↦ below a (
                        ground (
                          arith,
                          contains-cons node a stack,
                          contains-push_all (neighbors node) stack a,
                        ))
                  ])
                  (visit-Pending node stack visited inv) in
              (
                found,
                rw new ends,
                record {
                  closed = rec.closed;
                  keeps = λ a i. rec.keeps a (ground (arith, contains-cons node a visited));
                  takes = λ a i. elim (Bool-cases (node == a)) [
                    | inl same ↦ rec.keeps a (ground (arith, contains-cons node a visited))
                    | inr other ↦ rec.takes a (
                        ground (
                          arith,
                          contains-cons node a stack,
                          contains-push_all (neighbors node) stack a,
                        ))
                  ];
                },
              )
        ]

    Reaches-Closed :
        (found : List BlockId) {entry a : BlockId}
        → Closed found
        → In entry found
        → Reaches neighbors entry a
        → In a found
    Reaches-Closed found c i here = i
    Reaches-Closed found c i (step r edge) = c _ _ (Reaches-Closed found c i r) edge

-- Where the entry and the successors of blocks are blocks, the search of dead code elimination ends: its
-- result is not `none`, a lack of fuel. And it has found a block exactly when a path leads to it from the
-- entry.
pub reachable_blocks-Reaches :
    (body : MirBody)
    → IsGraph body
    → (found : List BlockId) × (reachable_blocks body ≡ some found)
      × ((a : BlockId) → In a found ↔ Reaches body.blocks.neighbors body.entry a)
unfolding reachable_blocks
reachable_blocks-Reaches body g =
    let next = body.blocks.neighbors in
    let n = length body.blocks.weights in
    let fuel = suc (suc (edge_count next n)) in
    let start = contains-cons body.entry body.entry [] in
    let at_entry : In body.entry (body.entry ∷ []) = ground (arith, start) in
    let only_entry = λ (b : BlockId) (i : In b (body.entry ∷ [])).
      (let same : body.entry ≡ b = ground (arith, contains-cons body.entry b [], contains-nil b) in
        same) in
    let (found, ends, finds) =
      reach_loop-Finds next n g.neighbors_lt fuel (body.entry ∷ []) []
        (omega (arith, edges_left-edge_count next n)) (λ b i. rw (← only_entry b i) g.entry_lt)
        (λ b c i edge. ground (arith, contains-nil b)) in
    (
      found,
      ends,
      λ a. (
        reach_loop-Reaches next body.entry fuel (body.entry ∷ []) []
            (λ b i. rw (← only_entry b i) here) (λ b i. absurd (ground (arith, contains-nil b)))
            found ends a,
        Reaches-Closed next n g.neighbors_lt found finds.closed (finds.takes body.entry at_entry),
      ),
    )
