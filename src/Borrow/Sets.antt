-- ===== src/Borrow/Sets.antt =====
-- Sets of locals that are kept as lists, and their sizes inside a finite list of locals.
use native.Mathlib.Nat.{suc-mul}
use izel.Prelude.{
  ℕ, zero, suc, ◌+◌, ◌*◌, ◌≤◌, ◌<◌, ◌≡◌, refl, ap, Bool, true, false, not, ◌&&◌, ◌||◌, Option, none,
  some, List, [], ◌∷◌, ◌++◌, ◌==◌, if◌then◌else◌, arith, contains, length, Bool-cases, inl, inr,
}
use izel.Mir.{BlockId, Local}
use izel.Borrow.Liveness.{LiveMap, set_or_empty, gather, add_undefined, subset, same_set, update}

-- `l` is in the set that a map gives for a block.
abbrev pub has : Option (List Local) → Local → Bool
has o l = contains (set_or_empty o) l

pub contains-append :
    (s t : List Local) (l : Local) → contains (s ++ t) l ≡ (contains s l || contains t l)
unfolding contains
contains-append [] t l = refl
contains-append (x ∷ s) t l = ground (arith, contains-append s t l)

pub contains-add_undefined :
    (out defs uses : List Local) (l : Local)
    → contains (add_undefined out defs uses) l
      ≡ ((contains out l && not (contains defs l)) || contains uses l)
unfolding add_undefined contains
contains-add_undefined [] defs uses l = refl
contains-add_undefined (x ∷ out) defs uses l = elim (Bool-cases (x == l)) [
  | inl same ↦
      let e : x ≡ l = ground arith in
      elim (Bool-cases (contains defs x)) [
        | inl d ↦ ground (arith, contains-add_undefined out defs uses l, ap (contains defs) e)
        | inr d ↦ ground (arith, contains-add_undefined out defs (x ∷ uses) l, ap (contains defs) e)
      ]
  | inr other ↦ elim (Bool-cases (contains defs x)) [
    | inl d ↦ ground (arith, contains-add_undefined out defs uses l)
    | inr d ↦ ground (arith, contains-add_undefined out defs (x ∷ uses) l)
  ]
]

-- A successor whose set holds a local.
pub gather-find :
    (ss : List BlockId) (m : LiveMap) (l : Local)
    → contains (gather ss m) l ≡ true
    → (s : BlockId) × (contains ss s ≡ true) × (has (m s) l ≡ true)
unfolding gather contains
gather-find [] m l h = absurd (ground arith)
gather-find (s ∷ ss) m l h = elim (Bool-cases (has (m s) l)) [
  | inl found ↦ (s, ground arith, found)
  | inr none_here ↦
      let (t, i, found) =
        gather-find ss m l (ground (arith, contains-append (set_or_empty (m s)) (gather ss m) l)) in
      (t, ground arith, found)
]

pub gather-contains :
    (ss : List BlockId) (m : LiveMap) (l : Local) (s : BlockId)
    → contains ss s ≡ true
    → has (m s) l ≡ true
    → contains (gather ss m) l ≡ true
unfolding gather contains
gather-contains [] m l s i h = absurd (ground arith)
gather-contains (t ∷ ss) m l s i h = elim (Bool-cases (t == s)) [
  | inl same ↦
      let e : t ≡ s = ground arith in
      ground
        (arith, contains-append (set_or_empty (m t)) (gather ss m) l, ap (λ (k : ℕ). has (m k) l) e)
  | inr other ↦
      let rest = gather-contains ss m l s (ground arith) h in
      ground (arith, contains-append (set_or_empty (m t)) (gather ss m) l)
]

subset-contains :
    (s t : List Local) (l : Local) → subset s t ≡ true → contains s l ≡ true → contains t l ≡ true
unfolding subset contains
subset-contains [] t l h i = absurd (ground arith)
subset-contains (x ∷ s) t l h i = elim (Bool-cases (x == l)) [
  | inl same ↦ let e : x ≡ l = ground arith in ground (arith, ap (contains t) e)
  | inr other ↦ subset-contains s t l (ground arith) (ground arith)
]

subset-missing :
    (s t : List Local)
    → subset s t ≡ false
    → (l : Local) × (contains s l ≡ true) × (contains t l ≡ false)
unfolding subset contains
subset-missing [] t h = absurd (ground arith)
subset-missing (x ∷ s) t h = elim (Bool-cases (contains t x)) [
  | inl found ↦ let (l, i, j) = subset-missing s t (ground arith) in (l, ground arith, j)
  | inr missing ↦ (x, ground arith, missing)
]

same_set-has :
    (o : Option (List Local)) (s : List Local) (l : Local)
    → same_set o s ≡ true
    → has o l ≡ contains s l
same_set-has none s l h = absurd (ground arith)
same_set-has (some t) s l h = elim (Bool-cases (contains t l)) [
  | inl i ↦ ground (arith, subset-contains t s l (ground arith) i)
  | inr out ↦ elim (Bool-cases (contains s l)) [
    | inl i ↦ ground (arith, subset-contains s t l (ground arith) i)
    | inr j ↦ ground arith
  ]
]

-- After an update, the set of a block is the given one, whether or not it was replaced.
pub has-update :
    (node : BlockId) (s : List Local) (m : LiveMap) (k : BlockId) (l : Local)
    → has ((update node s m).0 k) l ≡ (if node == k then contains s l else has (m k) l)
unfolding update
has-update node s m k l = elim (Bool-cases (same_set (m node) s)) [
  | inl same ↦ rw same (elim (Bool-cases (node == k)) [
    | inl at ↦ let e : node ≡ k = ground arith in rw at (rw (← e) (same_set-has (m node) s l same))
    | inr other ↦ rw other refl
  ])
  | inr new ↦
      rw new (elim (Bool-cases (node == k)) [ inl at ↦ rw at refl | inr other ↦ rw other refl ])
]

-- An update that changes nothing was by the set that is there.
pub update_unchanged :
    (node : BlockId) (s : List Local) (m : LiveMap)
    → (update node s m).1 ≡ false
    → ((update node s m).0 ≡ m) × ((l : Local) → has (m node) l ≡ contains s l)
unfolding update
update_unchanged node s m h = elim (Bool-cases (same_set (m node) s)) [
  | inl same ↦ rw same (refl, λ l. same_set-has (m node) s l same)
  | inr new ↦ absurd (ground arith)
]

-- Maps whose sets lie inside a list have a size, which an update that changes something makes larger.
module _ (universe : List Local) where
  count : List Local → List Local → ℕ
  count [] s = 0
  count (u ∷ us) s = (if contains s u then 1 else 0) + count us s

  count-le :
      (us s t : List Local)
      → ((l : Local) → contains s l ≡ true → contains t l ≡ true)
      → count us s ≤ count us t
  unfolding count
  count-le [] s t h = omega arith
  count-le (u ∷ us) s t h = ground (arith, count-le us s t h, h u)

  count-lt :
      (us s t : List Local) (l : Local)
      → ((k : Local) → contains s k ≡ true → contains t k ≡ true)
      → contains us l ≡ true
      → contains t l ≡ true
      → contains s l ≡ false
      → count us s < count us t
  unfolding count contains
  count-lt [] s t l h i j k = absurd (ground arith)
  count-lt (u ∷ us) s t l h i j k = elim (Bool-cases (u == l)) [
    | inl same ↦
        let e : u ≡ l = ground arith in
        ground (arith, count-le us s t h, ap (contains s) e, ap (contains t) e)
    | inr other ↦ ground (arith, count-lt us s t l h (ground arith) j k, h u)
  ]

  count-length : (us s : List Local) → count us s ≤ length us
  unfolding count
  count-length [] s = omega arith
  count-length (u ∷ us) s = ground (arith, count-length us s)

  pub size : Option (List Local) → ℕ
  size none = 0
  size (some s) = suc (count universe s)

  pub size-le : (o : Option (List Local)) → size o ≤ suc (length universe)
  unfolding size
  size-le none = omega arith
  size-le (some s) = omega (arith, count-length universe s)

  replaced-size :
      (o : Option (List Local)) (s : List Local)
      → ((l : Local) → has o l ≡ true → contains s l ≡ true)
      → ((l : Local) → contains s l ≡ true → contains universe l ≡ true)
      → same_set o s ≡ false
      → size o < size (some s)
  unfolding size
  replaced-size none s h u d = omega arith
  replaced-size (some t) s h u d = elim (Bool-cases (subset t s)) [
    | inl i ↦
        let (l, in_s, out_t) = subset-missing s t (ground arith) in
        omega (arith, count-lt universe t s l h (u l in_s) in_s out_t)
    | inr j ↦ let (l, in_t, out_s) = subset-missing t s j in absurd (ground (arith, h l in_t))
  ]

  -- The sizes of the sets of the blocks below `n`.
  pub total : LiveMap → ℕ → ℕ
  total m zero = 0
  total m (suc n) = size (m n) + total m n

  pub total-le : (m : LiveMap) (n : ℕ) → total m n ≤ n * suc (length universe)
  unfolding total
  total-le m zero = omega arith
  total-le m (suc n) = omega (arith, total-le m n, size-le (m n), suc-mul n (suc (length universe)))

  total-insert :
      (m : LiveMap) (node : BlockId) (s : List Local) (n : ℕ)
      → (n ≤ node → total (λ k. if node == k then some s else m k) n ≡ total m n)
        × (node < n
            → total (λ k. if node == k then some s else m k) n + size (m node)
              ≡ total m n + size (some s))
  unfolding total
  total-insert m node s zero = (λ h. refl, λ h. absurd (omega arith))
  total-insert m node s (suc n) = elim (Bool-cases (node == n)) [
    | inl same ↦
        let e : node ≡ n = ground arith in
        (
          λ h. absurd (omega (arith, e)),
          λ h. rw same (
              omega (
                arith,
                (total-insert m node s n).0 (omega (arith, e)),
                ap (λ (k : ℕ). size (m k)) e,
              )),
        )
    | inr other ↦ (
      λ h. rw other (omega (arith, (total-insert m node s n).0 (omega arith))),
      λ h.
          rw other (
            let below : node < n = ground arith in
            omega (arith, (total-insert m node s n).1 below)),
    )
  ]

  -- An update by a larger set.
  pub update-total :
      (m : LiveMap) (node : BlockId) (s : List Local) (n : ℕ)
      → node < n
      → ((l : Local) → has (m node) l ≡ true → contains s l ≡ true)
      → ((l : Local) → contains s l ≡ true → contains universe l ≡ true)
      → (total m n ≤ total (update node s m).0 n)
        × ((update node s m).1 ≡ true → total m n < total (update node s m).0 n)
  unfolding update
  update-total m node s n below h u = elim (Bool-cases (same_set (m node) s)) [
    | inl same ↦ rw same (omega arith, λ e. absurd (ground arith))
    | inr new ↦
        let larger = replaced-size (m node) s h u new in
        let sum = (total-insert m node s n).1 below in
        rw new (omega (arith, larger, sum), λ e. omega (arith, larger, sum))
  ]
