-- ===== src/Mir/Agree.antt =====
-- Running instructions on locals that agree where the instructions read.
use izel.Prelude.{
  ◌≡◌, refl, ap, ◌∙◌, true, false, Option, none, some, List, [], ◌∷◌, ◌==◌, arith, contains,
  Bool-cases, inl, inr,
}
use izel.Mir.{
  BlockId, Local, Operand, copy, move, constant, Rvalue, use_operand, binary, unary, ref,
  Instruction, assign, phi, call, assert,
}
use izel.Mir.Dce.{
  collect_used_locals_operand, collect_used_locals_rvalue, insert_sources, collect_operands,
  collect_used_locals_instr, collect_instrs, is_dead,
}
use izel.Mir.Used.{instrs-IsUnion, operand-IsUnion, sources-IsUnion, operands-IsUnion}
use izel.Mir.Sweep.{Thins, done, keep, drop}
use izel.Mir.Semantics.{
  Machine, Outcome, continues, failed, set, set_dest, operand_value, operand_values, rvalue_value,
  source_value, after_call, step, steps, then_outcome,
}

-- The locals of a set hold the same values.
abbrev pub Agree : {V : Type 0} → List Local → (Local → V) → (Local → V) → Type 0
Agree used e f = (l : Local) → contains used l ≡ true → e l ≡ f l

set-Agree :
    {V : Type 0} (used : List Local) (l : Local) (v : V) (e f : Local → V)
    → Agree used e f
    → Agree used (set l v e) (set l v f)
set-Agree used l v e f h k u = elim (Bool-cases (l == k)) [
  | inl same ↦ rw same refl
  | inr other ↦ rw other (h k u)
]

set_dest-Agree :
    {V : Type 0} (used : List Local) (dest : Option Local) (v : V) (e f : Local → V)
    → Agree used e f
    → Agree used (set_dest dest v e) (set_dest dest v f)
set_dest-Agree used none v e f h = h
set_dest-Agree used (some l) v e f h = set-Agree used l v e f h

-- A local outside the set may be set.
set_unused-Agree :
    {V : Type 0} (used : List Local) (l : Local) (v : V) (e f : Local → V)
    → contains used l ≡ false
    → Agree used e f
    → Agree used (set l v e) f
set_unused-Agree used l v e f unused h k u = elim (Bool-cases (l == k)) [
  | inl same ↦ let eq : l ≡ k = ground arith in absurd (ground (arith, ap (contains used) eq))
  | inr other ↦ rw other (h k u)
]

module _ {V W : Type 0} (machine : Machine V W) where
  pub operand_value-Agree :
      (op : Operand) (e f : Local → V)
      → Agree (collect_used_locals_operand op []) e f
      → operand_value machine op e ≡ operand_value machine op f
  unfolding operand_value collect_used_locals_operand contains
  operand_value-Agree (copy l) e f h = h l (ground arith)
  operand_value-Agree (move l) e f h = h l (ground arith)
  operand_value-Agree (constant c) e f h = refl

  operand_values-Agree :
      (ops : List Operand) (e f : Local → V)
      → Agree (collect_operands ops []) e f
      → operand_values machine ops e ≡ operand_values machine ops f
  unfolding operand_values collect_operands
  operand_values-Agree [] e f h = refl
  operand_values-Agree (op ∷ ops) e f h =
      let union = operands-IsUnion ops (collect_used_locals_operand op []) in
      rw
        (
          operand_value-Agree op e f (λ l u. h l (ground (arith, union l))),
          operand_values-Agree ops e f (λ l u. h l (ground (arith, union l))),
        )
        refl

  rvalue_value-Agree :
      (rv : Rvalue) (e f : Local → V)
      → Agree (collect_used_locals_rvalue rv []) e f
      → rvalue_value machine rv e ≡ rvalue_value machine rv f
  unfolding rvalue_value collect_used_locals_rvalue contains
  rvalue_value-Agree (use_operand op) e f h = operand_value-Agree op e f h
  rvalue_value-Agree (binary o l r) e f h =
      let union = operand-IsUnion r (collect_used_locals_operand l []) in
      ap (λ x. machine.binary_value o x (operand_value machine r e))
        (operand_value-Agree l e f (λ k u. h k (ground (arith, union k))))
      ∙ ap (machine.binary_value o (operand_value machine l f))
          (operand_value-Agree r e f (λ k u. h k (ground (arith, union k))))
  rvalue_value-Agree (unary o op) e f h = ap (machine.unary_value o) (operand_value-Agree op e f h)
  rvalue_value-Agree (ref l m) e f h = ap (machine.ref_value l m) (h l (ground arith))

  source_value-Agree :
      (prev : BlockId) (sources : List (BlockId × Local)) (e f : Local → V)
      → Agree (insert_sources sources []) e f
      → source_value machine prev sources e ≡ source_value machine prev sources f
  unfolding source_value insert_sources contains
  source_value-Agree prev [] e f h = refl
  source_value-Agree prev ((b, l) ∷ sources) e f h =
      let union = sources-IsUnion sources (l ∷ []) in
      rw
        (
          h l (ground (arith, union l)),
          source_value-Agree prev sources e f (λ k u. h k (ground (arith, union k))),
        )
        refl

  -- What two runs leave, as far as a set of locals shows.
  abbrev pub AgreeOutcome : List Local → Outcome V W → Outcome V W → Type 0
  AgreeOutcome used (continues e w) (continues f v) = Agree used e f × (w ≡ v)
  AgreeOutcome used (failed m w) (failed n v) = (m ≡ n) × (w ≡ v)
  AgreeOutcome used _ _ = ⊥

  after_call-AgreeOutcome :
      (used : List Local) (dest : Option Local) (r : V × W) (e f : Local → V)
      → Agree used e f
      → AgreeOutcome used (after_call machine dest r e) (after_call machine dest r f)
  after_call-AgreeOutcome used dest (v, w) e f h = (set_dest-Agree used dest v e f h, refl)

  step-AgreeOutcome :
      (used : List Local) (prev : BlockId) (i : Instruction) (e f : Local → V) (w : W)
      → Agree (collect_used_locals_instr i []) e f
      → Agree used e f
      → AgreeOutcome used (step machine prev i e w) (step machine prev i f w)
  unfolding step collect_used_locals_instr
  step-AgreeOutcome used prev (assign l rv) e f w r h =
      rw (rvalue_value-Agree rv e f r) (set-Agree used l _ e f h, refl)
  step-AgreeOutcome used prev (phi l sources) e f w r h =
      rw (source_value-Agree prev sources e f r) (set-Agree used l _ e f h, refl)
  step-AgreeOutcome used prev (call dest name ops) e f w r h =
      rw (operand_values-Agree ops e f r) (after_call-AgreeOutcome used dest _ e f h)
  step-AgreeOutcome used prev (assert op message) e f w r h =
      rw (operand_value-Agree op e f r)
        (elim (Bool-cases (machine.is_true (operand_value machine op f))) [
          | inl holds ↦ rw holds (h, refl)
          | inr fails ↦ rw fails (refl, refl)
        ])
  step-AgreeOutcome used prev _ e f w r h = (h, refl)

  then_outcome-AgreeOutcome :
      (used : List Local) (o p : Outcome V W) (k j : (Local → V) → W → Outcome V W)
      → AgreeOutcome used o p
      → ((e f : Local → V) (w : W) → Agree used e f → AgreeOutcome used (k e w) (j f w))
      → AgreeOutcome used (then_outcome machine o k) (then_outcome machine p j)
  then_outcome-AgreeOutcome used (continues e w) (continues f v) k j (h, eq) g =
      rw (← eq) (g e f w h)
  then_outcome-AgreeOutcome used (failed m w) (failed n v) k j h g = h
  then_outcome-AgreeOutcome used (continues e w) (failed n v) k j h g = elim h [ ]
  then_outcome-AgreeOutcome used (failed m w) (continues f v) k j h g = elim h [ ]

  -- A removed instruction sets a local outside the set.
  drop-AgreeOutcome :
      (used : List Local) (prev : BlockId) (i : Instruction) (e f : Local → V) (w : W)
      → is_dead used i ≡ true
      → Agree used e f
      → AgreeOutcome used (step machine prev i e w) (continues f w)
  unfolding step is_dead
  drop-AgreeOutcome used prev (assign l rv) e f w dead h =
      (set_unused-Agree used l _ e f (ground arith) h, refl)
  drop-AgreeOutcome used prev (phi l sources) e f w dead h =
      (set_unused-Agree used l _ e f (ground arith) h, refl)
  drop-AgreeOutcome used prev _ e f w dead h = absurd (ground arith)

  pub steps-AgreeOutcome :
      (used : List Local) {is js : List Instruction} (prev : BlockId) (e f : Local → V) (w : W)
      → Thins used is js
      → ((l : Local) → contains (collect_instrs js []) l ≡ true → contains used l ≡ true)
      → Agree used e f
      → AgreeOutcome used (steps machine prev is e w) (steps machine prev js f w)
  unfolding steps collect_instrs
  steps-AgreeOutcome used prev e f w done r h = (h, refl)
  steps-AgreeOutcome used prev e f w (keep {i} {is} {js} t) r h =
      let union = instrs-IsUnion js (collect_used_locals_instr i []) in
      then_outcome-AgreeOutcome used (step machine prev i e w) (step machine prev i f w) _ _
        (step-AgreeOutcome used prev i e f w (λ l u. h l (r l (ground (arith, union l)))) h)
        (λ a b v g. steps-AgreeOutcome used prev a b v t (λ l u. r l (ground (arith, union l))) g)
  steps-AgreeOutcome used prev e f w (drop {i} {is} {js} dead t) r h =
      then_outcome-AgreeOutcome used (step machine prev i e w) (continues f w) _
        (steps machine prev js) (drop-AgreeOutcome used prev i e f w dead h)
        (λ a b v g. steps-AgreeOutcome used prev a b v t r g)
