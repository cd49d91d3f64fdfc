-- ===== src/Borrow/Uses.antt =====
-- crates/izel_borrow/src/lib.rs, `LivenessAnalysis::get_block_uses_defs`, against the collectors of
-- crates/izel_mir/src/optim.rs.
use izel.Prelude.{
  ◌≡◌, ◌↔◌, ◌⊎◌, inl, inr, refl, ap, Bool, true, false, not, ◌&&◌, ◌||◌, Option, none, some, List,
  [], ◌∷◌, ◌==◌, arith, contains, Bool-cases,
}
use izel.Mir.{
  Local, Operand, copy, move, constant, Rvalue, use_operand, binary, unary, ref, Instruction,
  assign, call, phi, assert, Terminator, return, switch_int, BasicBlock,
}
use izel.Mir.Dce.{
  collect_used_locals_operand, collect_used_locals_rvalue, collect_operands, collect_terminator,
  collect_used_locals_instr, collect_used_locals_term,
}
use izel.Mir.Used.{operand-IsUnion, operands-IsUnion}
use izel.Mir.Reachability.{In}
use izel.Borrow.Liveness.{
  insert_unless, get_operand_use, get_rvalue_uses, get_arg_uses, instr_uses_defs, instrs_uses_defs,
  terminator_uses_defs, get_block_uses_defs,
}

abbrev pub writes : Instruction → List Local
writes (assign l _) = l ∷ []
writes (phi l _) = l ∷ []
writes (call (some l) _ _) = l ∷ []
writes _ = []

-- A local is read before it is written, where dead code elimination says what is read.
pub data ReadsFirst (l : Local) (term : Option Terminator) : List Instruction → Type 0 where
  at_end : In l (collect_terminator term []) → ReadsFirst l term []
  now :
      {i : Instruction} {is : List Instruction}
      → In l (collect_used_locals_instr i [])
      → ReadsFirst l term (i ∷ is)
  later :
      {i : Instruction} {is : List Instruction}
      → contains (writes i) l ≡ false
      → ReadsFirst l term is
      → ReadsFirst l term (i ∷ is)

-- No phi and no assertion.
abbrev pub NoPhiNoAssert : List Instruction → Type 0
NoPhiNoAssert [] = Unit
NoPhiNoAssert (phi _ _ ∷ is) = ⊥
NoPhiNoAssert (assert _ _ ∷ is) = ⊥
NoPhiNoAssert (i ∷ is) = NoPhiNoAssert is

-- The block gives back no operand.
abbrev pub NoOperandReturned : Option Terminator → Type 0
NoOperandReturned (some (return (some _))) = ⊥
NoOperandReturned _ = Unit

-- The uses after a step that reads some locals.
abbrev added : List Local → List Local → List Local → Local → Bool
added read uses defs l = contains uses l || (contains read l && not (contains defs l))

contains-insert_unless :
    (defs : List Local) (k : Local) (uses : List Local) (l : Local)
    → contains (insert_unless defs k uses) l ≡ added (k ∷ []) uses defs l
unfolding contains
contains-insert_unless defs k uses l = elim (Bool-cases (k == l)) [
  | inl same ↦ let e : k ≡ l = ground arith in ground (arith, ap (contains defs) e)
  | inr other ↦ ground arith
]

contains-get_operand_use :
    (op : Operand) (uses defs : List Local) (l : Local)
    → contains (get_operand_use op uses defs) l
      ≡ added (collect_used_locals_operand op []) uses defs l
unfolding get_operand_use collect_used_locals_operand contains
contains-get_operand_use (copy k) uses defs l = contains-insert_unless defs k uses l
contains-get_operand_use (move k) uses defs l = contains-insert_unless defs k uses l
contains-get_operand_use (constant c) uses defs l = ground arith

contains-get_rvalue_uses :
    (rv : Rvalue) (uses defs : List Local) (l : Local)
    → contains (get_rvalue_uses rv uses defs) l
      ≡ added (collect_used_locals_rvalue rv []) uses defs l
unfolding get_rvalue_uses collect_used_locals_rvalue
contains-get_rvalue_uses (use_operand op) uses defs l = contains-get_operand_use op uses defs l
contains-get_rvalue_uses (binary o a b) uses defs l = ground (
  arith,
  contains-get_operand_use b (get_operand_use a uses defs) defs l,
  contains-get_operand_use a uses defs l,
  operand-IsUnion b (collect_used_locals_operand a []) l,
)
contains-get_rvalue_uses (unary o op) uses defs l = contains-get_operand_use op uses defs l
contains-get_rvalue_uses (ref k m) uses defs l = contains-insert_unless defs k uses l

contains-get_arg_uses :
    (ops : List Operand) (uses defs : List Local) (l : Local)
    → contains (get_arg_uses ops uses defs) l ≡ added (collect_operands ops []) uses defs l
unfolding get_arg_uses collect_operands contains
contains-get_arg_uses [] uses defs l = ground arith
contains-get_arg_uses (op ∷ ops) uses defs l = ground (
  arith,
  contains-get_arg_uses ops (get_operand_use op uses defs) defs l,
  contains-get_operand_use op uses defs l,
  operands-IsUnion ops (collect_used_locals_operand op []) l,
)

instr_uses :
    (i : Instruction) (is : List Instruction) (uses defs : List Local) (l : Local)
    → NoPhiNoAssert (i ∷ is)
    → NoPhiNoAssert is
      × (contains (instr_uses_defs i (uses, defs)).0 l
          ≡ added (collect_used_locals_instr i []) uses defs l)
unfolding instr_uses_defs collect_used_locals_instr contains
instr_uses (assign k rv) is uses defs l h = (h, contains-get_rvalue_uses rv uses defs l)
instr_uses (call dest f ops) is uses defs l h = (h, contains-get_arg_uses ops uses defs l)
instr_uses (phi k ops) is uses defs l h = elim h [ ]
instr_uses (assert op m) is uses defs l h = elim h [ ]
instr_uses _ is uses defs l h = (h, ground arith)

instr_defs :
    (i : Instruction) (is : List Instruction) (uses defs : List Local) (l : Local)
    → NoPhiNoAssert (i ∷ is)
    → contains (instr_uses_defs i (uses, defs)).1 l ≡ (contains (writes i) l || contains defs l)
unfolding instr_uses_defs contains
instr_defs (assign k rv) is uses defs l h = ground arith
instr_defs (phi k ops) is uses defs l h = elim h [ ]
instr_defs (call none f ops) is uses defs l h = refl
instr_defs (call (some k) f ops) is uses defs l h = ground arith
instr_defs _ is uses defs l h = refl

terminator_uses :
    (term : Option Terminator) (uses defs : List Local) (l : Local)
    → NoOperandReturned term
    → contains (terminator_uses_defs term (uses, defs)).0 l
      ≡ added (collect_terminator term []) uses defs l
unfolding collect_used_locals_term contains
terminator_uses (some (switch_int op _ _)) uses defs l h = contains-get_operand_use op uses defs l
terminator_uses (some (return (some op))) uses defs l h = elim h [ ]
terminator_uses _ uses defs l h = ground arith

module _ (term : Option Terminator) (l : Local) (end : NoOperandReturned term) where
  uses-ReadsFirst :
      (is : List Instruction) (found : List Local × List Local)
      → NoPhiNoAssert is
      → contains (terminator_uses_defs term (instrs_uses_defs is found)).0 l ≡ true
      → (contains found.0 l ≡ true) ⊎ ((contains found.1 l ≡ false) × ReadsFirst l term is)
  unfolding instrs_uses_defs
  uses-ReadsFirst [] (uses, defs) plain h = elim (Bool-cases (contains uses l)) [
    | inl before ↦ inl before
    | inr fresh ↦
        let eq = terminator_uses term uses defs l end in
        inr (ground (arith, eq), at_end (ground (arith, eq)))
  ]
  uses-ReadsFirst (i ∷ is) (uses, defs) plain h =
      let (rest, eq) = instr_uses i is uses defs l plain in
      let eq' = instr_defs i is uses defs l plain in
      elim (uses-ReadsFirst is (instr_uses_defs i (uses, defs)) rest h) [
        | inl found ↦ elim (Bool-cases (contains uses l)) [
          | inl before ↦ inl before
          | inr fresh ↦ inr (ground (arith, eq), now (ground (arith, eq)))
        ]
        | inr (no_def, r) ↦ inr (ground (arith, eq'), later (ground (arith, eq')) r)
      ]

  ReadsFirst-uses :
      (is : List Instruction) (found : List Local × List Local)
      → NoPhiNoAssert is
      → (contains found.0 l ≡ true) ⊎ ((contains found.1 l ≡ false) × ReadsFirst l term is)
      → contains (terminator_uses_defs term (instrs_uses_defs is found)).0 l ≡ true
  unfolding instrs_uses_defs
  ReadsFirst-uses [] (uses, defs) plain (inl h) =
      ground (arith, terminator_uses term uses defs l end)
  ReadsFirst-uses [] (uses, defs) plain (inr (d, at_end h)) =
      ground (arith, terminator_uses term uses defs l end)
  ReadsFirst-uses (i ∷ is) (uses, defs) plain (inl h) =
      let (rest, eq) = instr_uses i is uses defs l plain in
      ReadsFirst-uses is (instr_uses_defs i (uses, defs)) rest (inl (ground (arith, eq)))
  ReadsFirst-uses (i ∷ is) (uses, defs) plain (inr (d, now h)) =
      let (rest, eq) = instr_uses i is uses defs l plain in
      ReadsFirst-uses is (instr_uses_defs i (uses, defs)) rest (inl (ground (arith, eq)))
  ReadsFirst-uses (i ∷ is) (uses, defs) plain (inr (d, later w r)) =
      let (rest, eq) = instr_uses i is uses defs l plain in
      ReadsFirst-uses is (instr_uses_defs i (uses, defs)) rest
        (inr (ground (arith, instr_defs i is uses defs l plain), r))

-- In a block without a phi or an assertion that does not return an operand, a local is among the uses
-- exactly when an instruction or the terminator reads it and no earlier instruction writes it, where
-- what is read is what the collectors of dead code elimination count.
pub get_block_uses_defs-ReadsFirst :
    (b : BasicBlock) (l : Local)
    → NoPhiNoAssert b.instructions
    → NoOperandReturned b.terminator
    → (contains (get_block_uses_defs b).0 l ≡ true) ↔ ReadsFirst l b.terminator b.instructions
unfolding get_block_uses_defs contains
get_block_uses_defs-ReadsFirst b l plain end = (
  λ h. elim (uses-ReadsFirst b.terminator l end b.instructions ([], []) plain h) [
    | inl none_yet ↦ absurd (ground arith)
    | inr (d, r) ↦ r
  ],
  λ r. ReadsFirst-uses b.terminator l end b.instructions ([], []) plain (inr (refl, r)),
)
