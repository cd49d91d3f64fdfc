-- ===== src/Borrow/Moves.antt =====
-- crates/izel_borrow/src/lib.rs, `check_operand`: a use after a move is reported.
use izel.Prelude.{
  ℕ, zero, suc, ◌<◌, ◌≡◌, refl, ap, ◌∙◌, Bool, true, false, not, ◌||◌, ◌&&◌, Option, none, some,
  List, [], ◌∷◌, ◌++◌, ◌==◌, if◌then◌else◌, ◌>>=◌, contains, get_elem?, length, arith, Option-cases,
  inl, inr,
}
use izel.Mir.{BlockId, Local, LocalData, Operand, copy, move, constant}
use izel.Borrow.Check.{
  ActiveBorrow, CheckError, use_uninitialized, move_borrowed, copy_non_copyable,
  borrow_uninitialized, Checked, is_type_copyable, remove, push_if, is_borrowed, check_initialized,
  check_operand, check_args,
}

-- `l` is reported as used while it is not initialized.
unfoldable pub reported : Local → List CheckError → Bool
reported l [] = false
reported l (use_uninitialized k ∷ es) = k == l || reported l es
reported l (_ ∷ es) = reported l es

reported-append :
    (l : Local) (es fs : List CheckError) → reported l (es ++ fs) ≡ (reported l es || reported l fs)
unfolding reported
reported-append l [] fs = refl
reported-append l (use_uninitialized k ∷ es) fs = ground (arith, reported-append l es fs)
reported-append l (move_borrowed _ ∷ es) fs = reported-append l es fs
reported-append l (copy_non_copyable _ ∷ es) fs = reported-append l es fs
reported-append l (borrow_uninitialized _ ∷ es) fs = reported-append l es fs

push_if_keeps :
    (l : Local) (wrong : Bool) (e : CheckError) (es : List CheckError)
    → reported l es ≡ true
    → reported l (push_if wrong e es) ≡ true
push_if_keeps l wrong e es h = ground (arith, reported-append l es (e ∷ []))

contains-remove :
    (l : Local) (ks : List Local) (k : Local)
    → contains (remove l ks) k ≡ (contains ks k && not (l == k))
unfolding remove contains
contains-remove l [] k = refl
contains-remove l (x ∷ ks) k = ground (arith, contains-remove l ks k)

get_elem?-some :
    {A : Type 0} (xs : List A) (i : ℕ) → i < length xs → (x : A) × (get_elem? xs i ≡ some x)
get_elem?-some [] i h = absurd (omega arith)
get_elem?-some (x ∷ xs) zero h = (x, refl)
get_elem?-some (x ∷ xs) (suc i) h = get_elem?-some xs i (omega arith)

abbrev initialized_of : Option Checked → List Local
initialized_of none = []
initialized_of (some c) = c.0

abbrev errors_of : Option Checked → List CheckError
errors_of none = []
errors_of (some c) = c.1

-- The operand reads `l`.
pub data Reads (l : Local) : Operand → Type 0 where
  by_copy : Reads l (copy l)
  by_move : Reads l (move l)

module _ (locals : List LocalData) (active_borrows : Local → Option (List ActiveBorrow))
    (block : BlockId) where
  abbrev check : Operand → Checked → Option Checked
  check = check_operand locals active_borrows block

  abbrev checks : List Operand → Checked → Option Checked
  checks = check_args locals active_borrows block

  -- The body declares the local that an operand names.
  abbrev pub IsDeclared : Operand → Type 0
  IsDeclared (copy l) = l < length locals
  IsDeclared (move l) = l < length locals
  IsDeclared (constant _) = Unit

  abbrev pub AreDeclared : List Operand → Type 0
  AreDeclared [] = Unit
  AreDeclared (op ∷ ops) = IsDeclared op × AreDeclared ops

  -- A check that does not panic initializes nothing, and keeps what is reported.
  record Passes (before : Checked) (o : Option Checked) : Type 0 where
    after : Checked
    passes : o ≡ some after
    shrinks : (k : Local) → contains before.0 k ≡ false → contains after.0 k ≡ false
    keeps : (k : Local) → reported k before.1 ≡ true → reported k after.1 ≡ true

  Passes-bind :
      {c : Checked} {o : Option Checked} {f : Checked → Option Checked}
      → Passes c o
      → ((r : Checked) → Passes r (f r))
      → Passes c (o >>= f)
  Passes-bind {c} {o} {f} p g =
      let q = g p.after in
      record {
        after = q.after;
        passes = ap (λ r. r >>= f) p.passes ∙ q.passes;
        shrinks = λ k h. q.shrinks k (p.shrinks k h);
        keeps = λ k h. q.keeps k (p.keeps k h);
      }

  check-Passes : (op : Operand) (c : Checked) → IsDeclared op → Passes c (check op c)
  unfolding check_operand
  check-Passes (constant _) c h = record {
    after = c;
    passes = refl;
    shrinks = λ k n. n;
    keeps = λ k r. r;
  }
  check-Passes (copy l) (initialized, errors) h =
      let (found, e) = get_elem?-some locals l h in
      record {
        after = (
          initialized,
          push_if (not (is_type_copyable found.ty)) (copy_non_copyable l)
              (check_initialized locals active_borrows block l (initialized, errors)),
        );
        passes = rw e refl;
        shrinks = λ k n. n;
        keeps = λ k r. push_if_keeps k _ _ _ (push_if_keeps k _ _ errors r);
      }
  check-Passes (move l) (initialized, errors) h =
      let (found, e) = get_elem?-some locals l h in
      record {
        after = (
          (if is_type_copyable found.ty then initialized else remove l initialized),
          push_if (is_borrowed (active_borrows l) block) (move_borrowed l)
              (check_initialized locals active_borrows block l (initialized, errors)),
        );
        passes = rw e refl;
        shrinks = λ k n. ground (arith, contains-remove l initialized k);
        keeps = λ k r. push_if_keeps k _ _ _ (push_if_keeps k _ _ errors r);
      }

  checks-Passes : (ops : List Operand) (c : Checked) → AreDeclared ops → Passes c (checks ops c)
  unfolding check_args
  checks-Passes [] c h = record { after = c; passes = refl; shrinks = λ k n. n; keeps = λ k r. r }
  checks-Passes (op ∷ ops) c h = Passes-bind (check-Passes op c h.0) (λ r. checks-Passes ops r h.1)

  checks-append :
      (xs ys : List Operand) (c : Checked) → checks (xs ++ ys) c ≡ (checks xs c >>= checks ys)
  unfolding check_args
  checks-append [] ys c = refl
  checks-append (x ∷ xs) ys c = elim (Option-cases (check x c)) [
    | inl panics ↦ rw panics refl
    | inr (d, e) ↦ rw e (checks-append xs ys d)
  ]

  -- After a move of a local whose type is not copyable, it is not initialized.
  move_lem :
      (l : Local) (found : LocalData) (c d : Checked)
      → get_elem? locals l ≡ some found
      → is_type_copyable found.ty ≡ false
      → check (move l) c ≡ some d
      → contains d.0 l ≡ false
  unfolding check_operand
  move_lem l found (initialized, errors) d e n h =
      let q = rw e at (ap (λ o. contains (initialized_of o) l) h) in
      ground (arith, q, contains-remove l initialized l, n)

  first_report :
      (l : Local) (initialized : List Local) (errors : List CheckError)
      → contains initialized l ≡ false
      → reported l (check_initialized locals active_borrows block l (initialized, errors)) ≡ true
  unfolding reported
  first_report l initialized errors n =
      ground (arith, n, reported-append l errors (use_uninitialized l ∷ []))

  -- A read of a local that is not initialized is reported.
  read_lem :
      (l : Local) (op : Operand) (c d : Checked)
      → Reads l op
      → contains c.0 l ≡ false
      → check op c ≡ some d
      → reported l d.1 ≡ true
  unfolding check_operand
  read_lem l _ (initialized, errors) d by_copy n h = elim (Option-cases (get_elem? locals l)) [
    | inl missing ↦ absurd (let q = rw missing at h in ground arith)
    | inr (found, e) ↦
        let q = rw e at (ap (λ o. reported l (errors_of o)) h) in
        rw (← q) (push_if_keeps l _ _ _ (first_report l initialized errors n))
  ]
  read_lem l _ (initialized, errors) d by_move n h = elim (Option-cases (get_elem? locals l)) [
    | inl missing ↦ absurd (let q = rw missing at h in ground arith)
    | inr (found, e) ↦
        let q = rw e at (ap (λ o. reported l (errors_of o)) h) in
        rw (← q) (push_if_keeps l _ _ _ (first_report l initialized errors n))
  ]

  -- The arguments of a call are all checked, without a panic, where the body declares their locals.
  -- Where one of them moves a local whose type is not copyable and a later one reads the local, the
  -- use of a moved local is among the errors, whatever was initialized and reported before.
  pub check_args-Reads :
      (l : Local) (found : LocalData) (before between rest : List Operand) (op : Operand)
      (c : Checked)
      → get_elem? locals l ≡ some found
      → is_type_copyable found.ty ≡ false
      → AreDeclared before
      → IsDeclared (move l)
      → AreDeclared between
      → IsDeclared op
      → AreDeclared rest
      → Reads l op
      → (d : Checked) × (check_args locals active_borrows block
            (before ++ (move l ∷ (between ++ (op ∷ rest))))
            c
          ≡ some d)
        × (reported l d.1 ≡ true)
  unfolding check_args
  check_args-Reads l found before between rest op c e n p q r s t read =
      let p1 = checks-Passes before c p in
      let p2 = check-Passes (move l) p1.after q in
      let p3 = checks-Passes between p2.after r in
      let p4 = check-Passes op p3.after s in
      let p5 = checks-Passes rest p4.after t in
      let gone = p3.shrinks l (move_lem l found p1.after p2.after e n p2.passes) in
      (
        p5.after,
        rw
            (
              checks-append before (move l ∷ (between ++ (op ∷ rest))) c,
              p1.passes,
              p2.passes,
              checks-append between (op ∷ rest) p2.after,
              p3.passes,
              p4.passes,
            )
            p5.passes,
        p5.keeps l (read_lem l op p3.after p4.after read gone p4.passes),
      )
