-- ===== src/Borrow/Check.antt =====
-- crates/izel_borrow/src/lib.rs: `check_operand`, `check_rvalue` and the checks of the arguments of a
-- call in `check_all`. The set of initialized locals is a list; a message of the checker is a
-- constructor with the local that it names. `none` is a panic, at a local that the body does not declare.
use izel.Prelude.{
  Bool, true, false, not, ◌||◌, Option, none, some, List, [], ◌∷◌, ◌++◌, ◌==◌, if◌then◌else◌, ◌>>=◌,
  contains, get_elem?,
}
use izel.Typeck.{Ty, prim, pointer, error}
use izel.Mir.{
  BlockId, Local, LocalData, Operand, copy, move, Rvalue, use_operand, binary, unary, ref,
}

pub record ActiveBorrow : Type 0 where
  pub local : Local
  pub is_mut : Bool
  pub region : List BlockId

pub data CheckError : Type 0 where
  use_uninitialized : Local → CheckError
  move_borrowed : Local → CheckError
  copy_non_copyable : Local → CheckError
  borrow_uninitialized : Local → CheckError

-- The set of initialized locals, and the errors in the order of their report.
abbrev pub Checked : Type 0
Checked = List Local × List CheckError

unfoldable pub is_type_copyable : Ty → Bool
is_type_copyable (prim _) = true
is_type_copyable (pointer _ is_mut _) = not is_mut
is_type_copyable error = true
is_type_copyable _ = false

unfoldable pub remove : Local → List Local → List Local
remove l [] = []
remove l (k ∷ ks) = let rest = remove l ks in if k == l then rest else k ∷ rest

abbrev pub push_if : Bool → CheckError → List CheckError → List CheckError
push_if wrong e errors = if wrong then errors ++ e ∷ [] else errors

-- `borrows.iter().any(|b| b.region.contains(&block))`
unfoldable pub any_in_region : List ActiveBorrow → BlockId → Bool
any_in_region [] block = false
any_in_region (b ∷ bs) block = contains b.region block || any_in_region bs block

abbrev pub is_borrowed : Option (List ActiveBorrow) → BlockId → Bool
is_borrowed none block = false
is_borrowed (some bs) block = any_in_region bs block

module _ (locals : List LocalData) (active_borrows : Local → Option (List ActiveBorrow))
    (block : BlockId) where
  abbrev pub check_initialized : Local → Checked → List CheckError
  check_initialized l (initialized, errors) =
      push_if (not (contains initialized l)) (use_uninitialized l) errors

  unfoldable pub check_operand : Operand → Checked → Option Checked
  check_operand (move l) (initialized, errors) = get_elem? locals l >>= λ found. some (
    (if is_type_copyable found.ty then initialized else remove l initialized),
    push_if (is_borrowed (active_borrows l) block) (move_borrowed l)
        (check_initialized l (initialized, errors)),
  )
  check_operand (copy l) (initialized, errors) = get_elem? locals l >>= λ found. some (
    initialized,
    push_if (not (is_type_copyable found.ty)) (copy_non_copyable l)
        (check_initialized l (initialized, errors)),
  )
  check_operand _ checked = some checked

  -- The borrow of an uninitialized local looks its name up, and no other does.
  abbrev check_ref : Local → Checked → Option Checked
  check_ref l (initialized, errors) =
      if contains initialized l
      then some (initialized, errors)
      else get_elem? locals l >>= λ found. some (initialized, errors ++ borrow_uninitialized l ∷ [])

  unfoldable pub check_rvalue : Rvalue → Checked → Option Checked
  check_rvalue (use_operand op) checked = check_operand op checked
  check_rvalue (binary _ l r) checked = check_operand l checked >>= check_operand r
  check_rvalue (unary _ op) checked = check_operand op checked
  check_rvalue (ref l _) checked = check_ref l checked

  -- `for arg in args { self.check_operand(arg, …) }`
  unfoldable pub check_args : List Operand → Checked → Option Checked
  check_args [] checked = some checked
  check_args (arg ∷ args) checked = check_operand arg checked >>= check_args args
