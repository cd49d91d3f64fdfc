-- ===== src/Typeck/Lifetimes.antt =====
-- crates/izel_typeck/src/lib.rs: the elision of lifetimes. A type that the code changes in place is
-- returned. The walks take fuel for their depth.
use izel.Prelude.{ℕ, zero, suc, Option, none, some, List, [], ◌∷◌, ◌++◌, ◌>>=◌}
use izel.Typeck.{
  Ty, optional, cascade, pointer, function, var, builtin_witness, Tys, no_tys, tys, Lifetime,
  anonymous,
}
use izel.Typeck.State.{get, TypeChecker, M}
use izel.Typeck.Prune.{prune}

abbrev Collect : Type 0
Collect = List Lifetime → Option (List Lifetime)

unfoldable pub collect_from : (Ty → Collect) → Tys → Collect
collect_from walk no_tys ls = some ls
collect_from walk (tys t ts) ls = walk t ls >>= collect_from walk ts

unfoldable pub collect_in_parts : (Ty → Collect) → Ty → Collect
unfolding collect_from
collect_in_parts walk (pointer _ _ l) ls = some (ls ++ l ∷ [])
collect_in_parts walk (optional inner) ls = walk inner ls
collect_in_parts walk (cascade inner) ls = walk inner ls
collect_in_parts walk (builtin_witness _ inner) ls = walk inner ls
collect_in_parts walk (function params ret _) ls = collect_from walk params ls >>= walk ret
collect_in_parts walk _ ls = some ls

unfoldable pub collect_lifetimes : ℕ → TypeChecker → Ty → Collect
collect_lifetimes zero s t ls = none
collect_lifetimes (suc fuel) s t ls =
    collect_in_parts (collect_lifetimes fuel s) (prune s.substitutions t) ls

abbrev elided : Lifetime → Lifetime → Lifetime
elided (anonymous zero) l = l
elided old l = old

-- `for p in params { self.replace_elided_lifetimes(p, lifetime) }`
unfoldable pub replace_each : (Ty → M Ty) → Tys → M Tys
replace_each walk no_tys s = some (no_tys, s)
replace_each walk (tys t ts) s =
    walk t s >>= λ r. replace_each walk ts r.1 >>= λ rs. some (tys r.0 rs.0, rs.1)

abbrev keep : (Ty → Ty) → Option (Ty × TypeChecker) → Option (Ty × TypeChecker)
keep f o = o >>= λ r. some (f r.0, r.1)

unfoldable pub replace_bound : (Ty → M Ty) → ℕ → Option Ty → M Ty
replace_bound walk id none s = some (var id, s)
replace_bound walk id (some bound) s = walk bound s >>= λ r.
    some (var id, record r.1 { substitutions = (id, r.0) ∷ r.1.substitutions })

unfoldable pub replace_in_parts : (Ty → M Ty) → Lifetime → Ty → M Ty
unfolding replace_each replace_bound get
replace_in_parts walk l (var id) s = replace_bound walk id (get s.substitutions id) s
replace_in_parts walk l (pointer inner is_mut old) s =
    keep (λ t. pointer t is_mut (elided old l)) (walk inner s)
replace_in_parts walk l (optional inner) s = keep optional (walk inner s)
replace_in_parts walk l (cascade inner) s = keep cascade (walk inner s)
replace_in_parts walk l (builtin_witness kind inner) s = keep (builtin_witness kind) (walk inner s)
replace_in_parts walk l (function params ret effects) s = replace_each walk params s >>= λ ps.
    walk ret ps.1 >>= λ r. some (function ps.0 r.0 effects, r.1)
replace_in_parts walk l t s = some (t, s)

unfoldable pub replace_elided_lifetimes : ℕ → Lifetime → Ty → M Ty
replace_elided_lifetimes zero l t s = none
replace_elided_lifetimes (suc fuel) l t s = replace_in_parts (replace_elided_lifetimes fuel l) l t s

-- The lifetime that the result takes: the only one of the parameters, or that of a pointer in front.
abbrev elided_lifetime : List Lifetime → Tys → Option Lifetime
elided_lifetime (l ∷ []) params = some l
elided_lifetime ls (tys (pointer _ _ l) _) = some l
elided_lifetime ls params = none

abbrev replace_by : ℕ → Option Lifetime → Ty → M Ty
replace_by fuel none ret s = some (ret, s)
replace_by fuel (some l) ret s = replace_elided_lifetimes fuel l ret s

unfoldable pub apply_lifetime_elision : ℕ → Tys → Ty → M Ty
unfolding collect_from collect_lifetimes replace_elided_lifetimes
apply_lifetime_elision fuel params ret s =
    collect_from (collect_lifetimes fuel s) params [] >>= λ ls.
    replace_by fuel (elided_lifetime ls params) ret s
