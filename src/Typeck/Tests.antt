-- ===== src/Typeck/Tests.antt =====
-- Runs of the type checker, and the theorems at inputs that meet their hypotheses.
use native.Mathlib.Decide.{ℕ_discrete}
use izel.Prelude.{
  ℕ, ◌≤◌, ◌≡◌, ◌≢◌, refl, arith, Bool, true, false, Option, none, some, [], ◌∷◌, codes,
  if◌then◌else◌, ◌↔◌, ◌⊎◌, text_eq, contains, ◌&&◌,
}
use izel.Typeck.{
  witness, Ty, prim, cascade, optional, function, var, param, tys, no_tys, i32, concrete, row,
  effect_var, io, net, pure, Effect, Scheme,
}
use izel.Typeck.State.{
  Map, get, TypeChecker, scheme_of, define_scheme, resolve_scheme, push_scope, pop_scope, and_then,
  answer,
}
use izel.Typeck.Prune.{
  prune, occurs_check_and_adjust_levels, chase, check_and_adjust, check_parts, prune_effects, steps,
}
use izel.Typeck.Effects.{unify_effects, has, has_effect, effect_eq, unify_effect_heads}
use izel.Typeck.Schemes.{generalize, instantiate, find_in_parts, substitute_row}
use izel.Typeck.Terms.{IsRoot}
use izel.Typeck.TyTerms.{ty_terms, resolve, occurs_ty, size_ty, prune_lem, replace_ty}
use izel.Typeck.EffectTerms.{resolve_effects, size_effects}
use izel.Typeck.Plain.{IsPlain}
use izel.Typeck.Occurs.{occurs_check_lem, refuse_or_bind}
use izel.Typeck.EffectsEnd.{Settles, unify_effects-Settles}
use izel.Typeck.Covers.{IsEmptyOrPure, unify_effects-concrete_iff}
use izel.Typeck.Scopes.{define_scheme-resolve_scheme}
use izel.Typeck.Ends.{IsSound, After}
use izel.Typeck.Unify.{unify, same_length, unify_pruned, unify_zip}
use izel.Typeck.UnifyEnds.{unify_returns, unify_sound}
use izel.Typeck.Instance.{IsUnbound, instantiate_lem}
use izel.Typeck.Generalize.{generalize_lem}
use izel.Typeck.Standing.{has_witness}
use izel.Typeck.Quantified.{is_deeper}
use izel.Typeck.HasEffect.{holds, has_effect-holds}
use izel.Typeck.Coercion.{Coerces}
use izel.Typeck.State.{is_proof_mode}

-- Variable 0 is bound to `?1`, an optional of the variable 1.
abbrev start : TypeChecker
start = record {
  substitutions = (0, optional (var 1)) ∷ [];
  effect_substitutions = [];
  env = [] ∷ [];
  overload_env = [];
  current_level = 1;
  var_levels = (2, 2) ∷ (1, 1) ∷ (0, 1) ∷ [];
  effect_var_levels = (0, 1) ∷ [];
  next_var = 3;
  next_effect_var = 1;
  trait_impls = [];
  current_attributes = [];
  in_raw_block = false;
  current_self = none;
}

abbrev substitutions_after : Option (Bool × TypeChecker) → Option (Bool × Map Ty)
substitutions_after none = none
substitutions_after (some (b, s)) = some (b, s.substitutions)

abbrev left : Ty
left = function (tys (var 0) no_tys) (var 2) (concrete [])

abbrev right : Ty
right = function (tys (optional (prim i32)) no_tys) (optional (var 1)) (concrete [])

unify_functions :
    substitutions_after (unify 9 left right start)
    ≡ some (true, (2, optional (var 1)) ∷ (1, prim i32) ∷ (0, optional (var 1)) ∷ [])
unfolding unify unify_effects ℕ_discrete unify_pruned prune chase steps and_then answer same_length
    unify_zip occurs_check_and_adjust_levels check_and_adjust check_parts unify_effect_heads
    prune_effects
unify_functions = refl

unify_cycle :
    substitutions_after (unify 9 (var 1) (var 0) start) ≡ some (false, start.substitutions)
unfolding unify unify_pruned prune chase steps occurs_check_and_adjust_levels and_then
    check_and_adjust check_parts
unify_cycle = refl

-- A named parameter does not unify with itself.
unify_param : unify 9 (param (codes "T")) (param (codes "T")) start ≡ some (false, start)
unfolding unify unify_pruned prune chase steps answer
unify_param = refl

generalize-start : generalize 9 start left ≡ some (scheme_of (2 ∷ []) [] [] left)
unfolding generalize prune find_in_parts chase steps prune_effects
generalize-start = refl

abbrev two_bound : TypeChecker
two_bound = record start { substitutions = (0, optional (var 2)) ∷ [] }

-- `generalize` follows the binding of the variable 0 to the variable 2 and quantifies that.
generalize-two_bound :
    generalize 9 two_bound (cascade (var 0)) ≡ some (scheme_of (2 ∷ []) [] [] (cascade (var 0)))
unfolding generalize prune find_in_parts chase steps prune_effects
generalize-two_bound = refl

-- `instantiate` does not follow it, and gives back the variable 0, whose binding still has the variable 2.
instantiate-two_bound :
    (instantiate 9 (scheme_of (2 ∷ []) [] [] (cascade (var 0))) two_bound).0 ≡ cascade (var 0)
unfolding instantiate
instantiate-two_bound = refl

instantiate-start :
    (instantiate 9 (scheme_of (2 ∷ []) [] [] left) start).0
    ≡ function (tys (var 0) no_tys) (var 3) (concrete [])
unfolding instantiate prune substitute_row prune_effects chase steps
instantiate-start = refl

start-IsSound : IsSound start
unfolding get occurs_ty IsPlain
start-IsSound = record {
  acyclic = (tt, refl, refl);
  effects_acyclic = tt;
  plain = (omega arith, omega arith, tt);
}

unify_returns_example :
    (enough : ℕ) × (b : Bool) × (s' : TypeChecker) × ((fuel : ℕ)
      → enough ≤ fuel
      → unify fuel left right start ≡ some (b, s'))
    × After start s'
unfolding IsPlain
unify_returns_example =
    unify_returns start left right start-IsSound (((omega arith), tt), omega arith)
      ((tt, tt), omega arith)

unify_sound_example :
    (enough : ℕ) × (b : Bool) × (s' : TypeChecker) × ((fuel : ℕ)
      → enough ≤ fuel
      → unify fuel left right start ≡ some (b, s'))
    × (b ≡ true
        → Coerces
            (is_proof_mode start)
            (resolve s'.substitutions left)
            (resolve s'.substitutions right))
unfolding IsPlain
unify_sound_example =
    unify_sound start left right start-IsSound (((omega arith), tt), omega arith)
      ((tt, tt), omega arith)

prune_lem_example :
    IsRoot ty_terms start.substitutions (prune start.substitutions (var 0))
    × (resolve start.substitutions (prune start.substitutions (var 0))
        ≡ resolve start.substitutions (var 0))
prune_lem_example = prune_lem start.substitutions (var 0) start-IsSound.acyclic

occurs_check_lem_example :
    (ls : Map ℕ) × (occurs_check_and_adjust_levels 9 1 (var 0) start
      ≡ refuse_or_bind
          (occurs_ty 1 (resolve start.substitutions (var 0)))
          1
          (var 0)
          (record start { var_levels = ls }))
unfolding resolve size_ty replace_ty
occurs_check_lem_example = occurs_check_lem 9 1 (var 0) start start-IsSound.acyclic (omega arith)

unify_effects-Settles_example :
    Settles 9 start
      (λ fuel. unify_effects fuel (row (io ∷ []) (effect_var 0)) (concrete (net ∷ io ∷ [])))
unfolding resolve_effects size_effects
unify_effects-Settles_example =
    unify_effects-Settles 9 (row (io ∷ []) (effect_var 0)) (concrete (net ∷ io ∷ [])) start
      start-IsSound.effects_acyclic (omega arith)

unify_effects-concrete_iff_example :
    (b : Bool) × (unify_effects 1 (concrete (io ∷ pure ∷ [])) (concrete (net ∷ io ∷ [])) start
      ≡ some (b, start))
    × ((b ≡ true) ↔ (
        (IsEmptyOrPure (io ∷ pure ∷ []) × IsEmptyOrPure (net ∷ io ∷ []))
        ⊎ ((e : Effect) → e ≢ pure → has (io ∷ pure ∷ []) e ≡ true → has (net ∷ io ∷ []) e ≡ true)))
unify_effects-concrete_iff_example =
    unify_effects-concrete_iff 0 (io ∷ pure ∷ []) (net ∷ io ∷ []) start

abbrev x_scheme : Scheme
x_scheme = scheme_of [] [] [] (prim i32)

define_scheme-resolve_scheme_example :
    (resolve_scheme (codes "y") (define_scheme (codes "x") x_scheme start) ≡ (
      if text_eq (codes "x") (codes "y") then some x_scheme else resolve_scheme (codes "y") start))
    × (pop_scope (define_scheme (codes "x") x_scheme (push_scope start)) ≡ start)
define_scheme-resolve_scheme_example =
    define_scheme-resolve_scheme (codes "x") (codes "y") x_scheme start (λ e. cc)

-- `pure` hides every other effect of its set.
pure_hides : unify_effects 1 (concrete (io ∷ pure ∷ [])) (concrete []) start ≡ some (true, start)
unfolding unify_effects effect_eq has ℕ_discrete unify_effect_heads prune_effects chase steps
pure_hides = refl

grows : has_effect 9 (effect_var 0) io start ≡ some false
unfolding has_effect prune_effects chase steps
grows = refl

has_effect-holds_example :
    has_effect 9 (row (net ∷ []) (concrete (io ∷ []))) io start
    ≡ some (holds (resolve_effects [] (row (net ∷ []) (concrete (io ∷ [])))) io)
unfolding resolve_effects size_effects
has_effect-holds_example =
    has_effect-holds 9 (row (net ∷ []) (concrete (io ∷ []))) io start start-IsSound.effects_acyclic
      (omega arith)

generalize_lem_example :
    (n : ℕ) × (scheme : Scheme) × ((fuel : ℕ) → n ≤ fuel → generalize fuel start left ≡ some scheme)
    × ((id : ℕ)
        → contains scheme.vars id
          ≡ (occurs_ty id (resolve start.substitutions left) && is_deeper start id))
    × (scheme.ty ≡ left)
unfolding has_witness resolve replace_ty
generalize_lem_example =
    generalize_lem left start start-IsSound.acyclic start-IsSound.effects_acyclic refl

abbrev polymorphic : Ty
polymorphic = function (tys (var 1) no_tys) (var 2) (concrete [])

polymorphic-IsUnbound : IsUnbound start.substitutions polymorphic
unfolding get occurs_ty
polymorphic-IsUnbound k there = ground arith

unmade_unbound : (k : ℕ) → start.next_var ≤ k → get start.substitutions k ≡ none
unfolding get
unmade_unbound k unmade = ground arith

instantiate_lem_example :
    (start.next_var ≤ 3) ⊎ ((contains (2 ∷ []) 3 ≡ false) × (occurs_ty 3 polymorphic ≡ true))
unfolding instantiate occurs_ty has_witness resolve replace_ty
instantiate_lem_example =
    instantiate_lem 9 (scheme_of (2 ∷ []) [] [] polymorphic) start 3 refl polymorphic-IsUnbound
      unmade_unbound refl

-- A variable in a witness is not quantified.
witness_unquantified :
    generalize 9 start (witness (var 2)) ≡ some (scheme_of [] [] [] (witness (var 2)))
unfolding generalize prune find_in_parts chase steps prune_effects
witness_unquantified = refl
