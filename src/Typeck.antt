-- ===== src/Typeck.antt =====
-- crates/izel_typeck/src/type_system.rs: the types of the type checker, which MIR locals carry,
-- and their equality.
pub mod State
pub mod Prune
pub mod Effects
pub mod Schemes
pub mod SchemeFuel
pub mod Lifetimes
pub mod Lower
pub mod Unify
pub mod Terms
pub mod TyTerms
pub mod TyResolve
pub mod Occurs
pub mod EffectTerms
pub mod EffectWalks
pub mod EffectsEnd
pub mod Plain
pub mod Coercion
pub mod Scopes
pub mod Covers
pub mod HasEffect
pub mod Standing
pub mod Quantified
pub mod Generalize
pub mod NewVars
pub mod Instance
pub mod Ends
pub mod EndsLists
pub mod UnifyArms
pub mod UnifyEnds
mod Tests
use native.Mathlib.Decide.{ℕ_discrete}
use izel.Prelude.{ℕ, Bool, true, false, Option, List, Text, ◌≡◌}
use izel.Ast

-- `DefId(usize)` of crates/izel_resolve
abbrev pub DefId : Type 0
DefId = ℕ

pub data BuiltinWitness : Type 0 where
  non_zero in_bounds sorted : BuiltinWitness

pub data Lifetime : Type 0 where
  static_lifetime : Lifetime
  param_lifetime : Text → Lifetime
  anonymous : ℕ → Lifetime

pub data PrimType : Type 0 where
  i8 i16 i32 i64 i128 u8 u16 u32 u64 u128 f32 f64 : PrimType
  bool str void none never zone_allocator : PrimType

pub data Effect : Type 0 where
  io net alloc panic unsafe time rand env ffi thread mut pure : Effect
  user : Text → Effect

pub data EffectSet : Type 0 where
  concrete : List Effect → EffectSet
  effect_var : ℕ → EffectSet
  row : List Effect → EffectSet → EffectSet
  effect_param : Text → EffectSet

mutual
  pub data Ty : Type 0 where
    prim : PrimType → Ty
    adt : DefId → Ty
    optional : Ty → Ty
    cascade : Ty → Ty
    pointer : Ty → Bool → Lifetime → Ty
    function : Tys → Ty → EffectSet → Ty
    var : ℕ → Ty
    param : Text → Ty
    static : NamedTys → Ty
    assoc : Ty → Text → Ty
    witness : Ty → Ty
    builtin_witness : BuiltinWitness → Ty → Ty
    predicate : Ast.Expr → Ty
    error : Ty

  pub data Tys : Type 0 where
    no_tys : Tys
    tys : Ty → Tys → Tys

  pub data NamedTys : Type 0 where
    no_named : NamedTys
    named : Text → Ty → NamedTys → NamedTys

-- `==` of the derived `PartialEq`
unfoldable pub Ty-discrete : Discrete Ty
unfolding ℕ_discrete
Ty-discrete = hlevel (ℕ_discrete)

unfoldable pub Lifetime-discrete : Discrete Lifetime
unfolding ℕ_discrete
Lifetime-discrete = hlevel (ℕ_discrete)

unfoldable pub Effect-discrete : Discrete Effect
unfolding ℕ_discrete
Effect-discrete = hlevel (ℕ_discrete)

unfoldable pub effects-discrete : Discrete (List Effect)
unfolding ℕ_discrete
effects-discrete = hlevel (ℕ_discrete)

unfoldable pub PrimType-discrete : Discrete PrimType
PrimType-discrete = hlevel

unfoldable pub BuiltinWitness-discrete : Discrete BuiltinWitness
BuiltinWitness-discrete = hlevel

abbrev pub is_yes {ℓ} : {A : Type ℓ} → Dec A → Bool
is_yes (yes _) = true
is_yes (no _) = false

pub is_yes_true {ℓ} : {A : Type ℓ} (d : Dec A) → is_yes d ≡ true → A
is_yes_true (yes a) h = a
is_yes_true (no _) h = cc

pub data Visibility : Type 0 where
  hidden open_to_all pkg : Visibility
  pkg_path : List Text → Visibility

pub record Scheme : Type 0 where
  pub vars : List ℕ
  pub effect_vars : List ℕ
  pub names : List Text
  pub bounds : List (Text × Text)
  pub ty : Ty
  pub param_names : List Text
  pub requires : List Ast.Expr
  pub ensures : List Ast.Expr
  pub intrinsic : Option Text
  pub visibility : Visibility
