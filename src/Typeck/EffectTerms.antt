-- ===== src/Typeck/EffectTerms.antt =====
-- crates/izel_typeck/src/lib.rs: sets of effects as terms with variables, and their size.
use izel.Prelude.{
  ℕ, suc, ◌≡◌, ◌≢◌, refl, ap, arith, Bool, true, false, some, List, [], ◌∷◌, ◌==◌, if◌then◌else◌,
  Text,
}
use izel.Typeck.{Effect, EffectSet, concrete, effect_var, row, effect_param}
use izel.Typeck.State.{Map}
use izel.Typeck.Prune.{effect_set_var, steps, prune_effects}
use izel.Typeck.Terms.{Terms, apply, Acyclic, IsRoot, apply-chase, apply_unbound, chase-IsRoot}

unfoldable pub replace_effects : ℕ → EffectSet → EffectSet → EffectSet
replace_effects id u (effect_var k) = if k == id then u else effect_var k
replace_effects id u (row vals tail) = row vals (replace_effects id u tail)
replace_effects id u e = e

unfoldable pub occurs_effects : ℕ → EffectSet → Bool
occurs_effects id (effect_var k) = id == k
occurs_effects id (row _ tail) = occurs_effects id tail
occurs_effects id _ = false

unfoldable pub size_effects : EffectSet → ℕ
size_effects (row _ tail) = suc (size_effects tail)
size_effects _ = 1

pub effects_replace_at :
    (id : ℕ) (u e : EffectSet) → effect_set_var e ≡ some id → replace_effects id u e ≡ u
unfolding replace_effects
effects_replace_at id u (effect_var k) h = ground arith
effects_replace_at id u _ h = cc

pub effects_replace_other :
    (id k : ℕ) (u e : EffectSet) → effect_set_var e ≡ some k → id ≢ k → replace_effects id u e ≡ e
unfolding replace_effects
effects_replace_other id k u (effect_var j) h n = ground arith
effects_replace_other id k u _ h n = cc

pub effects_replace_fresh :
    (id : ℕ) (u e : EffectSet) → occurs_effects id e ≡ false → replace_effects id u e ≡ e
unfolding replace_effects occurs_effects
effects_replace_fresh id u (effect_var k) h = ground arith
effects_replace_fresh id u (row vals tail) h = ap (row vals) (effects_replace_fresh id u tail h)
effects_replace_fresh id u _ h = refl

pub effects_occurs_at :
    (id : ℕ) (e : EffectSet) → effect_set_var e ≡ some id → occurs_effects id e ≡ true
unfolding occurs_effects
effects_occurs_at id (effect_var k) h = ground arith
effects_occurs_at id _ h = cc

abbrev pub effect_terms : Terms
effect_terms = record {
  Term = EffectSet;
  var_of = effect_set_var;
  replace = replace_effects;
  occurs = occurs_effects;
  replace_at = effects_replace_at;
  replace_other = effects_replace_other;
  replace_fresh = effects_replace_fresh;
  occurs_at = effects_occurs_at;
}

-- A set of effects with every binding put in.
unfoldable pub resolve_effects : Map EffectSet → EffectSet → EffectSet
resolve_effects m e = apply effect_terms m e

pub resolve_effects-prune_effects :
    (m : Map EffectSet) (e : EffectSet)
    → Acyclic effect_terms m
    → resolve_effects m (prune_effects m e) ≡ resolve_effects m e
unfolding prune_effects resolve_effects
resolve_effects-prune_effects m e a = apply-chase effect_terms (steps m) m e a

pub prune_effects-IsRoot :
    (m : Map EffectSet) (e : EffectSet)
    → Acyclic effect_terms m
    → IsRoot effect_terms m (prune_effects m e)
unfolding prune_effects
prune_effects-IsRoot m e a = chase-IsRoot effect_terms m (steps m) e a (omega arith)

pub resolve_effects_root :
    (m : Map EffectSet) (k : ℕ)
    → IsRoot effect_terms m (effect_var k)
    → resolve_effects m (effect_var k) ≡ effect_var k
unfolding resolve_effects
resolve_effects_root m k root = apply_unbound effect_terms m k (effect_var k) refl (root k refl)

pub resolve_effects-row :
    (m : Map EffectSet) (vals : List Effect) (tail : EffectSet)
    → resolve_effects m (row vals tail) ≡ row vals (resolve_effects m tail)
unfolding resolve_effects replace_effects
resolve_effects-row [] vals tail = refl
resolve_effects-row ((id, u) ∷ m) vals tail = rw (resolve_effects-row m vals tail) refl

pub resolve_effects-concrete :
    (m : Map EffectSet) (v : List Effect) → resolve_effects m (concrete v) ≡ concrete v
unfolding resolve_effects replace_effects
resolve_effects-concrete [] v = refl
resolve_effects-concrete ((id, u) ∷ m) v = rw (resolve_effects-concrete m v) refl

pub resolve_effects-param :
    (m : Map EffectSet) (p : Text) → resolve_effects m (effect_param p) ≡ effect_param p
unfolding resolve_effects replace_effects
resolve_effects-param [] p = refl
resolve_effects-param ((id, u) ∷ m) p = rw (resolve_effects-param m p) refl
