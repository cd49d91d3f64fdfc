-- ===== src/Typeck/NewVars.antt =====
-- crates/izel_typeck/src/lib.rs: the variables that `instantiate` makes.
use izel.Prelude.{
  some_inj, none_some, ℕ, ◌≤◌, ◌≡◌, refl, sym, ◌∙◌, arith, false, none, some, List, [], ◌∷◌, ◌==◌,
  contains, Bool-cases, inl, inr, Text, text_eq,
}
use izel.Typeck.{Ty, var, EffectSet, Scheme}
use izel.Typeck.State.{Map, get, find, TypeChecker}
use izel.Typeck.Schemes.{map_vars, map_effect_vars, map_names, instantiate}

-- A variable that was made from `b` on.
abbrev pub IsNew : ℕ → Ty → Type 0
IsNew b t = (k : ℕ) × (t ≡ var k) × (b ≤ k)

abbrev pub NewIn : ℕ → Map Ty → Type 0
NewIn b m = (v : ℕ) (t : Ty) → get m v ≡ some t → IsNew b t

abbrev pub NewNames : ℕ → List (Text × Ty) → Type 0
NewNames b m = (name : Text) (t : Ty) → find m name ≡ some t → IsNew b t

new_entry : (b n : ℕ) (v : ℕ) (m : Map Ty) → b ≤ n → NewIn b m → NewIn b ((v, var n) ∷ m)
unfolding get
new_entry b n v m le f w t e = elim (Bool-cases (v == w)) [
  | inl same ↦ (n, sym (some_inj (rw same at e)), le)
  | inr other ↦ f w t (rw other at e)
]

new_name :
    (b n : ℕ) (v : Text) (m : List (Text × Ty)) → b ≤ n → NewNames b m → NewNames b ((v, var n) ∷ m)
unfolding find
new_name b n v m le f w t e = elim (Bool-cases (text_eq v w)) [
  | inl same ↦ (n, sym (some_inj (rw same at e)), le)
  | inr other ↦ f w t (rw other at e)
]

pub map_vars_lem :
    (b : ℕ) (vs : List ℕ) (s : TypeChecker) (m : Map Ty)
    → b ≤ s.next_var
    → NewIn b m
    → NewIn b (map_vars vs s m).0
      × (b ≤ (map_vars vs s m).1.next_var)
      × ((v : ℕ) → get (map_vars vs s m).0 v ≡ none → (contains vs v ≡ false) × (get m v ≡ none))
unfolding map_vars contains get
map_vars_lem b [] s m le f = (f, le, λ v e. (refl, e))
map_vars_lem b (v ∷ vs) s m le f =
    let (new, more, covers) =
      map_vars_lem b vs _ ((v, var s.next_var) ∷ m) (omega arith)
        (new_entry b s.next_var v m le f) in
    (
      new,
      more,
      λ w e.
          let (rest, entry) = covers w e in
          elim (Bool-cases (v == w)) [
            | inl same ↦ absurd (none_some (sym (rw same at entry)))
            | inr other ↦ (rw (other, rest) refl, rw other at entry)
          ],
    )

pub map_effect_vars_next :
    (vs : List ℕ) (s : TypeChecker) (m : Map EffectSet)
    → (map_effect_vars vs s m).1.next_var ≡ s.next_var
unfolding map_effect_vars
map_effect_vars_next [] s m = refl
map_effect_vars_next (v ∷ vs) s m = map_effect_vars_next vs _ _

pub map_names_lem :
    (b : ℕ) (vs : List Text) (s : TypeChecker) (m : List (Text × Ty))
    → b ≤ s.next_var
    → NewNames b m
    → NewNames b (map_names vs s m).0
unfolding map_names
map_names_lem b [] s m le f = f
map_names_lem b (v ∷ vs) s m le f =
    map_names_lem b vs _ _ (omega arith) (new_name b s.next_var v m le f)

map_vars-substitutions :
    (vs : List ℕ) (s : TypeChecker) (m : Map Ty)
    → (map_vars vs s m).1.substitutions ≡ s.substitutions
unfolding map_vars
map_vars-substitutions [] s m = refl
map_vars-substitutions (v ∷ vs) s m = map_vars-substitutions vs _ _

map_effect_vars-substitutions :
    (vs : List ℕ) (s : TypeChecker) (m : Map EffectSet)
    → (map_effect_vars vs s m).1.substitutions ≡ s.substitutions
unfolding map_effect_vars
map_effect_vars-substitutions [] s m = refl
map_effect_vars-substitutions (v ∷ vs) s m = map_effect_vars-substitutions vs _ _

map_names-substitutions :
    (vs : List Text) (s : TypeChecker) (m : List (Text × Ty))
    → (map_names vs s m).1.substitutions ≡ s.substitutions
unfolding map_names
map_names-substitutions [] s m = refl
map_names-substitutions (v ∷ vs) s m = map_names-substitutions vs _ _

pub instantiate-substitutions :
    (fuel : ℕ) (scheme : Scheme) (s : TypeChecker)
    → (instantiate fuel scheme s).1.substitutions ≡ s.substitutions
unfolding instantiate
instantiate-substitutions fuel scheme s =
    let r = map_vars scheme.vars s [] in
    let e = map_effect_vars scheme.effect_vars r.1 [] in
    map_names-substitutions scheme.names e.1 []
    ∙ map_effect_vars-substitutions scheme.effect_vars r.1 []
    ∙ map_vars-substitutions scheme.vars s []
