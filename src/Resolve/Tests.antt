-- ===== src/Resolve/Tests.antt =====
-- Scopes on concrete names.
use izel.Prelude.{ℕ, false, ◌≡◌, refl, some, none, [], ◌∷◌, Text, codes, text_eq, arith}
use izel.Span.{dummy}
use izel.Resolve
use izel.Resolve.{Symbol, Scope, ScopeId, Store, get, define, resolve, merge_scope, resolve_local}
use izel.Resolve.Chain
use izel.Resolve.Chain.{root, child, nearest, first_of, resolve-nearest}
use izel.Resolve.Changes.{define-resolve, merge_scope-resolve_local}

abbrev symbol : Text → ℕ → Symbol
symbol name id = record {
  name = name;
  span = dummy;
  def_id = id;
  is_module = false;
  module_scope = none;
}

abbrev outer : Scope
outer = record {
  symbols = (codes "x", symbol (codes "x") 0) ∷ (codes "y", symbol (codes "y") 1) ∷ [];
  parent = none;
}

abbrev inner : Scope
inner = record { symbols = (codes "x", symbol (codes "x") 2) ∷ []; parent = some 0 }

abbrev store : Store
store = outer ∷ inner ∷ []

-- The inner `x` hides the outer one.
inner_x : nearest (inner ∷ outer ∷ []) (codes "x") ≡ some (symbol (codes "x") 2)
unfolding Chain.nearest Resolve.get text_eq
inner_x = refl

resolve-nearest_example :
    resolve store 1 (codes "y") ≡ some (nearest (inner ∷ outer ∷ []) (codes "y"))
resolve-nearest_example =
    resolve-nearest store 1 (inner ∷ outer ∷ []) (codes "y")
      (child 1 0 inner (outer ∷ []) refl refl (omega arith) (root 0 outer refl refl))

define-resolve_example :
    (after : Store) × (define 1 (codes "y") dummy 7 store ≡ some after)
    × (resolve after 1 (codes "y") ≡ some (some (symbol (codes "y") 7)))
define-resolve_example = define-resolve 1 (codes "y") dummy 7 store inner refl

merge_scope-resolve_local_example :
    (after : Store) × (merge_scope 1 0 store ≡ some after)
    × ((name : Text)
        → resolve_local after 1 name
          ≡ some (first_of (get inner.symbols name) (get outer.symbols name)))
    × ((name : Text) → resolve_local after 0 name ≡ resolve_local store 0 name)
merge_scope-resolve_local_example = merge_scope-resolve_local 1 0 store inner outer refl refl refl
