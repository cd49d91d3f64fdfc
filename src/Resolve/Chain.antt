-- ===== src/Resolve/Chain.antt =====
-- crates/izel_resolve/src/lib.rs: a name is that of the nearest scope that has it.
use izel.Prelude.{
  ℕ, zero, suc, ◌<◌, ◌≡◌, refl, arith, inl, inr, Option, Option-cases, none, some, List, [], ◌∷◌,
  get_elem?, Text,
}
use izel.Resolve.{ScopeId, Symbol, Scope, Store, get, resolve_from, resolve}

-- The scopes from one to the root.
pub data Chain (store : Store) : ScopeId → List Scope → Type 0 where
  root :
      (id : ScopeId) (s : Scope)
      → get_elem? store id ≡ some s
      → s.parent ≡ none
      → Chain store id (s ∷ [])
  child :
      (id up : ScopeId) (s : Scope) (rest : List Scope)
      → get_elem? store id ≡ some s
      → s.parent ≡ some up
      → up < id
      → Chain store up rest
      → Chain store id (s ∷ rest)

-- The symbol of the first, or of the second.
abbrev pub first_of : Option Symbol → Option Symbol → Option Symbol
first_of (some s) o = some s
first_of none o = o

-- The nearest scope that has the name.
unfoldable pub nearest : List Scope → Text → Option Symbol
nearest [] name = none
nearest (s ∷ rest) name = first_of (get s.symbols name) (nearest rest name)

resolve_from-nearest :
    (fuel : ℕ) (store : Store) (id : ScopeId) (scopes : List Scope) (name : Text)
    → Chain store id scopes
    → id < fuel
    → resolve_from fuel store id name ≡ some (nearest scopes name)
unfolding resolve_from nearest
resolve_from-nearest zero store id scopes name c h = absurd (omega (arith, h))
resolve_from-nearest (suc fuel) store id _ name (root _ s e up) h =
    elim (Option-cases (get s.symbols name)) [
      | inl absent ↦ rw (e, absent, up) refl
      | inr (symbol, found) ↦ rw (e, found) refl
    ]
resolve_from-nearest (suc fuel) store id _ name (child _ up s rest e p lt c) h =
    elim (Option-cases (get s.symbols name)) [
      | inl absent ↦
          rw (e, absent, p) (resolve_from-nearest fuel store up rest name c (omega (arith, lt, h)))
      | inr (symbol, found) ↦ rw (e, found) refl
    ]

-- A name is resolved, from any scope whose parents lead to a root, to the symbol of the nearest scope
-- that has it, and to none where no scope has it: inner names hide outer ones, and the search ends.
pub resolve-nearest :
    (store : Store) (id : ScopeId) (scopes : List Scope) (name : Text)
    → Chain store id scopes
    → resolve store id name ≡ some (nearest scopes name)
unfolding resolve
resolve-nearest store id scopes name c =
    resolve_from-nearest (suc id) store id scopes name c (omega arith)
