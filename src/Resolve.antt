-- ===== src/Resolve.antt =====
-- crates/izel_resolve/src/lib.rs: `Symbol` and `Scope`. A scope is shared and is changed through a lock,
-- so the scopes stand in a store, and an `Arc<Scope>` is a place in it. A map is a list of entries, the
-- newest first. `none` is a run that does not end, or a place at which nothing stands.
pub mod Chain
pub mod Changes
mod Tests
use izel.Prelude.{
  ℕ, zero, suc, Bool, true, false, Option, none, some, List, [], ◌∷◌, ◌++◌, ◌==◌, if◌then◌else◌,
  ◌>>=◌, get_elem?, length, Text, text_eq,
}
use izel.Span.{Span}

-- `DefId(usize)`
abbrev pub DefId : Type 0
DefId = ℕ

-- A place in the store.
abbrev pub ScopeId : Type 0
ScopeId = ℕ

pub record Symbol : Type 0 where
  pub name : Text
  pub span : Span
  pub def_id : DefId
  pub is_module : Bool
  pub module_scope : Option ScopeId

abbrev pub Symbols : Type 0
Symbols = List (Text × Symbol)

pub record Scope : Type 0 where
  pub symbols : Symbols
  pub parent : Option ScopeId

abbrev pub Store : Type 0
Store = List Scope

-- `Arc::new(Scope::new(parent))`: the store with the scope, which stands at its end.
abbrev pub new : Option ScopeId → Store → Store
new parent store = store ++ (record { symbols = []; parent = parent } ∷ [])

-- `get` of a map
unfoldable pub get : Symbols → Text → Option Symbol
get [] name = none
get ((key, symbol) ∷ rest) name =
    let more = get rest name in if text_eq key name then some symbol else more

-- `insert` of a map
abbrev pub insert : Text → Symbol → Symbols → Symbols
insert name symbol symbols = (name, symbol) ∷ symbols

unfoldable pub set_symbols : ScopeId → Symbols → Store → Store
set_symbols id symbols [] = []
set_symbols zero symbols (s ∷ store) = record s { symbols = symbols } ∷ store
set_symbols (suc id) symbols (s ∷ store) = s ∷ set_symbols id symbols store

unfoldable pub put : ScopeId → Symbol → Store → Option Store
put id symbol store =
    get_elem? store id >>= λ s. some (set_symbols id (insert symbol.name symbol s.symbols) store)

unfoldable pub define : ScopeId → Text → Span → DefId → Store → Option Store
define id name span def_id =
    put id
      (record { name = name; span = span; def_id = def_id; is_module = false; module_scope = none })

unfoldable pub define_module : ScopeId → Text → Span → DefId → ScopeId → Store → Option Store
define_module id name span def_id scope = put id (record {
  name = name;
  span = span;
  def_id = def_id;
  is_module = true;
  module_scope = some scope;
})

-- What is found here, or else above.
abbrev or_above : Option Symbol → Option (Option Symbol) → Option (Option Symbol)
or_above (some symbol) above = some (some symbol)
or_above none above = above

abbrev at_parent : Option ScopeId → (ScopeId → Option (Option Symbol)) → Option (Option Symbol)
at_parent none search_at = some none
at_parent (some parent) search_at = search_at parent

-- With fuel for the scopes on the way to the root.
unfoldable pub resolve_from : ℕ → Store → ScopeId → Text → Option (Option Symbol)
resolve_from zero store id name = none
resolve_from (suc fuel) store id name = get_elem? store id >>= λ s.
    or_above (get s.symbols name)
      (at_parent s.parent (λ parent. resolve_from fuel store parent name))

-- A parent is made before its child, so that it stands further to the front.
unfoldable pub resolve : Store → ScopeId → Text → Option (Option Symbol)
resolve store id name = resolve_from (suc id) store id name

unfoldable pub resolve_local : Store → ScopeId → Text → Option (Option Symbol)
resolve_local store id name = get_elem? store id >>= λ s. some (get s.symbols name)

abbrev missing : Option Symbol → Bool
missing none = true
missing (some _) = false

-- The loop of `merge_scope` over the entries of the other scope.
unfoldable pub merge : Symbols → Symbols → Symbols
merge [] symbols = symbols
merge ((name, symbol) ∷ rest) symbols =
    merge rest (if missing (get symbols name) then insert name symbol symbols else symbols)

-- A scope that is merged with itself waits for its own lock.
unfoldable pub merge_scope : ScopeId → ScopeId → Store → Option Store
merge_scope id other store = get_elem? store id >>= λ s. get_elem? store other >>= λ o.
    (if id == other then none else some (set_symbols id (merge o.symbols s.symbols) store))
