-- ===== src/Resolve/Changes.antt =====
-- crates/izel_resolve/src/lib.rs: what `define` and `merge_scope` do to the names of a scope.
use izel.Prelude.{
  zero, suc, ◌≡◌, refl, ap, sym, ◌∙◌, arith, true, false, Bool-cases, inl, inr, Option-cases, none,
  some, [], ◌∷◌, ◌==◌, ◌>>=◌, get_elem?, Text, text_eq, text_eq_iff,
}
use izel.Span.{Span}
use izel.Resolve.{
  ScopeId, DefId, Symbol, Symbols, Scope, Store, get, insert, merge, resolve_from, resolve,
  set_symbols, put, define, merge_scope, resolve_local,
}
use izel.Resolve.Chain.{first_of}

get_elem?-set_symbols :
    (id : ScopeId) (symbols : Symbols) (store : Store) (s : Scope)
    → get_elem? store id ≡ some s
    → get_elem? (set_symbols id symbols store) id ≡ some (record s { symbols = symbols })
unfolding set_symbols
get_elem?-set_symbols zero symbols [] s e = absurd (ground arith)
get_elem?-set_symbols (suc id) symbols [] s e = absurd (ground arith)
get_elem?-set_symbols zero symbols (x ∷ store) s e =
    ap (λ o. o >>= λ (y : Scope). some (record y { symbols = symbols })) e
get_elem?-set_symbols (suc id) symbols (x ∷ store) s e = get_elem?-set_symbols id symbols store s e

other_scope :
    (id other : ScopeId) (symbols : Symbols) (store : Store)
    → (id == other) ≡ false
    → get_elem? (set_symbols id symbols store) other ≡ get_elem? store other
unfolding set_symbols
other_scope zero zero symbols store h = absurd (ground arith)
other_scope zero (suc other) symbols [] h = refl
other_scope zero (suc other) symbols (x ∷ store) h = refl
other_scope (suc id) zero symbols [] h = refl
other_scope (suc id) zero symbols (x ∷ store) h = refl
other_scope (suc id) (suc other) symbols [] h = refl
other_scope (suc id) (suc other) symbols (x ∷ store) h =
    other_scope id other symbols store (ground arith)

same_key :
    (key name : Text) (symbols : Symbols)
    → text_eq key name ≡ true
    → get symbols key ≡ get symbols name
same_key key name symbols h = ap (get symbols) ((text_eq_iff key name).0 h)

-- An entry of the other map whose name is new, and one whose name is not.
added :
    (key : Text) (symbol : Symbol) (rest to : Symbols) (name : Text)
    → get to key ≡ none
    → first_of (get (insert key symbol to) name) (get rest name)
      ≡ first_of (get to name) (get ((key, symbol) ∷ rest) name)
unfolding get
added key symbol rest to name absent = elim (Bool-cases (text_eq key name)) [
  | inl is ↦ rw is (rw (sym (same_key key name to is) ∙ absent) refl)
  | inr is_not ↦ rw is_not refl
]

kept :
    (key : Text) (symbol : Symbol) (rest to : Symbols) (name : Text) (s : Symbol)
    → get to key ≡ some s
    → first_of (get to name) (get rest name)
      ≡ first_of (get to name) (get ((key, symbol) ∷ rest) name)
unfolding get
kept key symbol rest to name s e = elim (Bool-cases (text_eq key name)) [
  | inl is ↦ rw is (rw (sym (same_key key name to is) ∙ e) refl)
  | inr is_not ↦ rw is_not refl
]

merge-get :
    (from to : Symbols) (name : Text)
    → get (merge from to) name ≡ first_of (get to name) (get from name)
unfolding merge get
merge-get [] to name = elim (Option-cases (get to name)) [
  | inl absent ↦ rw absent refl
  | inr (s, e) ↦ rw e refl
]
merge-get ((key, symbol) ∷ rest) to name = elim (Option-cases (get to key)) [
  | inl absent ↦
      rw absent (merge-get rest (insert key symbol to) name ∙ added key symbol rest to name absent)
  | inr (s, e) ↦ rw e (merge-get rest to name ∙ kept key symbol rest to name s e)
]

put-resolve :
    (id : ScopeId) (symbol : Symbol) (store : Store) (s : Scope)
    → get_elem? store id ≡ some s
    → (after : Store) × (put id symbol store ≡ some after)
      × (resolve after id symbol.name ≡ some (some symbol))
unfolding put resolve resolve_from get
put-resolve id symbol store s e =
    let after = set_symbols id (insert symbol.name symbol s.symbols) store in
    let same : text_eq symbol.name symbol.name ≡ true =
      (text_eq_iff symbol.name symbol.name).1 refl in
    (
      after,
      rw e refl,
      rw (get_elem?-set_symbols id (insert symbol.name symbol s.symbols) store s e) (rw same refl),
    )

-- A name that is defined in a scope resolves from there to its definition, whatever it was before.
pub define-resolve :
    (id : ScopeId) (name : Text) (span : Span) (def_id : DefId) (store : Store) (s : Scope)
    → get_elem? store id ≡ some s
    → (after : Store) × (define id name span def_id store ≡ some after)
      × (resolve after id name
          ≡ some (
              some (record {
                name = name;
                span = span;
                def_id = def_id;
                is_module = false;
                module_scope = none;
              })))
unfolding define
define-resolve id name span def_id store s e =
    put-resolve id
      (record { name = name; span = span; def_id = def_id; is_module = false; module_scope = none })
      store s e

-- After a scope is merged with another one, a name is the symbol that it had, or else the one that it
-- has in the other scope. The scopes are not the same: the lock of one is not taken twice.
pub merge_scope-resolve_local :
    (id other : ScopeId) (store : Store) (s o : Scope)
    → get_elem? store id ≡ some s
    → get_elem? store other ≡ some o
    → (id == other) ≡ false
    → (after : Store) × (merge_scope id other store ≡ some after)
      × ((name : Text)
          → resolve_local after id name ≡ some (first_of (get s.symbols name) (get o.symbols name)))
      × ((name : Text) → resolve_local after other name ≡ resolve_local store other name)
unfolding merge_scope resolve_local
merge_scope-resolve_local id other store s o e f h =
    let symbols = merge o.symbols s.symbols in
    (
      set_symbols id symbols store,
      rw (e, f, h) refl,
      (λ name.
          rw (get_elem?-set_symbols id symbols store s e)
            (ap (λ r. some r) (merge-get o.symbols s.symbols name))),
      (λ name. rw (other_scope id other symbols store h) refl),
    )
