-- ===== src/Typeck/Scopes.antt =====
-- crates/izel_typeck/src/lib.rs: definitions in the scopes of the checker, and their lookup.
use izel.Prelude.{◌≡◌, ◌≢◌, refl, arith, some, List, [], ◌∷◌, if◌then◌else◌, Text, text_eq}
use izel.Typeck.{Scheme}
use izel.Typeck.State.{
  TypeChecker, find, resolve_in, resolve_scheme, define_scheme, insert_last, push_scope, pop_scope,
}

resolve_in-insert_last :
    (name other : Text) (scheme : Scheme) (env : List (List (Text × Scheme)))
    → env ≢ []
    → resolve_in (insert_last name scheme env) other
      ≡ (if text_eq name other then some scheme else resolve_in env other)
unfolding resolve_in find
resolve_in-insert_last name other scheme [] h = absurd (h refl)
resolve_in-insert_last name other scheme (scope ∷ env) h = ground arith

-- Where a scope is open, a name is found with its last definition, and every other name as before; and
-- a definition in a scope that is opened for it and closed again leaves the state as it was.
pub define_scheme-resolve_scheme :
    (name other : Text) (scheme : Scheme) (s : TypeChecker)
    → s.env ≢ []
    → (resolve_scheme other (define_scheme name scheme s)
        ≡ (if text_eq name other then some scheme else resolve_scheme other s))
      × (pop_scope (define_scheme name scheme (push_scope s)) ≡ s)
unfolding resolve_scheme define_scheme
define_scheme-resolve_scheme name other scheme s h =
    (resolve_in-insert_last name other scheme s.env h, refl)
