-- ===== src/Typeck/Quantified.antt =====
-- crates/izel_typeck/src/lib.rs: which variables `generalize` quantifies.
use izel.Prelude.{
  ℕ, zero, suc, ◌+◌, ◌≤◌, ◌<◌, ◌≡◌, refl, sym, ap, ◌∙◌, arith, Bool, true, false, ◌&&◌, ◌||◌,
  Option, some, List, [], ◌∷◌, ◌++◌, ◌==◌, contains, ltb, if◌then◌else◌, ◌>>=◌, Bool-cases, inl,
  inr, Text,
}
use izel.Typeck.{EffectSet, concrete, effect_var, row, effect_param}
use izel.Typeck.State.{get, level_or_zero, TypeChecker, has_name}
use izel.Typeck.Prune.{prune_effects}
use izel.Typeck.Schemes.{Found, see_var, see_effect_var, see_name, find_gen_effect_vars}
use izel.Typeck.Terms.{Acyclic}
use izel.Typeck.EffectTerms.{
  effect_terms, size_effects, resolve_effects, resolve_effects-prune_effects, resolve_effects-row,
}

-- Whether a variable was made inside the scope that is open.
abbrev pub is_deeper : TypeChecker → ℕ → Bool
unfolding get
is_deeper s id = ltb s.current_level (level_or_zero (get s.var_levels id))

contains-append :
    (xs ys : List ℕ) (id : ℕ) → contains (xs ++ ys) id ≡ (contains xs id || contains ys id)
unfolding contains
contains-append [] ys id = refl
contains-append (x ∷ xs) ys id = rw (contains-append xs ys id) ground arith

pub ==_sound : (k id : ℕ) → (k == id) ≡ true → k ≡ id
==_sound k id h = ground arith

contains_known :
    (seen : List ℕ) (k id : ℕ)
    → contains seen k ≡ true
    → contains seen id ≡ (contains seen id || (k == id))
contains_known seen k id h = elim (Bool-cases (k == id)) [
  | inl same ↦
      let known = ap (contains seen) (sym (==_sound k id same)) ∙ h in rw (same, known) refl
  | inr other ↦ rw other ground arith
]

or_true : (b : Bool) → (b || (true || false)) ≡ (true && true)
or_true true = refl
or_true false = refl

contains_new :
    (deep : ℕ → Bool) (vars seen : List ℕ) (k id : ℕ)
    → contains vars id ≡ (contains seen id && deep id)
    → contains (if deep k then vars ++ k ∷ [] else vars) id ≡ (contains (k ∷ seen) id && deep id)
unfolding contains
contains_new deep vars seen k id c = elim (Bool-cases (k == id)) [
  | inl same ↦
      let at = ap deep (==_sound k id same) in
      elim (Bool-cases (deep k)) [
        | inl is_deep ↦
            rw (is_deep, contains-append vars (k ∷ []) id, same, ← at, is_deep)
              (or_true (contains vars id))
        | inr flat ↦ rw (flat, c, same, ← at, flat) ground arith
      ]
  | inr other ↦ elim (Bool-cases (deep k)) [
    | inl is_deep ↦ rw (is_deep, contains-append vars (k ∷ []) id, other, c) ground arith
    | inr flat ↦ rw (flat, c, other) refl
  ]
]

-- One round of `find_gen_effect_vars`, on what the set is.
effect_round : (EffectSet → Found → Option Found) → TypeChecker → EffectSet → Found → Option Found
effect_round walk s e found = elim e [
  | effect_var id ↦ some (see_effect_var s id found)
  | row _ tail ↦ walk tail found
  | _ ↦ some found
]

module _ (s : TypeChecker) where
  -- The variables collected are those seen that are deeper.
  abbrev pub Collects : Found → Type 0
  Collects found = (id : ℕ) → contains found.vars id ≡ (contains found.seen id && is_deeper s id)

  -- With enough fuel the search ends, and has seen what `f` holds of besides what was seen before.
  abbrev pub Sees : (ℕ → Found → Option Found) → (ℕ → Bool) → Type 0
  Sees w f =
      (n : ℕ) × ((found : Found)
        → Collects found
        → (after : Found) × Collects after
          × ((id : ℕ) → contains after.seen id ≡ (contains found.seen id || f id))
          × ((fuel : ℕ) → n ≤ fuel → w fuel found ≡ some after))

  pub none-Sees : Sees (λ _ found. some found) (λ _. false)
  none-Sees = (0, λ found c. (found, c, λ id. ground arith, λ _ _. refl))

  pub bind-Sees :
      (v w : ℕ → Found → Option Found) (f g : ℕ → Bool)
      → Sees v f
      → Sees w g
      → Sees (λ fuel found. v fuel found >>= w fuel) (λ id. f id || g id)
  bind-Sees v w f g (n, p) (k, q) = (
    n + k,
    λ found c.
        let (mid, cm, seen, runs) = p found c in
        let (after, ca, seen', runs') = q mid cm in
        (
          after,
          ca,
          λ id. rw (seen' id, seen id) ground arith,
          λ fuel le. rw (runs fuel (omega arith)) (runs' fuel (omega arith)),
        ),
  )

  see_var_lem :
      (k : ℕ) (found : Found)
      → Collects found
      → Collects (see_var s k found)
        × ((id : ℕ) → contains (see_var s k found).seen id ≡ (contains found.seen id || (k == id)))
  unfolding contains get
  see_var_lem k found c = elim (Bool-cases (contains found.seen k)) [
    | inl known ↦ rw known (c, λ id. contains_known found.seen k id known)
    | inr new ↦
        rw new
          (λ id. contains_new (is_deeper s) found.vars found.seen k id (c id), λ id. ground arith)
  ]

  pub var-Sees : (k : ℕ) → Sees (λ _ found. some (see_var s k found)) (λ id. k == id)
  var-Sees k = (
    0,
    λ found c. let (d, seen) = see_var_lem k found c in (see_var s k found, d, seen, λ _ _. refl),
  )

  -- A search that leaves the variables as they are.
  abbrev pub Leaves : (ℕ → Found → Option Found) → Type 0
  Leaves w =
      (n : ℕ) × ((found : Found)
        → (after : Found) × (after.vars ≡ found.vars)
          × (after.seen ≡ found.seen)
          × ((fuel : ℕ) → n ≤ fuel → w fuel found ≡ some after))

  pub Leaves-Sees : (w : ℕ → Found → Option Found) → Leaves w → Sees w (λ _. false)
  Leaves-Sees w (n, p) = (
    n,
    λ found c.
        let (after, same, same_seen, runs) = p found in
        (after, λ id. rw (same, same_seen) (c id), λ id. rw same_seen ground arith, runs),
  )

  pub see_name-Leaves : (name : Text) → Leaves (λ _ found. some (see_name name found))
  unfolding has_name
  see_name-Leaves name = (
    0,
    λ found. elim (Bool-cases (has_name name found.seen_names)) [
      | inl known ↦ (found, refl, refl, λ _ _. rw known refl)
      | inr new ↦ (
        record found { seen_names = name ∷ found.seen_names; names = found.names ++ name ∷ [] },
        refl,
        refl,
        λ _ _. rw new refl,
      )
    ],
  )

  see_effect_var-Leaves : (id : ℕ) → Leaves (λ _ found. some (see_effect_var s id found))
  unfolding contains
  see_effect_var-Leaves id = (
    0,
    λ found. elim (Bool-cases (contains found.seen_effects id)) [
      | inl known ↦ (found, refl, refl, λ _ _. rw known refl)
      | inr new ↦ (see_effect_var s id found, rw new refl, rw new refl, λ _ _. refl)
    ],
  )

  pub some-Leaves : Leaves (λ _ found. some found)
  some-Leaves = (0, λ found. (found, refl, refl, λ _ _. refl))

  effect_round-Leaves :
      (k : ℕ) (e : EffectSet)
      → ((u : EffectSet)
          → size_effects (resolve_effects s.effect_substitutions u) < k
          → Leaves (λ fuel. find_gen_effect_vars fuel s u))
      → size_effects (resolve_effects s.effect_substitutions e) ≤ k
      → Leaves (λ fuel. effect_round (find_gen_effect_vars fuel s) s e)
  unfolding effect_round size_effects
  effect_round-Leaves k (effect_var id) f h = see_effect_var-Leaves id
  effect_round-Leaves k (row vals tail) f h =
      let fits = rw (resolve_effects-row s.effect_substitutions vals tail) at h in
      f tail (omega (arith, fits))
  effect_round-Leaves k (concrete v) f h = some-Leaves
  effect_round-Leaves k (effect_param p) f h = some-Leaves

  pub effects-Leaves :
      (k : ℕ) (e : EffectSet)
      → Acyclic effect_terms s.effect_substitutions
      → size_effects (resolve_effects s.effect_substitutions e) < k
      → Leaves (λ fuel. find_gen_effect_vars fuel s e)
  unfolding find_gen_effect_vars effect_round
  effects-Leaves zero e a h = absurd (omega arith)
  effects-Leaves (suc k) e a h =
      let m = s.effect_substitutions in
      let (n, p) =
        effect_round-Leaves k (prune_effects m e) (λ u small. effects-Leaves k u a small)
          (rw (resolve_effects-prune_effects m e a) (omega arith)) in
      (
        suc n,
        λ found.
            let (after, same, same_seen, runs) = p found in
            (
              after,
              same,
              same_seen,
              elim [ zero ↦ λ le. absurd (omega arith) | suc fuel ↦ λ le. runs fuel (omega arith) ],
            ),
      )

  -- A search that leaves the variables, after one that does not.
  pub bind-Leaves :
      (v w : ℕ → Found → Option Found) (f : ℕ → Bool)
      → Sees v f
      → Leaves w
      → Sees (λ fuel found. v fuel found >>= w fuel) f
  bind-Leaves v w f (n, p) (k, q) = (
    n + k,
    λ found c.
        let (mid, cm, seen, runs) = p found c in
        let (after, same, same_seen, runs') = q mid in
        (
          after,
          λ id. rw (same, same_seen) (cm id),
          λ id. rw same_seen (seen id),
          λ fuel le. rw (runs fuel (omega arith)) (runs' fuel (omega arith)),
        ),
  )
