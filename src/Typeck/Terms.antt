-- ===== src/Typeck/Terms.antt =====
-- crates/izel_typeck/src/lib.rs: substitutions with no cycle, over any kind of term with variables, and
-- the chains of bindings that `prune` and `prune_effects` follow in them.
use native.Mathlib.Nat.{zero-add, suc-add}
use izel.Prelude.{
  ℕ, zero, suc, ◌+◌, ◌-◌, ◌≤◌, ◌≡◌, ◌≢◌, ◌⊎◌, inl, inr, refl, sym, ap, ◌∙◌, arith, Bool, true,
  false, Option, none, some, [], ◌∷◌, ◌==◌, Bool-cases, Option-cases,
}
use izel.Typeck.State.{Map, get}
use izel.Typeck.Prune.{chase, steps}

-- Terms with variables: a term that is a variable, the replacement of a variable by a term, and the
-- test whether it occurs.
pub record Terms : Type 1 where
  pub Term : Type 0
  pub var_of : Term → Option ℕ
  pub replace : ℕ → Term → Term → Term
  pub occurs : ℕ → Term → Bool
  pub replace_at : (id : ℕ) (u t : Term) → var_of t ≡ some id → replace id u t ≡ u
  pub replace_other : (id k : ℕ) (u t : Term) → var_of t ≡ some k → id ≢ k → replace id u t ≡ t
  pub replace_fresh : (id : ℕ) (u t : Term) → occurs id t ≡ false → replace id u t ≡ t
  pub occurs_at : (id : ℕ) (t : Term) → var_of t ≡ some id → occurs id t ≡ true

module _ (L : Terms) where
  open L use {Term, var_of, replace, occurs, replace_at, replace_other, replace_fresh, occurs_at}

  -- The term with every binding put in, however deep.
  abbrev pub apply : Map Term → Term → Term
  apply [] t = t
  apply ((id, u) ∷ m) t = replace id (apply m u) (apply m t)

  -- A variable was bound once, at a time when it did not occur in the term with the bindings put in.
  abbrev pub Acyclic : Map Term → Type 0
  Acyclic [] = Unit
  Acyclic ((id, u) ∷ m) = Acyclic m × (get m id ≡ none) × (occurs id (apply m u) ≡ false)

  -- A term that is no bound variable.
  abbrev pub IsRoot : Map Term → Term → Type 0
  IsRoot m t = (id : ℕ) → var_of t ≡ some id → get m id ≡ none

  get-cons_other : (id k : ℕ) (u : Term) (m : Map Term) → id ≢ k → get ((id, u) ∷ m) k ≡ get m k
  unfolding get
  get-cons_other id k u m h = ground arith

  pub get-cons_at : (id : ℕ) (u : Term) (m : Map Term) → get ((id, u) ∷ m) id ≡ some u
  unfolding get
  get-cons_at id u m = ground arith

  pub apply_unbound :
      (m : Map Term) (id : ℕ) (t : Term) → var_of t ≡ some id → get m id ≡ none → apply m t ≡ t
  unfolding get
  apply_unbound [] id t v h = refl
  apply_unbound ((k, u) ∷ m) id t v h = elim (Bool-cases (k == id)) [
    | inl same ↦ absurd (ground arith)
    | inr other ↦
        let rest = apply_unbound m id t v (ground arith) in
        ap (replace k (apply m u)) rest ∙ replace_other k id (apply m u) t v (ground arith)
  ]

  pub apply_bound :
      (m : Map Term) (id : ℕ) (t u : Term)
      → Acyclic m
      → var_of t ≡ some id
      → get m id ≡ some u
      → apply m t ≡ apply m u
  unfolding get
  apply_bound [] id t u a v h = cc
  apply_bound ((k, w) ∷ m) id t u (a, new, fresh) v h = elim (Bool-cases (k == id)) [
    | inl same ↦
        let e : k ≡ id = ground arith in
        let f : w ≡ u = ground arith in
        ap (replace k (apply m w)) (apply_unbound m k t (v ∙ ap some (sym e)) new)
        ∙ replace_at k (apply m w) t (v ∙ ap some (sym e))
        ∙ sym (replace_fresh k (apply m w) (apply m w) fresh)
        ∙ ap (λ x. replace k (apply m w) (apply m x)) f
    | inr other ↦ ap (replace k (apply m w)) (apply_bound m id t u a v (ground arith))
  ]

  chase_step :
      (fuel : ℕ) (m : Map Term) (t u : Term) (id : ℕ)
      → var_of t ≡ some id
      → get m id ≡ some u
      → chase var_of (suc fuel) m t ≡ chase var_of fuel m u
  unfolding chase
  chase_step fuel m t u id e g = rw (chase, e, g) refl

  pub chase_root : (fuel : ℕ) (m : Map Term) (t : Term) → IsRoot m t → chase var_of fuel m t ≡ t
  unfolding chase
  chase_root zero m t r = refl
  chase_root (suc fuel) m t r = elim (Option-cases (var_of t)) [
    | inl e ↦ rw (chase, e) refl
    | inr (id, e) ↦ rw (chase, e, r id e) refl
  ]

  unbound-IsRoot :
      (m : Map Term) (id : ℕ) (t : Term) → var_of t ≡ some id → get m id ≡ none → IsRoot m t
  unbound-IsRoot m id t e g k v = let same : id ≡ k = cc in rw (← same) g

  no_var-IsRoot : (m : Map Term) (t : Term) → var_of t ≡ none → IsRoot m t
  no_var-IsRoot m t e k v = cc

  -- A term is a root, or a variable with its binding.
  Root-cases :
      (m : Map Term) (t : Term)
      → IsRoot m t ⊎ ((id : ℕ) × (u : Term) × (var_of t ≡ some id) × (get m id ≡ some u))
  Root-cases m t = elim (Option-cases (var_of t)) [
    | inl e ↦ inl (no_var-IsRoot m t e)
    | inr (id, e) ↦ elim (Option-cases (get m id)) [
      | inl g ↦ inl (unbound-IsRoot m id t e g)
      | inr (u, g) ↦ inr (id, u, e, g)
    ]
  ]

  pub apply-chase :
      (fuel : ℕ) (m : Map Term) (t : Term) → Acyclic m → apply m (chase var_of fuel m t) ≡ apply m t
  unfolding chase
  apply-chase zero m t a = refl
  apply-chase (suc fuel) m t a = elim (Root-cases m t) [
    | inl r ↦ ap (apply m) (chase_root (suc fuel) m t r)
    | inr (id, u, e, g) ↦
        ap (apply m) (chase_step fuel m t u id e g)
        ∙ apply-chase fuel m u a
        ∙ sym (apply_bound m id t u a e g)
  ]

  -- The fuel left where the chain leaves the older bindings.
  module _ (id : ℕ) (u : Term) (m : Map Term) (new : get m id ≡ none) where
    chase_older :
        (fuel more : ℕ) (t : Term)
        → (left : ℕ) × (more ≤ left)
          × (chase var_of (fuel + more) ((id, u) ∷ m) t
              ≡ chase var_of left ((id, u) ∷ m) (chase var_of fuel m t))
    unfolding chase
    chase_older zero more t = (more, omega arith, rw (zero-add more) refl)
    chase_older (suc fuel) more t = elim (Root-cases m t) [
      | inl r ↦ (suc fuel + more, omega arith, rw (chase_root (suc fuel) m t r) refl)
      | inr (k, v, e, g) ↦
          let (left, le, eq) = chase_older fuel more v in
          (
            left,
            le,
            ap (λ n. chase var_of n ((id, u) ∷ m) t) (suc-add fuel more)
                ∙ chase_step (fuel + more) ((id, u) ∷ m) t v k e
                    (get-cons_other id k u m (ground arith) ∙ g)
                ∙ eq
                ∙ ap (chase var_of left ((id, u) ∷ m)) (sym (chase_step fuel m t v k e g)),
          )
    ]

    module _ (fresh : occurs id (apply m u) ≡ false) (a : Acyclic m)
        (ends : (fuel : ℕ) (t : Term) → steps m ≤ fuel → IsRoot m (chase var_of fuel m t)) where
      -- A root of the older bindings behind the new term is not the new variable.
      behind-IsRoot : (fuel : ℕ) → steps m ≤ fuel → IsRoot ((id, u) ∷ m) (chase var_of fuel m u)
      behind-IsRoot fuel le k v =
          let r = chase var_of fuel m u in
          let root = ends fuel u le in
          let same : apply m u ≡ r =
            sym (apply-chase fuel m u a) ∙ apply_unbound m k r v (root k v) in
          let other : id ≢ k =
            λ e. cc (occurs_at k r v, ap (occurs id) same, fresh, ap (λ j. occurs j r) e) in
          get-cons_other id k u m other ∙ root k v

      chase_behind :
          (fuel : ℕ) → steps m ≤ fuel → IsRoot ((id, u) ∷ m) (chase var_of fuel ((id, u) ∷ m) u)
      chase_behind fuel le =
          let (left, _, eq) = chase_older (steps m) (fuel - steps m) u in
          let split : steps m + (fuel - steps m) ≡ fuel = omega arith in
          let r = behind-IsRoot (steps m) (omega arith) in
          rw (← split) (rw eq (rw (chase_root left ((id, u) ∷ m) (chase var_of (steps m) m u) r) r))

      chase-IsRoot_older :
          (fuel : ℕ) (t : Term)
          → IsRoot m t
          → suc (steps m) ≤ fuel
          → IsRoot ((id, u) ∷ m) (chase var_of fuel ((id, u) ∷ m) t)
      chase-IsRoot_older zero t r le = absurd (omega arith)
      chase-IsRoot_older (suc fuel) t r le = elim (Root-cases ((id, u) ∷ m) t) [
        | inl root ↦ rw (chase_root (suc fuel) ((id, u) ∷ m) t root) root
        | inr (k, v, e, g) ↦ elim (Bool-cases (id == k)) [
          | inl same ↦
              let at : id ≡ k = ground arith in
              let bound : u ≡ v = cc (get-cons_at id u m, g, ap (get ((id, u) ∷ m)) at) in
              rw (chase_step fuel ((id, u) ∷ m) t v k e g, ← bound)
                (chase_behind fuel (omega arith))
          | inr other ↦ absurd (cc (get-cons_other id k u m (ground arith), r k e, g))
        ]
      ]

  pub chase-IsRoot :
      (m : Map Term) (fuel : ℕ) (t : Term)
      → Acyclic m
      → steps m ≤ fuel
      → IsRoot m (chase var_of fuel m t)
  unfolding steps get
  chase-IsRoot [] fuel t a le = λ k v. refl
  chase-IsRoot ((id, u) ∷ m) fuel t (a, new, fresh) le =
      let ends = λ (f : ℕ) (x : Term). chase-IsRoot m f x a in
      let (left, more, eq) = chase_older id u m new (steps m) (fuel - steps m) t in
      let split : steps m + (fuel - steps m) ≡ fuel = omega arith in
      rw (← split) (
        rw eq (
          chase-IsRoot_older id u m new fresh a ends left (chase var_of (steps m) m t)
            (ends (steps m) t (omega arith)) (omega arith)))
