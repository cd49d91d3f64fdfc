-- ===== src/Lexer/Reads.antt =====
-- crates/izel_lexer/src/cursor.rs: every operation of the lexer moves the cursor by `bump` alone.
-- What follows of that relation: the characters that are left are a rest of those before.
use izel.Prelude.{
  ℕ, zero, suc, ◌≡◌, refl, ◌∙◌, ap, Bool, true, false, not, ◌&&◌, ◌||◌, ◌==◌, Option, none, some,
  List, [], ◌∷◌, ◌++◌, append_assoc, arith, if◌then◌else◌, length, length-append, ◌≤◌,
}
use izel.Lexer.Cursor.{
  Cursor, str_len, first, is_eof, bump, advance, bump_if, eat_while_loop, eat_while, eat_escape_of,
  eat_escape, is_ascii_hexdigit,
}

-- `Reads s t`: the cursor `t` is `s` after some calls of `bump`.
pub data Reads : Cursor → Cursor → Type 0 where
  stay : {s : Cursor} → Reads s s
  step : {s t : Cursor} → Reads (advance s) t → Reads s t

pub Reads-trans : {s t u : Cursor} → Reads s t → Reads t u → Reads s u
Reads-trans stay r = r
Reads-trans (step h) r = step (Reads-trans h r)

pub Reads-advance : (s : Cursor) → Reads s (advance s)
Reads-advance s = step stay

-- Both branches of a test move forward.
pub Reads-if : (b : Bool) (s t u : Cursor) → Reads s t → Reads s u → Reads s (if b then t else u)
Reads-if true s t u p q = p
Reads-if false s t u p q = q

pub Reads-bump_if : (b : Bool) {s t : Cursor} → Reads s t → Reads s (bump_if b t)
Reads-bump_if true {t} h = Reads-trans h (Reads-advance t)
Reads-bump_if false h = h

-- The length in bytes is kept beside the characters, so that `len_remaining -= len_utf8()` never
-- wraps around.
pub record IsValid (s : Cursor) : Type 0 where
  pub counted : s.len_remaining ≡ str_len s.chars

pub advance-IsValid : (s : Cursor) → IsValid s → IsValid (advance s)
unfolding bump str_len
advance-IsValid s v = ground arith

pub Reads-IsValid : {s t : Cursor} → Reads s t → IsValid s → IsValid t
Reads-IsValid stay v = v
Reads-IsValid (step {s} h) v = Reads-IsValid h (advance-IsValid s v)

-- What the cursor shows before a character `c`.
module _ (s : Cursor) {c : ℕ} {cs : List ℕ} (e : s.chars ≡ c ∷ cs) where
  pub is_eof-cons : is_eof s ≡ false
  unfolding is_eof
  is_eof-cons = ground arith

  pub first-cons : first s ≡ c
  unfolding first
  first-cons = ground arith

  pub bump-cons : (bump s).0 ≡ some c
  unfolding bump
  bump-cons = ground arith

  pub chars-advance : s.chars ≡ c ∷ (advance s).chars
  unfolding bump
  chars-advance = ground arith

  pub chars-behind : (advance s).chars ≡ cs
  unfolding bump
  chars-behind = ground arith

pub is_eof-nil : (s : Cursor) → s.chars ≡ [] → is_eof s ≡ true
unfolding is_eof
is_eof-nil s e = ground arith

-- At the end `bump` changes nothing.
pub bump-nil : (s : Cursor) → s.chars ≡ [] → bump s ≡ (none, s)
unfolding bump
bump-nil s e = rw e

-- The characters read between two cursors.
abbrev pub Splits : Cursor → Cursor → Type 0
Splits s t = (read : List ℕ) × (s.chars ≡ read ++ t.chars)

Splits-advance : (cs : List ℕ) (s : Cursor) → s.chars ≡ cs → Splits s (advance s)
unfolding bump
Splits-advance [] s e = ([], rw e)
Splits-advance (c ∷ cs) s e = (c ∷ [], rw e)

Splits-trans : (s t u : Cursor) → Splits s t → Splits t u → Splits s u
Splits-trans s t u (read, p) (more, q) = (read ++ more, p ∙ ap (λ r. read ++ r) q ∙ rw append_assoc)

pub Reads-Splits : {s t : Cursor} → Reads s t → Splits s t
Reads-Splits stay = ([], refl)
Reads-Splits (step {s} {t} h) =
    Splits-trans s (advance s) t (Splits-advance s.chars s refl) (Reads-Splits h)

pub Reads-length-le : {s t : Cursor} → Reads s t → length t.chars ≤ length s.chars
Reads-length-le r =
    let (read, e) = Reads-Splits r in omega (arith, ap length e, length-append read _)

pub Reads-eat_while_loop :
    (fuel : ℕ) (pred : ℕ → Bool) (s : Cursor) → Reads s (eat_while_loop fuel pred s)
unfolding eat_while_loop
Reads-eat_while_loop zero pred s = stay
Reads-eat_while_loop (suc fuel) pred s =
    Reads-if (pred (first s) && not (is_eof s)) s _ s
      (step (Reads-eat_while_loop fuel pred (advance s))) stay

pub Reads-eat_while : (pred : ℕ → Bool) (s : Cursor) → Reads s (eat_while pred s)
unfolding eat_while
Reads-eat_while pred s = Reads-eat_while_loop (length s.chars) pred s

Reads-eat_escape_of : (o : Option ℕ) (s : Cursor) → Reads s (eat_escape_of o s)
unfolding eat_escape_of
Reads-eat_escape_of none s = stay
Reads-eat_escape_of (some c) s =
    let t = eat_while (λ d. is_ascii_hexdigit d || d == b'_') (advance s) in
    let digits : Reads s t = step (Reads-eat_while _ (advance s)) in
    ground (
      arith,
      stay {s = s},
      digits,
      Reads-trans digits (Reads-advance t),
      Reads-advance s,
      step (Reads-advance (advance s)),
    )

pub Reads-eat_escape : (s : Cursor) → Reads s (eat_escape s)
unfolding eat_escape
Reads-eat_escape s = step (Reads-eat_escape_of (bump s).0 (advance s))
