-- ===== src/Eval/Arithmetic.antt =====
-- crates/izel_parser/src/eval.rs: what the integer arms compute, and where they panic.
use native.Mathlib.Nat.{div-add-mod', mod-lt}
use izel.Prelude.{
  ℕ, ◌+◌, ◌*◌, ◌/◌, ◌%◌, ◌^◌, ◌<◌, ◌≡◌, ◌≢◌, ◌↔◌, ◌⊎◌, inl, inr, ap, sym, refl, zero, suc, ◌==◌,
  Bool, true, false, none, some, ltb, ◌≤◌, Bool-cases, arith,
}
use izel.Ast.{BinaryOp}
use izel.Eval.I128.{
  half, min_value, minus_one, is_negative, unsigned_abs, with_sign, overflows, differs, div_i128,
  rem_i128,
}
use izel.Eval.Run.{int, int_binary}

-- The patterns of the 128-bit integers.
abbrev pub IsI128 : ℕ → Type 0
IsI128 a = a < 2 ^ 128

-- The magnitude of a pattern is at most 2^127, and is 0 at 0 alone.
with_sign-lt : (negative : Bool) (n : ℕ) → IsI128 (with_sign negative n)
with_sign-lt negative n = ground arith

-- The arms for two integers panic exactly at `i128::MIN / -1` and `i128::MIN % -1`: no other operator, and
-- no other pair of operands, panics, and so none at the divisor 0.
pub int_binary-eq-none :
    (op : BinaryOp) (l r : ℕ)
    → (int_binary op l r ≡ none)
      ↔ (((op ≡ BinaryOp.div) ⊎ (op ≡ BinaryOp.rem)) × (l ≡ min_value) × (r ≡ minus_one))
unfolding int_binary div_i128 rem_i128
int_binary-eq-none BinaryOp.div l r = ground arith
int_binary-eq-none BinaryOp.rem l r = ground arith
int_binary-eq-none _ l r = ground arith

-- Signed division: `q` and `r` are the results of `a / b` and `a % b`.
pub record Divides (a b q r : ℕ) : Type 0 where
  pub quotient : unsigned_abs a ≡ unsigned_abs q * unsigned_abs b + unsigned_abs r
  pub remainder_lt : unsigned_abs r < unsigned_abs b
  pub remainder_sign : r ≢ 0 → is_negative r ≡ is_negative a
  pub quotient_sign : q ≢ 0 → is_negative q ≡ differs (is_negative a) (is_negative b)

-- The magnitudes that a sign can be put on.
abbrev IsMagnitude : Bool → ℕ → Type 0
IsMagnitude negative n = (n < half) ⊎ ((n ≡ half) × (negative ≡ true))

unsigned_abs-with_sign :
    (negative : Bool) (n : ℕ) → IsMagnitude negative n → unsigned_abs (with_sign negative n) ≡ n
unsigned_abs-with_sign true n h = ground arith
unsigned_abs-with_sign false n h = ground arith

is_negative-with_sign :
    (negative : Bool) (n : ℕ)
    → IsMagnitude negative n
    → with_sign negative n ≢ 0
    → is_negative (with_sign negative n) ≡ negative
is_negative-with_sign true n h ne = ground arith
is_negative-with_sign false n h ne = ground arith

unsigned_abs-le : (a : ℕ) → IsI128 a → unsigned_abs a ≤ half
unsigned_abs-le a h = ground arith

-- A quotient as large as the bound of the dividend is that bound, and divides by 1.
quotient_large : (q y r : ℕ) → q * y + r ≤ half → half ≤ q → 0 < y → (q ≡ half) × (y ≡ 1) × (r ≡ 0)
quotient_large q zero r h p n = absurd (omega arith)
quotient_large q (suc zero) r h p n = omega arith
quotient_large q (suc (suc y)) r h p n = absurd (omega arith)

div-IsMagnitude :
    (x y : ℕ) → x ≤ half → 0 < y → (x / y < half) ⊎ ((x / y ≡ half) × (x ≡ half) × (y ≡ 1))
div-IsMagnitude x y h p = elim (Bool-cases (ltb (x / y) half)) [
  | inl small ↦ inl (ground arith)
  | inr large ↦
      let whole = div-add-mod' x y in
      let (q, one, r) = quotient_large (x / y) y (x % y) (omega arith) (ground arith) p in
      inr (q, omega (arith, ap (λ (n : ℕ). x / y * n) one), one)
]

-- The only patterns of magnitude 1.
unsigned_abs-one : (b : ℕ) → IsI128 b → unsigned_abs b ≡ 1 → (b ≡ 1) ⊎ (b ≡ minus_one)
unsigned_abs-one b h e = ground arith

unsigned_abs_pos : (b : ℕ) → IsI128 b → b ≢ 0 → 0 < unsigned_abs b
unsigned_abs_pos b h ne = ground arith

quotient-IsMagnitude :
    (a b : ℕ)
    → IsI128 a
    → IsI128 b
    → b ≢ 0
    → overflows a b ≡ false
    → IsMagnitude (differs (is_negative a) (is_negative b)) (unsigned_abs a / unsigned_abs b)
quotient-IsMagnitude a b ha hb ne no_overflow =
    elim (div-IsMagnitude (unsigned_abs a) (unsigned_abs b) (unsigned_abs-le a ha)
      (unsigned_abs_pos b hb ne)) [
        | inl small ↦ inl small
        | inr (q, x, y) ↦ inr (
          q,
          elim (unsigned_abs-one b hb y) [ inl one ↦ ground arith | inr minus ↦ ground arith ],
        )
      ]

-- At two 128-bit integers, the second not 0 and the two not `i128::MIN` and -1, the arms for `/` and `%`
-- give integers `q` and `r`, which are those of division that truncates toward zero: |a| = |q| |b| + |r|
-- with |r| < |b|, a remainder other than 0 has the sign of `a`, and a quotient other than 0 is negative
-- exactly when the signs of `a` and `b` differ.
pub int_binary-Divides :
    (a b : ℕ)
    → IsI128 a
    → IsI128 b
    → b ≢ 0
    → overflows a b ≡ false
    → (q : ℕ) × (r : ℕ) × (int_binary BinaryOp.div a b ≡ some (int q))
      × (int_binary BinaryOp.rem a b ≡ some (int r))
      × Divides a b q r
unfolding int_binary div_i128 rem_i128
int_binary-Divides a b ha hb ne fits =
    let x = unsigned_abs a in
    let y = unsigned_abs b in
    let sign = differs (is_negative a) (is_negative b) in
    let q_fits = quotient-IsMagnitude a b ha hb ne fits in
    let y_pos = unsigned_abs_pos b hb ne in
    let r_lt = mod-lt x y_pos in
    let y_le = unsigned_abs-le b hb in
    let r_fits : IsMagnitude (is_negative a) (x % y) = inl (omega arith) in
    let q_abs = unsigned_abs-with_sign sign (x / y) q_fits in
    let r_abs = unsigned_abs-with_sign (is_negative a) (x % y) r_fits in
    let not_zero : (b == 0) ≡ false = ground arith in
    (
      with_sign sign (x / y),
      with_sign (is_negative a) (x % y),
      rw (not_zero, fits) refl,
      rw (not_zero, fits) refl,
      record {
        quotient = rw (q_abs, r_abs) (sym (div-add-mod' x y));
        remainder_lt = rw r_abs r_lt;
        remainder_sign = λ n. is_negative-with_sign (is_negative a) (x % y) r_fits n;
        quotient_sign = λ n. is_negative-with_sign sign (x / y) q_fits n;
      },
    )
