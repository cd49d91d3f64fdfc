-- ===== src/Eval/I128.antt =====
-- The operations of `i128` that crates/izel_parser/src/eval.rs uses, on bit patterns: a number below
-- 2^128, whose upper half stands for the negative integers. `none` is a panic.
use izel.Prelude.{
  ℕ, ◌+◌, ◌-◌, ◌*◌, ◌/◌, ◌%◌, ◌^◌, Bool, ◌&&◌, ◌||◌, not, Option, none, some, ltb, leb, ◌==◌,
  if◌then◌else◌,
}

abbrev pub modulus : ℕ
modulus = 2 ^ 128

abbrev pub half : ℕ
half = 2 ^ 127

-- `i128::MIN` and -1
abbrev pub min_value : ℕ
min_value = half

abbrev pub minus_one : ℕ
minus_one = modulus - 1

abbrev pub is_negative : ℕ → Bool
is_negative a = leb half a

-- The absolute value, as a `u128`.
abbrev pub unsigned_abs : ℕ → ℕ
unsigned_abs a = if is_negative a then modulus - a else a

abbrev pub differs : Bool → Bool → Bool
differs a b = if a then not b else b

-- The pattern of a magnitude with a sign.
abbrev pub with_sign : Bool → ℕ → ℕ
with_sign negative n = if negative then (modulus - n) % modulus else n % modulus

unfoldable pub wrapping_add : ℕ → ℕ → ℕ
wrapping_add a b = (a + b) % modulus

unfoldable pub wrapping_sub : ℕ → ℕ → ℕ
wrapping_sub a b = (a + modulus - b) % modulus

unfoldable pub wrapping_mul : ℕ → ℕ → ℕ
wrapping_mul a b = a * b % modulus

unfoldable pub wrapping_neg : ℕ → ℕ
wrapping_neg a = (modulus - a) % modulus

-- `!a`
unfoldable pub bitwise_not : ℕ → ℕ
bitwise_not a = modulus - 1 - a

-- Where `a / b` and `a % b` panic but for `b == 0`: the quotient is no `i128`.
abbrev pub overflows : ℕ → ℕ → Bool
overflows a b = a == min_value && b == minus_one

unfoldable pub div_i128 : ℕ → ℕ → Option ℕ
div_i128 a b =
    if b == 0 || overflows a b
    then none
    else some
        (with_sign (differs (is_negative a) (is_negative b)) (unsigned_abs a / unsigned_abs b))

unfoldable pub rem_i128 : ℕ → ℕ → Option ℕ
rem_i128 a b =
    if b == 0 || overflows a b
    then none
    else some (with_sign (is_negative a) (unsigned_abs a % unsigned_abs b))

-- `wrapping_shl` and `wrapping_shr` at a shift below 128; the right shift keeps the sign.
unfoldable pub wrapping_shl : ℕ → ℕ → ℕ
wrapping_shl a n = a * 2 ^ n % modulus

unfoldable pub wrapping_shr : ℕ → ℕ → ℕ
wrapping_shr a n = if is_negative a then modulus - 1 - (modulus - 1 - a) / 2 ^ n else a / 2 ^ n

-- `a < b`: the patterns with the sign bit flipped are in the order of the integers.
abbrev pub biased : ℕ → ℕ
biased a = (a + half) % modulus

unfoldable pub lt_i128 : ℕ → ℕ → Bool
lt_i128 a b = ltb (biased a) (biased b)

unfoldable pub le_i128 : ℕ → ℕ → Bool
le_i128 a b = leb (biased a) (biased b)
