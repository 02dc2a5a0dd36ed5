-- ===== src/Prelude/Bits.antt =====
-- Setting and testing one bit of a word, for every word. The libraries have no laws of `bit_and`
-- and `bit_or` at variables, so these go through the digit recursion that defines them.
use Prim.Native.Nat.{
  ℕ, zero, suc, ◌+◌, ◌*◌, ◌/◌, ◌%◌, ◌^◌, ◌≤◌, ◌<◌, min, max, bit_and, bit_or, digits,
  bit_and-bitwise, bit_or-bitwise,
}
use mathlib.Core.Path.{◌≡◌, refl, sym, ap, ◌∙◌}
use native.Mathlib.Nat.{div-div-eq-div-mul}
use native.Mathlib.Omega.{arith}

-- Bit k of a word.
abbrev pub bit : ℕ → ℕ → ℕ
bit k a = a / 2 ^ k % 2

abbrev and_by : ℕ → ℕ → ℕ → ℕ
and_by n a b = digits (λ b. zero) min n a b

and_by_enough : (n m a b : ℕ) → a ≤ n → a ≤ m → and_by n a b ≡ and_by m a b
and_by_enough zero zero a b p q = refl
and_by_enough zero (suc m) zero b p q = refl
and_by_enough zero (suc m) (suc a) b p q = absurd (omega arith)
and_by_enough (suc n) zero zero b p q = refl
and_by_enough (suc n) zero (suc a) b p q = absurd (omega arith)
and_by_enough (suc n) (suc m) zero b p q = refl
and_by_enough (suc n) (suc m) (suc a) b p q =
    omega (arith, and_by_enough n m (suc a / 2) (b / 2) (omega arith) (omega arith))

bit_and_low : (a b : ℕ) → bit_and a b ≡ bit_and (a / 2) (b / 2) * 2 + min (a % 2) (b % 2)
bit_and_low zero b = omega (arith, bit_and-bitwise 0 b, bit_and-bitwise 0 (b / 2))
bit_and_low (suc a) b = omega (
  arith,
  bit_and-bitwise (suc a) b,
  bit_and-bitwise (suc a / 2) (b / 2),
  and_by_enough a (suc a / 2) (suc a / 2) (b / 2) (omega arith) (omega arith),
)

abbrev or_by : ℕ → ℕ → ℕ → ℕ
or_by n a b = digits (λ b. b) max n a b

or_by_enough : (n m a b : ℕ) → a ≤ n → a ≤ m → or_by n a b ≡ or_by m a b
or_by_enough zero zero zero b p q = refl
or_by_enough zero zero (suc a) b p q = absurd (omega arith)
or_by_enough zero (suc m) zero b p q = refl
or_by_enough zero (suc m) (suc a) b p q = absurd (omega arith)
or_by_enough (suc n) zero zero b p q = refl
or_by_enough (suc n) zero (suc a) b p q = absurd (omega arith)
or_by_enough (suc n) (suc m) zero b p q = refl
or_by_enough (suc n) (suc m) (suc a) b p q =
    omega (arith, or_by_enough n m (suc a / 2) (b / 2) (omega arith) (omega arith))

bit_or_low : (a b : ℕ) → bit_or a b ≡ bit_or (a / 2) (b / 2) * 2 + max (a % 2) (b % 2)
bit_or_low zero b = omega (arith, bit_or-bitwise 0 b, bit_or-bitwise 0 (b / 2))
bit_or_low (suc a) b = omega (
  arith,
  bit_or-bitwise (suc a) b,
  bit_or-bitwise (suc a / 2) (b / 2),
  or_by_enough a (suc a / 2) (suc a / 2) (b / 2) (omega arith) (omega arith),
)

pow_pos : (k : ℕ) → 0 < 2 ^ k
pow_pos zero = omega arith
pow_pos (suc k) = omega (arith, pow_pos k)

pow_double : (k : ℕ) → 2 ^ suc k ≡ 2 * 2 ^ k
pow_double k = omega arith

bit-suc : (k a : ℕ) → bit (suc k) a ≡ bit k (a / 2)
bit-suc k a =
    ap (λ (t : ℕ). a / t % 2) (pow_double k)
    ∙ ap (λ (t : ℕ). t % 2) (sym (div-div-eq-div-mul a 2 (2 ^ k)))

-- A bit of an `or` is set if it is set on either side.
pub bit-bit_or : (k a b : ℕ) → bit k (bit_or a b) ≡ max (bit k a) (bit k b)
bit-bit_or zero a b = omega (arith, bit_or_low a b)
bit-bit_or (suc k) a b =
    rw (bit-suc k a, bit-suc k b, bit-suc k (bit_or a b), halved) (bit-bit_or k (a / 2) (b / 2))
  where
    halved : bit_or a b / 2 ≡ bit_or (a / 2) (b / 2)
    halved = omega (arith, bit_or_low a b)

bit_and-zero_below : (n a : ℕ) → a ≤ n → bit_and a 0 ≡ 0
bit_and-zero_below n zero h = refl
bit_and-zero_below zero (suc a) h = absurd (omega arith)
bit_and-zero_below (suc n) (suc a) h =
    omega (arith, bit_and_low (suc a) 0, bit_and-zero_below n (suc a / 2) (omega arith))

-- `a & (1 << k)` is the bit, in its place.
pub bit_and-pow : (k a : ℕ) → bit_and a (2 ^ k) ≡ bit k a * 2 ^ k
bit_and-pow zero a =
    omega (arith, bit_and_low a 1, bit_and-zero_below (a / 2) (a / 2) (omega arith))
bit_and-pow (suc k) a =
    bit_and_low a (2 ^ suc k)
    ∙ rw (bit-suc k a, halved)
        (omega (
          arith,
          bit_and-pow k (a / 2),
          pow_double k,
          ap (λ (t : ℕ). bit k (a / 2) * t) (pow_double k),
        ))
  where
    halved : 2 ^ suc k / 2 ≡ 2 ^ k
    halved = omega (arith, pow_double k)

bit_or-zero_below : (n a : ℕ) → a ≤ n → bit_or a 0 ≡ a
bit_or-zero_below n zero h = refl
bit_or-zero_below zero (suc a) h = absurd (omega arith)
bit_or-zero_below (suc n) (suc a) h =
    omega (arith, bit_or_low (suc a) 0, bit_or-zero_below n (suc a / 2) (omega arith))

-- `a << 1 | 1`
pub bit_or-double_one : (a : ℕ) → bit_or (a * 2) 1 ≡ a * 2 + 1
bit_or-double_one a =
    omega (arith, bit_or_low (a * 2) 1, bit_or-zero_below (a * 2 / 2) (a * 2 / 2) (omega arith))

pub bit_or-lt_pow : (n a b : ℕ) → a < 2 ^ n → b < 2 ^ n → bit_or a b < 2 ^ n
bit_or-lt_pow zero a b h k =
    omega (arith, ap (λ (t : ℕ). bit_or t b) zero_a, ap (λ (t : ℕ). bit_or 0 t) zero_b)
  where
    zero_a : a ≡ 0
    zero_a = omega arith

    zero_b : b ≡ 0
    zero_b = omega arith
bit_or-lt_pow (suc n) a b h k =
    omega (arith, bit_or_low a b, pow_double n, bit_or-lt_pow n (a / 2) (b / 2) half_a half_b)
  where
    half_a : a / 2 < 2 ^ n
    half_a = omega (arith, pow_double n)

    half_b : b / 2 < 2 ^ n
    half_b = omega (arith, pow_double n)

-- Fields that do not overlap are added.
pub bit_or-above : (k a b : ℕ) → a < 2 ^ k → bit_or a (b * 2 ^ k) ≡ a + b * 2 ^ k
bit_or-above zero a b h =
    ap (λ (t : ℕ). bit_or t (b * 1)) none_below
    ∙ omega (arith, bit_or-bitwise 0 (b * 1), none_below)
  where
    none_below : a ≡ 0
    none_below = omega arith
bit_or-above (suc k) a b h =
    bit_or_low a (b * 2 ^ suc k)
    ∙ rw halved (omega (arith, bit_or-above k (a / 2) b (omega (arith, pow_double k)), even, wide))
  where
    wide : b * 2 ^ suc k ≡ b * 2 ^ k * 2
    wide = ap (λ (t : ℕ). b * t) (pow_double k) ∙ omega arith

    halved : b * 2 ^ suc k / 2 ≡ b * 2 ^ k
    halved = omega (arith, wide)

    even : b * 2 ^ suc k % 2 ≡ 0
    even = omega (arith, wide)
