-- ===== src/Prelude/Words.antt =====
-- Go's 64-bit integers. A `uint64` and an `int` are both their 64-bit pattern, so a conversion
-- between them changes nothing; arithmetic wraps, and `<` on `int` reads the top bit as a sign.
use Prim.Native.Nat.{ℕ, ◌+◌, ◌-◌, ◌%◌, ◌^◌, ◌<◌}
use mathlib.Core.Path.{◌≡◌}
use mathlib.Core.Bool.{Bool}
use native.Mathlib.Omega.{arith}
use solid_ts_facts.Prelude.Tests.{ltb}

abbrev pub IsWord : ℕ → Type 0
IsWord a = a < 2 ^ 64

-- A pattern that reads the same as an `int` and as a `uint64`.
abbrev pub IsNonNegative : ℕ → Type 0
IsNonNegative a = a < 2 ^ 63

unfoldable pub add64 : ℕ → ℕ → ℕ
add64 a b = (a + b) % 2 ^ 64

unfoldable pub sub64 : ℕ → ℕ → ℕ
sub64 a b = (a + 2 ^ 64 - b) % 2 ^ 64

-- a < b on `int`.
unfoldable pub int_lt : ℕ → ℕ → Bool
int_lt a b = ltb ((a + 2 ^ 63) % 2 ^ 64) ((b + 2 ^ 63) % 2 ^ 64)

pub int_lt-nonnegative : (a b : ℕ) → IsNonNegative a → IsNonNegative b → int_lt a b ≡ ltb a b
unfolding int_lt
int_lt-nonnegative a b h k = ground arith

pub add64-sub64 : (a b : ℕ) → IsWord a → IsWord b → add64 b (sub64 a b) ≡ a
unfolding add64 sub64
add64-sub64 a b h k = omega arith

pub sub64-IsWord : (a b : ℕ) → IsWord (sub64 a b)
unfolding sub64
sub64-IsWord a b = omega arith
