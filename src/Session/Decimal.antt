-- ===== src/Session/Decimal.antt =====
-- strconv.FormatUint of Go's library in base ten, as the session's state tokens use it.
use mathlib.Core.List.{reverse, reverse-reverse}
use solid_ts_facts.Prelude.{
  ℕ, zero, suc, ◌+◌, ◌-◌, ◌*◌, ◌/◌, ◌%◌, ◌<◌, ◌≡◌, sym, ap, ◌∙◌, ◌≢◌, [], ◌∷◌, arith, ltb,
  if◌then◌else◌, length,
}
use solid_ts_facts.Keys.{GoString}

-- Decimal digits, the last one first.
digits_back : ℕ → ℕ → GoString
digits_back zero n = []
digits_back (suc fuel) n =
    if ltb n 10 then (48 + n) ∷ [] else (48 + n % 10) ∷ digits_back fuel (n / 10)

unfoldable pub format_uint : ℕ → GoString
unfolding digits_back
format_uint n = reverse (digits_back (suc n) n)

value : GoString → ℕ
value [] = 0
value (d ∷ rest) = (d - 48) + 10 * value rest

value-digits_back : (fuel n : ℕ) → n < fuel → value (digits_back fuel n) ≡ n
unfolding value digits_back
value-digits_back zero n h = absurd (omega arith)
value-digits_back (suc fuel) n h = ground (arith, value-digits_back fuel (n / 10))

-- Reading the digits of a numeral back.
read_back : (n : ℕ) → value (reverse (format_uint n)) ≡ n
unfolding format_uint
read_back n =
    ap value (reverse-reverse (digits_back (suc n) n)) ∙ value-digits_back (suc n) n (omega arith)

pub format_uint_inj : (a b : ℕ) → format_uint a ≡ format_uint b → a ≡ b
format_uint_inj a b h = sym (read_back a) ∙ ap (λ s. value (reverse s)) h ∙ read_back b

digits_back-nonempty : (fuel n : ℕ) → length (digits_back (suc fuel) n) ≢ 0
unfolding digits_back
digits_back-nonempty fuel n h = ground arith

pub format_uint-nonempty : (n : ℕ) → format_uint n ≢ []
unfolding format_uint
format_uint-nonempty n h =
    digits_back-nonempty n n
      (ap length (sym (reverse-reverse (digits_back (suc n) n)) ∙ ap reverse h))
