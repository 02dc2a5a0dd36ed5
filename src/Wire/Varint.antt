-- ===== src/Wire/Varint.antt =====
-- encoding/binary's unsigned varints as protocolv3_compact.go uses them, and `takeCompactUvarint`.
use native.Mathlib.Nat.{div-add-mod}
use native.Mathlib.Numerals.{towards_suc}
use solid_ts_facts.Prelude.{
  ℕ, zero, suc, ◌+◌, ◌*◌, ◌/◌, ◌%◌, ◌^◌, ◌≤◌, ◌<◌, ◌≡◌, ap, ◌&&◌, List, [], ◌∷◌, ◌++◌, ltb, ◌==◌,
  if◌then◌else◌, arith, length, All, IsWord, subst,
}

-- The outcome of reading a varint: what is left is the rest of the input.
pub data Taken {ℓ} (A : Type ℓ) : Type ℓ where
  took : A → List ℕ → Taken A
  truncated : Taken A
  overflowing : Taken A

-- binary.AppendUvarint: seven bits a byte, lowest first, the top bit set on all but the last.
-- `groups` bounds the bytes written; ten are enough for 64 bits.
unfoldable pub uvarint_bytes : ℕ → ℕ → List ℕ
uvarint_bytes zero v = []
uvarint_bytes (suc groups) v =
    let more = uvarint_bytes groups (v / 128) in
    if ltb v 128 then v ∷ [] else (v % 128 + 128) ∷ more

unfoldable pub append_uvarint : List ℕ → ℕ → List ℕ
unfolding uvarint_bytes
append_uvarint bytes v = bytes ++ uvarint_bytes 10 v

-- binary.Uvarint's loop: `i` bytes are read, `x` is their value and `s` the next shift. The bits of
-- a new byte lie above those of `x`, so its `|` is a sum.
unfoldable pub read_uvarint : List ℕ → ℕ → ℕ → ℕ → Taken ℕ
read_uvarint [] i x s = truncated
read_uvarint (b ∷ rest) i x s =
    let more = read_uvarint rest (i + 1) ((x + b % 128 * 2 ^ s) % 2 ^ 64) (s + 7) in
    if i == 10
    then overflowing
    else if ltb b 128
    then if i == 9 && ltb 1 b then overflowing else took ((x + b * 2 ^ s) % 2 ^ 64) rest
    else more

unfoldable pub take_compact_uvarint : List ℕ → Taken ℕ
unfolding read_uvarint
take_compact_uvarint input = read_uvarint input 0 0 0

-- Ten groups cover every 64-bit word, and each written element is a byte.
pub uvarint_bytes-IsByte : (groups v : ℕ) → All (λ b. b < 256) (uvarint_bytes groups v)
unfolding uvarint_bytes
uvarint_bytes-IsByte zero v = tt
uvarint_bytes-IsByte (suc groups) v = ground (arith, uvarint_bytes-IsByte groups (v / 128))

pub length-uvarint_bytes : (groups v : ℕ) → length (uvarint_bytes groups v) ≤ groups
unfolding uvarint_bytes
length-uvarint_bytes zero v = omega arith
length-uvarint_bytes (suc groups) v = ground (arith, length-uvarint_bytes groups (v / 128))

next_scale : (s : ℕ) → 2 ^ (s + 7) ≡ 128 * 2 ^ s
next_scale s = simp towards_suc (omega arith)

regroup : (v s : ℕ) → v * 2 ^ s ≡ v % 128 * 2 ^ s + v / 128 * 2 ^ (s + 7)
regroup v s = omega (
  arith,
  ap (λ (t : ℕ). t * 2 ^ s) (div-add-mod v 128),
  ap (λ (t : ℕ). v / 128 * t) (next_scale s),
)

tenth_byte : (v x s : ℕ) → s ≡ 63 → IsWord (x + v * 2 ^ s) → v ≤ 1
tenth_byte v x s e fits =
    let wide : IsWord (x + v * 2 ^ 63) = subst (λ (t : ℕ). IsWord (x + v * 2 ^ t)) e fits in
    omega arith

last_byte :
    (v i x s : ℕ) (rest : List ℕ)
    → v < 128
    → i < 10
    → s ≡ 7 * i
    → IsWord (x + v * 2 ^ s)
    → read_uvarint (v ∷ rest) i x s ≡ took (x + v * 2 ^ s) rest
unfolding read_uvarint
last_byte v i x s rest hv hi hs fits = ground (arith, tenth_byte v x s)

inner_byte :
    (g i x s : ℕ) (rest : List ℕ)
    → g < 128
    → i < 10
    → IsWord (x + g * 2 ^ s)
    → read_uvarint ((g + 128) ∷ rest) i x s ≡ read_uvarint rest (i + 1) (x + g * 2 ^ s) (s + 7)
unfolding read_uvarint
inner_byte g i x s rest hg hi fits = ground arith

-- `v` is what is still to be read, counted from bit `s` on.
read_uvarint-uvarint_bytes :
    (groups v i x s : ℕ) (rest : List ℕ)
    → v < 128 ^ suc groups
    → i + suc groups ≡ 10
    → s ≡ 7 * i
    → IsWord (x + v * 2 ^ s)
    → read_uvarint (uvarint_bytes (suc groups) v ++ rest) i x s ≡ took (x + v * 2 ^ s) rest
unfolding uvarint_bytes
read_uvarint-uvarint_bytes zero v i x s rest hv hi hs fits = ground (arith, last_byte v i x s rest)
read_uvarint-uvarint_bytes (suc groups) v i x s rest hv hi hs fits = ground (
  arith,
  last_byte v i x s rest,
  regroup v s,
  inner_byte (v % 128) i x s (uvarint_bytes (suc groups) (v / 128) ++ rest),
  read_uvarint-uvarint_bytes groups (v / 128) (i + 1) (x + v % 128 * 2 ^ s) (s + 7) rest
      (omega arith),
)

-- A varint read back in front of any input gives the word that was written, and that input.
pub take-append_uvarint :
    (v : ℕ) (rest : List ℕ)
    → IsWord v
    → take_compact_uvarint (uvarint_bytes 10 v ++ rest) ≡ took v rest
unfolding take_compact_uvarint
take-append_uvarint v rest h =
    ground (arith, read_uvarint-uvarint_bytes 9 v 0 0 0 rest (omega arith))

read_uvarint_takes :
    (input : List ℕ) (i x s v : ℕ) (rest : List ℕ)
    → i ≤ 10
    → read_uvarint input i x s ≡ took v rest
    → IsWord v × (length rest < length input) × (length input + i ≤ length rest + 10)
unfolding read_uvarint
read_uvarint_takes [] i x s v rest hi h = cc
read_uvarint_takes (b ∷ bs) i x s v rest hi h =
    ground (arith, read_uvarint_takes bs (i + 1) ((x + b % 128 * 2 ^ s) % 2 ^ 64) (s + 7) v rest)

-- On any input, what is taken is a 64-bit word, and one to ten bytes of the input are used.
pub take_compact_uvarint_takes :
    (input : List ℕ) (v : ℕ) (rest : List ℕ)
    → take_compact_uvarint input ≡ took v rest
    → IsWord v × (length rest < length input) × (length input ≤ length rest + 10)
unfolding take_compact_uvarint
take_compact_uvarint_takes input v rest h = ground (arith, read_uvarint_takes input 0 0 0 v rest)
