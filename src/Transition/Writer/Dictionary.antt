-- ===== src/Transition/Writer/Dictionary.antt =====
-- `appendPackedDictionary` of internal/typefacts/wire_transition_codec.go: hashed symbol names as
-- raw digests, the other strings without the prefix that they share with the one before.
-- "symbol:h:"
use solid_ts_facts.Prelude.{
  ℕ, suc, ◌+◌, ◌-◌, ◌*◌, ◌/◌, ◌%◌, ◌<◌, ◌≡◌, refl, sym, ap, ◌∙◌, ◌⊎◌, inl, inr, true, false, ◌&&◌,
  Option, none, some, List, [], ◌∷◌, ◌++◌, arith, ltb, leb, ◌==◌, if◌then◌else◌, Bool-cases,
  some_inj, length, take, drop, All, take-append-drop,
}
use solid_ts_facts.Keys.{GoString, str_eq}
use solid_ts_facts.Keys.Order.{eq_of_str_eq}
use solid_ts_facts.Transition.Writer.{Draft, raw, put}
use solid_ts_facts.Wire.Strings.{StringTable}

abbrev pub hashed_prefix : GoString
hashed_prefix = 115 ∷ 121 ∷ 109 ∷ 98 ∷ 111 ∷ 108 ∷ 58 ∷ 104 ∷ 58 ∷ []

-- encoding/hex reads digits of either case.
hex_value : ℕ → Option ℕ
hex_value c =
    if leb 48 c && leb c 57
    then some (c - 48)
    else if leb 97 c && leb c 102
    then some (c - 87)
    else if leb 65 c && leb c 70
    then some (c - 55)
    else none

join_byte : Option ℕ → Option ℕ → Option (List ℕ) → Option (List ℕ)
join_byte none low rest = none
join_byte (some high) none rest = none
join_byte (some high) (some low) none = none
join_byte (some high) (some low) (some rest) = some ((high * 16 + low) ∷ rest)

unfoldable pub hex_decode : GoString → Option (List ℕ)
unfolding hex_value join_byte
hex_decode [] = some []
hex_decode (c ∷ []) = none
hex_decode (c ∷ e ∷ rest) = join_byte (hex_value c) (hex_value e) (hex_decode rest)

unfoldable pub packed_hashed_symbol : GoString → Option (List ℕ)
unfolding hex_decode
packed_hashed_symbol symbol =
    if str_eq (take 9 symbol) hashed_prefix && length symbol == 33
    then hex_decode (drop 9 symbol)
    else none

unfoldable pub common_string_prefix : GoString → GoString → ℕ
common_string_prefix [] right = 0
common_string_prefix (a ∷ left) [] = 0
common_string_prefix (a ∷ left) (b ∷ right) =
    let more = common_string_prefix left right in if a == b then suc more else 0

pub data Entry : Type 0 where
  hashed : List ℕ → Entry
  prefixed : ℕ → GoString → Entry

entry_from : GoString → GoString → Option (List ℕ) → Entry
unfolding common_string_prefix
entry_from previous value (some digest) = hashed digest
entry_from previous value none =
    let shared = common_string_prefix previous value in prefixed shared (drop shared value)

unfoldable pub entry_of : GoString → GoString → Entry
unfolding packed_hashed_symbol entry_from
entry_of previous value = entry_from previous value (packed_hashed_symbol value)

-- A hashed entry is not what the next one shares a prefix with.
next_previous : GoString → GoString → Entry → GoString
next_previous previous value (hashed digest) = previous
next_previous previous value (prefixed p suffix) = value

unfoldable pub entries_of : GoString → List GoString → List Entry
unfolding entry_of next_previous
entries_of previous [] = []
entries_of previous (value ∷ rest) =
    entry_of previous value
    ∷ entries_of (next_previous previous value (entry_of previous value)) rest

unfoldable pub write_entry : Draft → Entry → Draft
unfolding put raw
write_entry d (hashed digest) = raw (put d 1) digest
write_entry d (prefixed p suffix) = raw (put (put (put d 0) p) (length suffix)) suffix

unfoldable pub write_entries : Draft → List Entry → Draft
unfolding write_entry
write_entries d [] = d
write_entries d (entry ∷ rest) = write_entries (write_entry d entry) rest

unfoldable pub append_packed_dictionary : Draft → StringTable → Draft
unfolding put write_entries entries_of
append_packed_dictionary d dict =
    write_entries (put d (length dict.values)) (entries_of [] dict.values)

-- A reader of the entries: digests in lower case, and the shared prefix from the last other string.
abbrev pub hex_digit : ℕ → ℕ
hex_digit n = if ltb n 10 then n + 48 else n + 87

abbrev pub hex_encode : List ℕ → GoString
hex_encode [] = []
hex_encode (byte ∷ rest) = hex_digit (byte / 16) ∷ hex_digit (byte % 16) ∷ hex_encode rest

abbrev pub strings_of : GoString → List Entry → List GoString
strings_of previous [] = []
strings_of previous (hashed digest ∷ rest) =
    (hashed_prefix ++ hex_encode digest) ∷ strings_of previous rest
strings_of previous (prefixed p suffix ∷ rest) =
    (take p previous ++ suffix) ∷ strings_of (take p previous ++ suffix) rest

-- No upper-case hexadecimal digit.
abbrev pub IsLowerHex : GoString → Type 0
IsLowerHex s = All (λ c. (leb 65 c && leb c 70) ≡ false) s

hex_value-hex_digit :
    (c n : ℕ) → (leb 65 c && leb c 70) ≡ false → hex_value c ≡ some n → (hex_digit n ≡ c) × (n < 16)
unfolding hex_value
hex_value-hex_digit c n lower h = ground arith

join_byte-some :
    (high low : Option ℕ) (rest : Option (List ℕ)) (bytes : List ℕ)
    → join_byte high low rest ≡ some bytes
    → (a : ℕ) × (b : ℕ) × (l : List ℕ) × (high ≡ some a)
      × (low ≡ some b)
      × (rest ≡ some l)
      × (bytes ≡ (a * 16 + b) ∷ l)
unfolding join_byte
join_byte-some none low rest bytes h = cc
join_byte-some (some a) none rest bytes h = cc
join_byte-some (some a) (some b) none bytes h = cc
join_byte-some (some a) (some b) (some l) bytes h = (a, b, l, refl, refl, refl, sym (some_inj h))

hex_encode-hex_decode :
    (s : GoString) (bytes : List ℕ)
    → IsLowerHex s
    → hex_decode s ≡ some bytes
    → hex_encode bytes ≡ s
unfolding hex_decode
hex_encode-hex_decode [] bytes lower h = ap hex_encode (sym (some_inj h))
hex_encode-hex_decode (c ∷ []) bytes lower h = cc
hex_encode-hex_decode (c ∷ e ∷ rest) bytes lower h =
    let (a, b, l, high, low, more, all) =
      join_byte-some (hex_value c) (hex_value e) (hex_decode rest) bytes h in
    let (first, small) = hex_value-hex_digit c a lower.0 high in
    let (second, tiny) = hex_value-hex_digit e b lower.1.0 low in
    let tail : hex_encode l ≡ rest = hex_encode-hex_decode rest l lower.1.1 more in
    let quotient : (a * 16 + b) / 16 ≡ a = omega arith in
    let remainder : (a * 16 + b) % 16 ≡ b = omega arith in
    rw (all, quotient, remainder, first, second, tail) refl

common_string_prefix-take :
    (previous value : GoString)
    → take (common_string_prefix previous value) previous
        ++ drop (common_string_prefix previous value) value
      ≡ value
unfolding common_string_prefix
common_string_prefix-take [] value = refl
common_string_prefix-take (a ∷ left) [] = refl
common_string_prefix-take (a ∷ left) (b ∷ right) = elim (Bool-cases (a == b)) [
  | inl same ↦ rw same (ground (arith, common_string_prefix-take left right))
  | inr other ↦ rw other refl
]

-- What a string has to be to read back: not hashed, or hashed in lower case.
abbrev pub IsReadable : GoString → Type 0
IsReadable value = (packed_hashed_symbol value ≡ none) ⊎ IsLowerHex (drop 9 value)

hashed_value :
    (value : GoString) (digest : List ℕ)
    → IsReadable value
    → packed_hashed_symbol value ≡ some digest
    → hashed_prefix ++ hex_encode digest ≡ value
unfolding packed_hashed_symbol
hashed_value value digest (inl plain) h = cc
hashed_value value digest (inr lower) h =
    let starts : str_eq (take 9 value) hashed_prefix ≡ true = ground arith in
    let decoded : hex_decode (drop 9 value) ≡ some digest = ground arith in
    ap (λ s. s ++ hex_encode digest) (sym (eq_of_str_eq (take 9 value) hashed_prefix starts))
    ∙ ap (λ s. take 9 value ++ s) (hex_encode-hex_decode (drop 9 value) digest lower decoded)
    ∙ take-append-drop 9 value

strings_of-entry_from :
    (previous value : GoString) (rest : List GoString) (digest : Option (List ℕ))
    → packed_hashed_symbol value ≡ digest
    → IsReadable value
    → ((last : GoString) → strings_of last (entries_of last rest) ≡ rest)
    → strings_of previous (
        entry_from previous value digest
        ∷ entries_of (next_previous previous value (entry_from previous value digest)) rest)
      ≡ value ∷ rest
unfolding entry_from next_previous
strings_of-entry_from previous value rest (some digest) e lower more =
    rw (hashed_value value digest lower e, more previous) refl
strings_of-entry_from previous value rest none e lower more =
    rw (common_string_prefix-take previous value, more value) refl

-- A reader that keeps the last string that was not hashed gets every string of a dictionary back
-- from its entries, where every string that is written as a digest is in lower case.
pub strings_of-entries_of :
    (previous : GoString) (values : List GoString)
    → All IsReadable values
    → strings_of previous (entries_of previous values) ≡ values
unfolding entries_of entry_of
strings_of-entries_of previous [] h = refl
strings_of-entries_of previous (value ∷ rest) h =
    strings_of-entry_from previous value rest (packed_hashed_symbol value) refl h.0
      (λ last. strings_of-entries_of last rest h.1)
