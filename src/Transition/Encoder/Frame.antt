-- ===== src/Transition/Encoder/Frame.antt =====
-- How an encoded transition reads back from its front, and when none is encoded.
use solid_ts_facts.Prelude.{
  ℕ, zero, suc, ◌≡◌, refl, sym, ap, ◌∙◌, ◌⊎◌, Option, none, some, List, [], ◌∷◌, ◌++◌, map,
  append_assoc, append-nil, arith, length, All, IsWord,
}
use solid_ts_facts.Transition.Encoder.{is_delta, header, new_draft, frame_bytes}
use solid_ts_facts.Transition.Tables.{TransitionMode, full_mode, delta_mode, EncodedTransition}
use solid_ts_facts.Transition.Writer.{Draft, raw, put}
use solid_ts_facts.Transition.Writer.Dictionary.{
  Entry, hashed, prefixed, entries_of, write_entry, write_entries, append_packed_dictionary,
}
use solid_ts_facts.Transition.Writer.Streaming.{joined}
use solid_ts_facts.Wire.Varint.{
  Taken, took, truncated, overflowing, uvarint_bytes, take_compact_uvarint, take-append_uvarint,
}

-- As many numbers as asked for, and the bytes behind them.
taken_numbers : ℕ → (List ℕ → Option (List ℕ × List ℕ)) → Taken ℕ → Option (List ℕ × List ℕ)
taken_numbers n more (took v rest) = elim (more rest) [
  | none ↦ none
  | some numbers ↦ some (v ∷ numbers.0, numbers.1)
]
taken_numbers n more truncated = none
taken_numbers n more overflowing = none

unfoldable pub read_numbers : ℕ → List ℕ → Option (List ℕ × List ℕ)
unfolding taken_numbers
read_numbers zero bytes = some ([], bytes)
read_numbers (suc n) bytes = taken_numbers n (read_numbers n) (take_compact_uvarint bytes)

read_numbers-written :
    (values : List ℕ) (rest : List ℕ)
    → All IsWord values
    → read_numbers (length values) (joined (map (uvarint_bytes 10) values) ++ rest)
      ≡ some (values, rest)
unfolding read_numbers taken_numbers
read_numbers-written [] rest h = refl
read_numbers-written (v ∷ values) rest (w, h) =
    ap (λ b. read_numbers (suc (length values)) b) (append_assoc (uvarint_bytes 10 v) _ rest)
    ∙ ap (taken_numbers (length values) (read_numbers (length values)))
        (take-append_uvarint v (joined (map (uvarint_bytes 10) values) ++ rest) w)
    ∙ ap
        (λ o.
          taken_numbers (length values) (λ b. o)
            (took v (joined (map (uvarint_bytes 10) values) ++ rest)))
        (read_numbers-written values rest h)

-- Writing on keeps what was written.
abbrev Extends : Draft → Draft → Type 0
Extends d e = (extra : List (List ℕ)) × (e.pieces ≡ d.pieces ++ extra)

Extends-trans : (d e f : Draft) → Extends d e → Extends e f → Extends d f
Extends-trans d e f (x, p) (y, q) = (x ++ y, q ∙ ap (λ l. l ++ y) p ∙ append_assoc d.pieces x y)

put-Extends : (d : Draft) (v : ℕ) → Extends d (put d v)
unfolding put raw
put-Extends d v = (uvarint_bytes 10 v ∷ [], refl)

raw-Extends : (d : Draft) (bytes : List ℕ) → Extends d (raw d bytes)
unfolding raw
raw-Extends d bytes = (bytes ∷ [], refl)

write_entry-Extends : (d : Draft) (entry : Entry) → Extends d (write_entry d entry)
unfolding write_entry
write_entry-Extends d (hashed digest) =
    Extends-trans d (put d 1) (raw (put d 1) digest) (put-Extends d 1)
      (raw-Extends (put d 1) digest)
write_entry-Extends d (prefixed p suffix) =
    let a : Draft = put d 0 in
    let b : Draft = put a p in
    let c : Draft = put b (length suffix) in
    Extends-trans d a (raw c suffix) (put-Extends d 0) (
      Extends-trans a b (raw c suffix) (put-Extends a p)
        (Extends-trans b c (raw c suffix) (put-Extends b (length suffix)) (raw-Extends c suffix)))

write_entries-Extends : (d : Draft) (entries : List Entry) → Extends d (write_entries d entries)
unfolding write_entries
write_entries-Extends d [] = ([], sym (append-nil d.pieces))
write_entries-Extends d (entry ∷ rest) =
    Extends-trans d (write_entry d entry) (write_entries (write_entry d entry) rest)
      (write_entry-Extends d entry) (write_entries-Extends (write_entry d entry) rest)

joined-both : (l m : List (List ℕ)) → joined (l ++ m) ≡ joined l ++ joined m
joined-both [] m = refl
joined-both (piece ∷ l) m =
    ap (λ b. piece ++ b) (joined-both l m) ∙ sym (append_assoc piece (joined l) (joined m))

abbrev mode_number : TransitionMode → ℕ
mode_number full_mode = 0
mode_number delta_mode = 1

abbrev numbers_of : ℕ → TransitionMode → ℕ → ℕ → List ℕ
numbers_of schema mode base_generation generation =
    1 ∷ mode_number mode ∷ schema ∷ base_generation ∷ generation ∷ []

header-pieces :
    (schema : ℕ) (mode : TransitionMode) (base_generation generation : ℕ)
    → (header schema mode base_generation generation new_draft).pieces
      ≡ map (uvarint_bytes 10) (numbers_of schema mode base_generation generation)
unfolding header put raw is_delta
header-pieces schema full_mode base_generation generation = refl
header-pieces schema delta_mode base_generation generation = refl

frame_bytes-numbers :
    (schema : ℕ) (mode : TransitionMode) (base_generation generation : ℕ) (rows : Draft)
    → (tail : List ℕ) × (frame_bytes schema mode base_generation generation rows
        ≡ joined (map (uvarint_bytes 10) (numbers_of schema mode base_generation generation))
          ++ (tail ++ joined rows.pieces))
unfolding frame_bytes append_packed_dictionary
frame_bytes-numbers schema mode base_generation generation rows =
    let d : Draft = header schema mode base_generation generation new_draft in
    let (extra, e) =
      Extends-trans d (put d (length rows.dict.values)) (append_packed_dictionary d rows.dict)
        (put-Extends d (length rows.dict.values))
        (write_entries-Extends (put d (length rows.dict.values))
          (entries_of [] rows.dict.values)) in
    (
      joined extra,
      ap (λ l. joined l ++ joined rows.pieces)
            (e ∙ ap (λ l. l ++ extra) (header-pieces schema mode base_generation generation))
          ∙ ap (λ l. l ++ joined rows.pieces)
              (joined-both
                (map (uvarint_bytes 10) (numbers_of schema mode base_generation generation)) extra)
          ∙ append_assoc _ (joined extra) (joined rows.pieces),
    )

mode-IsWord : (mode : TransitionMode) → IsWord (mode_number mode)
mode-IsWord full_mode = omega arith
mode-IsWord delta_mode = omega arith

-- A frame starts with five varints that read back as the wire version 1, the mode, the table schema
-- and the generations of the base and the target, and it ends with the bytes of the rows.
pub frame_bytes-read :
    (schema : ℕ) (mode : TransitionMode) (base_generation generation : ℕ) (rows : Draft)
    → IsWord schema
    → IsWord base_generation
    → IsWord generation
    → (tail : List ℕ) × (read_numbers 5 (frame_bytes schema mode base_generation generation rows)
        ≡ some (numbers_of schema mode base_generation generation, tail ++ joined rows.pieces))
frame_bytes-read schema mode base_generation generation rows s b g =
    let (tail, e) = frame_bytes-numbers schema mode base_generation generation rows in
    (
      tail,
      ap (read_numbers 5) e
          ∙ read_numbers-written (numbers_of schema mode base_generation generation)
              (tail ++ joined rows.pieces) (omega arith, (mode-IsWord mode, (s, (b, (g, tt))))),
    )

-- What comes of a plan: no bytes for an empty delta within one generation, or a frame.
abbrev Frames : ℕ → TransitionMode → ℕ → ℕ → EncodedTransition → Type 0
Frames schema mode base_generation generation encoded =
    ((encoded.bytes ≡ [])
      × (mode_number mode ≡ 1)
      × (base_generation ≡ generation)
      × (encoded.path_operations ≡ 0)
      × (encoded.symbol_operations ≡ 0))
    ⊎ ((rows : Draft) × (encoded.bytes ≡ frame_bytes schema mode base_generation generation rows))
