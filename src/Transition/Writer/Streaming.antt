-- ===== src/Transition/Writer/Streaming.antt =====
-- The buffer of a `packedWriter`: `flush`, `flushLimit`, `flushed` and `err`. `flush` is the
-- caller's function; here it says, from the chunks handed on before, whether the next one fails.
use solid_ts_facts.Prelude.{
  ℕ, ◌+◌, ◌≡◌, refl, sym, ap, ◌∙◌, ◌⊎◌, inl, inr, Bool, true, false, ◌||◌, Option, none, some, List,
  [], ◌∷◌, ◌++◌, append_assoc, append-nil, arith, ltb, ◌==◌, if◌then◌else◌, Bool-cases, length,
  length-append,
}

pub record Buffer : Type 0 where
  pub bytes : List ℕ
  pub handed : List (List ℕ)
  pub flushed : ℕ
  pub failed : Bool

abbrev pub Flush : Type 0
Flush = List (List ℕ) → List ℕ → Bool

-- w.flush(w.bytes), what it accepts, and the empty buffer after it.
unfoldable pub hand_on : Flush → Buffer → Buffer
hand_on flush b =
    if flush b.handed b.bytes then record b { bytes = []; failed = true } else record b {
      bytes = [];
      handed = b.handed ++ (b.bytes ∷ []);
      flushed = b.flushed + length b.bytes;
    }

unfoldable pub maybe_flush : Option Flush → ℕ → Buffer → Buffer
unfolding hand_on
maybe_flush none limit b = b
maybe_flush (some flush) limit b =
    if b.failed || ltb (length b.bytes) limit then b else hand_on flush b

unfoldable pub append_piece : Option Flush → ℕ → Buffer → List ℕ → Buffer
unfolding maybe_flush
append_piece flush limit b piece = maybe_flush flush limit (record b { bytes = b.bytes ++ piece })

unfoldable pub append_pieces : Option Flush → ℕ → Buffer → List (List ℕ) → Buffer
append_pieces flush limit b [] = b
append_pieces flush limit b (piece ∷ rest) =
    append_pieces flush limit (append_piece flush limit b piece) rest

unfoldable pub finish_buffer : Option Flush → Buffer → Buffer
unfolding hand_on
finish_buffer none b = b
finish_buffer (some flush) b = if b.failed || length b.bytes == 0 then b else hand_on flush b

abbrev pub empty_buffer : Buffer
empty_buffer = record { bytes = []; handed = []; flushed = 0; failed = false }

abbrev pub joined : List (List ℕ) → List ℕ
joined [] = []
joined (piece ∷ rest) = piece ++ joined rest

abbrev pub IsPrefix : List ℕ → List ℕ → Type 0
IsPrefix l m = (rest : List ℕ) × (l ++ rest ≡ m)

-- What was handed on, with what the buffer holds, is what was written; after a failure it is a
-- prefix of it.
abbrev Delivers : Buffer → List ℕ → Type 0
Delivers b written =
    (b.flushed ≡ length (joined b.handed))
    × (((b.failed ≡ true) × IsPrefix (joined b.handed) written)
        ⊎ ((b.failed ≡ false) × (joined b.handed ++ b.bytes ≡ written)))

joined-append :
    (l : List (List ℕ)) (piece : List ℕ) → joined (l ++ (piece ∷ [])) ≡ joined l ++ piece
joined-append [] piece = append-nil piece
joined-append (q ∷ l) piece =
    ap (λ m. q ++ m) (joined-append l piece) ∙ sym (append_assoc q (joined l) piece)

length-joined :
    (l : List (List ℕ)) (piece : List ℕ)
    → length (joined (l ++ (piece ∷ []))) ≡ length (joined l) + length piece
length-joined l piece = ap length (joined-append l piece) ∙ length-append (joined l) piece

hand_on-Delivers :
    (flush : Flush) (b : Buffer) (written : List ℕ)
    → b.failed ≡ false
    → b.flushed ≡ length (joined b.handed)
    → joined b.handed ++ b.bytes ≡ written
    → Delivers (hand_on flush b) written
unfolding hand_on
hand_on-Delivers flush b written open_ count same = elim (Bool-cases (flush b.handed b.bytes)) [
  | inl refused ↦ rw (hand_on, refused) (count, inl (refl, (b.bytes, same)))
  | inr accepted ↦
      rw (hand_on, accepted)
        (
          rw (length-joined b.handed b.bytes, count) refl,
          inr (
            open_,
            append-nil (joined (b.handed ++ (b.bytes ∷ [])))
                ∙ joined-append b.handed b.bytes
                ∙ same,
          ),
        )
]

-- Whether the buffer is handed on or kept does not matter, if it is kept after a failure.
hand_on_unless-Delivers :
    (keep : Bool) (flush : Flush) (b : Buffer) (written : List ℕ)
    → (keep ≡ false → b.failed ≡ false)
    → Delivers b written
    → Delivers (if keep then b else hand_on flush b) written
hand_on_unless-Delivers true flush b written kept h = h
hand_on_unless-Delivers false flush b written kept (count, inl (failed, prefix)) =
    let open_ : b.failed ≡ false = kept refl in cc
hand_on_unless-Delivers false flush b written kept (count, inr (open_, same)) =
    hand_on-Delivers flush b written open_ count same

or_false_left : (a b : Bool) → (a || b) ≡ false → a ≡ false
or_false_left a b h = ground arith

maybe_flush-Delivers :
    (flush : Option Flush) (limit : ℕ) (b : Buffer) (written : List ℕ)
    → Delivers b written
    → Delivers (maybe_flush flush limit b) written
unfolding maybe_flush
maybe_flush-Delivers none limit b written h = h
maybe_flush-Delivers (some flush) limit b written h =
    hand_on_unless-Delivers (b.failed || ltb (length b.bytes) limit) flush b written
      (or_false_left b.failed (ltb (length b.bytes) limit)) h

Delivers-append :
    (b : Buffer) (written piece : List ℕ)
    → Delivers b written
    → Delivers (record b { bytes = b.bytes ++ piece }) (written ++ piece)
Delivers-append b written piece (count, inl (failed, (rest, same))) = (
  count,
  inl (
    failed,
    (rest ++ piece, sym (append_assoc (joined b.handed) rest piece) ∙ ap (λ l. l ++ piece) same),
  ),
)
Delivers-append b written piece (count, inr (open_, same)) = (
  count,
  inr (open_, sym (append_assoc (joined b.handed) b.bytes piece) ∙ ap (λ l. l ++ piece) same),
)

append_pieces-Delivers :
    (flush : Option Flush) (limit : ℕ) (b : Buffer) (pieces : List (List ℕ)) (written : List ℕ)
    → Delivers b written
    → Delivers (append_pieces flush limit b pieces) (written ++ joined pieces)
unfolding append_pieces append_piece
append_pieces-Delivers flush limit b [] written h = rw (append-nil written) h
append_pieces-Delivers flush limit b (piece ∷ rest) written h =
    rw (sym (append_assoc written piece (joined rest))) (
      append_pieces-Delivers flush limit (append_piece flush limit b piece) rest (written ++ piece)
        (maybe_flush-Delivers flush limit (record b { bytes = b.bytes ++ piece }) (written ++ piece)
          (Delivers-append b written piece h)))

finish_buffer-Delivers :
    (flush : Option Flush) (b : Buffer) (written : List ℕ)
    → Delivers b written
    → Delivers (finish_buffer flush b) written
unfolding finish_buffer
finish_buffer-Delivers none b written h = h
finish_buffer-Delivers (some flush) b written h =
    hand_on_unless-Delivers (b.failed || length b.bytes == 0) flush b written
      (or_false_left b.failed (length b.bytes == 0)) h

length_zero : (l : List ℕ) → length l ≡ 0 → l ≡ []
length_zero [] h = refl
length_zero (x ∷ l) h = absurd (omega arith)

finished_empty :
    (keep : Bool) (flush : Flush) (b : Buffer)
    → (keep ≡ true → b.failed ≡ false → b.bytes ≡ [])
    → (if keep then b else hand_on flush b).failed ≡ false
    → (if keep then b else hand_on flush b).bytes ≡ []
unfolding hand_on
finished_empty true flush b kept h = kept refl h
finished_empty false flush b kept h = ground arith

-- Whatever the limit is and wherever the flush function fails, at the end the bytes handed on are
-- as many as were counted; after a failure they are a prefix of those that were written, and else
-- the buffer is empty and they are all of them.
pub finish_buffer-joined :
    (flush : Flush) (limit : ℕ) (pieces : List (List ℕ))
    → let b = finish_buffer (some flush) (append_pieces (some flush) limit empty_buffer pieces) in
      (b.flushed ≡ length (joined b.handed))
      × (((b.failed ≡ true) × IsPrefix (joined b.handed) (joined pieces))
          ⊎ ((b.failed ≡ false) × (b.bytes ≡ []) × (joined b.handed ≡ joined pieces)))
unfolding finish_buffer
finish_buffer-joined flush limit pieces = (delivered.0, split delivered.1)
  where
    before : Buffer
    before = append_pieces (some flush) limit empty_buffer pieces

    b : Buffer
    b = finish_buffer (some flush) before

    delivered : Delivers b (joined pieces)
    delivered =
        finish_buffer-Delivers (some flush) before (joined pieces) (
          append_pieces-Delivers (some flush) limit empty_buffer pieces [] (refl, inr (refl, refl)))

    emptied : b.failed ≡ false → b.bytes ≡ []
    emptied h =
        finished_empty (before.failed || length before.bytes == 0) flush before
          (λ kept open_. length_zero before.bytes (ground arith)) h

    split :
        (((b.failed ≡ true) × IsPrefix (joined b.handed) (joined pieces))
          ⊎ ((b.failed ≡ false) × (joined b.handed ++ b.bytes ≡ joined pieces)))
        → (((b.failed ≡ true) × IsPrefix (joined b.handed) (joined pieces))
            ⊎ ((b.failed ≡ false) × (b.bytes ≡ []) × (joined b.handed ≡ joined pieces)))
    split (inl cut) = inl cut
    split (inr (open_, same)) = inr (
      open_,
      emptied open_,
      sym (append-nil (joined b.handed))
          ∙ ap (λ l. joined b.handed ++ l) (sym (emptied open_))
          ∙ same,
    )
