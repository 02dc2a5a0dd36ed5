-- ===== src/Transition/Paths/Laws.antt =====
-- What the flags of a path operation say to a reader that only knows their layout.
use solid_ts_facts.Prelude.{
  zero, suc, ℕ, ◌+◌, ◌*◌, ◌/◌, ◌%◌, ◌^◌, ◌<◌, bit_or, ◌≡◌, refl, sym, ap, ◌∙◌, ◌⊎◌, inl, inr,
  Option, none, some, arith, ◌>>=◌, Result, err, ok, ok_inj,
}
use solid_ts_facts.Prelude.Bits.{bit_or-above}
use solid_ts_facts.Transition.Codes.{RowError}
use solid_ts_facts.Transition.Paths.{
  removed, CollectionOp, unchanged, replaced_by, other_op, PathOp, op_code, path_flags,
}

-- What an operation does to its collection, for a reader of the flags.
pub data OpKind : Type 0 where
  keeps : OpKind
  replaces : OpKind
  removes : OpKind

-- The reader's table of two bits.
unfoldable pub read_kind : ℕ → Option OpKind
read_kind zero = some keeps
read_kind (suc zero) = some replaces
read_kind (suc (suc zero)) = some removes
read_kind (suc (suc (suc n))) = none

abbrev pub kind_of : {A : Type 0} → CollectionOp A → Option OpKind
kind_of unchanged = some keeps
kind_of (replaced_by a) = some replaces
kind_of removed = some removes
kind_of (other_op n) = none

-- The operation has a kind, and the two bits read as it.
abbrev pub Reads : {A : Type 0} → CollectionOp A → ℕ → Type 0
Reads operation bits =
    (kind : OpKind) × (kind_of operation ≡ some kind) × (read_kind bits ≡ some kind)

-- What the outcome of packing the flags tells of the three operations.
abbrev pub FlagsTell : PathOp → Result RowError ℕ → Type 0
FlagsTell operation (ok flags) =
    Reads operation.source_op (flags % 4)
    × Reads operation.entity_op (flags / 4 % 4)
    × Reads operation.file_op (flags / 16)
FlagsTell operation (err e) =
    (kind_of operation.source_op ≡ none)
    ⊎ (kind_of operation.entity_op ≡ none)
    ⊎ (kind_of operation.file_op ≡ none)

abbrev CodesOf : PathOp → ℕ → Type 0
CodesOf operation flags =
    (op_code operation.source_op ≡ ok (flags % 4))
    × (op_code operation.entity_op ≡ ok (flags / 4 % 4))
    × (op_code operation.file_op ≡ ok (flags / 16))

op_code-lt :
    {A : Type 0} (operation : CollectionOp A) (code : ℕ) → op_code operation ≡ ok code → code < 3
unfolding op_code
op_code-lt unchanged code h = omega (arith, ok_inj h)
op_code-lt (replaced_by a) code h = omega (arith, ok_inj h)
op_code-lt removed code h = omega (arith, ok_inj h)
op_code-lt (other_op n) code h = cc

packed_codes :
    (source entity file : ℕ)
    → source < 3
    → entity < 3
    → bit_or (bit_or source (entity * 2 ^ 2)) (file * 2 ^ 4) ≡ source + entity * 4 + file * 16
packed_codes source entity file p q =
    rw (bit_or-above 2 source entity (omega arith))
      (bit_or-above 4 (source + entity * 4) file (omega arith))

op_codes :
    (source entity file : Result RowError ℕ) (flags : ℕ)
    → ((code : ℕ) → source ≡ ok code → code < 3)
    → ((code : ℕ) → entity ≡ ok code → code < 3)
    → (source >>= λ s. entity >>= λ e. file >>= λ f. ok (bit_or (bit_or s (e * 2 ^ 2)) (f * 2 ^ 4)))
      ≡ ok flags
    → (source ≡ ok (flags % 4)) × (entity ≡ ok (flags / 4 % 4)) × (file ≡ ok (flags / 16))
op_codes (err x) entity file flags p q h = cc
op_codes (ok s) (err x) file flags p q h = cc
op_codes (ok s) (ok e) (err x) flags p q h = cc
op_codes (ok s) (ok e) (ok f) flags p q h =
    let sum : flags ≡ s + e * 4 + f * 16 =
      sym (ok_inj h) ∙ packed_codes s e f (p s refl) (q e refl) in
    let small_s : s < 3 = p s refl in
    let small_e : e < 3 = q e refl in
    (ap ok (omega arith), ap ok (omega arith), ap ok (omega arith))

op_code-Reads :
    {A : Type 0} (operation : CollectionOp A) (code : ℕ)
    → op_code operation ≡ ok code
    → Reads operation code
unfolding op_code read_kind
op_code-Reads unchanged code h = (keeps, refl, ap read_kind (sym (ok_inj h)))
op_code-Reads (replaced_by a) code h = (replaces, refl, ap read_kind (sym (ok_inj h)))
op_code-Reads removed code h = (removes, refl, ap read_kind (sym (ok_inj h)))
op_code-Reads (other_op n) code h = absurd cc

op_code-refused :
    {A : Type 0} (operation : CollectionOp A) (e : RowError)
    → op_code operation ≡ err e
    → kind_of operation ≡ none
unfolding op_code
op_code-refused unchanged e h = absurd cc
op_code-refused (replaced_by a) e h = absurd cc
op_code-refused removed e h = absurd cc
op_code-refused (other_op n) e h = refl

refused_codes :
    (source entity file : Result RowError ℕ) (e : RowError)
    → (source >>= λ s. entity >>= λ t. file >>= λ f. ok (bit_or (bit_or s (t * 2 ^ 2)) (f * 2 ^ 4)))
      ≡ err e
    → (source ≡ err e) ⊎ (entity ≡ err e) ⊎ (file ≡ err e)
refused_codes (err x) entity file e h = inl h
refused_codes (ok s) (err x) file e h = inr (inl h)
refused_codes (ok s) (ok t) (err x) e h = inr (inr h)
refused_codes (ok s) (ok t) (ok f) e h = absurd cc

FlagsTell-ok :
    (operation : PathOp) (flags : ℕ)
    → path_flags operation ≡ ok flags
    → FlagsTell operation (ok flags)
unfolding path_flags
FlagsTell-ok operation flags h =
    let codes : CodesOf operation flags =
      op_codes (op_code operation.source_op) (op_code operation.entity_op)
        (op_code operation.file_op) flags (op_code-lt operation.source_op)
        (op_code-lt operation.entity_op) h in
    (
      op_code-Reads operation.source_op (flags % 4) codes.0,
      op_code-Reads operation.entity_op (flags / 4 % 4) codes.1,
      op_code-Reads operation.file_op (flags / 16) codes.2,
    )

FlagsTell-err :
    (operation : PathOp) (e : RowError) → path_flags operation ≡ err e → FlagsTell operation (err e)
unfolding path_flags
FlagsTell-err operation e h =
    elim (refused_codes (op_code operation.source_op) (op_code operation.entity_op)
      (op_code operation.file_op) e h) [
        | inl source ↦ inl (op_code-refused operation.source_op e source)
        | inr (inl entity) ↦ inr (inl (op_code-refused operation.entity_op e entity))
        | inr (inr file) ↦ inr (inr (op_code-refused operation.file_op e file))
      ]

-- The flags of a path operation read back as what it does to the three collections, from two bits
-- each with the source's lowest: 0 keeps the collection, 1 replaces it and 2 removes it. They are
-- refused only when one of the three operations is none of these.
pub path_flags-FlagsTell : (operation : PathOp) → FlagsTell operation (path_flags operation)
path_flags-FlagsTell operation = tell (path_flags operation) refl
  where
    tell : (flags : Result RowError ℕ) → path_flags operation ≡ flags → FlagsTell operation flags
    tell (ok flags) h = FlagsTell-ok operation flags h
    tell (err e) h = FlagsTell-err operation e h
