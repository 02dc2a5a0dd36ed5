-- ===== src/Transition/Entities/Laws.antt =====
-- What a written entity run and its flags say about the entities.
use solid_ts_facts.Prelude.{
  ℕ, ◌≤◌, ◌≡◌, refl, ◌⊎◌, inl, inr, Bool, true, false, not, ◌&&◌, List, [], ◌∷◌, arith, ◌>>=◌, leb,
  ◌==◌, length, All, IsWord, IsNonNegative, int_lt, Result, err, ok, ok->>=,
}
use solid_ts_facts.Keys.{GoString, str_eq}
use solid_ts_facts.Keys.Order.{eq_of_str_eq}
use solid_ts_facts.Model.{Location}
use solid_ts_facts.Transition.Codes.{
  RowError, path_mismatch, negative_start, end_before_start, resolved_and_unresolved,
}
use solid_ts_facts.Transition.Entities.{
  has_callability, has_constructability, has_array_shape, has_reference_space, entity_flags,
  write_entity, entity_rows, write_entity_run,
}
use solid_ts_facts.Transition.Facts.{EntityFact}
use solid_ts_facts.Transition.Rows.{
  Written, is_negative, refuse_if, is_empty, is_some, validate_location,
}
use solid_ts_facts.Transition.Writer.{Draft, put}
use solid_ts_facts.Wire.Flags.{has_flag}

abbrev pub FlagIs : EntityFact → ℕ → ℕ → Bool → Type 0
FlagIs entity schema k present = has_flag (entity_flags entity schema) k ≡ present

abbrev pub FlagsRead : EntityFact → ℕ → Type 0
FlagsRead entity schema =
    FlagIs entity schema 0 (is_some entity.type_descriptor)
    × FlagIs entity schema 1 (is_some entity.resolved_call)
    × FlagIs entity schema 2 (has_callability entity.callability)
    × FlagIs entity schema 3 (has_reference_space entity.reference_space)
    × FlagIs entity schema 4 (not (is_empty entity.runtime_identity))
    × FlagIs entity schema 5 (is_some entity.runtime_value_domain)
    × FlagIs entity schema 6 (leb 5 schema && entity.symbol_unresolved)
    × FlagIs entity schema 7 (leb 7 schema && is_some entity.call_result_domain)
    × FlagIs entity schema 8 (leb 8 schema && is_some entity.constant_value)
    × FlagIs entity schema 9 (leb 9 schema && has_array_shape entity.array_shape)
    × FlagIs entity schema 10 (leb 11 schema && is_some entity.tuple_shape)
    × FlagIs entity schema 11 (leb 12 schema && not (is_empty entity.library_types))
    × FlagIs entity schema 12 (leb 13 schema && not (entity.primitive_value_domain == 0))
    × FlagIs entity schema 13 (leb 14 schema && has_constructability entity.constructability)
    × FlagIs entity schema 14 (leb 16 schema && not (is_empty entity.primitive_literal_candidates))

-- A location whose offsets are the patterns of 64-bit integers.
abbrev pub IsPlaced : EntityFact → Type 0
IsPlaced entity = IsWord entity.location.start_byte × IsWord entity.location.end_byte

-- An entity of the run's path, between offsets that are in order and not negative as `int`s, that is
-- unresolved only without a symbol.
abbrev pub IsWritable : GoString → EntityFact → Type 0
IsWritable path entity =
    (entity.location.path ≡ path)
    × (entity.location.start_byte ≤ entity.location.end_byte)
    × IsNonNegative entity.location.end_byte
    × ((entity.symbol ≡ []) ⊎ (entity.symbol_unresolved ≡ false))

negated : (b : Bool) → not b ≡ false → b ≡ true
negated b h = ground arith

-- A row that is written passed its three checks.
checks_passed :
    (first second third : Result RowError (Unit {0})) (written : Written) {out : Draft}
    → (first >>= λ _. second >>= λ _. third >>= λ _. written) ≡ ok out
    → (first ≡ ok tt) × (second ≡ ok tt) × (third ≡ ok tt)
checks_passed (err e) second third written h = cc
checks_passed (ok x) (err e) third written h = cc
checks_passed (ok x) (ok y) (err e) written h = cc
checks_passed (ok x) (ok y) (ok z) written h = (refl, refl, refl)

refuse_if-ok : (test : Bool) (error : RowError) → refuse_if test error ≡ ok tt → test ≡ false
unfolding refuse_if
refuse_if-ok true error h = cc
refuse_if-ok false error h = refl

located :
    (location : Location)
    → IsWord location.start_byte
    → IsWord location.end_byte
    → validate_location location ≡ ok tt
    → (location.start_byte ≤ location.end_byte) × IsNonNegative location.end_byte
unfolding validate_location is_negative int_lt
located location p q h =
    let start = ok->>= (refuse_if (is_negative location.start_byte) negative_start) _ h in
    let positive = refuse_if-ok (is_negative location.start_byte) negative_start start.1 in
    let ordered =
      refuse_if-ok (int_lt location.end_byte location.start_byte) end_before_start start.2 in
    (ground (arith, positive, ordered), ground (arith, positive, ordered))

unresolved :
    (symbol : GoString) (is_unresolved : Bool)
    → (not (is_empty symbol) && is_unresolved) ≡ false
    → (symbol ≡ []) ⊎ (is_unresolved ≡ false)
unfolding is_empty
unresolved [] is_unresolved h = inl refl
unresolved (x ∷ symbol) is_unresolved h = inr h

write_entity-IsWritable :
    (d out : Draft) (path : GoString) (entity : EntityFact) (schema previous_start : ℕ)
    → IsPlaced entity
    → write_entity d path entity schema previous_start ≡ ok out
    → IsWritable path entity
unfolding write_entity
write_entity-IsWritable d out path entity schema previous_start placed h =
    let passed =
      checks_passed (refuse_if (not (str_eq entity.location.path path)) path_mismatch)
        (validate_location entity.location)
        (refuse_if (not (is_empty entity.symbol) && entity.symbol_unresolved)
          resolved_and_unresolved)
        _ h in
    let (in_order, non_negative) = located entity.location placed.0 placed.1 passed.1 in
    (
      eq_of_str_eq entity.location.path path (
          negated (str_eq entity.location.path path)
            (refuse_if-ok (not (str_eq entity.location.path path)) path_mismatch passed.0)),
      in_order,
      non_negative,
      unresolved entity.symbol entity.symbol_unresolved (
          refuse_if-ok (not (is_empty entity.symbol) && entity.symbol_unresolved)
            resolved_and_unresolved passed.2),
    )

entity_rows-IsWritable :
    (d out : Draft) (path : GoString) (entities : List EntityFact) (schema previous_start : ℕ)
    → All IsPlaced entities
    → entity_rows d path entities schema previous_start ≡ ok out
    → All (IsWritable path) entities
unfolding entity_rows
entity_rows-IsWritable d out path [] schema previous_start placed h = tt
entity_rows-IsWritable d out path (entity ∷ rest) schema previous_start placed h =
    let (next, wrote, more) =
      ok->>= (write_entity d path entity schema previous_start)
        (λ next. entity_rows next path rest schema entity.location.start_byte) h in
    (
      write_entity-IsWritable d next path entity schema previous_start placed.0 wrote,
      entity_rows-IsWritable next out path rest schema entity.location.start_byte placed.1 more,
    )

-- A run of entities at 64-bit offsets that is written holds entities of its own path only, each from
-- a start to an end that does not precede it, neither of them negative, and each unresolved only
-- when it has no symbol.
pub write_entity_run-IsWritable :
    (d out : Draft) (path : GoString) (entities : List EntityFact) (schema : ℕ)
    → All IsPlaced entities
    → write_entity_run d path entities schema ≡ ok out
    → All (IsWritable path) entities
unfolding write_entity_run
write_entity_run-IsWritable d out path entities schema placed h =
    entity_rows-IsWritable (put d (length entities)) out path entities schema 0 placed h
