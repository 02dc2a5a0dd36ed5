-- ===== src/Transition/Entities.antt =====
-- internal/typefacts/wire_transition_rows.go: the entity rows of one path.
pub mod Laws
use solid_ts_facts.Prelude.{
  ℕ, ◌*◌, ◌/◌, ◌%◌, ◌^◌, bit_or, Bool, true, false, not, ◌&&◌, ◌||◌, Option, none, some, List, [],
  ◌∷◌, ◌>>=◌, leb, ◌==◌, if◌then◌else◌, length, add64, sub64, Result, err, ok,
}
use solid_ts_facts.Keys.{GoString, str_eq}
use solid_ts_facts.Transition.Codes.{
  RowError, unknown_code, path_mismatch, resolved_and_unresolved, negative_count,
  non_finite_candidate, bool_bit, callability_code, constructability_code, array_shape_code,
  reference_space_code, runtime_value_domain_bits, primitive_value_domain_bits,
}
use solid_ts_facts.Transition.Facts.{
  Callability, callability_absent, callability_unknown, Constructability, constructability_absent,
  RuntimeValueDomain, PrimitiveLiteralKind, literal_string, literal_number, literal_boolean,
  literal_other, PrimitiveLiteralCandidate, ConstantValueKind, constant_string, constant_number,
  constant_other, ConstantValue, ArrayShape, array_shape_absent, TupleShape, ReferenceSpace,
  reference_space_absent, Call, EntityFact,
}
use solid_ts_facts.Transition.Rows.{
  Written, is_negative, refuse_if, is_empty, is_some, when_some, validate_location,
  write_resolved_call,
}
use solid_ts_facts.Transition.Writer.{Draft, put, signed, text, internal_type_descriptor}
use solid_ts_facts.Wire.Flags.{or_flags}

-- The codes of an entity that are computed, and may be refused, before its row begins. A field that
-- is absent has the code 0, which is not written.
pub record EntityCodes : Type 0 where
  pub callability : ℕ
  pub constructability : ℕ
  pub reference_space : ℕ
  pub array_shape : ℕ
  pub element_zero : ℕ

unfoldable pub has_callability : Callability → Bool
has_callability callability_absent = false
has_callability value = true

unfoldable pub has_constructability : Constructability → Bool
has_constructability constructability_absent = false
has_constructability value = true

unfoldable pub has_array_shape : ArrayShape → Bool
has_array_shape array_shape_absent = false
has_array_shape value = true

unfoldable pub has_reference_space : ReferenceSpace → Bool
has_reference_space reference_space_absent = false
has_reference_space value = true

code_if : Bool → Result RowError ℕ → Result RowError ℕ
code_if present code = if present then code else ok 0

element_zero_of : Callability → Callability
element_zero_of callability_absent = callability_unknown
element_zero_of value = value

tuple_code : Option TupleShape → ℕ → Result RowError ℕ
unfolding element_zero_of callability_code refuse_if is_negative
tuple_code none schema = ok 0
tuple_code (some shape) schema = do
  code ← callability_code (element_zero_of shape.element_zero) schema
  _ ←
      refuse_if
        (is_negative shape.fixed_length
          || is_negative shape.element_zero_minimum_parameters
          || is_negative shape.exact_length)
        negative_count
  ok code

unfoldable pub entity_codes : EntityFact → ℕ → Result RowError EntityCodes
unfolding code_if callability_code constructability_code reference_space_code array_shape_code
    tuple_code has_callability has_constructability has_reference_space has_array_shape
entity_codes entity schema = do
  callability ←
      code_if (has_callability entity.callability) (callability_code entity.callability schema)
  constructability ←
      code_if (has_constructability entity.constructability)
        (constructability_code entity.constructability)
  reference_space ←
      code_if (has_reference_space entity.reference_space)
        (reference_space_code entity.reference_space)
  array_shape ← code_if (has_array_shape entity.array_shape) (array_shape_code entity.array_shape)
  element_zero ← tuple_code entity.tuple_shape schema
  ok (record {
    callability = callability;
    constructability = constructability;
    reference_space = reference_space;
    array_shape = array_shape;
    element_zero = element_zero;
  })

-- The presence bits of a row. A field that came with a later version is absent before it.
abbrev pub entity_fields : EntityFact → ℕ → List (Bool × ℕ)
entity_fields entity schema =
    (is_some entity.type_descriptor, 0)
    ∷ (is_some entity.resolved_call, 1)
    ∷ (has_callability entity.callability, 2)
    ∷ (has_reference_space entity.reference_space, 3)
    ∷ (not (is_empty entity.runtime_identity), 4)
    ∷ (is_some entity.runtime_value_domain, 5)
    ∷ (leb 7 schema && is_some entity.call_result_domain, 7)
    ∷ (leb 8 schema && is_some entity.constant_value, 8)
    ∷ (leb 9 schema && has_array_shape entity.array_shape, 9)
    ∷ (leb 11 schema && is_some entity.tuple_shape, 10)
    ∷ (leb 12 schema && not (is_empty entity.library_types), 11)
    ∷ (leb 13 schema && not (entity.primitive_value_domain == 0), 12)
    ∷ (leb 14 schema && has_constructability entity.constructability, 13)
    ∷ (leb 16 schema && not (is_empty entity.primitive_literal_candidates), 14)
    ∷ (leb 5 schema && entity.symbol_unresolved, 6)
    ∷ []

unfoldable pub entity_flags : EntityFact → ℕ → ℕ
unfolding or_flags
entity_flags entity schema = or_flags (entity_fields entity schema) 0

write_constant_as : Draft → ConstantValue → ConstantValueKind → Written
unfolding put text
write_constant_as d constant constant_string = ok (text (put d 0) constant.string)
write_constant_as d constant constant_number = ok (put (put d 1) constant.number)
write_constant_as d constant (constant_other kind) = err unknown_code

write_constant : Draft → ConstantValue → Written
unfolding write_constant_as
write_constant d constant = write_constant_as d constant constant.kind

-- The fixed slots with the rest flag in bit 0, then element zero; from version 13 on the exact
-- length plus one, or 0 for an unknown one.
write_tuple : ℕ → ℕ → Draft → TupleShape → Draft
unfolding put
write_tuple schema code d shape =
    let packed = shape.fixed_length * 2 % 2 ^ 64 in
    let headed =
      put (put (put d (if shape.has_rest then bit_or packed 1 else packed)) code)
        shape.element_zero_minimum_parameters in
    if leb 13 schema
    then put headed (if shape.exact_length_known then add64 shape.exact_length 1 else 0)
    else headed

library_rows : Draft → List GoString → Draft
unfolding text
library_rows d [] = d
library_rows d (name ∷ rest) = library_rows (text d name) rest

-- math.IsNaN(x) || math.IsInf(x, 0): all exponent bits are set.
unfoldable pub is_non_finite : ℕ → Bool
is_non_finite number = number / 2 ^ 52 % 2 ^ 11 == 2047

write_candidate_as : Draft → PrimitiveLiteralCandidate → PrimitiveLiteralKind → Written
unfolding put text refuse_if is_non_finite bool_bit
write_candidate_as d candidate literal_string = ok (text (put d 0) candidate.string)
write_candidate_as d candidate literal_number = do
  _ ← refuse_if (is_non_finite candidate.number) non_finite_candidate
  ok (put (put d 1) candidate.number)
write_candidate_as d candidate literal_boolean = ok (put (put d 2) (bool_bit candidate.boolean))
write_candidate_as d candidate (literal_other kind) = err unknown_code

write_candidate : Draft → PrimitiveLiteralCandidate → Written
unfolding write_candidate_as
write_candidate d candidate = write_candidate_as d candidate candidate.kind

candidate_rows : Draft → List PrimitiveLiteralCandidate → Written
unfolding write_candidate
candidate_rows d [] = ok d
candidate_rows d (candidate ∷ rest) = do
  next ← write_candidate d candidate
  candidate_rows next rest

put_if : Bool → Draft → ℕ → Draft
unfolding put
put_if present d value = if present then put d value else d

write_resolved : Draft → Option Call → ℕ → Written
unfolding write_resolved_call
write_resolved d none schema = ok d
write_resolved d (some call) schema = write_resolved_call d call schema

write_constant_value : Draft → Option ConstantValue → ℕ → Written
unfolding write_constant
write_constant_value d none schema = ok d
write_constant_value d (some constant) schema =
    if leb 8 schema then write_constant d constant else ok d

write_domain : Draft → RuntimeValueDomain → Draft
unfolding put runtime_value_domain_bits
write_domain d domain = put d (runtime_value_domain_bits domain)

write_result_domain : Draft → Option RuntimeValueDomain → ℕ → Draft
unfolding write_domain when_some
write_result_domain d domain schema = if leb 7 schema then when_some domain d write_domain else d

write_tuple_shape : Draft → Option TupleShape → ℕ → ℕ → Draft
unfolding write_tuple when_some
write_tuple_shape d shape schema code =
    if leb 11 schema then when_some shape d (write_tuple schema code) else d

write_library_types : Draft → List GoString → ℕ → Draft
unfolding library_rows put is_empty
write_library_types d names schema =
    if leb 12 schema && not (is_empty names) then library_rows (put d (length names)) names else d

write_candidates : Draft → List PrimitiveLiteralCandidate → ℕ → Written
unfolding candidate_rows put is_empty
write_candidates d candidates schema =
    if leb 16 schema && not (is_empty candidates)
    then candidate_rows (put d (length candidates)) candidates
    else ok d

-- A row's payloads, each present as its flag says.
unfoldable pub write_payloads : Draft → EntityFact → EntityCodes → ℕ → Written
unfolding when_some internal_type_descriptor write_resolved put_if has_callability
    has_reference_space write_domain write_result_domain write_constant_value has_array_shape
    write_tuple_shape write_library_types primitive_value_domain_bits has_constructability
    write_candidates text is_empty
write_payloads d entity codes schema = do
  let described = when_some entity.type_descriptor d internal_type_descriptor
  called ← write_resolved described entity.resolved_call schema
  let callable = put_if (has_callability entity.callability) called codes.callability
  let spaced = put_if (has_reference_space entity.reference_space) callable codes.reference_space
  let identified =
      if is_empty entity.runtime_identity then spaced else text spaced entity.runtime_identity
  let domained = when_some entity.runtime_value_domain identified write_domain
  let resulted = write_result_domain domained entity.call_result_domain schema
  constant ← write_constant_value resulted entity.constant_value schema
  let shaped =
      put_if (leb 9 schema && has_array_shape entity.array_shape) constant codes.array_shape
  let tupled = write_tuple_shape shaped entity.tuple_shape schema codes.element_zero
  let typed = write_library_types tupled entity.library_types schema
  let primitive =
      put_if (leb 13 schema && not (entity.primitive_value_domain == 0)) typed
        (primitive_value_domain_bits entity.primitive_value_domain)
  let constructed =
      put_if (leb 14 schema && has_constructability entity.constructability) primitive
        codes.constructability
  write_candidates constructed entity.primitive_literal_candidates schema

unfoldable pub write_entity : Draft → GoString → EntityFact → ℕ → ℕ → Written
unfolding refuse_if validate_location entity_codes signed put text entity_flags write_payloads
    is_empty
write_entity d path entity schema previous_start = do
  _ ← refuse_if (not (str_eq entity.location.path path)) path_mismatch
  _ ← validate_location entity.location
  _ ← refuse_if (not (is_empty entity.symbol) && entity.symbol_unresolved) resolved_and_unresolved
  codes ← entity_codes entity schema
  let placed =
      put (signed d (sub64 entity.location.start_byte previous_start))
        (sub64 entity.location.end_byte entity.location.start_byte)
  write_payloads (put (text placed entity.symbol) (entity_flags entity schema)) entity codes schema

unfoldable pub entity_rows : Draft → GoString → List EntityFact → ℕ → ℕ → Written
unfolding write_entity
entity_rows d path [] schema previous_start = ok d
entity_rows d path (entity ∷ rest) schema previous_start = do
  next ← write_entity d path entity schema previous_start
  entity_rows next path rest schema entity.location.start_byte

unfoldable pub write_entity_run : Draft → GoString → List EntityFact → ℕ → Written
unfolding entity_rows put
write_entity_run d path entities schema =
    entity_rows (put d (length entities)) path entities schema 0
