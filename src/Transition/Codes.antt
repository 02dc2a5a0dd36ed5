-- ===== src/Transition/Codes.antt =====
-- The closed tag spaces of internal/typefacts/wire_transition_rows.go, and the domain bits. A
-- version stands for itself: 15 is `TypeFactsTableSchemaVersionV15`.
pub mod Laws
use solid_ts_facts.Prelude.{
  ℕ, ◌^◌, bit_and, bit_or, Bool, not, ◌&&◌, ◌||◌, List, [], ◌∷◌, ltb, ◌==◌, if◌then◌else◌, Result,
  ok, err,
}
use solid_ts_facts.Transition.Facts.{
  Callability, callability_absent, callability_callable, callability_untyped_callable,
  callability_non_callable, callability_mixed, callability_unknown, callability_other,
  Constructability, constructability_absent, constructability_constructable,
  constructability_non_constructable, constructability_mixed, constructability_unknown,
  constructability_other, RuntimeValueDomain, ArrayShape, array_shape_absent, array_shape_array,
  array_shape_not_array, array_shape_mixed, array_shape_unknown, array_shape_other, ReferenceSpace,
  reference_space_absent, reference_space_value, reference_space_type, reference_space_both,
  reference_space_neither, reference_space_other, ResolvedCallValidity, resolved_call_valid,
  resolved_call_recovery, resolved_call_unresolved, resolved_call_other, CallKind,
  call_kind_unknown, call_kind_call, call_kind_construct, call_kind_other, ArgumentMappingStatus,
  argument_mapping_resolved, argument_mapping_unresolved, argument_mapping_other,
  ArgumentMappingReason, reason_absent, reason_call_unresolved, reason_recovery_signature,
  reason_composite_signature, reason_spread_argument, reason_parameter_unavailable, reason_other,
  ConstructionWitness, witness_unknown, witness_empty_array, witness_empty_object, witness_other,
}
use solid_ts_facts.Wire.Flags.{or_flags, has_flag}

-- The reasons to refuse a row, one for each `fmt.Errorf`; the indexes and names that the messages
-- print are left out.
pub data RowError : Type 0 where
  unknown_code : RowError
  empty_path : RowError
  bad_collection_op : RowError
  path_mismatch : RowError
  negative_start : RowError
  end_before_start : RowError
  resolved_and_unresolved : RowError
  negative_count : RowError
  no_candidates : RowError
  candidate_without_symbol : RowError
  status_reason_disagree : RowError
  non_finite_candidate : RowError
  empty_id : RowError
  bad_symbol_tag : RowError
  full_tag : RowError
  id_mismatch : RowError

unfoldable pub bool_bit : Bool → ℕ
bool_bit value = if value then 1 else 0

unfoldable pub validity_code : ResolvedCallValidity → Result RowError ℕ
validity_code resolved_call_valid = ok 0
validity_code resolved_call_recovery = ok 1
validity_code resolved_call_unresolved = ok 2
validity_code (resolved_call_other s) = err unknown_code

unfoldable pub call_kind_code : CallKind → Result RowError ℕ
call_kind_code call_kind_unknown = ok 0
call_kind_code call_kind_call = ok 1
call_kind_code call_kind_construct = ok 2
call_kind_code (call_kind_other s) = err unknown_code

unfoldable pub mapping_status_code : ArgumentMappingStatus → Result RowError ℕ
mapping_status_code argument_mapping_resolved = ok 0
mapping_status_code argument_mapping_unresolved = ok 1
mapping_status_code (argument_mapping_other s) = err unknown_code

unfoldable pub mapping_reason_code : ArgumentMappingReason → Result RowError ℕ
mapping_reason_code reason_absent = ok 0
mapping_reason_code reason_call_unresolved = ok 1
mapping_reason_code reason_recovery_signature = ok 2
mapping_reason_code reason_composite_signature = ok 3
mapping_reason_code reason_spread_argument = ok 4
mapping_reason_code reason_parameter_unavailable = ok 5
mapping_reason_code (reason_other s) = err unknown_code

-- Before version 15 there is no tag for untyped callables, and they are written as unknown.
degrade : Callability → ℕ → Callability
degrade callability_untyped_callable schema =
    if ltb schema 15 then callability_unknown else callability_untyped_callable
degrade value schema = value

callability_tag : Callability → Result RowError ℕ
callability_tag callability_callable = ok 0
callability_tag callability_non_callable = ok 1
callability_tag callability_mixed = ok 2
callability_tag callability_unknown = ok 3
callability_tag callability_untyped_callable = ok 4
callability_tag callability_absent = err unknown_code
callability_tag (callability_other s) = err unknown_code

unfoldable pub callability_code : Callability → ℕ → Result RowError ℕ
unfolding degrade callability_tag
callability_code value schema = callability_tag (degrade value schema)

unfoldable pub constructability_code : Constructability → Result RowError ℕ
constructability_code constructability_constructable = ok 0
constructability_code constructability_non_constructable = ok 1
constructability_code constructability_mixed = ok 2
constructability_code constructability_unknown = ok 3
constructability_code constructability_absent = err unknown_code
constructability_code (constructability_other n) = err unknown_code

unfoldable pub array_shape_code : ArrayShape → Result RowError ℕ
array_shape_code array_shape_array = ok 0
array_shape_code array_shape_not_array = ok 1
array_shape_code array_shape_mixed = ok 2
array_shape_code array_shape_unknown = ok 3
array_shape_code array_shape_absent = err unknown_code
array_shape_code (array_shape_other s) = err unknown_code

unfoldable pub reference_space_code : ReferenceSpace → Result RowError ℕ
reference_space_code reference_space_value = ok 0
reference_space_code reference_space_type = ok 1
reference_space_code reference_space_both = ok 2
reference_space_code reference_space_neither = ok 3
reference_space_code reference_space_absent = err unknown_code
reference_space_code (reference_space_other s) = err unknown_code

unfoldable pub construction_witness_code : ConstructionWitness → Result RowError ℕ
construction_witness_code witness_unknown = ok 0
construction_witness_code witness_empty_array = ok 1
construction_witness_code witness_empty_object = ok 2
construction_witness_code (witness_other s) = err unknown_code

abbrev pub runtime_value_domain_fields : RuntimeValueDomain → List (Bool × ℕ)
runtime_value_domain_fields value =
    (value.may_be_callable, 0)
    ∷ (value.may_be_undefined, 1)
    ∷ (value.may_be_other, 2)
    ∷ (value.unknown, 3)
    ∷ []

unfoldable pub runtime_value_domain_bits : RuntimeValueDomain → ℕ
unfolding or_flags
runtime_value_domain_bits value = or_flags (runtime_value_domain_fields value) 0

unfoldable pub is_unknown_domain : ℕ → Bool
is_unknown_domain bits = bits == 65535

-- d.MayBeNumber() && d.bits&primitiveNumbersFinite != 0
unfoldable pub numbers_are_finite : ℕ → Bool
unfolding has_flag
numbers_are_finite bits = has_flag bits 1 && has_flag bits 8

abbrev pub primitive_value_domain_fields : ℕ → List (Bool × ℕ)
primitive_value_domain_fields d =
    (has_flag d 0, 0)
    ∷ (has_flag d 1, 1)
    ∷ (has_flag d 2, 2)
    ∷ (has_flag d 3, 3)
    ∷ (has_flag d 4, 4)
    ∷ (has_flag d 5, 5)
    ∷ (has_flag d 6, 6)
    ∷ (has_flag d 7, 7)
    ∷ (is_unknown_domain d, 8)
    ∷ (numbers_are_finite d, 9)
    ∷ []

unfoldable pub primitive_value_domain_bits : ℕ → ℕ
unfolding or_flags has_flag is_unknown_domain numbers_are_finite
primitive_value_domain_bits d = or_flags (primitive_value_domain_fields d) 0

-- NewPrimitiveValueDomain, with its nine flags in order.
unfoldable pub new_primitive_value_domain :
    Bool → Bool → Bool → Bool → Bool → Bool → Bool → Bool → Bool → ℕ
unfolding or_flags
new_primitive_value_domain string number boolean bigint symbol null undefined object finite =
    let bits =
      or_flags
        ((string, 0)
          ∷ (number, 1)
          ∷ (boolean, 2)
          ∷ (bigint, 3)
          ∷ (symbol, 4)
          ∷ (null, 5)
          ∷ (undefined, 6)
          ∷ (object, 7)
          ∷ (number && finite, 8)
          ∷ [])
        0 in
    if bits == 0 then 2 ^ 9 else bits

-- PrimitiveValueDomain.Union; `(1 << 16) - 1 - (1 << 8) - (1 << 9)` is 64767.
unfoldable pub union_domain : ℕ → ℕ → ℕ
unfolding is_unknown_domain has_flag numbers_are_finite
union_domain d e =
    let kept = bit_and (bit_or d e) 64767 in
    let finite =
      has_flag kept 1
      && (not (has_flag d 1) || numbers_are_finite d)
      && (not (has_flag e 1) || numbers_are_finite e) in
    let bits = if finite then bit_or kept (2 ^ 8) else kept in
    let closed = if bits == 0 && (not (d == 0) || not (e == 0)) then 2 ^ 9 else bits in
    if is_unknown_domain d || is_unknown_domain e then 65535 else closed
