-- ===== src/Transition/Codes/Laws.antt =====
-- What a reader can rely on about the tags and the domain bits.
use solid_ts_facts.Prelude.{
  ℕ, ◌<◌, ◌≡◌, refl, Bool, true, false, ◌&&◌, arith, ltb, ◌==◌, if◌then◌else◌, ok, ok_inj,
}
use solid_ts_facts.Transition.Codes.{
  callability_code, runtime_value_domain_fields, runtime_value_domain_bits, is_unknown_domain,
  numbers_are_finite, primitive_value_domain_fields, primitive_value_domain_bits,
}
use solid_ts_facts.Transition.Facts.{
  Callability, callability_absent, callability_callable, callability_untyped_callable,
  callability_non_callable, callability_mixed, callability_unknown, callability_other,
  RuntimeValueDomain,
}
use solid_ts_facts.Wire.Flags.{has_flag, or_flags-field}

-- What a tag reads as, for a reader that knows every tag.
abbrev pub callability_of : ℕ → Callability
callability_of code =
    if code == 0
    then callability_callable
    else if code == 1
    then callability_non_callable
    else if code == 2
    then callability_mixed
    else if code == 3
    then callability_unknown
    else callability_untyped_callable

abbrev pub is_untyped : Callability → Bool
is_untyped callability_untyped_callable = true
is_untyped value = false

-- A tag reads back as the callability that was written, but for an untyped callable before version
-- 15, which reads as unknown; and before version 15 every tag is below 4.
pub callability_code-callability_of :
    (value : Callability) (schema code : ℕ)
    → callability_code value schema ≡ ok code
    → (callability_of code
        ≡ (if is_untyped value && ltb schema 15 then callability_unknown else value))
      × (code < (if ltb schema 15 then 4 else 5))
unfolding callability_code
callability_code-callability_of callability_absent schema code h = cc
callability_code-callability_of callability_callable schema code h = ground (arith, ok_inj h)
callability_code-callability_of callability_untyped_callable schema code h = ground arith
callability_code-callability_of callability_non_callable schema code h = ground (arith, ok_inj h)
callability_code-callability_of callability_mixed schema code h = ground (arith, ok_inj h)
callability_code-callability_of callability_unknown schema code h = ground (arith, ok_inj h)
callability_code-callability_of (callability_other s) schema code h = cc

abbrev pub RuntimeDomainRead : RuntimeValueDomain → Type 0
RuntimeDomainRead value =
    (has_flag (runtime_value_domain_bits value) 0 ≡ value.may_be_callable)
    × (has_flag (runtime_value_domain_bits value) 1 ≡ value.may_be_undefined)
    × (has_flag (runtime_value_domain_bits value) 2 ≡ value.may_be_other)
    × (has_flag (runtime_value_domain_bits value) 3 ≡ value.unknown)

-- The four possibilities of a runtime value domain read back from its bits.
pub runtime_value_domain_bits-has_flag : (value : RuntimeValueDomain) → RuntimeDomainRead value
unfolding runtime_value_domain_bits
runtime_value_domain_bits-has_flag value = (
  or_flags-field (runtime_value_domain_fields value) 0 value.may_be_callable refl,
  or_flags-field (runtime_value_domain_fields value) 1 value.may_be_undefined refl,
  or_flags-field (runtime_value_domain_fields value) 2 value.may_be_other refl,
  or_flags-field (runtime_value_domain_fields value) 3 value.unknown refl,
)

abbrev pub PrimitiveDomainRead : ℕ → Type 0
PrimitiveDomainRead d =
    (has_flag (primitive_value_domain_bits d) 0 ≡ has_flag d 0)
    × (has_flag (primitive_value_domain_bits d) 1 ≡ has_flag d 1)
    × (has_flag (primitive_value_domain_bits d) 2 ≡ has_flag d 2)
    × (has_flag (primitive_value_domain_bits d) 3 ≡ has_flag d 3)
    × (has_flag (primitive_value_domain_bits d) 4 ≡ has_flag d 4)
    × (has_flag (primitive_value_domain_bits d) 5 ≡ has_flag d 5)
    × (has_flag (primitive_value_domain_bits d) 6 ≡ has_flag d 6)
    × (has_flag (primitive_value_domain_bits d) 7 ≡ has_flag d 7)
    × (has_flag (primitive_value_domain_bits d) 8 ≡ (d == 65535))
    × (has_flag (primitive_value_domain_bits d) 9 ≡ (has_flag d 1 && has_flag d 8))

-- The bits on the wire are those of the domain for the eight kinds of values, and beside them whether
-- the domain is the unknown one, which has all sixteen bits, and whether it may hold numbers and has
-- its bit 8, which says that they are finite.
pub primitive_value_domain_bits-has_flag : (d : ℕ) → PrimitiveDomainRead d
unfolding primitive_value_domain_bits is_unknown_domain numbers_are_finite
primitive_value_domain_bits-has_flag d = (
  or_flags-field (primitive_value_domain_fields d) 0 (has_flag d 0) refl,
  or_flags-field (primitive_value_domain_fields d) 1 (has_flag d 1) refl,
  or_flags-field (primitive_value_domain_fields d) 2 (has_flag d 2) refl,
  or_flags-field (primitive_value_domain_fields d) 3 (has_flag d 3) refl,
  or_flags-field (primitive_value_domain_fields d) 4 (has_flag d 4) refl,
  or_flags-field (primitive_value_domain_fields d) 5 (has_flag d 5) refl,
  or_flags-field (primitive_value_domain_fields d) 6 (has_flag d 6) refl,
  or_flags-field (primitive_value_domain_fields d) 7 (has_flag d 7) refl,
  or_flags-field (primitive_value_domain_fields d) 8 (d == 65535) refl,
  or_flags-field (primitive_value_domain_fields d) 9 (has_flag d 1 && has_flag d 8) refl,
)
