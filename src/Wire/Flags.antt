-- ===== src/Wire/Flags.antt =====
-- The demand flags of protocolv3_compact.go: one bit for each field of a demand.
use solid_ts_facts.Prelude.{
  ℕ, zero, suc, ◌^◌, ◌<◌, ◌≡◌, refl, ◌∙◌, Bool, true, false, not, ◌&&◌, ◌||◌, Option, List, [], ◌∷◌,
  ◌==◌, if◌then◌else◌, bit_and, bit_or, arith, All,
}
use solid_ts_facts.Prelude.Bits.{bit, bit-bit_or, bit_and-pow, bit_or-lt_pow}
use solid_ts_facts.Model.{Location, EntityDemand}

-- The bit positions k of `demandFlagX = 1 << k`.
abbrev pub demand_flag_symbol : ℕ
demand_flag_symbol = 0

abbrev pub demand_flag_references : ℕ
demand_flag_references = 1

abbrev pub demand_flag_type_descriptor : ℕ
demand_flag_type_descriptor = 2

abbrev pub demand_flag_resolved_call : ℕ
demand_flag_resolved_call = 3

abbrev pub demand_flag_async : ℕ
demand_flag_async = 4

abbrev pub demand_flag_structural_accessor : ℕ
demand_flag_structural_accessor = 5

abbrev pub demand_flag_callability : ℕ
demand_flag_callability = 6

abbrev pub demand_flag_reference_space : ℕ
demand_flag_reference_space = 7

abbrev pub demand_flag_runtime_identity : ℕ
demand_flag_runtime_identity = 8

abbrev pub demand_flag_runtime_value_domain : ℕ
demand_flag_runtime_value_domain = 9

abbrev pub demand_flag_call_result_domain : ℕ
demand_flag_call_result_domain = 10

abbrev pub demand_flag_constant_value : ℕ
demand_flag_constant_value = 11

abbrev pub demand_flag_array_shape : ℕ
demand_flag_array_shape = 12

abbrev pub demand_flag_tuple_shape : ℕ
demand_flag_tuple_shape = 13

abbrev pub demand_flag_library_types : ℕ
demand_flag_library_types = 14

abbrev pub demand_flag_primitive_value_domain : ℕ
demand_flag_primitive_value_domain = 15

abbrev pub demand_flag_constructability : ℕ
demand_flag_constructability = 16

abbrev pub demand_flag_primitive_literal_candidates : ℕ
demand_flag_primitive_literal_candidates = 17

abbrev pub demand_flag_parameter_object_shape : ℕ
demand_flag_parameter_object_shape = 18

-- `if demand.X { flags |= demandFlagX }`, one after the other.
unfoldable pub or_flags : List (Bool × ℕ) → ℕ → ℕ
or_flags [] flags = flags
or_flags ((wanted, k) ∷ rest) flags = or_flags rest (if wanted then bit_or flags (2 ^ k) else flags)

abbrev demand_fields : EntityDemand → List (Bool × ℕ)
demand_fields d =
    (d.symbol, demand_flag_symbol)
    ∷ (d.references, demand_flag_references)
    ∷ (d.type_descriptor, demand_flag_type_descriptor)
    ∷ (d.resolved_call, demand_flag_resolved_call)
    ∷ (d.async, demand_flag_async)
    ∷ (d.structural_accessor, demand_flag_structural_accessor)
    ∷ (d.callability, demand_flag_callability)
    ∷ (d.reference_space, demand_flag_reference_space)
    ∷ (d.runtime_identity, demand_flag_runtime_identity)
    ∷ (d.runtime_value_domain, demand_flag_runtime_value_domain)
    ∷ (d.call_result_domain, demand_flag_call_result_domain)
    ∷ (d.constant_value, demand_flag_constant_value)
    ∷ (d.array_shape, demand_flag_array_shape)
    ∷ (d.tuple_shape, demand_flag_tuple_shape)
    ∷ (d.library_types, demand_flag_library_types)
    ∷ (d.primitive_value_domain, demand_flag_primitive_value_domain)
    ∷ (d.primitive_literal_candidates, demand_flag_primitive_literal_candidates)
    ∷ (d.parameter_object_shape, demand_flag_parameter_object_shape)
    ∷ (d.constructability, demand_flag_constructability)
    ∷ []

unfoldable pub demand_flags : EntityDemand → ℕ
unfolding or_flags
demand_flags d = or_flags (demand_fields d) 0

-- flags&(1 << k) != 0
unfoldable pub has_flag : ℕ → ℕ → Bool
has_flag flags k = not (bit_and flags (2 ^ k) == 0)

-- The demand that a row's location and flags describe, with no query location yet.
unfoldable pub demand_of_flags : Location → ℕ → Option Location → EntityDemand
demand_of_flags location flags query = record {
  location = location;
  query_location = query;
  symbol = has_flag flags demand_flag_symbol;
  type_descriptor = has_flag flags demand_flag_type_descriptor;
  resolved_call = has_flag flags demand_flag_resolved_call;
  callability = has_flag flags demand_flag_callability;
  constructability = has_flag flags demand_flag_constructability;
  runtime_value_domain = has_flag flags demand_flag_runtime_value_domain;
  primitive_value_domain = has_flag flags demand_flag_primitive_value_domain;
  primitive_literal_candidates = has_flag flags demand_flag_primitive_literal_candidates;
  parameter_object_shape = has_flag flags demand_flag_parameter_object_shape;
  call_result_domain = has_flag flags demand_flag_call_result_domain;
  constant_value = has_flag flags demand_flag_constant_value;
  array_shape = has_flag flags demand_flag_array_shape;
  tuple_shape = has_flag flags demand_flag_tuple_shape;
  library_types = has_flag flags demand_flag_library_types;
  reference_space = has_flag flags demand_flag_reference_space;
  runtime_identity = has_flag flags demand_flag_runtime_identity;
  references = has_flag flags demand_flag_references;
  async = has_flag flags demand_flag_async;
  structural_accessor = has_flag flags demand_flag_structural_accessor;
}

-- The fields that a bit stands for, as tests on positions.
abbrev pub field_of : ℕ → List (Bool × ℕ) → Bool
field_of k [] = false
field_of k ((wanted, j) ∷ rest) = (bit k (2 ^ j) == 1 && wanted) || field_of k rest

pow_pos : (k : ℕ) → 0 < 2 ^ k
pow_pos zero = omega arith
pow_pos (suc k) = omega (arith, pow_pos k)

has_flag-bit : (flags k : ℕ) → has_flag flags k ≡ (bit k flags == 1)
unfolding has_flag
has_flag-bit flags k = rw (bit_and-pow k flags) (grind (arith, pow_pos k))

or_flags-bit :
    (k : ℕ) (fields : List (Bool × ℕ)) (flags : ℕ)
    → (bit k (or_flags fields flags) == 1) ≡ ((bit k flags == 1) || field_of k fields)
unfolding or_flags
or_flags-bit k [] flags = ground arith
or_flags-bit k ((true, j) ∷ rest) flags =
    or_flags-bit k rest (bit_or flags (2 ^ j)) ∙ rw (bit-bit_or k flags (2 ^ j)) (ground arith)
or_flags-bit k ((false, j) ∷ rest) flags = or_flags-bit k rest flags ∙ ground arith

or_false : (b : Bool) → (b || false) ≡ b
or_false b = ground arith

-- A bit of flags that were set from fields is the field of its position.
pub or_flags-field :
    (fields : List (Bool × ℕ)) (k : ℕ) (wanted : Bool)
    → ((bit k 0 == 1) || field_of k fields) ≡ (wanted || false)
    → has_flag (or_flags fields 0) k ≡ wanted
or_flags-field fields k wanted h =
    has_flag-bit (or_flags fields 0) k ∙ or_flags-bit k fields 0 ∙ h ∙ or_false wanted

-- The flag at a position reads the field of that position.
flags_field :
    (d : EntityDemand) (k : ℕ) (wanted : Bool)
    → ((bit k 0 == 1) || field_of k (demand_fields d)) ≡ (wanted || false)
    → has_flag (demand_flags d) k ≡ wanted
unfolding demand_flags
flags_field d k wanted h = or_flags-field (demand_fields d) k wanted h

-- The flags give back every field of the demand that they were made from.
pub demand_of_flags-demand_flags :
    (d : EntityDemand) (location : Location) (query : Option Location)
    → demand_of_flags location (demand_flags d) query
      ≡ record d { location = location; query_location = query }
unfolding demand_of_flags
demand_of_flags-demand_flags d location query = rw (
  flags_field d demand_flag_symbol d.symbol refl,
  flags_field d demand_flag_references d.references refl,
  flags_field d demand_flag_type_descriptor d.type_descriptor refl,
  flags_field d demand_flag_resolved_call d.resolved_call refl,
  flags_field d demand_flag_async d.async refl,
  flags_field d demand_flag_structural_accessor d.structural_accessor refl,
  flags_field d demand_flag_callability d.callability refl,
  flags_field d demand_flag_reference_space d.reference_space refl,
  flags_field d demand_flag_runtime_identity d.runtime_identity refl,
  flags_field d demand_flag_runtime_value_domain d.runtime_value_domain refl,
  flags_field d demand_flag_call_result_domain d.call_result_domain refl,
  flags_field d demand_flag_constant_value d.constant_value refl,
  flags_field d demand_flag_array_shape d.array_shape refl,
  flags_field d demand_flag_tuple_shape d.tuple_shape refl,
  flags_field d demand_flag_library_types d.library_types refl,
  flags_field d demand_flag_primitive_value_domain d.primitive_value_domain refl,
  flags_field d demand_flag_constructability d.constructability refl,
  flags_field d demand_flag_primitive_literal_candidates d.primitive_literal_candidates refl,
  flags_field d demand_flag_parameter_object_shape d.parameter_object_shape refl,
)

or_flags-lt :
    (fields : List (Bool × ℕ)) (flags : ℕ)
    → All (λ f. 2 ^ f.1 < 2 ^ 19) fields
    → flags < 2 ^ 19
    → or_flags fields flags < 2 ^ 19
unfolding or_flags
or_flags-lt [] flags h k = k
or_flags-lt ((true, j) ∷ rest) flags h k =
    or_flags-lt rest (bit_or flags (2 ^ j)) h.1 (bit_or-lt_pow 19 flags (2 ^ j) k h.0)
or_flags-lt ((false, j) ∷ rest) flags h k = or_flags-lt rest flags h.1 k

pub demand_flags-lt : (d : EntityDemand) → demand_flags d < 2 ^ 19
unfolding demand_flags
demand_flags-lt d = or_flags-lt (demand_fields d) 0 (omega arith) (omega arith)
