-- ===== src/Tests/Demands.antt =====
-- Demand snapshots: two demands in two files, the second with a query location.
use solid_ts_facts.Prelude.{
  ℕ, ◌+◌, ◌^◌, ◌≤◌, ◌<◌, ◌≡◌, refl, ap, ◌≢◌, Bool, true, false, Option, none, some, List, [], ◌∷◌,
  ◌++◌, map, arith, length, All, IsWord, add64, err, ok,
}
use solid_ts_facts.Keys.{GoString, str_eq}
use solid_ts_facts.Keys.Clean.{clean}
use solid_ts_facts.Keys.Utf8.{rune_width, valid_string}
use solid_ts_facts.Model.{Location, EntityDemand, CompactDemandGroup}
use solid_ts_facts.Session.DemandStore.Canonical.{at_bounds, canonical_demand_run-sorts}
use solid_ts_facts.Session.DemandStore.OffsetOrder.{HasWords, InOffsetOrder}
use solid_ts_facts.Session.DemandStore.Runs.{clean_demand, canonical_demand_run}
use solid_ts_facts.Wire.Demands.{
  compact_demands_from, out_of_fuel, take_number, lookup_string, expand_row, expand_rows,
  expand_group, demand_shape, expand,
}
use solid_ts_facts.Wire.Demands.Encode.{IsSpan}
use solid_ts_facts.Wire.Demands.Opening.{IsEncodable}
use solid_ts_facts.Wire.Demands.RoundTrip.{expand-compact_demands_from}
use solid_ts_facts.Wire.Demands.Rows.{expand_rows-ne-out_of_fuel}
use solid_ts_facts.Wire.Demands.Select.{
  append_compact_demands_with_flag, append_compact_demands_with_flag-expand_group,
}
use solid_ts_facts.Wire.Demands.Shape.{demand_shape-expand}
use solid_ts_facts.Wire.Flags.{
  demand_flag_async, demand_flags, has_flag, demand_of_flags, demand_of_flags-demand_flags,
}
use solid_ts_facts.Wire.Strings.{new_string_table, wire_text, intern, lookup}
use solid_ts_facts.Wire.Strings.Laws.{
  new_string_table-IsTable, lookup-intern, intern_twice, intern_injective,
}
use solid_ts_facts.Wire.Varint.{
  took, uvarint_bytes, take_compact_uvarint, take-append_uvarint, take_compact_uvarint_takes,
}

abbrev path_a : GoString
path_a = 97 ∷ []

abbrev path_b : GoString
path_b = 98 ∷ []

abbrev bare_demand : Location → Option Location → Bool → EntityDemand
bare_demand location query async = record {
  location = location;
  query_location = query;
  symbol = true;
  type_descriptor = false;
  resolved_call = false;
  callability = false;
  constructability = false;
  runtime_value_domain = false;
  primitive_value_domain = false;
  primitive_literal_candidates = false;
  parameter_object_shape = false;
  call_result_domain = false;
  constant_value = false;
  array_shape = false;
  tuple_shape = false;
  library_types = false;
  reference_space = false;
  runtime_identity = false;
  references = true;
  async = async;
  structural_accessor = false;
}

abbrev location_a : Location
location_a = record { path = path_a; start_byte = 5; end_byte = 9 }

abbrev location_b : Location
location_b = record { path = path_b; start_byte = 300; end_byte = 310 }

abbrev demands : List EntityDemand
demands = bare_demand location_a none false ∷ bare_demand location_b (some location_a) true ∷ []

valid_a : valid_string path_a ≡ true
unfolding valid_string rune_width
valid_a = refl

valid_b : valid_string path_b ≡ true
unfolding valid_string rune_width
valid_b = refl

location_a-IsSpan : IsSpan location_a
location_a-IsSpan = record { ordered = omega arith; bounded = omega arith }

location_b-IsSpan : IsSpan location_b
location_b-IsSpan = record { ordered = omega arith; bounded = omega arith }

demands-IsEncodable : All IsEncodable demands
demands-IsEncodable = (
  record { span = location_a-IsSpan; path_valid = valid_a; query = tt },
  (
    record { span = location_b-IsSpan; path_valid = valid_b; query = (location_a-IsSpan, valid_a) },
    tt,
  ),
)

expand-compact_demands_from_example : expand (compact_demands_from demands) ≡ ok demands
expand-compact_demands_from_example =
    expand-compact_demands_from demands demands-IsEncodable (omega arith)

expand-compact_demands_from_again : expand (compact_demands_from demands) ≡ ok demands
expand-compact_demands_from_again =
    expand-compact_demands_from demands demands-IsEncodable (omega arith)

demand_shape-expand_example : demand_shape (compact_demands_from demands) ≡ ok (2, 1)
demand_shape-expand_example =
    demand_shape-expand (compact_demands_from demands) demands expand-compact_demands_from_again

-- One packed row: flags 17 (symbol and async) without a query location, start 5, length 4.
abbrev packed_group : CompactDemandGroup
packed_group = record { path = 1; demands = 34 ∷ 5 ∷ 4 ∷ [] }

abbrev packed_strings : List GoString
packed_strings = [] ∷ path_a ∷ []

abbrev packed_rows : List EntityDemand
packed_rows = record (bare_demand location_a none true) { references = false } ∷ []

packed_group_expands : expand_group packed_strings packed_group ≡ ok packed_rows
unfolding expand_group expand_row take_number take_compact_uvarint lookup_string lookup
    demand_of_flags has_flag add64
packed_group_expands = refl

append_compact_demands_with_flag-expand_group_example :
    append_compact_demands_with_flag [] packed_group packed_strings (2 ^ demand_flag_async)
    ≡ ok packed_rows
append_compact_demands_with_flag-expand_group_example =
    append_compact_demands_with_flag-expand_group [] packed_group packed_strings packed_rows
      packed_group_expands

expand_rows-ne-out_of_fuel_example :
    expand_rows packed_strings path_a 3 0 (34 ∷ 5 ∷ 4 ∷ []) ≢ err out_of_fuel
expand_rows-ne-out_of_fuel_example =
    expand_rows-ne-out_of_fuel packed_strings path_a 3 0 (34 ∷ 5 ∷ 4 ∷ []) (omega arith)

lookup-intern_example :
    lookup (intern new_string_table path_a).1.values (intern new_string_table path_a).0
    ≡ some (wire_text path_a)
lookup-intern_example =
    lookup-intern new_string_table (intern new_string_table path_a).1 path_a
      new_string_table-IsTable (λ i k h. h)

same_index :
    (intern (intern new_string_table path_a).1 path_a).0 ≡ (intern new_string_table path_a).0
same_index = ap (λ r. r.0) (intern_twice new_string_table path_a new_string_table-IsTable)

intern_injective_example : wire_text path_a ≡ wire_text path_a
intern_injective_example =
    intern_injective new_string_table path_a path_a new_string_table-IsTable same_index

demand_of_flags-demand_flags_example :
    demand_of_flags location_b (demand_flags (bare_demand location_a none true)) none
    ≡ bare_demand location_b none true
demand_of_flags-demand_flags_example =
    demand_of_flags-demand_flags (bare_demand location_a none true) location_b none

take-append_uvarint_example :
    take_compact_uvarint (uvarint_bytes 10 300 ++ (7 ∷ [])) ≡ took 300 (7 ∷ [])
take-append_uvarint_example = take-append_uvarint 300 (7 ∷ []) (omega arith)

take_compact_uvarint_takes_example :
    IsWord 300
    × (length {A = ℕ} (7 ∷ []) < length {A = ℕ} (172 ∷ 2 ∷ 7 ∷ []))
    × (length {A = ℕ} (172 ∷ 2 ∷ 7 ∷ []) ≤ length {A = ℕ} (7 ∷ []) + 10)
take_compact_uvarint_takes_example =
    take_compact_uvarint_takes (172 ∷ 2 ∷ 7 ∷ []) 300 (7 ∷ []) three_bytes
  where
    three_bytes : take_compact_uvarint (172 ∷ 2 ∷ 7 ∷ []) ≡ took 300 (7 ∷ [])
    three_bytes = unfold take_compact_uvarint in refl

-- Two demands in the wrong order, the second with a path that is not clean.
abbrev unsorted_demands : List EntityDemand
unsorted_demands =
    bare_demand location_a none true
    ∷ bare_demand (record { path = 46 ∷ 47 ∷ 97 ∷ []; start_byte = 1; end_byte = 2 })
        (some location_a) false
    ∷ []

path_a-clean : clean path_a ≡ path_a
unfolding clean str_eq
path_a-clean = refl

unsorted_demands-HasWords : All HasWords unsorted_demands
unsorted_demands-HasWords = ((omega arith, omega arith), ((omega arith, omega arith), tt))

canonical_demand_run-sorts_example :
    InOffsetOrder (canonical_demand_run path_a unsorted_demands)
    × ((start end : ℕ)
        → at_bounds start end (canonical_demand_run path_a unsorted_demands)
          ≡ at_bounds start end (map clean_demand unsorted_demands))
canonical_demand_run-sorts_example =
    canonical_demand_run-sorts path_a unsorted_demands path_a-clean unsorted_demands-HasWords
