-- ===== src/Tests/Transition.antt =====
-- Table transitions: dictionaries, buffers, rows and the walk over shared chunks.
use solid_ts_facts.Prelude.{
  ℕ, zero, suc, ◌<◌, ◌≡◌, refl, ◌⊎◌, inl, true, false, none, some, List, [], ◌∷◌, arith, length,
  All, sub64, int_lt, ok,
}
use solid_ts_facts.Keys.{GoString, str_eq, str_lt}
use solid_ts_facts.Keys.Rows.{find}
use solid_ts_facts.Keys.Utf8.{rune_width, valid_string}
use solid_ts_facts.Transition.Codes.{callability_code}
use solid_ts_facts.Transition.Codes.Laws.{
  callability_of, callability_code-callability_of, RuntimeDomainRead,
  runtime_value_domain_bits-has_flag, PrimitiveDomainRead, primitive_value_domain_bits-has_flag,
}
use solid_ts_facts.Transition.Entities.{
  has_callability, has_constructability, has_array_shape, has_reference_space, entity_codes,
  entity_flags, write_payloads, write_entity, write_entity_run,
}
use solid_ts_facts.Transition.Entities.Laws.{IsPlaced, IsWritable, write_entity_run-IsWritable}
use solid_ts_facts.Transition.Facts.{
  callability_untyped_callable, callability_unknown, constructability_absent, array_shape_absent,
  reference_space_absent, EntityFact, SymbolFact,
}
use solid_ts_facts.Transition.Paths.{removed, unchanged, replaced_by, PathOp, op_code, path_flags}
use solid_ts_facts.Transition.Paths.Laws.{FlagsTell, path_flags-FlagsTell}
use solid_ts_facts.Transition.Rows.{
  is_negative, refuse_if, is_empty, is_some, when_some, validate_location,
}
use solid_ts_facts.Transition.Symbols.{
  locations_equal, declarations_equal, symbol_fact_equal, replace_op, Chunk, new_cursor,
  next_cursor, is_shared, turn, symbol_ops, row_count, plan_fallback_symbol_delta,
}
use solid_ts_facts.Transition.Symbols.Delta.{fact_id, apply_ops, all_rows}
use solid_ts_facts.Transition.Symbols.Plan.{plan_fallback_symbol_delta-find}
use solid_ts_facts.Transition.Symbols.Walk.{Memory}
use solid_ts_facts.Transition.Writer.{Draft, raw, put, zigzag, signed, text}
use solid_ts_facts.Transition.Writer.Dictionary.{
  packed_hashed_symbol, entries_of, strings_of, IsReadable, strings_of-entries_of,
}
use solid_ts_facts.Transition.Writer.Streaming.{
  Buffer, Flush, append_pieces, finish_buffer, empty_buffer, joined, IsPrefix, finish_buffer-joined,
}
use solid_ts_facts.Wire.Flags.{or_flags}
use solid_ts_facts.Wire.Strings.{map_get, new_string_table, wire_text, intern}
use solid_ts_facts.Wire.Varint.{uvarint_bytes}

abbrev name_of : ℕ → GoString
name_of n = n ∷ []

abbrev fact_of : ℕ → GoString → SymbolFact
fact_of n alias = record {
  id = name_of n;
  alias_target = alias;
  declarations = [];
  references = [];
}

abbrev memory : Memory
memory zero n = []
memory (suc zero) n = fact_of 97 [] ∷ []
memory (suc (suc zero)) n = fact_of 98 [] ∷ []
memory (suc (suc (suc a))) n = fact_of 98 (name_of 97) ∷ []

abbrev base : List Chunk
base =
    record { address = 1; rows = fact_of 97 [] ∷ [] }
    ∷ record { address = 2; rows = fact_of 98 [] ∷ [] }
    ∷ []

abbrev target : List Chunk
target =
    record { address = 1; rows = fact_of 97 [] ∷ [] }
    ∷ record { address = 3; rows = fact_of 98 (name_of 97) ∷ [] }
    ∷ []

in_order : str_lt (name_of 97) (name_of 98) ≡ true
unfolding str_lt
in_order = refl

plan_fallback_symbol_delta-find_example :
    apply_ops (find fact_id (all_rows base)) (plan_fallback_symbol_delta base target)
    ≡ find fact_id (all_rows target)
plan_fallback_symbol_delta-find_example =
    plan_fallback_symbol_delta-find memory base target refl
      ((omega arith, refl), ((omega arith, refl), tt))
      ((omega arith, refl), ((omega arith, refl), tt)) ((in_order, tt), (tt, tt))
      ((in_order, tt), (tt, tt))

-- The shared chunk is skipped, and one row is replaced.
planned : plan_fallback_symbol_delta base target ≡ replace_op (fact_of 98 (name_of 97)) ∷ []
unfolding plan_fallback_symbol_delta turn is_shared next_cursor symbol_fact_equal declarations_equal
    locations_equal str_eq str_lt new_cursor row_count symbol_ops
planned = refl

abbrev dictionary : List GoString
dictionary = [] ∷ (97 ∷ 98 ∷ []) ∷ (97 ∷ 99 ∷ []) ∷ []

dictionary-IsReadable : All IsReadable dictionary
unfolding packed_hashed_symbol str_eq
dictionary-IsReadable = (inl refl, (inl refl, (inl refl, tt)))

strings_of-entries_of_example : strings_of [] (entries_of [] dictionary) ≡ dictionary
strings_of-entries_of_example = strings_of-entries_of [] dictionary dictionary-IsReadable

-- A flush function that fails on the second chunk.
abbrev failing : Flush
failing [] chunk = false
failing (c ∷ handed) chunk = true

abbrev delivered : Buffer
delivered =
    finish_buffer (some failing)
      (append_pieces (some failing) 2 empty_buffer ((1 ∷ 2 ∷ []) ∷ (3 ∷ []) ∷ []))

finish_buffer-joined_example :
    (delivered.flushed ≡ length (joined delivered.handed))
    × (((delivered.failed ≡ true)
          × IsPrefix (joined delivered.handed) (joined ((1 ∷ 2 ∷ []) ∷ (3 ∷ []) ∷ [])))
        ⊎ ((delivered.failed ≡ false)
            × (delivered.bytes ≡ [])
            × (joined delivered.handed ≡ joined ((1 ∷ 2 ∷ []) ∷ (3 ∷ []) ∷ []))))
finish_buffer-joined_example = finish_buffer-joined failing 2 ((1 ∷ 2 ∷ []) ∷ (3 ∷ []) ∷ [])

abbrev pub entity : EntityFact
entity = record {
  location = record { path = name_of 97; start_byte = 4; end_byte = 6 };
  symbol = name_of 98;
  symbol_unresolved = false;
  type_descriptor = none;
  resolved_call = none;
  callability = callability_untyped_callable;
  runtime_value_domain = none;
  primitive_value_domain = 3;
  primitive_literal_candidates = [];
  constructability = constructability_absent;
  call_result_domain = none;
  constant_value = none;
  array_shape = array_shape_absent;
  tuple_shape = none;
  library_types = [];
  reference_space = reference_space_absent;
  runtime_identity = [];
}

abbrev draft : Draft
draft = record { pieces = []; dict = new_string_table }

-- Count 1, start 4, length 2, symbol 1, flags for a callability (version 12 has no domain), tag 3.
abbrev rows : Draft
rows = record {
  pieces = (1 ∷ []) ∷ (8 ∷ []) ∷ (2 ∷ []) ∷ (1 ∷ []) ∷ (4 ∷ []) ∷ (3 ∷ []) ∷ [];
  dict = record { indexes = (name_of 98, 1) ∷ ([], 0) ∷ []; values = [] ∷ name_of 98 ∷ [] };
}

written : write_entity_run draft (name_of 97) (entity ∷ []) 12 ≡ ok rows
unfolding write_entity_run write_entity write_payloads entity_codes entity_flags validate_location
    refuse_if is_empty is_some signed put text raw intern map_get wire_text valid_string rune_width
    new_string_table str_eq uvarint_bytes has_callability has_constructability has_reference_space
    has_array_shape callability_code sub64 int_lt is_negative zigzag or_flags when_some
written = refl

placed : All IsPlaced (entity ∷ [])
placed = ((omega arith, omega arith), tt)

write_entity_run-IsWritable_example : All (IsWritable (name_of 97)) (entity ∷ [])
write_entity_run-IsWritable_example =
    write_entity_run-IsWritable draft rows (name_of 97) (entity ∷ []) 12 placed written

abbrev path_op : PathOp
path_op = record {
  path = name_of 97;
  source_op = unchanged;
  entity_op = replaced_by (entity ∷ []);
  file_op = removed;
}

path_flags_run : path_flags path_op ≡ ok 36
unfolding path_flags op_code
path_flags_run = refl

path_flags-FlagsTell_example : FlagsTell path_op (path_flags path_op)
path_flags-FlagsTell_example = path_flags-FlagsTell path_op

callability_code_run : callability_code callability_untyped_callable 14 ≡ ok 3
unfolding callability_code
callability_code_run = refl

callability_code-callability_of_example : (callability_of 3 ≡ callability_unknown) × (3 < 4)
callability_code-callability_of_example =
    callability_code-callability_of callability_untyped_callable 14 3 callability_code_run

primitive_value_domain_bits-has_flag_example : PrimitiveDomainRead 259
primitive_value_domain_bits-has_flag_example = primitive_value_domain_bits-has_flag 259

runtime_value_domain_bits-has_flag_example : RuntimeDomainRead (record {
  may_be_callable = true;
  may_be_undefined = false;
  may_be_other = false;
  unknown = true;
})
runtime_value_domain_bits-has_flag_example = runtime_value_domain_bits-has_flag (record {
  may_be_callable = true;
  may_be_undefined = false;
  may_be_other = false;
  unknown = true;
})
