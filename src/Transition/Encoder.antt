-- ===== src/Transition/Encoder.antt =====
-- internal/typefacts/wire_transition.go: the encoder of one table transition. Its buffers and its
-- dictionary start anew for every transition. Without an arena the frame is one list of bytes;
-- with an arena the rows go through the writer's flush buffer instead.
pub mod Frame
use solid_ts_facts.Prelude.{
  ℕ, ◌+◌, Bool, true, false, not, ◌&&◌, Option, none, some, List, [], ◌∷◌, ◌++◌, map, ◌>>=◌, ◌==◌,
  if◌then◌else◌, length, Result, err, ok,
}
use solid_ts_facts.Keys.{GoString}
use solid_ts_facts.Session.Requests.{symbols}
use solid_ts_facts.Transition.ExactSymbols.{symbol_facts, plan_exact_symbol_delta}
use solid_ts_facts.Transition.Facts.{EntityFact, SymbolFact}
use solid_ts_facts.Transition.PathPlan.{
  is_changed, path_difference, plan_sparse_paths, plan_exact_paths,
}
use solid_ts_facts.Transition.Paths.{PathOp, write_path_op}
use solid_ts_facts.Transition.Rows.{Written, is_empty}
use solid_ts_facts.Transition.Symbols.{
  replace_reference_path, SymbolOp, write_symbol_op, replace_op, Chunk, plan_fallback_symbol_delta,
}
use solid_ts_facts.Transition.TablePaths.{plan_full, plan_fallback_paths}
use solid_ts_facts.Transition.Tables.{
  TransportChanges, FactTable, TransitionInput, TransitionMode, full_mode, delta_mode,
  EncodedTransition, EncodeError, target_is_nil, sparse_unavailable, full_path_without_rows,
  row_error, validate_transition_input,
}
use solid_ts_facts.Transition.Writer.{Draft, put, text}
use solid_ts_facts.Transition.Writer.Dictionary.{append_packed_dictionary}
use solid_ts_facts.Transition.Writer.Streaming.{joined}
use solid_ts_facts.Wire.Strings.{StringTable, new_string_table, intern}

-- What a transition holds: the paths of a full one, or the operations of a delta.
pub record Plan : Type 0 where
  pub full_paths : List GoString
  pub path_ops : List PathOp
  pub symbol_ops : List SymbolOp

-- A full plan writes one replacement for each symbol.
full_symbol_ops : List SymbolFact → List SymbolOp
full_symbol_ops facts = map replace_op facts

manifest_of : FactTable → Option TransportChanges → Result EncodeError TransportChanges
manifest_of target none = err sparse_unavailable
manifest_of target (some manifest) = if manifest.exact then ok manifest else err sparse_unavailable

-- A manifest that stands for this very base.
is_exact_for : FactTable → TransportChanges → Bool
is_exact_for base manifest =
    manifest.exact
    && not (base.state_id == 0)
    && manifest.base_generation == base.generation
    && manifest.base_state_id == base.state_id

-- newSymbolFactCursor: a table without a store is one chunk.
chunks_of : FactTable → List Chunk
chunks_of table = elim table.symbol_store [
  | some chunks ↦ chunks
  | none ↦ elim table.symbols [
    | [] ↦ []
    | fact ∷ rest ↦ record { address = table.symbols_address; rows = fact ∷ rest } ∷ []
  ]
]

unfoldable pub is_delta : TransitionMode → Bool
is_delta full_mode = false
is_delta delta_mode = true

written : Written → Result EncodeError Draft
written (ok d) = ok d
written (err e) = err (row_error e)

module _ (shared : List EntityFact → List EntityFact → Bool) where
  fallback_plan : FactTable → FactTable → Plan
  unfolding chunks_of
  fallback_plan base target = record {
    full_paths = [];
    path_ops = plan_fallback_paths shared base target;
    symbol_ops = plan_fallback_symbol_delta (chunks_of base) (chunks_of target);
  }

  -- planDelta
  delta_plan : FactTable → FactTable → Option TransportChanges → Plan
  unfolding is_exact_for fallback_plan
  delta_plan base target none = fallback_plan base target
  delta_plan base target (some manifest) =
      if is_exact_for base manifest
      then record {
        full_paths = [];
        path_ops = plan_exact_paths shared base target manifest;
        symbol_ops = plan_exact_symbol_delta base target manifest;
      }
      else fallback_plan base target

  -- A base stands for a delta.
  unfoldable pub plan_transition : Bool → FactTable → Option FactTable → Result EncodeError Plan
  unfolding full_symbol_ops manifest_of delta_plan
  plan_transition sparse target none = ok (record {
    full_paths = plan_full target;
    path_ops = [];
    symbol_ops = full_symbol_ops (symbol_facts target);
  })
  plan_transition true target (some base) = do
    manifest ← manifest_of target target.transport
    ok (record {
      full_paths = [];
      path_ops = plan_sparse_paths target manifest;
      symbol_ops = plan_exact_symbol_delta base target manifest;
    })
  plan_transition false target (some base) = ok (delta_plan base target target.transport)

  -- The paths of a full transition, each with the rows that it must have.
  write_full_paths : FactTable → ℕ → Draft → List GoString → Result EncodeError Draft
  unfolding written
  write_full_paths target schema d [] = ok d
  write_full_paths target schema d (path ∷ rest) =
      let operation = path_difference shared none target path true true true in
      if is_changed operation
      then (do
        next ← written (write_path_op d operation schema)
        write_full_paths target schema next rest)
      else err (full_path_without_rows path)

write_path_ops : ℕ → Draft → List PathOp → Result EncodeError Draft
unfolding written
write_path_ops schema d [] = ok d
write_path_ops schema d (operation ∷ rest) = do
  next ← written (write_path_op d operation schema)
  write_path_ops schema next rest

write_symbol_ops : Bool → Draft → List SymbolOp → Result EncodeError Draft
unfolding written
write_symbol_ops full d [] = ok d
write_symbol_ops full d (operation ∷ rest) = do
  next ← written (write_symbol_op d full operation)
  write_symbol_ops full next rest

intern_all : StringTable → List GoString → StringTable
intern_all dict [] = dict
intern_all dict (value ∷ rest) = intern_all (intern dict value).1 rest

reference_paths_of : List SymbolOp → List GoString
reference_paths_of [] = []
reference_paths_of (operation ∷ rest) = elim operation.tag [
  | replace_reference_path ↦ operation.reference_path ∷ reference_paths_of rest
  | _ ↦ reference_paths_of rest
]

-- The keys of a plan, next to one another in the dictionary before their rows add other strings.
unfoldable pub plan_keys : Plan → List GoString
unfolding reference_paths_of
plan_keys plan =
    plan.full_paths
    ++ map (λ operation. operation.path) plan.path_ops
    ++ map (λ operation. operation.id) plan.symbol_ops
    ++ reference_paths_of plan.symbol_ops

unfoldable pub header : ℕ → TransitionMode → ℕ → ℕ → Draft → Draft
unfolding is_delta
header schema mode base_generation generation d =
    put (put (put (put (put d 1) (if is_delta mode then 1 else 0)) schema) base_generation)
      generation

abbrev pub new_draft : Draft
new_draft = record { pieces = []; dict = new_string_table }

-- An encoder without a table schema writes the current one.
unfoldable pub table_schema_of : ℕ → ℕ
table_schema_of schema = if schema == 0 then 17 else schema

unfoldable pub frame_bytes : ℕ → TransitionMode → ℕ → ℕ → Draft → List ℕ
frame_bytes schema mode base_generation generation rows =
    joined
      (append_packed_dictionary (header schema mode base_generation generation new_draft)
        rows.dict).pieces
    ++ joined rows.pieces

module _ (shared : List EntityFact → List EntityFact → Bool) where
  unfoldable pub write_plan :
      TransitionInput → FactTable → TransitionMode → ℕ → Plan → Result EncodeError Draft
  unfolding intern_all is_delta write_full_paths write_path_ops write_symbol_ops
  write_plan input target mode schema plan =
      let named : Draft = text (text new_draft input.project_id) input.base_state_token in
      let keyed : Draft = record named { dict = intern_all named.dict (plan_keys plan) } in
      (do
        paths ←
            write_full_paths shared target schema
              (put keyed (length plan.full_paths + length plan.path_ops)) plan.full_paths
        rows ← write_path_ops schema paths plan.path_ops
        write_symbol_ops (not (is_delta mode)) (put rows (length plan.symbol_ops)) plan.symbol_ops)

  unfoldable pub encode_plan :
      ℕ
      → TransitionInput
      → FactTable
      → TransitionMode
      → ℕ
      → Plan
      → Result EncodeError EncodedTransition
  unfolding is_delta
  encode_plan schema input target mode base_generation plan =
      let paths = length plan.full_paths + length plan.path_ops in
      if is_delta mode
        && base_generation == target.generation
        && paths == 0
        && is_empty plan.symbol_ops
      then ok (record { bytes = []; mode = mode; path_operations = 0; symbol_operations = 0 })
      else (do
        rows ← write_plan input target mode schema plan
        ok (record {
          bytes = frame_bytes schema mode base_generation target.generation rows;
          mode = mode;
          path_operations = paths;
          symbol_operations = length plan.symbol_ops;
        }))

  unfoldable pub encode_target :
      ℕ
      → TransitionInput
      → Option FactTable
      → TransitionMode
      → ℕ
      → Result EncodeError EncodedTransition
  unfolding encode_plan
  encode_target schema input none mode base_generation = err target_is_nil
  encode_target schema input (some target) mode base_generation = do
    plan ← plan_transition shared input.sparse target input.base
    encode_plan (table_schema_of schema) input target mode base_generation plan

  -- wireTransitionEncoder.Encode, with the encoder's table schema.
  unfoldable pub encode_transition : ℕ → TransitionInput → Result EncodeError EncodedTransition
  unfolding encode_target
  encode_transition schema input = do
    checked ← validate_transition_input input
    encode_target schema input input.target checked.0 checked.1
