-- ===== src/Transition/Tables.antt =====
-- internal/typefacts/model.go and wire_transition.go: a fact table with its manifest of changes, and
-- what a transition between two tables is asked for and gives. The digests of the sources are the
-- table's own, whether they were computed with it or from retained source text.
use solid_ts_facts.Prelude.{
  ℕ, Bool, true, false, not, Option, none, some, List, [], ◌>>=◌, ltb, ◌==◌, Result, err, ok,
}
use solid_ts_facts.Keys.{GoString, str_eq}
use solid_ts_facts.Transition.Codes.{RowError}
use solid_ts_facts.Transition.Facts.{EntityFact, SymbolFact, FileFact, SourceDigest}
use solid_ts_facts.Transition.Symbols.{Chunk}

-- Sets of paths and symbols, as lists of their members.
pub record TransportChanges : Type 0 where
  pub base_generation : ℕ
  pub base_state_id : ℕ
  pub source_paths : List GoString
  pub entity_paths : List GoString
  pub file_paths : List GoString
  pub symbol_ids : List GoString
  pub exact : Bool

-- `entity_runs` and the symbol store may be nil; a store is its chunks. `symbols_address` is where
-- the slice of the symbols lies in memory.
pub record FactTable : Type 0 where
  pub schema : ℕ
  pub generation : ℕ
  pub project_id : GoString
  pub entities : List EntityFact
  pub symbols : List SymbolFact
  pub symbols_address : ℕ
  pub symbol_store : Option (List Chunk)
  pub files : List FileFact
  pub state_id : ℕ
  pub transport : Option TransportChanges
  pub source_digests : List SourceDigest
  pub entity_runs : Option (List (List EntityFact))

pub record TransitionInput : Type 0 where
  pub project_id : GoString
  pub base_state_token : GoString
  pub base : Option FactTable
  pub target : Option FactTable
  pub sparse : Bool

-- wireTransitionMode: the two that are written.
pub data TransitionMode : Type 0 where
  full_mode : TransitionMode
  delta_mode : TransitionMode

pub record EncodedTransition : Type 0 where
  pub bytes : List ℕ
  pub mode : TransitionMode
  pub path_operations : ℕ
  pub symbol_operations : ℕ

-- Why no transition is encoded.
pub data EncodeError : Type 0 where
  target_is_nil : EncodeError
  project_is_empty : EncodeError
  target_schema : EncodeError
  target_generation_zero : EncodeError
  full_with_base_token : EncodeError
  base_schema : EncodeError
  delta_without_token : EncodeError
  base_generation_zero : EncodeError
  target_precedes_base : EncodeError
  sparse_unavailable : EncodeError
  full_path_without_rows : GoString → EncodeError
  row_error : RowError → EncodeError
  arena_error : EncodeError

abbrev pub schema_version : ℕ
schema_version = 1

refuse_transition : Bool → EncodeError → Result EncodeError (Unit {0})
refuse_transition true e = err e
refuse_transition false e = ok tt

validate_target : TransitionInput → Option FactTable → Result EncodeError FactTable
unfolding refuse_transition
validate_target input none = err target_is_nil
validate_target input (some target) = do
  _ ← refuse_transition (str_eq input.project_id []) project_is_empty
  _ ← refuse_transition (not (target.schema == schema_version)) target_schema
  _ ← refuse_transition (target.generation == 0) target_generation_zero
  ok target

validate_base :
    TransitionInput → FactTable → Option FactTable → Result EncodeError (TransitionMode × ℕ)
unfolding refuse_transition
validate_base input target none = do
  _ ← refuse_transition (not (str_eq input.base_state_token [])) full_with_base_token
  ok (full_mode, 0)
validate_base input target (some base) = do
  _ ← refuse_transition (not (base.schema == schema_version)) base_schema
  _ ← refuse_transition (str_eq input.base_state_token []) delta_without_token
  _ ← refuse_transition (base.generation == 0) base_generation_zero
  _ ← refuse_transition (ltb target.generation base.generation) target_precedes_base
  ok (delta_mode, base.generation)

unfoldable pub validate_transition_input : TransitionInput → Result EncodeError (TransitionMode × ℕ)
unfolding validate_target validate_base
validate_transition_input input = do
  target ← validate_target input input.target
  validate_base input target input.base
