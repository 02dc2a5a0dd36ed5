-- ===== src/Session/Requests.antt =====
-- internal/typefacts/protocolv3.go: the lifecycle requests, and the answers without their timings.
-- A module inventory and its demand pass through unread and are parameters.
use solid_ts_facts.Prelude.{ℕ, Bool, true, false, not, ◌||◌, Option, List, [], ◌==◌, if◌then◌else◌}
use solid_ts_facts.Keys.{GoString, str_eq}
use solid_ts_facts.Model.{EntityDemand, CompactDemands}
use solid_ts_facts.Transition.Facts.{SymbolFact}

-- LifecycleOperation, a Go string with one constructor for every other one.
pub data LifecycleOperation : Type 0 where
  open_project : LifecycleOperation
  update : LifecycleOperation
  analyze : LifecycleOperation
  symbols : LifecycleOperation
  sources : LifecycleOperation
  modules : LifecycleOperation
  cancel : LifecycleOperation
  close : LifecycleOperation
  other_operation : GoString → LifecycleOperation

pub record FileChange : Type 0 where
  pub path : GoString
  pub version : ℕ
  pub source : List ℕ
  pub deleted : Bool

pub record SymbolQuery : Type 0 where
  pub id : GoString
  pub references : Bool
  pub references_only : Bool

pub record SourceFile : Type 0 where
  pub path : GoString
  pub source : List ℕ

pub record LifecycleRequest (Graph : Type 0) : Type 0 where
  pub schema : ℕ
  pub request_id : ℕ
  pub operation : LifecycleOperation
  pub project_id : GoString
  pub generation : ℕ
  pub changes : List FileChange
  pub demands : List EntityDemand
  pub compact_demands : Option CompactDemands
  pub state_token : GoString
  pub reset_state : Bool
  pub removed_demand_paths : List GoString
  pub symbol_queries : List SymbolQuery
  pub release_analysis : Bool
  pub reference_changes : Bool
  pub reference_paths : List GoString
  pub module_graph : Option Graph

-- The `Code` of a LifecycleError.
pub data ErrorCode : Type 0 where
  invalid_request : ErrorCode
  project_mismatch : ErrorCode
  session_closed : ErrorCode
  generation_mismatch : ErrorCode
  update_failed : ErrorCode
  invalid_demands : ErrorCode
  state_mismatch : ErrorCode
  analysis_cancelled : ErrorCode
  analysis_failed : ErrorCode
  assembly_failed : ErrorCode
  sources_failed : ErrorCode
  modules_failed : ErrorCode
  close_failed : ErrorCode

pub record LifecycleResponse (Inventory : Type 0) : Type 0 where
  pub schema : ℕ
  pub request_id : ℕ
  pub project_id : GoString
  pub generation : ℕ
  pub is_ok : Bool
  pub table_transition : List ℕ
  pub symbol_evidence : List SymbolFact
  pub reference_evidence : List SymbolFact
  pub changed_reference_symbols : List GoString
  pub reference_changes_exact : Bool
  pub state_token : GoString
  pub affected : List GoString
  pub source_paths : List GoString
  pub source_arena : GoString
  pub source_lengths : List ℕ
  pub inventory : Option Inventory
  pub error : Option ErrorCode

abbrev pub schema_version_v1 : ℕ
schema_version_v1 = 1

is_known : LifecycleOperation → Bool
is_known (other_operation name) = false
is_known operation = true

-- Whether ValidateLifecycleRequest returns no error.
unfoldable pub validate_lifecycle_request : {Graph : Type 0} → LifecycleRequest Graph → Bool
unfolding is_known
validate_lifecycle_request request =
    if not (request.schema == schema_version_v1)
    then false
    else if request.request_id == 0 || str_eq request.project_id [] || request.generation == 0
    then false
    else is_known request.operation
