-- ===== src/Session/Services.antt =====
-- internal/typefacts/session.go: what a session asks of its demand closure, of its transition
-- encoder and of the file system. `World` is their joint state, and a failed call may change it;
-- the reasons of failures that the session only passes on are left out.
use solid_ts_facts.Prelude.{ℕ, Bool, Option, List, Result}
use solid_ts_facts.Keys.{GoString}
use solid_ts_facts.Session.DemandStore.{DemandGroup}
use solid_ts_facts.Session.Requests.{FileChange, SymbolQuery, SourceFile}
use solid_ts_facts.Transition.Facts.{SymbolFact}
use solid_ts_facts.Transition.Tables.{FactTable, TransitionInput, EncodedTransition, EncodeError}

abbrev pub ServiceCall : Type 0 → Type 0 → Type 0
ServiceCall World A = World → World × Option A

-- What os.Remove reports.
pub data RemoveOutcome : Type 0 where
  file_removed : RemoveOutcome
  file_not_exist : RemoveOutcome
  file_not_removed : RemoveOutcome

-- none is a failure.
pub record Services (World Graph Inventory : Type 0) : Type 0 where
  pub generation : World → ℕ
  pub update_files : List FileChange → ServiceCall World (List GoString)
  pub demand_table : ℕ → List DemandGroup → List GoString → ServiceCall World FactTable
  pub abandon_analysis : World → World
  pub force_full_materialization : World → World
  pub release_transport_rows : World → World
  pub resolve_symbol_evidence : List SymbolQuery → ServiceCall World (List SymbolFact)
  pub changed_references : ServiceCall World (List GoString × Bool)
  pub release_analysis_state : World → World
  pub source_files : ServiceCall World (List SourceFile)
  pub module_graph : Option Graph → ServiceCall World Inventory
  pub close_closure : ServiceCall World (Unit {0})
  pub encode : Bool → TransitionInput → World → World × Result EncodeError EncodedTransition
  pub remove_file : GoString → World → World × RemoveOutcome
  pub create_arena : List (List ℕ) → ServiceCall World GoString

-- The moments at which the session looks whether the request's context is cancelled.
pub data ContextCheck : Type 0 where
  table_failed : ContextCheck
  table_returned : ContextCheck
  transition_encoded : ContextCheck
  evidence_failed : ContextCheck
  evidence_ready : ContextCheck
  modules_unavailable : ContextCheck

abbrev pub Context : Type 0
Context = ContextCheck → Bool
