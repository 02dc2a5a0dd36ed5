-- ===== src/Session/Analyze.antt =====
-- internal/typefacts/session.go: the analyze operation, from the demand transaction to the table that
-- the session retains. A context is a parameter.
pub mod Begun
use solid_ts_facts.Prelude.{
  ℕ, Bool, true, false, not, ◌&&◌, ◌||◌, Option, none, some, List, [], ◌==◌, if◌then◌else◌, add64,
  Result, err, ok,
}
use solid_ts_facts.Keys.{GoString}
use solid_ts_facts.Model.{EntityDemand, CompactDemands}
use solid_ts_facts.Session.Actions.{Action, ◌>>=◌}
use solid_ts_facts.Session.Decimal.{format_uint}
use solid_ts_facts.Session.DemandStore.{DemandGroup, Transaction, begin_compact}
use solid_ts_facts.Session.DemandStore.Runs.{begin}
use solid_ts_facts.Session.Evidence.{in_code, ask, answer, populate_symbol_evidence}
use solid_ts_facts.Session.Requests.{
  LifecycleRequest, ErrorCode, analysis_cancelled, analysis_failed, assembly_failed,
}
use solid_ts_facts.Session.Services.{
  Services, ContextCheck, table_failed, table_returned, transition_encoded, evidence_failed,
  evidence_ready, Context,
}
use solid_ts_facts.Session.State.{Session, Work}
use solid_ts_facts.Transition.Rows.{is_empty}
use solid_ts_facts.Transition.Tables.{
  FactTable, TransitionInput, TransitionMode, full_mode, delta_mode, EncodedTransition, EncodeError,
  sparse_unavailable,
}

abbrev pub next_token : Session → ℕ
next_token session = add64 session.retained.token 1

abbrev pub if_retained : Bool → Option FactTable → Option FactTable
if_retained reset table = if reset then none else table

unfoldable pub base_token : Session → Option FactTable → GoString
base_token session none = []
base_token session (some table) = session.retained.token_text

unfoldable pub has_groups : Option CompactDemands → Bool
has_groups none = false
has_groups (some compact) = not (is_empty compact.groups)

unfoldable pub is_current : Option FactTable → ℕ → Bool
is_current none generation = false
is_current (some table) generation = table.generation == generation

-- Nothing to do: no reset, no changed demands, and a retained table of this generation.
unfoldable pub is_idle : {Graph : Type 0} → Session → LifecycleRequest Graph → ℕ → Bool
unfolding has_groups is_current
is_idle session request generation =
    not request.reset_state
    && is_empty request.demands
    && not (has_groups request.compact_demands)
    && is_empty request.removed_demand_paths
    && is_current session.retained.table generation

unfoldable pub as_begun : {E : Type 0} → Result E Transaction → Option Transaction
as_begun (ok t) = some t
as_begun (err e) = none

unfoldable pub begin_with :
    List DemandGroup
    → List EntityDemand
    → List GoString
    → Bool
    → Option CompactDemands
    → Option Transaction
unfolding as_begun
begin_with groups demands removed_paths reset none = some (begin groups demands removed_paths reset)
begin_with groups demands removed_paths reset (some compact) =
    as_begun (begin_compact groups compact removed_paths reset)

-- none when a compact snapshot is refused.
unfoldable pub begin_demands :
    {Graph : Type 0} → Session → LifecycleRequest Graph → Option Transaction
unfolding begin_with
begin_demands session request =
    begin_with session.retained.demands request.demands request.removed_demand_paths
      request.reset_state request.compact_demands

-- The header that authenticates the next transition, without the rows that the client now owns.
unfoldable pub detached : FactTable → FactTable
detached table = record table { entities = []; entity_runs = none; files = []; source_digests = [] }

unfoldable pub transition_input :
    {Graph : Type 0} → Session → LifecycleRequest Graph → FactTable → TransitionInput
unfolding base_token
transition_input session request table =
    let base = if_retained request.reset_state session.retained.table in
    record {
      project_id = session.project_id;
      base_state_token = base_token session base;
      base = base;
      target = some table;
      sparse = true;
    }

unfoldable pub replacement_input : Session → FactTable → TransitionInput
replacement_input session table = record {
  project_id = session.project_id;
  base_state_token = [];
  base = none;
  target = some table;
  sparse = false;
}

-- The retained table is there in delta mode.
unfoldable pub is_reuse : Option FactTable → FactTable → EncodedTransition → Bool
is_reuse none table encoded = false
is_reuse (some previous) table encoded =
    table.generation == previous.generation
    && encoded.path_operations == 0
    && encoded.symbol_operations == 0

unfoldable pub sent_bytes :
    Option FactTable → FactTable → EncodedTransition → TransitionMode → List ℕ
unfolding is_reuse
sent_bytes previous table encoded full_mode = encoded.bytes
sent_bytes previous table encoded delta_mode =
    if is_reuse previous table encoded then [] else encoded.bytes

-- An empty delta within one generation needs no frame.
unfoldable pub table_transition_of : Option FactTable → FactTable → EncodedTransition → List ℕ
unfolding sent_bytes
table_transition_of previous table encoded = sent_bytes previous table encoded encoded.mode

-- errors.Is(err, errSparseTransitionUnavailable)
unfoldable pub is_sparse_unavailable : EncodeError → Bool
is_sparse_unavailable sparse_unavailable = true
is_sparse_unavailable e = false

-- What is wanted of symbols beyond the table.
unfoldable pub wants_evidence : {Graph : Type 0} → LifecycleRequest Graph → Bool
wants_evidence request =
    not (is_empty request.symbol_queries) || request.reference_changes || request.release_analysis

module _ {World Graph Inventory : Type 0} (services : Services World Graph Inventory)
    (context : Context) where
  unfoldable pub stop_if_cancelled :
      ContextCheck → Action (Work World Inventory) ErrorCode (Unit {0})
  stop_if_cancelled check work = (work, if context check then err analysis_cancelled else ok tt)

  -- A failure counts as cancellation when the context is cancelled by then.
  unfoldable pub unless_cancelled :
      {A : Type 0}
      → ContextCheck
      → Action (Work World Inventory) (Unit {0}) A
      → Action (Work World Inventory) ErrorCode A
  unless_cancelled check action work =
      let (after, result) = action work in
      (after, in_code (if context check then analysis_cancelled else analysis_failed) result)

  unfoldable pub encode_call :
      Bool → TransitionInput → Action (Work World Inventory) EncodeError EncodedTransition
  encode_call into_arena input work =
      let (world, result) = services.encode into_arena input work.world in
      (record work { world = world }, result)

  unfoldable pub force_full : {E : Type 0} → Action (Work World Inventory) E (Unit {0})
  force_full work = (record work { world = services.force_full_materialization work.world }, ok tt)

  unfoldable pub coded_call :
      {E A : Type 0}
      → ErrorCode
      → Action (Work World Inventory) E A
      → Action (Work World Inventory) ErrorCode A
  coded_call code action work = let (after, result) = action work in (after, in_code code result)

  -- One more table and a full replacement, after a sparse transition was not available.
  unfoldable pub rebuild :
      Session
      → ℕ
      → Transaction
      → Bool
      → Action (Work World Inventory) ErrorCode (FactTable × EncodedTransition)
  unfolding force_full encode_call coded_call
  rebuild session generation t into_arena = do
    _ ← force_full
    table ←
        coded_call assembly_failed (ask (services.demand_table generation t.groups t.changed_paths))
    encoded ← coded_call assembly_failed (encode_call into_arena (replacement_input session table))
    λ work. (work, ok (table, encoded))

  unfoldable pub recover :
      Session
      → ℕ
      → Transaction
      → Bool
      → FactTable
      → Work World Inventory × Result EncodeError EncodedTransition
      → Work World Inventory × Result ErrorCode (FactTable × EncodedTransition)
  unfolding rebuild
  recover session generation t into_arena table (work, ok encoded) = (work, ok (table, encoded))
  recover session generation t into_arena table (work, err e) =
      if is_sparse_unavailable e
      then rebuild session generation t into_arena work
      else (work, err assembly_failed)

  unfoldable pub encode_or_rebuild :
      Session
      → LifecycleRequest Graph
      → ℕ
      → Transaction
      → Bool
      → FactTable
      → Action (Work World Inventory) ErrorCode (FactTable × EncodedTransition)
  unfolding recover encode_call
  encode_or_rebuild session request generation t into_arena table work =
      recover session generation t into_arena table
        (encode_call into_arena (transition_input session request table) work)

  -- From the encoded transition to the last check.
  unfoldable pub send :
      Session
      → LifecycleRequest Graph
      → FactTable × EncodedTransition
      → Action (Work World Inventory) ErrorCode FactTable
  unfolding stop_if_cancelled unless_cancelled
  send session request built = do
    _ ← answer (λ r. record r {
      table_transition = table_transition_of session.retained.table built.0 built.1;
    })
    _ ← stop_if_cancelled transition_encoded
    _ ←
        (if wants_evidence request
          then unless_cancelled evidence_failed
              (populate_symbol_evidence services session request false)
          else λ work. (work, ok tt))
    _ ← stop_if_cancelled evidence_ready
    λ work. (work, ok built.0)

  unfoldable pub attempt :
      Session
      → LifecycleRequest Graph
      → ℕ
      → Transaction
      → Bool
      → Action (Work World Inventory) ErrorCode FactTable
  unfolding stop_if_cancelled unless_cancelled encode_or_rebuild send
  attempt session request generation t into_arena = do
    table ←
        unless_cancelled table_failed
          (ask (services.demand_table generation t.groups t.changed_paths))
    _ ← stop_if_cancelled table_returned
    _ ← answer (λ r. record r { state_token = format_uint (next_token session) })
    built ← encode_or_rebuild session request generation t into_arena table
    send session request built
