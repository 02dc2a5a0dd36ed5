-- ===== src/Session/Lifecycle.antt =====
-- internal/typefacts/session.go: Session.Lifecycle, the whole handler of every operation, and
-- Session.Close.
pub mod Ends
pub mod Failures
pub mod Client
pub mod Success
pub mod Reachable
pub mod Retention
pub mod Verdict
use solid_ts_facts.Prelude.{
  ℕ, Bool, true, false, not, ◌&&◌, ◌||◌, none, some, [], ◌∷◌, map, ◌==◌, if◌then◌else◌, length,
  add64, Result, err, ok,
}
use solid_ts_facts.Keys.{GoString, str_eq}
use solid_ts_facts.Keys.Clean.{clean}
use solid_ts_facts.Session.Actions.{Action, ◌>>=◌}
use solid_ts_facts.Session.Analyze.{
  next_token, is_idle, begin_demands, detached, unless_cancelled, attempt,
}
use solid_ts_facts.Session.Decimal.{format_uint}
use solid_ts_facts.Session.DemandStore.{Transaction, commit, rollback}
use solid_ts_facts.Session.Evidence.{in_code, ask, answer, populate_symbol_evidence}
use solid_ts_facts.Session.Requests.{
  LifecycleOperation, open_project, update, analyze, symbols, sources, modules, cancel, close,
  other_operation, LifecycleRequest, ErrorCode, invalid_request, project_mismatch, session_closed,
  generation_mismatch, update_failed, invalid_demands, state_mismatch, analysis_cancelled,
  sources_failed, modules_failed, close_failed, LifecycleResponse, validate_lifecycle_request,
}
use solid_ts_facts.Session.Services.{
  RemoveOutcome, file_not_removed, Services, evidence_failed, modules_unavailable, Context,
}
use solid_ts_facts.Session.State.{Session, Work, Outcome}
use solid_ts_facts.Transition.Rows.{is_empty, is_some}
use solid_ts_facts.Transition.Tables.{FactTable}

abbrev pub refused :
    {Inventory : Type 0} → LifecycleResponse Inventory → ErrorCode → LifecycleResponse Inventory
refused response code = record response { error = some code }

abbrev pub accepted :
    {Inventory : Type 0} → LifecycleResponse Inventory → LifecycleResponse Inventory
accepted response = record response { is_ok = true }

-- After every stage of an analysis succeeded.
unfoldable pub published : Session → Transaction → FactTable → Session
published session t table = record session {
  retained = record {
    token = next_token session;
    token_text = format_uint (next_token session);
    demands = (commit t).groups;
    table = some (detached table);
  };
}

unfoldable pub rolled_back : Session → Transaction → Session
rolled_back session t = record session {
  retained = record session.retained { demands = (rollback t).groups };
}

-- The generation that an operation is for: update names the next one.
unfoldable pub expected_generation : ℕ → LifecycleOperation → ℕ
expected_generation generation update = add64 generation 1
expected_generation generation operation = generation

unfoldable pub is_close : LifecycleOperation → Bool
is_close close = true
is_close operation = false

module _ {World Graph Inventory : Type 0} (services : Services World Graph Inventory) where
  abbrev pub turned_away :
      Session → World → LifecycleResponse Inventory → ErrorCode → Outcome World Inventory
  turned_away session world response code = record {
    session = session;
    world = world;
    response = refused response code;
  }

  abbrev pub start_work : Session → World → LifecycleResponse Inventory → Work World Inventory
  start_work session world response = record {
    world = world;
    response = response;
    arena_path = session.source_arena_path;
  }

  unfoldable pub settle :
      Session → Work World Inventory × Result ErrorCode (Unit {0}) → Outcome World Inventory
  settle session (work, ok u) = record {
    session = record session { source_arena_path = work.arena_path };
    world = work.world;
    response = accepted work.response;
  }
  settle session (work, err code) = record {
    session = record session { source_arena_path = work.arena_path };
    world = work.world;
    response = refused work.response code;
  }

  unfoldable pub settle_analysis :
      Session
      → Transaction
      → Work World Inventory × Result ErrorCode FactTable
      → Outcome World Inventory
  unfolding published rolled_back
  settle_analysis session t (work, ok table) = record {
    session = published session t table;
    world = services.release_transport_rows work.world;
    response = accepted work.response;
  }
  settle_analysis session t (work, err code) = record {
    session = rolled_back session t;
    world = services.abandon_analysis work.world;
    response = refused work.response code;
  }

  -- removeSourceArena
  unfoldable pub remove_source_arena : World → GoString → World × Bool
  remove_source_arena world [] = (world, true)
  remove_source_arena world (b ∷ path) =
      let (after, outcome) = services.remove_file (b ∷ path) world in (after, is_gone outcome)
    where
      is_gone : RemoveOutcome → Bool
      is_gone file_not_removed = false
      is_gone outcome = true

  -- Session.Close: the closure is closed and the arena removed whether or not the other fails.
  unfoldable pub close_session : Session → World → Session × World
  unfolding remove_source_arena
  close_session session world =
      if session.closed
      then (session, world)
      else let (after, closing) = services.close_closure world in
        let (gone, is_removed) = remove_source_arena after session.source_arena_path in
        (record session { closed = true; close_err = not (is_some closing && is_removed) }, gone)

  unfoldable pub clear_arena : Action (Work World Inventory) (Unit {0}) (Unit {0})
  unfolding remove_source_arena
  clear_arena work =
      let (world, is_removed) = remove_source_arena work.world work.arena_path in
      if is_removed
      then (record work { world = world; arena_path = [] }, ok tt)
      else (record work { world = world }, err tt)

  unfoldable pub keep_arena : {E : Type 0} → GoString → Action (Work World Inventory) E (Unit {0})
  keep_arena path work = (record work { arena_path = path }, ok tt)

  unfoldable pub answer_sources : Action (Work World Inventory) (Unit {0}) (Unit {0})
  unfolding clear_arena keep_arena ask answer
  answer_sources = do
    files ← ask services.source_files
    _ ← clear_arena
    path ← ask (services.create_arena (map (λ file. file.source) files))
    _ ← keep_arena path
    answer (λ r. record r {
      source_arena = path;
      source_paths = map (λ file. file.path) files;
      source_lengths = map (λ file. length file.source) files;
    })

  unfoldable pub coded_action :
      {A : Type 0}
      → ErrorCode
      → Action (Work World Inventory) (Unit {0}) A
      → Action (Work World Inventory) ErrorCode A
  coded_action code action work = let (after, result) = action work in (after, in_code code result)

  unfoldable pub answer_update :
      LifecycleRequest Graph → Action (Work World Inventory) ErrorCode (Unit {0})
  unfolding coded_action ask answer
  answer_update request = do
    affected ← coded_action update_failed (ask (services.update_files request.changes))
    λ work.
        answer (λ r. record r { generation = services.generation work.world; affected = affected })
          work

  unfoldable pub answer_modules :
      Context → LifecycleRequest Graph → Action (Work World Inventory) ErrorCode (Unit {0})
  unfolding ask answer
  answer_modules context request = do
    inventory ← λ work.
        let (after, result) = ask (services.module_graph request.module_graph) work in
        (
          after,
          in_code (if context modules_unavailable then analysis_cancelled else modules_failed)
              result,
        )
    answer (λ r. record r { inventory = some inventory })

  -- Analyze, once the generation is right.
  unfoldable pub analyze_demands :
      Context
      → Session
      → World
      → LifecycleRequest Graph
      → Bool
      → LifecycleResponse Inventory
      → Outcome World Inventory
  analyze_demands context session world request into_arena response =
      if is_some request.compact_demands && not (is_empty request.demands)
      then turned_away session world response invalid_demands
      else if not request.reset_state
          && not (str_eq request.state_token session.retained.token_text)
      then turned_away session world response state_mismatch
      else if is_idle session request (services.generation world)
      then record {
        session = session;
        world = world;
        response = accepted (record response { state_token = session.retained.token_text });
      }
      else elim (begin_demands session request) [
        | none ↦ turned_away session world response invalid_demands
        | some t ↦ settle_analysis session t (
            attempt services context session request (services.generation world) t into_arena
              (start_work session world response))
      ]

  unfoldable pub answer_symbols :
      Context
      → Session
      → World
      → LifecycleRequest Graph
      → Bool
      → LifecycleResponse Inventory
      → Outcome World Inventory
  unfolding settle
  answer_symbols context session world request into_arena response =
      if str_eq request.state_token []
        || not (str_eq request.state_token session.retained.token_text)
      then turned_away session world response state_mismatch
      else settle session (
          unless_cancelled services context evidence_failed
            (populate_symbol_evidence services session request into_arena)
            (start_work session world response))

  unfoldable pub answer_close :
      Session → World → LifecycleResponse Inventory → Outcome World Inventory
  unfolding close_session
  answer_close session world response =
      let (after, gone) = close_session session world in
      record {
        session = after;
        world = gone;
        response = if after.close_err then refused response close_failed else accepted response;
      }

  unfoldable pub dispatch :
      Context
      → Session
      → World
      → LifecycleRequest Graph
      → Bool
      → LifecycleResponse Inventory
      → LifecycleOperation
      → Outcome World Inventory
  unfolding settle answer_sources coded_action answer_update answer_modules answer_symbols
      answer_close expected_generation
  dispatch context session world request into_arena response operation =
      let is_expected =
        request.generation == expected_generation (services.generation world) operation in
      let mismatch = turned_away session world response generation_mismatch in
      let work = start_work session world response in
      elim operation [
        | open_project ↦ if is_expected then settle session (work, ok tt) else mismatch
        | update ↦ if is_expected then settle session (answer_update request work) else mismatch
        | analyze ↦
            if is_expected
            then analyze_demands context session world request into_arena response
            else mismatch
        | symbols ↦
            if is_expected
            then answer_symbols context session world request into_arena response
            else mismatch
        | sources ↦
            if is_expected
            then settle session (coded_action sources_failed answer_sources work)
            else mismatch
        | modules ↦
            if is_expected then settle session (answer_modules context request work) else mismatch
        | cancel ↦ settle session (work, ok tt)
        | close ↦ if is_expected then answer_close session world response else mismatch
        | other_operation name ↦ settle session (work, ok tt)
      ]

  unfoldable pub blank_response :
      Session → World → LifecycleRequest Graph → LifecycleResponse Inventory
  blank_response session world request = record {
    schema = session.schema;
    request_id = request.request_id;
    project_id = session.project_id;
    generation = services.generation world;
    is_ok = false;
    table_transition = [];
    symbol_evidence = [];
    reference_evidence = [];
    changed_reference_symbols = [];
    reference_changes_exact = false;
    state_token = [];
    affected = [];
    source_paths = [];
    source_arena = [];
    source_lengths = [];
    inventory = none;
    error = none;
  }

  unfoldable pub lifecycle :
      Context → Session → World → LifecycleRequest Graph → Bool → Outcome World Inventory
  unfolding blank_response is_close
  lifecycle context session world request into_arena =
      let response = blank_response session world request in
      if not (validate_lifecycle_request request)
      then turned_away session world response invalid_request
      else if not (request.schema == session.schema)
      then turned_away session world response invalid_request
      else if not (str_eq (clean request.project_id) session.project_id)
      then turned_away session world response project_mismatch
      else if session.closed
      then (if is_close request.operation && not session.close_err
          then record { session = session; world = world; response = accepted response }
          else turned_away session world response session_closed)
      else dispatch context session world request into_arena response request.operation
