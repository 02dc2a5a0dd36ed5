-- ===== src/Tests/Session.antt =====
-- A session on services that always answer, over two generations, with requests that succeed, that
-- are cancelled and that come too late.
use solid_ts_facts.Prelude.{
  ℕ, suc, ◌+◌, ◌≡◌, refl, sym, ap, ◌∙◌, ◌≢◌, inl, Bool, true, false, none, some, List, [], ◌∷◌, map,
  arith, add64, ok,
}
use solid_ts_facts.Keys.{GoString, str_eq}
use solid_ts_facts.Keys.Clean.{clean}
use solid_ts_facts.Model.{EntityDemand}
use solid_ts_facts.Session.Analyze.{
  is_idle, begin_demands, table_transition_of, wants_evidence, attempt,
}
use solid_ts_facts.Session.Decimal.{format_uint}
use solid_ts_facts.Session.DemandStore.{DemandGroup, Transaction}
use solid_ts_facts.Session.DemandStore.Runs.{session_changed_demand_runs, plain_group, begin}
use solid_ts_facts.Session.Lifecycle.{
  is_close, settle_analysis, analyze_demands, dispatch, lifecycle,
}
use solid_ts_facts.Session.Lifecycle.Failures.{lifecycle-failed}
use solid_ts_facts.Session.Lifecycle.Reachable.{
  IsWellFormed, Reaches, opened, answered, Reaches-IsWellFormed, lifecycle-stale,
}
use solid_ts_facts.Session.Lifecycle.Success.{Serves, Asks, Analyzed, lifecycle-analyzes}
use solid_ts_facts.Session.Lifecycle.Verdict.{HasOneVerdict, lifecycle-verdict, lifecycle-closed}
use solid_ts_facts.Session.Requests.{
  LifecycleOperation, open_project, analyze, LifecycleRequest, validate_lifecycle_request,
}
use solid_ts_facts.Session.Services.{file_removed, Services, Context}
use solid_ts_facts.Session.State.{Session, Outcome, new_session}
use solid_ts_facts.Transition.Rows.{is_empty, is_some}
use solid_ts_facts.Transition.Tables.{FactTable, full_mode, EncodedTransition}

-- The state of the services is their generation.
abbrev table_of : ℕ → FactTable
table_of generation = record {
  schema = 1;
  generation = generation;
  project_id = 47 ∷ 112 ∷ [];
  entities = [];
  symbols = [];
  symbols_address = 0;
  symbol_store = none;
  files = [];
  state_id = 1;
  transport = none;
  source_digests = [];
  entity_runs = none;
}

abbrev encoded_table : EncodedTransition
encoded_table = record {
  bytes = 1 ∷ 0 ∷ [];
  mode = full_mode;
  path_operations = 1;
  symbol_operations = 0;
}

abbrev services : Services ℕ ℕ ℕ
services = record {
  generation = λ w. w;
  update_files = λ changes w. (suc w, some []);
  demand_table = λ generation groups paths w. (w, some (table_of generation));
  abandon_analysis = λ w. w;
  force_full_materialization = λ w. w;
  release_transport_rows = λ w. w;
  resolve_symbol_evidence = λ queries w. (w, some []);
  changed_references = λ w. (w, some ([], true));
  release_analysis_state = λ w. w;
  source_files = λ w. (w, some []);
  module_graph = λ graph w. (w, some 7);
  close_closure = λ w. (w, some tt);
  encode = λ into_arena input w. (w, ok encoded_table);
  remove_file = λ path w. (w, file_removed);
  create_arena = λ sources w. (w, some (116 ∷ []));
}

abbrev project : GoString
project = 47 ∷ 112 ∷ []

abbrev first_session : Session
first_session = record {
  project_id = project;
  retained = record { token = 0; token_text = []; demands = []; table = none };
  source_arena_path = [];
  closed = false;
  close_err = false;
  schema = 1;
}

abbrev demand_at : ℕ → EntityDemand
demand_at start = record {
  location = record { path = 97 ∷ []; start_byte = start; end_byte = start + 1 };
  query_location = none;
  symbol = true;
  type_descriptor = false;
  resolved_call = false;
  callability = false;
  constructability = false;
  runtime_value_domain = false;
  primitive_value_domain = false;
  primitive_literal_candidates = false;
  parameter_object_shape = false;
  call_result_domain = false;
  constant_value = false;
  array_shape = false;
  tuple_shape = false;
  library_types = false;
  reference_space = false;
  runtime_identity = false;
  references = false;
  async = false;
  structural_accessor = false;
}

abbrev request_of : LifecycleOperation → Bool → GoString → LifecycleRequest ℕ
request_of operation reset token = record {
  schema = 1;
  request_id = 5;
  operation = operation;
  project_id = project;
  generation = 1;
  changes = [];
  demands = demand_at 3 ∷ [];
  compact_demands = none;
  state_token = token;
  reset_state = reset;
  removed_demand_paths = [];
  symbol_queries = [];
  release_analysis = false;
  reference_changes = false;
  reference_paths = [];
  module_graph = none;
}

abbrev calm : Context
calm check = false

abbrev cancelled : Context
cancelled check = true

abbrev begun : Transaction
begun = begin [] (demand_at 3 ∷ []) [] true

first_session-new : new_session {World = ℕ} true (λ world. 0) project 1 ≡ (1, some first_session)
unfolding new_session clean str_eq
first_session-new = refl

-- Without the closure's capabilities the backend is closed.
no_session : new_session {World = ℕ} false (λ world. 0) project 1 ≡ (0, none)
unfolding new_session clean str_eq
no_session = refl

first_session-Reaches : Reaches services first_session 1
first_session-Reaches = opened true (λ world. 0) project 1 1 first_session first_session-new

is_cancelled :
    (lifecycle services cancelled first_session 1 (request_of analyze true []) false).response.is_ok
    ≡ false
unfolding lifecycle dispatch analyze_demands validate_lifecycle_request str_eq clean is_idle
    begin_demands settle_analysis attempt is_some
is_cancelled = refl

lifecycle-failed_example :
    (lifecycle services cancelled first_session 1
      (request_of analyze true [])
      false).session.retained
    ≡ first_session.retained
lifecycle-failed_example =
    lifecycle-failed services cancelled first_session 1 (request_of analyze true []) false
      is_cancelled

lifecycle-verdict_example :
    HasOneVerdict services cancelled first_session
      (request_of analyze true [])
      (lifecycle services cancelled first_session 1 (request_of analyze true []) false).response
lifecycle-verdict_example =
    lifecycle-verdict services cancelled first_session (request_of analyze true []) 1 false

abbrev last_session : Session
last_session = record first_session { closed = true }

lifecycle-closed_example :
    ((lifecycle services calm last_session 1 (request_of open_project false []) false).session
      ≡ last_session)
    × ((lifecycle services calm last_session 1 (request_of open_project false []) false).world ≡ 1)
    × ((lifecycle services calm last_session 1
            (request_of open_project false [])
            false).response.is_ok
          ≡ true
        → is_close open_project ≡ true)
lifecycle-closed_example =
    lifecycle-closed services calm last_session (request_of open_project false []) 1 false refl

Reaches-IsWellFormed_example :
    IsWellFormed
      (lifecycle services calm first_session 1 (request_of analyze true []) false).session.retained
Reaches-IsWellFormed_example =
    Reaches-IsWellFormed services
      (lifecycle services calm first_session 1 (request_of analyze true []) false).session
      (lifecycle services calm first_session 1 (request_of analyze true []) false).world
      (answered first_session 1 calm (request_of analyze true []) false first_session-Reaches)

token_moves :
    (lifecycle services calm first_session 1
      (request_of analyze true [])
      false).session.retained.token
    ≡ 1
unfolding lifecycle dispatch analyze_demands validate_lifecycle_request str_eq clean is_idle
    begin_demands settle_analysis attempt wants_evidence is_empty is_some add64
token_moves = refl

retained-differs :
    (lifecycle services calm first_session 1 (request_of analyze true []) false).session.retained
    ≢ first_session.retained
retained-differs h = omega (arith, sym token_moves ∙ ap (λ r. r.token) h)

lifecycle-stale_example :
    (lifecycle services calm
      (lifecycle services calm first_session 1 (request_of analyze true []) false).session
      (lifecycle services calm first_session 1 (request_of analyze true []) false).world
      (request_of analyze false [])
      false).response.is_ok
    ≡ false
lifecycle-stale_example =
    lifecycle-stale services first_session 1 calm calm (request_of analyze true [])
      (request_of analyze false []) false false first_session-Reaches retained-differs refl refl
      refl

abbrev first_runs : List DemandGroup
first_runs = map plain_group (session_changed_demand_runs (demand_at 3 ∷ []))

first_request-Asks :
    Asks services calm first_session 1 (request_of analyze true []) false first_runs
unfolding validate_lifecycle_request str_eq clean
first_request-Asks = record {
  is_valid = refl;
  has_schema = refl;
  is_project = refl;
  is_live = refl;
  is_analyze = refl;
  has_generation = refl;
  has_one_kind = inl refl;
  has_token = inl refl;
  has_work = inl refl;
  edits = inl (refl, refl);
}

first_table-Serves :
    Serves services calm first_session 1
      (request_of analyze true [])
      false
      first_runs
      (table_of 1)
      encoded_table
first_table-Serves = record {
  after_table = 1;
  after_encode = 1;
  table_is_made = refl;
  transition_is_made = refl;
}

abbrev analyzed : Outcome ℕ ℕ
analyzed = lifecycle services calm first_session 1 (request_of analyze true []) false

lifecycle-analyzes_example :
    Analyzed services calm first_session 1
      (request_of analyze true [])
      false
      first_runs
      (table_of 1)
      encoded_table
      analyzed
unfolding wants_evidence is_empty
lifecycle-analyzes_example =
    lifecycle-analyzes services calm first_session 1 (request_of analyze true []) false first_runs
      (table_of 1) encoded_table
      (Reaches-IsWellFormed services first_session 1 first_session-Reaches) first_table-Serves
      first_request-Asks (λ check. refl) refl

-- The bytes of the transition reach the client, with the token "1".
first_answer :
    (analyzed.response.table_transition ≡ 1 ∷ 0 ∷ []) × (analyzed.response.state_token ≡ 49 ∷ [])
unfolding lifecycle dispatch analyze_demands validate_lifecycle_request str_eq clean is_idle
    begin_demands settle_analysis attempt table_transition_of wants_evidence is_empty is_some
    format_uint add64
first_answer = (refl, refl)

token_137 : format_uint 137 ≡ 49 ∷ 51 ∷ 55 ∷ []
unfolding format_uint
token_137 = refl
