-- ===== src/Session/Lifecycle/Ends.antt =====
-- The ways in which a request ends, for every operation.
use solid_ts_facts.Prelude.{
  ◌≡◌, refl, ap, ◌∙◌, Bool, true, false, not, ◌&&◌, ◌||◌, Option, none, some, [], arith, ◌==◌,
  if◌then◌else◌, if-both, Result, ok,
}
use solid_ts_facts.Keys.{str_eq}
use solid_ts_facts.Keys.Clean.{clean}
use solid_ts_facts.Session.Actions.{Action}
use solid_ts_facts.Session.Analyze.{is_idle, begin_demands, unless_cancelled, attempt}
use solid_ts_facts.Session.DemandStore.{Transaction}
use solid_ts_facts.Session.Evidence.{ask, answer, populate_symbol_evidence}
use solid_ts_facts.Session.Evidence.Quiet.{flags, IsQuiet, populate_symbol_evidence-IsQuiet}
use solid_ts_facts.Session.Lifecycle.{
  accepted, expected_generation, is_close, turned_away, start_work, settle, settle_analysis,
  clear_arena, keep_arena, answer_sources, coded_action, answer_update, answer_modules,
  analyze_demands, answer_symbols, answer_close, dispatch, blank_response, lifecycle,
}
use solid_ts_facts.Session.Requests.{
  LifecycleOperation, open_project, update, analyze, symbols, sources, modules, cancel, close,
  other_operation, LifecycleRequest, ErrorCode, invalid_request, project_mismatch, session_closed,
  generation_mismatch, invalid_demands, state_mismatch, sources_failed, LifecycleResponse,
  validate_lifecycle_request,
}
use solid_ts_facts.Session.Services.{Services, evidence_failed, Context}
use solid_ts_facts.Session.State.{Session, Work, Outcome}
use solid_ts_facts.Transition.Rows.{is_empty, is_some}
use solid_ts_facts.Transition.Tables.{FactTable}

-- No verdict yet.
abbrev pub IsOpen : {World Inventory : Type 0} → Work World Inventory → Type 0
IsOpen work = flags work ≡ (false, none)

abbrev pub is_analysis : LifecycleOperation → Bool
is_analysis analyze = true
is_analysis operation = false

module _ {World Graph Inventory : Type 0} (services : Services World Graph Inventory)
    (context : Context) (session : Session) (world : World) (request : LifecycleRequest Graph)
    (into_arena : Bool) where
  abbrev pub blank : LifecycleResponse Inventory
  blank = blank_response services session world request

  abbrev pub attempted : Transaction → Work World Inventory × Result ErrorCode FactTable
  attempted t =
      attempt services context session request (services.generation world) t into_arena
        (start_work services session world blank)

  -- An analyze that may go on: the session is open, and the request's token is its token or unread.
  pub record IsAdmitted : Type 0 where
    pub is_analyze : request.operation ≡ analyze
    pub is_live : session.closed ≡ false
    pub is_current_generation : (request.generation == services.generation world) ≡ true
    pub has_token :
        (not request.reset_state && not (str_eq request.state_token session.retained.token_text))
        ≡ false

  pub data Ending : Outcome World Inventory → Type 0 where
    turned : (code : ErrorCode) → Ending (turned_away services session world blank code)
    closed_again :
        session.closed ≡ true
        → session.close_err ≡ false
        → is_close request.operation ≡ true
        → Ending (record { session = session; world = world; response = accepted blank })
    settled :
        (r : Work World Inventory × Result ErrorCode (Unit {0}))
        → session.closed ≡ false
        → IsOpen r.0
        → is_analysis request.operation ≡ false
        → Ending (settle services session r)
    idle :
        IsAdmitted
        → Ending (record {
          session = session;
          world = world;
          response = accepted (record blank { state_token = session.retained.token_text });
        })
    analysed :
        (t : Transaction)
        → IsAdmitted
        → begin_demands session request ≡ some t
        → Ending (settle_analysis services session t (attempted t))
    closing :
        session.closed ≡ false
        → request.operation ≡ close
        → Ending (answer_close services session world blank)

  begun-Ending :
      (o : Option Transaction)
      → IsAdmitted
      → begin_demands session request ≡ o
      → Ending (elim o as (λ o. Outcome World Inventory) [
        | none ↦ turned_away services session world blank invalid_demands
        | some t ↦ settle_analysis services session t (attempted t)
      ])
  begun-Ending none admitted e = turned invalid_demands
  begun-Ending (some t) admitted e = analysed t admitted e

  analyze_demands-Ending :
      request.operation ≡ analyze
      → session.closed ≡ false
      → (request.generation == services.generation world) ≡ true
      → Ending (analyze_demands services context session world request into_arena blank)
  unfolding analyze_demands
  analyze_demands-Ending o live g =
      if-both Ending (is_some request.compact_demands && not (is_empty request.demands))
        (λ p. turned invalid_demands)
        (λ p.
          if-both Ending
            (not request.reset_state
              && not (str_eq request.state_token session.retained.token_text))
            (λ q. turned state_mismatch)
            (λ q.
              if-both Ending (is_idle session request (services.generation world))
                (λ r. idle (admitted q))
                (λ r. begun-Ending (begin_demands session request) (admitted q) refl)))
    where
      admitted :
          (not request.reset_state && not (str_eq request.state_token session.retained.token_text))
            ≡ false
          → IsAdmitted
      admitted q = record {
        is_analyze = o;
        is_live = live;
        is_current_generation = g;
        has_token = q;
      }

  abbrev begun_work : Work World Inventory
  begun_work = start_work services session world blank

  begun-IsOpen : IsOpen begun_work
  unfolding blank_response
  begun-IsOpen = refl

  IsOpen-IsQuiet :
      {E A : Type 0} (action : Action (Work World Inventory) E A)
      → IsQuiet action
      → IsOpen (action begun_work).0
  IsOpen-IsQuiet action q = q begun_work ∙ begun-IsOpen

  update-IsQuiet : IsQuiet (answer_update services request)
  unfolding answer_update coded_action ask answer
  update-IsQuiet work = ground arith

  modules-IsQuiet : IsQuiet (answer_modules services context request)
  unfolding answer_modules ask answer
  modules-IsQuiet work = ground arith

  sources-IsQuiet : IsQuiet (coded_action services sources_failed (answer_sources services))
  unfolding answer_sources coded_action ask answer clear_arena keep_arena
  sources-IsQuiet work = ground arith

  symbols-IsQuiet : IsQuiet (
      unless_cancelled services context evidence_failed
        (populate_symbol_evidence services session request into_arena))
  unfolding unless_cancelled
  symbols-IsQuiet work = populate_symbol_evidence-IsQuiet services session request into_arena work

  if-expected :
      (b : Bool) {x : Outcome World Inventory}
      → (b ≡ true → Ending x)
      → Ending (if b then x else turned_away services session world blank generation_mismatch)
  if-expected true f = f refl
  if-expected false f = turned generation_mismatch

  settled_by :
      (action : Action (Work World Inventory) ErrorCode (Unit {0}))
      → session.closed ≡ false
      → IsQuiet action
      → is_analysis request.operation ≡ false
      → Ending (settle services session (action begun_work))
  settled_by action live q n = settled (action begun_work) live (IsOpen-IsQuiet action q) n

  dispatch-Ending :
      (operation : LifecycleOperation)
      → request.operation ≡ operation
      → session.closed ≡ false
      → Ending (dispatch services context session world request into_arena blank operation)
  unfolding dispatch answer_symbols expected_generation
  dispatch-Ending open_project o live =
      if-expected _ (λ g. settled (begun_work, ok tt) live begun-IsOpen (ap is_analysis o))
  dispatch-Ending update o live =
      if-expected _
        (λ g. settled_by (answer_update services request) live update-IsQuiet (ap is_analysis o))
  dispatch-Ending analyze o live = if-expected _ (λ g. analyze_demands-Ending o live g)
  dispatch-Ending symbols o live = if-expected _ (λ g.
      if-both Ending
        (str_eq request.state_token []
          || not (str_eq request.state_token session.retained.token_text))
        (λ p. turned state_mismatch)
        (λ p.
          settled_by
            (unless_cancelled services context evidence_failed
              (populate_symbol_evidence services session request into_arena))
            live symbols-IsQuiet (ap is_analysis o)))
  dispatch-Ending sources o live = if-expected _ (λ g.
      settled_by (coded_action services sources_failed (answer_sources services)) live
        sources-IsQuiet (ap is_analysis o))
  dispatch-Ending modules o live = if-expected _ (λ g.
      settled_by (answer_modules services context request) live modules-IsQuiet (ap is_analysis o))
  dispatch-Ending cancel o live = settled (begun_work, ok tt) live begun-IsOpen (ap is_analysis o)
  dispatch-Ending close o live = if-expected _ (λ g. closing live o)
  dispatch-Ending (other_operation name) o live =
      settled (begun_work, ok tt) live begun-IsOpen (ap is_analysis o)

  closed-Ending :
      session.closed ≡ true
      → Ending (
          if is_close request.operation && not session.close_err
          then record { session = session; world = world; response = accepted blank }
          else turned_away services session world blank session_closed)
  closed-Ending c =
      if-both Ending (is_close request.operation && not session.close_err)
        (λ p. closed_again c (ground arith) (ground arith)) (λ p. turned session_closed)

  pub lifecycle-Ending : Ending (lifecycle services context session world request into_arena)
  unfolding lifecycle
  lifecycle-Ending =
      if-both Ending (not (validate_lifecycle_request request)) (λ p. turned invalid_request)
        (λ p.
          if-both Ending (not (request.schema == session.schema)) (λ q. turned invalid_request)
            (λ q.
              if-both Ending (not (str_eq (clean request.project_id) session.project_id))
                (λ r. turned project_mismatch)
                (λ r.
                  if-both Ending session.closed closed-Ending
                    (dispatch-Ending request.operation refl))))
