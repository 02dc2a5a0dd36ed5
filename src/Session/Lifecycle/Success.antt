-- ===== src/Session/Lifecycle/Success.antt =====
-- An analyze that no service fails and no cancellation interrupts goes through.
use solid_ts_facts.Prelude.{
  ◌+◌, ◌%◌, ◌^◌, ◌≡◌, refl, sym, ap, ◌∙◌, subst, ◌⊎◌, inl, inr, Bool, true, false, not, ◌&&◌,
  Option, none, some, List, [], arith, ◌==◌, if◌then◌else◌, if-true, if-false, add64, ok,
}
use solid_ts_facts.Keys.{GoString, str_eq}
use solid_ts_facts.Keys.Clean.{clean}
use solid_ts_facts.Keys.Order.{str_eq_refl}
use solid_ts_facts.Keys.Rows.{IsSorted, find}
use solid_ts_facts.Session.Analyze.{
  next_token, detached, table_transition_of, wants_evidence, stop_if_cancelled, unless_cancelled,
  encode_call, recover, encode_or_rebuild, send, attempt,
}
use solid_ts_facts.Session.Decimal.{format_uint}
use solid_ts_facts.Session.DemandStore.{DemandGroup, group_path, Transaction, begin_runs}
use solid_ts_facts.Session.DemandStore.Contents.{overlay, without, begin_runs-overlay}
use solid_ts_facts.Session.Evidence.{ask, answer}
use solid_ts_facts.Session.Lifecycle.{
  published, expected_generation, settle_analysis, analyze_demands, dispatch, blank_response,
  lifecycle,
}
use solid_ts_facts.Session.Lifecycle.Client.{
  HasWork, Edits, asked_transition, Sends, is_idle-HasWork, begin_demands-Edits,
  transition_input-asked, sent_bytes-Sends,
}
use solid_ts_facts.Session.Lifecycle.Ends.{blank, attempted}
use solid_ts_facts.Session.Lifecycle.Reachable.{IsNamed, IsWellFormed, commit-groups}
use solid_ts_facts.Session.Requests.{analyze, LifecycleRequest, validate_lifecycle_request}
use solid_ts_facts.Session.Services.{
  Services, ContextCheck, table_returned, transition_encoded, evidence_ready, Context,
}
use solid_ts_facts.Session.State.{Session, Work, Outcome}
use solid_ts_facts.Transition.Rows.{is_empty, is_some}
use solid_ts_facts.Transition.Tables.{FactTable, EncodedTransition}

-- The context is never cancelled.
abbrev pub IsUncancelled : Context → Type 0
IsUncancelled context = (check : ContextCheck) → context check ≡ false

module _ {World Graph Inventory : Type 0} (services : Services World Graph Inventory)
    (context : Context) (session : Session) (world : World) (request : LifecycleRequest Graph)
    (into_arena : Bool) where
  -- The demands after the edits: the runs that the request makes laid over the retained groups, or
  -- over nothing after a reset, without the removed paths.
  abbrev pub edited : List DemandGroup → GoString → Option DemandGroup
  edited runs =
      without
        (overlay (find group_path (if request.reset_state then [] else session.retained.demands))
          runs)
        request.removed_demand_paths

  abbrev pub begun : List DemandGroup → Transaction
  begun runs =
      begin_runs session.retained.demands runs request.removed_demand_paths request.reset_state

  -- The services' part in one analysis: a table for the edited demands, and then its transition from
  -- the state that the client has.
  pub record Serves (runs : List DemandGroup) (table : FactTable) (encoded : EncodedTransition)
      : Type 0 where
    pub after_table : World
    pub after_encode : World
    pub table_is_made :
        services.demand_table
          (services.generation world)
          (begun runs).groups
          (begun runs).changed_paths
          world
        ≡ (after_table, some table)
    pub transition_is_made :
        services.encode into_arena (asked_transition session request table) after_table
        ≡ (after_encode, ok encoded)

  abbrev pub done : FactTable → EncodedTransition → World → Work World Inventory
  done table encoded after = record {
    world = after;
    response = record (blank services context session world request into_arena) {
      state_token = format_uint (next_token session);
      table_transition = table_transition_of session.retained.table table encoded;
    };
    arena_path = session.source_arena_path;
  }

  attempted-done :
      (runs : List DemandGroup) (table : FactTable) (encoded : EncodedTransition)
      (serves : Serves runs table encoded)
      → IsNamed session.retained
      → IsUncancelled context
      → wants_evidence request ≡ false
      → attempted services context session world request into_arena (begun runs)
        ≡ (done table encoded serves.after_encode, ok table)
  unfolding attempt send unless_cancelled stop_if_cancelled ask answer encode_or_rebuild encode_call
      recover
  attempted-done runs table encoded serves named free plain = rw (
    serves.table_is_made,
    free table_returned,
    transition_input-asked session request table named,
    serves.transition_is_made,
    free transition_encoded,
    plain,
    free evidence_ready,
  )

  -- What a client gets right in an analyze whose demands make the runs.
  pub record Asks (runs : List DemandGroup) : Type 0 where
    pub is_valid : validate_lifecycle_request request ≡ true
    pub has_schema : request.schema ≡ session.schema
    pub is_project : clean request.project_id ≡ session.project_id
    pub is_live : session.closed ≡ false
    pub is_analyze : request.operation ≡ analyze
    pub has_generation : request.generation ≡ services.generation world
    pub has_one_kind : (request.compact_demands ≡ none) ⊎ (request.demands ≡ [])
    pub has_token :
        (request.reset_state ≡ true) ⊎ (request.state_token ≡ session.retained.token_text)
    pub has_work : HasWork session request (services.generation world)
    pub edits : Edits request runs

  one_kind :
      (request.compact_demands ≡ none) ⊎ (request.demands ≡ [])
      → (is_some request.compact_demands && not (is_empty request.demands)) ≡ false
  unfolding is_some is_empty
  one_kind (inl plain) = rw plain refl
  one_kind (inr none_given) = rw none_given (ground arith)

  right_token :
      (request.reset_state ≡ true) ⊎ (request.state_token ≡ session.retained.token_text)
      → (not request.reset_state && not (str_eq request.state_token session.retained.token_text))
        ≡ false
  right_token (inl reset) = rw reset refl
  right_token (inr same) = rw same (ground (arith, str_eq_refl session.retained.token_text))

  analyze_demands-done :
      (runs : List DemandGroup) (table : FactTable) (encoded : EncodedTransition)
      (serves : Serves runs table encoded)
      → IsNamed session.retained
      → Asks runs
      → IsUncancelled context
      → wants_evidence request ≡ false
      → analyze_demands services context session world request into_arena
          (blank services context session world request into_arena)
        ≡ settle_analysis services session
            (begun runs)
            (done table encoded serves.after_encode, ok table)
  unfolding analyze_demands
  analyze_demands-done runs table encoded serves named asks free plain =
      rw
        (
          one_kind asks.has_one_kind,
          right_token asks.has_token,
          is_idle-HasWork session request (services.generation world) asks.has_work,
          begin_demands-Edits session request runs asks.edits,
        )
        (ap (settle_analysis services session (begun runs))
          (attempted-done runs table encoded serves named free plain))

  -- The table that is kept: its header and symbols, without the rows that the client owns.
  abbrev pub Keeps : Option FactTable → FactTable → Type 0
  Keeps retained table =
      (kept : FactTable) × (retained ≡ some kept)
      × (kept.generation ≡ table.generation)
      × (kept.project_id ≡ table.project_id)
      × (kept.state_id ≡ table.state_id)
      × (kept.symbols ≡ table.symbols)
      × (kept.symbol_store ≡ table.symbol_store)
      × (kept.entities ≡ [])
      × (kept.entity_runs ≡ none)
      × (kept.files ≡ [])
      × (kept.source_digests ≡ [])

  -- An analysis that came through.
  pub record Analyzed (runs : List DemandGroup) (table : FactTable) (encoded : EncodedTransition)
      (after : Outcome World Inventory) : Type 0 where
    pub is_ok : after.response.is_ok ≡ true
    pub no_error : after.response.error ≡ none
    pub request_id : after.response.request_id ≡ request.request_id
    pub next : after.session.retained.token ≡ (session.retained.token + 1) % 2 ^ 64
    pub named :
        after.session.retained.token_text ≡ format_uint ((session.retained.token + 1) % 2 ^ 64)
    pub told : after.response.state_token ≡ format_uint ((session.retained.token + 1) % 2 ^ 64)
    pub in_order : IsSorted group_path after.session.retained.demands
    pub demands : find group_path after.session.retained.demands ≡ edited runs
    pub keeps : Keeps after.session.retained.table table
    pub sends :
        Sends session.retained.table table encoded encoded.mode after.response.table_transition
    pub is_live : after.session.closed ≡ false
    pub same_project : after.session.project_id ≡ session.project_id

  published-Analyzed :
      (runs : List DemandGroup) (table : FactTable) (encoded : EncodedTransition) (after : World)
      → IsSorted group_path session.retained.demands
      → session.closed ≡ false
      → Analyzed runs table encoded
          (settle_analysis services session (begun runs) (done table encoded after, ok table))
  unfolding settle_analysis published detached add64 table_transition_of blank_response
  published-Analyzed runs table encoded after sorted live =
      let (in_order, laid) =
        begin_runs-overlay session.retained.demands runs request.removed_demand_paths
          request.reset_state sorted in
      record {
        is_ok = refl;
        no_error = refl;
        request_id = refl;
        next = refl;
        named = refl;
        told = refl;
        in_order = rw (commit-groups (begun runs)) in_order;
        demands = ap (find group_path) (commit-groups (begun runs)) ∙ laid;
        keeps = (detached table, refl, refl, refl, refl, refl, refl, refl, refl, refl, refl);
        sends = sent_bytes-Sends session.retained.table table encoded encoded.mode;
        is_live = live;
        same_project = refl;
      }

  -- When the closure makes a table of the edited demands and the encoder a transition to it from the
  -- state that the client has, and the context is never cancelled, a well-formed session answers an
  -- analyze that names its generation and token (or resets), has something to analyze and asks for
  -- no evidence with success. The session then retains the edited demands in path order, the table
  -- without its rows and the next token; the answer carries that token, and the transition's bytes
  -- unless it is an empty delta within one generation.
  pub lifecycle-analyzes :
      (runs : List DemandGroup) (table : FactTable) (encoded : EncodedTransition)
      → IsWellFormed session.retained
      → Serves runs table encoded
      → Asks runs
      → IsUncancelled context
      → wants_evidence request ≡ false
      → Analyzed runs table encoded (lifecycle services context session world request into_arena)
  unfolding lifecycle dispatch expected_generation
  lifecycle-analyzes runs table encoded formed serves asks free plain =
      subst (Analyzed runs table encoded) (sym reached)
        (published-Analyzed runs table encoded serves.after_encode formed.in_order asks.is_live)
    where
      reached :
          lifecycle services context session world request into_arena
          ≡ settle_analysis services session
              (begun runs)
              (done table encoded serves.after_encode, ok table)
      reached =
          if-false (not (validate_lifecycle_request request)) _ _ (ap not asks.is_valid)
          ∙ if-false (not (request.schema == session.schema)) _ _ (ground (arith, asks.has_schema))
          ∙ if-false (not (str_eq (clean request.project_id) session.project_id)) _ _
              (ground (arith, asks.is_project, str_eq_refl session.project_id))
          ∙ if-false session.closed _ _ asks.is_live
          ∙ ap
              (dispatch services context session world request into_arena
                (blank services context session world request into_arena))
              asks.is_analyze
          ∙ if-true (request.generation == services.generation world) _ _
              (ground (arith, asks.has_generation))
          ∙ analyze_demands-done runs table encoded serves formed.is_named asks free plain
