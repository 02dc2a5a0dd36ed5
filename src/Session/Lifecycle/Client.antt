-- ===== src/Session/Lifecycle/Client.antt =====
-- What a client asks of an analyze and gets from it, without the session's own helpers.
use solid_ts_facts.Prelude.{
  ℕ, ◌≡◌, refl, sym, ap, ◌∙◌, ◌≢◌, ◌⊎◌, inl, inr, Bool, true, false, ◌&&◌, Option, none, some, List,
  [], map, arith, ◌==◌, if◌then◌else◌, Bool-cases, some_inj, if-true, if-false, Result, err, ok,
}
use solid_ts_facts.Keys.{GoString}
use solid_ts_facts.Model.{CompactDemands}
use solid_ts_facts.Session.Analyze.{
  base_token, has_groups, is_current, is_idle, as_begun, begin_with, begin_demands,
  transition_input, is_reuse, sent_bytes,
}
use solid_ts_facts.Session.DemandStore.{
  DemandGroup, Transaction, begin_runs, BeginError, path_named_twice, compact_runs, sort_runs,
  repeated_path, begin_compact,
}
use solid_ts_facts.Session.DemandStore.Runs.{session_changed_demand_runs, plain_group, begin}
use solid_ts_facts.Session.Lifecycle.Reachable.{IsNamed}
use solid_ts_facts.Session.Requests.{LifecycleRequest}
use solid_ts_facts.Session.State.{Session}
use solid_ts_facts.Transition.Rows.{is_empty}
use solid_ts_facts.Transition.Tables.{
  FactTable, TransitionInput, TransitionMode, full_mode, delta_mode, EncodedTransition,
}
use solid_ts_facts.Transition.Writer.{text}

-- There is something to analyze: a reset, edits of the demands, or no table of this generation.
abbrev pub HasWork : {Graph : Type 0} → Session → LifecycleRequest Graph → ℕ → Type 0
HasWork session request generation =
    (request.reset_state ≡ true)
    ⊎ (is_empty request.demands ≡ false)
    ⊎ ((compact : CompactDemands) × (request.compact_demands ≡ some compact)
        × (is_empty compact.groups ≡ false))
    ⊎ (is_empty request.removed_demand_paths ≡ false)
    ⊎ ((table : FactTable) → session.retained.table ≡ some table → table.generation ≢ generation)

-- The runs that a request's demands make, given plain or as a compact snapshot.
abbrev pub Edits : {Graph : Type 0} → LifecycleRequest Graph → List DemandGroup → Type 0
Edits request runs =
    ((request.compact_demands ≡ none)
      × (runs ≡ map plain_group (session_changed_demand_runs request.demands)))
    ⊎ ((compact : CompactDemands) × (read : List DemandGroup) × (request.compact_demands
          ≡ some compact)
        × (compact_runs compact.strings compact.groups ≡ ok read)
        × (repeated_path (sort_runs read) ≡ none)
        × (runs ≡ sort_runs read))

-- The transition that the encoder is asked for: from the retained table, under the token that the
-- session answered with, or from nothing after a reset.
abbrev pub asked_transition :
    {Graph : Type 0} → Session → LifecycleRequest Graph → FactTable → TransitionInput
asked_transition session request table = record {
  project_id = session.project_id;
  base_state_token = if request.reset_state then [] else session.retained.token_text;
  base = if request.reset_state then none else session.retained.table;
  target = some table;
  sparse = true;
}

-- The transition says nothing: a delta without operations within one generation.
abbrev pub SaysNothing : Option FactTable → FactTable → EncodedTransition → TransitionMode → Type 0
SaysNothing retained table encoded mode =
    (mode ≡ delta_mode)
    × (encoded.path_operations ≡ 0)
    × (encoded.symbol_operations ≡ 0)
    × ((previous : FactTable) × (retained ≡ some previous)
        × (table.generation ≡ previous.generation))

abbrev pub Sends :
    Option FactTable → FactTable → EncodedTransition → TransitionMode → List ℕ → Type 0
Sends retained table encoded mode bytes =
    (SaysNothing retained table encoded mode × (bytes ≡ []))
    ⊎ ((SaysNothing retained table encoded mode → ⊥) × (bytes ≡ encoded.bytes))

not_current :
    (retained : Option FactTable) (generation : ℕ)
    → ((table : FactTable) → retained ≡ some table → table.generation ≢ generation)
    → is_current retained generation ≡ false
unfolding is_current
not_current none generation newer = refl
not_current (some table) generation newer = elim (Bool-cases (table.generation == generation)) [
  | inl same ↦ absurd (newer table refl (ground (arith, same)))
  | inr other ↦ other
]

pub is_idle-HasWork :
    {Graph : Type 0} (session : Session) (request : LifecycleRequest Graph) (generation : ℕ)
    → HasWork session request generation
    → is_idle session request generation ≡ false
unfolding is_idle has_groups is_current
is_idle-HasWork session request generation (inl reset) = rw reset refl
is_idle-HasWork session request generation (inr (inl demands)) = ground (arith, demands)
is_idle-HasWork session request generation (inr (inr (inl (compact, e, groups)))) =
    rw (e, groups) (ground arith)
is_idle-HasWork session request generation (inr (inr (inr (inl paths)))) = ground (arith, paths)
is_idle-HasWork session request generation (inr (inr (inr (inr newer)))) =
    ground (arith, not_current session.retained.table generation newer)

begin_compact-runs :
    (groups : List DemandGroup) (compact : CompactDemands) (removed_paths : List GoString)
    (reset : Bool) (read : List DemandGroup)
    → compact_runs compact.strings compact.groups ≡ ok read
    → repeated_path (sort_runs read) ≡ none
    → begin_compact groups compact removed_paths reset
      ≡ ok (begin_runs groups (sort_runs read) removed_paths reset)
unfolding begin_compact
begin_compact-runs groups compact removed_paths reset read is_read apart = rw is_read (
    ap
      (λ o. elim o as (λ o. Result BeginError Transaction) [
        | some path ↦ err (path_named_twice path)
        | none ↦ ok (begin_runs groups (sort_runs read) removed_paths reset)
      ])
      apart)

pub begin_demands-Edits :
    {Graph : Type 0} (session : Session) (request : LifecycleRequest Graph)
    (runs : List DemandGroup)
    → Edits request runs
    → begin_demands session request
      ≡ some (
          begin_runs session.retained.demands runs request.removed_demand_paths request.reset_state)
unfolding begin_demands begin_with as_begun begin
begin_demands-Edits session request runs (inl (plain, same)) = rw (plain, same) refl
begin_demands-Edits session request runs (inr (compact, read, e, is_read, apart, same)) =
    rw (e, same)
      (ap as_begun (
        begin_compact-runs session.retained.demands compact request.removed_demand_paths
          request.reset_state read is_read apart))

pub transition_input-asked :
    {Graph : Type 0} (session : Session) (request : LifecycleRequest Graph) (table : FactTable)
    → IsNamed session.retained
    → transition_input session request table ≡ asked_transition session request table
unfolding transition_input base_token
transition_input-asked session request table named = elim (Bool-cases request.reset_state) [
  | inl reset ↦ rw reset refl
  | inr kept ↦ elim named [
    | inl (no_table, no_text) ↦ rw (kept, no_table, no_text) refl
    | inr (previous, is_table, rowless, text) ↦ rw (kept, is_table) refl
  ]
]

pub sent_bytes-Sends :
    (retained : Option FactTable) (table : FactTable) (encoded : EncodedTransition)
    (mode : TransitionMode)
    → Sends retained table encoded mode (sent_bytes retained table encoded mode)
unfolding sent_bytes is_reuse
sent_bytes-Sends retained table encoded full_mode =
    inr ((λ s. let differs : full_mode ≡ delta_mode = s.0 in absurd cc), refl)
sent_bytes-Sends none table encoded delta_mode = inr ((λ (_, _, _, (held, e, _)). absurd cc), refl)
sent_bytes-Sends (some previous) table encoded delta_mode =
    let reuse : Bool =
      table.generation == previous.generation
      && encoded.path_operations == 0
      && encoded.symbol_operations == 0 in
    elim (Bool-cases reuse) [
      | inl nothing ↦ inl (
        (
          refl,
          ground (arith, nothing),
          ground (arith, nothing),
          (previous, refl, ground (arith, nothing)),
        ),
        if-true reuse [] encoded.bytes nothing,
      )
      | inr something ↦ inr (
        (λ (_, no_paths, no_symbols, (held, e, same)).
            let one : held ≡ previous = sym (some_inj e) in
            let equal : table.generation ≡ previous.generation =
              same ∙ ap (λ t. t.generation) one in
            absurd (ground (arith, something, no_paths, no_symbols, equal))),
        if-false reuse [] encoded.bytes something,
      )
    ]
