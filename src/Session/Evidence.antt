-- ===== src/Session/Evidence.antt =====
-- internal/typefacts/session.go: the steps that requests are made of, and populateSymbolEvidence.
pub mod Quiet
use solid_ts_facts.Prelude.{
  Bool, true, false, not, ◌&&◌, ◌||◌, Option, none, some, List, [], ◌∷◌, map, if◌then◌else◌, Result,
  err, ok,
}
use solid_ts_facts.Keys.{GoString, str_eq, str_lt}
use solid_ts_facts.Keys.Clean.{clean}
use solid_ts_facts.Model.{Location}
use solid_ts_facts.Session.Actions.{Action, ◌>>=◌}
use solid_ts_facts.Session.Requests.{
  LifecycleOperation, symbols, SymbolQuery, LifecycleRequest, ErrorCode, LifecycleResponse,
}
use solid_ts_facts.Session.Services.{ServiceCall, Services}
use solid_ts_facts.Session.State.{Session, Work}
use solid_ts_facts.Transition.Facts.{SymbolFact}
use solid_ts_facts.Transition.Rows.{is_empty}
use solid_ts_facts.Transition.Tables.{
  TransitionInput, EncodedTransition, EncodeError, schema_version,
}

abbrev pub or_failed : {A : Type 0} → Option A → Result (Unit {0}) A
or_failed none = err tt
or_failed (some a) = ok a

-- The code that a failure gets.
abbrev pub in_code : {E A : Type 0} → ErrorCode → Result E A → Result ErrorCode A
in_code code (ok a) = ok a
in_code code (err e) = err code

insert_evidence : SymbolFact → List SymbolFact → List SymbolFact
insert_evidence fact [] = fact ∷ []
insert_evidence fact (next ∷ rest) =
    if str_lt next.id fact.id then next ∷ insert_evidence fact rest else fact ∷ next ∷ rest

-- sort.Slice by ID, where facts with one ID keep their order.
unfoldable pub sort_evidence : List SymbolFact → List SymbolFact
unfolding insert_evidence
sort_evidence [] = []
sort_evidence (fact ∷ rest) = insert_evidence fact (sort_evidence rest)

is_path_of : List GoString → GoString → Bool
is_path_of [] path = false
is_path_of (p ∷ rest) path = str_eq p path || is_path_of rest path

-- The locations whose path is one of the cleaned paths.
unfoldable pub kept_locations : List GoString → List Location → List Location
unfolding is_path_of
kept_locations paths [] = []
kept_locations paths (location ∷ rest) =
    if is_path_of paths location.path
    then location ∷ kept_locations paths rest
    else kept_locations paths rest

scoped_fact : List GoString → SymbolFact → SymbolFact
scoped_fact paths fact = record fact { references = kept_locations paths fact.references }

scoped_evidence : List GoString → List SymbolFact → List SymbolFact
unfolding scoped_fact
scoped_evidence [] facts = facts
scoped_evidence (path ∷ rest) facts = map (scoped_fact (map clean (path ∷ rest))) facts

is_symbols : LifecycleOperation → Bool
is_symbols symbols = true
is_symbols operation = false

references_of : GoString → SymbolQuery
references_of id = record { id = id; references = true; references_only = false }

module _ {World Inventory : Type 0} where
  unfoldable pub ask :
      {A : Type 0} → ServiceCall World A → Action (Work World Inventory) (Unit {0}) A
  ask call work =
      let (world, result) = call work.world in (record work { world = world }, or_failed result)

  unfoldable pub answer {ℓ} :
      {E : Type ℓ}
      → (LifecycleResponse Inventory → LifecycleResponse Inventory)
      → Action (Work World Inventory) E (Unit {0})
  answer edit work = (record work { response = edit work.response }, ok tt)

module _ {World Graph Inventory : Type 0} (services : Services World Graph Inventory) where
  evidence_input : Session → LifecycleRequest Graph → List SymbolFact → TransitionInput
  evidence_input session request evidence = record {
    project_id = session.project_id;
    base_state_token = [];
    base = none;
    target = some (record {
      schema = schema_version;
      generation = request.generation;
      project_id = session.project_id;
      entities = [];
      symbols = sort_evidence evidence;
      symbols_address = 0;
      symbol_store = none;
      files = [];
      state_id = 0;
      transport = none;
      source_digests = [];
      entity_runs = none;
    });
    sparse = false;
  }

  encode_failed : {A : Type 0} → Result EncodeError A → Result (Unit {0}) A
  encode_failed (ok a) = ok a
  encode_failed (err e) = err tt

  unfoldable pub pack_evidence :
      Session
      → LifecycleRequest Graph
      → Bool
      → List SymbolFact
      → Action (Work World Inventory) (Unit {0}) EncodedTransition
  unfolding evidence_input encode_failed
  pack_evidence session request into_arena evidence work =
      let (world, result) =
        services.encode into_arena (evidence_input session request evidence) work.world in
      (record work { world = world }, encode_failed result)

  unfoldable pub hand_over_evidence :
      Session
      → LifecycleRequest Graph
      → Bool
      → List SymbolFact
      → Action (Work World Inventory) (Unit {0}) (Unit {0})
  unfolding is_symbols pack_evidence answer
  hand_over_evidence session request into_arena evidence =
      if is_symbols request.operation && not (is_empty evidence)
      then (do
        packed ← pack_evidence session request into_arena evidence
        answer (λ r. record r { table_transition = packed.bytes }))
      else answer (λ r. record r { symbol_evidence = evidence })

  unfoldable pub reference_evidence_of :
      LifecycleRequest Graph
      → List GoString × Bool
      → Action (Work World Inventory) (Unit {0}) (Unit {0})
  unfolding ask answer scoped_evidence references_of
  reference_evidence_of request (ids, exact) =
      if exact && not (is_empty ids)
      then (do
        found ← ask (services.resolve_symbol_evidence (map references_of ids))
        answer
            (λ r. record r { reference_evidence = scoped_evidence request.reference_paths found }))
      else λ work. (work, ok tt)

  unfoldable pub reference_changes_of :
      LifecycleRequest Graph → Action (Work World Inventory) (Unit {0}) (Unit {0})
  unfolding ask answer reference_evidence_of
  reference_changes_of request = do
    found ← ask services.changed_references
    _ ←
        answer
          (λ r. record r { changed_reference_symbols = found.0; reference_changes_exact = found.1 })
    reference_evidence_of request found

  unfoldable pub release :
      LifecycleRequest Graph → Action (Work World Inventory) (Unit {0}) (Unit {0})
  release request work =
      if request.release_analysis
      then (record work { world = services.release_analysis_state work.world }, ok tt)
      else (work, ok tt)

  unfoldable pub populate_symbol_evidence :
      Session → LifecycleRequest Graph → Bool → Action (Work World Inventory) (Unit {0}) (Unit {0})
  unfolding ask hand_over_evidence reference_changes_of release
  populate_symbol_evidence session request into_arena = do
    evidence ← ask (services.resolve_symbol_evidence request.symbol_queries)
    _ ← hand_over_evidence session request into_arena evidence
    _ ← (if request.reference_changes then reference_changes_of request else λ work. (work, ok tt))
    release request
