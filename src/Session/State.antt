-- ===== src/Session/State.antt =====
-- internal/typefacts/session.go: the session's state, and what a request in progress changes.
use solid_ts_facts.Prelude.{
  ℕ, Bool, false, not, ◌||◌, Option, none, some, List, [], ◌∷◌, if◌then◌else◌,
}
use solid_ts_facts.Keys.{GoString, str_eq}
use solid_ts_facts.Keys.Clean.{clean}
use solid_ts_facts.Session.DemandStore.{DemandGroup}
use solid_ts_facts.Session.Requests.{LifecycleResponse, schema_version_v1}
use solid_ts_facts.Transition.Tables.{FactTable}

pub record Retained : Type 0 where
  pub token : ℕ
  pub token_text : GoString
  pub demands : List DemandGroup
  pub table : Option FactTable

-- `close_err` says whether closing failed. The closure and the encoder are in the world.
pub record Session : Type 0 where
  pub project_id : GoString
  pub retained : Retained
  pub source_arena_path : GoString
  pub closed : Bool
  pub close_err : Bool
  pub schema : ℕ

pub record Work (World Inventory : Type 0) : Type 0 where
  pub world : World
  pub response : LifecycleResponse Inventory
  pub arena_path : GoString

-- A session after a request, with its answer.
pub record Outcome (World Inventory : Type 0) : Type 0 where
  pub session : Session
  pub world : World
  pub response : LifecycleResponse Inventory

-- The session of a backend whose closure was made.
abbrev opened_session : GoString → Session
opened_session path = record {
  project_id = path;
  retained = record { token = 0; token_text = []; demands = []; table = none };
  source_arena_path = [];
  closed = false;
  close_err = false;
  schema = schema_version_v1;
}

-- newSession. `is_closure_backend` is whether the backend has the capabilities that newDemandClosure
-- asks for; `close_backend` is the backend's Close, which ends an attempt without a session.
unfoldable pub new_session :
    {World : Type 0} → Bool → (World → World) → GoString → World → World × Option Session
new_session is_closure_backend close_backend project_id world =
    let path = clean project_id in
    if str_eq path [] || str_eq path (b'.' ∷ [])
    then (close_backend world, none)
    else if not is_closure_backend
    then (close_backend world, none)
    else (world, some (opened_session path))
