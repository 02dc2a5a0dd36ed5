-- ===== src/Session/DemandStore/Begun.antt =====
-- Both kinds of demands begin a transaction from runs, whatever the runs are.
use solid_ts_facts.Prelude.{
  ◌≡◌, refl, Bool, Option, none, some, List, Result, err, ok, ok->>=, ok_inj,
}
use solid_ts_facts.Keys.{GoString}
use solid_ts_facts.Model.{EntityDemand, CompactDemands}
use solid_ts_facts.Session.DemandStore.{
  DemandGroup, Transaction, begin_runs, BeginError, path_named_twice, compact_runs, sort_runs,
  repeated_path, begin_compact,
}
use solid_ts_facts.Session.DemandStore.Runs.{begin}

begun_runs :
    (groups sorted : List DemandGroup) (removed_paths : List GoString) (reset : Bool)
    (repeated : Option GoString) (t : Transaction)
    → elim repeated as (λ o. Result BeginError Transaction) [
      | some path ↦ err (path_named_twice path)
      | none ↦ ok (begin_runs groups sorted removed_paths reset)
    ]
      ≡ ok t
    → begin_runs groups sorted removed_paths reset ≡ t
begun_runs groups sorted removed_paths reset none t h = ok_inj h
begun_runs groups sorted removed_paths reset (some path) t h = absurd cc

pub begin_compact-begin_runs :
    (groups : List DemandGroup) (compact : CompactDemands) (removed_paths : List GoString)
    (reset : Bool) (t : Transaction)
    → begin_compact groups compact removed_paths reset ≡ ok t
    → (runs : List DemandGroup) × (begin_runs groups runs removed_paths reset ≡ t)
unfolding begin_compact
begin_compact-begin_runs groups compact removed_paths reset t h =
    let (runs, e, f) = ok->>= (compact_runs compact.strings compact.groups) _ h in
    (
      sort_runs runs,
      begun_runs groups (sort_runs runs) removed_paths reset (repeated_path (sort_runs runs)) t f,
    )

pub begin-begin_runs :
    (groups : List DemandGroup) (changes : List EntityDemand) (removed_paths : List GoString)
    (reset : Bool)
    → (runs : List DemandGroup) × (begin_runs groups runs removed_paths reset
        ≡ begin groups changes removed_paths reset)
unfolding begin
begin-begin_runs groups changes removed_paths reset = (_, refl)
