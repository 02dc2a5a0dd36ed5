-- ===== src/Session/Analyze/Begun.antt =====
-- The transaction that an analyze works on began from the session's demands.
use solid_ts_facts.Prelude.{◌≡◌, ap, ◌∙◌, Bool, Option, none, some, List, some_inj, Result, err, ok}
use solid_ts_facts.Keys.{GoString}
use solid_ts_facts.Model.{EntityDemand, CompactDemands}
use solid_ts_facts.Session.Analyze.{as_begun, begin_with, begin_demands}
use solid_ts_facts.Session.DemandStore.{DemandGroup, Transaction, begin_runs, begin_compact}
use solid_ts_facts.Session.DemandStore.Begun.{begin_compact-begin_runs, begin-begin_runs}
use solid_ts_facts.Session.Requests.{LifecycleRequest}
use solid_ts_facts.Session.State.{Session}

as_begun-ok :
    {E : Type 0} (r : Result E Transaction) (t : Transaction) → as_begun r ≡ some t → r ≡ ok t
unfolding as_begun
as_begun-ok (ok t) u h = ap ok (some_inj h)
as_begun-ok (err e) u h = absurd cc

begin_with-begin_runs :
    (groups : List DemandGroup) (demands : List EntityDemand) (removed_paths : List GoString)
    (reset : Bool) (compact : Option CompactDemands) (t : Transaction)
    → begin_with groups demands removed_paths reset compact ≡ some t
    → (runs : List DemandGroup) × (begin_runs groups runs removed_paths reset ≡ t)
unfolding begin_with
begin_with-begin_runs groups demands removed_paths reset none t h =
    let begun = begin-begin_runs groups demands removed_paths reset in
    (begun.0, begun.1 ∙ some_inj h)
begin_with-begin_runs groups demands removed_paths reset (some compact) t h =
    begin_compact-begin_runs groups compact removed_paths reset t
      (as_begun-ok (begin_compact groups compact removed_paths reset) t h)

pub begin_demands-begin_runs :
    {Graph : Type 0} (session : Session) (request : LifecycleRequest Graph) (t : Transaction)
    → begin_demands session request ≡ some t
    → (runs : List DemandGroup) × (begin_runs session.retained.demands runs
          request.removed_demand_paths request.reset_state
        ≡ t)
unfolding begin_demands
begin_demands-begin_runs session request t h =
    begin_with-begin_runs session.retained.demands request.demands request.removed_demand_paths
      request.reset_state request.compact_demands t h
