-- ===== src/Session/Lifecycle/Failures.antt =====
-- What a request that fails leaves of the session: everything that the session retains.
use solid_ts_facts.Prelude.{◌≡◌, refl, ap, subst, Bool, false, some, arith, Result, err, ok}
use solid_ts_facts.Session.Analyze.{begin_demands}
use solid_ts_facts.Session.Analyze.Begun.{begin_demands-begin_runs}
use solid_ts_facts.Session.DemandStore.{Transaction, rollback}
use solid_ts_facts.Session.DemandStore.Undo.{rollback-begin_runs}
use solid_ts_facts.Session.Lifecycle.{
  rolled_back, settle, settle_analysis, close_session, answer_close, lifecycle,
}
use solid_ts_facts.Session.Lifecycle.Ends.{
  Ending, turned, closed_again, settled, idle, analysed, closing, lifecycle-Ending,
}
use solid_ts_facts.Session.Requests.{LifecycleRequest, ErrorCode, LifecycleResponse}
use solid_ts_facts.Session.Services.{Services, Context}
use solid_ts_facts.Session.State.{Session, Work, Outcome}
use solid_ts_facts.Transition.Tables.{FactTable}

-- A refused request retains what was retained before it.
abbrev KeepsRetained : {World Inventory : Type 0} → Session → Outcome World Inventory → Type 0
KeepsRetained session after =
    after.response.is_ok ≡ false → after.session.retained ≡ session.retained

pub rolled_back-retained :
    {Graph : Type 0} (session : Session) (request : LifecycleRequest Graph) (t : Transaction)
    → begin_demands session request ≡ some t
    → (rolled_back session t).retained ≡ session.retained
unfolding rolled_back
rolled_back-retained session request t h =
    let (runs, e) = begin_demands-begin_runs session request t h in
    ap (λ demands. record session.retained { demands = demands })
      (subst (λ u. (rollback u).groups ≡ session.retained.demands) e
        (rollback-begin_runs session.retained.demands runs request.removed_demand_paths
          request.reset_state))

module _ {World Graph Inventory : Type 0} (services : Services World Graph Inventory) where
  pub settle-retained :
      (session : Session) (r : Work World Inventory × Result ErrorCode (Unit {0}))
      → (settle services session r).session.retained ≡ session.retained
  unfolding settle
  settle-retained session (work, ok u) = refl
  settle-retained session (work, err code) = refl

  settle_analysis-KeepsRetained :
      (session : Session) (request : LifecycleRequest Graph) (t : Transaction)
      (r : Work World Inventory × Result ErrorCode FactTable)
      → begin_demands session request ≡ some t
      → KeepsRetained session (settle_analysis services session t r)
  unfolding settle_analysis
  settle_analysis-KeepsRetained session request t (work, ok table) e h = absurd cc
  settle_analysis-KeepsRetained session request t (work, err code) e h =
      rolled_back-retained session request t e

  pub answer_close-retained :
      (session : Session) (world : World) (response : LifecycleResponse Inventory)
      → (answer_close services session world response).session.retained ≡ session.retained
  unfolding close_session answer_close
  answer_close-retained session world response = ground arith

  Ending-KeepsRetained :
      (context : Context) (session : Session) (world : World) (request : LifecycleRequest Graph)
      (into_arena : Bool) (after : Outcome World Inventory)
      → Ending services context session world request into_arena after
      → KeepsRetained session after
  Ending-KeepsRetained context session world request into_arena _ (turned code) h = refl
  Ending-KeepsRetained context session world request into_arena _ (closed_again c k o) h = refl
  Ending-KeepsRetained context session world request into_arena _ (settled r live q n) h =
      settle-retained session r
  Ending-KeepsRetained context session world request into_arena _ (idle admitted) h = refl
  Ending-KeepsRetained context session world request into_arena _ (analysed t admitted e) h =
      settle_analysis-KeepsRetained session request t _ e h
  Ending-KeepsRetained context session world request into_arena _ (closing live o) h =
      answer_close-retained session world _

  -- However a request fails, whether refused at once, in the middle of an analysis whose demands
  -- were already replaced, or by a cancellation, the session retains the demands, the table and the
  -- token that it retained before.
  pub lifecycle-failed :
      (context : Context) (session : Session) (world : World) (request : LifecycleRequest Graph)
      (into_arena : Bool)
      → (lifecycle services context session world request into_arena).response.is_ok ≡ false
      → (lifecycle services context session world request into_arena).session.retained
        ≡ session.retained
  lifecycle-failed context session world request into_arena =
      Ending-KeepsRetained context session world request into_arena _
        (lifecycle-Ending services context session world request into_arena)
