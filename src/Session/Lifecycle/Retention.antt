-- ===== src/Session/Lifecycle/Retention.antt =====
-- How a request changes what the session retains: not at all, or by publishing one analysis.
use solid_ts_facts.Prelude.{
  ◌≡◌, refl, sym, ap, ◌∙◌, ◌≢◌, ◌⊎◌, inl, inr, Bool, true, false, some, arith, Result, err, ok,
}
use solid_ts_facts.Keys.Order.{eq_of_str_eq}
use solid_ts_facts.Session.Analyze.{begin_demands}
use solid_ts_facts.Session.DemandStore.{Transaction}
use solid_ts_facts.Session.Lifecycle.{
  published, is_close, settle_analysis, blank_response, lifecycle,
}
use solid_ts_facts.Session.Lifecycle.Ends.{
  is_analysis, attempted, IsAdmitted, Ending, turned, closed_again, settled, idle, analysed,
  closing, lifecycle-Ending,
}
use solid_ts_facts.Session.Lifecycle.Failures.{
  rolled_back-retained, settle-retained, answer_close-retained,
}
use solid_ts_facts.Session.Requests.{analyze, LifecycleRequest, ErrorCode}
use solid_ts_facts.Session.Services.{Services, Context}
use solid_ts_facts.Session.State.{Session, Work, Outcome}
use solid_ts_facts.Transition.Tables.{FactTable}

true≢false : true ≢ false
true≢false h = cc

module _ {World Graph Inventory : Type 0} (services : Services World Graph Inventory)
    (context : Context) (session : Session) (world : World) (request : LifecycleRequest Graph)
    (into_arena : Bool) where
  -- One analysis was published, and the answer hands out its token.
  pub record Publishes (after : Outcome World Inventory) : Type 0 where
    pub transaction : Transaction
    pub table : FactTable
    pub began : begin_demands session request ≡ some transaction
    pub session_after : after.session ≡ published session transaction table
    pub succeeded : after.response.is_ok ≡ true

  settle_analysis-retained :
      (t : Transaction) (r : Work World Inventory × Result ErrorCode FactTable)
      → begin_demands session request ≡ some t
      → ((settle_analysis services session t r).session.retained ≡ session.retained)
        ⊎ Publishes (settle_analysis services session t r)
  unfolding settle_analysis
  settle_analysis-retained t (work, ok table) e =
      inr (record {
        transaction = t;
        table = table;
        began = e;
        session_after = refl;
        succeeded = refl;
      })
  settle_analysis-retained t (work, err code) e = inl (rolled_back-retained session request t e)

  Ending-retained :
      (after : Outcome World Inventory)
      → Ending services context session world request into_arena after
      → (after.session.retained ≡ session.retained) ⊎ Publishes after
  Ending-retained _ (turned code) = inl refl
  Ending-retained _ (closed_again c k o) = inl refl
  Ending-retained _ (settled r live q n) = inl (settle-retained services session r)
  Ending-retained _ (idle admitted) = inl refl
  Ending-retained _ (analysed t admitted e) =
      settle_analysis-retained t (attempted services context session world request into_arena t) e
  Ending-retained _ (closing live o) = inl (answer_close-retained services session world _)

  pub lifecycle-retained :
      let after = lifecycle services context session world request into_arena in
      (after.session.retained ≡ session.retained) ⊎ Publishes after
  lifecycle-retained =
      Ending-retained _ (lifecycle-Ending services context session world request into_arena)

  admitted-token :
      IsAdmitted services context session world request into_arena
      → request.reset_state ≡ false
      → request.state_token ≡ session.retained.token_text
  admitted-token admitted r =
      eq_of_str_eq request.state_token session.retained.token_text
        (ground (arith, admitted.has_token))

  Ending-token :
      (after : Outcome World Inventory)
      → Ending services context session world request into_arena after
      → after.response.is_ok ≡ true
      → request.operation ≡ analyze
      → request.reset_state ≡ false
      → request.state_token ≡ session.retained.token_text
  unfolding is_close blank_response
  Ending-token _ (turned code) h o r = absurd cc
  Ending-token _ (closed_again c k p) h o r = absurd (true≢false (sym p ∙ ap is_close o))
  Ending-token _ (settled u live q n) h o r = absurd (true≢false (sym (ap is_analysis o) ∙ n))
  Ending-token _ (idle admitted) h o r = admitted-token admitted r
  Ending-token _ (analysed t admitted e) h o r = admitted-token admitted r
  Ending-token _ (closing live p) h o r = absurd (true≢false (sym (ap is_close p) ∙ ap is_close o))

  -- An analyze that succeeds without a reset named the session's own token.
  pub lifecycle-token :
      (lifecycle services context session world request into_arena).response.is_ok ≡ true
      → request.operation ≡ analyze
      → request.reset_state ≡ false
      → request.state_token ≡ session.retained.token_text
  lifecycle-token =
      Ending-token _ (lifecycle-Ending services context session world request into_arena)
