-- ===== src/Session/Lifecycle/Reachable.antt =====
-- What holds of every session that requests can lead to.
use solid_ts_facts.Prelude.{
  ◌≡◌, refl, sym, ap, ◌∙◌, subst, ◌≢◌, ◌⊎◌, inl, inr, Bool, false, none, some, [], arith,
  Bool-cases, IsWord, add64,
}
use solid_ts_facts.Keys.{GoString}
use solid_ts_facts.Keys.Rows.{IsSorted}
use solid_ts_facts.Session.Analyze.{next_token, begin_demands, detached}
use solid_ts_facts.Session.Analyze.Begun.{begin_demands-begin_runs}
use solid_ts_facts.Session.Decimal.{format_uint, format_uint_inj, format_uint-nonempty}
use solid_ts_facts.Session.DemandStore.{group_path, Transaction, finish, commit}
use solid_ts_facts.Session.DemandStore.Contents.{begin_runs-overlay}
use solid_ts_facts.Session.Lifecycle.{published, close_session, lifecycle}
use solid_ts_facts.Session.Lifecycle.Retention.{lifecycle-retained, lifecycle-token}
use solid_ts_facts.Session.Requests.{analyze, LifecycleRequest}
use solid_ts_facts.Session.Services.{Services, Context}
use solid_ts_facts.Session.State.{Retained, Session, Outcome, new_session}
use solid_ts_facts.Transition.Tables.{FactTable}

-- What authenticates the next analyze: nothing before the first table, then the token in decimal,
-- beside a table without the rows that the client owns.
abbrev pub IsNamed : Retained → Type 0
IsNamed retained =
    ((retained.table ≡ none) × (retained.token_text ≡ []))
    ⊎ ((table : FactTable) × (retained.table ≡ some table)
        × (detached table ≡ table)
        × (retained.token_text ≡ format_uint retained.token))

pub record IsWellFormed (retained : Retained) : Type 0 where
  pub in_order : IsSorted group_path retained.demands
  pub is_word : IsWord retained.token
  pub is_named : IsNamed retained

pub commit-groups : (t : Transaction) → (commit t).groups ≡ t.groups
unfolding commit finish
commit-groups t = ground arith

new_session-IsWellFormed :
    {World : Type 0} (is_closure_backend : Bool) (close_backend : World → World) (path : GoString)
    (world after : World) (session : Session)
    → new_session is_closure_backend close_backend path world ≡ (after, some session)
    → IsWellFormed session.retained
unfolding new_session
new_session-IsWellFormed is_closure_backend close_backend path world after session h =
    subst (λ r. IsWellFormed r) same
      (record { in_order = tt; is_word = omega arith; is_named = inl (refl, refl) })
  where
    same : record { token = 0; token_text = []; demands = []; table = none } ≡ session.retained
    same = ground (arith, ap (λ p. p.1) h)

published-IsWellFormed :
    {Graph : Type 0} (session : Session) (request : LifecycleRequest Graph) (t : Transaction)
    (table : FactTable)
    → begin_demands session request ≡ some t
    → IsWellFormed session.retained
    → IsWellFormed (published session t table).retained
unfolding published add64 detached
published-IsWellFormed session request t table e w =
    let (runs, same) = begin_demands-begin_runs session request t e in
    record {
      in_order = rw (commit-groups t) (
          subst (λ u. IsSorted group_path u.groups) same
            (begin_runs-overlay session.retained.demands runs request.removed_demand_paths
              request.reset_state w.in_order).0);
      is_word = omega arith;
      is_named = inr (detached table, refl, refl, refl);
    }

module _ {World Graph Inventory : Type 0} (services : Services World Graph Inventory) where
  -- A session with the state of its services, after requests, and calls of Close by its owner.
  pub data Reaches : Session → World → Type 0 where
    opened :
        (is_closure_backend : Bool) (close_backend : World → World) (path : GoString)
        (world after : World) (session : Session)
        → new_session is_closure_backend close_backend path world ≡ (after, some session)
        → Reaches session after
    answered :
        (session : Session) (world : World) (context : Context) (request : LifecycleRequest Graph)
        (into_arena : Bool)
        → Reaches session world
        → Reaches
            (lifecycle services context session world request into_arena).session
            (lifecycle services context session world request into_arena).world
    owner_closed :
        (session : Session) (world : World)
        → Reaches session world
        → Reaches (close_session services session world).0 (close_session services session world).1

  lifecycle-IsWellFormed :
      (context : Context) (session : Session) (world : World) (request : LifecycleRequest Graph)
      (into_arena : Bool)
      → IsWellFormed session.retained
      → IsWellFormed (lifecycle services context session world request into_arena).session.retained
  lifecycle-IsWellFormed context session world request into_arena w =
      elim (lifecycle-retained services context session world request into_arena) [
        | inl same ↦ subst IsWellFormed (sym same) w
        | inr p ↦
            subst (λ s. IsWellFormed s.retained) (sym p.session_after)
              (published-IsWellFormed session request p.transaction p.table p.began w)
      ]

  close_session-retained :
      (session : Session) (world : World)
      → (close_session services session world).0.retained ≡ session.retained
  unfolding close_session
  close_session-retained session world = ground arith

  -- In every session that requests and closing lead to, whatever the services answered, the demands
  -- stand in path order with one group for each path, the token is a 64-bit word, and its text is
  -- empty before the first published table and the token in decimal from then on, beside a table
  -- that holds no entity, file or source rows.
  pub Reaches-IsWellFormed :
      (session : Session) (world : World) → Reaches session world → IsWellFormed session.retained
  Reaches-IsWellFormed _ _ (opened capable close_backend path world after session e) =
      new_session-IsWellFormed capable close_backend path world after session e
  Reaches-IsWellFormed _ _ (answered session world context request into_arena r) =
      lifecycle-IsWellFormed context session world request into_arena
        (Reaches-IsWellFormed session world r)
  Reaches-IsWellFormed _ _ (owner_closed session world r) =
      subst IsWellFormed (sym (close_session-retained session world))
        (Reaches-IsWellFormed session world r)

  stale_text :
      (session : Session) (t : Transaction) (table : FactTable)
      → IsWellFormed session.retained
      → (published session t table).retained.token_text ≢ session.retained.token_text
  unfolding published add64
  stale_text session t table w same = elim w.is_named [
    | inl none_yet ↦ format_uint-nonempty (next_token session) (same ∙ none_yet.1)
    | inr (kept, is_table, rowless, named) ↦
        next-differs (format_uint_inj (next_token session) session.retained.token (same ∙ named))
  ]
    where
      next-differs : next_token session ≢ session.retained.token
      next-differs h = omega (arith, w.is_word, h)

  -- Once an analysis is published, the token before it is stale: no analyze that names it without a
  -- reset can succeed on the session that follows.
  pub lifecycle-stale :
      (session : Session) (world : World) (context next_context : Context)
      (request next_request : LifecycleRequest Graph) (into_arena next_into_arena : Bool)
      → let after = lifecycle services context session world request into_arena in
        Reaches session world
        → after.session.retained ≢ session.retained
        → next_request.operation ≡ analyze
        → next_request.reset_state ≡ false
        → next_request.state_token ≡ session.retained.token_text
        → (lifecycle services next_context after.session after.world next_request
            next_into_arena).response.is_ok
          ≡ false
  lifecycle-stale session world context next_context request next_request into_arena next_into_arena
        reached differs o r named =
      elim (lifecycle-retained services context session world request into_arena) [
        | inl same ↦ absurd (differs same)
        | inr p ↦ elim (Bool-cases second.response.is_ok) [
          | inr failed ↦ failed
          | inl passed ↦ absurd (
              stale_text session p.transaction p.table (Reaches-IsWellFormed session world reached)
                (ap (λ s. s.retained.token_text) (sym p.session_after)
                  ∙ sym (
                      lifecycle-token services next_context after.session after.world next_request
                        next_into_arena passed o r)
                  ∙ named))
        ]
      ]
    where
      after : Outcome World Inventory
      after = lifecycle services context session world request into_arena

      second : Outcome World Inventory
      second =
          lifecycle services next_context after.session after.world next_request next_into_arena
