-- ===== src/Session/Lifecycle/Verdict.antt =====
-- Every answer is a success or carries one error, and a closed session answers nothing but close.
use solid_ts_facts.Prelude.{
  ℕ, ◌≡◌, refl, ◌⊎◌, inl, inr, Bool, true, false, none, some, arith, if◌then◌else◌, if-both, Result,
  err, ok,
}
use solid_ts_facts.Session.Analyze.{
  next_token, transition_input, table_transition_of, is_sparse_unavailable, wants_evidence,
  stop_if_cancelled, unless_cancelled, encode_call, force_full, coded_call, rebuild, recover,
  encode_or_rebuild, send, attempt,
}
use solid_ts_facts.Session.Decimal.{format_uint}
use solid_ts_facts.Session.DemandStore.{Transaction}
use solid_ts_facts.Session.Evidence.{ask, answer, populate_symbol_evidence}
use solid_ts_facts.Session.Evidence.Quiet.{
  flags, IsQuiet, IsQuiet->>=, populate_symbol_evidence-IsQuiet,
}
use solid_ts_facts.Session.Lifecycle.{
  is_close, settle, settle_analysis, close_session, answer_close, blank_response, lifecycle,
}
use solid_ts_facts.Session.Lifecycle.Ends.{
  IsOpen, attempted, Ending, turned, closed_again, settled, idle, analysed, closing,
  lifecycle-Ending,
}
use solid_ts_facts.Session.Requests.{LifecycleRequest, ErrorCode, close_failed, LifecycleResponse}
use solid_ts_facts.Session.Services.{
  Services, ContextCheck, table_failed, table_returned, transition_encoded, evidence_failed,
  evidence_ready, Context,
}
use solid_ts_facts.Session.State.{Session, Work, Outcome}
use solid_ts_facts.Transition.Tables.{FactTable, EncodedTransition, EncodeError}

module _ {World Graph Inventory : Type 0} (services : Services World Graph Inventory)
    (context : Context) (session : Session) (request : LifecycleRequest Graph) where
  stop_if_cancelled-IsQuiet :
      (check : ContextCheck) → IsQuiet (stop_if_cancelled services context check)
  unfolding stop_if_cancelled
  stop_if_cancelled-IsQuiet check work = refl

  rebuild-IsQuiet :
      (generation : ℕ) (t : Transaction) (into_arena : Bool)
      → IsQuiet (rebuild services context session generation t into_arena)
  unfolding rebuild force_full encode_call coded_call ask
  rebuild-IsQuiet generation t into_arena work = ground arith

  recover-flags :
      (generation : ℕ) (t : Transaction) (into_arena : Bool) (table : FactTable)
      (r : Work World Inventory × Result EncodeError EncodedTransition)
      → flags (recover services context session generation t into_arena table r).0 ≡ flags r.0
  unfolding recover
  recover-flags generation t into_arena table (work, ok encoded) = refl
  recover-flags generation t into_arena table (work, err e) =
      if-both
        (λ (r : Work World Inventory × Result ErrorCode (FactTable × EncodedTransition)).
          flags r.0 ≡ flags work)
        (is_sparse_unavailable e) (λ p. rebuild-IsQuiet generation t into_arena work) (λ p. refl)

  evidence-IsQuiet : IsQuiet (
      unless_cancelled services context evidence_failed
        (populate_symbol_evidence services session request false))
  unfolding unless_cancelled
  evidence-IsQuiet work = populate_symbol_evidence-IsQuiet services session request false work

  abbrev sent_work : FactTable × EncodedTransition → Work World Inventory → Work World Inventory
  sent_work built work = record work {
    response = record work.response {
      table_transition = table_transition_of session.retained.table built.0 built.1;
    };
  }

  send-IsQuiet :
      (built : FactTable × EncodedTransition)
      → IsQuiet (send services context session request built)
  unfolding send answer
  send-IsQuiet built work =
      IsQuiet->>= (stop_if_cancelled services context transition_encoded) _
        (stop_if_cancelled-IsQuiet transition_encoded)
        (λ v.
          IsQuiet->>=
            (if wants_evidence request
              then unless_cancelled services context evidence_failed
                  (populate_symbol_evidence services session request false)
              else λ work. (work, ok tt))
            _ (if-both IsQuiet (wants_evidence request) (λ p. evidence-IsQuiet) (λ p. λ work. refl))
            (λ w.
              IsQuiet->>= (stop_if_cancelled services context evidence_ready)
                (λ x. λ work. (work, ok built.0)) (stop_if_cancelled-IsQuiet evidence_ready)
                (λ x. λ work. refl)))
        (sent_work built work)

  abbrev tokened_work : Work World Inventory → Work World Inventory
  tokened_work work = record work {
    response = record work.response { state_token = format_uint (next_token session) };
  }

  pub attempt-IsQuiet :
      (generation : ℕ) (t : Transaction) (into_arena : Bool)
      → IsQuiet (attempt services context session request generation t into_arena)
  unfolding attempt unless_cancelled ask answer encode_or_rebuild encode_call
  attempt-IsQuiet generation t into_arena =
      IsQuiet->>=
        (unless_cancelled services context table_failed
          (ask (services.demand_table generation t.groups t.changed_paths)))
        _ (λ work. refl)
        (λ table.
          IsQuiet->>= (stop_if_cancelled services context table_returned) _
            (stop_if_cancelled-IsQuiet table_returned)
            (λ u. λ work.
              IsQuiet->>=
                (encode_or_rebuild services context session request generation t into_arena table)
                (λ built. send services context session request built)
                (λ work. recover-flags generation t into_arena table (
                  encode_call services context into_arena (transition_input session request table)
                    work))
                send-IsQuiet (tokened_work work)))

  -- Exactly one of success and an error.
  abbrev pub HasOneVerdict : LifecycleResponse Inventory → Type 0
  HasOneVerdict reply =
      (reply.is_ok ≡ true × reply.error ≡ none)
      ⊎ (reply.is_ok ≡ false × ((code : ErrorCode) × (reply.error ≡ some code)))

  settle-verdict :
      (r : Work World Inventory × Result ErrorCode (Unit {0}))
      → IsOpen r.0
      → HasOneVerdict (settle services session r).response
  unfolding settle
  settle-verdict (work, ok u) q = inl (refl, cc)
  settle-verdict (work, err code) q = inr (cc, (code, refl))

  settle_analysis-verdict :
      (t : Transaction) (r : Work World Inventory × Result ErrorCode FactTable)
      → IsOpen r.0
      → HasOneVerdict (settle_analysis services session t r).response
  unfolding settle_analysis
  settle_analysis-verdict t (work, ok table) q = inl (refl, cc)
  settle_analysis-verdict t (work, err code) q = inr (cc, (code, refl))

  answer_close-verdict :
      (world : World)
      → HasOneVerdict
          (answer_close services session world
            (blank_response services session world request)).response
  unfolding answer_close blank_response
  answer_close-verdict world =
      if-both HasOneVerdict (close_session services session world).0.close_err
        (λ p. inr (refl, (close_failed, refl))) (λ p. inl (refl, refl))

  Ending-verdict :
      (world : World) (into_arena : Bool) (after : Outcome World Inventory)
      → Ending services context session world request into_arena after
      → HasOneVerdict after.response
  unfolding blank_response
  Ending-verdict world into_arena _ (turned code) = inr (refl, (code, refl))
  Ending-verdict world into_arena _ (closed_again c k o) = inl (refl, refl)
  Ending-verdict world into_arena _ (settled r live q n) = settle-verdict r q
  Ending-verdict world into_arena _ (idle admitted) = inl (refl, refl)
  Ending-verdict world into_arena _ (analysed t admitted e) =
      settle_analysis-verdict t (attempted services context session world request into_arena t)
        (attempt-IsQuiet (services.generation world) t into_arena _)
  Ending-verdict world into_arena _ (closing live o) = answer_close-verdict world

  -- Whatever the services and the context do, every reply is with success and no error,
  -- or with no success and exactly one error code.
  pub lifecycle-verdict :
      (world : World) (into_arena : Bool)
      → HasOneVerdict (lifecycle services context session world request into_arena).response
  lifecycle-verdict world into_arena =
      Ending-verdict world into_arena _
        (lifecycle-Ending services context session world request into_arena)

  Ending-closed :
      (world : World) (into_arena : Bool) (after : Outcome World Inventory)
      → session.closed ≡ true
      → Ending services context session world request into_arena after
      → (after.session ≡ session)
        × (after.world ≡ world)
        × (after.response.is_ok ≡ true → is_close request.operation ≡ true)
  unfolding blank_response
  Ending-closed world into_arena _ c (turned code) = (refl, refl, λ h. absurd cc)
  Ending-closed world into_arena _ c (closed_again d k o) = (refl, refl, λ h. o)
  Ending-closed world into_arena _ c (settled r live q n) = absurd cc
  Ending-closed world into_arena _ c (idle admitted) = absurd (ground (arith, admitted.is_live))
  Ending-closed world into_arena _ c (analysed t admitted e) =
      absurd (ground (arith, admitted.is_live))
  Ending-closed world into_arena _ c (closing live o) = absurd cc

  -- A closed session is never changed again, its services are never called again, and only a close
  -- can still succeed on it.
  pub lifecycle-closed :
      (world : World) (into_arena : Bool)
      → session.closed ≡ true
      → ((lifecycle services context session world request into_arena).session ≡ session)
        × ((lifecycle services context session world request into_arena).world ≡ world)
        × ((lifecycle services context session world request into_arena).response.is_ok ≡ true
            → is_close request.operation ≡ true)
  lifecycle-closed world into_arena c =
      Ending-closed world into_arena _ c
        (lifecycle-Ending services context session world request into_arena)
