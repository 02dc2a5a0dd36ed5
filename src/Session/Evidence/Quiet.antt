-- ===== src/Session/Evidence/Quiet.antt =====
-- The steps of a request fill in its answer and never decide whether it succeeded.
use solid_ts_facts.Prelude.{
  ◌≡◌, refl, ◌∙◌, Bool, Option, List, arith, if◌then◌else◌, if-both, Result, err, ok,
}
use solid_ts_facts.Session.Actions.{Action, continue, ◌>>=◌}
use solid_ts_facts.Session.Evidence.{
  ask, answer, pack_evidence, hand_over_evidence, reference_evidence_of, reference_changes_of,
  release, populate_symbol_evidence,
}
use solid_ts_facts.Session.Requests.{LifecycleRequest, ErrorCode}
use solid_ts_facts.Session.Services.{Services}
use solid_ts_facts.Session.State.{Session, Work}
use solid_ts_facts.Transition.Facts.{SymbolFact}

abbrev pub flags : {World Inventory : Type 0} → Work World Inventory → Bool × Option ErrorCode
flags work = (work.response.is_ok, work.response.error)

abbrev pub IsQuiet : {World Inventory E A : Type 0} → Action (Work World Inventory) E A → Type 0
IsQuiet {World = World} {Inventory = Inventory} action =
    (work : Work World Inventory) → flags (action work).0 ≡ flags work

module _ {World Inventory E A B : Type 0} where
  continue-flags :
      (next : A → Action (Work World Inventory) E B) (r : Work World Inventory × Result E A)
      → ((a : A) → IsQuiet (next a))
      → flags (continue r next).0 ≡ flags r.0
  continue-flags next (work, ok a) q = q a work
  continue-flags next (work, err e) q = refl

  pub IsQuiet->>= :
      (action : Action (Work World Inventory) E A) (next : A → Action (Work World Inventory) E B)
      → IsQuiet action
      → ((a : A) → IsQuiet (next a))
      → IsQuiet (action >>= next)
  IsQuiet->>= action next p q work = continue-flags next (action work) q ∙ p work

module _ {World Graph Inventory : Type 0} (services : Services World Graph Inventory)
    (session : Session) (request : LifecycleRequest Graph) where
  hand_over-IsQuiet :
      (into_arena : Bool) (evidence : List SymbolFact) (work : Work World Inventory)
      → flags (hand_over_evidence services session request into_arena evidence work).0 ≡ flags work
  unfolding hand_over_evidence answer pack_evidence
  hand_over-IsQuiet into_arena evidence work = ground arith

  reference_changes-IsQuiet :
      (work : Work World Inventory)
      → flags (reference_changes_of services request work).0 ≡ flags work
  unfolding reference_changes_of answer ask reference_evidence_of
  reference_changes-IsQuiet work = ground arith

  release-IsQuiet :
      (work : Work World Inventory) → flags (release services request work).0 ≡ flags work
  unfolding release
  release-IsQuiet work = ground arith

  pub populate_symbol_evidence-IsQuiet :
      (into_arena : Bool) → IsQuiet (populate_symbol_evidence services session request into_arena)
  unfolding populate_symbol_evidence ask
  populate_symbol_evidence-IsQuiet into_arena =
      IsQuiet->>= (ask (services.resolve_symbol_evidence request.symbol_queries)) _ (λ work. refl)
        (λ evidence.
          IsQuiet->>= (hand_over_evidence services session request into_arena evidence) _
            (hand_over-IsQuiet into_arena evidence)
            (λ u.
              IsQuiet->>=
                (if request.reference_changes
                  then reference_changes_of services request
                  else λ work. (work, ok tt))
                _
                (if-both IsQuiet request.reference_changes (λ p. reference_changes-IsQuiet)
                  (λ p. λ work. refl))
                (λ v. release-IsQuiet)))
