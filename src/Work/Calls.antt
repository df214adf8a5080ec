-- ===== src/Work/Calls.antt =====
-- Clients of the queues of src/incident_platform/incident_work.py: any sequence of calls of one
-- queue's methods, each of which may raise. Between two calls other clients may use the repository,
-- so each call names the repository that it meets.
use agent_rca.Prelude.{ℕ, ◌≤◌, String, ◌≡◌, true, none, some, List, [], ◌∷◌, All}
use agent_rca.Time.{DateTime}
use agent_rca.Dict.{lookup}
use agent_rca.Dict.Unique.{IsDict}
use agent_rca.Incident.{CollectorStatus}
use agent_rca.Documents.{Evidence, Selection, Span}
use agent_rca.Runtime.{Runtime}
use agent_rca.Repository.{Repository}
use agent_rca.Work.{WorkItem, Claim, Queue}
use agent_rca.Work.Step.{ItemSteps, done, ItemSteps-eq, ItemSteps-trans, is_done}
use agent_rca.Work.Step.Invariant.{AreItems, ItemSteps-AreItems, nil-AreItems, ItemSteps-keeps}
use agent_rca.Work.Collection
use agent_rca.Work.Localization
use agent_rca.Work.Analysis

pub data Stage : Type 0 where
  collection localization analysis : Stage

pub data Op : Type 0 where
  -- the Context Package's id is read by the analysis queue alone
  enqueue : String → String → DateTime → Op
  -- a drawn token, the worker, the time, the lease and `max_attempts`
  claim_next : String → String → DateTime → ℕ → ℕ → Op
  claim_incident : String → String → DateTime → ℕ → ℕ → String → Op
  claim_next_eligible : String → String → DateTime → ℕ → ℕ → String → DateTime → Op
  renew : Claim → DateTime → ℕ → Op
  complete : Claim → DateTime → String → Op
  fail : Claim → DateTime → String → Op
  store_collection : Claim → DateTime → Selection → Span → List CollectorStatus → List Evidence → Op
  reap_exhausted : DateTime → ℕ → Op
  reap_exhausted_eligible : DateTime → ℕ → String → DateTime → Op

-- A call, with the repository that it meets.
abbrev pub Call : Type 0
Call = Repository × Op

-- Every claim's `max_attempts` is at most `m`.
abbrev IsBounded : ℕ → Op → Type 0
IsBounded m (claim_next hex w now d n) = n ≤ m
IsBounded m (claim_incident hex w now d n id) = n ≤ m
IsBounded m (claim_next_eligible hex w now d n label activated_at) = n ≤ m
IsBounded m _ = Unit

abbrev pub AreBounded : ℕ → List Call → Type 0
AreBounded m = All (λ c. IsBounded m c.1)

module _ (rt : Runtime) where
  -- A queue that lacks a method is left as it is.
  unfoldable pub perform : Stage → Op → Queue → Queue
  perform collection (enqueue id context_id t) q = (Collection.enqueue id t q).1
  perform localization (enqueue id context_id t) q = (Localization.enqueue id t q).1
  perform analysis (enqueue id context_id t) q = (Analysis.enqueue id context_id t q).1
  perform collection (claim_next hex w now d n) q = (Collection.claim_next rt hex w now d n q).1
  perform localization (claim_next hex w now d n) q = (Localization.claim_next hex w now d n q).1
  perform analysis (claim_next hex w now d n) q = (Analysis.claim_next hex w now d n q).1
  perform analysis (claim_incident hex w now d n id) q =
      (Analysis.claim_incident hex w now d n id q).1
  perform analysis (claim_next_eligible hex w now d n label activated_at) q =
      (Analysis.claim_next_eligible hex w now d n rt label activated_at q).1
  perform collection (renew c now d) q = (Collection.renew c now d q).1
  perform localization (renew c now d) q = (Localization.renew c now d q).1
  perform analysis (renew c now d) q = (Analysis.renew c now d q).1
  perform collection (complete c now outcome) q = (Collection.complete c now outcome q).1
  perform localization (complete c now outcome) q = (Localization.complete c now outcome q).1
  perform analysis (complete c now outcome) q = (Analysis.complete c now outcome q).1
  perform collection (fail c now code) q = (Collection.fail c now rt code q).1
  perform localization (fail c now code) q = (Localization.fail c now rt code q).1
  perform analysis (fail c now code) q = (Analysis.fail c now rt code q).1
  perform localization (store_collection c now selection window statuses items) q =
      (Localization.store_collection c now rt selection window statuses items q).1
  perform collection (reap_exhausted now n) q = (Collection.reap_exhausted rt now n q).1
  perform localization (reap_exhausted now n) q = (Localization.reap_exhausted rt now n q).1
  perform analysis (reap_exhausted now n) q = (Analysis.reap_exhausted rt now n q).1
  perform analysis (reap_exhausted_eligible now n label activated_at) q =
      (Analysis.reap_exhausted_eligible rt now n label activated_at q).1
  perform _ _ q = q

  unfoldable pub run : Stage → List Call → Queue → Queue
  unfolding perform
  run stage [] q = q
  run stage ((r, op) ∷ cs) q = run stage cs (perform stage op (record q { repository = r }))

  perform-ItemSteps :
      {m : ℕ} (stage : Stage) (op : Op) (q : Queue)
      → IsBounded m op
      → IsDict q.items
      → ItemSteps m q.items (perform stage op q).items
  unfolding perform
  perform-ItemSteps collection (enqueue id context_id t) q b d =
      Collection.Steps.enqueue-ItemSteps q id t
  perform-ItemSteps localization (enqueue id context_id t) q b d =
      Localization.Steps.enqueue-ItemSteps q id t
  perform-ItemSteps analysis (enqueue id context_id t) q b d =
      Analysis.Steps.enqueue-ItemSteps q id context_id t
  perform-ItemSteps collection (claim_next hex w now t n) q b d =
      Collection.Scans.claim_next-ItemSteps rt hex w now t n q b d
  perform-ItemSteps localization (claim_next hex w now t n) q b d =
      Localization.Scans.claim_next-ItemSteps hex w now t n q b d
  perform-ItemSteps analysis (claim_next hex w now t n) q b d =
      Analysis.Scans.claim_next-ItemSteps hex w now t n q b d
  perform-ItemSteps analysis (claim_incident hex w now t n id) q b d =
      Analysis.Scans.claim_incident-ItemSteps hex w now t n id q b
  perform-ItemSteps analysis (claim_next_eligible hex w now t n label activated_at) q b d =
      Analysis.Scans.claim_next_eligible-ItemSteps hex w now t n rt label activated_at q b d
  perform-ItemSteps collection (renew c now t) q b d = Collection.Steps.renew-ItemSteps q c now t
  perform-ItemSteps localization (renew c now t) q b d =
      Localization.Steps.renew-ItemSteps q c now t
  perform-ItemSteps analysis (renew c now t) q b d = Analysis.Steps.renew-ItemSteps q c now t
  perform-ItemSteps collection (complete c now outcome) q b d =
      Collection.Steps.complete-ItemSteps q c now outcome
  perform-ItemSteps localization (complete c now outcome) q b d =
      Localization.Steps.complete-ItemSteps q c now outcome
  perform-ItemSteps analysis (complete c now outcome) q b d =
      Analysis.Steps.complete-ItemSteps q c now outcome
  perform-ItemSteps collection (fail c now code) q b d =
      Collection.Steps.fail-ItemSteps q c now rt code
  perform-ItemSteps localization (fail c now code) q b d =
      Localization.Steps.fail-ItemSteps q c now rt code
  perform-ItemSteps analysis (fail c now code) q b d = Analysis.Steps.fail-ItemSteps q c now rt code
  perform-ItemSteps localization (store_collection c now selection window statuses items) q b d =
      ItemSteps-eq
        (Localization.Steps.store_collection_items q c now rt selection window statuses items)
  perform-ItemSteps collection (reap_exhausted now n) q b d =
      Collection.Scans.reap_exhausted-ItemSteps rt now n q d
  perform-ItemSteps localization (reap_exhausted now n) q b d =
      Localization.Scans.reap_exhausted-ItemSteps rt now n q d
  perform-ItemSteps analysis (reap_exhausted now n) q b d =
      unfold Analysis.reap_exhausted in Analysis.Scans.reap_selected-ItemSteps rt now n none q d
  perform-ItemSteps analysis (reap_exhausted_eligible now n label activated_at) q b d =
      Analysis.Scans.reap_exhausted_eligible-ItemSteps rt now n label activated_at q d
  perform-ItemSteps collection _ q b d = done
  perform-ItemSteps localization _ q b d = done
  perform-ItemSteps analysis _ q b d = done

  run-ItemSteps :
      {m : ℕ} (stage : Stage) (cs : List Call) (q : Queue)
      → AreBounded m cs
      → 1 ≤ m
      → AreItems m q.items
      → ItemSteps m q.items (run stage cs q).items
  unfolding run
  run-ItemSteps stage [] q b one h = done
  run-ItemSteps stage ((r, op) ∷ cs) q b one h =
      let p = perform-ItemSteps stage op (record q { repository = r }) b.0 h.is_dict in
      ItemSteps-trans p (
        run-ItemSteps stage cs (perform stage op (record q { repository = r })) b.1 one
          (ItemSteps-AreItems p one h))

  -- `__init__`: a queue over a repository, with no item
  unfoldable pub new_queue : Repository → Queue
  new_queue r = record { repository = r; items = [] }

  module _ (m : ℕ) (stage : Stage) (r : Repository) (cs : List Call) (bounded : AreBounded m cs)
      (one : 1 ≤ m) where
    -- After any calls of one queue's methods whose claims allow at most `m` attempts, whatever other
    -- clients do to the repository between them: no incident has two items; an item has a lease
    -- exactly if it is RUNNING, and a claim token and a worker exactly if it is not READY; a READY
    -- item has had no attempt, any other at least one; and no item has had more than `m`.
    pub run-AreItems : AreItems m (run stage cs (new_queue r)).items
    unfolding new_queue
    run-AreItems =
        ItemSteps-AreItems (run-ItemSteps stage cs (new_queue r) bounded one (nil-AreItems m)) one
          (nil-AreItems m)

    -- From a state reached by such calls, an item that is SUCCEEDED or FAILED is exactly what it was
    -- after any further such calls: it is never claimed, renewed or finished again.
    pub finished_stays :
        (ds : List Call)
        → AreBounded m ds
        → (id : String) (item : WorkItem) → lookup id (run stage cs (new_queue r)).items ≡ some item
        → is_done item.state ≡ true
        → lookup id (run stage ds (run stage cs (new_queue r))).items ≡ some item
    finished_stays ds more id item there f =
        ItemSteps-keeps (run-ItemSteps stage ds (run stage cs (new_queue r)) more one run-AreItems)
          id item there f
