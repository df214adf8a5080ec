-- ===== src/Work/Localization/Steps.antt =====
-- The localization queue's methods make only the writes of Work/Step.
use agent_rca.Prelude.{
  ℕ, String, ◌≡◌, refl, true, none, some, List, arith, ◌⊎◌, inl, inr, Option-cases,
}
use agent_rca.Time.{DateTime, after}
use agent_rca.Dict.{lookup, insert}
use agent_rca.Incident.{CollectorStatus}
use agent_rca.Documents.{Evidence, Selection, Span}
use agent_rca.Runtime.{Runtime}
use agent_rca.Work.{WorkItem, WorkState, Claim, Queue, new_item, finish_item, is_running}
use agent_rca.Work.Localization.{enqueue, store_collection, renew, complete, fail}
use agent_rca.Work.Step.{adds, renews, finishes, ItemSteps, ItemSteps-eq, ItemSteps-one}

module _ (q : Queue) where
  enqueue_cases :
      (id : String) (t : DateTime)
      → ((enqueue id t q).1.items ≡ q.items)
        ⊎ ((lookup id q.items ≡ none)
            × ((enqueue id t q).1.items ≡ insert id (new_item "" t) q.items))
  unfolding enqueue
  enqueue_cases id t = ground arith

  renew_cases :
      (c : Claim) (now : DateTime) (duration : ℕ) (item : WorkItem)
      → lookup c.incident_id q.items ≡ some item
      → ((renew c now duration q).1.items ≡ q.items)
        ⊎ ((is_running item.state ≡ true)
            × ((renew c now duration q).1.items
                ≡ insert c.incident_id
                    (record item { lease_expires_at = some (after now duration) })
                    q.items))
  unfolding renew
  renew_cases c now duration item there = ground arith

  complete_cases :
      (c : Claim) (now : DateTime) (outcome : String) (item : WorkItem)
      → lookup c.incident_id q.items ≡ some item
      → ((complete c now outcome q).1.items ≡ q.items)
        ⊎ ((is_running item.state ≡ true)
            × ((complete c now outcome q).1.items
                ≡ insert c.incident_id (finish_item item WorkState.succeeded) q.items))
  unfolding complete
  complete_cases c now outcome item there = ground arith

  fail_cases :
      (c : Claim) (now : DateTime) (rt : Runtime) (code : String) (item : WorkItem)
      → lookup c.incident_id q.items ≡ some item
      → ((fail c now rt code q).1.items ≡ q.items)
        ⊎ ((is_running item.state ≡ true)
            × ((fail c now rt code q).1.items
                ≡ insert c.incident_id
                    (record (finish_item item WorkState.failed) { error_code = some code })
                    q.items))
  unfolding fail
  fail_cases c now rt code item there = ground arith

  -- A claim of an item that is not there changes no item.
  module _ (c : Claim) (now : DateTime) (free : lookup c.incident_id q.items ≡ none) where
    renew_missing : (duration : ℕ) → (renew c now duration q).1.items ≡ q.items
    unfolding renew
    renew_missing duration = ground arith

    complete_missing : (outcome : String) → (complete c now outcome q).1.items ≡ q.items
    unfolding complete
    complete_missing outcome = ground arith

    fail_missing : (rt : Runtime) (code : String) → (fail c now rt code q).1.items ≡ q.items
    unfolding fail
    fail_missing rt code = ground arith

  -- A supplemental collection leaves the items as they are.
  pub store_collection_items :
      (c : Claim) (now : DateTime) (rt : Runtime) (selection : Selection) (window : Span)
      (statuses : List CollectorStatus) (items : List Evidence)
      → (store_collection c now rt selection window statuses items q).1.items ≡ q.items
  unfolding store_collection
  store_collection_items c now rt selection window statuses items = ground arith

module _ {m : ℕ} (q : Queue) where
  pub enqueue-ItemSteps :
      (id : String) (t : DateTime) → ItemSteps m q.items (enqueue id t q).1.items
  enqueue-ItemSteps id t = elim (enqueue_cases q id t) [
    | inl same ↦ ItemSteps-eq same
    | inr (free, e) ↦ ItemSteps-one (adds id "" t free e)
  ]

  module _ (c : Claim) (now : DateTime) where
    pub renew-ItemSteps : (duration : ℕ) → ItemSteps m q.items (renew c now duration q).1.items
    renew-ItemSteps duration = elim (Option-cases (lookup c.incident_id q.items)) [
      | inl free ↦ ItemSteps-eq (renew_missing q c now free duration)
      | inr (item, there) ↦ elim (renew_cases q c now duration item there) [
        | inl same ↦ ItemSteps-eq same
        | inr (r, e) ↦ ItemSteps-one (renews c.incident_id item (after now duration) there r e)
      ]
    ]

    pub complete-ItemSteps :
        (outcome : String) → ItemSteps m q.items (complete c now outcome q).1.items
    complete-ItemSteps outcome = elim (Option-cases (lookup c.incident_id q.items)) [
      | inl free ↦ ItemSteps-eq (complete_missing q c now free outcome)
      | inr (item, there) ↦ elim (complete_cases q c now outcome item there) [
        | inl same ↦ ItemSteps-eq same
        | inr (r, e) ↦ ItemSteps-one (
            finishes c.incident_id item WorkState.succeeded item.error_code there r (ground arith)
              e)
      ]
    ]

    pub fail-ItemSteps :
        (rt : Runtime) (code : String) → ItemSteps m q.items (fail c now rt code q).1.items
    fail-ItemSteps rt code = elim (Option-cases (lookup c.incident_id q.items)) [
      | inl free ↦ ItemSteps-eq (fail_missing q c now free rt code)
      | inr (item, there) ↦ elim (fail_cases q c now rt code item there) [
        | inl same ↦ ItemSteps-eq same
        | inr (r, e) ↦
            ItemSteps-one (finishes c.incident_id item WorkState.failed (some code) there r refl e)
      ]
    ]
