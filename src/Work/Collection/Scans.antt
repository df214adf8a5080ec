-- ===== src/Work/Collection/Scans.antt =====
-- The collection queue's loops make only the writes of Work/Step.
use agent_rca.Prelude.{
  ℕ, ◌≤◌, String, ◌≡◌, Bool, true, false, Option, none, some, List, [], ◌∷◌, arith, ◌⊎◌, inl, inr,
  Option-cases, Bool-cases, ◌||◌, ◌&&◌, leb, All, unique, if◌then◌else◌, ◌∙◌,
}
use agent_rca.Time.{DateTime, after}
use agent_rca.Dict.{lookup, insert, keys, is_some}
use agent_rca.Dict.Unique.{IsDict, IsAt, entries, entries_after, sort_by-All}
use agent_rca.Incident.{Status, Incident}
use agent_rca.Repository.{get_incident}
use agent_rca.Runtime.{Runtime}
use agent_rca.Work.{
  WorkItem, WorkState, Queue, start_item, finish_item, is_running, is_ready, is_expired, in_order,
  validate_claim_request,
}
use agent_rca.Work.Collection.{
  take_incident, claim_item, claim_scan, claim_next, reap_state, reap_code, reap_by, reap_item,
  reap_scan, reap_exhausted,
}
use agent_rca.Work.Step.{
  starts, finishes, ItemSteps, done, ItemSteps-eq, ItemSteps-one, ItemSteps-trans, is_done,
}

module _ (rt : Runtime) (hex worker_id : String) (now : DateTime)
    (lease_duration max_attempts : ℕ) where
  pub take_items :
      (id : String) (flag : Bool) (q : Queue)
      → (take_incident rt hex worker_id now lease_duration max_attempts id flag q).1.items ≡ q.items
  unfolding take_incident
  take_items id flag q = ground arith

  claim_item_cases :
      (id : String) (item : WorkItem) (q : Queue)
      → ((claim_item rt hex worker_id now lease_duration max_attempts id item q).1.items ≡ q.items)
        ⊎ ((claim_item rt hex worker_id now lease_duration max_attempts id item q).1.items
            ≡ insert id (start_item item hex worker_id now lease_duration) q.items)
  unfolding claim_item
  claim_item_cases id item q = ground (arith, take_items id (is_ready item now) q)

  module _ {m : ℕ} (lo : 1 ≤ max_attempts) (hi : max_attempts ≤ m) (q : Queue) where
    -- Entries are what a lookup of their keys finds.
    claim_scan-ItemSteps :
        (es : List (String × WorkItem))
        → All (IsAt q.items) es
        → ItemSteps m q.items
            (claim_scan rt hex worker_id now lease_duration max_attempts es q).1.items
    unfolding claim_scan
    claim_scan-ItemSteps [] h = done
    claim_scan-ItemSteps ((id, item) ∷ es) h =
        elim (Bool-cases (is_ready item now || is_expired item now max_attempts)) [
          | inr no_claim ↦ rw no_claim (claim_scan-ItemSteps es h.1)
          | inl claimable ↦ rw claimable (elim (claim_item_cases id item q) [
            | inl same ↦ ItemSteps-eq same
            | inr e ↦
                ItemSteps-one (
                  starts id item hex worker_id now lease_duration max_attempts h.0 lo hi claimable
                    e)
          ])
        ]

  claim_next_cases :
      (q : Queue)
      → (claim_next rt hex worker_id now lease_duration max_attempts q).1.items ≡ q.items
        ⊎ ((1 ≤ max_attempts)
            × ((claim_next rt hex worker_id now lease_duration max_attempts q) ≡ (
                claim_scan rt hex worker_id now lease_duration max_attempts (in_order q.items) q)))
  unfolding claim_next validate_claim_request
  claim_next_cases q = ground arith

  pub claim_next-ItemSteps :
      {m : ℕ} (q : Queue)
      → max_attempts ≤ m
      → IsDict q.items
      → ItemSteps m q.items (claim_next rt hex worker_id now lease_duration max_attempts q).1.items
  claim_next-ItemSteps q hi d = elim (claim_next_cases q) [
    | inl same ↦ ItemSteps-eq same
    | inr (lo, e) ↦ rw e (
        claim_scan-ItemSteps lo hi q (in_order q.items)
          (unfold in_order in sort_by-All _ (IsAt q.items) q.items (entries q.items d)))
  ]

module _ (rt : Runtime) (now : DateTime) (max_attempts : ℕ) (id : String) (item : WorkItem)
    (q : Queue) where
  -- the state and the code that the reaper gives an item that it ends
  abbrev reaped_state : Option WorkState → WorkState
  reaped_state none = WorkState.failed
  reaped_state (some s) = s

  reap_by_cases :
      (status : Status) (o : Option WorkState)
      → ((reap_by rt now max_attempts id item status o q).1.items ≡ q.items)
        ⊎ ((reap_by rt now max_attempts id item status o q).1.items
            ≡ insert id
                (record (finish_item item (reaped_state o)) {
                  error_code =
                      if is_some o then reap_code status else some "LEASE_ATTEMPTS_EXHAUSTED";
                })
                q.items)
  unfolding reap_by
  reap_by_cases status o = ground arith

  -- The reaper leaves the items, or it ends this one, which was running.
  abbrev EndsOr : Queue → Type 0
  EndsOr after =
      (after.items ≡ q.items)
      ⊎ ((is_running item.state ≡ true)
          × ((s : WorkState) × (code : Option String) × (is_done s ≡ true)
              × (after.items
                  ≡ insert id (record (finish_item item s) { error_code = code }) q.items)))

  reap_state_done : (status : Status) → is_done (reaped_state (reap_state status)) ≡ true
  reap_state_done status = ground arith

  reap_known :
      (i : Incident)
      → lookup id q.repository.incidents ≡ some i
      → is_running item.state ≡ true
      → (reap_item rt now max_attempts id item q).1.items ≡ q.items
        ⊎ ((reap_item rt now max_attempts id item q).1.items
            ≡ (reap_by rt now max_attempts id item i.status (reap_state i.status) q).1.items)
  unfolding reap_item get_incident
  reap_known i there r = ground arith

  reap_still :
      is_running item.state ≡ false → (reap_item rt now max_attempts id item q).1.items ≡ q.items
  unfolding reap_item
  reap_still r = ground arith

  reap_lost :
      lookup id q.repository.incidents ≡ none
      → (reap_item rt now max_attempts id item q).1.items ≡ q.items
  unfolding reap_item get_incident
  reap_lost free = ground arith

  reap_item_cases : EndsOr (reap_item rt now max_attempts id item q).1
  reap_item_cases = elim (Bool-cases (is_running item.state)) [
    | inr r ↦ inl (reap_still r)
    | inl r ↦ elim (Option-cases (lookup id q.repository.incidents)) [
      | inl free ↦ inl (reap_lost free)
      | inr (i, there) ↦ elim (reap_known i there r) [
        | inl same ↦ inl same
        | inr e ↦ elim (reap_by_cases i.status (reap_state i.status)) [
          | inl same ↦ inl (e ∙ same)
          | inr ended ↦ inr (r, (_, _, reap_state_done i.status, e ∙ ended))
        ]
      ]
    ]
  ]

module _ (rt : Runtime) (now : DateTime) (max_attempts : ℕ) where
  -- One round of the loop, and the rest unless it raises.
  reap_round :
      (id : String) (item : WorkItem) (es : List (String × WorkItem)) (q : Queue)
      → let q' = (reap_item rt now max_attempts id item q).1 in
        ((reap_scan rt now max_attempts ((id, item) ∷ es) q).1 ≡ q')
        ⊎ ((reap_scan rt now max_attempts ((id, item) ∷ es) q).1
            ≡ (reap_scan rt now max_attempts es q').1)
  unfolding reap_scan
  reap_round id item es q = ground arith

  reap_scan-ItemSteps :
      {m : ℕ} (es : List (String × WorkItem)) (q : Queue)
      → unique (keys es) ≡ true
      → All (IsAt q.items) es
      → ItemSteps m q.items (reap_scan rt now max_attempts es q).1.items
  unfolding reap_scan unique
  reap_scan-ItemSteps [] q u h = done
  reap_scan-ItemSteps ((id, item) ∷ es) q u h =
      let q' = (reap_item rt now max_attempts id item q).1 in
      let first : ItemSteps _ q.items q'.items × All (IsAt q'.items) es =
        elim (reap_item_cases rt now max_attempts id item q) [
          | inl same ↦ (ItemSteps-eq same, rw same h.1)
          | inr (r, (s, code, f, e)) ↦ (
            ItemSteps-one (finishes id item s code h.0 r f e),
            rw e (entries_after id _ q.items es (ground arith) h.1),
          )
        ] in
      elim (reap_round id item es q) [
        | inl stop ↦ rw stop first.0
        | inr on ↦
            rw on (ItemSteps-trans first.0 (reap_scan-ItemSteps es q' (ground arith) first.1))
      ]

  pub reap_exhausted-ItemSteps :
      {m : ℕ} (q : Queue)
      → IsDict q.items
      → ItemSteps m q.items (reap_exhausted rt now max_attempts q).1.items
  unfolding reap_exhausted
  reap_exhausted-ItemSteps q d =
      elim (Bool-cases (now.aware && (leb 1 max_attempts && leb max_attempts 10))) [
        | inr bad ↦ rw bad done
        | inl good ↦ rw good (reap_scan-ItemSteps q.items q d (entries q.items d))
      ]
