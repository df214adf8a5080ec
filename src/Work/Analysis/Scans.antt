-- ===== src/Work/Analysis/Scans.antt =====
-- The analysis queue's loops make only the writes of Work/Step.
use agent_rca.Prelude.{
  ℕ, ◌≤◌, String, ◌≡◌, refl, true, false, Option, none, some, List, [], ◌∷◌, arith, ◌⊎◌, inl, inr,
  Option-cases, Bool-cases, ◌||◌, ◌&&◌, leb, All, unique, if◌then◌else◌, ◌∙◌,
}
use agent_rca.Outcome.{proceed, ◌>>=◌, Result, ok, err, Result-cases}
use agent_rca.Time.{DateTime, after}
use agent_rca.Dict.{lookup, insert, keys, is_some}
use agent_rca.Dict.Unique.{IsDict, IsAt, entries, entries_after, sort_by-All}
use agent_rca.Incident.{Status, Incident, analyzing, same_status}
use agent_rca.Repository.{get_incident}
use agent_rca.Runtime.{Runtime}
use agent_rca.Work.{
  WorkItem, WorkState, Queue, start_item, finish_item, is_running, is_ready, is_expired, in_order,
  validate_claim_request, validate_incident_id, Claim, Work, claim_of, make_analysis_claim,
}
use agent_rca.Work.Analysis.{
  start_claim, claim_available, claim_scan, claim_next, claim_incident, claim_eligible_scan,
  or_later, claim_next_eligible, is_agent_eligible, may_reap, validate_analysis_eligibility,
  reap_selected, reap_exhausted_eligible, reap_state, reap_code, reap_by, reap_item, reap_scan,
}
use agent_rca.Work.Step.{
  starts, finishes, ItemSteps, done, ItemSteps-eq, ItemSteps-one, ItemSteps-trans, is_done,
}

module _ (hex worker_id : String) (now : DateTime) (lease_duration max_attempts : ℕ) where
  -- What a claim of one item gives: no claim and no change, or an end of the search with the items
  -- as they were or with this one started.
  abbrev pub Claims : String → WorkItem → Queue → Result (Option Claim) × Queue → Type 0
  Claims id item q after =
      (after ≡ (ok none, q))
      ⊎ ((after.0 ≡ ok none → ⊥)
          × ((after.1.items ≡ q.items)
              ⊎ (((is_ready item now || is_expired item now max_attempts) ≡ true)
                  × (after.1.items
                      ≡ insert id (start_item item hex worker_id now lease_duration) q.items))))

  start_claim_ends :
      (id : String) (item : WorkItem) (i : Incident) (q : Queue)
      → (start_claim hex worker_id now lease_duration max_attempts id item i q).0 ≡ ok none
      → ⊥
  unfolding start_claim
  start_claim_ends id item i q h =
      elim (Result-cases
        (make_analysis_claim (claim_of id item hex worker_id now lease_duration i))) [
          | inl (e, f) ↦ ground arith
          | inr (c, f) ↦ ground arith
        ]

  start_claim_items :
      (id : String) (item : WorkItem) (i : Incident) (q : Queue)
      → (start_claim hex worker_id now lease_duration max_attempts id item i q).1.items
        ≡ insert id (start_item item hex worker_id now lease_duration) q.items
  unfolding start_claim
  start_claim_items id item i q = ground arith

  pub claim_available-Claims :
      (id : String) (item : WorkItem) (q : Queue)
      → Claims id item q (claim_available hex worker_id now lease_duration max_attempts id item q)
  unfolding claim_available get_incident
  claim_available-Claims id item q =
      elim (Bool-cases (is_ready item now || is_expired item now max_attempts)) [
        | inr no_claim ↦ rw no_claim (inl refl)
        | inl claimable ↦ rw claimable (elim (Option-cases (lookup id q.repository.incidents)) [
          | inl free ↦ rw free (inr (λ p. cc, inl refl))
          | inr (i, there) ↦ rw there (elim (Bool-cases (same_status i.status analyzing)) [
            | inr other ↦ rw other (inl refl)
            | inl waits ↦
                rw waits
                  (inr (start_claim_ends id item i q, inr (refl, start_claim_items id item i q)))
          ])
        ])
      ]

  stops :
      (later : Work (Option Claim)) (r : Result (Option Claim)) (s : Queue)
      → (r ≡ ok none → ⊥)
      → (proceed r (or_later hex worker_id now lease_duration max_attempts later) s).1 ≡ s
  stops later (ok none) s n = absurd (n refl)
  stops later (ok (some c)) s n = refl
  stops later (err e) s n = refl

  -- A search that starts with this item and goes on with `later`.
  search-ItemSteps :
      {m : ℕ} (q : Queue) (id : String) (item : WorkItem) (later : Work (Option Claim))
      → 1 ≤ max_attempts
      → max_attempts ≤ m
      → lookup id q.items ≡ some item
      → ItemSteps m q.items (later q).1.items
      → ItemSteps m q.items
          ((claim_available hex worker_id now lease_duration max_attempts id item
              >>= or_later hex worker_id now lease_duration max_attempts later)
            q).1.items
  search-ItemSteps q id item later lo hi there rest = elim (claim_available-Claims id item q) [
    | inl none_here ↦ rw none_here rest
    | inr (ends, inl same) ↦
        rw
          (stops later (claim_available hex worker_id now lease_duration max_attempts id item q).0
            (claim_available hex worker_id now lease_duration max_attempts id item q).1 ends)
          (ItemSteps-eq same)
    | inr (ends, inr (claimable, e)) ↦
        rw
          (stops later (claim_available hex worker_id now lease_duration max_attempts id item q).0
            (claim_available hex worker_id now lease_duration max_attempts id item q).1 ends)
          (ItemSteps-one
            (starts id item hex worker_id now lease_duration max_attempts there lo hi claimable e))
  ]

  module _ {m : ℕ} (lo : 1 ≤ max_attempts) (hi : max_attempts ≤ m) (q : Queue) where
    claim_scan-ItemSteps :
        (es : List (String × WorkItem))
        → All (IsAt q.items) es
        → ItemSteps m q.items
            (claim_scan hex worker_id now lease_duration max_attempts es q).1.items
    unfolding claim_scan
    claim_scan-ItemSteps [] h = done
    claim_scan-ItemSteps ((id, item) ∷ es) h =
        search-ItemSteps q id item (claim_scan hex worker_id now lease_duration max_attempts es) lo
          hi h.0 (claim_scan-ItemSteps es h.1)

    claim_eligible_scan-ItemSteps :
        (rt : Runtime) (label : String) (activated_at : DateTime) (es : List (String × WorkItem))
        → All (IsAt q.items) es
        → ItemSteps m q.items
            (claim_eligible_scan hex worker_id now lease_duration max_attempts rt label activated_at
              es q).1.items
    unfolding claim_eligible_scan get_incident
    claim_eligible_scan-ItemSteps rt label activated_at [] h = done
    claim_eligible_scan-ItemSteps rt label activated_at ((id, item) ∷ es) h =
        elim (Option-cases (lookup id q.repository.incidents)) [
          | inl free ↦ rw free done
          | inr (i, there) ↦
              rw there (elim (Bool-cases (is_agent_eligible rt label activated_at i)) [
                | inr skip ↦ rw skip (claim_eligible_scan-ItemSteps rt label activated_at es h.1)
                | inl eligible ↦ rw eligible (
                    search-ItemSteps q id item
                      (claim_eligible_scan hex worker_id now lease_duration max_attempts rt label
                        activated_at es)
                      lo hi h.0 (claim_eligible_scan-ItemSteps rt label activated_at es h.1))
              ])
        ]

  ordered : (q : Queue) → IsDict q.items → All (IsAt q.items) (in_order q.items)
  unfolding in_order
  ordered q d = sort_by-All _ (IsAt q.items) q.items (entries q.items d)

  claim_next_cases :
      (q : Queue)
      → ((claim_next hex worker_id now lease_duration max_attempts q).1.items ≡ q.items)
        ⊎ ((1 ≤ max_attempts)
            × ((claim_next hex worker_id now lease_duration max_attempts q)
                ≡ (claim_scan hex worker_id now lease_duration max_attempts (in_order q.items) q)))
  unfolding claim_next validate_claim_request
  claim_next_cases q = ground arith

  pub claim_next-ItemSteps :
      {m : ℕ} (q : Queue)
      → max_attempts ≤ m
      → IsDict q.items
      → ItemSteps m q.items (claim_next hex worker_id now lease_duration max_attempts q).1.items
  claim_next-ItemSteps q hi d = elim (claim_next_cases q) [
    | inl same ↦ ItemSteps-eq same
    | inr (lo, e) ↦ rw e (claim_scan-ItemSteps lo hi q (in_order q.items) (ordered q d))
  ]

  claim_next_eligible_cases :
      (rt : Runtime) (label : String) (activated_at : DateTime) (q : Queue)
      → ((claim_next_eligible hex worker_id now lease_duration max_attempts rt label activated_at
            q).1.items
          ≡ q.items)
        ⊎ ((1 ≤ max_attempts)
            × ((claim_next_eligible hex worker_id now lease_duration max_attempts rt label
                  activated_at q)
                ≡ (claim_eligible_scan hex worker_id now lease_duration max_attempts rt label
                    activated_at
                    (in_order q.items)
                    q)))
  unfolding claim_next_eligible validate_claim_request validate_analysis_eligibility
  claim_next_eligible_cases rt label activated_at q = ground arith

  pub claim_next_eligible-ItemSteps :
      {m : ℕ} (rt : Runtime) (label : String) (activated_at : DateTime) (q : Queue)
      → max_attempts ≤ m
      → IsDict q.items
      → ItemSteps m q.items
          (claim_next_eligible hex worker_id now lease_duration max_attempts rt label activated_at
            q).1.items
  claim_next_eligible-ItemSteps rt label activated_at q hi d =
      elim (claim_next_eligible_cases rt label activated_at q) [
        | inl same ↦ ItemSteps-eq same
        | inr (lo, e) ↦ rw e (
            claim_eligible_scan-ItemSteps lo hi q rt label activated_at (in_order q.items)
              (ordered q d))
      ]

  claim_incident_missing :
      (id : String) (q : Queue)
      → lookup id q.items ≡ none
      → (claim_incident hex worker_id now lease_duration max_attempts id q).1.items ≡ q.items
  unfolding claim_incident
  claim_incident_missing id q free = ground arith

  claim_incident_found :
      (id : String) (item : WorkItem) (q : Queue)
      → lookup id q.items ≡ some item
      → ((claim_incident hex worker_id now lease_duration max_attempts id q).1.items ≡ q.items)
        ⊎ ((1 ≤ max_attempts)
            × ((claim_incident hex worker_id now lease_duration max_attempts id q)
                ≡ (claim_available hex worker_id now lease_duration max_attempts id item q)))
  unfolding claim_incident validate_claim_request validate_incident_id
  claim_incident_found id item q there = ground arith

  pub claim_incident-ItemSteps :
      {m : ℕ} (id : String) (q : Queue)
      → max_attempts ≤ m
      → ItemSteps m q.items
          (claim_incident hex worker_id now lease_duration max_attempts id q).1.items
  claim_incident-ItemSteps id q hi = elim (Option-cases (lookup id q.items)) [
    | inl free ↦ ItemSteps-eq (claim_incident_missing id q free)
    | inr (item, there) ↦ elim (claim_incident_found id item q there) [
      | inl same ↦ ItemSteps-eq same
      | inr (lo, e) ↦ rw e (elim (claim_available-Claims id item q) [
        | inl none_here ↦ rw none_here done
        | inr (ends, inl same) ↦ ItemSteps-eq same
        | inr (ends, inr (claimable, p)) ↦
            ItemSteps-one
              (starts id item hex worker_id now lease_duration max_attempts there lo hi claimable p)
      ])
    ]
  ]

module _ (rt : Runtime) (now : DateTime) (max_attempts : ℕ) (eligible : Option (String × DateTime))
    (id : String) (item : WorkItem) (q : Queue) where
  -- the state and the code that the reaper gives an item that it ends
  abbrev reaped_state : Option WorkState → WorkState
  reaped_state none = WorkState.failed
  reaped_state (some s) = s

  reap_by_cases :
      (status : Status) (o : Option WorkState)
      → ((reap_by rt now max_attempts id item status o q).1.items ≡ q.items)
        ⊎ ((reap_by rt now max_attempts id item status o q).1.items
            ≡ insert id
                (record (finish_item item (reaped_state o)) {
                  error_code =
                      if is_some o then reap_code status else some "LEASE_ATTEMPTS_EXHAUSTED";
                })
                q.items)
  unfolding reap_by
  reap_by_cases status o = ground arith

  -- The reaper leaves the items, or it ends this one, which was running.
  abbrev EndsOr : Queue → Type 0
  EndsOr after =
      (after.items ≡ q.items)
      ⊎ ((is_running item.state ≡ true)
          × ((s : WorkState) × (code : Option String) × (is_done s ≡ true)
              × (after.items
                  ≡ insert id (record (finish_item item s) { error_code = code }) q.items)))

  reap_state_done : (status : Status) → is_done (reaped_state (reap_state status)) ≡ true
  reap_state_done status = ground arith

  reap_known :
      (i : Incident)
      → lookup id q.repository.incidents ≡ some i
      → is_running item.state ≡ true
      → (reap_item rt now max_attempts eligible id item q).1.items ≡ q.items
        ⊎ ((reap_item rt now max_attempts eligible id item q).1.items
            ≡ (reap_by rt now max_attempts id item i.status (reap_state i.status) q).1.items)
  unfolding reap_item get_incident
  reap_known i there r = elim (Bool-cases (may_reap rt eligible i)) [
    | inl yes_may ↦ ground arith
    | inr no_may ↦ ground arith
  ]

  reap_still :
      is_running item.state ≡ false
      → (reap_item rt now max_attempts eligible id item q).1.items ≡ q.items
  unfolding reap_item
  reap_still r = ground arith

  reap_lost :
      lookup id q.repository.incidents ≡ none
      → (reap_item rt now max_attempts eligible id item q).1.items ≡ q.items
  unfolding reap_item get_incident
  reap_lost free = ground arith

  reap_item_cases : EndsOr (reap_item rt now max_attempts eligible id item q).1
  reap_item_cases = elim (Bool-cases (is_running item.state)) [
    | inr r ↦ inl (reap_still r)
    | inl r ↦ elim (Option-cases (lookup id q.repository.incidents)) [
      | inl free ↦ inl (reap_lost free)
      | inr (i, there) ↦ elim (reap_known i there r) [
        | inl same ↦ inl same
        | inr e ↦ elim (reap_by_cases i.status (reap_state i.status)) [
          | inl same ↦ inl (e ∙ same)
          | inr ended ↦ inr (r, (_, _, reap_state_done i.status, e ∙ ended))
        ]
      ]
    ]
  ]

module _ (rt : Runtime) (now : DateTime) (max_attempts : ℕ)
    (eligible : Option (String × DateTime)) where
  -- One round of the loop, and the rest unless it raises.
  reap_round :
      (id : String) (item : WorkItem) (es : List (String × WorkItem)) (q : Queue)
      → let q' = (reap_item rt now max_attempts eligible id item q).1 in
        ((reap_scan rt now max_attempts eligible ((id, item) ∷ es) q).1 ≡ q')
        ⊎ ((reap_scan rt now max_attempts eligible ((id, item) ∷ es) q).1
            ≡ (reap_scan rt now max_attempts eligible es q').1)
  unfolding reap_scan
  reap_round id item es q = ground arith

  reap_scan-ItemSteps :
      {m : ℕ} (es : List (String × WorkItem)) (q : Queue)
      → unique (keys es) ≡ true
      → All (IsAt q.items) es
      → ItemSteps m q.items (reap_scan rt now max_attempts eligible es q).1.items
  unfolding reap_scan unique
  reap_scan-ItemSteps [] q u h = done
  reap_scan-ItemSteps ((id, item) ∷ es) q u h =
      let q' = (reap_item rt now max_attempts eligible id item q).1 in
      let first : ItemSteps _ q.items q'.items × All (IsAt q'.items) es =
        elim (reap_item_cases rt now max_attempts eligible id item q) [
          | inl same ↦ (ItemSteps-eq same, rw same h.1)
          | inr (r, (s, code, f, e)) ↦ (
            ItemSteps-one (finishes id item s code h.0 r f e),
            rw e (entries_after id _ q.items es (ground arith) h.1),
          )
        ] in
      elim (reap_round id item es q) [
        | inl stop ↦ rw stop first.0
        | inr on ↦
            rw on (ItemSteps-trans first.0 (reap_scan-ItemSteps es q' (ground arith) first.1))
      ]

  pub reap_selected-ItemSteps :
      {m : ℕ} (q : Queue)
      → IsDict q.items
      → ItemSteps m q.items (reap_selected rt now max_attempts eligible q).1.items
  unfolding reap_selected
  reap_selected-ItemSteps q d =
      elim (Bool-cases (now.aware && (leb 1 max_attempts && leb max_attempts 10))) [
        | inr bad ↦ rw bad done
        | inl good ↦ rw good (reap_scan-ItemSteps q.items q d (entries q.items d))
      ]

-- The label and the activation time are checked first.
reap_eligible_cases :
    (rt : Runtime) (now : DateTime) (max_attempts : ℕ) (label : String) (activated_at : DateTime)
    (q : Queue)
    → ((reap_exhausted_eligible rt now max_attempts label activated_at q).1.items ≡ q.items)
      ⊎ ((reap_exhausted_eligible rt now max_attempts label activated_at q)
          ≡ (reap_selected rt now max_attempts (some (label, activated_at)) q))
unfolding reap_exhausted_eligible
reap_eligible_cases rt now max_attempts label activated_at q = ground arith

pub reap_exhausted_eligible-ItemSteps :
    {m : ℕ} (rt : Runtime) (now : DateTime) (max_attempts : ℕ) (label : String)
    (activated_at : DateTime) (q : Queue)
    → IsDict q.items
    → ItemSteps m q.items (reap_exhausted_eligible rt now max_attempts label activated_at q).1.items
reap_exhausted_eligible-ItemSteps rt now max_attempts label activated_at q d =
    elim (reap_eligible_cases rt now max_attempts label activated_at q) [
      | inl same ↦ ItemSteps-eq same
      | inr e ↦ rw e (reap_selected-ItemSteps rt now max_attempts (some (label, activated_at)) q d)
    ]
