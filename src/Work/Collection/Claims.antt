-- ===== src/Work/Collection/Claims.antt =====
-- What a claim of the collection queue is, and that it fences off the claims before it.
use agent_rca.Prelude.{
  ℕ, String, ◌≡◌, ◌≢◌, Bool, true, false, some, List, [], ◌∷◌, arith, inl, inr, Option-cases,
  Bool-cases, ◌||◌, ◌&&◌, All, mem, not,
}
use agent_rca.Outcome.{ok, Result-cases, invalid_transition, value_error}
use agent_rca.Time.{DateTime}
use agent_rca.Dict.{lookup}
use agent_rca.Dict.Unique.{IsDict, IsAt, entries, sort_by-All}
use agent_rca.Incident.{Incident, received, collecting}
use agent_rca.Repository.{get_incident}
use agent_rca.Repository.Transitions.{transition_result}
use agent_rca.Runtime.{Runtime}
use agent_rca.Text.{is_blank}
use agent_rca.Work.{
  WorkItem, Claim, Queue, start_item, is_ready, is_expired, in_order, make_claim, claim_of,
  is_current, validate_claim_request,
}
use agent_rca.Work.Fencing.{IsHandedOut, IsRefused, started_fences, make_claim_lem, handed_out}
use agent_rca.Work.Collection.{
  take_incident, claim_item, claim_scan, claim_next, renew, complete, fail,
}
use agent_rca.Work.Collection.Scans.{take_items}

module _ (rt : Runtime) (hex worker_id : String) (now : DateTime)
    (lease_duration max_attempts : ℕ) where
  take_status :
      (id : String) (flag : Bool) (q : Queue) (i : Incident)
      → (take_incident rt hex worker_id now lease_duration max_attempts id flag q).0 ≡ ok i
      → i.status ≡ collecting
  unfolding take_incident get_incident
  take_status id true q i h = elim (Option-cases (lookup id q.repository.incidents)) [
    | inl free ↦ absurd (ground arith)
    | inr (j, there) ↦
        ground (arith, transition_result rt id received collecting now q.repository i)
  ]
  take_status id false q i h = elim (Option-cases (lookup id q.repository.incidents)) [
    | inl free ↦ absurd (ground arith)
    | inr (j, there) ↦ ground arith
  ]

  claim_item_result :
      (id : String) (item : WorkItem) (q : Queue) (c : Claim)
      → lookup id q.items ≡ some item
      → (is_ready item now || is_expired item now max_attempts) ≡ true
      → (claim_item rt hex worker_id now lease_duration max_attempts id item q).0 ≡ ok (some c)
      → IsHandedOut hex worker_id now lease_duration max_attempts collecting q c
          (claim_item rt hex worker_id now lease_duration max_attempts id item q).1
  unfolding claim_item
  claim_item_result id item q c there claimable h =
      elim (Result-cases
        (take_incident rt hex worker_id now lease_duration max_attempts id (is_ready item now)
          q).0) [
            | inl (e, p) ↦ absurd (ground arith)
            | inr (i, p) ↦
                elim (Result-cases
                  (make_claim (claim_of id item hex worker_id now lease_duration i))) [
                    | inl (e, g) ↦ absurd (ground arith)
                    | inr (d, g) ↦
                        let (same, own) = make_claim_lem _ d g in
                        handed_out hex worker_id now lease_duration max_attempts collecting q _ c id
                          item i there claimable
                          (ground (
                            arith,
                            take_items rt hex worker_id now lease_duration max_attempts id
                                (is_ready item now) q,
                          ))
                          (ground (arith, same)) (take_status id (is_ready item now) q i p) own
                  ]
          ]

  claim_scan_result :
      (q : Queue) (es : List (String × WorkItem)) (c : Claim)
      → All (IsAt q.items) es
      → (claim_scan rt hex worker_id now lease_duration max_attempts es q).0 ≡ ok (some c)
      → IsHandedOut hex worker_id now lease_duration max_attempts collecting q c
          (claim_scan rt hex worker_id now lease_duration max_attempts es q).1
  unfolding claim_scan
  claim_scan_result q [] c at h = absurd (ground arith)
  claim_scan_result q ((id, item) ∷ es) c at h =
      elim (Bool-cases (is_ready item now || is_expired item now max_attempts)) [
        | inr skip ↦ rw skip (claim_scan_result q es c at.1 (rw skip at h))
        | inl claimable ↦
            rw claimable (claim_item_result id item q c at.0 claimable (rw claimable at h))
      ]

  claim_next_result :
      (q : Queue) (c : Claim)
      → (claim_next rt hex worker_id now lease_duration max_attempts q).0 ≡ ok (some c)
      → (claim_next rt hex worker_id now lease_duration max_attempts q)
        ≡ (claim_scan rt hex worker_id now lease_duration max_attempts (in_order q.items) q)
  unfolding claim_next validate_claim_request
  claim_next_result q c h = ground arith

  -- A claim of the collection queue, over items with no key twice, is of an item that was READY and
  -- due, or RUNNING with its lease over and attempts left; it carries that item's incident, which is
  -- COLLECTING, and the item is now RUNNING under the claim's token with one attempt more.
  pub claim_next-IsHandedOut :
      (q : Queue) (c : Claim)
      → IsDict q.items
      → (claim_next rt hex worker_id now lease_duration max_attempts q).0 ≡ ok (some c)
      → IsHandedOut hex worker_id now lease_duration max_attempts collecting q c
          (claim_next rt hex worker_id now lease_duration max_attempts q).1
  claim_next-IsHandedOut q c d h =
      let e = claim_next_result q c h in
      rw e (
        claim_scan_result q (in_order q.items) c
          (unfold in_order in sort_by-All _ (IsAt q.items) q.items (entries q.items d)) (rw e at h))

-- A claim that is not the current one of its item is refused by every method.
module _ (q : Queue) (old : Claim) (item : WorkItem)
    (there : lookup old.incident_id q.items ≡ some item) (stale : is_current old item ≡ false) where
  renew-IsRefused : (now : DateTime) (d : ℕ) → IsRefused q (renew old now d q)
  unfolding renew
  renew-IsRefused now d = elim (Result-cases (validate_claim_request old.worker_id now d 1)) [
    | inl (e, p) ↦ ((e, ground arith), ground arith)
    | inr (u, p) ↦ ((invalid_transition, ground arith), ground arith)
  ]

  complete-IsRefused :
      (now : DateTime) (outcome : String) → IsRefused q (complete old now outcome q)
  unfolding complete
  complete-IsRefused now outcome =
      elim (Bool-cases (now.aware && mem outcome ("SUCCEEDED" ∷ "PARTIAL" ∷ "FAILED" ∷ []))) [
        | inl good ↦ ((invalid_transition, ground arith), ground arith)
        | inr bad ↦ ((value_error, ground arith), ground arith)
      ]

  fail-IsRefused :
      (now : DateTime) (rt : Runtime) (code : String) → IsRefused q (fail old now rt code q)
  unfolding fail
  fail-IsRefused now rt code = elim (Bool-cases (now.aware && not (is_blank code))) [
    | inl good ↦ ((invalid_transition, ground arith), ground arith)
    | inr bad ↦ ((value_error, ground arith), ground arith)
  ]

-- Once the collection queue, over items with no key twice, has handed out a claim `c`, every claim of
-- the same incident with another token is refused by `renew`, `complete` and `fail`: each raises, and
-- leaves the queue and the repository as they were.
pub collection_fences :
    (rt : Runtime) (hex worker_id : String) (now : DateTime) (lease_duration max_attempts : ℕ)
    (q : Queue) (c old : Claim)
    → IsDict q.items
    → (claim_next rt hex worker_id now lease_duration max_attempts q).0 ≡ ok (some c)
    → old.incident_id ≡ c.incident_id
    → old.claim_token ≢ c.claim_token
    → let q' = (claim_next rt hex worker_id now lease_duration max_attempts q).1 in
      ((later : DateTime) (d : ℕ) → IsRefused q' (renew old later d q'))
      × ((later : DateTime) (outcome : String) → IsRefused q' (complete old later outcome q'))
      × ((later : DateTime) (code : String) → IsRefused q' (fail old later rt code q'))
collection_fences rt hex worker_id now lease_duration max_attempts q c old d h same apart =
    let q' = (claim_next rt hex worker_id now lease_duration max_attempts q).1 in
    let out = claim_next-IsHandedOut rt hex worker_id now lease_duration max_attempts q c d h in
    let started = start_item out.item hex worker_id now lease_duration in
    let there : lookup old.incident_id q'.items ≡ some started = rw same out.is_started in
    let stale =
      started_fences old c hex worker_id now lease_duration max_attempts collecting q q' out
        apart in
    (
      λ later e. renew-IsRefused q' old started there stale later e,
      λ later outcome. complete-IsRefused q' old started there stale later outcome,
      λ later code. fail-IsRefused q' old started there stale later rt code,
    )
