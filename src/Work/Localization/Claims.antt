-- ===== src/Work/Localization/Claims.antt =====
-- What a claim of the localization queue is, and that it fences off the claims before it.
use agent_rca.Prelude.{
  ℕ, String, ◌≡◌, ◌≢◌, refl, true, false, some, List, [], ◌∷◌, arith, ◌⊎◌, inl, inr, Option-cases,
  Bool-cases, ◌||◌, ◌&&◌, All, not, ◌==◌,
}
use agent_rca.Outcome.{ok, err, Result-cases, invalid_transition, value_error, key_error}
use agent_rca.Time.{DateTime}
use agent_rca.Dict.{lookup}
use agent_rca.Dict.Unique.{IsDict, IsAt, entries, sort_by-All}
use agent_rca.Incident.{Incident, localizing, same_status, CollectorStatus}
use agent_rca.Documents.{Evidence, Selection, Span}
use agent_rca.Repository.{get_incident}
use agent_rca.Runtime.{Runtime}
use agent_rca.Text.{is_blank}
use agent_rca.Work.{
  WorkItem, Claim, Queue, start_item, is_ready, is_expired, in_order, make_claim, claim_of,
  is_current, validate_claim_request,
}
use agent_rca.Work.Fencing.{
  IsHandedOut, IsRefused, same_status-eq, started_fences, make_claim_lem, handed_out,
}
use agent_rca.Work.Localization.{
  start_claim, claim_scan, claim_next, store_collection, renew, complete, fail,
}

module _ (hex worker_id : String) (now : DateTime) (lease_duration max_attempts : ℕ) where
  start_claim_result :
      (id : String) (item : WorkItem) (i : Incident) (q : Queue) (c : Claim)
      → lookup id q.items ≡ some item
      → (is_ready item now || is_expired item now max_attempts) ≡ true
      → i.status ≡ localizing
      → (start_claim hex worker_id now lease_duration max_attempts id item i q).0 ≡ ok (some c)
      → IsHandedOut hex worker_id now lease_duration max_attempts localizing q c
          (start_claim hex worker_id now lease_duration max_attempts id item i q).1
  unfolding start_claim
  start_claim_result id item i q c there claimable waits h =
      elim (Result-cases (make_claim (claim_of id item hex worker_id now lease_duration i))) [
        | inl (e, g) ↦ absurd (ground arith)
        | inr (d, g) ↦
            let (same, own) = make_claim_lem _ d g in
            handed_out hex worker_id now lease_duration max_attempts localizing q _ c id item i
              there claimable (ground arith) (ground (arith, same)) waits own
      ]

  -- The loop raises, starts this item, or goes on to the others.
  claim_turn :
      (id : String) (item : WorkItem) (es : List (String × WorkItem)) (q : Queue)
      → ((claim_scan hex worker_id now lease_duration max_attempts ((id, item) ∷ es) q)
          ≡ (err key_error, q))
        ⊎ (((i : Incident) × ((is_ready item now || is_expired item now max_attempts) ≡ true)
              × (same_status i.status localizing ≡ true)
              × ((claim_scan hex worker_id now lease_duration max_attempts ((id, item) ∷ es) q)
                  ≡ (start_claim hex worker_id now lease_duration max_attempts id item i q)))
            ⊎ ((claim_scan hex worker_id now lease_duration max_attempts ((id, item) ∷ es) q)
                ≡ (claim_scan hex worker_id now lease_duration max_attempts es q)))
  unfolding claim_scan get_incident
  claim_turn id item es q =
      elim (Bool-cases (is_ready item now || is_expired item now max_attempts)) [
        | inr no_claim ↦ rw no_claim (inr (inr refl))
        | inl claimable ↦ rw claimable (elim (Option-cases (lookup id q.repository.incidents)) [
          | inl free ↦ rw free (inl refl)
          | inr (i, there) ↦ rw there (elim (Bool-cases (same_status i.status localizing)) [
            | inr other ↦ rw other (inr (inr refl))
            | inl waits ↦ inr (inl (i, refl, waits, rw waits refl))
          ])
        ])
      ]

  claim_scan_result :
      (q : Queue) (es : List (String × WorkItem)) (c : Claim)
      → All (IsAt q.items) es
      → (claim_scan hex worker_id now lease_duration max_attempts es q).0 ≡ ok (some c)
      → IsHandedOut hex worker_id now lease_duration max_attempts localizing q c
          (claim_scan hex worker_id now lease_duration max_attempts es q).1
  claim_scan_result q [] c at h = absurd (unfold claim_scan in cc h)
  claim_scan_result q ((id, item) ∷ es) c at h = elim (claim_turn id item es q) [
    | inl e ↦ absurd (cc (rw e at h))
    | inr (inl (i, claimable, waits, e)) ↦ rw e (
        start_claim_result id item i q c at.0 claimable (same_status-eq i.status localizing waits)
          (rw e at h))
    | inr (inr e) ↦ rw e (claim_scan_result q es c at.1 (rw e at h))
  ]

  claim_next_result :
      (q : Queue) (c : Claim)
      → (claim_next hex worker_id now lease_duration max_attempts q).0 ≡ ok (some c)
      → (claim_next hex worker_id now lease_duration max_attempts q)
        ≡ (claim_scan hex worker_id now lease_duration max_attempts (in_order q.items) q)
  unfolding claim_next validate_claim_request
  claim_next_result q c h = ground arith

  -- A claim of the localization queue, over items with no key twice, is of an item that was READY and
  -- due, or RUNNING with its lease over and attempts left; it carries that item's incident, which is
  -- LOCALIZING, and the item is now RUNNING under the claim's token with one attempt more.
  pub claim_next-IsHandedOut :
      (q : Queue) (c : Claim)
      → IsDict q.items
      → (claim_next hex worker_id now lease_duration max_attempts q).0 ≡ ok (some c)
      → IsHandedOut hex worker_id now lease_duration max_attempts localizing q c
          (claim_next hex worker_id now lease_duration max_attempts q).1
  claim_next-IsHandedOut q c d h =
      let e = claim_next_result q c h in
      rw e (
        claim_scan_result q (in_order q.items) c
          (unfold in_order in sort_by-All _ (IsAt q.items) q.items (entries q.items d)) (rw e at h))

-- A claim that is not the current one of its item is refused by every method.
module _ (q : Queue) (old : Claim) (item : WorkItem)
    (there : lookup old.incident_id q.items ≡ some item) (stale : is_current old item ≡ false) where
  renew-IsRefused : (now : DateTime) (d : ℕ) → IsRefused q (renew old now d q)
  unfolding renew
  renew-IsRefused now d = elim (Result-cases (validate_claim_request old.worker_id now d 1)) [
    | inl (e, p) ↦ ((e, ground arith), ground arith)
    | inr (u, p) ↦ ((invalid_transition, ground arith), ground arith)
  ]

  complete-IsRefused :
      (now : DateTime) (outcome : String) → IsRefused q (complete old now outcome q)
  unfolding complete
  complete-IsRefused now outcome = elim (Bool-cases (now.aware && outcome == "SUCCEEDED")) [
    | inl good ↦ ((invalid_transition, ground arith), ground arith)
    | inr bad ↦ ((value_error, ground arith), ground arith)
  ]

  fail-IsRefused :
      (now : DateTime) (rt : Runtime) (code : String) → IsRefused q (fail old now rt code q)
  unfolding fail
  fail-IsRefused now rt code = elim (Bool-cases (now.aware && not (is_blank code))) [
    | inl good ↦ ((invalid_transition, ground arith), ground arith)
    | inr bad ↦ ((value_error, ground arith), ground arith)
  ]

  store_collection-IsRefused :
      (now : DateTime) (rt : Runtime) (selection : Selection) (window : Span)
      (statuses : List CollectorStatus) (items : List Evidence)
      → IsRefused q (store_collection old now rt selection window statuses items q)
  unfolding store_collection
  store_collection-IsRefused now rt selection window statuses items =
      ((invalid_transition, ground arith), ground arith)

-- Once the localization queue, over items with no key twice, has handed out a claim `c`, every claim of
-- the same incident with another token is refused by `store_collection`, `renew`, `complete` and `fail`: each raises, and
-- leaves the queue and the repository as they were.
pub localization_fences :
    (rt : Runtime) (hex worker_id : String) (now : DateTime) (lease_duration max_attempts : ℕ)
    (q : Queue) (c old : Claim)
    → IsDict q.items
    → (claim_next hex worker_id now lease_duration max_attempts q).0 ≡ ok (some c)
    → old.incident_id ≡ c.incident_id
    → old.claim_token ≢ c.claim_token
    → let q' = (claim_next hex worker_id now lease_duration max_attempts q).1 in
      ((later : DateTime) (selection : Selection) (window : Span) (statuses : List CollectorStatus)
          (items : List Evidence)
        → IsRefused q' (store_collection old later rt selection window statuses items q'))
      × ((later : DateTime) (d : ℕ) → IsRefused q' (renew old later d q'))
      × ((later : DateTime) (outcome : String) → IsRefused q' (complete old later outcome q'))
      × ((later : DateTime) (code : String) → IsRefused q' (fail old later rt code q'))
localization_fences rt hex worker_id now lease_duration max_attempts q c old d h same apart =
    let q' = (claim_next hex worker_id now lease_duration max_attempts q).1 in
    let out = claim_next-IsHandedOut hex worker_id now lease_duration max_attempts q c d h in
    let started = start_item out.item hex worker_id now lease_duration in
    let there : lookup old.incident_id q'.items ≡ some started = rw same out.is_started in
    let stale =
      started_fences old c hex worker_id now lease_duration max_attempts localizing q q' out
        apart in
    (
      λ later selection window statuses items.
          store_collection-IsRefused q' old started there stale later rt selection window statuses
            items,
      λ later e. renew-IsRefused q' old started there stale later e,
      λ later outcome. complete-IsRefused q' old started there stale later outcome,
      λ later code. fail-IsRefused q' old started there stale later rt code,
    )
