-- ===== src/Work/Analysis/Claims.antt =====
-- What a claim of the analysis queue is, and that it fences off the claims before it.
use agent_rca.Prelude.{
  ℕ, String, ◌≡◌, ◌≢◌, refl, ◌∙◌, true, false, Option, none, some, List, [], ◌∷◌, arith, ◌⊎◌, inl,
  inr, Option-cases, Bool-cases, ◌||◌, ◌&&◌, All, not, ◌==◌,
}
use agent_rca.Outcome.{
  proceed, ◌>>=◌, Result, ok, err, Result-cases, invalid_transition, value_error,
}
use agent_rca.Time.{DateTime}
use agent_rca.Dict.{lookup}
use agent_rca.Dict.Unique.{IsDict, IsAt, entries, sort_by-All}
use agent_rca.Incident.{Incident, analyzing, same_status}
use agent_rca.Repository.{get_incident}
use agent_rca.Runtime.{Runtime}
use agent_rca.Text.{is_blank}
use agent_rca.Work.{
  WorkItem, Claim, Queue, start_item, is_ready, is_expired, in_order, make_analysis_claim, claim_of,
  is_current, Work, validate_incident_id, validate_claim_request,
}
use agent_rca.Work.Fencing.{
  IsHandedOut, IsRefused, same_status-eq, started_fences, make_analysis_claim_lem, handed_out,
}
use agent_rca.Work.Analysis.{
  start_claim, claim_scan, claim_next, claim_available, claim_incident, claim_next_eligible,
  claim_eligible_scan, or_later, is_agent_eligible, validate_analysis_eligibility, renew, complete,
  fail,
}
use agent_rca.Work.Analysis.Scans.{claim_available-Claims}

module _ (hex worker_id : String) (now : DateTime) (lease_duration max_attempts : ℕ) where
  start_claim_result :
      (id : String) (item : WorkItem) (i : Incident) (q : Queue) (c : Claim)
      → lookup id q.items ≡ some item
      → (is_ready item now || is_expired item now max_attempts) ≡ true
      → i.status ≡ analyzing
      → (start_claim hex worker_id now lease_duration max_attempts id item i q).0 ≡ ok (some c)
      → IsHandedOut hex worker_id now lease_duration max_attempts analyzing q c
          (start_claim hex worker_id now lease_duration max_attempts id item i q).1
  unfolding start_claim
  start_claim_result id item i q c there claimable waits h =
      elim (Result-cases
        (make_analysis_claim (claim_of id item hex worker_id now lease_duration i))) [
          | inl (e, g) ↦ absurd (ground arith)
          | inr (d, g) ↦
              let (same, own) = make_analysis_claim_lem _ d g in
              handed_out hex worker_id now lease_duration max_attempts analyzing q _ c id item i
                there claimable (ground arith) (ground (arith, same)) waits own
        ]

  claim_available_result :
      (q : Queue) (id : String) (item : WorkItem) (c : Claim)
      → lookup id q.items ≡ some item
      → (claim_available hex worker_id now lease_duration max_attempts id item q).0 ≡ ok (some c)
      → IsHandedOut hex worker_id now lease_duration max_attempts analyzing q c
          (claim_available hex worker_id now lease_duration max_attempts id item q).1
  unfolding claim_available get_incident
  claim_available_result q id item c at =
      elim (Bool-cases (is_ready item now || is_expired item now max_attempts)) [
        | inr no_claim ↦ rw no_claim (λ h. absurd (cc h))
        | inl claimable ↦ rw claimable (elim (Option-cases (lookup id q.repository.incidents)) [
          | inl free ↦ rw free (λ h. absurd (cc h))
          | inr (i, there) ↦ rw there (elim (Bool-cases (same_status i.status analyzing)) [
            | inr other ↦ rw other (λ h. absurd (cc h))
            | inl waits ↦ rw waits (
                start_claim_result id item i q c at claimable
                  (same_status-eq i.status analyzing waits))
          ])
        ])
      ]

  answers :
      (later : Work (Option Claim)) (r : Result (Option Claim)) (s : Queue)
      → (r ≡ ok none → ⊥)
      → proceed r (or_later hex worker_id now lease_duration max_attempts later) s ≡ (r, s)
  answers later (ok none) s n = absurd (n refl)
  answers later (ok (some c)) s n = refl
  answers later (err e) s n = refl

  -- A search whose first item and whose rest hand out only claims of this kind.
  search_result :
      (q : Queue) (id : String) (item : WorkItem) (later : Work (Option Claim)) (c : Claim)
      → lookup id q.items ≡ some item
      → ((later q).0 ≡ ok (some c)
          → IsHandedOut hex worker_id now lease_duration max_attempts analyzing q c (later q).1)
      → ((claim_available hex worker_id now lease_duration max_attempts id item
            >>= or_later hex worker_id now lease_duration max_attempts later)
          q).0
        ≡ ok (some c)
      → IsHandedOut hex worker_id now lease_duration max_attempts analyzing q c
          ((claim_available hex worker_id now lease_duration max_attempts id item
              >>= or_later hex worker_id now lease_duration max_attempts later)
            q).1
  search_result q id item later c at rest =
      elim (claim_available-Claims hex worker_id now lease_duration max_attempts id item q) [
        | inl none_here ↦ rw none_here rest
        | inr (ends, _) ↦
            rw
              (answers later
                (claim_available hex worker_id now lease_duration max_attempts id item q).0
                (claim_available hex worker_id now lease_duration max_attempts id item q).1 ends)
              (claim_available_result q id item c at)
      ]

  claim_scan_result :
      (q : Queue) (es : List (String × WorkItem)) (c : Claim)
      → All (IsAt q.items) es
      → (claim_scan hex worker_id now lease_duration max_attempts es q).0 ≡ ok (some c)
      → IsHandedOut hex worker_id now lease_duration max_attempts analyzing q c
          (claim_scan hex worker_id now lease_duration max_attempts es q).1
  unfolding claim_scan
  claim_scan_result q [] c at h = absurd (cc h)
  claim_scan_result q ((id, item) ∷ es) c at h =
      search_result q id item (claim_scan hex worker_id now lease_duration max_attempts es) c at.0
        (claim_scan_result q es c at.1) h

  module _ (rt : Runtime) (label : String) (activated_at : DateTime) where
    claim_eligible_scan_result :
        (q : Queue) (es : List (String × WorkItem)) (c : Claim)
        → All (IsAt q.items) es
        → (claim_eligible_scan hex worker_id now lease_duration max_attempts rt label activated_at
            es q).0
          ≡ ok (some c)
        → IsHandedOut hex worker_id now lease_duration max_attempts analyzing q c
            (claim_eligible_scan hex worker_id now lease_duration max_attempts rt label activated_at
              es q).1
    unfolding claim_eligible_scan get_incident
    claim_eligible_scan_result q [] c at = λ h. absurd (cc h)
    claim_eligible_scan_result q ((id, item) ∷ es) c at =
        elim (Option-cases (lookup id q.repository.incidents)) [
          | inl free ↦ rw free (λ h. absurd (cc h))
          | inr (i, there) ↦
              rw there (elim (Bool-cases (is_agent_eligible rt label activated_at i)) [
                | inr skip ↦ rw skip (claim_eligible_scan_result q es c at.1)
                | inl eligible ↦ rw eligible (
                    search_result q id item
                      (claim_eligible_scan hex worker_id now lease_duration max_attempts rt label
                        activated_at es)
                      c at.0 (claim_eligible_scan_result q es c at.1))
              ])
        ]

    claim_next_eligible_result :
        (q : Queue) (c : Claim)
        → (claim_next_eligible hex worker_id now lease_duration max_attempts rt label activated_at
            q).0
          ≡ ok (some c)
        → (claim_next_eligible hex worker_id now lease_duration max_attempts rt label activated_at
            q)
          ≡ (claim_eligible_scan hex worker_id now lease_duration max_attempts rt label activated_at
              (in_order q.items)
              q)
    unfolding claim_next_eligible validate_claim_request validate_analysis_eligibility
    claim_next_eligible_result q c h = ground arith

  claim_next_result :
      (q : Queue) (c : Claim)
      → (claim_next hex worker_id now lease_duration max_attempts q).0 ≡ ok (some c)
      → (claim_next hex worker_id now lease_duration max_attempts q)
        ≡ (claim_scan hex worker_id now lease_duration max_attempts (in_order q.items) q)
  unfolding claim_next validate_claim_request
  claim_next_result q c h = ground arith

  claim_incident_missing :
      (id : String) (q : Queue) (c : Claim)
      → lookup id q.items ≡ none
      → (claim_incident hex worker_id now lease_duration max_attempts id q).0 ≡ ok (some c)
      → ⊥
  unfolding claim_incident validate_claim_request validate_incident_id
  claim_incident_missing id q c free h = ground arith

  claim_incident_result :
      (id : String) (item : WorkItem) (q : Queue) (c : Claim)
      → lookup id q.items ≡ some item
      → (claim_incident hex worker_id now lease_duration max_attempts id q).0 ≡ ok (some c)
      → (claim_incident hex worker_id now lease_duration max_attempts id q)
        ≡ (claim_available hex worker_id now lease_duration max_attempts id item q)
  unfolding claim_incident validate_claim_request validate_incident_id
  claim_incident_result id item q c there h = ground arith

  -- What one of the three methods that claim gave.
  abbrev pub IsClaimed : Runtime → Queue → Result (Option Claim) × Queue → Type 0
  IsClaimed rt q claimed =
      (claimed ≡ claim_next hex worker_id now lease_duration max_attempts q)
      ⊎ (((id : String) × (claimed
              ≡ claim_incident hex worker_id now lease_duration max_attempts id q))
          ⊎ ((label : String) × (activated_at : DateTime) × (claimed
                ≡ claim_next_eligible hex worker_id now lease_duration max_attempts rt label
                    activated_at q)))

  ordered : (q : Queue) → IsDict q.items → All (IsAt q.items) (in_order q.items)
  unfolding in_order
  ordered q d = sort_by-All _ (IsAt q.items) q.items (entries q.items d)

  -- A claim of the analysis queue, over items with no key twice and by any of its three methods, is of
  -- an item that was READY and due, or RUNNING with its lease over and attempts left; it carries that
  -- item's Context Package and incident, which is ANALYZING, and the item is now RUNNING under the
  -- claim's token with one attempt more.
  pub claim-IsHandedOut :
      (rt : Runtime) (q : Queue) (claimed : Result (Option Claim) × Queue) (c : Claim)
      → IsDict q.items
      → IsClaimed rt q claimed
      → claimed.0 ≡ ok (some c)
      → IsHandedOut hex worker_id now lease_duration max_attempts analyzing q c claimed.1
  claim-IsHandedOut rt q claimed c d (inl e) h =
      let p = e ∙ claim_next_result q c (rw e at h) in
      rw p (claim_scan_result q (in_order q.items) c (ordered q d) (rw p at h))
  claim-IsHandedOut rt q claimed c d (inr (inl (id, e))) h =
      elim (Option-cases (lookup id q.items)) [
        | inl free ↦ absurd (claim_incident_missing id q c free (rw e at h))
        | inr (item, there) ↦
            let p = e ∙ claim_incident_result id item q c there (rw e at h) in
            rw p (claim_available_result q id item c there (rw p at h))
      ]
  claim-IsHandedOut rt q claimed c d (inr (inr (label, activated_at, e))) h =
      let p = e ∙ claim_next_eligible_result rt label activated_at q c (rw e at h) in
      rw p (
        claim_eligible_scan_result rt label activated_at q (in_order q.items) c (ordered q d)
          (rw p at h))

-- A claim that is not the current one of its item is refused by every method.
module _ (q : Queue) (old : Claim) (item : WorkItem)
    (there : lookup old.incident_id q.items ≡ some item) (stale : is_current old item ≡ false) where
  renew-IsRefused : (now : DateTime) (d : ℕ) → IsRefused q (renew old now d q)
  unfolding renew
  renew-IsRefused now d = elim (Result-cases (validate_claim_request old.worker_id now d 1)) [
    | inl (e, p) ↦ ((e, ground arith), ground arith)
    | inr (u, p) ↦ ((invalid_transition, ground arith), ground arith)
  ]

  complete-IsRefused :
      (now : DateTime) (outcome : String) → IsRefused q (complete old now outcome q)
  unfolding complete
  complete-IsRefused now outcome = elim (Bool-cases (now.aware && outcome == "SUCCEEDED")) [
    | inl good ↦ ((invalid_transition, ground arith), ground arith)
    | inr bad ↦ ((value_error, ground arith), ground arith)
  ]

  fail-IsRefused :
      (now : DateTime) (rt : Runtime) (code : String) → IsRefused q (fail old now rt code q)
  unfolding fail
  fail-IsRefused now rt code = elim (Bool-cases (now.aware && not (is_blank code))) [
    | inl good ↦ ((invalid_transition, ground arith), ground arith)
    | inr bad ↦ ((value_error, ground arith), ground arith)
  ]

-- Once the analysis queue, over items with no key twice, has handed out a claim `c` by any of its
-- three methods, every claim of the same incident with another token is refused by `renew`,
-- `complete` and `fail`: each raises, and leaves the queue and the repository as they were.
pub analysis_fences :
    (rt : Runtime) (hex worker_id : String) (now : DateTime) (lease_duration max_attempts : ℕ)
    (q : Queue) (claimed : Result (Option Claim) × Queue) (c old : Claim)
    → IsDict q.items
    → IsClaimed hex worker_id now lease_duration max_attempts rt q claimed
    → claimed.0 ≡ ok (some c)
    → old.incident_id ≡ c.incident_id
    → old.claim_token ≢ c.claim_token
    → ((later : DateTime) (d : ℕ) → IsRefused claimed.1 (renew old later d claimed.1))
      × ((later : DateTime) (outcome : String)
          → IsRefused claimed.1 (complete old later outcome claimed.1))
      × ((later : DateTime) (code : String)
          → IsRefused claimed.1 (fail old later rt code claimed.1))
analysis_fences rt hex worker_id now lease_duration max_attempts q claimed c old d how h same
      apart =
    let out =
      claim-IsHandedOut hex worker_id now lease_duration max_attempts rt q claimed c d how h in
    let started = start_item out.item hex worker_id now lease_duration in
    let there : lookup old.incident_id claimed.1.items ≡ some started = rw same out.is_started in
    let stale =
      started_fences old c hex worker_id now lease_duration max_attempts analyzing q claimed.1 out
        apart in
    (
      λ later e. renew-IsRefused claimed.1 old started there stale later e,
      λ later outcome. complete-IsRefused claimed.1 old started there stale later outcome,
      λ later code. fail-IsRefused claimed.1 old started there stale later rt code,
    )
