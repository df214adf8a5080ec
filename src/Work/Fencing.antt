-- ===== src/Work/Fencing.antt =====
-- Lease fencing: what it is to hand a claim out, and to refuse one.
use agent_rca.Prelude.{ℕ, String, ◌≡◌, ◌≢◌, refl, true, false, some, arith, ap, ◌||◌, eq_iff}
use agent_rca.Outcome.{Error, Result, ok, err}
use agent_rca.Time.{DateTime}
use agent_rca.Dict.{lookup, insert, lookup-insert_self}
use agent_rca.Incident.{Incident, Status, same_status}
use agent_rca.Work.{
  WorkItem, Claim, Queue, start_item, is_ready, is_expired, make_claim, make_analysis_claim,
  claim_of, is_current, token_of,
}

-- The claim is of an item that was READY and due, or RUNNING with its lease over and attempts left;
-- the item is started with the drawn token, and the claim's incident has the stage's status.
pub record IsHandedOut (hex worker_id : String) (now : DateTime) (lease_duration max_attempts : ℕ)
    (status : Status) (before : Queue) (c : Claim) (after : Queue) : Type 0 where
  pub item : WorkItem
  pub was_there : lookup c.incident_id before.items ≡ some item
  pub claimable : (is_ready item now || is_expired item now max_attempts) ≡ true
  pub is_started :
      lookup c.incident_id after.items ≡ some (start_item item hex worker_id now lease_duration)
  pub is_claim : c ≡ claim_of c.incident_id item hex worker_id now lease_duration c.incident
  pub in_status : c.incident.status ≡ status
  pub own_incident : c.incident.incident_id ≡ c.incident_id

pub same_status-eq : (a b : Status) → same_status a b ≡ true → a ≡ b
same_status-eq a b h = ground arith

-- An exception, and no change.
abbrev pub IsRefused {ℓ} : {A : Type ℓ} → Queue → Result A × Queue → Type ℓ
IsRefused q after = ((e : Error) × (after.0 ≡ err e)) × (after.1 ≡ q)

pub make_claim_lem :
    (c d : Claim) → make_claim c ≡ ok d → (d ≡ c) × (c.incident.incident_id ≡ c.incident_id)
unfolding make_claim
make_claim_lem c d h = (ground arith, ground (arith, eq_iff c.incident.incident_id c.incident_id))

pub make_analysis_claim_lem :
    (c d : Claim)
    → make_analysis_claim c ≡ ok d
    → (d ≡ c) × (c.incident.incident_id ≡ c.incident_id)
unfolding make_analysis_claim
make_analysis_claim_lem c d h =
    (ground arith, ground (arith, eq_iff c.incident.incident_id c.incident_id))

-- An item that was handed out is not the current one of a claim with another token.
pub started_fences :
    (old c : Claim) (hex worker_id : String) (now : DateTime) (duration n : ℕ) (s : Status)
    (q q' : Queue)
    → (h : IsHandedOut hex worker_id now duration n s q c q') → old.claim_token ≢ c.claim_token
    → is_current old (start_item h.item hex worker_id now duration) ≡ false
started_fences old c hex worker_id now duration n s q q' h apart =
    ground (arith, eq_iff (token_of hex) old.claim_token, ap (λ d. d.claim_token) h.is_claim)

pub handed_out :
    (hex worker_id : String) (now : DateTime) (duration n : ℕ) (s : Status) (q q' : Queue)
    (c : Claim) (id : String) (item : WorkItem) (i : Incident)
    → lookup id q.items ≡ some item
    → (is_ready item now || is_expired item now n) ≡ true
    → q'.items ≡ insert id (start_item item hex worker_id now duration) q.items
    → c ≡ claim_of id item hex worker_id now duration i
    → i.status ≡ s
    → i.incident_id ≡ id
    → IsHandedOut hex worker_id now duration n s q c q'
handed_out hex worker_id now duration n s q q' c id item i there claimable e same status own =
    rw same (record {
      item = item;
      was_there = there;
      claimable = claimable;
      is_started = rw (e, lookup-insert_self) refl;
      is_claim = refl;
      in_status = status;
      own_incident = own;
    })
