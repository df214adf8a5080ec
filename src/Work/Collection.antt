-- ===== src/Work/Collection.antt =====
-- `InMemoryIncidentWorkRepository` of src/incident_platform/incident_work.py: RECEIVED incidents wait
-- for their collection.
pub mod Steps
pub mod Claims
pub mod Scans
use agent_rca.Prelude.{
  ℕ, ◌+◌, String, Bool, true, false, Option, none, some, List, [], ◌∷◌, ◌&&◌, ◌||◌, not, leb, mem,
  if◌then◌else◌, ◌==◌,
}
use agent_rca.Outcome.{value_error, invalid_transition, pure, lift, modify, require, ◌>>=◌, ◌>>◌}
use agent_rca.Time.{DateTime, after}
use agent_rca.Text.{is_blank}
use agent_rca.Incident.{
  Status, received, collecting, localizing, analyzing, reported, partial, failed, same_status,
  Incident,
}
use agent_rca.Runtime.{Runtime}
use agent_rca.Repository.{get_incident, transition}
use agent_rca.Work.{
  WorkItem, WorkState, succeeded, Claim, Work, on_repository, put_item, set_default, new_item,
  validate_claim_request, make_claim, is_ready, is_expired, start_item, claim_of, in_order,
  current_item, finish_item, is_running, lease_passed,
}

unfoldable pub enqueue : String → DateTime → Work Unit
enqueue id available_at = do
  require available_at.aware value_error
  incident ← on_repository (get_incident id)
  require (same_status incident.status received) invalid_transition
  modify (set_default id (new_item "" available_at))

-- the statuses that end collection work
abbrev pub is_collected : Status → Bool
is_collected received = false
is_collected collecting = false
is_collected _ = true

-- the first two tests of the reaper
abbrev pub reap_state : Status → Option WorkState
reap_state localizing = some succeeded
reap_state analyzing = some succeeded
reap_state reported = some succeeded
reap_state partial = some succeeded
reap_state failed = some WorkState.failed
reap_state _ = none

abbrev pub reap_code : Status → Option String
reap_code failed = some "INCIDENT_ALREADY_FAILED"
reap_code _ = none

module _ (rt : Runtime) (hex worker_id : String) (now : DateTime)
    (lease_duration max_attempts : ℕ) where
  -- the incident of a claimable item: one that is ready starts COLLECTING
  unfoldable pub take_incident : String → Bool → Work Incident
  take_incident id ready = do
    incident ← on_repository (get_incident id)
    (if ready then on_repository (transition rt id received collecting now) else (do
      require (same_status incident.status collecting) invalid_transition
      pure incident))

  unfoldable pub claim_item : String → WorkItem → Work (Option Claim)
  claim_item id item = do
    incident ← take_incident id (is_ready item now)
    modify (put_item id (start_item item hex worker_id now lease_duration))
    claim ← lift (make_claim (claim_of id item hex worker_id now lease_duration incident))
    pure (some claim)

  -- the loop of `claim_next`
  unfoldable pub claim_scan : List (String × WorkItem) → Work (Option Claim)
  claim_scan [] = pure none
  claim_scan ((id, item) ∷ rest) =
      let later = claim_scan rest in
      if is_ready item now || is_expired item now max_attempts then claim_item id item else later

  unfoldable pub claim_next : Work (Option Claim)
  claim_next = do
    lift (validate_claim_request worker_id now lease_duration max_attempts)
    (λ q. claim_scan (in_order q.items) q)

module _ (claim : Claim) (now : DateTime) where
  unfoldable pub renew : ℕ → Work Claim
  unfolding current_item
  renew lease_duration = do
    lift (validate_claim_request claim.worker_id now lease_duration 1)
    item ← current_item claim
    modify (
        put_item claim.incident_id
          (record item { lease_expires_at = some (after now lease_duration) }))
    incident ← on_repository (get_incident claim.incident_id)
    lift (
        make_claim (record claim {
          lease_expires_at = after now lease_duration;
          attempt_count = item.attempt_count;
          incident = incident;
        }))

  abbrev pub outcome_state : String → WorkState
  outcome_state outcome = if outcome == "FAILED" then WorkState.failed else succeeded

  unfoldable pub complete : String → Work Unit
  unfolding current_item mem
  complete outcome = do
    require (now.aware && mem outcome ("SUCCEEDED" ∷ "PARTIAL" ∷ "FAILED" ∷ [])) value_error
    item ← current_item claim
    incident ← on_repository (get_incident claim.incident_id)
    require (is_collected incident.status) invalid_transition
    modify (put_item claim.incident_id (finish_item item (outcome_state outcome)))

  unfoldable pub fail : Runtime → String → Work Unit
  unfolding current_item is_blank
  fail rt error_code = do
    require (now.aware && not (is_blank error_code)) value_error
    item ← current_item claim
    incident ← on_repository (get_incident claim.incident_id)
    (if same_status incident.status collecting
        then (do on_repository (transition rt claim.incident_id collecting failed now); pure tt)
        else require (same_status incident.status failed) invalid_transition)
    modify (
        put_item claim.incident_id
          (record (finish_item item WorkState.failed) { error_code = some error_code }))

module _ (rt : Runtime) (now : DateTime) (max_attempts : ℕ) where
  -- the last branches of the reaper, and the count of the items that it ended
  unfoldable pub reap_by : String → WorkItem → Status → Option WorkState → Work ℕ
  reap_by id item status (some state) = do
    modify (put_item id (record (finish_item item state) { error_code = reap_code status }))
    pure 1
  reap_by id item status none =
      if same_status status collecting && leb max_attempts item.attempt_count
      then (do
        on_repository (transition rt id collecting failed now)
        modify (
            put_item id (record (finish_item item WorkState.failed) {
              error_code = some "LEASE_ATTEMPTS_EXHAUSTED";
            }))
        pure 1)
      else pure 0

  unfoldable pub reap_item : String → WorkItem → Work ℕ
  unfolding reap_by
  reap_item id item =
      if is_running item.state && lease_passed item.lease_expires_at now
      then (do
        incident ← on_repository (get_incident id)
        reap_by id item incident.status (reap_state incident.status))
      else pure 0

  -- the loop of `reap_exhausted`
  unfoldable pub reap_scan : List (String × WorkItem) → Work ℕ
  reap_scan [] = pure 0
  reap_scan ((id, item) ∷ rest) = do
    let others = reap_scan rest
    ended ← reap_item id item
    more ← others
    pure (ended + more)

  unfoldable pub reap_exhausted : Work ℕ
  unfolding reap_scan
  reap_exhausted = do
    require (now.aware && (leb 1 max_attempts && leb max_attempts 10)) value_error
    (λ q. reap_scan q.items q)
