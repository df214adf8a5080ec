-- ===== src/Work/Localization.antt =====
-- `InMemoryIncidentLocalizationWorkRepository` of src/incident_platform/incident_work.py: LOCALIZING
-- incidents wait for their localization.
pub mod Steps
pub mod Claims
pub mod Scans
use agent_rca.Prelude.{
  ℕ, ◌+◌, String, Option, none, some, List, [], ◌∷◌, ◌&&◌, ◌||◌, not, leb, if◌then◌else◌, ◌==◌,
}
use agent_rca.Outcome.{value_error, invalid_transition, pure, lift, modify, require, ◌>>=◌, ◌>>◌}
use agent_rca.Time.{DateTime, after}
use agent_rca.Text.{is_blank}
use agent_rca.Incident.{
  Status, localizing, analyzing, failed, same_status, Incident, CollectorStatus,
}
use agent_rca.Documents.{Evidence, Selection, Span, Checkpoint}
use agent_rca.Runtime.{Runtime}
use agent_rca.Repository.{get_incident, transition}
use agent_rca.Repository.Localization.{store_localization_collection}
use agent_rca.Work.{
  WorkItem, WorkState, succeeded, Claim, Work, on_repository, put_item, set_default, new_item,
  validate_claim_request, make_claim, is_ready, is_expired, start_item, claim_of, in_order,
  current_item, finish_item, is_running, lease_passed,
}

unfoldable pub enqueue : String → DateTime → Work Unit
enqueue id available_at = do
  require available_at.aware value_error
  incident ← on_repository (get_incident id)
  require (same_status incident.status localizing) invalid_transition
  modify (set_default id (new_item "" available_at))

module _ (hex worker_id : String) (now : DateTime) (lease_duration max_attempts : ℕ) where
  unfoldable pub start_claim : String → WorkItem → Incident → Work (Option Claim)
  start_claim id item incident = do
    modify (put_item id (start_item item hex worker_id now lease_duration))
    claim ← lift (make_claim (claim_of id item hex worker_id now lease_duration incident))
    pure (some claim)

  -- the loop of `claim_next`: items whose incident is not LOCALIZING are passed over
  unfoldable pub claim_scan : List (String × WorkItem) → Work (Option Claim)
  claim_scan [] = pure none
  claim_scan ((id, item) ∷ rest) =
      let later = claim_scan rest in
      if is_ready item now || is_expired item now max_attempts
      then (do
        incident ← on_repository (get_incident id)
        (if same_status incident.status localizing then start_claim id item incident else later))
      else later

  unfoldable pub claim_next : Work (Option Claim)
  claim_next = do
    lift (validate_claim_request worker_id now lease_duration max_attempts)
    (λ q. claim_scan (in_order q.items) q)

module _ (claim : Claim) (now : DateTime) where
  unfoldable pub store_collection :
      Runtime → Selection → Span → List CollectorStatus → List Evidence → Work Checkpoint
  unfolding current_item
  store_collection rt selection window statuses items = do
    item ← current_item claim
    require (now.aware && not (lease_passed item.lease_expires_at now)) invalid_transition
    on_repository
        (store_localization_collection rt claim.incident_id selection window statuses items now)

  unfoldable pub renew : ℕ → Work Claim
  unfolding current_item
  renew lease_duration = do
    lift (validate_claim_request claim.worker_id now lease_duration 1)
    item ← current_item claim
    modify (
        put_item claim.incident_id
          (record item { lease_expires_at = some (after now lease_duration) }))
    incident ← on_repository (get_incident claim.incident_id)
    lift (
        make_claim (record claim {
          lease_expires_at = after now lease_duration;
          attempt_count = item.attempt_count;
          incident = incident;
        }))

  unfoldable pub complete : String → Work Unit
  unfolding current_item
  complete outcome = do
    require (now.aware && outcome == "SUCCEEDED") value_error
    item ← current_item claim
    incident ← on_repository (get_incident claim.incident_id)
    require (same_status incident.status analyzing) invalid_transition
    modify (put_item claim.incident_id (finish_item item succeeded))

  unfoldable pub fail : Runtime → String → Work Unit
  unfolding current_item is_blank
  fail rt error_code = do
    require (now.aware && not (is_blank error_code)) value_error
    item ← current_item claim
    incident ← on_repository (get_incident claim.incident_id)
    (if same_status incident.status localizing
        then (do on_repository (transition rt claim.incident_id localizing failed now); pure tt)
        else require (same_status incident.status failed) invalid_transition)
    modify (
        put_item claim.incident_id
          (record (finish_item item WorkState.failed) { error_code = some error_code }))

-- the first two tests of the reaper
abbrev pub reap_state : Status → Option WorkState
reap_state analyzing = some succeeded
reap_state failed = some WorkState.failed
reap_state _ = none

abbrev pub reap_code : Status → Option String
reap_code failed = some "INCIDENT_ALREADY_FAILED"
reap_code _ = none

module _ (rt : Runtime) (now : DateTime) (max_attempts : ℕ) where
  unfoldable pub reap_by : String → WorkItem → Status → Option WorkState → Work ℕ
  reap_by id item status (some state) = do
    modify (put_item id (record (finish_item item state) { error_code = reap_code status }))
    pure 1
  reap_by id item status none =
      if same_status status localizing && leb max_attempts item.attempt_count
      then (do
        on_repository (transition rt id localizing failed now)
        modify (
            put_item id (record (finish_item item WorkState.failed) {
              error_code = some "LEASE_ATTEMPTS_EXHAUSTED";
            }))
        pure 1)
      else pure 0

  unfoldable pub reap_item : String → WorkItem → Work ℕ
  unfolding reap_by
  reap_item id item =
      if is_running item.state && lease_passed item.lease_expires_at now
      then (do
        incident ← on_repository (get_incident id)
        reap_by id item incident.status (reap_state incident.status))
      else pure 0

  -- the loop of `reap_exhausted`
  unfoldable pub reap_scan : List (String × WorkItem) → Work ℕ
  reap_scan [] = pure 0
  reap_scan ((id, item) ∷ rest) = do
    let others = reap_scan rest
    ended ← reap_item id item
    more ← others
    pure (ended + more)

  unfoldable pub reap_exhausted : Work ℕ
  unfolding reap_scan
  reap_exhausted = do
    require (now.aware && (leb 1 max_attempts && leb max_attempts 10)) value_error
    (λ q. reap_scan q.items q)
