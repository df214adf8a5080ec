-- ===== src/Work/Analysis.antt =====
-- `InMemoryIncidentAnalysisWorkRepository` of src/incident_platform/incident_work.py: ANALYZING
-- incidents, each pinned to one Context Package, wait for the Agent. The continuous Agent claims only
-- incidents that opt in by a label and were created after its activation.
pub mod Steps
pub mod Claims
pub mod Scans
use agent_rca.Prelude.{
  ℕ, ◌+◌, String, Bool, true, false, Option, none, some, List, [], ◌∷◌, ◌&&◌, ◌||◌, not, leb,
  if◌then◌else◌, ◌==◌,
}
use agent_rca.Outcome.{
  Result, ok, err, value_error, invalid_transition, pure, lift, modify, require, ◌>>=◌, ◌>>◌,
}
use agent_rca.Outcome.Checked
use agent_rca.Time.{DateTime, after, at_most}
use agent_rca.Text.{is_blank, is_eligibility_label}
use agent_rca.Dict.{lookup}
use agent_rca.Incident.{Status, analyzing, reported, partial, failed, same_status, Incident}
use agent_rca.Runtime.{Runtime}
use agent_rca.Repository.{get_incident, transition}
use agent_rca.Repository.Documents.{get_context}
use agent_rca.Work.{
  WorkItem, WorkState, succeeded, Claim, Work, on_repository, put_item, set_default, new_item,
  validate_claim_request, validate_incident_id, make_analysis_claim, is_ready, is_expired,
  start_item, claim_of, in_order, is_current, finish_item, is_running, lease_passed,
}

unfoldable pub validate_analysis_eligibility : String → DateTime → Result (Unit {0})
validate_analysis_eligibility label activated_at =
    Checked.◌>>◌ (Checked.guard (is_eligibility_label label) value_error)
      (Checked.guard activated_at.aware value_error)

abbrev label_is_true : Option String → Bool
label_is_true none = false
label_is_true (some v) = v == "true"

abbrev created_after : Option DateTime → DateTime → Bool
created_after none activated_at = false
created_after (some created) activated_at = created.aware && at_most activated_at created

-- `incident_is_agent_eligible` after its validation, which every caller has made before
unfoldable pub is_agent_eligible : Runtime → String → DateTime → Incident → Bool
is_agent_eligible rt label activated_at i =
    label_is_true (lookup label i.alert.labels)
    && created_after (rt.parse i.created_at) activated_at

abbrev context_differs : Option WorkItem → String → Bool
context_differs none context_id = false
context_differs (some item) context_id = not (item.context_id == context_id)

unfoldable pub enqueue : String → String → DateTime → Work Unit
unfolding get_context
enqueue id context_id available_at = do
  require available_at.aware value_error
  incident ← on_repository (get_incident id)
  require (same_status incident.status analyzing) invalid_transition
  context ← on_repository (get_context context_id)
  require (context.incident_id == id) invalid_transition
  existing ← (λ q. (ok (lookup id q.items), q))
  require (not (context_differs existing context_id)) invalid_transition
  modify (set_default id (new_item context_id available_at))

abbrev current_or_stale : Claim → Option WorkItem → Result WorkItem
current_or_stale c none = err invalid_transition
current_or_stale c (some item) =
    if item.context_id == c.context_id && is_current c item then ok item else err invalid_transition

-- `_current_item`
unfoldable pub current_item : Claim → Work WorkItem
current_item c q = (current_or_stale c (lookup c.incident_id q.items), q)

module _ (hex worker_id : String) (now : DateTime) (lease_duration max_attempts : ℕ) where
  unfoldable pub start_claim : String → WorkItem → Incident → Work (Option Claim)
  start_claim id item incident = do
    modify (put_item id (start_item item hex worker_id now lease_duration))
    claim ← lift (make_analysis_claim (claim_of id item hex worker_id now lease_duration incident))
    pure (some claim)

  -- `_claim_available`
  unfoldable pub claim_available : String → WorkItem → Work (Option Claim)
  claim_available id item =
      if is_ready item now || is_expired item now max_attempts
      then (do
        incident ← on_repository (get_incident id)
        (if same_status incident.status analyzing then start_claim id item incident else pure none))
      else pure none

  -- `if claim is not None: return claim`, or the rest of the loop
  abbrev pub or_later : Work (Option Claim) → Option Claim → Work (Option Claim)
  or_later later none = later
  or_later later (some claim) = pure (some claim)

  -- the loop of `claim_next`
  unfoldable pub claim_scan : List (String × WorkItem) → Work (Option Claim)
  claim_scan [] = pure none
  claim_scan ((id, item) ∷ rest) = do
    let later = claim_scan rest
    claim ← claim_available id item
    or_later later claim

  unfoldable pub claim_next : Work (Option Claim)
  claim_next = do
    lift (validate_claim_request worker_id now lease_duration max_attempts)
    (λ q. claim_scan (in_order q.items) q)

  abbrev claim_found : String → Option WorkItem → Work (Option Claim)
  claim_found id none = pure none
  claim_found id (some item) = claim_available id item

  unfoldable pub claim_incident : String → Work (Option Claim)
  claim_incident id = do
    lift (validate_incident_id id)
    lift (validate_claim_request worker_id now lease_duration max_attempts)
    item ← (λ q. (ok (lookup id q.items), q))
    claim_found id item

  module _ (rt : Runtime) (label : String) (activated_at : DateTime) where
    -- the loop of `claim_next_eligible`
    unfoldable pub claim_eligible_scan : List (String × WorkItem) → Work (Option Claim)
    claim_eligible_scan [] = pure none
    claim_eligible_scan ((id, item) ∷ rest) = do
      let later = claim_eligible_scan rest
      incident ← on_repository (get_incident id)
      (if is_agent_eligible rt label activated_at incident
          then claim_available id item >>= or_later later
          else later)

    unfoldable pub claim_next_eligible : Work (Option Claim)
    claim_next_eligible = do
      lift (validate_claim_request worker_id now lease_duration max_attempts)
      lift (validate_analysis_eligibility label activated_at)
      (λ q. claim_eligible_scan (in_order q.items) q)

module _ (claim : Claim) (now : DateTime) where
  unfoldable pub renew : ℕ → Work Claim
  unfolding current_item
  renew lease_duration = do
    lift (validate_claim_request claim.worker_id now lease_duration 1)
    item ← current_item claim
    modify (
        put_item claim.incident_id
          (record item { lease_expires_at = some (after now lease_duration) }))
    incident ← on_repository (get_incident claim.incident_id)
    lift (
        make_analysis_claim (record claim {
          lease_expires_at = after now lease_duration;
          attempt_count = item.attempt_count;
          incident = incident;
        }))

  unfoldable pub complete : String → Work Unit
  unfolding current_item
  complete outcome = do
    require (now.aware && outcome == "SUCCEEDED") value_error
    item ← current_item claim
    incident ← on_repository (get_incident claim.incident_id)
    require (same_status incident.status reported) invalid_transition
    modify (put_item claim.incident_id (finish_item item succeeded))

  unfoldable pub fail : Runtime → String → Work Unit
  unfolding current_item is_blank
  fail rt error_code = do
    require (now.aware && not (is_blank error_code)) value_error
    item ← current_item claim
    incident ← on_repository (get_incident claim.incident_id)
    (if same_status incident.status analyzing
        then (do on_repository (transition rt claim.incident_id analyzing failed now); pure tt)
        else require (same_status incident.status failed) invalid_transition)
    modify (
        put_item claim.incident_id
          (record (finish_item item WorkState.failed) { error_code = some error_code }))

-- the first two tests of the reaper
abbrev pub reap_state : Status → Option WorkState
reap_state reported = some succeeded
reap_state partial = some succeeded
reap_state failed = some WorkState.failed
reap_state _ = none

abbrev pub reap_code : Status → Option String
reap_code failed = some "INCIDENT_ALREADY_FAILED"
reap_code _ = none

-- `eligibility_label is None or incident_is_agent_eligible(...)`, over the label and the activation time
abbrev pub may_reap : Runtime → Option (String × DateTime) → Incident → Bool
may_reap rt none i = true
may_reap rt (some (label, activated_at)) i = is_agent_eligible rt label activated_at i

module _ (rt : Runtime) (now : DateTime) (max_attempts : ℕ) where
  unfoldable pub reap_by : String → WorkItem → Status → Option WorkState → Work ℕ
  reap_by id item status (some state) = do
    modify (put_item id (record (finish_item item state) { error_code = reap_code status }))
    pure 1
  reap_by id item status none =
      if same_status status analyzing && leb max_attempts item.attempt_count
      then (do
        on_repository (transition rt id analyzing failed now)
        modify (
            put_item id (record (finish_item item WorkState.failed) {
              error_code = some "LEASE_ATTEMPTS_EXHAUSTED";
            }))
        pure 1)
      else pure 0

  module _ (eligible : Option (String × DateTime)) where
    unfoldable pub reap_item : String → WorkItem → Work ℕ
    unfolding reap_by
    reap_item id item =
        if is_running item.state && lease_passed item.lease_expires_at now
        then (do
          incident ← on_repository (get_incident id)
          (if may_reap rt eligible incident
              then reap_by id item incident.status (reap_state incident.status)
              else pure 0))
        else pure 0

    -- the loop of `_reap_exhausted`
    unfoldable pub reap_scan : List (String × WorkItem) → Work ℕ
    reap_scan [] = pure 0
    reap_scan ((id, item) ∷ rest) = do
      let others = reap_scan rest
      ended ← reap_item id item
      more ← others
      pure (ended + more)

    -- `_reap_exhausted`
    unfoldable pub reap_selected : Work ℕ
    reap_selected = do
      require (now.aware && (leb 1 max_attempts && leb max_attempts 10)) value_error
      (λ q. reap_scan q.items q)

  unfoldable pub reap_exhausted : Work ℕ
  reap_exhausted = reap_selected none

  unfoldable pub reap_exhausted_eligible : String → DateTime → Work ℕ
  reap_exhausted_eligible label activated_at = do
    lift (validate_analysis_eligibility label activated_at)
    reap_selected (some (label, activated_at))
