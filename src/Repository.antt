-- ===== src/Repository.antt =====
-- The in-memory Incident repository of src/incident_platform/repository.py. A method takes the state
-- and gives its result or exception beside the state that it leaves. The lock is held through each
-- method, so a method is one step; `copy.deepcopy` has no effect on values. `now` is `occurred_at`,
-- or the clock's reading where that argument is left out.
pub mod Documents
pub mod Queries
pub mod Step
pub mod Transitions
pub mod Updates
pub mod Creation
pub mod Storing
pub mod Localization
pub mod Supplement
pub mod Calls
pub mod Lifecycle
use agent_rca.Prelude.{
  ℕ, String, ◌≡◌, Bool, true, false, Option, none, some, List, [], ◌∷◌, ◌++◌, map, ◌==◌, ◌&&◌, ◌||◌,
  if◌then◌else◌, subset, unique, any, not, holds,
}
use agent_rca.Outcome.{
  Error, Result, ok, err, invalid_transition, contract_violation, key_error, Method, pure, raise,
  lift, modify, require, proceed, ◌>>=◌, ◌>>◌,
}
use agent_rca.Time.{DateTime}
use agent_rca.Dict.{Dict, lookup, insert, keys, values, has, is_some}
use agent_rca.Incident.{
  Status, received, collecting, Incident, CollectorStatus, CollectorState, same_status, allowed,
}
use agent_rca.Documents.{
  Evidence, Context, Report, AgentRun, AuditEvent, AuditDetails, incident_created,
  status_transitioned, collection_completed, alert_resolved, Evidence-discrete, Context-discrete,
  Report-discrete, AgentRun-discrete, context_evidence_ids, report_evidence_ids,
}
use agent_rca.Runtime.{Runtime, format_time}

pub record Repository : Type 0 where
  pub incidents : Dict Incident
  pub incident_id_by_deduplication_key : Dict String
  pub audit_events : Dict (List AuditEvent)
  pub evidence_by_incident : Dict (Dict Evidence)
  pub contexts : Dict Context
  pub reports : Dict Report
  pub report_markdown : Dict String
  pub agent_runs : Dict AgentRun

abbrev pub Repo : Type 0 → Type 0
Repo = Method Repository

unfoldable pub empty : Repository
empty = record {
  incidents = [];
  incident_id_by_deduplication_key = [];
  audit_events = [];
  evidence_by_incident = [];
  contexts = [];
  reports = [];
  report_markdown = [];
  agent_runs = [];
}

-- `d[key]`, with the exception of a missing key
abbrev pub found {ℓ} : {A : Type ℓ} → Option A → Error → Result A
found none e = err e
found (some a) e = ok a

-- `d[key]` of a dict that the method has already filled at the key
abbrev pub rows {ℓ} : {A : Type ℓ} → Option (List A) → List A
rows none = []
rows (some xs) = xs

unfoldable pub require_incident : String → Repo Incident
require_incident id r = (found (lookup id r.incidents) key_error, r)

-- `get`
unfoldable pub get_incident : String → Repo Incident
unfolding require_incident
get_incident id = require_incident id

abbrev pub audit_of : String → Repository → List AuditEvent
audit_of id r = rows (lookup id r.audit_events)

abbrev pub push_audit : String → AuditEvent → Repository → Repository
push_audit id e r = record r { audit_events = insert id (audit_of id r ++ e ∷ []) r.audit_events }

abbrev pub put_incident : String → Incident → Repository → Repository
put_incident id i r = record r { incidents = insert id i r.incidents }

abbrev pub evidence_of : String → Repository → Dict Evidence
evidence_of id r = rows (lookup id r.evidence_by_incident)

-- the rows that `create_or_get_by_deduplication_key` writes before the audit event
abbrev pub admit : Incident → Repository → Repository
admit candidate r =
    let id = candidate.incident_id in
    record r {
      incidents = insert id candidate r.incidents;
      incident_id_by_deduplication_key =
          insert candidate.deduplication_key id r.incident_id_by_deduplication_key;
      audit_events = insert id [] r.audit_events;
      evidence_by_incident = insert id [] r.evidence_by_incident;
    }

module _ (rt : Runtime) where
  -- `_append_audit_event_locked`
  unfoldable pub append_audit_event : String → AuditDetails → DateTime → Repo Unit
  unfolding format_time
  append_audit_event id details now = do
    stamp ← lift (format_time rt now)
    modify (push_audit id (record { incident_id = id; details = details; occurred_at = stamp }))

  -- the branch on `existing_id`; the flag of the result is `created`
  unfoldable pub create_or_get : Incident → DateTime → Option String → Repo (Incident × Bool)
  unfolding require_incident append_audit_event
  create_or_get candidate now (some existing_id) = do
    stored ← require_incident existing_id
    pure (stored, false)
  create_or_get candidate now none = do
    clash ← (λ r. (ok (has candidate.incident_id r.incidents), r))
    require (not clash) invalid_transition
    modify (admit candidate)
    append_audit_event candidate.incident_id (incident_created candidate.status) now
    pure (candidate, true)

  unfoldable pub create_or_get_by_deduplication_key : Incident → DateTime → Repo (Incident × Bool)
  unfolding create_or_get
  create_or_get_by_deduplication_key candidate now = do
    require (rt.valid_incident candidate) contract_violation
    existing_id ←
        (λ r. (ok (lookup candidate.deduplication_key r.incident_id_by_deduplication_key), r))
    create_or_get candidate now existing_id

  unfoldable pub transition : String → Status → Status → DateTime → Repo Incident
  unfolding require_incident append_audit_event format_time
  transition id expected_status next_status now = do
    incident ← require_incident id
    require (same_status incident.status expected_status) invalid_transition
    require (allowed incident.status next_status) invalid_transition
    stamp ← lift (format_time rt now)
    let updated = record incident { status = next_status; updated_at = stamp }
    require (rt.valid_incident updated) contract_violation
    modify (put_incident id updated)
    append_audit_event id (status_transitioned incident.status next_status) now
    pure updated

  abbrev outcomes : List CollectorStatus → List (String × CollectorState)
  outcomes = map (λ s. (s.collector, s.status))

  unfoldable pub replace_collector_statuses :
      String → List CollectorStatus → DateTime → Repo Incident
  unfolding require_incident append_audit_event format_time
  replace_collector_statuses id statuses now = do
    require (unique (map (λ s. s.collector) statuses)) invalid_transition
    incident ← require_incident id
    require (same_status incident.status collecting) invalid_transition
    stamp ← lift (format_time rt now)
    let updated = record incident { collector_statuses = statuses; updated_at = stamp }
    require (rt.valid_incident updated) contract_violation
    modify (put_incident id updated)
    append_audit_event id (collection_completed (outcomes statuses)) now
    pure updated

  abbrev pub same_end : Option String → String → Bool
  same_end none e = true
  same_end (some previous) e = previous == e

  unfoldable pub record_alert_resolution : String → String → DateTime → Repo Incident
  unfolding require_incident append_audit_event format_time
  record_alert_resolution id incident_end now = do
    incident ← require_incident id
    require (same_end incident.window.incident_end incident_end) invalid_transition
    stamp ← lift (format_time rt now)
    let updated = record incident {
      window = record incident.window { incident_end = some incident_end };
      updated_at = stamp;
    }
    require (rt.valid_incident updated) contract_violation
    modify (put_incident id updated)
    (if is_some incident.window.incident_end
        then pure tt
        else append_audit_event id (alert_resolved incident_end) now)
    pure updated
