-- ===== src/Documents.antt =====
-- The other documents that the repository keeps, by contracts/schemas: evidence-item, context-package,
-- rca-report and agent-run-audit. Fields that no modelled code reads stand together as `rest`.
use agent_rca.Prelude.{
  String, Option, List, [], ◌∷◌, ◌++◌, map, ℕ_discrete, String_discrete, none, some,
}
use agent_rca.Json.{Fields, Fields-discrete}
use agent_rca.Json.Equality.{compared_fields}
use agent_rca.Incident.{Status, CollectorState, CollectorStatus, CollectorState-discrete}

-- `EvidenceWindow`, and the window of an Evidence item
pub record Span : Type 0 where
  pub start : String
  pub finish : String

pub record Evidence : Type 0 where
  pub evidence_id : String
  pub incident_id : String
  pub source : String
  pub kind : String
  pub observed_at : String
  pub window : Span
  pub subject : Fields
  pub facts : Fields
  pub provenance : Fields
  pub rest : Fields

pub record StatePath : Type 0 where
  pub path_id : String
  pub evidence_ids : List String
  pub rest : Fields

pub record Context : Type 0 where
  pub context_id : String
  pub incident_id : String
  pub frozen_at : String
  pub evidence_ids : List String
  pub recent_change_evidence_ids : List String
  pub state_paths : List StatePath
  pub rest : Fields

pub record RootCause : Type 0 where
  pub supporting_evidence_ids : List String
  pub rest : Fields

pub record Hypothesis : Type 0 where
  pub supporting_evidence_ids : List String
  pub contradicting_evidence_ids : List String
  pub rest : Fields

pub record Report : Type 0 where
  pub report_id : String
  pub incident_id : String
  pub context_id : String
  pub generated_at : String
  pub root_cause : Option RootCause
  pub hypotheses : List Hypothesis
  pub rest : Fields

pub record AgentRun : Type 0 where
  pub agent_run_id : String
  pub incident_id : String
  pub context_id : String
  pub started_at : String
  pub rest : Fields

-- The selection of a supplemental collection, and its checkpoint in the audit trail.
pub record Selection : Type 0 where
  pub services : List String
  pub namespace : String
  pub cluster_id : String
  pub profile_id : String
  pub feature_evidence_ids : List String

pub record Checkpoint : Type 0 where
  pub selection : Selection
  pub window : Span
  pub collector_statuses : List CollectorStatus
  pub evidence_ids : List String

-- `event_type` with its `details`
pub data AuditDetails : Type 0 where
  incident_created : Status → AuditDetails
  status_transitioned : Status → Status → AuditDetails
  collection_completed : List (String × CollectorState) → AuditDetails
  localization_completed : Checkpoint → AuditDetails
  alert_resolved : String → AuditDetails

pub record AuditEvent : Type 0 where
  pub incident_id : String
  pub details : AuditDetails
  pub occurred_at : String

-- The documents as `==` sees them: each object that is passed on unread, as `==` sees it.
abbrev pub compared_evidence : Evidence → Evidence
compared_evidence e = record e {
  subject = compared_fields e.subject;
  facts = compared_fields e.facts;
  provenance = compared_fields e.provenance;
  rest = compared_fields e.rest;
}

abbrev compared_path : StatePath → StatePath
compared_path p = record p { rest = compared_fields p.rest }

abbrev pub compared_context : Context → Context
compared_context c = record c {
  state_paths = map compared_path c.state_paths;
  rest = compared_fields c.rest;
}

abbrev compared_cause : Option RootCause → Option RootCause
compared_cause none = none
compared_cause (some c) = some (record c { rest = compared_fields c.rest })

abbrev compared_hypothesis : Hypothesis → Hypothesis
compared_hypothesis h = record h { rest = compared_fields h.rest }

abbrev pub compared_report : Report → Report
compared_report r = record r {
  root_cause = compared_cause r.root_cause;
  hypotheses = map compared_hypothesis r.hypotheses;
  rest = compared_fields r.rest;
}

abbrev pub compared_run : AgentRun → AgentRun
compared_run a = record a { rest = compared_fields a.rest }

pub Evidence-discrete : Discrete Evidence
Evidence-discrete = hlevel (String_discrete, Fields-discrete)

pub Context-discrete : Discrete Context
Context-discrete = hlevel (String_discrete, Fields-discrete)

pub Report-discrete : Discrete Report
Report-discrete = hlevel (String_discrete, Fields-discrete)

pub AgentRun-discrete : Discrete AgentRun
AgentRun-discrete = hlevel (String_discrete, Fields-discrete)

pub Checkpoint-discrete : Discrete Checkpoint
Checkpoint-discrete = hlevel (String_discrete, ℕ_discrete, CollectorState-discrete)

abbrev pub path_ids : List StatePath → List String
path_ids [] = []
path_ids (p ∷ ps) = p.evidence_ids ++ path_ids ps

-- `context_evidence_ids`: the order and repetitions of the set's elements are those of the document
unfoldable pub context_evidence_ids : Context → List String
context_evidence_ids c = c.evidence_ids ++ (c.recent_change_evidence_ids ++ path_ids c.state_paths)

abbrev pub root_cause_ids : Option RootCause → List String
root_cause_ids none = []
root_cause_ids (some c) = c.supporting_evidence_ids

abbrev pub hypothesis_ids : List Hypothesis → List String
hypothesis_ids [] = []
hypothesis_ids (h ∷ hs) =
    h.supporting_evidence_ids ++ (h.contradicting_evidence_ids ++ hypothesis_ids hs)

-- `report_evidence_ids`
unfoldable pub report_evidence_ids : Report → List String
report_evidence_ids r = root_cause_ids r.root_cause ++ hypothesis_ids r.hypotheses
