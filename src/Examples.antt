-- ===== src/Examples.antt =====
-- Concrete inputs for the modules below, which run the definitions and instantiate the theorems.
mod Alerts
mod Lifecycle
mod Collection
mod Queues
mod Gate
mod Queries
mod Tools
mod Deterministic
mod FastPath
mod StateGraph
use agent_rca.Prelude.{ℕ, String, Bool, true, false, Option, none, some, List, [], ◌∷◌}
use agent_rca.Time.{DateTime}
use agent_rca.Json.{Fields, field, end, text}
use agent_rca.Incident.{
  Status, received, collecting, localizing, analyzing, failed, warning, Incident, kubernetes,
  CollectorStatus, CollectorState,
}
use agent_rca.Documents.{Evidence, Context, Report, Selection, Span}
use agent_rca.Runtime.{Runtime}
use agent_rca.Repository.Calls.{Call, create, move, gather, freeze, publish}

-- One clock reading for every text, and a validator that accepts everything.
abbrev pub noon : DateTime
noon = record { instant = 43200000000; aware = true }

abbrev naive : DateTime
naive = record { instant = 43200000000; aware = false }

abbrev pub sample : Runtime
sample = record {
  render = λ n. "2026-08-24T12:00:00Z";
  parse = λ s. some noon;
  redact_text = λ s. s;
  decimal_at_least = λ s n. false;
  decimal_is_zero = λ s. false;
  casefold = λ s. s;
  digest = λ j. "0123456789abcdef0123456789abcdef";
  valid_incident = λ i. true;
  valid_evidence = λ e. true;
  valid_context = λ c. true;
  valid_report = λ p. true;
  valid_agent_run = λ a. true;
}

abbrev pub checkout : Incident
checkout = record {
  schema_version = "1.0.0";
  incident_id = "inc-checkout";
  deduplication_key = "alertmanager:checkout";
  status = received;
  severity = warning;
  source = "alertmanager";
  triggered_at = "2026-08-24T11:55:00Z";
  window = record {
    baseline_start = "2026-08-24T11:25:00Z";
    incident_start = "2026-08-24T11:55:00Z";
    incident_end = none;
    recovery_end = none;
  };
  alert = record { fingerprint = "f"; name = "CheckoutErrors"; labels = []; annotations = [] };
  source_entity = kubernetes (record {
    cluster_id = none;
    api_version = some "v1";
    kind = "Service";
    namespace = some "shop";
    name = "checkout";
    uid = none;
    exists = true;
  });
  collector_statuses = [];
  created_at = "2026-08-24T12:00:00Z";
  updated_at = "2026-08-24T12:00:00Z";
}

abbrev pub restart : Evidence
restart = record {
  evidence_id = "ev-restart";
  incident_id = "inc-checkout";
  source = "kubernetes";
  kind = "event";
  observed_at = "2026-08-24T11:56:00Z";
  window = record { start = "2026-08-24T11:55:00Z"; finish = "2026-08-24T12:00:00Z" };
  subject =
      field "cluster_id" (text "c1")
        (field "namespace" (text "shop") (field "name" (text "payment") end));
  facts = end;
  provenance = end;
  rest = end;
}

abbrev pub package_one : Context
package_one = record {
  context_id = "ctx-checkout";
  incident_id = "inc-checkout";
  frozen_at = "2026-08-24T12:00:00Z";
  evidence_ids = "ev-restart" ∷ [];
  recent_change_evidence_ids = [];
  state_paths = [];
  rest = end;
}

abbrev pub verdict : Report
verdict = record {
  report_id = "rep-checkout";
  incident_id = "inc-checkout";
  context_id = "ctx-checkout";
  generated_at = "2026-08-24T12:00:00Z";
  root_cause = some (record { supporting_evidence_ids = "ev-restart" ∷ []; rest = end });
  hypotheses = [];
  rest = end;
}

abbrev opening : List Call
opening = create checkout noon ∷ move "inc-checkout" received collecting noon ∷ []

abbrev story : List Call
story =
    create checkout noon
    ∷ gather "inc-checkout" (restart ∷ [])
    ∷ freeze package_one
    ∷ publish verdict "# Report"
    ∷ move "inc-checkout" received failed noon
    ∷ []

abbrev moved_to : Status → Incident
moved_to s = record checkout { status = s }
