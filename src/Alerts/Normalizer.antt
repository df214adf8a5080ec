-- ===== src/Alerts/Normalizer.antt =====
-- `normalize` and `_normalize_one` of src/incident_platform/incidents.py.
use agent_rca.Prelude.{ℕ, String, Option, none, some, List, [], ◌∷◌}
use agent_rca.Outcome.{Result, ok, err, invalid_alert, contract_violation}
use agent_rca.Outcome.Checked.{guard, ◌>>=◌, ◌>>◌}
use agent_rca.Time.{DateTime}
use agent_rca.Json.{Json, arr, obj, Fields, Items, nil, cons, get}
use agent_rca.Dict.{Dict}
use agent_rca.Incident.{Severity, Incident, KubernetesEntity, kubernetes, received}
use agent_rca.Runtime.{Runtime}
use agent_rca.Alerts.{
  AlertStatus, read_status, string_map, or_object, required_label, read_severity, read_fingerprint,
  source_entity, back, parse_alert_time, format_alert_time, format_end, resolve_end_time,
  incident_identity,
}

pub record NormalizedAlert : Type 0 where
  pub incident : Incident
  pub alert_status : AlertStatus

-- the local variables of `_normalize_one` up to the fingerprint
pub record Header : Type 0 where
  pub alert_status : AlertStatus
  pub labels : Dict String
  pub annotations : Dict String
  pub alert_name : String
  pub namespace : String
  pub severity : Severity
  pub fingerprint : String

-- those that follow, all of which come from the alert
pub record Reading : Type 0 where
  pub header : Header
  pub starts_at : DateTime
  pub ends_at : Option DateTime
  pub source : KubernetesEntity
  pub deduplication_key : String
  pub incident_id : String

unfoldable pub read_header : Fields → Result Header
read_header alert = do
  alert_status ← read_status (get "status" alert)
  labels ← string_map (get "labels" alert)
  annotations ← string_map (or_object (get "annotations" alert))
  alert_name ← required_label labels "alertname"
  namespace ← required_label labels "namespace"
  severity_name ← required_label labels "severity"
  severity ← read_severity severity_name
  fingerprint ← read_fingerprint (get "fingerprint" alert)
  ok (record {
    alert_status = alert_status;
    labels = labels;
    annotations = annotations;
    alert_name = alert_name;
    namespace = namespace;
    severity = severity;
    fingerprint = fingerprint;
  })

abbrev pub incident_of : Reading → String → String → Option String → String → Incident
incident_of alert incident_start baseline_start incident_end timestamp = record {
  schema_version = "1.0.0";
  incident_id = alert.incident_id;
  deduplication_key = alert.deduplication_key;
  status = received;
  severity = alert.header.severity;
  source = "alertmanager";
  triggered_at = incident_start;
  window = record {
    baseline_start = baseline_start;
    incident_start = incident_start;
    incident_end = incident_end;
    recovery_end = none;
  };
  alert = record {
    fingerprint = alert.header.fingerprint;
    name = alert.header.alert_name;
    labels = alert.header.labels;
    annotations = alert.header.annotations;
  };
  source_entity = kubernetes alert.source;
  collector_statuses = [];
  created_at = timestamp;
  updated_at = timestamp;
}

-- `alerts`, a list that is not empty
abbrev pub alert_list : Option Json → Result Items
alert_list (some (arr (cons alert alerts))) = ok (cons alert alerts)
alert_list _ = err invalid_alert

module _ (rt : Runtime) where
  unfoldable pub read_alert : Fields → Result Reading
  read_alert alert = do
    header ← read_header alert
    starts_at ← parse_alert_time rt (get "startsAt" alert)
    ends_at ← resolve_end_time rt alert header.alert_status starts_at
    source ← source_entity header.labels header.namespace
    identity ← incident_identity rt header.fingerprint starts_at header.alert_name source
    ok (record {
      header = header;
      starts_at = starts_at;
      ends_at = ends_at;
      source = source;
      deduplication_key = identity.0;
      incident_id = identity.1;
    })

  -- from the line that formats `received_at`
  unfoldable pub build_incident : ℕ → Reading → DateTime → Result Incident
  build_incident baseline_duration alert now = do
    timestamp ← format_alert_time rt now
    incident_start ← format_alert_time rt alert.starts_at
    baseline ← back alert.starts_at baseline_duration
    baseline_start ← format_alert_time rt baseline
    incident_end ← format_end rt alert.ends_at
    let incident = incident_of alert incident_start baseline_start incident_end timestamp
    guard (rt.valid_incident incident) contract_violation
    ok incident

  unfoldable pub normalize_one : ℕ → Json → DateTime → Result NormalizedAlert
  normalize_one baseline_duration (obj alert) now = do
    reading ← read_alert alert
    incident ← build_incident baseline_duration reading now
    ok (record { incident = incident; alert_status = reading.header.alert_status })
  normalize_one baseline_duration _ now = err invalid_alert

  unfoldable pub normalize_each : ℕ → Items → DateTime → Result (List NormalizedAlert)
  normalize_each baseline_duration nil now = ok []
  normalize_each baseline_duration (cons alert alerts) now = do
    first ← normalize_one baseline_duration alert now
    rest ← normalize_each baseline_duration alerts now
    ok (first ∷ rest)

  unfoldable pub normalize : ℕ → Json → DateTime → Result (List NormalizedAlert)
  normalize baseline_duration (obj payload) now = do
    alerts ← alert_list (get "alerts" payload)
    guard now.aware invalid_alert
    normalize_each baseline_duration alerts now
  normalize baseline_duration _ now = err invalid_alert
