-- ===== src/Alerts.antt =====
-- `AlertmanagerNormalizer` of src/incident_platform/incidents.py: alerts of a webhook, as JSON, become
-- incidents. The keys of a JSON object are texts, and distinct. `now` is `received_at`, or the clock's
-- reading where that argument is left out.
pub mod Normalizer
pub mod Accepted
pub mod Window
pub mod Identity
use Prim.Native.String.{◌++◌ as text_append}
use agent_rca.Prelude.{
  ℕ, String, Bool, true, false, Option, none, some, List, [], ◌∷◌, ◌-◌, ◌==◌, leb, ltb, not,
  if◌then◌else◌,
}
use agent_rca.Outcome.{
  Result, ok, err, invalid_alert, type_error, value_error, overflow_error, contract_violation,
}
use agent_rca.Outcome.Checked.{guard, ◌>>=◌, ◌>>◌}
use agent_rca.Time.{DateTime, at_most}
use agent_rca.Text.{strip, text_take, is_blank, is_empty}
use agent_rca.Json.{Json, null, text, arr, obj, Fields, end, field, Items, nil, cons, get}
use agent_rca.Dict.{Dict, lookup, insert}
use agent_rca.Incident.{
  Severity, info, warning, critical, Incident, KubernetesEntity, kubernetes, received,
}
use agent_rca.Runtime.{Runtime}

pub data AlertStatus : Type 0 where
  firing resolved : AlertStatus

-- `alert_status not in {"firing", "resolved"}`, which hashes the value: a list or an object cannot be
-- hashed
unfoldable pub read_status : Option Json → Result AlertStatus
read_status (some (text s)) =
    if s == "firing" then ok firing else if s == "resolved" then ok resolved else err invalid_alert
read_status (some (arr _)) = err type_error
read_status (some (obj _)) = err type_error
read_status _ = err invalid_alert

-- the loop of `_string_map`
unfoldable pub string_fields : Fields → Dict String → Result (Dict String)
string_fields end result = ok result
string_fields (field key (text item) rest) result = string_fields rest (insert key item result)
string_fields (field key _ rest) result = err invalid_alert

unfoldable pub string_map : Option Json → Result (Dict String)
string_map (some (obj fields)) = string_fields fields []
string_map _ = err invalid_alert

-- `get(key, {})`
abbrev or_object : Option Json → Option Json
or_object none = some (obj end)
or_object (some j) = some j

-- `get(name, "").strip()`
abbrev pub label : Dict String → String → String
unfolding lookup strip
label labels name = elim (lookup name labels) [ none ↦ "" | some value ↦ strip value ]

unfoldable pub required_label : Dict String → String → Result String
required_label labels name = do
  guard (not (is_empty (label labels name))) invalid_alert
  ok (label labels name)

-- `severity not in SUPPORTED_SEVERITIES`
unfoldable pub read_severity : String → Result Severity
read_severity s =
    if s == "info"
    then ok info
    else if s == "warning"
    then ok warning
    else if s == "critical"
    then ok critical
    else err invalid_alert

abbrev pub read_fingerprint : Option Json → Result String
unfolding is_blank
read_fingerprint (some (text s)) = do guard (not (is_blank s)) invalid_alert; ok s
read_fingerprint _ = err invalid_alert

-- `_source_entity`, over the rows of `RESOURCE_LABELS`
abbrev pub entity : String → String → String → String → KubernetesEntity
entity kind api_version namespace name = record {
  cluster_id = none;
  api_version = some api_version;
  kind = kind;
  namespace = some namespace;
  name = name;
  uid = none;
  exists = true;
}

abbrev pub resource_labels : List (String × String × String)
resource_labels =
    ("pod", "Pod", "v1")
    ∷ ("deployment", "Deployment", "apps/v1")
    ∷ ("statefulset", "StatefulSet", "apps/v1")
    ∷ ("daemonset", "DaemonSet", "apps/v1")
    ∷ ("service", "Service", "v1")
    ∷ []

unfoldable pub first_resource :
    List (String × String × String) → Dict String → String → Result KubernetesEntity
first_resource [] labels namespace = err invalid_alert
first_resource ((name, kind, api_version) ∷ rows) labels namespace =
    let rest = first_resource rows labels namespace in
    if is_empty (label labels name)
    then rest
    else ok (entity kind api_version namespace (label labels name))

unfoldable pub source_entity : Dict String → String → Result KubernetesEntity
source_entity = first_resource resource_labels

-- `__init__`; a duration of the model is not negative
unfoldable pub make_normalizer : ℕ → Result ℕ
make_normalizer baseline_duration = do
  guard (ltb 0 baseline_duration) value_error
  ok baseline_duration

-- `t - duration`, which raises before year 1
unfoldable pub back : DateTime → ℕ → Result DateTime
back t duration = do
  guard (leb duration t.instant) overflow_error
  ok (record t { instant = t.instant - duration })

abbrev or_null : Option String → Json
or_null none = null
or_null (some s) = text s

module _ (rt : Runtime) where
  unfoldable pub parse_alert_time : Option Json → Result DateTime
  unfolding is_blank
  parse_alert_time (some (text s)) = do
    guard (not (is_blank s)) invalid_alert
    elim (rt.parse s) [ none ↦ err invalid_alert | some t ↦ guard t.aware invalid_alert >> ok t ]
  parse_alert_time _ = err invalid_alert

  unfoldable pub format_alert_time : DateTime → Result String
  format_alert_time t = do guard t.aware invalid_alert; ok (rt.render t.instant)

  unfoldable pub format_end : Option DateTime → Result (Option String)
  format_end none = ok none
  format_end (some t) = do stamp ← format_alert_time t; ok (some stamp)

  unfoldable pub resolve_end_time : Fields → AlertStatus → DateTime → Result (Option DateTime)
  resolve_end_time alert firing starts_at = ok none
  resolve_end_time alert resolved starts_at = do
    ends_at ← parse_alert_time (get "endsAt" alert)
    guard (at_most starts_at ends_at) invalid_alert
    ok (some ends_at)

  -- the deduplication key and the incident's id
  unfoldable pub incident_identity :
      String → DateTime → String → KubernetesEntity → Result (String × String)
  incident_identity fingerprint starts_at alert_name source = do
    stamp ← format_alert_time starts_at
    let digest = rt.digest (
        arr (
          cons (text "alertmanager") (
            cons (text fingerprint) (
              cons (text stamp) (
                cons (text alert_name) (
                  cons (text source.kind)
                    (cons (or_null source.namespace) (cons (text source.name) nil))))))))
    ok (text_append "alertmanager:sha256:" digest, text_append "inc-" (text_take 24 digest))
