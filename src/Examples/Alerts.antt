-- ===== src/Examples/Alerts.antt =====
-- A webhook with one firing alert, and the theorems on normalisation and ingestion at it.
use agent_rca.Prelude.{ℕ, ◌≡◌, refl, false, true, none, List, [], ◌∷◌, All, map, String_discrete}
use agent_rca.Outcome.{ok, err, invalid_alert}
use agent_rca.Json.{Json, text, arr, obj, Fields, field, end, cons, nil, get}
use agent_rca.Text.{strip, text_take, is_blank, is_space}
use agent_rca.Dict.{lookup, insert}
use agent_rca.Incident.{Incident}
use agent_rca.Alerts.{
  firing, read_status, string_map, string_fields, required_label, read_severity, first_resource,
  source_entity, back, parse_alert_time, format_alert_time, format_end, resolve_end_time,
  incident_identity,
}
use agent_rca.Alerts.Normalizer.{
  NormalizedAlert, read_header, read_alert, build_incident, normalize_one, normalize_each,
  normalize,
}
use agent_rca.Alerts.Window.{IsOpened, normalize-AreOpened}
use agent_rca.Alerts.Identity.{undated, normalize_later}
use agent_rca.Repository.{empty, create_or_get_by_deduplication_key}
use agent_rca.Repository.Step.{Steps}
use agent_rca.Repository.Step.Index.{empty-IsIndexed}
use agent_rca.Ingestion.{IngestionResult, ingest_one, ingest_each, ingest, resolve_known}
use agent_rca.Ingestion.Writes.{ingest-Steps, ingest_valid}
use agent_rca.Ingestion.Again.{ingest_again}
use agent_rca.Examples.{noon, sample, checkout}

abbrev half_hour : ℕ
half_hour = 1800000000

abbrev labels : Fields
labels = field "alertname" (text "CheckoutErrors") (
    field "namespace" (text "shop") (
      field "severity" (text " warning ")
        (field "pod" (text " ") (field "service" (text "checkout") end))))

abbrev alert : Fields
alert = field "status" (text "firing") (
    field "labels" (obj labels)
      (field "fingerprint" (text "f") (field "startsAt" (text "2026-08-24T12:00:00Z") end)))

abbrev webhook : Json
webhook = obj (field "alerts" (arr (cons (obj alert) nil)) end)

abbrev opened : Incident
opened = record checkout {
  incident_id = "inc-0123456789abcdef01234567";
  deduplication_key = "alertmanager:sha256:0123456789abcdef0123456789abcdef";
  triggered_at = "2026-08-24T12:00:00Z";
  window = record {
    baseline_start = "2026-08-24T12:00:00Z";
    incident_start = "2026-08-24T12:00:00Z";
    incident_end = none;
    recovery_end = none;
  };
  alert = record {
    fingerprint = "f";
    name = "CheckoutErrors";
    labels =
        ("alertname", "CheckoutErrors")
        ∷ ("namespace", "shop")
        ∷ ("severity", " warning ")
        ∷ ("pod", " ")
        ∷ ("service", "checkout")
        ∷ [];
    annotations = [];
  };
}

abbrev alerts : List NormalizedAlert
alerts = record { incident = opened; alert_status = firing } ∷ []

normalize_result : normalize sample half_hour webhook noon ≡ ok alerts
unfolding normalize normalize_each normalize_one read_alert read_header build_incident read_status
    string_map string_fields required_label read_severity first_resource source_entity back
    parse_alert_time format_alert_time format_end resolve_end_time incident_identity strip text_take
    is_blank is_space get lookup insert String_discrete
normalize_result = refl

normalize-AreOpened_example : All (IsOpened sample half_hour noon) alerts
normalize-AreOpened_example =
    normalize-AreOpened sample half_hour noon webhook alerts normalize_result

normalize_later_example : map undated alerts ≡ map undated alerts
normalize_later_example =
    normalize_later sample half_hour noon noon webhook alerts alerts normalize_result
      normalize_result

-- the second alert of the list is not an object
abbrev mixed : Json
mixed = obj (field "alerts" (arr (cons (obj alert) (cons (text "alert") nil))) end)

mixed_result : normalize sample half_hour mixed noon ≡ err invalid_alert
unfolding normalize normalize_each normalize_one read_alert read_header build_incident read_status
    string_map string_fields required_label read_severity first_resource source_entity back
    parse_alert_time format_alert_time format_end resolve_end_time incident_identity strip text_take
    is_blank is_space get lookup insert String_discrete
mixed_result = refl

ingest-Steps_example : Steps empty (ingest sample half_hour webhook noon empty).1
ingest-Steps_example = ingest-Steps sample noon half_hour webhook empty

abbrev results : List IngestionResult
results = record { incident = opened; created = true; alert_status = firing } ∷ []

each_result : (ingest_each sample alerts noon empty).0 ≡ ok results
unfolding ingest_each ingest_one resolve_known create_or_get_by_deduplication_key empty lookup
    insert
each_result = refl

ingest_result : (ingest sample half_hour webhook noon empty).0 ≡ ok results
ingest_result =
    rw (ingest_valid sample noon half_hour webhook empty alerts normalize_result) each_result

ingest_again_example :
    (ys : List IngestionResult) × (ingest sample half_hour webhook noon
        (ingest sample half_hour webhook noon empty).1
      ≡ (ok ys, (ingest sample half_hour webhook noon empty).1))
    × All (λ y. y.created ≡ false) ys
ingest_again_example =
    ingest_again sample half_hour webhook noon noon empty results alerts empty-IsIndexed
      ingest_result normalize_result (refl, tt)
