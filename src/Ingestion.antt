-- ===== src/Ingestion.antt =====
-- `AlertmanagerIngestionService` of src/incident_platform/incidents.py: it normalises all alerts of a
-- webhook, and then creates or updates an incident for each. `now` is `received_at`, or the clock's
-- reading where that argument is left out.
pub mod Writes
pub mod Again
use agent_rca.Prelude.{ℕ, Bool, true, false, Option, none, some, List, [], ◌∷◌, String}
use agent_rca.Outcome.{Method, pure, lift, proceed, ◌>>=◌}
use agent_rca.Time.{DateTime}
use agent_rca.Json.{Json}
use agent_rca.Incident.{Incident}
use agent_rca.Runtime.{Runtime}
use agent_rca.Repository.{Repo, create_or_get_by_deduplication_key, record_alert_resolution}
use agent_rca.Alerts.{AlertStatus}
use agent_rca.Alerts.Normalizer.{NormalizedAlert, normalize}

pub record IngestionResult : Type 0 where
  pub incident : Incident
  pub created : Bool
  pub alert_status : AlertStatus

module _ (rt : Runtime) where
  -- the branch on `created.created` and `incident_end`
  unfoldable pub resolve_known : Incident → Bool → Option String → DateTime → Repo Incident
  resolve_known stored false (some incident_end) now =
      record_alert_resolution rt stored.incident_id incident_end now
  resolve_known stored _ _ now = pure stored

  -- the body of the loop
  unfoldable pub ingest_one : NormalizedAlert → DateTime → Repo IngestionResult
  ingest_one normalized now = do
    created ← create_or_get_by_deduplication_key rt normalized.incident now
    stored ← resolve_known created.0 created.1 normalized.incident.window.incident_end now
    pure (record { incident = stored; created = created.1; alert_status = normalized.alert_status })

  unfoldable pub ingest_each : List NormalizedAlert → DateTime → Repo (List IngestionResult)
  ingest_each [] now = pure []
  ingest_each (n ∷ ns) now = do
    result ← ingest_one n now
    results ← ingest_each ns now
    pure (result ∷ results)

  unfoldable pub ingest : ℕ → Json → DateTime → Repo (List IngestionResult)
  ingest baseline_duration payload now = do
    alerts ← lift (normalize rt baseline_duration payload now)
    ingest_each alerts now
