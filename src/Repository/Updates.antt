-- ===== src/Repository/Updates.antt =====
-- What `replace_collector_statuses` and `record_alert_resolution` of
-- src/incident_platform/repository.py leave behind, on every branch.
use agent_rca.Prelude.{
  String, ◌≡◌, refl, true, false, some, List, map, inl, inr, arith, Option-cases, Bool-cases,
  unique,
}
use agent_rca.Outcome.{Error, ok, err, Result-cases}
use agent_rca.Time.{DateTime}
use agent_rca.Dict.{lookup, is_some}
use agent_rca.Incident.{Incident, CollectorStatus, collecting}
use agent_rca.Documents.{collection_completed, alert_resolved}
use agent_rca.Runtime.{Runtime}
use agent_rca.Repository.{
  Repository, put_incident, outcomes, same_end, replace_collector_statuses, record_alert_resolution,
}
use agent_rca.Repository.Step.{committed, Steps, Steps-eq, Steps-one, updates, touches}

module _ (rt : Runtime) (id : String) (statuses : List CollectorStatus) (now : DateTime)
    (r : Repository) where
  abbrev collected : Incident → Incident
  collected i = record i { collector_statuses = statuses; updated_at = rt.render now.instant }

  -- Collector statuses that are refused change nothing.
  pub replace_error :
      (e : Error)
      → (replace_collector_statuses rt id statuses now r).0 ≡ err e
      → (replace_collector_statuses rt id statuses now r).1 ≡ r
  unfolding replace_collector_statuses
  replace_error e h = ground arith

  replace_there :
      (u : Incident)
      → (replace_collector_statuses rt id statuses now r).0 ≡ ok u
      → (i : Incident) × (lookup id r.incidents ≡ some i)
  unfolding replace_collector_statuses
  replace_there u h = elim (Option-cases (lookup id r.incidents)) [
    | inl e ↦ absurd (ground arith)
    | inr there ↦ there
  ]

  -- Accepted statuses are unique by name, were written while COLLECTING, and are audited.
  pub replace_lem :
      (u i : Incident)
      → lookup id r.incidents ≡ some i
      → (replace_collector_statuses rt id statuses now r).0 ≡ ok u
      → (unique (map (λ s. s.collector) statuses) ≡ true)
        × (i.status ≡ collecting)
        × (u ≡ collected i)
        × ((replace_collector_statuses rt id statuses now r).1
            ≡ committed id
                (collected i)
                (collection_completed (outcomes rt statuses))
                (rt.render now.instant)
                r)
  unfolding replace_collector_statuses
  replace_lem u i there h = (ground arith, ground arith, ground arith, ground arith)

  pub replace-Steps : Steps r (replace_collector_statuses rt id statuses now r).1
  replace-Steps = elim (Result-cases (replace_collector_statuses rt id statuses now r).0) [
    | inl (e, h) ↦ Steps-eq (replace_error e h)
    | inr (u, h) ↦
        let (i, there) = replace_there u h in
        Steps-one (
          updates id i (collected i) (collection_completed (outcomes rt statuses))
            (rt.render now.instant) there (record { incident_id = refl; deduplication_key = refl })
            refl (replace_lem u i there h).3)
  ]

module _ (rt : Runtime) (id : String) (incident_end : String) (now : DateTime)
    (r : Repository) where
  abbrev resolved : Incident → Incident
  resolved i = record i {
    window = record i.window { incident_end = some incident_end };
    updated_at = rt.render now.instant;
  }

  pub resolution_error :
      (e : Error)
      → (record_alert_resolution rt id incident_end now r).0 ≡ err e
      → (record_alert_resolution rt id incident_end now r).1 ≡ r
  unfolding record_alert_resolution
  resolution_error e h = ground arith

  resolution_there :
      (u : Incident)
      → (record_alert_resolution rt id incident_end now r).0 ≡ ok u
      → (i : Incident) × (lookup id r.incidents ≡ some i)
  unfolding record_alert_resolution
  resolution_there u h = elim (Option-cases (lookup id r.incidents)) [
    | inl e ↦ absurd (ground arith)
    | inr there ↦ there
  ]

  -- The first resolution is audited; a repetition of it only renews the time of the update.
  pub resolution_lem :
      (u i : Incident)
      → lookup id r.incidents ≡ some i
      → (record_alert_resolution rt id incident_end now r).0 ≡ ok u
      → (same_end rt i.window.incident_end incident_end ≡ true)
        × (u ≡ resolved i)
        × (is_some i.window.incident_end ≡ false
            → (record_alert_resolution rt id incident_end now r).1
              ≡ committed id (resolved i) (alert_resolved incident_end) (rt.render now.instant) r)
        × (is_some i.window.incident_end ≡ true
            → (record_alert_resolution rt id incident_end now r).1 ≡ put_incident id (resolved i) r)
  unfolding record_alert_resolution
  resolution_lem u i there h = (ground arith, ground arith, λ f. ground arith, λ t. ground arith)

  pub resolution-Steps : Steps r (record_alert_resolution rt id incident_end now r).1
  resolution-Steps = elim (Result-cases (record_alert_resolution rt id incident_end now r).0) [
    | inl (e, h) ↦ Steps-eq (resolution_error e h)
    | inr (u, h) ↦
        let (i, there) = resolution_there u h in
        elim (Bool-cases (is_some i.window.incident_end)) [
          | inl again ↦ Steps-one (
              touches id i (resolved i) there
                (record { incident_id = refl; deduplication_key = refl }) refl
                ((resolution_lem u i there h).3 again))
          | inr first ↦ Steps-one (
              updates id i (resolved i) (alert_resolved incident_end) (rt.render now.instant) there
                (record { incident_id = refl; deduplication_key = refl }) refl
                ((resolution_lem u i there h).2 first))
        ]
  ]
