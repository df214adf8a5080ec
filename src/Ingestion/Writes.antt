-- ===== src/Ingestion/Writes.antt =====
-- What the ingestion of src/incident_platform/incidents.py does to the repository.
use agent_rca.Prelude.{
  ℕ, String, ◌≡◌, refl, true, false, Bool, Option, some, none, inl, inr, List, [], ◌∷◌, arith,
}
use agent_rca.Outcome.{Error, ok, err, Result-cases}
use agent_rca.Time.{DateTime}
use agent_rca.Json.{Json}
use agent_rca.Incident.{Incident}
use agent_rca.Runtime.{Runtime}
use agent_rca.Repository.{Repository, create_or_get_by_deduplication_key}
use agent_rca.Repository.Step.{Steps, Steps-eq, Steps-trans}
use agent_rca.Repository.Creation.{create-Steps}
use agent_rca.Repository.Updates.{resolution-Steps}
use agent_rca.Alerts.Normalizer.{NormalizedAlert, normalize}
use agent_rca.Alerts.Accepted.{normalize-AreAccepted}
use agent_rca.Ingestion.{resolve_known, ingest_one, ingest_each, ingest, IngestionResult}

module _ (rt : Runtime) (now : DateTime) where
  pub resolve-Steps :
      (stored : Incident) (flag : Bool) (end : Option String) (r : Repository)
      → Steps r (resolve_known rt stored flag end now r).1
  unfolding resolve_known
  resolve-Steps stored false (some end) r = resolution-Steps rt stored.incident_id end now r
  resolve-Steps stored false none r = Steps-eq refl
  resolve-Steps stored true _ r = Steps-eq refl

  pub one_left_err :
      (n : NormalizedAlert) (r : Repository) (e : Error)
      → (create_or_get_by_deduplication_key rt n.incident now r).0 ≡ err e
      → (ingest_one rt n now r).1 ≡ (create_or_get_by_deduplication_key rt n.incident now r).1
  unfolding ingest_one
  one_left_err n r e h = ground arith

  pub one_left_ok :
      (n : NormalizedAlert) (r : Repository) (c : Incident × Bool)
      → (create_or_get_by_deduplication_key rt n.incident now r).0 ≡ ok c
      → (ingest_one rt n now r).1
        ≡ (resolve_known rt c.0 c.1 n.incident.window.incident_end now
            (create_or_get_by_deduplication_key rt n.incident now r).1).1
  unfolding ingest_one
  one_left_ok n r c h = ground arith

  pub one-Steps :
      (n : NormalizedAlert) (r : Repository) → now.aware ≡ true → Steps r (ingest_one rt n now r).1
  one-Steps n r a =
      let created = create-Steps rt n.incident now r a in
      elim (Result-cases (create_or_get_by_deduplication_key rt n.incident now r).0) [
        | inl (e, h) ↦ rw (one_left_err n r e h) created
        | inr (c, h) ↦ rw (one_left_ok n r c h) (
            Steps-trans created (
              resolve-Steps c.0 c.1 n.incident.window.incident_end
                (create_or_get_by_deduplication_key rt n.incident now r).1))
      ]

  pub each_left_err :
      (n : NormalizedAlert) (ns : List NormalizedAlert) (r : Repository) (e : Error)
      → (ingest_one rt n now r).0 ≡ err e
      → ingest_each rt (n ∷ ns) now r ≡ (err e, (ingest_one rt n now r).1)
  unfolding ingest_each
  each_left_err n ns r e h = ground arith

  pub each_left_ok :
      (n : NormalizedAlert) (ns : List NormalizedAlert) (r : Repository) (x : IngestionResult)
      → (ingest_one rt n now r).0 ≡ ok x
      → (ingest_each rt (n ∷ ns) now r).1 ≡ (ingest_each rt ns now (ingest_one rt n now r).1).1
  unfolding ingest_each
  each_left_ok n ns r x h = ground arith

  pub each-Steps :
      (ns : List NormalizedAlert) (r : Repository)
      → now.aware ≡ true
      → Steps r (ingest_each rt ns now r).1
  each-Steps [] r a = unfold ingest_each in Steps-eq refl
  each-Steps (n ∷ ns) r a = elim (Result-cases (ingest_one rt n now r).0) [
    | inl (e, h) ↦ rw (each_left_err n ns r e h) (one-Steps n r a)
    | inr (x, h) ↦
        rw (each_left_ok n ns r x h)
          (Steps-trans (one-Steps n r a) (each-Steps ns (ingest_one rt n now r).1 a))
  ]

  module _ (duration : ℕ) (payload : Json) (r : Repository) where
    -- A payload that the normaliser rejects, in whatever alert, leaves the repository as it was, and
    -- ingestion raises the normaliser's exception.
    pub ingest_invalid :
        (e : Error)
        → normalize rt duration payload now ≡ err e
        → ingest rt duration payload now r ≡ (err e, r)
    unfolding ingest
    ingest_invalid e h = ground arith

    pub ingest_valid :
        (ns : List NormalizedAlert)
        → normalize rt duration payload now ≡ ok ns
        → ingest rt duration payload now r ≡ ingest_each rt ns now r
    unfolding ingest
    ingest_valid ns h = ground arith

    -- Whatever the payload and the time, ingestion makes only the legal writes of the repository,
    -- whether it returns or raises.
    pub ingest-Steps : Steps r (ingest rt duration payload now r).1
    ingest-Steps = elim (Result-cases (normalize rt duration payload now)) [
      | inl (e, h) ↦ rw (ingest_invalid e h) (Steps-eq refl)
      | inr (ns, h) ↦
          let (_, _, _, _, a, _) = normalize-AreAccepted rt duration now payload ns h in
          rw (ingest_valid ns h) (each-Steps ns r a)
    ]
