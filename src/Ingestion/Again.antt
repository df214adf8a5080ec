-- ===== src/Ingestion/Again.antt =====
-- The idempotence of the ingestion of src/incident_platform/incidents.py: a webhook delivered again.
use agent_rca.Prelude.{
  ℕ, String, ◌≡◌, refl, true, false, Bool, Option, some, none, inl, inr, List, [], ◌∷◌, All, map,
  ap, arith, sym, eq_iff, Option-cases,
}
use agent_rca.Outcome.{Error, ok, err, Result-cases}
use agent_rca.Time.{DateTime}
use agent_rca.Json.{Json}
use agent_rca.Dict.{lookup, lookup-insert, lookup-insert_self}
use agent_rca.Incident.{Incident}
use agent_rca.Runtime.{Runtime}
use agent_rca.Repository.{Repository, create_or_get_by_deduplication_key}
use agent_rca.Repository.Step.{
  Step, creates, updates, touches, gathers, freezes, publishes, records, Steps, done, step,
}
use agent_rca.Repository.Step.Index.{IsIndexed, Steps-IsIndexed}
use agent_rca.Repository.Creation.{known_key, known_key_found, created_result}
use agent_rca.Alerts.{AlertStatus, firing, resolved}
use agent_rca.Alerts.Normalizer.{NormalizedAlert, normalize}
use agent_rca.Alerts.Accepted.{normalize-AreAccepted}
use agent_rca.Alerts.Window.{IsOpened, IsEnded, normalize-AreOpened}
use agent_rca.Alerts.Identity.{undated, normalize_later}
use agent_rca.Ingestion.{ingest_one, ingest_each, ingest, resolve_known, IngestionResult}
use agent_rca.Ingestion.Writes.{
  ingest-Steps, ingest_valid, ingest_invalid, each-Steps, each_left_err, each_left_ok, one_left_ok,
  resolve-Steps,
}

-- The deduplication key belongs to an incident.
abbrev pub IsKnown : Repository → String → Type 0
IsKnown r key = (id : String) × (lookup key r.incident_id_by_deduplication_key ≡ some id)

Step-IsKnown : (key : String) {r s : Repository} → Step r s → IsKnown r key → IsKnown s key
Step-IsKnown key {r} {s} (creates i stamp new free whole) (id, known) =
    (id, rw (whole, lookup-insert) (ground (arith, eq_iff i.deduplication_key key)))
Step-IsKnown key (updates _ _ _ _ _ _ _ _ whole) (id, known) = (id, rw whole known)
Step-IsKnown key (touches _ _ _ _ _ _ whole) (id, known) = (id, rw whole known)
Step-IsKnown key (gathers _ _ _ _ _ whole) (id, known) = (id, rw whole known)
Step-IsKnown key (freezes _ _ _ _ whole) (id, known) = (id, rw whole known)
Step-IsKnown key (publishes _ _ _ _ _ _ _ whole) (id, known) = (id, rw whole known)
Step-IsKnown key (records _ _ _ _ _ whole) (id, known) = (id, rw whole known)

pub Steps-IsKnown : (key : String) {r s : Repository} → Steps r s → IsKnown r key → IsKnown s key
Steps-IsKnown key done h = h
Steps-IsKnown key (step x p) h = Steps-IsKnown key p (Step-IsKnown key x h)

module _ (rt : Runtime) (now : DateTime) where
  create-IsKnown :
      (i : Incident) (r : Repository) (c : Incident × Bool)
      → (create_or_get_by_deduplication_key rt i now r).0 ≡ ok c
      → IsKnown (create_or_get_by_deduplication_key rt i now r).1 i.deduplication_key
  create-IsKnown i r c h =
      elim (Option-cases (lookup i.deduplication_key r.incident_id_by_deduplication_key)) [
        | inr (id, key) ↦ (id, rw (known_key rt i now r id key) key)
        | inl new ↦
            let (own, left) = created_result rt i now r c.0 c.1 new h in
            (i.incident_id, rw (left, lookup-insert_self) refl)
      ]

  one_raises :
      (n : NormalizedAlert) (r : Repository) (x : IngestionResult) (e : Error)
      → (create_or_get_by_deduplication_key rt n.incident now r).0 ≡ err e
      → (ingest_one rt n now r).0 ≡ ok x
      → ⊥
  unfolding ingest_one
  one_raises n r x e p h = ground arith

  one-IsKnown :
      (n : NormalizedAlert) (r : Repository) (x : IngestionResult)
      → (ingest_one rt n now r).0 ≡ ok x
      → IsKnown (ingest_one rt n now r).1 n.incident.deduplication_key
  one-IsKnown n r x h =
      elim (Result-cases (create_or_get_by_deduplication_key rt n.incident now r).0) [
        | inl (e, p) ↦ absurd (one_raises n r x e p h)
        | inr (c, p) ↦ rw (one_left_ok rt now n r c p) (
            Steps-IsKnown n.incident.deduplication_key
              (resolve-Steps rt now c.0 c.1 n.incident.window.incident_end
                (create_or_get_by_deduplication_key rt n.incident now r).1)
              (create-IsKnown n.incident r c p))
      ]

  each_rest :
      (n : NormalizedAlert) (ns : List NormalizedAlert) (r : Repository) (x : IngestionResult)
      (xs : List IngestionResult)
      → (ingest_one rt n now r).0 ≡ ok x
      → (ingest_each rt (n ∷ ns) now r).0 ≡ ok xs
      → (ys : List IngestionResult) × ((ingest_each rt ns now (ingest_one rt n now r).1).0 ≡ ok ys)
  unfolding ingest_each
  each_rest n ns r x xs p h =
      elim (Result-cases (ingest_each rt ns now (ingest_one rt n now r).1).0) [
        | inl (e, q) ↦ absurd (ground arith)
        | inr found ↦ found
      ]

  each-AreKnown :
      (ns : List NormalizedAlert) (r s : Repository) (xs : List IngestionResult)
      → now.aware ≡ true
      → (ingest_each rt ns now r).0 ≡ ok xs
      → (ingest_each rt ns now r).1 ≡ s
      → All (λ n. IsKnown s n.incident.deduplication_key) ns
  each-AreKnown [] r s xs a h e = tt
  each-AreKnown (n ∷ ns) r s xs a h left = elim (Result-cases (ingest_one rt n now r).0) [
    | inl (e, p) ↦ absurd (ground (arith, ap (λ o. o.0) (each_left_err rt now n ns r e p)))
    | inr (x, p) ↦
        let (ys, q) = each_rest n ns r x xs p h in
        let left' : (ingest_each rt ns now (ingest_one rt n now r).1).1 ≡ s =
          cc (left, each_left_ok rt now n ns r x p) in
        let steps : Steps (ingest_one rt n now r).1 s =
          rw (sym left') (each-Steps rt now ns (ingest_one rt n now r).1 a) in
        (
          Steps-IsKnown n.incident.deduplication_key steps (one-IsKnown n r x p),
          each-AreKnown ns (ingest_one rt n now r).1 s ys a q left',
        )
  ]

  -- An alert of a known incident, which has no end, changes nothing.
  known_again :
      (n : NormalizedAlert) (r : Repository)
      → IsIndexed r
      → IsKnown r n.incident.deduplication_key
      → rt.valid_incident n.incident ≡ true
      → n.incident.window.incident_end ≡ none
      → (x : IngestionResult) × (ingest_one rt n now r ≡ (ok x, r)) × (x.created ≡ false)
  known_again n r h (id, known) valid unended = elim (Option-cases (lookup id r.incidents)) [
    | inl e ↦ absurd (ground (arith, h.key_points n.incident.deduplication_key id known))
    | inr (u, there) ↦ (
      record { incident = u; created = false; alert_status = n.alert_status },
      (unfold ingest_one resolve_known in
          rw (known_key_found rt n.incident now r id u valid known there, unended) refl),
      refl,
    )
  ]

  each_returns :
      (n : NormalizedAlert) (ns : List NormalizedAlert) (r : Repository) (x : IngestionResult)
      (xs : List IngestionResult)
      → ingest_one rt n now r ≡ (ok x, r)
      → ingest_each rt ns now r ≡ (ok xs, r)
      → ingest_each rt (n ∷ ns) now r ≡ (ok (x ∷ xs), r)
  unfolding ingest_each
  each_returns n ns r x xs p q = rw (p, q) refl

  -- the same of a list of alerts
  each_again :
      (ns : List NormalizedAlert) (r : Repository)
      → IsIndexed r
      → All (λ n. IsKnown r n.incident.deduplication_key) ns
      → All (λ n. rt.valid_incident n.incident ≡ true) ns
      → All (λ n. n.incident.window.incident_end ≡ none) ns
      → (xs : List IngestionResult) × (ingest_each rt ns now r ≡ (ok xs, r))
        × All (λ x. x.created ≡ false) xs
  each_again [] r h known valid unended = ([], (unfold ingest_each in refl), tt)
  each_again (n ∷ ns) r h known valid unended =
      let (x, p, old) = known_again n r h known.0 valid.0 unended.0 in
      let (xs, q, olds) = each_again ns r h known.1 valid.1 unended.1 in
      (x ∷ xs, each_returns n ns r x xs p q, (old, olds))

no_end :
    (a : AlertStatus) (s : DateTime) (e : Option DateTime) → a ≡ firing → IsEnded a s e → e ≡ none
no_end firing s e fire h = h
no_end resolved s e fire h = absurd (ground arith)

later_keys :
    (r : Repository) (ns ms : List NormalizedAlert)
    → map undated ns ≡ map undated ms
    → All (λ n. IsKnown r n.incident.deduplication_key) ns
    → All (λ n. IsKnown r n.incident.deduplication_key) ms
later_keys r ns [] same known = tt
later_keys r [] (m ∷ ms) same known = absurd (cc same)
later_keys r (n ∷ ns) (m ∷ ms) same (k, known) =
    let head : undated n ≡ undated m = cc same in
    let key : n.incident.deduplication_key ≡ m.incident.deduplication_key =
      ap (λ x. x.incident.deduplication_key) head in
    (rw (sym key) k, later_keys r ns ms (cc same) known)

module _ (rt : Runtime) (duration : ℕ) (later : DateTime) where
  opened_valid :
      (ns : List NormalizedAlert)
      → All (IsOpened rt duration later) ns
      → All (λ n. rt.valid_incident n.incident ≡ true) ns
  opened_valid [] h = tt
  opened_valid (n ∷ ns) h = (h.0.valid, opened_valid ns h.1)

  opened_end :
      (ns : List NormalizedAlert)
      → All (IsOpened rt duration later) ns
      → All (λ n. n.alert_status ≡ firing) ns
      → All (λ n. n.incident.window.incident_end ≡ none) ns
  opened_end [] h f = tt
  opened_end (n ∷ ns) h f = (
    rw (h.0.incident_end, no_end n.alert_status h.0.starts_at h.0.ends_at f.0 h.0.ended) refl,
    opened_end ns h.1 f.1,
  )

module _ (rt : Runtime) (duration : ℕ) (payload : Json) (now later : DateTime)
    (r : Repository) where
  -- After a webhook was ingested without an exception into a repository whose rows are in order, the
  -- same webhook, delivered again at any time at which it is still accepted and with firing alerts
  -- only, is ingested without an exception, creates nothing and changes nothing.
  pub ingest_again :
      (xs : List IngestionResult) (ms : List NormalizedAlert)
      → IsIndexed r
      → (ingest rt duration payload now r).0 ≡ ok xs
      → normalize rt duration payload later ≡ ok ms
      → All (λ m. m.alert_status ≡ firing) ms
      → (ys : List IngestionResult) × (ingest rt duration payload later
            (ingest rt duration payload now r).1
          ≡ (ok ys, (ingest rt duration payload now r).1))
        × All (λ y. y.created ≡ false) ys
  ingest_again xs ms h first accepted fire =
      elim (Result-cases (normalize rt duration payload now)) [
        | inl (e, p) ↦
            absurd (ground (arith, ap (λ o. o.0) (ingest_invalid rt now duration payload r e p)))
        | inr (ns, p) ↦
            let left = ingest_valid rt now duration payload r ns p in
            let (_, _, _, _, aware, _) = normalize-AreAccepted rt duration now payload ns p in
            let opened = normalize-AreOpened rt duration later payload ms accepted in
            let known =
              each-AreKnown rt now ns r (ingest rt duration payload now r).1 xs aware
                (cc (first, left)) (cc left) in
            let after = Steps-IsIndexed (ingest-Steps rt now duration payload r) h in
            let (ys, again, old) =
              each_again rt later ms (ingest rt duration payload now r).1 after
                (later_keys (ingest rt duration payload now r).1 ns ms
                  (normalize_later rt duration now later payload ns ms p accepted) known)
                (opened_valid rt duration later ms opened)
                (opened_end rt duration later ms opened fire) in
            (
              ys,
              rw
                  (ingest_valid rt later duration payload (ingest rt duration payload now r).1 ms
                    accepted)
                  again,
              old,
            )
      ]
