-- ===== src/Alerts/Accepted.antt =====
-- What the normaliser of src/incident_platform/incidents.py accepted where it returned: each alert is
-- an object that could be read, and an incident was built from it.
use agent_rca.Prelude.{ℕ, ◌≡◌, refl, true, inl, inr, List, [], ◌∷◌, arith}
use agent_rca.Outcome.{ok, Result-cases}
use agent_rca.Time.{DateTime}
use agent_rca.Json.{Json, null, obj, Fields, Items, nil, cons, get}
use agent_rca.Runtime.{Runtime}
use agent_rca.Alerts.Normalizer.{
  NormalizedAlert, Reading, read_alert, build_incident, normalize_one, normalize_each, normalize,
  alert_list,
}

module _ (rt : Runtime) (duration : ℕ) (now : DateTime) where
  -- An alert, with the incident that was built from it.
  pub record IsAccepted (alert : Json) (n : NormalizedAlert) : Type 0 where
    pub fields : Fields
    pub reading : Reading
    pub is_object : alert ≡ obj fields
    pub read : read_alert rt fields ≡ ok reading
    pub built : build_incident rt duration reading now ≡ ok n.incident
    pub same_status : n.alert_status ≡ reading.header.alert_status

  abbrev pub AreAccepted : Items → List NormalizedAlert → Type 0
  AreAccepted nil [] = Unit
  AreAccepted (cons alert alerts) (n ∷ ns) = IsAccepted alert n × AreAccepted alerts ns
  AreAccepted nil (n ∷ ns) = ⊥
  AreAccepted (cons alert alerts) [] = ⊥

  object-IsAccepted :
      (alert : Fields) (n : NormalizedAlert)
      → normalize_one rt duration (obj alert) now ≡ ok n
      → IsAccepted (obj alert) n
  unfolding normalize_one
  object-IsAccepted alert n h = elim (Result-cases (read_alert rt alert)) [
    | inl (e, p) ↦ absurd (ground arith)
    | inr (r, p) ↦ elim (Result-cases (build_incident rt duration r now)) [
      | inl (e, q) ↦ absurd (ground arith)
      | inr (i, q) ↦ record {
        fields = alert;
        reading = r;
        is_object = refl;
        read = p;
        built = ground arith;
        same_status = ground arith;
      }
    ]
  ]

  one-IsAccepted :
      (alert : Json) (n : NormalizedAlert)
      → normalize_one rt duration alert now ≡ ok n
      → IsAccepted alert n
  unfolding normalize_one
  one-IsAccepted (obj alert) n h = object-IsAccepted alert n h
  one-IsAccepted null n h = absurd (ground arith)
  one-IsAccepted _ n h = absurd (ground arith)

  each-AreAccepted :
      (alerts : Items) (ns : List NormalizedAlert)
      → normalize_each rt duration alerts now ≡ ok ns
      → AreAccepted alerts ns
  unfolding normalize_each
  each-AreAccepted nil [] h = tt
  each-AreAccepted nil (n ∷ ns) h = ground arith
  each-AreAccepted (cons alert alerts) ns h =
      elim (Result-cases (normalize_one rt duration alert now)) [
        | inl (e, p) ↦ absurd (ground arith)
        | inr (m, p) ↦ elim (Result-cases (normalize_each rt duration alerts now)) [
          | inl (e, q) ↦ absurd (ground arith)
          | inr (ms, q) ↦
              let whole : ns ≡ m ∷ ms = ground arith in
              rw whole (one-IsAccepted alert m p, each-AreAccepted alerts ms q)
        ]
      ]

  -- the alerts of a payload that was accepted
  pub normalize-AreAccepted :
      (payload : Json) (ns : List NormalizedAlert)
      → normalize rt duration payload now ≡ ok ns
      → (fields : Fields) × (alerts : Items) × (payload ≡ obj fields)
        × (alert_list (get "alerts" fields) ≡ ok alerts)
        × (now.aware ≡ true)
        × AreAccepted alerts ns
  unfolding normalize
  normalize-AreAccepted (obj fields) ns h = elim (Result-cases (alert_list (get "alerts" fields))) [
    | inl (e, p) ↦ absurd (ground arith)
    | inr (alerts, p) ↦
        (fields, alerts, refl, p, ground arith, each-AreAccepted alerts ns (ground arith))
  ]
  normalize-AreAccepted null ns h = absurd (ground arith)
  normalize-AreAccepted _ ns h = absurd (ground arith)
