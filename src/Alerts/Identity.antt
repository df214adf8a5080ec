-- ===== src/Alerts/Identity.antt =====
-- What the normaliser of src/incident_platform/incidents.py gives for one payload at two times.
use agent_rca.Prelude.{ℕ, ◌≡◌, refl, List, [], ◌∷◌, map}
use agent_rca.Outcome.{ok}
use agent_rca.Time.{DateTime}
use agent_rca.Json.{Json, Items, nil, cons}
use agent_rca.Runtime.{Runtime}
use agent_rca.Alerts.Normalizer.{NormalizedAlert, Reading, normalize, build_incident}
use agent_rca.Alerts.Accepted.{IsAccepted, AreAccepted, normalize-AreAccepted}
use agent_rca.Alerts.Window.{built_lem}

-- An alert without the two times at which it was received.
abbrev pub undated : NormalizedAlert → NormalizedAlert
undated n = record n { incident = record n.incident { created_at = ""; updated_at = "" } }

module _ (rt : Runtime) (duration : ℕ) (now later : DateTime) where
  same_reading :
      (r : Reading) (n m : NormalizedAlert)
      → build_incident rt duration r now ≡ ok n.incident
      → build_incident rt duration r later ≡ ok m.incident
      → n.alert_status ≡ r.header.alert_status
      → m.alert_status ≡ r.header.alert_status
      → undated n ≡ undated m
  same_reading r n m p q a b =
      let (t, end, _, whole, _) = built_lem rt duration now r n.incident p in
      let (u, end', _, whole', _) = built_lem rt duration later r m.incident q in
      let same : t ≡ u = cc in rw (a, b, whole, whole', same) refl

  one_undated :
      (alert : Json) (n m : NormalizedAlert)
      → IsAccepted rt duration now alert n
      → IsAccepted rt duration later alert m
      → undated n ≡ undated m
  one_undated alert n m a b =
      let fields : a.fields ≡ b.fields = cc (a.is_object, b.is_object) in
      let reading : a.reading ≡ b.reading = cc (a.read, b.read, fields) in
      same_reading a.reading n m a.built (rw reading b.built) a.same_status
        (rw reading b.same_status)

  each_undated :
      (alerts : Items) (ns ms : List NormalizedAlert)
      → AreAccepted rt duration now alerts ns
      → AreAccepted rt duration later alerts ms
      → map undated ns ≡ map undated ms
  each_undated nil [] [] a b = refl
  each_undated (cons alert alerts) (n ∷ ns) (m ∷ ms) a b =
      rw (one_undated alert n m a.0 b.0, each_undated alerts ns ms a.1 b.1) refl
  each_undated nil (n ∷ ns) _ a b = absurd a
  each_undated nil [] (m ∷ ms) a b = absurd b
  each_undated (cons alert alerts) [] _ a b = absurd a
  each_undated (cons alert alerts) (n ∷ ns) [] a b = absurd b

  -- A payload that is accepted at two times gives the same alerts both times, up to the times of
  -- creation and update: the same ids, deduplication keys and windows, in the same order.
  pub normalize_later :
      (payload : Json) (ns ms : List NormalizedAlert)
      → normalize rt duration payload now ≡ ok ns
      → normalize rt duration payload later ≡ ok ms
      → map undated ns ≡ map undated ms
  normalize_later payload ns ms p q =
      let (f, xs, is, list, _, a) = normalize-AreAccepted rt duration now payload ns p in
      let (g, ys, is', list', _, b) = normalize-AreAccepted rt duration later payload ms q in
      let same : xs ≡ ys = cc in each_undated xs ns ms a (rw same b)
