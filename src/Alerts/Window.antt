-- ===== src/Alerts/Window.antt =====
-- What the incidents hold that the normaliser of src/incident_platform/incidents.py builds.
use agent_rca.Prelude.{
  ℕ, String, inl, inr, ◌≡◌, refl, true, Option, none, some, ◌≤◌, ◌-◌, List, [], ◌∷◌, All, arith,
}
use agent_rca.Outcome.{ok, Result-cases}
use agent_rca.Time.{DateTime}
use agent_rca.Json.{Json, Fields, Items, nil, cons}
use agent_rca.Incident.{received, Incident}
use agent_rca.Runtime.{Runtime}
use agent_rca.Alerts.{
  AlertStatus, firing, resolved, resolve_end_time, back, format_alert_time, format_end,
  parse_alert_time,
}
use agent_rca.Alerts.Accepted.{IsAccepted, AreAccepted, normalize-AreAccepted}
use agent_rca.Alerts.Normalizer.{
  NormalizedAlert, Reading, read_alert, build_incident, normalize, incident_of,
}

-- A firing alert has no end; a resolved one has an end that is not before its start.
abbrev pub IsEnded : AlertStatus → DateTime → Option DateTime → Type 0
IsEnded firing starts_at ends_at = ends_at ≡ none
IsEnded resolved starts_at ends_at =
    (e : DateTime) × (ends_at ≡ some e) × (starts_at.instant ≤ e.instant) × (e.aware ≡ true)

abbrev pub rendered : Runtime → Option DateTime → Option String
rendered rt none = none
rendered rt (some t) = some (rt.render t.instant)

-- A new incident that stands in its window.
pub record IsOpened (rt : Runtime) (baseline_duration : ℕ) (now : DateTime) (n : NormalizedAlert)
    : Type 0 where
  pub starts_at : DateTime
  pub ends_at : Option DateTime
  pub ended : IsEnded n.alert_status starts_at ends_at
  pub room : baseline_duration ≤ starts_at.instant
  pub baseline_start :
      n.incident.window.baseline_start ≡ rt.render (starts_at.instant - baseline_duration)
  pub incident_start : n.incident.window.incident_start ≡ rt.render starts_at.instant
  pub incident_end : n.incident.window.incident_end ≡ rendered rt ends_at
  pub triggered_at : n.incident.triggered_at ≡ rt.render starts_at.instant
  pub created_at : n.incident.created_at ≡ rt.render now.instant
  pub updated_at : n.incident.updated_at ≡ rt.render now.instant
  pub status : n.incident.status ≡ received
  pub valid : rt.valid_incident n.incident ≡ true

module _ (rt : Runtime) where
  end-IsEnded :
      (alert : Fields) (a : AlertStatus) (s : DateTime) (e : Option DateTime)
      → resolve_end_time rt alert a s ≡ ok e
      → IsEnded a s e
  unfolding resolve_end_time parse_alert_time
  end-IsEnded alert firing s e h = ground arith
  end-IsEnded alert resolved s e h = ground arith

  read_end :
      (alert : Fields) (r : Reading)
      → read_alert rt alert ≡ ok r
      → resolve_end_time rt alert r.header.alert_status r.starts_at ≡ ok r.ends_at
  unfolding read_alert
  read_end alert r h = ground arith

  end_text : (e : Option DateTime) (t : Option String) → format_end rt e ≡ ok t → t ≡ rendered rt e
  unfolding format_end format_alert_time
  end_text none t h = ground arith
  end_text (some e) t h = ground arith

  module _ (duration : ℕ) (now : DateTime) where
    -- what `build_incident` gives
    pub built_lem :
        (r : Reading) (i : Incident)
        → build_incident rt duration r now ≡ ok i
        → (t : Option String) × (format_end rt r.ends_at ≡ ok t)
          × (duration ≤ r.starts_at.instant)
          × (i
              ≡ incident_of r
                  (rt.render r.starts_at.instant)
                  (rt.render (r.starts_at.instant - duration))
                  t
                  (rt.render now.instant))
          × (rt.valid_incident i ≡ true)
    unfolding build_incident format_alert_time back
    built_lem r i h = elim (Result-cases (format_end rt r.ends_at)) [
      | inl (e, p) ↦ absurd (ground arith)
      | inr (t, p) ↦ (t, p, ground arith, ground arith, ground arith)
    ]

    one-IsOpened :
        (alert : Json) (n : NormalizedAlert)
        → IsAccepted rt duration now alert n
        → IsOpened rt duration now n
    one-IsOpened alert n a =
        let r = a.reading in
        let (t, end, room, whole, valid) = built_lem r n.incident a.built in
        record {
          starts_at = r.starts_at;
          ends_at = r.ends_at;
          ended = rw a.same_status (
              end-IsEnded a.fields r.header.alert_status r.starts_at r.ends_at
                (read_end a.fields r a.read));
          room = room;
          baseline_start = rw whole refl;
          incident_start = rw whole refl;
          incident_end = rw whole (end_text r.ends_at t end);
          triggered_at = rw whole refl;
          created_at = rw whole refl;
          updated_at = rw whole refl;
          status = rw whole refl;
          valid = valid;
        }

    each-AreOpened :
        (alerts : Items) (ns : List NormalizedAlert)
        → AreAccepted rt duration now alerts ns
        → All (IsOpened rt duration now) ns
    each-AreOpened nil [] a = tt
    each-AreOpened (cons alert alerts) (n ∷ ns) a =
        (one-IsOpened alert n a.0, each-AreOpened alerts ns a.1)
    each-AreOpened nil (n ∷ ns) a = absurd a
    each-AreOpened (cons alert alerts) [] a = absurd a

    -- Every incident that the normaliser gives is valid and RECEIVED; its window's baseline starts
    -- the baseline duration before the alert's start, and it has an end exactly if the alert is
    -- resolved, one that is not before its start; and it was created and updated at the time given.
    pub normalize-AreOpened :
        (payload : Json) (ns : List NormalizedAlert)
        → normalize rt duration payload now ≡ ok ns
        → All (IsOpened rt duration now) ns
    normalize-AreOpened payload ns h =
        let (_, alerts, _, _, _, a) = normalize-AreAccepted rt duration now payload ns h in
        each-AreOpened alerts ns a
