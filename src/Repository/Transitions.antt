-- ===== src/Repository/Transitions.antt =====
-- What `transition` of src/incident_platform/repository.py leaves behind, on every branch.
use agent_rca.Prelude.{String, ◌≡◌, refl, true, some, inl, inr, arith, Option-cases}
use agent_rca.Outcome.{Error, ok, err, Result-cases}
use agent_rca.Time.{DateTime}
use agent_rca.Dict.{lookup}
use agent_rca.Incident.{Status, Incident, allowed}
use agent_rca.Documents.{status_transitioned}
use agent_rca.Runtime.{Runtime}
use agent_rca.Repository.Step.{committed, Steps, Steps-eq, Steps-one, updates, replay_event, live}
use agent_rca.Repository.{Repository, transition}

abbrev pub moved : Incident → Status → String → Incident
moved i next stamp = record i { status = next; updated_at = stamp }

-- The incident that a successful transition found, and what it left.
pub record Moved (rt : Runtime) (id : String) (expected next : Status) (now : DateTime)
    (r r' : Repository) : Type 0 where
  pub incident : Incident
  pub was_there : lookup id r.incidents ≡ some incident
  pub was_expected : incident.status ≡ expected
  pub was_allowed : allowed incident.status next ≡ true
  pub was_aware : now.aware ≡ true
  pub was_valid : rt.valid_incident (moved incident next (rt.render now.instant)) ≡ true
  pub left :
      r'
      ≡ committed id
          (moved incident next (rt.render now.instant))
          (status_transitioned incident.status next)
          (rt.render now.instant)
          r

legal :
    (a b : Status) → allowed a b ≡ true → replay_event (live a) (status_transitioned a b) ≡ live b
legal a b h = ground arith

module _ (rt : Runtime) (id : String) (expected next : Status) (now : DateTime)
    (r : Repository) where
  -- A transition that raises leaves the repository as it was.
  pub transition_error :
      (e : Error)
      → (transition rt id expected next now r).0 ≡ err e
      → (transition rt id expected next now r).1 ≡ r
  unfolding transition
  transition_error e h = ground arith

  transition_there :
      (u : Incident)
      → (transition rt id expected next now r).0 ≡ ok u
      → (i : Incident) × (lookup id r.incidents ≡ some i)
  unfolding transition
  transition_there u h = elim (Option-cases (lookup id r.incidents)) [
    | inl e ↦ absurd (ground arith)
    | inr there ↦ there
  ]

  pub transition-Moved :
      (u : Incident)
      → (transition rt id expected next now r).0 ≡ ok u
      → Moved rt id expected next now r (transition rt id expected next now r).1
  unfolding transition
  transition-Moved u h =
      let (i, e) = transition_there u h in
      record {
        incident = i;
        was_there = e;
        was_expected = ground arith;
        was_allowed = ground arith;
        was_aware = ground arith;
        was_valid = ground arith;
        left = ground arith;
      }

  pub transition-Steps : Steps r (transition rt id expected next now r).1
  transition-Steps = elim (Result-cases (transition rt id expected next now r).0) [
    | inl (e, h) ↦ Steps-eq (transition_error e h)
    | inr (u, h) ↦
        let m = transition-Moved u h in
        Steps-one (
          updates id m.incident (moved m.incident next (rt.render now.instant))
            (status_transitioned m.incident.status next) (rt.render now.instant) m.was_there
            (record { incident_id = refl; deduplication_key = refl })
            (legal m.incident.status next m.was_allowed) m.left)
  ]

-- The incident that a transition returns has the next status, and is the stored one.
pub transition_result :
    (rt : Runtime) (id : String) (expected next : Status) (now : DateTime) (r : Repository)
    (u : Incident)
    → (transition rt id expected next now r).0 ≡ ok u
    → u.status ≡ next
unfolding transition
transition_result rt id expected next now r u h = ground arith
