-- ===== src/Repository/Creation.antt =====
-- What `create_or_get_by_deduplication_key` of src/incident_platform/repository.py leaves behind.
use agent_rca.Prelude.{
  String, ◌≡◌, refl, Bool, true, false, none, some, ◌⊎◌, inl, inr, arith, Option-cases,
}
use agent_rca.Outcome.{Result, ok, err, value_error}
use agent_rca.Time.{DateTime}
use agent_rca.Dict.{lookup, lookup-insert_self}
use agent_rca.Incident.{Incident}
use agent_rca.Runtime.{Runtime}
use agent_rca.Repository.{Repository, admit, create_or_get_by_deduplication_key}
use agent_rca.Repository.Step.{created, Steps, Steps-eq, Steps-one, creates}

module _ (rt : Runtime) (candidate : Incident) (now : DateTime) (r : Repository) where
  abbrev result : Result (Incident × Bool)
  result = (create_or_get_by_deduplication_key rt candidate now r).0

  abbrev left : Repository
  left = (create_or_get_by_deduplication_key rt candidate now r).1

  -- With a known key nothing is written, whatever the outcome.
  pub known_key :
      (id : String)
      → lookup candidate.deduplication_key r.incident_id_by_deduplication_key ≡ some id
      → left ≡ r
  unfolding create_or_get_by_deduplication_key
  known_key id e = ground arith

  -- With a new key and a time with a timezone the method raises and writes nothing, or it writes the
  -- new incident under an identity that was free.
  pub new_key :
      lookup candidate.deduplication_key r.incident_id_by_deduplication_key ≡ none
      → now.aware ≡ true
      → (left ≡ r)
        ⊎ ((lookup candidate.incident_id r.incidents ≡ none)
            × (result ≡ ok (candidate, true))
            × (left ≡ created candidate (rt.render now.instant) r))
  unfolding create_or_get_by_deduplication_key
  new_key e a = ground arith

  pub create-Steps : now.aware ≡ true → Steps r left
  create-Steps a =
      elim (Option-cases (lookup candidate.deduplication_key r.incident_id_by_deduplication_key)) [
        | inr (id, e) ↦ Steps-eq (known_key id e)
        | inl e ↦ elim (new_key e a) [
          | inl same ↦ Steps-eq same
          | inr (free, _, l) ↦ Steps-one (creates candidate (rt.render now.instant) e free l)
        ]
      ]

-- With a known key the stored incident comes back.
pub known_key_found :
    (rt : Runtime) (j : Incident) (later : DateTime) (r : Repository) (id : String) (u : Incident)
    → rt.valid_incident j ≡ true
    → lookup j.deduplication_key r.incident_id_by_deduplication_key ≡ some id
    → lookup id r.incidents ≡ some u
    → create_or_get_by_deduplication_key rt j later r ≡ (ok (u, false), r)
unfolding create_or_get_by_deduplication_key
known_key_found rt j later r id u valid key there = rw (valid, key, there) refl

pub known_key_result :
    (rt : Runtime) (i : Incident) (now : DateTime) (r : Repository) (id : String) (u : Incident)
    (flag : Bool)
    → lookup i.deduplication_key r.incident_id_by_deduplication_key ≡ some id
    → (create_or_get_by_deduplication_key rt i now r).0 ≡ ok (u, flag)
    → lookup id r.incidents ≡ some u
unfolding create_or_get_by_deduplication_key
known_key_result rt i now r id u flag key h = ground arith

pub created_result :
    (rt : Runtime) (i : Incident) (now : DateTime) (r : Repository) (u : Incident) (flag : Bool)
    → lookup i.deduplication_key r.incident_id_by_deduplication_key ≡ none
    → (create_or_get_by_deduplication_key rt i now r).0 ≡ ok (u, flag)
    → (u ≡ i)
      × ((create_or_get_by_deduplication_key rt i now r).1 ≡ created i (rt.render now.instant) r)
unfolding create_or_get_by_deduplication_key
created_result rt i now r u flag key h = (ground arith, ground arith)

-- After a creation that returned the incident `u`, created or found, a valid candidate with the same
-- deduplication key gets `u` back, marked as not created, at any later time, and changes nothing.
pub create_again :
    (rt : Runtime) (i j : Incident) (now later : DateTime) (r : Repository) (u : Incident)
    (flag : Bool)
    → (create_or_get_by_deduplication_key rt i now r).0 ≡ ok (u, flag)
    → j.deduplication_key ≡ i.deduplication_key
    → rt.valid_incident j ≡ true
    → create_or_get_by_deduplication_key rt j later
        (create_or_get_by_deduplication_key rt i now r).1
      ≡ (ok (u, false), (create_or_get_by_deduplication_key rt i now r).1)
create_again rt i j now later r u flag h same valid =
    elim (Option-cases (lookup i.deduplication_key r.incident_id_by_deduplication_key)) [
      | inr (id, key) ↦ rw (known_key rt i now r id key) (
          known_key_found rt j later r id u valid (rw same key)
            (known_key_result rt i now r id u flag key h))
      | inl new ↦
          let (own, left) = created_result rt i now r u flag new h in
          rw left (
            known_key_found rt j later (created i (rt.render now.instant) r) i.incident_id u valid
              (rw (same, lookup-insert_self) refl) (rw (own, lookup-insert_self) refl))
    ]

-- A creation whose time has no timezone stores a new, valid incident under a free id and key, and
-- then raises, so the stored incident has no audit event.
pub create_naive :
    (rt : Runtime) (i : Incident) (now : DateTime) (r : Repository)
    → now.aware ≡ false
    → rt.valid_incident i ≡ true
    → lookup i.deduplication_key r.incident_id_by_deduplication_key ≡ none
    → lookup i.incident_id r.incidents ≡ none
    → create_or_get_by_deduplication_key rt i now r ≡ (err value_error, admit i r)
unfolding create_or_get_by_deduplication_key
create_naive rt i now r naive valid new free = rw (valid, new, free, naive) refl
