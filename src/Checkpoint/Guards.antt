-- ===== src/Checkpoint/Guards.antt =====
-- What a prepared supplemental collection guarantees.
use agent_rca.Prelude.{
  String, ◌≡◌, true, List, [], ◌∷◌, arith, eq_iff, All, all, unique, subset, inl, inr,
}
use agent_rca.Outcome.{ok, Result-cases}
use agent_rca.Time.{DateTime}
use agent_rca.Incident.{Incident, localizing, CollectorStatus}
use agent_rca.Documents.{Evidence, Span, Selection, Checkpoint}
use agent_rca.Runtime.{Runtime, format_evidence_time}
use agent_rca.Scope.{ResourceScope, make_scope, contains_evidence_subject}
use agent_rca.Checkpoint.{localization_collectors, is_final}
use agent_rca.Checkpoint.Prepare.{
  check_window, downstream_scope, check_candidates, check_statuses, names_of,
  prepare_localization_collection,
}

pub record IsAdmitted (rt : Runtime) (id : String) (scope : ResourceScope) (e : Evidence)
    : Type 0 where
  pub valid : rt.valid_evidence e ≡ true
  pub owned : e.incident_id ≡ id
  pub in_scope : contains_evidence_subject scope e.subject e.facts ≡ true

-- Candidates that pass the loop are valid, of the incident and in the scope.
check_candidates-IsAdmitted :
    (rt : Runtime) (id : String) (selection : Selection) (scope : ResourceScope)
    (start finish : DateTime) (items : List Evidence)
    → check_candidates rt id selection scope start finish items ≡ ok tt
    → All (IsAdmitted rt id scope) items
unfolding check_candidates
check_candidates-IsAdmitted rt id selection scope start finish [] h = tt
check_candidates-IsAdmitted rt id selection scope start finish (e ∷ es) h = (
  record {
    valid = ground arith;
    owned = ground (arith, eq_iff e.incident_id id);
    in_scope = ground arith;
  },
  check_candidates-IsAdmitted rt id selection scope start finish es (ground arith),
)

make_scope_lem : (s t : ResourceScope) → make_scope s ≡ ok t → t ≡ s
unfolding make_scope
make_scope_lem s t h = ground arith

module _ (rt : Runtime) (i : Incident) (selection : Selection) (window : Span)
    (statuses : List CollectorStatus) (items : List Evidence) (now : DateTime) (u : Incident)
    (c : Checkpoint)
    (done : prepare_localization_collection rt i selection window statuses items now
      ≡ ok (u, c)) where
  pub prepared_status : i.status ≡ localizing
  unfolding prepare_localization_collection
  prepared_status = ground arith

  pub prepared_identity :
      (u.incident_id ≡ i.incident_id)
      × (u.deduplication_key ≡ i.deduplication_key)
      × (u.status ≡ i.status)
  unfolding prepare_localization_collection
  prepared_identity = ground arith

  pub prepared_aware : now.aware ≡ true
  unfolding prepare_localization_collection format_evidence_time
  prepared_aware = ground arith

  pub prepared_valid : rt.valid_incident u ≡ true
  unfolding prepare_localization_collection
  prepared_valid = ground arith

  pub prepared-IsAdmitted :
      All (IsAdmitted rt i.incident_id (downstream_scope rt i selection)) items
  unfolding prepare_localization_collection
  prepared-IsAdmitted = elim (Result-cases (check_window rt i window now)) [
    | inl (e, h) ↦ absurd (ground arith)
    | inr ((start, finish), h) ↦
        elim (Result-cases (make_scope (downstream_scope rt i selection))) [
          | inl (e, k) ↦ absurd (ground arith)
          | inr (scope, k) ↦
              check_candidates-IsAdmitted rt i.incident_id selection
                (downstream_scope rt i selection) start finish items
                (ground (arith, make_scope_lem (downstream_scope rt i selection) scope k))
        ]
  ]

  -- A prepared supplemental collection is one of a LOCALIZING incident: the incident that it gives is
  -- valid and keeps its id, its deduplication key and its status, every Evidence item is valid, of
  -- that incident and in the selected scope, and the checkpoint holds the selection and the window
  -- with distinct, allowed and finished collectors.
  pub prepared_lem :
      (i.status ≡ localizing)
      × (rt.valid_incident u ≡ true)
      × ((u.incident_id ≡ i.incident_id)
          × (u.deduplication_key ≡ i.deduplication_key)
          × (u.status ≡ i.status))
      × All (IsAdmitted rt i.incident_id (downstream_scope rt i selection)) items
      × (c.selection ≡ selection)
      × (c.window ≡ window)
      × (unique (names_of rt c.collector_statuses) ≡ true)
      × (subset (names_of rt c.collector_statuses) localization_collectors ≡ true)
      × (all (λ s. is_final s.status) c.collector_statuses ≡ true)
  unfolding prepare_localization_collection check_statuses
  prepared_lem = (
    prepared_status,
    prepared_valid,
    prepared_identity,
    prepared-IsAdmitted,
    ground arith,
    ground arith,
    ground arith,
    ground arith,
    ground arith,
  )
