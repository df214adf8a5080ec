-- ===== src/Repository/Supplement.antt =====
-- What `store_localization_collection` of src/incident_platform/repository.py leaves behind: nothing
-- where it raises, and the writes of its candidates, its incident and its checkpoint otherwise.
use agent_rca.Prelude.{
  String, ◌≡◌, refl, sym, ap, ◌∙◌, true, false, none, some, List, [], ◌∷◌, arith, ◌⊎◌, inl, inr,
  Option-cases, Bool-cases, subset, All,
}
use agent_rca.Outcome.{Error, ok, err, Result-cases}
use agent_rca.Time.{DateTime}
use agent_rca.Dict.{
  Dict, lookup, insert, has, keys, is_some, lookup-insert_self, insert-insert, insert_same,
}
use agent_rca.Incident.{Incident, CollectorStatus}
use agent_rca.Documents.{
  Evidence, Selection, Span, Checkpoint, localization_completed, Evidence-discrete,
  compared_evidence,
}
use agent_rca.Runtime.{Runtime, format_time}
use agent_rca.Checkpoint.Prepare.{prepare_localization_collection}
use agent_rca.Checkpoint.Guards.{prepared_identity, prepared_aware, prepared-IsAdmitted}
use agent_rca.Repository.{Repository, evidence_of, audit_of}
use agent_rca.Repository.Documents.{agrees}
use agent_rca.Repository.Storing.{OwnedBy}
use agent_rca.Repository.Localization.{
  first_checkpoint, add_evidence, put_rows, has_context, write_localization, checkpoint_or_write,
  store_localization_collection,
}
use agent_rca.Repository.Step.{
  committed, Steps, Steps-eq, Steps-one, Steps-trans, step, gathers, updates, live,
}
use agent_rca.Repository.Step.Index.{IsIndexed}

-- Candidates that fit the rows are gathered one by one.
add-Steps :
    (r : Repository) (id : String) (items : List Evidence) (stored merged : Dict Evidence)
    → OwnedBy id items
    → has id r.incidents ≡ true
    → add_evidence items stored ≡ ok merged
    → Steps (put_rows id stored r) (put_rows id merged r)
unfolding add_evidence
add-Steps r id [] stored merged own there h = Steps-eq (ground arith)
add-Steps r id (e ∷ es) stored merged own there h =
    elim (Bool-cases (agrees Evidence-discrete compared_evidence (lookup e.evidence_id stored) e)) [
      | inr clash ↦ absurd (ground arith)
      | inl fits ↦
          step
            (gathers id e own.0 there (rw lookup-insert_self fits)
              (rw (lookup-insert_self, insert-insert) refl))
            (add-Steps r id es (insert e.evidence_id e stored) merged own.1 there (ground arith))
    ]

module _ (rt : Runtime) (id : String) (selection : Selection) (items : List Evidence)
    (now : DateTime) (u : Incident) (c : Checkpoint) (r : Repository) where
  -- The write happens as a whole or not at all.
  pub write_cases :
      now.aware ≡ true
      → ((write_localization rt id selection items now (u, c) r).1 ≡ r)
        ⊎ ((merged : Dict Evidence) × (has_context id r ≡ false)
            × (subset selection.feature_evidence_ids (keys (evidence_of id r)) ≡ true)
            × (add_evidence items (evidence_of id r) ≡ ok merged)
            × ((write_localization rt id selection items now (u, c) r).1
                ≡ committed id u
                    (localization_completed c)
                    (rt.render now.instant)
                    (put_rows id merged r)))
  unfolding write_localization format_time
  write_cases aware = elim (Result-cases (add_evidence items (evidence_of id r))) [
    | inl (e, h) ↦ inl (ground arith)
    | inr (merged, h) ↦ elim (Bool-cases (has_context id r)) [
      | inl frozen ↦ inl (ground arith)
      | inr open_ ↦
          elim (Bool-cases (subset selection.feature_evidence_ids (keys (evidence_of id r)))) [
            | inr missing ↦ inl (ground arith)
            | inl known ↦ inr (merged, open_, known, h, ground arith)
          ]
    ]
  ]

put_rows_same :
    (r : Repository) (id : String)
    → has id r.evidence_by_incident ≡ true
    → put_rows id (evidence_of id r) r ≡ r
put_rows_same r id there = elim (Option-cases (lookup id r.evidence_by_incident)) [
  | inl e ↦ absurd (ground arith)
  | inr (v, e) ↦ rw (e, insert_same id v r.evidence_by_incident e) refl
]

All-map {ℓ κ μ} :
    {A : Type ℓ} (P : A → Type κ) (Q : A → Type μ) (xs : List A)
    → ((a : A) → P a → Q a)
    → All P xs
    → All Q xs
All-map P Q [] f h = tt
All-map P Q (x ∷ xs) f h = (f x h.0, All-map P Q xs f h.1)

module _ (rt : Runtime) (id : String) (selection : Selection) (window : Span)
    (statuses : List CollectorStatus) (items : List Evidence) (now : DateTime)
    (r : Repository) where
  abbrev left : Repository
  left = (store_localization_collection rt id selection window statuses items now r).1

  unknown_incident : lookup id r.incidents ≡ none → left ≡ r
  unfolding store_localization_collection
  unknown_incident e = ground arith

  module _ (i : Incident) (there : lookup id r.incidents ≡ some i) where
    refused :
        (e : Error)
        → prepare_localization_collection rt i selection window statuses items now ≡ err e
        → left ≡ r
    unfolding store_localization_collection
    refused e h = ground arith

    prepared :
        (u : Incident) (c : Checkpoint)
        → prepare_localization_collection rt i selection window statuses items now ≡ ok (u, c)
        → (left ≡ r) ⊎ (left ≡ (write_localization rt id selection items now (u, c) r).1)
    unfolding store_localization_collection checkpoint_or_write
    prepared u c h = elim (Option-cases (first_checkpoint (audit_of id r))) [
      | inl first ↦ inr (ground arith)
      | inr (old, known) ↦ inl (ground arith)
    ]

    written :
        (u : Incident) (c : Checkpoint)
        → IsIndexed r
        → prepare_localization_collection rt i selection window statuses items now ≡ ok (u, c)
        → Steps r (write_localization rt id selection items now (u, c) r).1
    written u c h p =
        elim (write_cases rt id selection items now u c r
          (prepared_aware rt i selection window statuses items now u c p)) [
            | inl same ↦ Steps-eq same
            | inr (merged, open_, known, added, e) ↦
                Steps-trans
                  (rw (put_rows_same r id (h.evidence_rows id ∙ ap is_some there)) at (
                    add-Steps r id items (evidence_of id r) merged
                      (All-map _ _ items (λ x a. a.owned ∙ h.own_id id i there)
                        (prepared-IsAdmitted rt i selection window statuses items now u c p))
                      (ap is_some there) added))
                  (Steps-one (
                    updates id i u (localization_completed c) (rt.render now.instant) there
                      (record {
                        incident_id =
                            (prepared_identity rt i selection window statuses items now u c p).0;
                        deduplication_key =
                            (prepared_identity rt i selection window statuses items now u c p).1;
                      })
                      (ap live
                        (sym (prepared_identity rt i selection window statuses items now u c p).2))
                      e))
          ]

  pub store_localization-Steps : IsIndexed r → Steps r left
  store_localization-Steps h = elim (Option-cases (lookup id r.incidents)) [
    | inl e ↦ Steps-eq (unknown_incident e)
    | inr (i, there) ↦
        elim (Result-cases
          (prepare_localization_collection rt i selection window statuses items now)) [
            | inl (e, p) ↦ Steps-eq (refused i there e p)
            | inr ((u, c), p) ↦ elim (prepared i there u c p) [
              | inl same ↦ Steps-eq same
              | inr same ↦ rw same (written i there u c h p)
            ]
          ]
  ]

  write_error :
      (u : Incident) (c : Checkpoint) (e : Error)
      → now.aware ≡ true
      → (write_localization rt id selection items now (u, c) r).0 ≡ err e
      → (write_localization rt id selection items now (u, c) r).1 ≡ r
  unfolding write_localization format_time
  write_error u c e aware h = elim (Result-cases (add_evidence items (evidence_of id r))) [
    | inl (f, k) ↦ ground arith
    | inr (merged, k) ↦ ground arith
  ]

  -- A supplemental collection that raises leaves the repository as it was: neither Evidence nor the
  -- incident nor the audit trail keeps a part of it.
  pub store_localization_error :
      (e : Error)
      → (store_localization_collection rt id selection window statuses items now r).0 ≡ err e
      → (store_localization_collection rt id selection window statuses items now r).1 ≡ r
  unfolding store_localization_collection checkpoint_or_write
  store_localization_error e h = elim (Option-cases (lookup id r.incidents)) [
    | inl free ↦ unknown_incident free
    | inr (i, there) ↦
        elim (Result-cases
          (prepare_localization_collection rt i selection window statuses items now)) [
            | inl (f, p) ↦ refused i there f p
            | inr ((u, c), p) ↦ elim (Option-cases (first_checkpoint (audit_of id r))) [
              | inl first ↦ ground (
                arith,
                write_error u c e (prepared_aware rt i selection window statuses items now u c p),
              )
              | inr (old, known) ↦ ground arith
            ]
          ]
  ]

  -- Once an incident has a checkpoint, a further supplemental collection of it changes nothing, and
  -- if it returns at all it returns that first checkpoint.
  pub store_localization_once :
      (c : Checkpoint)
      → first_checkpoint (audit_of id r) ≡ some c
      → ((store_localization_collection rt id selection window statuses items now r).1 ≡ r)
        × ((d : Checkpoint)
            → (store_localization_collection rt id selection window statuses items now r).0 ≡ ok d
            → d ≡ c)
  unfolding store_localization_collection checkpoint_or_write
  store_localization_once c known = (ground arith, λ d h. ground arith)
