-- ===== src/Repository/Localization.antt =====
-- `get_localization_collection` and `store_localization_collection` of
-- src/incident_platform/repository.py.
use agent_rca.Prelude.{
  String, Bool, Option, none, some, List, [], ◌∷◌, ◌==◌, not, any, subset, holds, if◌then◌else◌,
}
use agent_rca.Outcome.{
  Result, ok, err, invalid_transition, pure, raise, lift, modify, require, ◌>>=◌, ◌>>◌,
}
use agent_rca.Time.{DateTime}
use agent_rca.Dict.{Dict, lookup, insert, keys, values}
use agent_rca.Incident.{Incident, CollectorStatus}
use agent_rca.Documents.{
  Evidence, Context, Selection, Span, Checkpoint, AuditDetails, AuditEvent, localization_completed,
  Evidence-discrete, Checkpoint-discrete, compared_evidence,
}
use agent_rca.Runtime.{Runtime}
use agent_rca.Checkpoint.Prepare.{prepare_localization_collection}
use agent_rca.Repository.{
  Repository, Repo, require_incident, append_audit_event, put_incident, evidence_of, audit_of,
}
use agent_rca.Repository.Documents.{agrees}

-- the checkpoint of the first such event
abbrev checkpoint_in : AuditDetails → Option Checkpoint
checkpoint_in (localization_completed c) = some c
checkpoint_in _ = none

abbrev pub or_else {ℓ} : {A : Type ℓ} → Option A → Option A → Option A
or_else (some a) b = some a
or_else none b = b

unfoldable pub first_checkpoint : List AuditEvent → Option Checkpoint
first_checkpoint [] = none
first_checkpoint (e ∷ es) = or_else (checkpoint_in e.details) (first_checkpoint es)

unfoldable pub get_localization_collection : String → Repo (Option Checkpoint)
unfolding require_incident first_checkpoint
get_localization_collection id = do
  require_incident id
  (λ r. (ok (first_checkpoint (audit_of id r)), r))

-- the loop over the candidates, on a copy of the stored rows
unfoldable pub add_evidence : List Evidence → Dict Evidence → Result (Dict Evidence)
add_evidence [] stored = ok stored
add_evidence (e ∷ es) stored =
    let rest = add_evidence es (insert e.evidence_id e stored) in
    if agrees Evidence-discrete compared_evidence (lookup e.evidence_id stored) e
    then rest
    else err invalid_transition

abbrev pub put_rows : String → Dict Evidence → Repository → Repository
put_rows id rows r = record r { evidence_by_incident = insert id rows r.evidence_by_incident }

abbrev pub has_context : String → Repository → Bool
has_context id r = any (λ (c : Context). c.incident_id == id) (values r.contexts)

module _ (rt : Runtime) where
  -- the part of the method after the checkpoint was found missing
  unfoldable pub write_localization :
      String → Selection → List Evidence → DateTime → Incident × Checkpoint → Repo Checkpoint
  unfolding append_audit_event
  write_localization id selection items now (updated, details) = do
    frozen ← (λ r. (ok (has_context id r), r))
    require (not frozen) invalid_transition
    stored ← (λ r. (ok (evidence_of id r), r))
    require (subset selection.feature_evidence_ids (keys stored)) invalid_transition
    merged ← lift (add_evidence items stored)
    modify (put_rows id merged)
    modify (put_incident id updated)
    append_audit_event rt id (localization_completed details) now
    pure details

  -- the branch on `previous`
  unfoldable pub checkpoint_or_write :
      String
      → Selection
      → List Evidence
      → DateTime
      → Incident × Checkpoint
      → Option Checkpoint
      → Repo Checkpoint
  unfolding write_localization
  checkpoint_or_write id selection items now prepared (some previous) =
      if holds (Checkpoint-discrete previous prepared.1)
      then pure previous
      else raise invalid_transition
  checkpoint_or_write id selection items now prepared none =
      write_localization id selection items now prepared

  unfoldable pub store_localization_collection :
      String → Selection → Span → List CollectorStatus → List Evidence → DateTime → Repo Checkpoint
  unfolding require_incident get_localization_collection
  store_localization_collection id selection window statuses items now = do
    incident ← require_incident id
    prepared ←
        lift (prepare_localization_collection rt incident selection window statuses items now)
    previous ← get_localization_collection id
    checkpoint_or_write id selection items now prepared previous
