-- ===== src/Checkpoint/Merging.antt =====
-- A supplemental collection never erases a failure of the initial one.
use agent_rca.Prelude.{
  String, ◌≡◌, refl, ◌∙◌, false, some, List, [], ◌∷◌, arith, ◌==◌, eq_iff, inl, inr, Bool-cases,
  if◌then◌else◌,
}
use agent_rca.Dict.{Dict, lookup, lookup-insert}
use agent_rca.Incident.{CollectorStatus}
use agent_rca.Checkpoint.{is_succeeded, merge_status, merge_statuses, by_collector}

-- One collector that ran twice has succeeded exactly if both runs have.
pub merge_status-succeeded :
    (old new : CollectorStatus)
    → is_succeeded (merge_status old new).status
      ≡ (if is_succeeded old.status then is_succeeded new.status else false)
unfolding merge_status
merge_status-succeeded old new = ground arith

-- Later runs keep the failure of a collector.
failure_kept :
    (statuses : List CollectorStatus) (merged : Dict CollectorStatus) (name : String)
    (old : CollectorStatus)
    → lookup name merged ≡ some old
    → is_succeeded old.status ≡ false
    → (s : CollectorStatus) × (lookup name (merge_statuses statuses merged) ≡ some s)
      × (is_succeeded s.status ≡ false)
unfolding merge_statuses
failure_kept [] merged name old there bad = (old, there, bad)
failure_kept (n ∷ ns) merged name old there bad = elim (Bool-cases (n.collector == name)) [
  | inl hit ↦
      failure_kept ns _ name (merge_status old n)
        (rw (lookup-insert, hit) (rw ((eq_iff n.collector name).0 hit, there) refl))
        (merge_status-succeeded old n ∙ rw bad refl)
  | inr miss ↦ failure_kept ns _ name old (rw (lookup-insert, miss) there) bad
]

-- A collector whose initial status was not SUCCEEDED is, after any supplemental statuses are merged,
-- still listed under its name with a status that is not SUCCEEDED.
pub merged_failure :
    (initial supplemental : List CollectorStatus) (name : String) (old : CollectorStatus)
    → lookup name (by_collector initial []) ≡ some old
    → is_succeeded old.status ≡ false
    → (s : CollectorStatus) × (lookup name (merge_statuses supplemental (by_collector initial []))
        ≡ some s)
      × (is_succeeded s.status ≡ false)
merged_failure initial supplemental name old there bad =
    failure_kept supplemental (by_collector initial []) name old there bad
