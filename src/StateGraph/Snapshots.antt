-- ===== src/StateGraph/Snapshots.antt =====
-- What the appends to a snapshot history of src/incident_platform/stategraph.py leave.
use mathlib.Core.Path.{subst}
use agent_rca.Prelude.{
  String, Bool, true, Option, none, some, List, ◌∷◌, ◌≡◌, refl, ◌⊎◌, inl, inr, map, arith,
  Bool-cases, ◌&&◌, ◌==◌,
}
use agent_rca.Outcome.{ok, Result-cases}
use agent_rca.Time.{DateTime, at_most}
use agent_rca.Runtime.{parse_time, format_evidence_time}
use agent_rca.StateGraph.{Snapshot, GraphRuntime, StateGraph, of_snapshot}
use agent_rca.StateGraph.Validate.{
  parse_optional, ended_by, later_of, same_object, validate_graph_record,
}
use agent_rca.StateGraph.Write.{
  put_snapshots, extend_snapshots, append_snapshot, refresh_snapshot, is_open, new_ids,
}
use agent_rca.StateGraph.Timeline.{snapshot_interval, IsInterval, IsTimeline, appended, succeeded}

module _ (g : GraphRuntime) where
  -- What an append leaves: the graph as it was, or one history changed into another timeline.
  abbrev pub SnapshotsLeft : String → StateGraph → StateGraph → Type 0
  SnapshotsLeft id s t =
      (t ≡ s)
      ⊎ ((h : List Snapshot) × (t ≡ put_snapshots id h s)
          × IsTimeline g.runtime (map snapshot_interval h))

  module _ (replace : Bool) (c : Snapshot) (observed from : DateTime) (latest : Snapshot)
      (older : List Snapshot) (s : StateGraph)
      (timeline : IsTimeline g.runtime (map snapshot_interval (latest ∷ older))) where
    refreshed : SnapshotsLeft c.entity_id s (refresh_snapshot g replace c observed latest older s).1
    unfolding refresh_snapshot
    refreshed = elim (Bool-cases (same_object latest.state c.state)) [
      | inr other ↦ rw other (inl refl)
      | inl same ↦ rw same (elim (Result-cases (parse_time g.runtime latest.observed_at)) [
        | inl (e, p) ↦ rw p (inl refl)
        | inr (before, p) ↦
            rw p (elim (Result-cases (format_evidence_time g.runtime (later_of before observed))) [
              | inl (e, q) ↦ rw q (inl refl)
              | inr (stamp, q) ↦ rw q (
                  let updated : Snapshot = record latest {
                    observed_at = stamp;
                    evidence_ids = new_ids replace latest.evidence_ids c.evidence_ids;
                  } in
                  elim (Result-cases (validate_graph_record g (of_snapshot updated))) [
                    | inl (e, r) ↦ rw r (inl refl)
                    | inr (u, r) ↦ rw r (inr (updated ∷ older, refl, timeline))
                  ])
            ])
      ])
    ]

    appended_snapshot :
        (f : DateTime) (to : Option String) (b : Option DateTime)
        → latest.valid_to ≡ to
        → IsInterval g.runtime (snapshot_interval c)
        → parse_time g.runtime c.valid_from ≡ ok from
        → parse_time g.runtime latest.valid_from ≡ ok f
        → parse_optional g.runtime to ≡ ok b
        → at_most f from ≡ true
        → ended_by b from ≡ true
        → SnapshotsLeft c.entity_id s (append_snapshot g c latest older to s).1
    unfolding append_snapshot
    appended_snapshot f none b o i p q r a e =
        let closed : Snapshot = record latest { valid_to = some c.valid_from } in
        elim (Result-cases (validate_graph_record g (of_snapshot closed))) [
          | inl (x, bad) ↦ rw bad (inl refl)
          | inr (x, good) ↦ rw good (
              inr (
                c ∷ closed ∷ older,
                refl,
                succeeded g.runtime (snapshot_interval c) latest.valid_from
                    (map snapshot_interval older) f from
                    (subst
                      (λ (u : Option String).
                        IsTimeline g.runtime ((latest.valid_from, u) ∷ map snapshot_interval older))
                      o timeline)
                    i q p a,
              ))
        ]
    appended_snapshot f (some t) b o i p q r a e = inr (
      c ∷ latest ∷ older,
      refl,
      appended g.runtime (snapshot_interval c) latest.valid_from latest.valid_to
          (map snapshot_interval older) from b timeline i p (rw o r) e (rw o refl),
    )

    pub extended :
        IsInterval g.runtime (snapshot_interval c)
        → parse_time g.runtime c.valid_from ≡ ok from
        → SnapshotsLeft c.entity_id s
            (extend_snapshots g replace c observed from (latest ∷ older) s).1
    unfolding extend_snapshots
    extended i p = elim (Result-cases (parse_time g.runtime latest.valid_from)) [
      | inl (e, q) ↦ rw q (inl refl)
      | inr (f, q) ↦ rw q (elim (Result-cases (parse_optional g.runtime latest.valid_to)) [
        | inl (e, r) ↦ rw r (inl refl)
        | inr (b, r) ↦ rw r (elim (Bool-cases (at_most f from && ended_by b from)) [
          | inr late ↦ rw late (inl refl)
          | inl fits ↦
              rw fits
                (elim (Bool-cases (is_open latest.valid_to && latest.state_hash == c.state_hash)) [
                  | inl again ↦ rw again refreshed
                  | inr new ↦ rw new (
                      appended_snapshot f latest.valid_to b refl i p q r (ground arith)
                        (ground arith))
                ])
        ])
      ])
    ]
