-- ===== src/StateGraph/Relations.antt =====
-- What the appends to a relation history of src/incident_platform/stategraph.py leave.
use agent_rca.Prelude.{
  String, Bool, true, Option, none, some, List, ◌∷◌, ◌≡◌, refl, ◌⊎◌, inl, inr, map, arith,
  Bool-cases, ◌&&◌,
}
use agent_rca.Outcome.{ok, Result-cases}
use agent_rca.Time.{DateTime, at_most}
use agent_rca.Runtime.{parse_time, format_evidence_time}
use agent_rca.StateGraph.{Relation, GraphRuntime, StateGraph, of_relation}
use agent_rca.StateGraph.Validate.{parse_optional, ended_by, later_of, validate_graph_record}
use agent_rca.StateGraph.Write.{
  put_relations, new_ids, extend_relations, renew_relation, same_relation,
}
use agent_rca.StateGraph.Timeline.{relation_interval, IsInterval, IsTimeline, appended}

module _ (g : GraphRuntime) where
  -- What an append leaves: the graph as it was, or one history changed into another timeline, with no
  -- interval of another source or destination.
  abbrev pub RelationsLeft : Relation → StateGraph → StateGraph → Type 0
  RelationsLeft c s t =
      (t ≡ s)
      ⊎ ((h : List Relation) × (t ≡ put_relations c.relation_key h s)
          × IsTimeline g.runtime (map relation_interval h))

  module _ (replace : Bool) (c : Relation) (observed from : DateTime) (latest : Relation)
      (older : List Relation) (s : StateGraph)
      (timeline : IsTimeline g.runtime (map relation_interval (latest ∷ older))) where
    renewed :
        (f : DateTime) (to : Option String) (b : Option DateTime)
        → latest.valid_to ≡ to
        → IsInterval g.runtime (relation_interval c)
        → parse_time g.runtime c.valid_from ≡ ok from
        → parse_optional g.runtime to ≡ ok b
        → ended_by b from ≡ true
        → RelationsLeft c s (renew_relation g replace c observed latest older to s).1
    unfolding renew_relation
    renewed f none b o i p r e = elim (Result-cases (parse_time g.runtime latest.observed_at)) [
      | inl (x, q) ↦ rw q (inl refl)
      | inr (before, q) ↦
          rw q (elim (Result-cases (format_evidence_time g.runtime (later_of before observed))) [
            | inl (x, k) ↦ rw k (inl refl)
            | inr (stamp, k) ↦ rw k (
                let updated : Relation = record latest {
                  observed_at = stamp;
                  evidence_ids = new_ids replace latest.evidence_ids c.evidence_ids;
                } in
                elim (Result-cases (validate_graph_record g (of_relation updated))) [
                  | inl (x, v) ↦ rw v (inl refl)
                  | inr (u, v) ↦ rw v (inr (updated ∷ older, refl, timeline))
                ])
          ])
    ]
    renewed f (some t) b o i p r e = inr (
      c ∷ latest ∷ older,
      refl,
      appended g.runtime (relation_interval c) latest.valid_from latest.valid_to
          (map relation_interval older) from b timeline i p (rw o r) e (rw o refl),
    )

    pub extended_relations :
        IsInterval g.runtime (relation_interval c)
        → parse_time g.runtime c.valid_from ≡ ok from
        → RelationsLeft c s (extend_relations g replace c observed from (latest ∷ older) s).1
    unfolding extend_relations
    extended_relations i p = elim (Bool-cases (same_relation latest c)) [
      | inr other ↦ rw other (inl refl)
      | inl same ↦ rw same (elim (Result-cases (parse_time g.runtime latest.valid_from)) [
        | inl (e, q) ↦ rw q (inl refl)
        | inr (f, q) ↦ rw q (elim (Result-cases (parse_optional g.runtime latest.valid_to)) [
          | inl (e, r) ↦ rw r (inl refl)
          | inr (b, r) ↦ rw r (elim (Bool-cases (at_most f from && ended_by b from)) [
            | inr late ↦ rw late (inl refl)
            | inl fits ↦ rw fits (renewed f latest.valid_to b refl i p r (ground arith))
          ])
        ])
      ])
    ]
