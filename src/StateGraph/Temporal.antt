-- ===== src/StateGraph/Temporal.antt =====
-- The invariant of `InMemoryStateGraphRepository` of src/incident_platform/stategraph.py, and that its
-- writes keep it.
use agent_rca.Prelude.{
  String, Bool, true, some, List, [], ◌∷◌, ◌≡◌, refl, inl, inr, map, arith, Bool-cases,
  Option-cases, ◌&&◌, ◌==◌, eq_iff,
}
use agent_rca.Outcome.{ok, Result-cases}
use agent_rca.Time.{DateTime, at_most}
use agent_rca.Dict.{lookup, has, lookup-insert}
use agent_rca.Repository.{rows}
use agent_rca.Runtime.{parse_time}
use agent_rca.StateGraph.{Snapshot, Relation, GraphRuntime, StateGraph, of_snapshot, of_relation}
use agent_rca.StateGraph.Validate.{validate_graph_record, parse_optional, ends_after}
use agent_rca.StateGraph.Write.{
  require_entity, require_snapshot_history, put_snapshots, put_relations, append_or_extend_snapshot,
  append_or_extend_relation, extend_snapshots, extend_relations,
}
use agent_rca.StateGraph.Timeline.{IsTimeline, IsInterval, snapshot_interval, relation_interval}
use agent_rca.StateGraph.Snapshots.{extended}
use agent_rca.StateGraph.Relations.{extended_relations}

-- Every history is a timeline, and exactly the entities have a snapshot history.
pub record IsTemporal (g : GraphRuntime) (s : StateGraph) : Type 0 where
  pub snapshots :
      (id : String) (h : List Snapshot)
      → lookup id s.snapshots_by_entity ≡ some h
      → IsTimeline g.runtime (map snapshot_interval h)
  pub relations :
      (key : String) (h : List Relation)
      → lookup key s.relations_by_key ≡ some h
      → IsTimeline g.runtime (map relation_interval h)
  pub same_rows : (id : String) → has id s.snapshots_by_entity ≡ has id s.entities

module _ (g : GraphRuntime) where
  pub put_snapshots-IsTemporal :
      (id : String) (h : List Snapshot) {s : StateGraph}
      → has id s.entities ≡ true
      → IsTimeline g.runtime (map snapshot_interval h)
      → IsTemporal g s
      → IsTemporal g (put_snapshots id h s)
  put_snapshots-IsTemporal id h {s} known p w = record {
    snapshots = λ j k e. elim (Bool-cases (id == j)) [
      | inl hit ↦
          let same : h ≡ k = ground (arith, lookup-insert id j h s.snapshots_by_entity) in
          rw (← same) p
      | inr miss ↦ w.snapshots j k (ground (arith, lookup-insert id j h s.snapshots_by_entity))
    ];
    relations = w.relations;
    same_rows = λ j. ground (
      arith,
      w.same_rows j,
      w.same_rows id,
      eq_iff id j,
      lookup-insert id j h s.snapshots_by_entity,
    );
  }

  pub put_relations-IsTemporal :
      (key : String) (h : List Relation) {s : StateGraph}
      → IsTimeline g.runtime (map relation_interval h)
      → IsTemporal g s
      → IsTemporal g (put_relations key h s)
  put_relations-IsTemporal key h {s} p w = record {
    snapshots = w.snapshots;
    relations = λ j k e. elim (Bool-cases (key == j)) [
      | inl hit ↦
          let same : h ≡ k = ground (arith, lookup-insert key j h s.relations_by_key) in
          rw (← same) p
      | inr miss ↦ w.relations j k (ground (arith, lookup-insert key j h s.relations_by_key))
    ];
    same_rows = w.same_rows;
  }

  -- the history of a known relation key, or none yet
  relation_rows :
      (key : String) {s : StateGraph}
      → IsTemporal g s
      → IsTimeline g.runtime (map relation_interval (rows (lookup key s.relations_by_key)))
  relation_rows key {s} w = elim (Option-cases (lookup key s.relations_by_key)) [
    | inl gone ↦ rw gone tt
    | inr (h, there) ↦ rw there (w.relations key h there)
  ]

  module _ (replace : Bool) (observed from : DateTime) {s : StateGraph} (w : IsTemporal g s) where
    stored_snapshot :
        (c : Snapshot) (history : List Snapshot)
        → has c.entity_id s.entities ≡ true
        → lookup c.entity_id s.snapshots_by_entity ≡ some history
        → IsInterval g.runtime (snapshot_interval c)
        → parse_time g.runtime c.valid_from ≡ ok from
        → IsTemporal g (extend_snapshots g replace c observed from history s).1
    unfolding extend_snapshots
    stored_snapshot c [] known there i p = put_snapshots-IsTemporal c.entity_id (c ∷ []) known i w
    stored_snapshot c (latest ∷ older) known there i p =
        let timeline = w.snapshots c.entity_id (latest ∷ older) there in
        elim (extended g replace c observed from latest older s timeline i p) [
          | inl e ↦ rw e w
          | inr (h, e, t) ↦ rw e (put_snapshots-IsTemporal c.entity_id h known t w)
        ]

    stored_relation :
        (c : Relation) (history : List Relation)
        → rows (lookup c.relation_key s.relations_by_key) ≡ history
        → IsInterval g.runtime (relation_interval c)
        → parse_time g.runtime c.valid_from ≡ ok from
        → IsTemporal g (extend_relations g replace c observed from history s).1
    unfolding extend_relations
    stored_relation c [] there i p = put_relations-IsTemporal c.relation_key (c ∷ []) i w
    stored_relation c (latest ∷ older) there i p =
        let timeline = relation_rows c.relation_key w in
        elim (extended_relations g replace c observed from latest older s (rw there at timeline) i
          p) [
            | inl e ↦ rw e w
            | inr (h, e, t) ↦ rw e (put_relations-IsTemporal c.relation_key h t w)
          ]

  pub append_snapshot-IsTemporal :
      (replace : Bool) (c : Snapshot) {s : StateGraph}
      → IsTemporal g s
      → IsTemporal g (append_or_extend_snapshot g replace c s).1
  unfolding append_or_extend_snapshot require_snapshot_history require_entity
  append_snapshot-IsTemporal replace c {s} w =
      elim (Result-cases (validate_graph_record g (of_snapshot c))) [
        | inl (e, v) ↦ rw v w
        | inr (u, v) ↦ rw v (elim (Result-cases (parse_time g.runtime c.observed_at)) [
          | inl (e, o) ↦ rw o w
          | inr (observed, o) ↦ rw o (elim (Result-cases (parse_time g.runtime c.valid_from)) [
            | inl (e, p) ↦ rw p w
            | inr (from, p) ↦ rw p (elim (Result-cases (parse_optional g.runtime c.valid_to)) [
              | inl (e, q) ↦ rw q w
              | inr (to, q) ↦
                  rw q (elim (Bool-cases (at_most from observed && ends_after from to)) [
                    | inr no_interval ↦ rw no_interval w
                    | inl fits ↦ rw fits (elim (Option-cases (lookup c.entity_id s.entities)) [
                      | inl gone ↦ rw gone w
                      | inr (entity, known) ↦
                          rw known (elim (Option-cases (lookup c.entity_id s.snapshots_by_entity)) [
                            | inl none_there ↦ rw none_there w
                            | inr (history, there) ↦ rw there (
                                stored_snapshot replace observed from w c history (rw known refl)
                                  there (from, to, p, q, ground arith) p)
                          ])
                    ])
                  ])
            ])
          ])
        ])
      ]

  pub append_relation-IsTemporal :
      (replace : Bool) (c : Relation) {s : StateGraph}
      → IsTemporal g s
      → IsTemporal g (append_or_extend_relation g replace c s).1
  unfolding append_or_extend_relation require_entity
  append_relation-IsTemporal replace c {s} w =
      elim (Result-cases (validate_graph_record g (of_relation c))) [
        | inl (e, v) ↦ rw v w
        | inr (u, v) ↦ rw v (elim (Result-cases (parse_time g.runtime c.observed_at)) [
          | inl (e, o) ↦ rw o w
          | inr (observed, o) ↦ rw o (elim (Result-cases (parse_time g.runtime c.valid_from)) [
            | inl (e, p) ↦ rw p w
            | inr (from, p) ↦ rw p (elim (Result-cases (parse_optional g.runtime c.valid_to)) [
              | inl (e, q) ↦ rw q w
              | inr (to, q) ↦
                  rw q (elim (Bool-cases (at_most from observed && ends_after from to)) [
                    | inr no_interval ↦ rw no_interval w
                    | inl fits ↦
                        rw fits (elim (Option-cases (lookup c.source_entity_id s.entities)) [
                          | inl gone ↦ rw gone w
                          | inr (source, known) ↦
                              rw known
                                (elim (Option-cases (lookup c.destination_entity_id s.entities)) [
                                  | inl gone ↦ rw gone w
                                  | inr (destination, there) ↦ rw there (
                                      stored_relation replace observed from w c _ refl
                                        (from, to, p, q, ground arith) p)
                                ])
                        ])
                  ])
            ])
          ])
        ])
      ]
