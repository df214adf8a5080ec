-- ===== src/StateGraph/Reconcile.antt =====
-- `reconcile_projection` of `InMemoryStateGraphRepository` of src/incident_platform/stategraph.py: what a
-- complete projection cycle no longer shows is retired. An exception puts the backup back.
use agent_rca.Prelude.{
  ℕ, ◌+◌, String, Bool, true, false, Option, none, some, List, [], ◌∷◌, ◌==◌, ◌&&◌, ◌||◌, not,
  if◌then◌else◌, mem, length,
}
use agent_rca.Outcome.{
  Result, ok, err, contract_violation, index_error, pure, lift, modify, require, ◌>>=◌, ◌>>◌,
}
use agent_rca.Time.{DateTime, at_most}
use agent_rca.Dict.{Dict, lookup, insert}
use agent_rca.Runtime.{parse_time, format_evidence_time}
use agent_rca.Repository.{rows}
use agent_rca.StateGraph.{
  Entity, Snapshot, Relation, GraphRecord, of_entity, of_snapshot, of_relation, GraphRuntime,
  StateGraph, Graph,
}
use agent_rca.StateGraph.Validate.{validate_graph_record}
use agent_rca.StateGraph.Write.{put_snapshots, put_relations, is_open}
use agent_rca.StateGraph.Entities.{Grouped, ingest_grouped}
use agent_rca.StateGraph.Plan.{ReconciliationScope, owns_entity, Plan, build_reconciliation_plan}

-- `StateGraphReconciliationResult`
pub record ReconciliationResult : Type 0 where
  pub ingested_records : ℕ
  pub current_entities : ℕ
  pub current_relations : ℕ
  pub retired_entities : ℕ
  pub closed_snapshot_intervals : ℕ
  pub closed_relation_intervals : ℕ

abbrev pub record_count : Grouped → ℕ
record_count d =
    length d.entity
    + length d.snapshot_interval
    + length d.relation_interval
    + length d.event_aggregate

module _ (g : GraphRuntime) (scope : ReconciliationScope) (plan : Plan)
    (observed_text : String) where
  unfoldable pub retire_entity : String → Entity → Graph ℕ
  retire_entity id e = if not e.exists then pure 0 else do
    let updated = record e { exists = false; last_seen_at = observed_text }
    lift (validate_graph_record g (of_entity updated))
    modify (λ s. record s { entities = insert id updated s.entities })
    pure 1

  -- `history and history[-1]["valid_to"] is None`
  unfoldable pub close_snapshot : String → List Snapshot → Graph ℕ
  close_snapshot id [] = pure 0
  close_snapshot id (latest ∷ older) = if not (is_open latest.valid_to) then pure 0 else do
    from ← lift (parse_time g.runtime latest.valid_from)
    require (at_most from plan.observed_at) contract_violation
    let closed = record latest { valid_to = some observed_text; observed_at = observed_text }
    lift (validate_graph_record g (of_snapshot closed))
    modify (put_snapshots id (closed ∷ older))
    pure 1

  -- the loop's body for one entity: whether it was retired, and whether its snapshot interval closed
  unfoldable pub retire_one : String → Entity → Graph (ℕ × ℕ)
  retire_one id e =
      if not (owns_entity scope e) || mem id plan.current_entity_ids then pure (0, 0) else do
        last ← lift (parse_time g.runtime e.last_seen_at)
        require (at_most last plan.observed_at) contract_violation
        retired ← retire_entity id e
        history ← (λ s. (ok (rows (lookup id s.snapshots_by_entity)), s))
        closed ← close_snapshot id history
        pure (retired, closed)

  -- the loop over the entities
  unfoldable pub retire_each : Dict Entity → Graph (ℕ × ℕ)
  retire_each [] = pure (0, 0)
  retire_each ((id, e) ∷ rest) = do
    (retired, closed) ← retire_one id e
    (more_retired, more_closed) ← retire_each rest
    pure (retired + more_retired, closed + more_closed)

  abbrev pub is_owned : Option Entity → Bool
  is_owned none = false
  is_owned (some e) = owns_entity scope e

  -- whether the relation is of the scope, open, and not shown by the cycle
  abbrev pub is_stale : String → Relation → StateGraph → Bool
  is_stale key latest s =
      is_open latest.valid_to
      && latest.projector == scope.projector
      && mem latest.relation_type scope.managed_relation_types
      && is_owned (lookup latest.source_entity_id s.entities)
      && not (mem key plan.current_relation_keys)

  unfoldable pub close_stale : String → List Relation → Graph ℕ
  close_stale key [] = (λ s. (err index_error, s))
  close_stale key (latest ∷ older) = do
    stale ← (λ s. (ok (is_stale key latest s), s))
    (if not stale then pure 0 else do
      from ← lift (parse_time g.runtime latest.valid_from)
      require (at_most from plan.observed_at) contract_violation
      let closed = record latest { valid_to = some observed_text; observed_at = observed_text }
      lift (validate_graph_record g (of_relation closed))
      modify (put_relations key (closed ∷ older))
      pure 1)

  -- the loop over the relation histories
  unfoldable pub close_each : Dict (List Relation) → Graph ℕ
  close_each [] = pure 0
  close_each ((key, history) ∷ rest) = do
    closed ← close_stale key history
    more ← close_each rest
    pure (closed + more)

  -- the `try` block, with the result that follows it
  unfoldable pub reconcile : Graph ReconciliationResult
  reconcile = do
    ingest_grouped g true plan.grouped
    entities ← (λ s. (ok s.entities, s))
    (retired, snapshots) ← retire_each entities
    histories ← (λ s. (ok s.relations_by_key, s))
    relations ← close_each histories
    pure (record {
      ingested_records = record_count plan.grouped;
      current_entities = length plan.current_entity_ids;
      current_relations = length plan.current_relation_keys;
      retired_entities = retired;
      closed_snapshot_intervals = snapshots;
      closed_relation_intervals = relations;
    })

-- the `except` block
abbrev pub or_backup : {A : Type 0} → StateGraph → Result A × StateGraph → Result A × StateGraph
or_backup backup (ok a, s) = (ok a, s)
or_backup backup (err e, s) = (err e, backup)

unfoldable pub reconcile_projection :
    GraphRuntime → List GraphRecord → ReconciliationScope → DateTime → Graph ReconciliationResult
reconcile_projection g records scope observed_at = do
  plan ← lift (build_reconciliation_plan g records scope observed_at)
  observed_text ← lift (format_evidence_time g.runtime plan.observed_at)
  (λ s. or_backup s (reconcile g scope plan observed_text s))
