-- ===== src/StateGraph/Entities.antt =====
-- Entities, events and whole projections of `InMemoryStateGraphRepository` of
-- src/incident_platform/stategraph.py, and its plain reads.
use agent_rca.Prelude.{
  String, Bool, true, false, Option, none, some, List, [], ◌∷◌, ◌++◌, ◌==◌, ◌&&◌, ◌||◌,
  if◌then◌else◌, leb, keep,
}
use agent_rca.Outcome.{
  Result, ok, err, contract_violation, pure, lift, modify, require, ◌>>=◌, ◌>>◌,
}
use agent_rca.Time.{DateTime, at_most}
use agent_rca.Dict.{lookup, insert, keys, values}
use agent_rca.Sort.{text_le, sort_texts, sort_by}
use agent_rca.Json.{Fields, end, field, text}
use agent_rca.Runtime.{parse_time, format_evidence_time}
use agent_rca.Repository.{rows}
use agent_rca.StateGraph.{
  Entity, Snapshot, Relation, GraphEvent, GraphRecord, of_entity, of_snapshot, of_relation,
  of_event, GraphRuntime, StateGraph, Graph,
}
use agent_rca.StateGraph.Validate.{
  stable_graph_id, check_identity, merged_ids, validate_graph_record, earlier_of, later_of,
}
use agent_rca.StateGraph.Write.{
  put_entity, put_snapshots, put_event, require_entity, require_snapshot_history, same_entity,
  same_event, same_coordinates, new_ids, append_or_extend_relation, append_or_extend_snapshot,
}

abbrev pub is_resource : Entity → Bool
is_resource e = e.identity.identity_type == "kubernetes-resource"

abbrev pub is_placeholder : Entity → Bool
is_placeholder e = e.identity.identity_type == "kubernetes-placeholder"

-- `record_type` of the two records, by their lists
pub record Grouped : Type 0 where
  pub entity : List Entity
  pub snapshot_interval : List Snapshot
  pub relation_interval : List Relation
  pub event_aggregate : List GraphEvent

abbrev pub group_record : GraphRecord → Grouped → Grouped
group_record (of_entity e) d = record d { entity = e ∷ d.entity }
group_record (of_snapshot x) d = record d { snapshot_interval = x ∷ d.snapshot_interval }
group_record (of_relation x) d = record d { relation_interval = x ∷ d.relation_interval }
group_record (of_event x) d = record d { event_aggregate = x ∷ d.event_aggregate }

abbrev relation_fields : Entity → Entity → Fields
relation_fields placeholder resource = field "source_entity_id" (text placeholder.entity_id) (
    field "relation_type" (text "RESOLVES_TO") (
      field "destination_entity_id" (text resource.entity_id) (
        field "reference_key" (text placeholder.entity_id)
          (field "projector" (text "stategraph-identity-reconciler") end))))

module _ (g : GraphRuntime) where
  -- the relation from a placeholder to the resource that it stands for
  unfoldable pub resolution : Entity → Entity → String → String → Relation
  resolution placeholder resource observed_at valid_from =
      let key = stable_graph_id g.runtime "relkey" (relation_fields placeholder resource) in
      record {
        relation_id =
            stable_graph_id g.runtime "rel"
              (field "relation_key" (text key) (field "valid_from" (text valid_from) end));
        relation_key = key;
        source_entity_id = placeholder.entity_id;
        relation_type = "RESOLVES_TO";
        destination_entity_id = resource.entity_id;
        reference_key = placeholder.entity_id;
        projector = "stategraph-identity-reconciler";
        observed_at = observed_at;
        valid_from = valid_from;
        valid_to = none;
        evidence_ids = merged_ids placeholder.evidence_ids resource.evidence_ids;
      }

  unfoldable pub resolve : Entity → Entity → Graph Unit
  unfolding resolution
  resolve placeholder resource = do
    placeholder_last ← lift (parse_time g.runtime placeholder.last_seen_at)
    resource_last ← lift (parse_time g.runtime resource.last_seen_at)
    observed_at ← lift (format_evidence_time g.runtime (later_of placeholder_last resource_last))
    placeholder_first ← lift (parse_time g.runtime placeholder.first_seen_at)
    resource_first ← lift (parse_time g.runtime resource.first_seen_at)
    valid_from ← lift (format_evidence_time g.runtime (later_of placeholder_first resource_first))
    append_or_extend_relation g false (resolution placeholder resource observed_at valid_from)
    pure tt

  -- the body of the loop over the other entities
  unfoldable pub resolve_pair : Entity → Entity → Graph Unit
  unfolding resolve
  resolve_pair entity other = if other.entity_id == entity.entity_id then pure tt else do
    lift (check_identity other.identity)
    (if is_placeholder entity && is_resource other
        then (if same_coordinates entity.identity.keys other then resolve entity other else pure tt)
        else if is_resource entity && is_placeholder other
        then (if same_coordinates other.identity.keys entity then resolve other entity else pure tt)
        else pure tt)

  unfoldable pub resolve_each : Entity → List Entity → Graph Unit
  resolve_each entity [] = pure tt
  resolve_each entity (other ∷ others) = do resolve_pair entity other; resolve_each entity others

  -- `_reconcile_kubernetes_placeholder`
  unfoldable pub reconcile_kubernetes_placeholder : Entity → Graph Unit
  reconcile_kubernetes_placeholder entity = do
    lift (check_identity entity.identity)
    others ← (λ s. (ok (values s.entities), s))
    (if is_resource entity || is_placeholder entity then resolve_each entity others else pure tt)

  -- by `self._entities.get(entity_id)`
  unfoldable pub put_or_merge : Bool → Entity → DateTime → DateTime → Option Entity → Graph Entity
  put_or_merge replace c first last none = do
    modify (λ s. put_snapshots c.entity_id [] (put_entity c s))
    reconcile_kubernetes_placeholder c
    pure c
  put_or_merge replace c first last (some existing) = do
    require (same_entity existing c) contract_violation
    existing_first ← lift (parse_time g.runtime existing.first_seen_at)
    existing_last ← lift (parse_time g.runtime existing.last_seen_at)
    first_seen_at ← lift (format_evidence_time g.runtime (earlier_of existing_first first))
    last_seen_at ← lift (format_evidence_time g.runtime (later_of existing_last last))
    let updated = record existing {
      first_seen_at = first_seen_at;
      last_seen_at = last_seen_at;
      exists = if at_most existing_last last then c.exists else existing.exists;
      evidence_ids = new_ids replace existing.evidence_ids c.evidence_ids;
    }
    lift (validate_graph_record g (of_entity updated))
    modify (λ s. record s { entities = insert c.entity_id updated s.entities })
    reconcile_kubernetes_placeholder updated
    pure updated

  unfoldable pub upsert_entity : Bool → Entity → Graph Entity
  unfolding put_or_merge
  upsert_entity replace c = do
    lift (validate_graph_record g (of_entity c))
    first ← lift (parse_time g.runtime c.first_seen_at)
    last ← lift (parse_time g.runtime c.last_seen_at)
    require (at_most first last) contract_violation
    existing ← (λ s. (ok (lookup c.entity_id s.entities), s))
    put_or_merge replace c first last existing

  unfoldable pub count_or_merge :
      GraphEvent → DateTime → DateTime → Option GraphEvent → Graph GraphEvent
  count_or_merge c first last none = do modify (put_event c); pure c
  count_or_merge c first last (some existing) = do
    require (same_event existing c) contract_violation
    existing_first ← lift (parse_time g.runtime existing.first_seen_at)
    first_seen_at ← lift (format_evidence_time g.runtime (earlier_of existing_first first))
    existing_last ← lift (parse_time g.runtime existing.last_seen_at)
    last_seen_at ← lift (format_evidence_time g.runtime (later_of existing_last last))
    let updated = record existing {
      first_seen_at = first_seen_at;
      last_seen_at = last_seen_at;
      count = if leb existing.count c.count then c.count else existing.count;
      evidence_ids = merged_ids existing.evidence_ids c.evidence_ids;
    }
    lift (validate_graph_record g (of_event updated))
    modify (λ s. record s { events = insert c.event_id updated s.events })
    pure updated

  unfoldable pub upsert_event_aggregate : GraphEvent → Graph GraphEvent
  unfolding count_or_merge require_entity
  upsert_event_aggregate c = do
    lift (validate_graph_record g (of_event c))
    first ← lift (parse_time g.runtime c.first_seen_at)
    last ← lift (parse_time g.runtime c.last_seen_at)
    require (at_most first last) contract_violation
    require_entity c.entity_id
    existing ← (λ s. (ok (lookup c.event_id s.events), s))
    count_or_merge c first last existing

  -- `_group_graph_records`
  unfoldable pub group_graph_records : List GraphRecord → Result Grouped
  group_graph_records [] =
      ok (record {
        entity = [];
        snapshot_interval = [];
        relation_interval = [];
        event_aggregate = [];
      })
  group_graph_records (x ∷ xs) = elim (validate_graph_record g x) [
    | err e ↦ err e
    | ok done ↦ elim (group_graph_records xs) [ err e ↦ err e | ok d ↦ ok (group_record x d) ]
  ]

  -- `for record in records: method(record)`
  unfoldable pub for_each : {A B : Type 0} → (A → Graph B) → List A → Graph Unit
  for_each method [] = pure tt
  for_each method (x ∷ xs) = do method x; for_each method xs

  -- `_ingest_grouped`
  unfoldable pub ingest_grouped : Bool → Grouped → Graph Unit
  ingest_grouped replace d = do
    for_each (upsert_entity replace) d.entity
    for_each (append_or_extend_snapshot g replace) d.snapshot_interval
    for_each (append_or_extend_relation g replace) d.relation_interval
    for_each upsert_event_aggregate d.event_aggregate

  unfoldable pub ingest : List GraphRecord → Graph Unit
  ingest records = do grouped ← lift (group_graph_records records); ingest_grouped false grouped

unfoldable pub get_entity : String → Graph Entity
unfolding require_entity
get_entity id = require_entity id

-- the oldest first
abbrev pub oldest_first {ℓ} : {A : Type ℓ} → List A → List A → List A
oldest_first done [] = done
oldest_first done (x ∷ xs) = oldest_first (x ∷ done) xs

unfoldable pub list_snapshots : String → Graph (List Snapshot)
unfolding require_snapshot_history
list_snapshots id = do history ← require_snapshot_history id; pure (oldest_first [] history)

abbrev pub relations_at : List String → StateGraph → List Relation
relations_at [] s = []
relations_at (k ∷ ks) s = oldest_first [] (rows (lookup k s.relations_by_key)) ++ relations_at ks s

unfoldable pub list_relations : Graph (List Relation)
list_relations s = (ok (relations_at (sort_texts (keys s.relations_by_key)) s), s)

abbrev pub is_of : Option String → GraphEvent → Bool
is_of none e = true
is_of (some id) e = e.entity_id == id

unfoldable pub list_events : Option String → Graph (List GraphEvent)
list_events id s =
    (ok (sort_by (λ a b. text_le a.event_id b.event_id) (keep (is_of id) (values s.events))), s)
