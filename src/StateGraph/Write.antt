-- ===== src/StateGraph/Write.antt =====
-- The writes of `InMemoryStateGraphRepository` of src/incident_platform/stategraph.py. The histories are
-- in its dictionaries, so a write to a history's end is a write of the history.
use agent_rca.Prelude.{
  String, Bool, true, false, Option, none, some, List, [], ◌∷◌, ◌==◌, ◌&&◌, if◌then◌else◌,
}
use agent_rca.Outcome.{
  ok, err, contract_violation, key_error, pure, lift, modify, require, ◌>>=◌, ◌>>◌,
}
use agent_rca.Time.{DateTime, at_most}
use agent_rca.Dict.{lookup, insert}
use agent_rca.Json.{Fields, text}
use agent_rca.Scope.{value, same}
use agent_rca.Runtime.{parse_time, format_evidence_time}
use agent_rca.Repository.{found, rows}
use agent_rca.StateGraph.{
  Entity, Snapshot, Relation, GraphEvent, of_snapshot, of_relation, GraphRuntime, StateGraph, Graph,
}
use agent_rca.StateGraph.Validate.{
  same_object, identity_fields, merged_ids, validate_graph_record, parse_optional, ends_after,
  ended_by, later_of,
}

abbrev pub same_optional : Option String → Option String → Bool
same_optional none none = true
same_optional (some a) (some b) = a == b
same_optional _ _ = false

abbrev pub is_open : Option String → Bool
is_open none = true
is_open (some t) = false

abbrev pub put_entity : Entity → StateGraph → StateGraph
put_entity e s = record s { entities = insert e.entity_id e s.entities }

abbrev pub put_snapshots : String → List Snapshot → StateGraph → StateGraph
put_snapshots id history s = record s {
  snapshots_by_entity = insert id history s.snapshots_by_entity;
}

abbrev pub put_relations : String → List Relation → StateGraph → StateGraph
put_relations key history s = record s { relations_by_key = insert key history s.relations_by_key }

abbrev pub put_event : GraphEvent → StateGraph → StateGraph
put_event e s = record s { events = insert e.event_id e s.events }

-- `_require_entity`
unfoldable pub require_entity : String → Graph Entity
require_entity id s = (found (lookup id s.entities) contract_violation, s)

-- `_require_snapshot_history`
unfoldable pub require_snapshot_history : String → Graph (List Snapshot)
require_snapshot_history id = do
  require_entity id
  (λ s. (found (lookup id s.snapshots_by_entity) key_error, s))

-- the fields that a record of the same id must agree on
abbrev pub same_entity : Entity → Entity → Bool
same_entity a b =
    same_object (identity_fields a.identity) (identity_fields b.identity)
    && a.entity_type == b.entity_type
    && a.domain == b.domain
    && a.name == b.name
    && same_object a.scope b.scope
    && same_optional a.external_ref b.external_ref

abbrev pub same_relation : Relation → Relation → Bool
same_relation a b =
    a.source_entity_id == b.source_entity_id
    && a.relation_type == b.relation_type
    && a.destination_entity_id == b.destination_entity_id
    && a.reference_key == b.reference_key
    && a.projector == b.projector

abbrev pub same_event : GraphEvent → GraphEvent → Bool
same_event a b =
    a.entity_id == b.entity_id
    && a.event_type == b.event_type
    && same_object a.attributes b.attributes

-- `_same_kubernetes_coordinates`, of a placeholder's keys
abbrev pub same_coordinates : Fields → Entity → Bool
same_coordinates keys resource =
    same (value "cluster_id" keys) (value "cluster_id" resource.scope)
    && same (value "api_version" keys) (value "api_version" resource.scope)
    && same (value "kind" keys) (text resource.entity_type)
    && same (value "namespace" keys) (value "namespace" resource.scope)
    && same (value "name" keys) (text resource.name)

abbrev pub new_ids : (replace : Bool) → List String → List String → List String
new_ids true old new = new
new_ids false old new = merged_ids old new

module _ (g : GraphRuntime) where
  -- the interval that follows an open or a closed one, after a check that it can be closed
  unfoldable pub append_snapshot :
      Snapshot → Snapshot → List Snapshot → Option String → Graph Snapshot
  append_snapshot c latest older none = do
    let closed = record latest { valid_to = some c.valid_from }
    lift (validate_graph_record g (of_snapshot closed))
    modify (put_snapshots c.entity_id (c ∷ closed ∷ older))
    pure c
  append_snapshot c latest older (some t) = do
    modify (put_snapshots c.entity_id (c ∷ latest ∷ older))
    pure c

  -- the same state, observed again
  unfoldable pub refresh_snapshot :
      Bool → Snapshot → DateTime → Snapshot → List Snapshot → Graph Snapshot
  refresh_snapshot replace c observed latest older = do
    require (same_object latest.state c.state) contract_violation
    before ← lift (parse_time g.runtime latest.observed_at)
    stamp ← lift (format_evidence_time g.runtime (later_of before observed))
    let updated = record latest {
      observed_at = stamp;
      evidence_ids = new_ids replace latest.evidence_ids c.evidence_ids;
    }
    lift (validate_graph_record g (of_snapshot updated))
    modify (put_snapshots c.entity_id (updated ∷ older))
    pure updated

  -- the history, latest first
  unfoldable pub extend_snapshots :
      Bool → Snapshot → DateTime → DateTime → List Snapshot → Graph Snapshot
  unfolding append_snapshot refresh_snapshot
  extend_snapshots replace c observed valid_from [] = do
    modify (put_snapshots c.entity_id (c ∷ []))
    pure c
  extend_snapshots replace c observed valid_from (latest ∷ older) = do
    latest_from ← lift (parse_time g.runtime latest.valid_from)
    latest_to ← lift (parse_optional g.runtime latest.valid_to)
    require (at_most latest_from valid_from && ended_by latest_to valid_from) contract_violation
    (if is_open latest.valid_to && latest.state_hash == c.state_hash
        then refresh_snapshot replace c observed latest older
        else append_snapshot c latest older latest.valid_to)

  unfoldable pub append_or_extend_snapshot : Bool → Snapshot → Graph Snapshot
  unfolding extend_snapshots require_snapshot_history require_entity
  append_or_extend_snapshot replace c = do
    lift (validate_graph_record g (of_snapshot c))
    observed ← lift (parse_time g.runtime c.observed_at)
    valid_from ← lift (parse_time g.runtime c.valid_from)
    valid_to ← lift (parse_optional g.runtime c.valid_to)
    require (at_most valid_from observed && ends_after valid_from valid_to) contract_violation
    history ← require_snapshot_history c.entity_id
    extend_snapshots replace c observed valid_from history

  -- the last part of `append_or_extend_relation`, on the latest interval's end
  unfoldable pub renew_relation :
      Bool → Relation → DateTime → Relation → List Relation → Option String → Graph Relation
  renew_relation replace c observed latest older none = do
    before ← lift (parse_time g.runtime latest.observed_at)
    stamp ← lift (format_evidence_time g.runtime (later_of before observed))
    let updated = record latest {
      observed_at = stamp;
      evidence_ids = new_ids replace latest.evidence_ids c.evidence_ids;
    }
    lift (validate_graph_record g (of_relation updated))
    modify (put_relations c.relation_key (updated ∷ older))
    pure updated
  renew_relation replace c observed latest older (some t) = do
    modify (put_relations c.relation_key (c ∷ latest ∷ older))
    pure c

  unfoldable pub extend_relations :
      Bool → Relation → DateTime → DateTime → List Relation → Graph Relation
  unfolding renew_relation
  extend_relations replace c observed valid_from [] = do
    modify (put_relations c.relation_key (c ∷ []))
    pure c
  extend_relations replace c observed valid_from (latest ∷ older) = do
    require (same_relation latest c) contract_violation
    latest_from ← lift (parse_time g.runtime latest.valid_from)
    latest_to ← lift (parse_optional g.runtime latest.valid_to)
    require (at_most latest_from valid_from && ended_by latest_to valid_from) contract_violation
    renew_relation replace c observed latest older latest.valid_to

  -- `setdefault` leaves an empty history only until the interval is appended to it
  unfoldable pub append_or_extend_relation : Bool → Relation → Graph Relation
  unfolding extend_relations require_entity
  append_or_extend_relation replace c = do
    lift (validate_graph_record g (of_relation c))
    observed ← lift (parse_time g.runtime c.observed_at)
    valid_from ← lift (parse_time g.runtime c.valid_from)
    valid_to ← lift (parse_optional g.runtime c.valid_to)
    require (at_most valid_from observed && ends_after valid_from valid_to) contract_violation
    require_entity c.source_entity_id
    require_entity c.destination_entity_id
    history ← (λ s. (ok (rows (lookup c.relation_key s.relations_by_key)), s))
    extend_relations replace c observed valid_from history

  unfoldable pub close_latest : String → DateTime → String → List Relation → Graph Relation
  close_latest key observed closed_at [] = (λ s. (err key_error, s))
  close_latest key observed closed_at (latest ∷ older) = do
    require (is_open latest.valid_to) key_error
    valid_from ← lift (parse_time g.runtime latest.valid_from)
    require (at_most valid_from observed) contract_violation
    let updated = record latest { valid_to = some closed_at; observed_at = closed_at }
    lift (validate_graph_record g (of_relation updated))
    modify (put_relations key (updated ∷ older))
    pure updated

  unfoldable pub close_relation : String → DateTime → Graph Relation
  unfolding close_latest
  close_relation key observed = do
    closed_at ← lift (format_evidence_time g.runtime observed)
    history ← (λ s. (ok (rows (lookup key s.relations_by_key)), s))
    close_latest key observed closed_at history
