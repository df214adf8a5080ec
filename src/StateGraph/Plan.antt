-- ===== src/StateGraph/Plan.antt =====
-- The plan of a reconciliation of src/incident_platform/stategraph.py: what one complete projection
-- cycle shows of its scope, with the checks that it belongs to that scope.
use Prim.Native.String.{◌++◌ as text_append}
use agent_rca.Prelude.{
  String, Bool, true, false, Option, none, some, List, [], ◌∷◌, ◌==◌, ◌&&◌, ◌||◌, not,
  if◌then◌else◌, mem, subset, unique, any, map, starts_with,
}
use agent_rca.Outcome.{Result, ok, err, contract_violation}
use agent_rca.Outcome.Checked.{guard, ◌>>=◌, ◌>>◌}
use agent_rca.Time.{DateTime, at_most}
use agent_rca.Dict.{Dict, lookup, insert}
use agent_rca.Text.{is_blank}
use agent_rca.Json.{text}
use agent_rca.Scope.{value, same}
use agent_rca.Runtime.{Runtime, parse_time, format_evidence_time}
use agent_rca.StateGraph.{Entity, Snapshot, Relation, GraphRecord, GraphRuntime}
use agent_rca.StateGraph.Entities.{Grouped, group_graph_records}

-- `StateGraphReconciliationScope`
pub record ReconciliationScope : Type 0 where
  pub cluster_id : String
  pub namespace : String
  pub resource_names : List String
  pub resource_name_prefixes : List String
  pub projector : String
  pub managed_entity_types : List String
  pub managed_relation_types : List String

abbrev is_filled : List String → Bool
is_filled [] = false
is_filled (x ∷ xs) = not (any is_blank (x ∷ xs))

-- `__post_init__`
unfoldable pub make_reconciliation_scope : ReconciliationScope → Result ReconciliationScope
make_reconciliation_scope s =
    if is_filled s.resource_names
      && unique s.resource_names
      && is_filled s.managed_entity_types
      && unique s.managed_entity_types
      && is_filled s.managed_relation_types
      && unique s.managed_relation_types
      && not (any is_blank s.resource_name_prefixes)
      && unique s.resource_name_prefixes
      && not (is_blank s.cluster_id)
      && not (is_blank s.namespace)
      && not (is_blank s.projector)
      && subset s.resource_name_prefixes (map (λ name. text_append name "-") s.resource_names)
    then ok s
    else err contract_violation

abbrev pub contains_name : ReconciliationScope → String → Bool
contains_name scope name =
    mem name scope.resource_names
    || any (λ prefix. starts_with name prefix) scope.resource_name_prefixes

unfoldable pub owns_entity : ReconciliationScope → Entity → Bool
owns_entity scope e =
    same (value "cluster_id" e.scope) (text scope.cluster_id)
    && same (value "namespace" e.scope) (text scope.namespace)
    && mem e.entity_type scope.managed_entity_types
    && contains_name scope e.name

-- `_StateGraphReconciliationPlan`
pub record Plan : Type 0 where
  pub grouped : Grouped
  pub current_entity_ids : List String
  pub current_snapshot_entity_ids : List String
  pub current_relation_keys : List String
  pub observed_at : DateTime

-- `entities_by_id`
abbrev pub by_id : List Entity → Dict Entity → Dict Entity
by_id [] d = d
by_id (e ∷ es) d = by_id es (insert e.entity_id e d)

abbrev pub owned_ids : ReconciliationScope → Dict Entity → List String
owned_ids scope [] = []
owned_ids scope ((id, e) ∷ d) =
    let rest = owned_ids scope d in if owns_entity scope e then id ∷ rest else rest

abbrev pub is_nil {ℓ} : {A : Type ℓ} → List A → Bool
is_nil [] = true
is_nil (_ ∷ _) = false

-- a set's elements, as a list
abbrev pub add : String → List String → List String
add x xs = if mem x xs then xs else x ∷ xs

module _ (rt : Runtime) (scope : ReconciliationScope) (now : DateTime) where
  unfoldable pub check_seen : List Entity → Result (Unit {0})
  check_seen [] = ok tt
  check_seen (e ∷ es) = elim (parse_time rt e.last_seen_at) [
    | err x ↦ err x
    | ok last ↦ if at_most last now then check_seen es else err contract_violation
  ]

  -- the entity of the cycle that a record names
  abbrev pub owner_of : Option Entity → Result Entity
  owner_of none = err contract_violation
  owner_of (some e) = ok e

  unfoldable pub snapshot_owners : Dict Entity → List Snapshot → Result (List String)
  snapshot_owners d [] = ok []
  snapshot_owners d (x ∷ xs) = do
    e ← owner_of (lookup x.entity_id d)
    observed ← parse_time rt x.observed_at
    guard (at_most observed now) contract_violation
    ids ← snapshot_owners d xs
    ok (if owns_entity scope e then add x.entity_id ids else ids)

  unfoldable pub relation_keys : Dict Entity → List Relation → Result (List String)
  relation_keys d [] = ok []
  relation_keys d (x ∷ xs) = do
    e ← owner_of (lookup x.source_entity_id d)
    guard (owns_entity scope e) contract_violation
    guard (x.projector == scope.projector) contract_violation
    guard (mem x.relation_type scope.managed_relation_types) contract_violation
    observed ← parse_time rt x.observed_at
    guard (at_most observed now) contract_violation
    found ← relation_keys d xs
    ok (add x.relation_key found)

-- `_build_reconciliation_plan`
unfoldable pub build_reconciliation_plan :
    GraphRuntime → List GraphRecord → ReconciliationScope → DateTime → Result Plan
build_reconciliation_plan g records scope observed_at = do
  observed_text ← format_evidence_time g.runtime observed_at
  observed_utc ← parse_time g.runtime observed_text
  grouped ← group_graph_records g records
  guard (is_nil grouped.event_aggregate) contract_violation
  check_seen g.runtime scope observed_utc grouped.entity
  let entities = by_id grouped.entity []
  let current = owned_ids scope entities
  shown ← snapshot_owners g.runtime scope observed_utc entities grouped.snapshot_interval
  found ← relation_keys g.runtime scope observed_utc entities grouped.relation_interval
  guard (not (is_nil current) && not (is_nil shown)) contract_violation
  ok (record {
    grouped = grouped;
    current_entity_ids = current;
    current_snapshot_entity_ids = shown;
    current_relation_keys = found;
    observed_at = observed_utc;
  })
