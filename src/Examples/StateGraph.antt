-- ===== src/Examples/StateGraph.antt =====
-- A StateGraph of a service and its pod, and the theorems of its repository at it.
use agent_rca.Prelude.{
  ℕ, String, String_discrete, ◌≡◌, refl, ◌⊎◌, true, false, none, some, List, [], ◌∷◌, mem, subset,
  leb, if◌then◌else◌, ◌==◌,
}
use agent_rca.Time.{DateTime}
use agent_rca.Outcome.{Error, ok, err, Result, contract_violation}
use agent_rca.Dict.{lookup, insert}
use agent_rca.Json.Equality.{compared}
use agent_rca.Json.{Json, Fields, field, end, text, obj, Json-discrete}
use agent_rca.Runtime.{parse_time, format_evidence_time}
use agent_rca.Scope.{value}
use agent_rca.Sort.{sort_by}
use agent_rca.StateGraph.{
  Entity, Snapshot, GraphRecord, of_entity, of_snapshot, GraphRuntime, StateGraph, no_graph,
}
use agent_rca.StateGraph.Validate.{validate_graph_record, merged_ids, overlaps}
use agent_rca.StateGraph.Write.{append_or_extend_snapshot, append_or_extend_relation}
use agent_rca.StateGraph.Entities.{
  ingest, ingest_grouped, group_graph_records, for_each, upsert_entity, upsert_event_aggregate,
  reconcile_kubernetes_placeholder, resolve_each, resolve_pair,
}
use agent_rca.StateGraph.Temporal.{IsTemporal}
use agent_rca.StateGraph.Kept.{ingest-IsTemporal, no_graph-IsTemporal}
use agent_rca.StateGraph.Paths.{
  InvestigationScope, GraphLocalization, observed_relations, entity_evidence, evidence_within,
  neighbours, merge_relations, merge_relation,
}
use agent_rca.StateGraph.Paths.Search.{start_search, walk, round, expand, scan}
use agent_rca.StateGraph.Paths.Localize.{
  find_state_paths, search_paths, prepare, localized, pick, count_covered, recent_change_evidence,
  changed_within, snapshots_changed,
}
use agent_rca.StateGraph.Paths.Bounded.{
  find_state_paths_ends, find_state_paths-IsBounded, IsBounded,
}
use agent_rca.StateGraph.Plan.{
  ReconciliationScope, Plan, build_reconciliation_plan, check_seen, snapshot_owners, relation_keys,
  owns_entity,
}
use agent_rca.StateGraph.Reconcile.{
  ReconciliationResult, reconcile_projection, reconcile, retire_each, retire_one, retire_entity,
  close_snapshot, close_each, close_stale,
}
use agent_rca.StateGraph.Reconciled.{IsReconciled, reconcile_projection-IsReconciled}
use agent_rca.Examples.{sample}

-- a minute of the day by its last digit
abbrev minute : String → ℕ
minute s = if s == "12:01" then 43260000000 else if s == "12:02" then 43320000000 else 43380000000

abbrev printed : ℕ → String
printed n = if leb n 43260000000 then "12:01" else if leb n 43320000000 then "12:02" else "12:03"

-- a digest that tells the records of these examples apart: by the first of these keys
abbrev named : Fields → String
named end = "other"
named (field k (text v) rest) =
    let later = named rest in
    if mem k ("external_key" ∷ "uid" ∷ "name" ∷ "relation_key" ∷ "source_entity_id" ∷ [])
    then v
    else later
named (field k (obj inner) rest) = named inner
named (field k v rest) = named rest

abbrev digest_of : Json → String
digest_of (obj fs) = named fs
digest_of v = "none"

abbrev lab : GraphRuntime
lab = record {
  runtime = record sample {
    parse = λ s. some (record { instant = minute s; aware = true });
    render = printed;
    digest = digest_of;
  };
  lower = λ s. s;
  has_secret = λ s. false;
  valid_record = λ r. true;
}

abbrev place : Fields
place =
    field "cluster_id" (text "c1")
      (field "namespace" (text "shop") (field "api_version" (text "v1") end))

abbrev pod : String → String → Entity
pod first last = record {
  entity_id = "ent-u1";
  identity = record {
    version = "1.0.0";
    identity_type = "kubernetes-resource";
    domain = "kubernetes";
    keys = field "cluster_id" (text "c1") (field "uid" (text "u1") end);
  };
  entity_type = "Pod";
  domain = "kubernetes";
  name = "web";
  scope = place;
  external_ref = none;
  exists = true;
  first_seen_at = first;
  last_seen_at = last;
  evidence_ids = "ev-pod" ∷ [];
}

abbrev mention : Entity
mention = record (pod "12:01" "12:03") {
  entity_id = "ent-web";
  identity = record {
    version = "1.0.0";
    identity_type = "kubernetes-placeholder";
    domain = "kubernetes";
    keys = field "cluster_id" (text "c1") (
        field "api_version" (text "v1") (
          field "kind" (text "Pod")
            (field "namespace" (text "shop") (field "name" (text "web") end))));
  };
  evidence_ids = "ev-mention" ∷ [];
}

abbrev ready : Snapshot
ready = record {
  snapshot_id = "snap-1";
  entity_id = "ent-u1";
  observed_at = "12:03";
  valid_from = "12:03";
  valid_to = none;
  state_hash = "sha256:1";
  state = field "phase" (text "Running") end;
  evidence_ids = "ev-ready" ∷ [];
}

abbrev seen : List GraphRecord
seen = of_entity mention ∷ of_entity (pod "12:03" "12:03") ∷ of_snapshot ready ∷ []

abbrev known : StateGraph
known = (ingest lab seen no_graph).1

seen_ok : (ingest lab seen no_graph).0 ≡ ok tt
unfolding ingest ingest_grouped group_graph_records for_each upsert_entity upsert_event_aggregate
    reconcile_kubernetes_placeholder resolve_each resolve_pair append_or_extend_snapshot
    append_or_extend_relation validate_graph_record merged_ids lookup insert subset mem parse_time
    format_evidence_time sort_by value Json-discrete String_discrete compared
seen_ok = refl

-- The same pod, observed earlier than it was first seen, is merged; but the relation to it from its
-- placeholder cannot start earlier than it did, so the call raises with the pod already changed.
earlier_raises :
    (ingest lab (of_entity (pod "12:02" "12:02") ∷ []) known).0 ≡ err contract_violation
unfolding ingest ingest_grouped group_graph_records for_each upsert_entity upsert_event_aggregate
    reconcile_kubernetes_placeholder resolve_each resolve_pair append_or_extend_snapshot
    append_or_extend_relation validate_graph_record merged_ids lookup insert subset mem parse_time
    format_evidence_time sort_by value Json-discrete String_discrete compared
earlier_raises = refl

ingest-IsTemporal_example : IsTemporal lab known
ingest-IsTemporal_example = ingest-IsTemporal lab seen (no_graph-IsTemporal lab)

abbrev scope : InvestigationScope
scope = record {
  incident_id = "inc-checkout";
  seed_entity_ids = "ent-web" ∷ [];
  window = record { start = "12:01"; finish = "12:03" };
  domains = [];
  correlation_keys = end;
  relation_types = [];
  max_entities = 5;
  max_depth = 2;
}

abbrev both : GraphLocalization
both = record {
  candidate_entities_before = 2;
  entities = ("ent-u1", pod "12:03" "12:03") ∷ ("ent-web", mention) ∷ [];
  paths =
      record { entity_ids = "ent-web" ∷ []; relation_types = []; evidence_ids = [] }
      ∷ record {
        entity_ids = "ent-web" ∷ "ent-u1" ∷ [];
        relation_types = "RESOLVES_TO" ∷ [];
        evidence_ids = "ev-mention" ∷ "ev-pod" ∷ "ev-ready" ∷ [];
      }
      ∷ [];
  evidence_ids = "ev-mention" ∷ "ev-pod" ∷ "ev-ready" ∷ [];
  recent_change_evidence_ids = "ev-mention" ∷ "ev-pod" ∷ "ev-ready" ∷ [];
  entity_coverage = (1, 2);
}

both_found : find_state_paths lab.runtime scope known ≡ some (ok both)
unfolding ingest ingest_grouped group_graph_records for_each upsert_entity upsert_event_aggregate
    reconcile_kubernetes_placeholder resolve_each resolve_pair append_or_extend_snapshot
    append_or_extend_relation validate_graph_record merged_ids lookup insert subset mem parse_time
    format_evidence_time sort_by value Json-discrete String_discrete compared overlaps
    find_state_paths search_paths prepare localized pick count_covered recent_change_evidence
    changed_within snapshots_changed observed_relations entity_evidence evidence_within neighbours
    merge_relations merge_relation start_search walk round expand scan
both_found = refl

find_state_paths_ends_example :
    (x : Result GraphLocalization) × (find_state_paths lab.runtime scope known ≡ some x)
find_state_paths_ends_example = find_state_paths_ends lab.runtime scope known

find_state_paths-IsBounded_example : IsBounded lab.runtime scope known both
find_state_paths-IsBounded_example =
    find_state_paths-IsBounded lab.runtime scope known both both_found

abbrev at_three : DateTime
at_three = record { instant = 43380000000; aware = true }

abbrev web : ReconciliationScope
web = record {
  cluster_id = "c1";
  namespace = "shop";
  resource_names = "web" ∷ [];
  resource_name_prefixes = [];
  projector = "kubernetes-projector";
  managed_entity_types = "Pod" ∷ [];
  managed_relation_types = "RUNS_ON" ∷ [];
}

-- a cycle that shows the pod, and no longer its placeholder
abbrev cycle : List GraphRecord
cycle = of_entity (pod "12:03" "12:03") ∷ of_snapshot ready ∷ []

reconcile_projection-IsReconciled_example :
    ((e : Error) × ((reconcile_projection lab cycle web at_three known).0 ≡ err e)
      × ((reconcile_projection lab cycle web at_three known).1 ≡ known))
    ⊎ ((plan : Plan) × (n : ReconciliationResult) × (build_reconciliation_plan lab cycle web
            at_three
          ≡ ok plan)
        × ((reconcile_projection lab cycle web at_three known).0 ≡ ok n)
        × IsReconciled web plan (reconcile_projection lab cycle web at_three known).1)
reconcile_projection-IsReconciled_example =
    reconcile_projection-IsReconciled lab cycle web at_three known

cycle_counts :
    (reconcile_projection lab cycle web at_three known).0
    ≡ ok (record {
      ingested_records = 2;
      current_entities = 1;
      current_relations = 0;
      retired_entities = 1;
      closed_snapshot_intervals = 0;
      closed_relation_intervals = 0;
    })
unfolding ingest ingest_grouped group_graph_records for_each upsert_entity upsert_event_aggregate
    reconcile_kubernetes_placeholder resolve_each resolve_pair append_or_extend_snapshot
    append_or_extend_relation validate_graph_record merged_ids lookup insert subset mem parse_time
    format_evidence_time sort_by value Json-discrete String_discrete compared reconcile_projection
    build_reconciliation_plan check_seen snapshot_owners relation_keys owns_entity reconcile
    retire_each retire_one retire_entity close_snapshot close_each close_stale
cycle_counts = refl
