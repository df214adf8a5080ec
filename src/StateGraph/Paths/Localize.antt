-- ===== src/StateGraph/Paths/Localize.antt =====
-- `find_state_paths` of src/incident_platform/stategraph.py as a whole, and `find_entities`.
use agent_rca.Prelude.{
  ℕ, suc, ◌+◌, String, Bool, true, false, Option, none, some, List, [], ◌∷◌, ◌++◌, ◌==◌, ◌&&◌, not,
  if◌then◌else◌, mem, length, all,
}
use agent_rca.Outcome.{Result, ok, err, contract_violation, key_error}
use agent_rca.Outcome.Checked.{guard, ◌>>=◌, ◌>>◌}
use agent_rca.Time.{DateTime, at_most}
use agent_rca.Dict.{Dict, lookup, has, values}
use agent_rca.Sort.{sort_by, sort_texts}
use agent_rca.Documents.{Span}
use agent_rca.Runtime.{Runtime, parse_time}
use agent_rca.Repository.{found}
use agent_rca.StateGraph.{Entity, Snapshot, Relation, GraphEvent, StateGraph}
use agent_rca.StateGraph.Validate.{merged_ids}
use agent_rca.StateGraph.Entities.{oldest_first}
use agent_rca.StateGraph.Paths.{
  InvestigationScope, LocalizedPath, GraphLocalization, candidates_of, all_relations, texts_le,
  by_path, merge_relations, entity_evidence, observed_relations,
}
use agent_rca.StateGraph.Paths.Search.{Search, empty_search, start_search, walk}

abbrev pub path_evidence : List LocalizedPath → List String
path_evidence [] = []
path_evidence (p ∷ ps) = p.evidence_ids ++ path_evidence ps

-- what a change is judged by: when it began, and its Evidence
abbrev pub Change : Type 0
Change = String × List String

abbrev pub snapshot_changes : List Snapshot → List Change
snapshot_changes [] = []
snapshot_changes (x ∷ xs) = (x.valid_from, x.evidence_ids) ∷ snapshot_changes xs

abbrev pub relation_changes : List String → List Relation → List Change
relation_changes ids [] = []
relation_changes ids (r ∷ rs) =
    let rest = relation_changes ids rs in
    if mem r.source_entity_id ids
      && mem r.destination_entity_id ids
      && not (r.projector == "krca-api-edge-evidence-projector")
    then (r.valid_from, r.evidence_ids) ∷ rest
    else rest

abbrev pub event_changes : List String → List GraphEvent → List Change
event_changes ids [] = []
event_changes ids (e ∷ es) =
    let rest = event_changes ids es in
    if mem e.entity_id ids
      && not (mem e.event_type ("PROMETHEUS_METRIC_SUMMARY" ∷ "DEPLOYMENT_CHANGE_ABSENCE" ∷ []))
    then (e.first_seen_at, e.evidence_ids) ∷ rest
    else rest

-- the candidates with these ids
unfoldable pub pick : Dict Entity → List String → Result (Dict Entity)
pick d [] = ok []
pick d (id ∷ ids) = do e ← found (lookup id d) key_error; rest ← pick d ids; ok ((id, e) ∷ rest)

abbrev pub is_some_text : List String → Bool
is_some_text [] = false
is_some_text (_ ∷ _) = true

module _ (rt : Runtime) where
  unfoldable pub changed_within : DateTime → DateTime → List Change → Result (List String)
  changed_within start finish [] = ok []
  changed_within start finish ((at, ids) ∷ xs) = do
    changed_at ← parse_time rt at
    rest ← changed_within start finish xs
    ok (if at_most start changed_at && at_most changed_at finish then ids ++ rest else rest)

  unfoldable pub snapshots_changed :
      StateGraph → DateTime → DateTime → List String → Result (List String)
  snapshots_changed s start finish [] = ok []
  snapshots_changed s start finish (id ∷ ids) = do
    history ← found (lookup id s.snapshots_by_entity) key_error
    first ← changed_within start finish (snapshot_changes (oldest_first [] history))
    rest ← snapshots_changed s start finish ids
    ok (first ++ rest)

  -- `_recent_change_evidence`
  unfoldable pub recent_change_evidence : StateGraph → List String → Span → Result (List String)
  recent_change_evidence s ids window = do
    start ← parse_time rt window.start
    finish ← parse_time rt window.finish
    states ← snapshots_changed s start finish ids
    links ← changed_within start finish (relation_changes ids (all_relations s.relations_by_key))
    occurrences ← changed_within start finish (event_changes ids (values s.events))
    ok (states ++ (links ++ occurrences))

  -- how many have Evidence in the window
  unfoldable pub count_covered : StateGraph → Span → List String → Result ℕ
  count_covered s window [] = ok 0
  count_covered s window (id ∷ ids) = do
    evidence ← entity_evidence rt window s id
    rest ← count_covered s window ids
    ok (if is_some_text evidence then rest + 1 else rest)

  -- what stands before the search's loop: the relations, and the seeds visited
  unfoldable pub prepare : InvestigationScope → StateGraph → Result (List Relation × Search)
  prepare scope s = do
    let candidates = candidates_of scope.domains s.entities
    guard (all (λ seed. has seed candidates) scope.seed_entity_ids) contract_violation
    observed ←
        observed_relations rt scope.window candidates scope.relation_types
          (all_relations s.relations_by_key)
    let relations = merge_relations [] (sort_by (λ a b. texts_le (by_path a) (by_path b)) observed)
    st ←
        start_search (entity_evidence rt scope.window s) scope.max_entities scope.max_depth
          relations scope.seed_entity_ids empty_search
    ok (relations, st)

  unfoldable pub search_paths : InvestigationScope → StateGraph → Option (Result Search)
  search_paths scope s = elim (prepare scope s) [
    | err e ↦ some (err e)
    | ok (relations, st) ↦
        walk (entity_evidence rt scope.window s) scope.max_entities scope.max_depth relations
          (suc (length st.queue + scope.max_entities)) st
  ]

  -- what stands after the loop
  unfoldable pub localized : InvestigationScope → StateGraph → Search → Result GraphLocalization
  localized scope s st = do
    let candidates = candidates_of scope.domains s.entities
    entities ← pick candidates (sort_texts st.visited)
    covered ← count_covered s scope.window st.visited
    recent ← recent_change_evidence s st.visited scope.window
    ok (record {
      candidate_entities_before = length candidates;
      entities = entities;
      paths = st.paths;
      evidence_ids = merged_ids (path_evidence st.paths) st.observed_relation_evidence;
      recent_change_evidence_ids = merged_ids recent [];
      entity_coverage = (covered, length st.visited);
    })

  abbrev pub finished :
      InvestigationScope → StateGraph → Option (Result Search) → Option (Result GraphLocalization)
  finished scope s none = none
  finished scope s (some (err e)) = some (err e)
  finished scope s (some (ok st)) = some (localized scope s st)

  unfoldable pub find_state_paths :
      InvestigationScope → StateGraph → Option (Result GraphLocalization)
  find_state_paths scope s = finished scope s (search_paths scope s)
