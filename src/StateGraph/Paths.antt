-- ===== src/StateGraph/Paths.antt =====
-- `find_state_paths` of `InMemoryStateGraphRepository` of src/incident_platform/stategraph.py: the
-- breadth-first subgraph around the seeds of an investigation. A set is a list here; where the source
-- sorts it, its repetitions go. A coverage is the pair that the source divides.
pub mod Search
pub mod Localize
pub mod Found
pub mod Trails
pub mod Selected
pub mod Bounded
use agent_rca.Prelude.{
  ℕ, String, Bool, true, false, Option, none, some, List, [], ◌∷◌, ◌++◌, ◌==◌, ◌&&◌, ◌||◌, not,
  if◌then◌else◌, mem, length, leb, all,
}
use agent_rca.Outcome.{Result, ok, err, contract_violation, key_error}
use agent_rca.Outcome.Checked.{guard, ◌>>=◌, ◌>>◌}
use agent_rca.Time.{DateTime, at_most}
use agent_rca.Dict.{Dict, lookup, has, keys, values}
use agent_rca.Sort.{text_le, sort_by, sort_texts}
use agent_rca.Json.{Fields}
use agent_rca.Documents.{Span}
use agent_rca.Runtime.{Runtime, parse_time}
use agent_rca.Repository.{found}
use agent_rca.StateGraph.{Entity, Snapshot, Relation, GraphEvent, StateGraph}
use agent_rca.StateGraph.Validate.{overlaps, merged_ids}
use agent_rca.StateGraph.Entities.{oldest_first}

pub record InvestigationScope : Type 0 where
  pub incident_id : String
  pub seed_entity_ids : List String
  pub window : Span
  pub domains : List String
  pub correlation_keys : Fields
  pub relation_types : List String
  pub max_entities : ℕ
  pub max_depth : ℕ

-- `__post_init__`, with the validator's verdict on the contract
unfoldable pub make_investigation_scope :
    Runtime → (InvestigationScope → Bool) → InvestigationScope → Result InvestigationScope
make_investigation_scope rt valid_scope s = do
  guard (valid_scope s) contract_violation
  start ← parse_time rt s.window.start
  finish ← parse_time rt s.window.finish
  guard (at_most start finish) contract_violation
  ok s

pub record LocalizedPath : Type 0 where
  pub entity_ids : List String
  pub relation_types : List String
  pub evidence_ids : List String

pub record GraphLocalization : Type 0 where
  pub candidate_entities_before : ℕ
  pub entities : Dict Entity
  pub paths : List LocalizedPath
  pub evidence_ids : List String
  pub recent_change_evidence_ids : List String
  pub entity_coverage : ℕ × ℕ

-- `not values or value in values`
abbrev pub admits : List String → String → Bool
admits [] x = true
admits (y ∷ ys) x = mem x (y ∷ ys)

-- a record's times with its Evidence
abbrev pub Dated : Type 0
Dated = String × Option String × List String

abbrev pub dated_snapshots : List Snapshot → List Dated
dated_snapshots [] = []
dated_snapshots (x ∷ xs) = (x.valid_from, x.valid_to, x.evidence_ids) ∷ dated_snapshots xs

abbrev pub dated_events : String → List GraphEvent → List Dated
dated_events id [] = []
dated_events id (e ∷ es) =
    let rest = dated_events id es in
    if e.entity_id == id
    then (e.first_seen_at, some e.last_seen_at, e.evidence_ids) ∷ rest
    else rest

-- the entities of the scope's domains
abbrev pub candidates_of : List String → Dict Entity → Dict Entity
candidates_of domains [] = []
candidates_of domains ((id, e) ∷ d) =
    let rest = candidates_of domains d in if admits domains e.domain then (id, e) ∷ rest else rest

abbrev pub all_relations : Dict (List Relation) → List Relation
all_relations [] = []
all_relations ((key, history) ∷ d) = oldest_first [] history ++ all_relations d

-- `<=` of two tuples of texts
abbrev pub texts_le : List String → List String → Bool
texts_le [] ys = true
texts_le (x ∷ xs) [] = false
texts_le (x ∷ xs) (y ∷ ys) = if x == y then texts_le xs ys else text_le x y

abbrev pub by_path : Relation → List String
by_path r = r.relation_type ∷ r.source_entity_id ∷ r.destination_entity_id ∷ r.relation_id ∷ []

abbrev pub same_path : Relation → Relation → Bool
same_path a b =
    a.source_entity_id == b.source_entity_id
    && a.relation_type == b.relation_type
    && a.destination_entity_id == b.destination_entity_id

-- one relation for each path, with the Evidence of all
unfoldable pub merge_relation : Relation → List Relation → List Relation
merge_relation r [] = r ∷ []
merge_relation r (x ∷ xs) =
    let rest = merge_relation r xs in
    if same_path x r
    then record x { evidence_ids = merged_ids x.evidence_ids r.evidence_ids } ∷ xs
    else x ∷ rest

unfoldable pub merge_relations : List Relation → List Relation → List Relation
merge_relations done [] = done
merge_relations done (r ∷ rs) = merge_relations (merge_relation r done) rs

-- `adjacency[id]`
unfoldable pub neighbours : String → List Relation → List (String × Relation)
neighbours id [] = []
neighbours id (r ∷ rs) =
    let rest = neighbours id rs in
    let back = if r.destination_entity_id == id then (r.source_entity_id, r) ∷ rest else rest in
    if r.source_entity_id == id then (r.destination_entity_id, r) ∷ back else back

module _ (rt : Runtime) (window : Span) where
  unfoldable pub evidence_within : List Dated → Result (List String)
  evidence_within [] = ok []
  evidence_within ((from, to, ids) ∷ xs) = do
    inside ← overlaps rt from to window
    rest ← evidence_within xs
    ok (if inside then ids ++ rest else rest)

  -- `_entity_evidence`
  unfoldable pub entity_evidence : StateGraph → String → Result (List String)
  entity_evidence s id = do
    history ← found (lookup id s.snapshots_by_entity) key_error
    states ← evidence_within (dated_snapshots (oldest_first [] history))
    occurrences ← evidence_within (dated_events id (values s.events))
    ok (states ++ occurrences)

  -- `observed_relations`, before they are sorted
  unfoldable pub observed_relations :
      Dict Entity → List String → List Relation → Result (List Relation)
  observed_relations d types [] = ok []
  observed_relations d types (r ∷ rs) =
      let later = observed_relations d types rs in
      if not (has r.source_entity_id d && has r.destination_entity_id d) then later else do
        inside ← overlaps rt r.valid_from r.valid_to window
        rest ← later
        ok (if inside && admits types r.relation_type then r ∷ rest else rest)
