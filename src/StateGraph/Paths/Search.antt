-- ===== src/StateGraph/Paths/Search.antt =====
-- The breadth-first search of `find_state_paths` of src/incident_platform/stategraph.py, with fuel for its
-- `while` loop: `none` is a search that ran out of it.
use agent_rca.Prelude.{
  ℕ, zero, suc, ◌+◌, String, true, false, Option, none, some, List, [], ◌∷◌, ◌++◌, if◌then◌else◌,
  mem, length, leb, ltb,
}
use agent_rca.Outcome.{Result, ok, err}
use agent_rca.Outcome.Checked.{◌>>=◌}
use agent_rca.StateGraph.{Relation}
use agent_rca.StateGraph.Validate.{merged_ids}
use agent_rca.StateGraph.Paths.{LocalizedPath, neighbours}

-- an entry of the queue
pub record Visit : Type 0 where
  pub current : String
  pub entity_path : List String
  pub relation_path : List String
  pub evidence_path : List String
  pub depth : ℕ

pub record Search : Type 0 where
  pub visited : List String
  pub observed_relation_evidence : List String
  pub paths : List LocalizedPath
  pub queue : List Visit

abbrev pub path_of : Visit → LocalizedPath
path_of v = record {
  entity_ids = v.entity_path;
  relation_types = v.relation_path;
  evidence_ids = merged_ids v.evidence_path [];
}

-- the path and the queue's entry of a newly visited entity
abbrev pub visit : Visit → Search → Search
visit v st = record st {
  visited = v.current ∷ st.visited;
  paths = st.paths ++ path_of v ∷ [];
  queue = st.queue ++ v ∷ [];
}

-- a seed, which may have been visited already
abbrev pub visit_seed : Visit → Search → Search
visit_seed v st =
    if mem v.current st.visited then record (visit v st) { visited = st.visited } else visit v st

abbrev pub empty_search : Search
empty_search = record { visited = []; observed_relation_evidence = []; paths = []; queue = [] }

-- the next entry, over a relation
abbrev pub next_visit : Visit → String → Relation → List String → Visit
next_visit v id r evidence = record {
  current = id;
  entity_path = v.entity_path ++ id ∷ [];
  relation_path = v.relation_path ++ r.relation_type ∷ [];
  evidence_path = v.evidence_path ++ (r.evidence_ids ++ evidence);
  depth = v.depth + 1;
}

abbrev pub observe : Relation → Search → Search
observe r st = record st {
  observed_relation_evidence = st.observed_relation_evidence ++ r.evidence_ids;
}

module _ (evidence_of : String → Result (List String)) (max_entities max_depth : ℕ)
    (relations : List Relation) where
  -- the loop over the seeds
  unfoldable pub start_search : List String → Search → Result Search
  start_search [] st = ok st
  start_search (seed ∷ seeds) st = if leb max_entities (length st.visited) then ok st else do
    evidence ← evidence_of seed
    start_search seeds (
        visit_seed
          (record {
            current = seed;
            entity_path = seed ∷ [];
            relation_path = [];
            evidence_path = evidence;
            depth = 0;
          })
          st)

  -- the loop over the neighbours of one entry
  unfoldable pub scan : Visit → List (String × Relation) → Search → Result Search
  scan v [] st = ok st
  scan v ((id, r) ∷ rest) st = elim (mem id st.visited) [
    | true ↦ scan v rest (observe r st)
    | false ↦ elim (evidence_of id) [
      | err e ↦ err e
      | ok evidence ↦
          let st' = visit (next_visit v id r evidence) (observe r st) in
          elim (leb max_entities (length st'.visited)) [ true ↦ ok st' | false ↦ scan v rest st' ]
    ]
  ]

  unfoldable pub expand : Visit → Search → Result Search
  expand v st = if leb max_depth v.depth then ok st else scan v (neighbours v.current relations) st

  abbrev pub continue : (Search → Option (Result Search)) → Result Search → Option (Result Search)
  continue again (err e) = some (err e)
  continue again (ok st) = again st

  -- one round of the loop, by the queue
  unfoldable pub round :
      (Search → Option (Result Search)) → Search → List Visit → Option (Result Search)
  round again st [] = some (ok st)
  round again st (v ∷ queue) =
      if ltb (length st.visited) max_entities
      then continue again (expand v (record st { queue = queue }))
      else some (ok st)

  -- `while queue and len(visited) < max_entities`
  unfoldable pub walk : ℕ → Search → Option (Result Search)
  unfolding round
  walk zero st = none
  walk (suc fuel) st = round (walk fuel) st st.queue
