-- ===== src/StateGraph/Paths/Bounded.antt =====
-- `find_state_paths` of src/incident_platform/stategraph.py returns, and what it returns is bounded by its
-- scope.
use mathlib.Core.Path.{subst}
use agent_rca.Prelude.{
  suc, ◌+◌, ◌≤◌, String, some, List, [], ◌≡◌, refl, arith, length, All, all, Bool-cases, inl, inr,
}
use agent_rca.Outcome.{Result, ok, err, Result-cases}
use agent_rca.Dict.{has}
use agent_rca.Sort.{sort_by, sort_texts, text_le}
use agent_rca.Runtime.{Runtime}
use agent_rca.StateGraph.{Relation, StateGraph}
use agent_rca.StateGraph.Paths.{
  InvestigationScope, GraphLocalization, candidates_of, all_relations, texts_le, by_path,
  merge_relations, entity_evidence, observed_relations,
}
use agent_rca.StateGraph.Paths.Search.{Search, empty_search, start_search}
use agent_rca.StateGraph.Paths.Localize.{
  find_state_paths, search_paths, prepare, localized, pick, count_covered, recent_change_evidence,
}
use agent_rca.StateGraph.Paths.Found.{walk_ends}
use agent_rca.StateGraph.Paths.Trails.{
  IsSearch, IsPath, empty-IsSearch, start-IsSearch, walk-IsSearch,
}
use agent_rca.StateGraph.Paths.Selected.{
  length-sort_by, All-sort_by, length-pick, IsSelected, observed-AreSelected, merged-AreSelected,
  all_mem, all-Among,
}

module _ (rt : Runtime) (scope : InvestigationScope) (s : StateGraph) where
  -- Selected relations, and a search within its bounds.
  AreReady : List Relation × Search → Type 0
  AreReady x =
      All
        (IsSelected rt scope.window scope.relation_types (candidates_of scope.domains s.entities)
          (all_relations s.relations_by_key))
        x.0
      × IsSearch scope.seed_entity_ids x.0 (entity_evidence rt scope.window s) scope.max_entities
          scope.max_depth x.1

  prepare-AreReady : (x : List Relation × Search) → prepare rt scope s ≡ ok x → AreReady x
  unfolding prepare AreReady
  prepare-AreReady x h =
      let d = candidates_of scope.domains s.entities in
      let evidence = entity_evidence rt scope.window s in
      elim (Bool-cases (all (λ (seed : String). has seed d) scope.seed_entity_ids)) [
        | inr absent ↦ absurd (ground arith)
        | inl present ↦
            elim (Result-cases (
              observed_relations rt scope.window d scope.relation_types
                (all_relations s.relations_by_key))) [
                  | inl (e, p) ↦ absurd (ground arith)
                  | inr (observed, p) ↦
                      let selected =
                        observed-AreSelected rt scope.window scope.relation_types d
                          (all_relations s.relations_by_key) (all_relations s.relations_by_key)
                          observed (all-Among (all_relations s.relations_by_key)) p in
                      let sorted =
                        sort_by (λ (a b : Relation). texts_le (by_path a) (by_path b)) observed in
                      let relations = merge_relations [] sorted in
                      elim (Result-cases (
                        start_search evidence scope.max_entities scope.max_depth relations
                          scope.seed_entity_ids empty_search)) [
                            | inl (e, q) ↦ absurd (ground arith)
                            | inr (st, q) ↦
                                let whole : ◌≡◌ {A = List Relation × Search} (relations, st) x =
                                  ground arith in
                                subst (λ (y : List Relation × Search). AreReady y) whole
                                  (
                                    merged-AreSelected rt scope.window scope.relation_types d
                                        (all_relations s.relations_by_key) [] sorted tt
                                        (All-sort_by
                                          (λ (a b : Relation). texts_le (by_path a) (by_path b))
                                          (IsSelected rt scope.window scope.relation_types d
                                            (all_relations s.relations_by_key))
                                          observed selected),
                                    start-IsSearch scope.seed_entity_ids relations evidence
                                        scope.max_entities scope.max_depth scope.seed_entity_ids
                                        empty_search st
                                        (all_mem scope.seed_entity_ids scope.seed_entity_ids
                                          (λ y m. m))
                                        (empty-IsSearch scope.seed_entity_ids relations evidence
                                          scope.max_entities scope.max_depth)
                                        q,
                                  )
                          ]
                ]
      ]

  search_paths_ends : (x : Result Search) × (search_paths rt scope s ≡ some x)
  unfolding search_paths
  search_paths_ends = elim (Result-cases (prepare rt scope s)) [
    | inl (e, p) ↦ (err e, rw (search_paths, p) refl)
    | inr (x, p) ↦
        let (y, q) =
          walk_ends (entity_evidence rt scope.window s) scope.max_entities scope.max_depth x.0
            (suc (length x.1.queue + scope.max_entities)) x.1 (omega arith) in
        (y, rw (search_paths, p) q)
  ]

  -- A localization never runs out of fuel: on every StateGraph and scope it returns or raises.
  pub find_state_paths_ends :
      (x : Result GraphLocalization) × (find_state_paths rt scope s ≡ some x)
  unfolding find_state_paths
  find_state_paths_ends =
      let (x, p) = search_paths_ends in
      elim (Result-cases x) [
        | inl (e, q) ↦ (err e, rw (p, q) refl)
        | inr (st, q) ↦ (localized rt scope s st, rw (p, q) refl)
      ]

  -- What a localization guarantees.
  pub record IsBounded (loc : GraphLocalization) : Type 0 where
    pub relations : List Relation
    pub selected :
        All
          (IsSelected rt scope.window scope.relation_types
            (candidates_of scope.domains s.entities)
            (all_relations s.relations_by_key))
          relations
    pub entities : length loc.entities ≤ scope.max_entities
    pub counted : loc.entity_coverage.1 ≡ length loc.entities
    pub paths : All (IsPath scope.seed_entity_ids relations scope.max_depth) loc.paths

  localized-IsBounded :
      (relations : List Relation) (st : Search) (loc : GraphLocalization)
      → All
          (IsSelected rt scope.window scope.relation_types
            (candidates_of scope.domains s.entities)
            (all_relations s.relations_by_key))
          relations
      → IsSearch scope.seed_entity_ids relations
          (entity_evidence rt scope.window s)
          scope.max_entities
          scope.max_depth
          st
      → localized rt scope s st ≡ ok loc
      → IsBounded loc
  unfolding localized
  localized-IsBounded relations st loc k h e =
      elim (Result-cases (pick (candidates_of scope.domains s.entities) (sort_texts st.visited))) [
        | inl (x, p) ↦ absurd (ground arith)
        | inr (es, p) ↦ elim (Result-cases (count_covered rt s scope.window st.visited)) [
          | inl (x, q) ↦ absurd (ground arith)
          | inr (n, q) ↦ elim (Result-cases (recent_change_evidence rt s st.visited scope.window)) [
            | inl (x, r) ↦ absurd (ground arith)
            | inr (recent, r) ↦
                let all_picked =
                  length-pick (candidates_of scope.domains s.entities) (sort_texts st.visited) es
                    p in
                let sorted = length-sort_by text_le st.visited in
                let shown : es ≡ loc.entities = ground arith in
                let whole : st.paths ≡ loc.paths = ground arith in
                let counted : length st.visited ≡ loc.entity_coverage.1 = ground arith in
                record {
                  relations = relations;
                  selected = k;
                  entities = rw (← shown) (omega (arith, h.bounded));
                  counted = rw (← shown) (omega arith);
                  paths = rw (← whole) h.reached;
                }
          ]
        ]
      ]

  searched :
      (st : Search)
      → search_paths rt scope s ≡ some (ok st)
      → (relations : List Relation) × All
          (IsSelected rt scope.window scope.relation_types
            (candidates_of scope.domains s.entities)
            (all_relations s.relations_by_key))
          relations
        × IsSearch scope.seed_entity_ids relations
            (entity_evidence rt scope.window s)
            scope.max_entities
            scope.max_depth
            st
  unfolding AreReady search_paths
  searched st e = elim (Result-cases (prepare rt scope s)) [
    | inl (x, p) ↦ let e' = rw (search_paths, p) at e in absurd (ground arith)
    | inr (x, p) ↦
        let (k, h) = prepare-AreReady x p in
        let e' = rw (search_paths, p) at e in
        (
          x.0,
          k,
          walk-IsSearch scope.seed_entity_ids x.0 (entity_evidence rt scope.window s)
              scope.max_entities scope.max_depth (suc (length x.1.queue + scope.max_entities)) x.1
              st h e',
        )
  ]

  -- What a localization returns is bounded by its scope: no more entities than `max_entities`; each
  -- path starts at a seed and goes over at most `max_depth` relations; and each of these is, but for
  -- the Evidence merged into it, a relation that the graph stores, is of an admitted type, joins two
  -- entities of the scope's domains, and overlaps its window.
  pub find_state_paths-IsBounded :
      (loc : GraphLocalization) → find_state_paths rt scope s ≡ some (ok loc) → IsBounded loc
  unfolding find_state_paths
  find_state_paths-IsBounded loc e =
      let (y, q) = search_paths_ends in
      elim (Result-cases y) [
        | inl (x, r) ↦ let e' = rw (q, r) at e in absurd (ground arith)
        | inr (st, r) ↦
            let (relations, k, h) = searched st (rw (← r) q) in
            let e' = rw (q, r) at e in localized-IsBounded relations st loc k h (ground arith)
      ]
