-- ===== src/StateGraph/Paths/Found.antt =====
-- That the search of src/incident_platform/stategraph.py ends, within its bounds, with paths of the graph.
use agent_rca.Prelude.{
  ℕ, zero, suc, ◌+◌, ◌-◌, ◌≤◌, ◌<◌, String, Option, some, List, [], ◌∷◌, ◌≡◌, refl, inl, inr, arith,
  length, length-append, leb, ltb, Bool-cases,
}
use agent_rca.Outcome.{Result, ok, err, Result-cases}
use agent_rca.StateGraph.{Relation}
use agent_rca.StateGraph.Paths.{neighbours}
use agent_rca.StateGraph.Paths.Search.{
  Visit, Search, visit, next_visit, observe, scan, expand, walk, round,
}

module _ (evidence_of : String → Result (List String)) (max_entities max_depth : ℕ)
    (relations : List Relation) where
  -- what the loop still may do
  abbrev pub budget : Search → ℕ
  budget st = length st.queue + (max_entities - length st.visited)

  scan_budget :
      (v : Visit) (ns : List (String × Relation)) (st st' : Search)
      → length st.visited < max_entities
      → scan evidence_of max_entities max_depth relations v ns st ≡ ok st'
      → budget st' ≤ budget st
  unfolding scan
  scan_budget v [] st st' h e = ground arith
  scan_budget v ((id, r) ∷ ns) st st' h e = elim (Result-cases (evidence_of id)) [
    | inl (x, q) ↦ ground (arith, scan_budget v ns (observe r st) st')
    | inr (evidence, q) ↦
        let w = next_visit v id r evidence in
        ground (
          arith,
          length-append st.queue (w ∷ []),
          scan_budget v ns (observe r st) st',
          scan_budget v ns (visit w (observe r st)) st',
        )
  ]

  expand_budget :
      (v : Visit) (st st' : Search)
      → length st.visited < max_entities
      → expand evidence_of max_entities max_depth relations v st ≡ ok st'
      → budget st' ≤ budget st
  unfolding expand
  expand_budget v st st' h e = elim (Bool-cases (leb max_depth v.depth)) [
    | inl deep ↦ ground arith
    | inr more ↦ ground (arith, scan_budget v (neighbours v.current relations) st st')
  ]

  round_ends :
      (fuel : ℕ) (again : Search → Option (Result Search)) (st : Search)
      → ((st' : Search) → budget st' < fuel → (x : Result Search) × (again st' ≡ some x))
      → (queue : List Visit) → length queue + (max_entities - length st.visited) < suc fuel
      → (x : Result Search) × (round evidence_of max_entities max_depth relations again st queue
          ≡ some x)
  unfolding round
  round_ends fuel again st ends [] h = (ok st, refl)
  round_ends fuel again st ends (v ∷ queue) h =
      let popped : Search = record st { queue = queue } in
      elim (Bool-cases (ltb (length st.visited) max_entities)) [
        | inr full ↦ (ok st, rw full refl)
        | inl room ↦
            elim (Result-cases (expand evidence_of max_entities max_depth relations v popped)) [
              | inl (x, p) ↦ (err x, rw (room, p) refl)
              | inr (st', p) ↦
                  let less = expand_budget v popped st' (ground arith) p in
                  let (x, r) = ends st' (omega arith) in (x, rw (room, p) r)
            ]
      ]

  -- More fuel than the budget is enough.
  pub walk_ends :
      (fuel : ℕ) (st : Search)
      → budget st < fuel
      → (x : Result Search) × (walk evidence_of max_entities max_depth relations fuel st ≡ some x)
  unfolding walk
  walk_ends zero st h = absurd (omega arith)
  walk_ends (suc fuel) st h =
      round_ends fuel (walk evidence_of max_entities max_depth relations fuel) st (walk_ends fuel)
        st.queue h
