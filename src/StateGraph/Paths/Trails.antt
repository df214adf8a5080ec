-- ===== src/StateGraph/Paths/Trails.antt =====
-- What the search of src/incident_platform/stategraph.py visits: the ends of paths that start at a seed and
-- go over the selected relations.
use mathlib.Core.Path.{subst}
use agent_rca.Prelude.{
  ℕ, zero, suc, ◌≤◌, ◌<◌, String, true, false, Option, some, List, [], ◌∷◌, ◌++◌, ◌≡◌, refl, ◌⊎◌,
  inl, inr, arith, mem, length, unique, All, length-append, leb, ltb, Bool-cases, eq_iff, ◌==◌,
}
use agent_rca.Outcome.{Result, ok, Result-cases}
use agent_rca.StateGraph.{Relation}
use agent_rca.StateGraph.Paths.{LocalizedPath, neighbours}
use agent_rca.StateGraph.Paths.Search.{
  Visit, Search, empty_search, path_of, visit, next_visit, observe, scan, expand, walk, round,
  start_search, visit_seed,
}

abbrev pub Among : Relation → List Relation → Type 0
Among r [] = ⊥
Among r (x ∷ xs) = (r ≡ x) ⊎ Among r xs

-- The relation joins the two entities, in either direction.
abbrev pub Joins : Relation → String → String → Type 0
Joins r a b =
    ((r.source_entity_id ≡ a) × (r.destination_entity_id ≡ b))
    ⊎ ((r.destination_entity_id ≡ a) × (r.source_entity_id ≡ b))

-- The entities and the relation types of a path from a seed to an entity.
pub data Trail (seeds : List String) (relations : List Relation)
    : List String → List String → String → Type 0 where
  from_seed :
      (seed : String) {es rs : List String}
      → mem seed seeds ≡ true
      → es ≡ seed ∷ []
      → rs ≡ []
      → Trail seeds relations es rs seed
  over :
      {es rs es' rs' : List String} {a : String} (b : String) (r : Relation)
      → Trail seeds relations es rs a
      → Among r relations
      → Joins r a b
      → es' ≡ es ++ b ∷ []
      → rs' ≡ rs ++ r.relation_type ∷ []
      → Trail seeds relations es' rs' b

All_snoc {ℓ κ} :
    {A : Type ℓ} (P : A → Type κ) (xs : List A) (x : A) → All P xs → P x → All P (xs ++ x ∷ [])
All_snoc P [] x h p = (p, tt)
All_snoc P (y ∷ ys) x h p = (h.0, All_snoc P ys x h.1 p)

module _ (seeds : List String) (relations : List Relation) where
  abbrev Leads : String → String × Relation → Type 0
  Leads a (b, r) = Among r relations × Joins r a b

  All-Among :
      (a : String) (x : Relation) (rs : List Relation) (ns : List (String × Relation))
      → All (λ (n : String × Relation). Among n.1 rs × Joins n.1 a n.0) ns
      → All (λ (n : String × Relation). Among n.1 (x ∷ rs) × Joins n.1 a n.0) ns
  All-Among a x rs [] h = tt
  All-Among a x rs (n ∷ ns) h = ((inr h.0.0, h.0.1), All-Among a x rs ns h.1)

  neighbours_lead :
      (a : String) (rs : List Relation)
      → All (λ (n : String × Relation). Among n.1 rs × Joins n.1 a n.0) (neighbours a rs)
  unfolding neighbours
  neighbours_lead a [] = tt
  neighbours_lead a (r ∷ rs) =
      let rest = All-Among a r rs (neighbours a rs) (neighbours_lead a rs) in
      elim (Bool-cases (r.source_entity_id == a)) [
        | inl out ↦ elim (Bool-cases (r.destination_entity_id == a)) [
          | inl back ↦
              rw (out, back)
                (
                  (inl refl, inl ((eq_iff r.source_entity_id a).0 out, refl)),
                  ((inl refl, inr ((eq_iff r.destination_entity_id a).0 back, refl)), rest),
                )
          | inr away ↦
              rw (out, away) ((inl refl, inl ((eq_iff r.source_entity_id a).0 out, refl)), rest)
        ]
        | inr other ↦ elim (Bool-cases (r.destination_entity_id == a)) [
          | inl back ↦
              rw (other, back)
                ((inl refl, inr ((eq_iff r.destination_entity_id a).0 back, refl)), rest)
          | inr away ↦ rw (other, away) rest
        ]
      ]

  -- A queue's entry has its path, and its depth is the path's length.
  abbrev pub IsVisit : ℕ → Visit → Type 0
  IsVisit max_depth v =
      Trail seeds relations v.entity_path v.relation_path v.current
      × (length v.relation_path ≡ v.depth)
      × (v.depth ≤ max_depth)

  abbrev pub IsPath : ℕ → LocalizedPath → Type 0
  IsPath max_depth p =
      (a : String) × Trail seeds relations p.entity_ids p.relation_types a
      × (length p.relation_types ≤ max_depth)

  module _ (evidence_of : String → Result (List String)) (max_entities max_depth : ℕ) where
    -- The bounds hold, no entity is counted twice, and every path is one of the graph from a seed.
    pub record IsSearch (st : Search) : Type 0 where
      pub bounded : length st.visited ≤ max_entities
      pub distinct : unique st.visited ≡ true
      pub queued : All (IsVisit max_depth) st.queue
      pub reached : All (IsPath max_depth) st.paths

    pub empty-IsSearch : IsSearch empty_search
    unfolding unique
    empty-IsSearch = record { bounded = omega arith; distinct = refl; queued = tt; reached = tt }

    observe-IsSearch : (r : Relation) (st : Search) → IsSearch st → IsSearch (observe r st)
    observe-IsSearch r st h = record {
      bounded = h.bounded;
      distinct = h.distinct;
      queued = h.queued;
      reached = h.reached;
    }

    visit-IsSearch :
        (v : Visit) (st : Search)
        → IsSearch st
        → IsVisit max_depth v
        → length st.visited < max_entities
        → mem v.current st.visited ≡ false
        → IsSearch (visit v st)
    unfolding unique
    visit-IsSearch v st h p room new = record {
      bounded = omega arith;
      distinct = ground (arith, h.distinct);
      queued = All_snoc (IsVisit max_depth) st.queue v h.queued p;
      reached =
          All_snoc (IsPath max_depth) st.paths (path_of v) h.reached
            (v.current, p.0, omega (arith, p.1, p.2));
    }

    next-IsVisit :
        (v : Visit) (id : String) (r : Relation) (evidence : List String)
        → IsVisit max_depth v
        → v.depth < max_depth
        → Among r relations
        → Joins r v.current id
        → IsVisit max_depth (next_visit v id r evidence)
    next-IsVisit v id r evidence p deep there joins = (
      over id r p.0 there joins refl refl,
      omega (arith, p.1, length-append v.relation_path (r.relation_type ∷ [])),
      omega arith,
    )

    scan-IsSearch :
        (v : Visit) (ns : List (String × Relation)) (st st' : Search)
        → IsSearch st
        → IsVisit max_depth v
        → v.depth < max_depth
        → length st.visited < max_entities
        → All (λ (n : String × Relation). Among n.1 relations × Joins n.1 v.current n.0) ns
        → scan evidence_of max_entities max_depth relations v ns st ≡ ok st'
        → IsSearch st'
    unfolding scan
    scan-IsSearch v [] st st' h p deep room links e = subst (λ (x : Search). IsSearch x) (cc) h
    scan-IsSearch v ((id, r) ∷ ns) st st' h p deep room links e =
        elim (Bool-cases (mem id st.visited)) [
          | inl seen ↦
              scan-IsSearch v ns (observe r st) st' (observe-IsSearch r st h) p deep room links.1
                (ground arith)
          | inr new ↦ elim (Result-cases (evidence_of id)) [
            | inl (x, q) ↦ absurd (ground arith)
            | inr (evidence, q) ↦
                let w = next_visit v id r evidence in
                let wide =
                  visit-IsSearch w (observe r st) (observe-IsSearch r st h)
                    (next-IsVisit v id r evidence p deep links.0.0 links.0.1) room new in
                elim (Bool-cases (leb max_entities (suc (length st.visited)))) [
                  | inl full ↦ subst (λ (x : Search). IsSearch x) (ground arith) wide
                  | inr more ↦
                      scan-IsSearch v ns (visit w (observe r st)) st' wide p deep (ground arith)
                        links.1 (ground arith)
                ]
          ]
        ]

    expand-IsSearch :
        (v : Visit) (st st' : Search)
        → IsSearch st
        → IsVisit max_depth v
        → length st.visited < max_entities
        → expand evidence_of max_entities max_depth relations v st ≡ ok st'
        → IsSearch st'
    unfolding expand
    expand-IsSearch v st st' h p room e = elim (Bool-cases (leb max_depth v.depth)) [
      | inl deep ↦ subst (λ (x : Search). IsSearch x) (ground arith) h
      | inr more ↦
          scan-IsSearch v (neighbours v.current relations) st st' h p (ground arith) room
            (neighbours_lead v.current relations) (ground arith)
    ]

    round-IsSearch :
        (again : Search → Option (Result Search)) (st st' : Search)
        → ((x y : Search) → IsSearch x → again x ≡ some (ok y) → IsSearch y)
        → IsSearch st
        → (queue : List Visit) → st.queue ≡ queue
        → round evidence_of max_entities max_depth relations again st queue ≡ some (ok st')
        → IsSearch st'
    unfolding round
    round-IsSearch again st st' rest h [] q e = subst (λ (x : Search). IsSearch x) (cc) h
    round-IsSearch again st st' rest h (v ∷ queue) q e =
        let queued : All (IsVisit max_depth) (v ∷ queue) =
          subst (λ (x : List Visit). All (IsVisit max_depth) x) q h.queued in
        let popped : Search = record st { queue = queue } in
        let start : IsSearch popped = record {
          bounded = h.bounded;
          distinct = h.distinct;
          queued = queued.1;
          reached = h.reached;
        } in
        elim (Bool-cases (ltb (length st.visited) max_entities)) [
          | inr full ↦ subst (λ (x : Search). IsSearch x) (ground arith) h
          | inl room ↦
              elim (Result-cases (expand evidence_of max_entities max_depth relations v popped)) [
                | inl (x, p) ↦ absurd (ground arith)
                | inr (u, p) ↦
                    rest u st' (expand-IsSearch v popped u start queued.0 (ground arith) p)
                      (ground arith)
              ]
        ]

    pub walk-IsSearch :
        (fuel : ℕ) (st st' : Search)
        → IsSearch st
        → walk evidence_of max_entities max_depth relations fuel st ≡ some (ok st')
        → IsSearch st'
    unfolding walk
    walk-IsSearch zero st st' h e = absurd (ground arith)
    walk-IsSearch (suc fuel) st st' h e =
        round-IsSearch (walk evidence_of max_entities max_depth relations fuel) st st'
          (walk-IsSearch fuel) h st.queue refl e

    visit_seed-IsSearch :
        (v : Visit) (st : Search)
        → IsSearch st
        → IsVisit max_depth v
        → length st.visited < max_entities
        → IsSearch (visit_seed v st)
    visit_seed-IsSearch v st h p room = elim (Bool-cases (mem v.current st.visited)) [
      | inr new ↦ rw new (visit-IsSearch v st h p room new)
      | inl seen ↦ rw seen (record {
        bounded = h.bounded;
        distinct = h.distinct;
        queued = All_snoc (IsVisit max_depth) st.queue v h.queued p;
        reached =
            All_snoc (IsPath max_depth) st.paths (path_of v) h.reached
              (v.current, p.0, omega (arith, p.1, p.2));
      })
    ]

    pub start-IsSearch :
        (rest : List String) (st st' : Search)
        → All (λ (s : String). mem s seeds ≡ true) rest
        → IsSearch st
        → start_search evidence_of max_entities max_depth relations rest st ≡ ok st'
        → IsSearch st'
    unfolding start_search
    start-IsSearch [] st st' are h e = subst (λ (x : Search). IsSearch x) (cc) h
    start-IsSearch (seed ∷ rest) st st' are h e =
        elim (Bool-cases (leb max_entities (length st.visited))) [
          | inl full ↦ subst (λ (x : Search). IsSearch x) (ground arith) h
          | inr room ↦ elim (Result-cases (evidence_of seed)) [
            | inl (x, q) ↦ absurd (ground arith)
            | inr (evidence, q) ↦
                let v : Visit = record {
                  current = seed;
                  entity_path = seed ∷ [];
                  relation_path = [];
                  evidence_path = evidence;
                  depth = 0;
                } in
                start-IsSearch rest (visit_seed v st) st' are.1
                  (visit_seed-IsSearch v st h (from_seed seed are.0 refl refl, refl, omega arith)
                    (ground arith))
                  (ground arith)
          ]
        ]
