-- ===== src/StateGraph/Retired.antt =====
-- That `reconcile_projection` of src/incident_platform/stategraph.py closes the relations of its scope that
-- its cycle does not show.
use mathlib.Core.Path.{subst}
use agent_rca.Prelude.{
  ℕ, String, false, some, List, [], ◌∷◌, ◌≡◌, refl, sym, ap, ◌∙◌, ◌⊎◌, inl, inr, arith, Bool-cases,
  ◌==◌, eq_iff,
}
use agent_rca.Outcome.{Result, ok, Result-cases}
use agent_rca.Time.{at_most}
use agent_rca.Dict.{Dict, lookup, lookup-insert, lookup-insert_self}
use agent_rca.Runtime.{parse_time}
use agent_rca.StateGraph.{Relation, of_relation, GraphRuntime, StateGraph}
use agent_rca.StateGraph.Validate.{validate_graph_record}
use agent_rca.StateGraph.Write.{put_relations}
use agent_rca.StateGraph.Plan.{ReconciliationScope, Plan}
use agent_rca.StateGraph.Reconcile.{close_stale, close_each, is_stale}

module _ (g : GraphRuntime) (scope : ReconciliationScope) (plan : Plan)
    (observed_text : String) where
  -- The latest interval of the key's history is not stale.
  abbrev pub IsFresh : String → StateGraph → Type 0
  IsFresh key s =
      (latest : Relation) (older : List Relation)
      → lookup key s.relations_by_key ≡ some (latest ∷ older)
      → is_stale g scope plan observed_text key latest s ≡ false

  -- What one step of the loop leaves: the graph with its entities; the other histories; and the
  -- history of its key, if it was current or fresh before, is fresh.
  record IsClosed (key : String) (history : List Relation) (s t : StateGraph) : Type 0 where
    entities : t.entities ≡ s.entities
    others :
        (other : String)
        → (key == other) ≡ false
        → lookup other t.relations_by_key ≡ lookup other s.relations_by_key
    fresh : IsFresh key s ⊎ (lookup key s.relations_by_key ≡ some history) → IsFresh key t

  untouched-IsClosed :
      (key : String) (latest : Relation) (older : List Relation) (s : StateGraph)
      → is_stale g scope plan observed_text key latest s ≡ false
      → IsClosed key (latest ∷ older) s s
  untouched-IsClosed key latest older s current = record {
    entities = refl;
    others = λ other miss. refl;
    fresh = λ known latest' older' e. elim known [
      | inl before ↦ before latest' older' e
      | inr there ↦
          let same : latest ≡ latest' = cc in
          subst (λ (r : Relation). is_stale g scope plan observed_text key r s ≡ false) same current
    ];
  }

  put_relations-IsClosed :
      (key : String) (closed : Relation) (history older : List Relation) (s : StateGraph)
      (end : String)
      → closed.valid_to ≡ some end
      → IsClosed key history s (put_relations key (closed ∷ older) s)
  put_relations-IsClosed key closed history older s end e = record {
    entities = refl;
    others = λ other miss. rw (lookup-insert, miss) refl;
    fresh = λ known latest' older' there.
        let same : latest' ≡ closed =
          cc (lookup-insert_self key (closed ∷ older) s.relations_by_key) in
        rw (same, e) refl;
  }

  close_stale-IsClosed :
      (key : String) (history : List Relation) (s t : StateGraph) (n : ℕ)
      → close_stale g scope plan observed_text key history s ≡ (ok n, t)
      → IsClosed key history s t
  unfolding close_stale
  close_stale-IsClosed key [] s t n h = absurd (ground arith)
  close_stale-IsClosed key (latest ∷ older) s t n h =
      elim (Bool-cases (is_stale g scope plan observed_text key latest s)) [
        | inr current ↦
            let same : s ≡ t = ground arith in
            subst (λ (u : StateGraph). IsClosed key (latest ∷ older) s u) same
              (untouched-IsClosed key latest older s current)
        | inl stale ↦ elim (Result-cases (parse_time g.runtime latest.valid_from)) [
          | inl (x, p) ↦ absurd (ground arith)
          | inr (from, p) ↦
              let closed : Relation = record latest {
                valid_to = some observed_text;
                observed_at = observed_text;
              } in
              elim (Bool-cases (at_most from plan.observed_at)) [
                | inr early ↦ absurd (ground arith)
                | inl late ↦ elim (Result-cases (validate_graph_record g (of_relation closed))) [
                  | inl (x, v) ↦ absurd (ground arith)
                  | inr (u, v) ↦
                      let same : put_relations key (closed ∷ older) s ≡ t = ground arith in
                      subst (λ (u : StateGraph). IsClosed key (latest ∷ older) s u) same
                        (put_relations-IsClosed key closed (latest ∷ older) older s observed_text
                          refl)
                ]
              ]
        ]
      ]

  carried-IsFresh :
      (key : String) (s t : StateGraph)
      → t.entities ≡ s.entities
      → lookup key t.relations_by_key ≡ lookup key s.relations_by_key
      → IsFresh key s
      → IsFresh key t
  carried-IsFresh key s t same kept fresh latest older there =
      rw same (fresh latest older (sym kept ∙ there))

  -- The loop leaves the entities, and makes fresh each history that it goes through or that was.
  pub record AreClosed (d : Dict (List Relation)) (s t : StateGraph) : Type 0 where
    pub same_entities : t.entities ≡ s.entities
    pub all_fresh :
        (key : String)
        → IsFresh key s ⊎ (lookup key s.relations_by_key ≡ lookup key d)
        → IsFresh key t

  at_head :
      (key k : String) (history : List Relation) (d : Dict (List Relation)) (s : StateGraph)
      → k ≡ key
      → IsFresh key s ⊎ (lookup key s.relations_by_key ≡ lookup key ((k, history) ∷ d))
      → IsFresh k s ⊎ (lookup k s.relations_by_key ≡ some history)
  unfolding lookup
  at_head key k history d s here known = elim known [
    | inl before ↦ inl (subst (λ (x : String). IsFresh x s) (sym here) before)
    | inr there ↦ inr (
        subst (λ (x : String). lookup x s.relations_by_key ≡ some history) (sym here)
          (there ∙ rw ((eq_iff k key).1 here) refl))
  ]

  pub close_each-AreClosed :
      (d : Dict (List Relation)) (s t : StateGraph) (n : ℕ)
      → close_each g scope plan observed_text d s ≡ (ok n, t)
      → AreClosed d s t
  unfolding close_each lookup
  close_each-AreClosed [] s t n h =
      let same : s ≡ t = ground arith in
      subst (λ (u : StateGraph). AreClosed [] s u) same
        (record {
          same_entities = refl;
          all_fresh = λ key known latest older there. elim known [
            | inl before ↦ before latest older there
            | inr empty ↦ absurd (ground arith)
          ];
        })
  close_each-AreClosed ((k, history) ∷ d) s t n h =
      let s1 = (close_stale g scope plan observed_text k history s).1 in
      elim (Result-cases (close_stale g scope plan observed_text k history s).0) [
        | inl (x, p) ↦ absurd (ground arith)
        | inr (m, p) ↦
            let one = close_stale-IsClosed k history s s1 m (ap (λ (r : Result ℕ). (r, s1)) p) in
            elim (Result-cases (close_each g scope plan observed_text d s1).0) [
              | inl (x, q) ↦ absurd (ground arith)
              | inr (l, q) ↦
                  let rest = close_each-AreClosed d s1 t l (ground arith) in
                  record {
                    same_entities = rest.same_entities ∙ one.entities;
                    all_fresh = λ key known. elim (Bool-cases (k == key)) [
                      | inl hit ↦
                          let here : k ≡ key = (eq_iff k key).0 hit in
                          subst (λ (x : String). IsFresh x t) here
                            (rest.all_fresh k
                              (inl (one.fresh (at_head key k history d s here known))))
                      | inr miss ↦ rest.all_fresh key (elim known [
                        | inl before ↦
                            inl (carried-IsFresh key s s1 one.entities (one.others key miss) before)
                        | inr there ↦ inr (one.others key miss ∙ there ∙ rw miss refl)
                      ])
                    ];
                  }
            ]
      ]
