-- ===== src/StateGraph/Reconciled.antt =====
-- What `reconcile_projection` of src/incident_platform/stategraph.py leaves, on every branch.
use agent_rca.Prelude.{
  ℕ, String, true, false, none, some, List, ◌∷◌, ◌≡◌, refl, sym, ap, ◌∙◌, ◌⊎◌, inl, inr, arith,
  eq_iff, mem,
}
use agent_rca.Outcome.{Error, Result, ok, err, Result-cases}
use agent_rca.Time.{DateTime}
use agent_rca.Dict.{Dict, lookup}
use agent_rca.Runtime.{format_evidence_time}
use agent_rca.StateGraph.{Entity, Relation, GraphRecord, GraphRuntime, StateGraph}
use agent_rca.StateGraph.Plan.{ReconciliationScope, owns_entity, Plan, build_reconciliation_plan}
use agent_rca.StateGraph.Entities.{ingest_grouped}
use agent_rca.StateGraph.Gone.{retire_each-IsGone}
use agent_rca.StateGraph.Reconcile.{
  ReconciliationResult, close_each, is_stale, retire_each, reconcile, reconcile_projection,
}
use agent_rca.StateGraph.Retired.{close_each-AreClosed}

-- What a cycle leaves: the entities of its scope that it does not show do not exist, and every open
-- relation of the scope's projector, of a managed type and from an entity of the scope is one that
-- it shows.
pub record IsReconciled (scope : ReconciliationScope) (plan : Plan) (t : StateGraph) : Type 0 where
  pub entities :
      (id : String) (e : Entity)
      → lookup id t.entities ≡ some e
      → owns_entity scope e ≡ true
      → mem id plan.current_entity_ids ≡ false
      → e.exists ≡ false
  pub relations :
      (key : String) (latest : Relation) (older : List Relation) (source : Entity)
      → lookup key t.relations_by_key ≡ some (latest ∷ older)
      → latest.valid_to ≡ none
      → latest.projector ≡ scope.projector
      → mem latest.relation_type scope.managed_relation_types ≡ true
      → lookup latest.source_entity_id t.entities ≡ some source
      → owns_entity scope source ≡ true
      → mem key plan.current_relation_keys ≡ true

module _ (g : GraphRuntime) (scope : ReconciliationScope) (plan : Plan)
    (observed_text : String) where
  shown :
      (key : String) (latest : Relation) (source : Entity) (t : StateGraph)
      → latest.valid_to ≡ none
      → latest.projector ≡ scope.projector
      → mem latest.relation_type scope.managed_relation_types ≡ true
      → lookup latest.source_entity_id t.entities ≡ some source
      → owns_entity scope source ≡ true
      → is_stale g scope plan observed_text key latest t ≡ false
      → mem key plan.current_relation_keys ≡ true
  shown key latest source t open_end projector kind from own current =
      ground (arith, eq_iff latest.projector scope.projector)

  reconcile-IsReconciled :
      (s : StateGraph) (n : ReconciliationResult)
      → (reconcile g scope plan observed_text s).0 ≡ ok n
      → IsReconciled scope plan (reconcile g scope plan observed_text s).1
  unfolding reconcile
  reconcile-IsReconciled s n h = elim (Result-cases (ingest_grouped g true plan.grouped s).0) [
    | inl (x, p) ↦ absurd (ground arith)
    | inr (u, p) ↦
        let s1 = (ingest_grouped g true plan.grouped s).1 in
        elim (Result-cases (retire_each g scope plan observed_text s1.entities s1).0) [
          | inl (x, q) ↦ absurd (ground arith)
          | inr (m, q) ↦
              let s2 = (retire_each g scope plan observed_text s1.entities s1).1 in
              elim (Result-cases (close_each g scope plan observed_text s2.relations_by_key s2).0) [
                | inl (x, r) ↦ absurd (ground arith)
                | inr (l, r) ↦
                    let t = (close_each g scope plan observed_text s2.relations_by_key s2).1 in
                    let gone = retire_each-IsGone g scope plan observed_text s1.entities s1 m q in
                    let closed =
                      close_each-AreClosed g scope plan observed_text s2.relations_by_key s2 t l
                        (ap (λ (x : Result ℕ). (x, t)) r) in
                    rw (p, q, r)
                      (record {
                        entities = λ id e there. gone id (inr refl) e (
                            sym (ap (λ (es : Dict Entity). lookup id es) closed.same_entities)
                            ∙ there);
                        relations =
                            λ key latest older source there open_end projector kind from own.
                              shown key latest source t open_end projector kind from own
                                (closed.all_fresh key (inr refl) latest older there);
                      })
              ]
        ]
  ]

-- A reconciliation that returns leaves the graph reconciled with its cycle: no entity of the scope
-- exists that the cycle does not show, and no open relation of the scope's projector, of a managed
-- type and from an entity of the scope remains that it does not show. One that raises leaves the
-- graph as it was.
pub reconcile_projection-IsReconciled :
    (g : GraphRuntime) (records : List GraphRecord) (scope : ReconciliationScope) (now : DateTime)
    (s : StateGraph)
    → ((e : Error) × ((reconcile_projection g records scope now s).0 ≡ err e)
        × ((reconcile_projection g records scope now s).1 ≡ s))
      ⊎ ((plan : Plan) × (n : ReconciliationResult) × (build_reconciliation_plan g records scope now
            ≡ ok plan)
          × ((reconcile_projection g records scope now s).0 ≡ ok n)
          × IsReconciled scope plan (reconcile_projection g records scope now s).1)
unfolding reconcile_projection
reconcile_projection-IsReconciled g records scope now s =
    elim (Result-cases (build_reconciliation_plan g records scope now)) [
      | inl (e, p) ↦ inl (e, rw p refl, rw p refl)
      | inr (plan, p) ↦ elim (Result-cases (format_evidence_time g.runtime plan.observed_at)) [
        | inl (e, q) ↦ inl (e, rw (p, q) refl, rw (p, q) refl)
        | inr (observed_text, q) ↦ elim (Result-cases (reconcile g scope plan observed_text s).0) [
          | inl (e, r) ↦ inl (e, rw (p, q, r) refl, rw (p, q, r) refl)
          | inr (n, r) ↦ inr (
            plan,
            n,
            p,
            rw (p, q, r) refl,
            rw (p, q, r) (reconcile-IsReconciled g scope plan observed_text s n r),
          )
        ]
      ]
    ]
