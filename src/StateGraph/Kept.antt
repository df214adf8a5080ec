-- ===== src/StateGraph/Kept.antt =====
-- Every write of `InMemoryStateGraphRepository` of src/incident_platform/stategraph.py, a whole projection
-- included, keeps the invariant, also where it raises half way.
use agent_rca.Prelude.{
  String, Bool, true, false, Option, none, some, List, [], ◌∷◌, ◌≡◌, refl, inl, inr, arith,
  Bool-cases, if◌then◌else◌, ◌==◌, eq_iff,
}
use agent_rca.Outcome.{Result, ok, err, proceed, require, contract_violation}
use agent_rca.Time.{DateTime}
use agent_rca.Dict.{lookup, insert, lookup-insert}
use agent_rca.StateGraph.{
  Entity, Snapshot, Relation, GraphEvent, GraphRecord, GraphRuntime, StateGraph, no_graph, Graph,
}
use agent_rca.StateGraph.Write.{
  put_snapshots, put_entity, require_entity, append_or_extend_snapshot, append_or_extend_relation,
}
use agent_rca.StateGraph.Entities.{
  Grouped, resolve, resolve_pair, resolve_each, reconcile_kubernetes_placeholder, put_or_merge,
  upsert_entity, count_or_merge, upsert_event_aggregate, for_each, ingest_grouped, ingest,
}
use agent_rca.StateGraph.Temporal.{
  IsTemporal, append_snapshot-IsTemporal, append_relation-IsTemporal,
}

module _ (g : GraphRuntime) where
  -- whatever a call returns or raises, it leaves the invariant
  pub Kept : {A : Type 0} → Result A × StateGraph → Type 0
  Kept x = IsTemporal g x.1

  proceed-Kept :
      {A B : Type 0} (x : Result A) (f : A → Graph B) (s : StateGraph)
      → IsTemporal g s
      → ((a : A) (t : StateGraph) → IsTemporal g t → Kept (f a t))
      → Kept (proceed x f s)
  unfolding Kept
  proceed-Kept (ok a) f s w h = h a s w
  proceed-Kept (err e) f s w h = w

  require-IsTemporal :
      (b : Bool) (s : StateGraph) → IsTemporal g s → IsTemporal g (require b contract_violation s).1
  require-IsTemporal true s w = w
  require-IsTemporal false s w = w

  return-Kept : {A : Type 0} (a : Result A) (s : StateGraph) → IsTemporal g s → Kept (a, s)
  unfolding Kept
  return-Kept a s w = w

  -- a step that reads no more than its arguments
  lift-Kept :
      {A B : Type 0} (x : Result A) (f : A → Graph B) (s : StateGraph)
      → IsTemporal g s
      → ((a : A) → Kept (f a s))
      → Kept (proceed x f s)
  unfolding Kept
  lift-Kept (ok a) f s w h = h a
  lift-Kept (err e) f s w h = w

  require-Kept :
      {B : Type 0} (b : Bool) (f : Unit → Graph B) (s : StateGraph)
      → IsTemporal g s
      → Kept (f tt s)
      → Kept (proceed (require b contract_violation s).0 f (require b contract_violation s).1)
  unfolding Kept
  require-Kept true f s w h = h
  require-Kept false f s w h = w

  if-Kept :
      {A : Type 0} (b : Bool) (m n : Graph A) (s : StateGraph)
      → Kept (m s)
      → Kept (n s)
      → Kept ((if b then m else n) s)
  if-Kept true m n s p q = p
  if-Kept false m n s p q = q

  left : {A : Type 0} (x : Result A × StateGraph) → Kept x → IsTemporal g x.1
  unfolding Kept
  left x k = k

  ruleset keeping =
      (proceed-Kept, return-Kept, if-Kept, left, require-IsTemporal, append_relation-IsTemporal)

  resolve-Kept : (p r : Entity) (s : StateGraph) → IsTemporal g s → Kept (resolve g p r s)
  unfolding resolve
  resolve-Kept p r s w = search keeping depth 16

  resolve_pair-Kept : (e o : Entity) (s : StateGraph) → IsTemporal g s → Kept (resolve_pair g e o s)
  unfolding resolve_pair
  resolve_pair-Kept e o s w = search (keeping, resolve-Kept) depth 16

  resolve_each-Kept :
      (e : Entity) (os : List Entity) (s : StateGraph)
      → IsTemporal g s
      → Kept (resolve_each g e os s)
  unfolding resolve_each Kept
  resolve_each-Kept e [] s w = return-Kept (ok tt) s w
  resolve_each-Kept e (o ∷ os) s w =
      search (keeping, resolve_pair-Kept, resolve_each-Kept e os) depth 16

  reconcile-Kept :
      (e : Entity) (s : StateGraph) → IsTemporal g s → Kept (reconcile_kubernetes_placeholder g e s)
  unfolding reconcile_kubernetes_placeholder
  reconcile-Kept e s w = search (keeping, resolve_each-Kept) depth 16

  put_new-IsTemporal :
      (e : Entity) {s : StateGraph}
      → IsTemporal g s
      → IsTemporal g (put_snapshots e.entity_id [] (put_entity e s))
  put_new-IsTemporal e {s} w = record {
    snapshots = λ j k q. elim (Bool-cases (e.entity_id == j)) [
      | inl hit ↦
          let none_yet : [] ≡ k =
            ground (arith, lookup-insert e.entity_id j [] s.snapshots_by_entity) in
          rw (← none_yet) tt
      | inr miss ↦
          w.snapshots j k (ground (arith, lookup-insert e.entity_id j [] s.snapshots_by_entity))
    ];
    relations = w.relations;
    same_rows = λ j.
        rw
          (
            lookup-insert e.entity_id j [] s.snapshots_by_entity,
            lookup-insert e.entity_id j e s.entities,
          )
          (ground (arith, w.same_rows j));
  }

  put_known-IsTemporal :
      (id : String) (old new : Entity) {s : StateGraph}
      → lookup id s.entities ≡ some old
      → IsTemporal g s
      → IsTemporal g (record s { entities = insert id new s.entities })
  put_known-IsTemporal id old new {s} there w = record {
    snapshots = w.snapshots;
    relations = w.relations;
    same_rows =
        λ j. rw (lookup-insert id j new s.entities) (ground (arith, w.same_rows j, eq_iff id j));
  }

  put_or_merge-Kept :
      (replace : Bool) (c : Entity) (first last : DateTime) (existing : Option Entity)
      (s : StateGraph)
      → IsTemporal g s
      → lookup c.entity_id s.entities ≡ existing
      → Kept (put_or_merge g replace c first last existing s)
  unfolding put_or_merge Kept
  put_or_merge-Kept replace c first last none s w there =
      search (keeping, reconcile-Kept, put_new-IsTemporal) depth 16
  put_or_merge-Kept replace c first last (some existing) s w there =
      search
        (lift-Kept, require-Kept, proceed-Kept, return-Kept, reconcile-Kept, put_known-IsTemporal)
        depth 20

  upsert_entity-Kept :
      (replace : Bool) (c : Entity) (s : StateGraph)
      → IsTemporal g s
      → Kept (upsert_entity g replace c s)
  unfolding upsert_entity
  upsert_entity-Kept replace c s w = search (lift-Kept, require-Kept, put_or_merge-Kept) depth 16

  put_event-IsTemporal :
      (id : String) (e : GraphEvent) {s : StateGraph}
      → IsTemporal g s
      → IsTemporal g (record s { events = insert id e s.events })
  put_event-IsTemporal id e w = record {
    snapshots = w.snapshots;
    relations = w.relations;
    same_rows = w.same_rows;
  }

  count_or_merge-Kept :
      (c : GraphEvent) (first last : DateTime) (existing : Option GraphEvent) (s : StateGraph)
      → IsTemporal g s
      → Kept (count_or_merge g c first last existing s)
  unfolding count_or_merge
  count_or_merge-Kept c first last none s w = search (return-Kept, put_event-IsTemporal)
  count_or_merge-Kept c first last (some existing) s w =
      search (lift-Kept, require-Kept, return-Kept, put_event-IsTemporal) depth 20

  upsert_event-Kept :
      (c : GraphEvent) (s : StateGraph) → IsTemporal g s → Kept (upsert_event_aggregate g c s)
  unfolding upsert_event_aggregate require_entity
  upsert_event-Kept c s w = search (lift-Kept, require-Kept, count_or_merge-Kept) depth 16

  for_each-Kept :
      {A B : Type 0} (method : A → Graph B)
      → ((a : A) (t : StateGraph) → IsTemporal g t → Kept (method a t))
      → (xs : List A) (s : StateGraph) → IsTemporal g s
      → Kept (for_each g method xs s)
  unfolding for_each Kept
  for_each-Kept method kept [] s w = w
  for_each-Kept method kept (x ∷ xs) s w =
      proceed-Kept (method x s).0 (λ a. for_each g method xs) (method x s).1 (kept x s w)
        (λ a t. for_each-Kept method kept xs t)

  snapshot-Kept :
      (replace : Bool) (c : Snapshot) (s : StateGraph)
      → IsTemporal g s
      → Kept (append_or_extend_snapshot g replace c s)
  unfolding Kept
  snapshot-Kept replace c s w = append_snapshot-IsTemporal g replace c w

  relation-Kept :
      (replace : Bool) (c : Relation) (s : StateGraph)
      → IsTemporal g s
      → Kept (append_or_extend_relation g replace c s)
  unfolding Kept
  relation-Kept replace c s w = append_relation-IsTemporal g replace c w

  pub ingest_grouped-Kept :
      (replace : Bool) (d : Grouped) (s : StateGraph)
      → IsTemporal g s
      → Kept (ingest_grouped g replace d s)
  unfolding ingest_grouped Kept
  ingest_grouped-Kept replace d s w =
      search
        (
          proceed-Kept, for_each-Kept, upsert_entity-Kept, snapshot-Kept, relation-Kept,
          upsert_event-Kept,
        )
        depth 16

  pub no_graph-IsTemporal : IsTemporal g no_graph
  unfolding lookup
  no_graph-IsTemporal = record {
    snapshots = λ id h e. absurd (ground arith);
    relations = λ key h e. absurd (ground arith);
    same_rows = λ id. refl;
  }

  -- Ingestion of any records, also one that raises half way, keeps every history a timeline.
  pub ingest-IsTemporal :
      (records : List GraphRecord) {s : StateGraph}
      → IsTemporal g s
      → IsTemporal g (ingest g records s).1
  unfolding ingest Kept
  ingest-IsTemporal records {s} w =
      left (ingest g records s) (search (lift-Kept, ingest_grouped-Kept))
