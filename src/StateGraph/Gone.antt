-- ===== src/StateGraph/Gone.antt =====
-- That `reconcile_projection` of src/incident_platform/stategraph.py retires the entities of its scope that
-- its cycle does not show.
use mathlib.Core.Path.{subst}
use agent_rca.Prelude.{
  ℕ, String, true, false, some, List, [], ◌∷◌, ◌≡◌, refl, sym, ◌∙◌, ◌⊎◌, inl, inr, arith,
  Bool-cases, ◌==◌, eq_iff, not, mem, ◌||◌,
}
use agent_rca.Outcome.{ok, Result-cases, ◌>>=◌, pure}
use agent_rca.Time.{at_most}
use agent_rca.Dict.{Dict, lookup, insert, lookup-insert, lookup-insert_self}
use agent_rca.Runtime.{parse_time}
use agent_rca.Repository.{rows}
use agent_rca.StateGraph.{Entity, Snapshot, of_entity, GraphRuntime, StateGraph}
use agent_rca.StateGraph.Validate.{validate_graph_record}
use agent_rca.StateGraph.Plan.{ReconciliationScope, owns_entity, Plan}
use agent_rca.StateGraph.Reconcile.{retire_entity, close_snapshot, retire_one, retire_each}

module _ (g : GraphRuntime) (scope : ReconciliationScope) (plan : Plan)
    (observed_text : String) where
  -- An entity of the scope that the cycle does not show does not exist.
  abbrev pub IsGone : String → Dict Entity → Type 0
  IsGone id es =
      (e : Entity)
      → lookup id es ≡ some e
      → owns_entity scope e ≡ true
      → mem id plan.current_entity_ids ≡ false
      → e.exists ≡ false

  close_snapshot-entities :
      (id : String) (history : List Snapshot) (s : StateGraph)
      → (close_snapshot g scope plan observed_text id history s).1.entities ≡ s.entities
  unfolding close_snapshot
  close_snapshot-entities id [] s = refl
  close_snapshot-entities id (latest ∷ older) s = ground arith

  closing-entities :
      (id : String) (r : ℕ) (history : List Snapshot) (s : StateGraph)
      → (◌>>=◌ {B = ℕ × ℕ}
          (close_snapshot g scope plan observed_text id history)
          (λ closed. pure (r, closed))
          s).1.entities
        ≡ s.entities
  closing-entities id r history s =
      elim (Result-cases (close_snapshot g scope plan observed_text id history s).0) [
        | inl (x, p) ↦ rw p (close_snapshot-entities id history s)
        | inr (n, p) ↦ rw p (close_snapshot-entities id history s)
      ]

  abbrev retired_from : Entity → Entity
  retired_from e = record e { exists = false; last_seen_at = observed_text }

  -- The entities that the loop's body leaves: as they were, where the scope does not own its entity, the
  -- cycle shows it or it did not exist; otherwise with its entity retired.
  abbrev Left : String → Entity → Dict Entity → Dict Entity → Type 0
  Left id e before after =
      ((after ≡ before)
        × ((owns_entity scope e ≡ false)
            ⊎ ((mem id plan.current_entity_ids ≡ true) ⊎ (e.exists ≡ false))))
      ⊎ (after ≡ insert id (retired_from e) before)

  retire_one-Left :
      (id : String) (e : Entity) (s : StateGraph) (n : ℕ × ℕ)
      → (retire_one g scope plan observed_text id e s).0 ≡ ok n
      → Left id e s.entities (retire_one g scope plan observed_text id e s).1.entities
  unfolding retire_one retire_entity
  retire_one-Left id e s n h =
      elim (Bool-cases (not (owns_entity scope e) || mem id plan.current_entity_ids)) [
        | inl skipped ↦ rw skipped (
            inl (
              refl,
              elim (Bool-cases (owns_entity scope e)) [
                | inl own ↦ inr (inl (ground arith))
                | inr other ↦ inl other
              ],
            ))
        | inr mine ↦ elim (Result-cases (parse_time g.runtime e.last_seen_at)) [
          | inl (x, p) ↦ absurd (ground arith)
          | inr (last, p) ↦ elim (Bool-cases (at_most last plan.observed_at)) [
            | inr backward ↦ absurd (ground arith)
            | inl forward ↦ elim (Bool-cases e.exists) [
              | inr absent ↦
                  simp (mine, p, forward, absent)
                    (inl (
                      closing-entities id 0 (rows (lookup id s.snapshots_by_entity)) s,
                      inr (inr refl),
                    ))
              | inl present ↦
                  elim (Result-cases (validate_graph_record g (of_entity (retired_from e)))) [
                    | inl (x, v) ↦ absurd (ground arith)
                    | inr (u, v) ↦
                        simp (mine, p, forward, present, v)
                          (inr (
                            closing-entities id 1 (rows (lookup id s.snapshots_by_entity))
                              (record s { entities = insert id (retired_from e) s.entities })))
                  ]
            ]
          ]
        ]
      ]

  kept_elsewhere :
      (id other : String) (e : Entity) (before after : Dict Entity)
      → Left id e before after
      → (id == other) ≡ false
      → lookup other after ≡ lookup other before
  kept_elsewhere id other e before after left miss = elim left [
    | inl (same, why) ↦ rw same refl
    | inr retired ↦ rw (retired, lookup-insert, miss) refl
  ]

  retired_stays :
      (id : String) (e : Entity) (before after : Dict Entity)
      → Left id e before after
      → IsGone id before ⊎ (lookup id before ≡ some e)
      → IsGone id after
  retired_stays id e before after left known x there own out = elim left [
    | inl (same, why) ↦ elim known [
      | inl gone ↦ gone x (rw (← same) there) own out
      | inr was ↦
          let one : x ≡ e = cc in
          let own' : owns_entity scope e ≡ true =
            subst (λ (y : Entity). owns_entity scope y ≡ true) one own in
          let absent : e.exists ≡ false = elim why [
            | inl other ↦ absurd (ground arith)
            | inr rest ↦ elim rest [ inl shown ↦ absurd (ground arith) | inr absent ↦ absent ]
          ] in
          subst (λ (y : Entity). y.exists ≡ false) (sym one) absent
    ]
    | inr retired ↦
        let one : retired_from e ≡ x =
          cc (retired, lookup-insert_self id (retired_from e) before) in
        subst (λ (y : Entity). y.exists ≡ false) one refl
  ]

  head_entity :
      (id k : String) (e : Entity) (d es : Dict Entity)
      → k ≡ id
      → IsGone id es ⊎ (lookup id es ≡ lookup id ((k, e) ∷ d))
      → IsGone k es ⊎ (lookup k es ≡ some e)
  unfolding lookup
  head_entity id k e d es here known = elim known [
    | inl before ↦ inl (subst (λ (x : String). IsGone x es) (sym here) before)
    | inr there ↦ inr (
        subst (λ (x : String). lookup x es ≡ some e) (sym here)
          (there ∙ rw ((eq_iff k id).1 here) refl))
  ]

  -- The loop retires each entity that it goes through, and keeps what was retired.
  pub retire_each-IsGone :
      (d : Dict Entity) (s : StateGraph) (n : ℕ × ℕ)
      → (retire_each g scope plan observed_text d s).0 ≡ ok n
      → (id : String) → IsGone id s.entities ⊎ (lookup id s.entities ≡ lookup id d)
      → IsGone id (retire_each g scope plan observed_text d s).1.entities
  unfolding retire_each lookup
  retire_each-IsGone [] s n h id known = elim known [
    | inl gone ↦ gone
    | inr empty ↦ λ e there own out. absurd (ground arith)
  ]
  retire_each-IsGone ((k, e) ∷ d) s n h id known =
      let s1 = (retire_one g scope plan observed_text k e s).1 in
      elim (Result-cases (retire_one g scope plan observed_text k e s).0) [
        | inl (x, p) ↦ absurd (ground arith)
        | inr (m, p) ↦
            let left = retire_one-Left k e s m p in
            elim (Result-cases (retire_each g scope plan observed_text d s1).0) [
              | inl (x, q) ↦ absurd (ground arith)
              | inr (l, q) ↦
                  let next : IsGone id s1.entities ⊎ (lookup id s1.entities ≡ lookup id d) =
                    elim (Bool-cases (k == id)) [
                      | inl hit ↦
                          let here : k ≡ id = (eq_iff k id).0 hit in
                          inl (
                            subst (λ (x : String). IsGone x s1.entities) here
                              (retired_stays k e s.entities s1.entities left
                                (head_entity id k e d s.entities here known)))
                      | inr miss ↦
                          let kept = kept_elsewhere k id e s.entities s1.entities left miss in
                          elim known [
                            | inl gone ↦ inl (λ x there. gone x (sym kept ∙ there))
                            | inr there ↦ inr (kept ∙ there ∙ rw miss refl)
                          ]
                    ] in
                  rw (p, q) (retire_each-IsGone d s1 l q id next)
            ]
      ]
