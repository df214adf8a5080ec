-- ===== src/FastPath/Settled.antt =====
-- How a run of src/incident_platform/fast_path.py ends.
use agent_rca.Prelude.{
  String, Bool-cases, Option-cases, ap, ◌≡◌, refl, ◌∙◌, true, some, ◌⊎◌, inl, inr, arith, List,
}
use agent_rca.Outcome.{Result, ok, err, Result-cases, proceed, pure, ◌>>=◌}
use agent_rca.Time.{DateTime}
use agent_rca.Dict.{Dict, lookup, lookup-insert_self}
use agent_rca.Incident.{
  Incident, Status, same_status, allowed, localizing, analyzing, reported, failed,
}
use agent_rca.Documents.{Context, Report}
use agent_rca.Runtime.{Runtime}
use agent_rca.Repository.{Repository, Repo, get_incident, transition}
use agent_rca.Repository.Documents.{list_evidence, store_context, store_report}
use agent_rca.Repository.Transitions.{Moved, moved, transition_error, transition-Moved}
use agent_rca.Deterministic.Engine.{Rule}
use agent_rca.FastPath.{FastPathRun, Builder, analyze, mark_failed, or_mark_failed, run_fast_path}

list_evidence-incidents :
    (id : String) (r : Repository) → (list_evidence id r).1.incidents ≡ r.incidents
unfolding list_evidence
list_evidence-incidents id r = ground arith

store_context-incidents :
    (rt : Runtime) (c : Context) (r : Repository) → (store_context rt c r).1.incidents ≡ r.incidents
unfolding store_context
store_context-incidents rt c r = ground arith

store_report-incidents :
    (rt : Runtime) (p : Report) (markdown : String) (r : Repository)
    → (store_report rt p markdown r).1.incidents ≡ r.incidents
unfolding store_report
store_report-incidents rt p markdown r = ground arith

-- What a call leaves, with its result: the incidents as they were where it raises, and one that is
-- REPORTED where it returns.
Ends : String → Dict Incident → Result FastPathRun × Repository → Type 0
Ends id before (ok run, r) =
    (j : Incident) × (lookup id r.incidents ≡ some j) × (j.status ≡ reported)
Ends id before (err e, r) = r.incidents ≡ before

kept_by_context :
    (rt : Runtime) (c : Context) {before : Dict Incident} (r : Repository)
    → r.incidents ≡ before
    → (store_context rt c r).1.incidents ≡ before
kept_by_context rt c r h = store_context-incidents rt c r ∙ h

kept_by_report :
    (rt : Runtime) (p : Report) (markdown : String) {before : Dict Incident} (r : Repository)
    → r.incidents ≡ before
    → (store_report rt p markdown r).1.incidents ≡ before
kept_by_report rt p markdown r h = store_report-incidents rt p markdown r ∙ h

proceed-Ends :
    {A : Type 0} (id : String) (before : Dict Incident) (x : Result A) (f : A → Repo FastPathRun)
    (r : Repository)
    → r.incidents ≡ before
    → ((a : A) (s : Repository) → s.incidents ≡ before → Ends id before (f a s))
    → Ends id before (proceed x f r)
unfolding Ends
proceed-Ends id before (ok a) f r k h = h a r k
proceed-Ends id before (err e) f r k h = k

module _ (rt : Runtime) (id : String) (now : DateTime) where
  Moved-found :
      {a b : Status} {r s : Repository}
      → Moved rt id a b now r s
      → (j : Incident) × (lookup id s.incidents ≡ some j) × (j.status ≡ b)
  Moved-found {a} {b} {r} {s} m = (
    moved m.incident b (rt.render now.instant),
    rw m.left (lookup-insert_self id _ r.incidents),
    refl,
  )

  finish-Ends :
      (run : Incident → FastPathRun) (before : Dict Incident) (r : Repository)
      → r.incidents ≡ before
      → Ends id before
          (((transition rt id analyzing reported now) >>= (λ final. pure (run final))) r)
  unfolding Ends
  finish-Ends run before r k = elim (Result-cases (transition rt id analyzing reported now r).0) [
    | inl (e, h) ↦ rw h (
        ap (λ (s : Repository). s.incidents) (transition_error rt id analyzing reported now r e h)
        ∙ k)
    | inr (u, h) ↦ rw h (Moved-found (transition-Moved rt id analyzing reported now r u h))
  ]

  analyze-Ends :
      (rules : List Rule) (build : Builder) (incident : Incident) (r : Repository)
      → Ends id r.incidents (analyze rt rules build id incident now r)
  unfolding analyze
  analyze-Ends rules build incident r =
      search (proceed-Ends, finish-Ends, kept_by_context, kept_by_report, list_evidence-incidents)
        depth 14

  -- What `mark_failed` does to an incident that is ANALYZING.
  mark_failed_lem :
      (i : Incident) (r : Repository)
      → now.aware ≡ true
      → lookup id r.incidents ≡ some i
      → i.status ≡ analyzing
      → rt.valid_incident (moved i failed (rt.render now.instant)) ≡ true
      → (j : Incident) × (lookup id (mark_failed rt id now r).incidents ≡ some j)
        × (j.status ≡ failed)
  unfolding mark_failed transition allowed
  mark_failed_lem i r a l s v = (
    moved i failed (rt.render now.instant),
    ground (arith, lookup-insert_self id (moved i failed (rt.render now.instant)) r.incidents),
    refl,
  )

  -- What a caller finds: a REPORTED incident where the run returned; where it raised, the repository
  -- that it started from, or a FAILED incident.
  abbrev pub IsSettled : Repository → Result FastPathRun × Repository → Type 0
  IsSettled r (ok run, s) =
      (j : Incident) × (lookup id s.incidents ≡ some j) × (j.status ≡ reported)
  IsSettled r (err e, s) =
      (s ≡ r) ⊎ ((j : Incident) × (lookup id s.incidents ≡ some j) × (j.status ≡ failed))

  Ends-IsSettled :
      (r : Repository) (before : Dict Incident) (i : Incident)
      → now.aware ≡ true
      → lookup id before ≡ some i
      → i.status ≡ analyzing
      → rt.valid_incident (moved i failed (rt.render now.instant)) ≡ true
      → (x : Result FastPathRun × Repository) → Ends id before x
      → IsSettled r (or_mark_failed rt id now x)
  unfolding Ends
  Ends-IsSettled r before i a l s v (ok run, t) h = h
  Ends-IsSettled r before i a l s v (err e, t) h = inr (mark_failed_lem i t a (rw h l) s v)

  started-IsSettled :
      (rules : List Rule) (build : Builder) (r : Repository)
      → now.aware ≡ true
      → ((i : Incident)
          → rt.valid_incident i ≡ true
          → rt.valid_incident (moved i failed (rt.render now.instant)) ≡ true)
      → IsSettled r (
          ((transition rt id localizing analyzing now)
              >>= (λ current s. or_mark_failed rt id now (analyze rt rules build id current now s)))
            r)
  unfolding Moved-found
  started-IsSettled rules build r a v =
      elim (Result-cases (transition rt id localizing analyzing now r).0) [
        | inl (e, h) ↦ rw h (inl (transition_error rt id localizing analyzing now r e h))
        | inr (u, h) ↦
            let s = (transition rt id localizing analyzing now r).1 in
            let m = transition-Moved rt id localizing analyzing now r u h in
            let (j, there, same) = Moved-found m in
            rw h (
              Ends-IsSettled r s.incidents j a there same
                (v (moved m.incident analyzing (rt.render now.instant)) m.was_valid)
                (analyze rt rules build id u now s) (analyze-Ends rules build u s))
      ]

  -- A run of the fast path either raises and leaves the repository as it was, or raises with the
  -- incident FAILED, or returns with the incident REPORTED: it never leaves the incident ANALYZING
  -- after a raise, whatever the rules, the builder and the stores raise. The validator accepts a FAILED
  -- incident with the time of the run where it accepts the incident.
  pub run_fast_path-IsSettled :
      (rules : List Rule) (build : Builder) (r : Repository)
      → ((i : Incident)
          → rt.valid_incident i ≡ true
          → rt.valid_incident (moved i failed (rt.render now.instant)) ≡ true)
      → IsSettled r (run_fast_path rt rules build id now r)
  unfolding run_fast_path get_incident
  run_fast_path-IsSettled rules build r v = elim (Bool-cases now.aware) [
    | inr naive ↦ rw naive (inl refl)
    | inl a ↦ simp a (elim (Option-cases (lookup id r.incidents)) [
      | inl gone ↦ rw gone (inl refl)
      | inr (i, there) ↦ rw there (elim (Bool-cases (same_status i.status localizing)) [
        | inr other ↦ rw other (inl refl)
        | inl here ↦ rw here (started-IsSettled rules build r a v)
      ])
    ])
  ]
