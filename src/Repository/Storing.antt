-- ===== src/Repository/Storing.antt =====
-- What the methods of src/incident_platform/repository.py that store documents leave behind.
use agent_rca.Prelude.{
  String, ◌≡◌, ◌≢◌, refl, true, Option, none, some, ◌⊎◌, inl, inr, arith, Option-cases, Bool-cases,
  List, ◌∷◌, [], subset, eq_iff, ◌==◌, All,
}
use agent_rca.Outcome.{ok, err, invalid_transition}
use agent_rca.Dict.{lookup, insert, has, keys, lookup-insert, lookup-insert_self}
use agent_rca.Documents.{
  Evidence, Context, Report, AgentRun, Evidence-discrete, Context-discrete, AgentRun-discrete,
  compared_evidence, compared_context, compared_report, compared_run, Report-discrete,
  context_evidence_ids, report_evidence_ids,
}
use agent_rca.Runtime.{Runtime}
use agent_rca.Repository.{Repository, evidence_of}
use agent_rca.Repository.Documents.{
  agrees, put_evidence, write_evidence, check_evidence, store_evidence, store_context, store_report,
  store_agent_run, report_agrees,
}
use agent_rca.Repository.Step.{
  put_context, put_report, put_agent_run, Steps, done, step, Steps-eq, Steps-one, gathers, freezes,
  publishes, records,
}

-- Items of one incident.
abbrev pub OwnedBy : String → List Evidence → Type 0
OwnedBy id = All (λ e. e.incident_id ≡ id)

write-Steps :
    (id : String) (items : List Evidence) (r : Repository)
    → OwnedBy id items
    → has id r.incidents ≡ true
    → Steps r (write_evidence id items r).1
unfolding write_evidence
write-Steps id [] r own there = done
write-Steps id (e ∷ es) r own there =
    elim (Bool-cases
      (agrees Evidence-discrete compared_evidence (lookup e.evidence_id (evidence_of id r)) e)) [
        | inl fits ↦ rw fits (
            step (gathers id e own.0 there fits refl)
              (write-Steps id es (put_evidence id e r) own.1 there))
        | inr clash ↦ rw clash done
      ]

module _ (rt : Runtime) where
  check-OwnedBy :
      (id : String) (items : List Evidence) (u : Unit {0})
      → check_evidence rt id items ≡ ok u
      → OwnedBy id items
  unfolding check_evidence
  check-OwnedBy id [] u h = tt
  check-OwnedBy id (e ∷ es) u h = ground (arith, eq_iff e.incident_id id, check-OwnedBy id es u)

  module _ (id : String) (items : List Evidence) (r : Repository) where
    -- Nothing is written unless every item is valid, of the incident, and the incident is known.
    store_evidence_cases :
        ((store_evidence rt id items r).1 ≡ r)
        ⊎ ((check_evidence rt id items ≡ ok tt)
            × (has id r.incidents ≡ true)
            × (store_evidence rt id items r ≡ write_evidence id items r))
    unfolding store_evidence
    store_evidence_cases = ground arith

    pub store_evidence-Steps : Steps r (store_evidence rt id items r).1
    store_evidence-Steps = elim store_evidence_cases [
      | inl same ↦ Steps-eq same
      | inr (checked, there, e) ↦
          rw e (write-Steps id items r (check-OwnedBy id items tt checked) there)
    ]

  module _ (c : Context) (r : Repository) where
    -- A Context Package is frozen only over stored Evidence of a known incident, and never changed.
    pub store_context_cases :
        ((store_context rt c r).1 ≡ r)
        ⊎ ((has c.incident_id r.incidents ≡ true)
            × (subset (context_evidence_ids c) (keys (evidence_of c.incident_id r)) ≡ true)
            × (agrees Context-discrete compared_context (lookup c.context_id r.contexts) c ≡ true)
            × ((store_context rt c r).1 ≡ put_context c r))
    unfolding store_context
    store_context_cases = ground arith

    pub store_context-Steps : Steps r (store_context rt c r).1
    store_context-Steps = elim store_context_cases [
      | inl same ↦ Steps-eq same
      | inr (there, known, fits, e) ↦ Steps-one (freezes c there known fits e)
    ]

  module _ (a : AgentRun) (r : Repository) where
    store_agent_run_cases :
        (c : Context)
        → lookup a.context_id r.contexts ≡ some c
        → ((store_agent_run rt a r).1 ≡ r)
          ⊎ (((c.incident_id == a.incident_id) ≡ true)
              × (agrees AgentRun-discrete compared_run (lookup a.agent_run_id r.agent_runs) a
                  ≡ true)
              × ((store_agent_run rt a r).1 ≡ put_agent_run a r))
    unfolding store_agent_run
    store_agent_run_cases c e = ground arith

    store_agent_run_lost : lookup a.context_id r.contexts ≡ none → (store_agent_run rt a r).1 ≡ r
    unfolding store_agent_run
    store_agent_run_lost e = ground arith

    pub store_agent_run-Steps : Steps r (store_agent_run rt a r).1
    store_agent_run-Steps = elim (Option-cases (lookup a.context_id r.contexts)) [
      | inl e ↦ Steps-eq (store_agent_run_lost e)
      | inr (c, e) ↦ elim (store_agent_run_cases c e) [
        | inl same ↦ Steps-eq same
        | inr (own, fits, left) ↦
            Steps-one (records a c e ((eq_iff c.incident_id a.incident_id).0 own) fits left)
      ]
    ]

  module _ (p : Report) (markdown : String) (r : Repository) where
    store_report_cases :
        (c : Context)
        → lookup p.context_id r.contexts ≡ some c
        → ((store_report rt p markdown r).1 ≡ r)
          ⊎ (((c.incident_id == p.incident_id) ≡ true)
              × (subset (report_evidence_ids p) c.evidence_ids ≡ true)
              × (report_agrees rt
                    (lookup p.report_id r.reports)
                    (lookup p.report_id r.report_markdown)
                    p
                    markdown
                  ≡ true)
              × ((store_report rt p markdown r).1 ≡ put_report p markdown r))
    unfolding store_report
    store_report_cases c e = ground arith

    store_report_lost : lookup p.context_id r.contexts ≡ none → (store_report rt p markdown r).1 ≡ r
    unfolding store_report
    store_report_lost e = ground arith

    report_kept :
        (o : Option String) (q : Report)
        → report_agrees rt (some q) o p markdown ≡ true
        → compared_report q ≡ compared_report p
    report_kept none q h = cc
    report_kept (some t) q h = elim (Report-discrete (compared_report q) (compared_report p)) [
      | yes e ↦ e
      | no n ↦ ground arith
    ]

    pub store_report-Steps : Steps r (store_report rt p markdown r).1
    store_report-Steps = elim (Option-cases (lookup p.context_id r.contexts)) [
      | inl e ↦ Steps-eq (store_report_lost e)
      | inr (c, e) ↦ elim (store_report_cases c e) [
        | inl same ↦ Steps-eq same
        | inr (own, cited, fits, left) ↦ Steps-one (
            publishes p markdown c e ((eq_iff c.incident_id p.incident_id).0 own) cited
              (λ q there. report_kept (lookup p.report_id r.report_markdown) q (rw there at fits))
              left)
      ]
    ]

-- A batch of two valid items of a known incident, the first of which fits and the second of which
-- collides with stored Evidence that Python's `==` tells apart from it, raises and leaves the first
-- one stored.
pub store_evidence_partial :
    (rt : Runtime) (id : String) (e f g : Evidence) (r : Repository)
    → has id r.incidents ≡ true
    → check_evidence rt id (e ∷ f ∷ []) ≡ ok tt
    → lookup e.evidence_id (evidence_of id r) ≡ none
    → lookup f.evidence_id (evidence_of id r) ≡ some g
    → compared_evidence g ≢ compared_evidence f
    → e.evidence_id ≢ f.evidence_id
    → store_evidence rt id (e ∷ f ∷ []) r ≡ (err invalid_transition, put_evidence id e r)
unfolding store_evidence write_evidence
store_evidence_partial rt id e f g r there checked new stored other apart = ground (
  arith,
  lookup-insert_self id (insert e.evidence_id e (evidence_of id r)) r.evidence_by_incident,
  lookup-insert e.evidence_id f.evidence_id e (evidence_of id r),
  eq_iff e.evidence_id f.evidence_id,
)
