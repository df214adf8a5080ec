-- ===== src/Repository/Documents.antt =====
-- The methods of src/incident_platform/repository.py that store and read Evidence, Context Packages,
-- RCA Reports and Agent Runs.
use agent_rca.Prelude.{
  String, Bool, true, false, Option, none, some, List, [], ◌∷◌, ◌==◌, ◌&&◌, if◌then◌else◌, subset,
  not, holds,
}
use agent_rca.Outcome.{
  Result, ok, err, invalid_transition, contract_violation, key_error, lift, modify, require, ◌>>=◌,
  ◌>>◌,
}
use agent_rca.Dict.{lookup, insert, keys, values}
use agent_rca.Documents.{
  Evidence, Context, Report, AgentRun, AuditEvent, Evidence-discrete, Context-discrete,
  Report-discrete, AgentRun-discrete, compared_evidence, compared_context, compared_report,
  compared_run, context_evidence_ids, report_evidence_ids,
}
use agent_rca.Runtime.{Runtime}
use agent_rca.Text.{is_blank}
use agent_rca.Repository.{Repository, Repo, found, evidence_of, audit_of, require_incident}

-- `previous is not None and previous != candidate`, negated; `compared` gives a document as `==` sees it
abbrev pub agrees {ℓ} : {A : Type ℓ} → Discrete A → (A → A) → Option A → A → Bool
agrees dec compared none candidate = true
agrees dec compared (some previous) candidate = holds (dec (compared previous) (compared candidate))

abbrev pub put_evidence : String → Evidence → Repository → Repository
put_evidence id e r =
    let stored = insert e.evidence_id e (evidence_of id r) in
    record r { evidence_by_incident = insert id stored r.evidence_by_incident }

-- the second loop of `store_evidence`: what it has written before a collision stays
unfoldable pub write_evidence : String → List Evidence → Repo Unit
write_evidence id [] r = (ok tt, r)
write_evidence id (e ∷ es) r =
    let rest = write_evidence id es (put_evidence id e r) in
    if agrees Evidence-discrete compared_evidence (lookup e.evidence_id (evidence_of id r)) e
    then rest
    else (err invalid_transition, r)

unfoldable pub list_evidence : String → Repo (List Evidence)
unfolding require_incident
list_evidence id = do require_incident id; (λ r. (ok (values (evidence_of id r)), r))

unfoldable pub list_audit_events : String → Repo (List AuditEvent)
unfolding require_incident
list_audit_events id = do require_incident id; (λ r. (ok (audit_of id r), r))

unfoldable pub get_context : String → Repo Context
get_context context_id r = (found (lookup context_id r.contexts) key_error, r)

unfoldable pub get_report : String → Repo Report
get_report report_id r = (found (lookup report_id r.reports) key_error, r)

unfoldable pub get_report_markdown : String → Repo String
get_report_markdown report_id r = (found (lookup report_id r.report_markdown) key_error, r)

unfoldable pub get_agent_run : String → Repo AgentRun
get_agent_run agent_run_id r = (found (lookup agent_run_id r.agent_runs) key_error, r)

module _ (rt : Runtime) where
  -- the first loop of `store_evidence`
  unfoldable pub check_evidence : String → List Evidence → Result (Unit {0})
  check_evidence id [] = ok tt
  check_evidence id (e ∷ es) =
      let rest = check_evidence id es in
      if rt.valid_evidence e
      then (if e.incident_id == id then rest else err invalid_transition)
      else err contract_violation

  unfoldable pub store_evidence : String → List Evidence → Repo Unit
  unfolding require_incident
  store_evidence id items = do
    lift (check_evidence id items)
    require_incident id
    write_evidence id items

  unfoldable pub store_context : Context → Repo Unit
  unfolding require_incident
  store_context c = do
    require (rt.valid_context c) contract_violation
    require_incident c.incident_id
    known ← (λ r. (ok (keys (evidence_of c.incident_id r)), r))
    require (subset (context_evidence_ids c) known) invalid_transition
    previous ← (λ r. (ok (lookup c.context_id r.contexts), r))
    require (agrees Context-discrete compared_context previous c) invalid_transition
    modify (λ r. record r { contexts = insert c.context_id c r.contexts })

  -- `previous is not None and (previous != candidate or previous_markdown != markdown)`, negated
  abbrev pub report_agrees : Option Report → Option String → Report → String → Bool
  report_agrees none previous_markdown report markdown = true
  report_agrees (some previous) none report markdown = false
  report_agrees (some previous) (some text) report markdown =
      holds (Report-discrete (compared_report previous) (compared_report report))
      && (text == markdown)

  unfoldable pub store_report : Report → String → Repo Unit
  unfolding require_incident is_blank
  store_report report markdown = do
    require (rt.valid_report report) contract_violation
    require (not (is_blank markdown)) invalid_transition
    require_incident report.incident_id
    context ← (λ r. (found (lookup report.context_id r.contexts) invalid_transition, r))
    require (context.incident_id == report.incident_id) invalid_transition
    require (subset (report_evidence_ids report) context.evidence_ids) invalid_transition
    previous ← (λ r. (ok (lookup report.report_id r.reports), r))
    previous_markdown ← (λ r. (ok (lookup report.report_id r.report_markdown), r))
    require (report_agrees previous previous_markdown report markdown) invalid_transition
    modify (λ r. record r {
      reports = insert report.report_id report r.reports;
      report_markdown = insert report.report_id markdown r.report_markdown;
    })

  unfoldable pub store_agent_run : AgentRun → Repo Unit
  unfolding require_incident
  store_agent_run run = do
    require (rt.valid_agent_run run) contract_violation
    require_incident run.incident_id
    context ← (λ r. (found (lookup run.context_id r.contexts) invalid_transition, r))
    require (context.incident_id == run.incident_id) invalid_transition
    previous ← (λ r. (ok (lookup run.agent_run_id r.agent_runs), r))
    require (agrees AgentRun-discrete compared_run previous run) invalid_transition
    modify (λ r. record r { agent_runs = insert run.agent_run_id run r.agent_runs })
