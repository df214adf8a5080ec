-- ===== src/Repository/Step.antt =====
-- The writes that the repository makes, as a relation between its states. Each constructor carries
-- the conditions under which the methods make the write.
pub mod Index
pub mod Trail
pub mod Permanence
pub mod Citations
use agent_rca.Prelude.{
  String, ◌≡◌, refl, Bool, true, false, Option, none, some, List, [], ◌∷◌, ◌++◌, ◌&&◌, subset,
  holds, if◌then◌else◌,
}
use agent_rca.Dict.{Dict, lookup, insert, keys, has}
use agent_rca.Incident.{Status, Incident, allowed, same_status}
use agent_rca.Documents.{
  Evidence, Context, Report, AgentRun, AuditDetails, AuditEvent, incident_created,
  status_transitioned, collection_completed, localization_completed, alert_resolved,
  Evidence-discrete, Context-discrete, AgentRun-discrete, compared_evidence, compared_context,
  compared_report, compared_run, context_evidence_ids, report_evidence_ids,
}
use agent_rca.Repository.{Repository, put_incident, push_audit, admit, evidence_of}
use agent_rca.Repository.Documents.{agrees, put_evidence}

-- What a trail of audit events says so far: nothing yet, a status, or that some event was not legal
-- after those before it.
pub data Phase : Type 0 where
  fresh broken : Phase
  live : Status → Phase

-- One more audit event.
abbrev pub replay_event : Phase → AuditDetails → Phase
replay_event fresh (incident_created s) = live s
replay_event fresh _ = broken
replay_event broken _ = broken
replay_event (live s) (incident_created t) = broken
replay_event (live s) (status_transitioned a b) =
    if same_status s a && allowed a b then live b else broken
replay_event (live s) (collection_completed _) = live s
replay_event (live s) (localization_completed _) = live s
replay_event (live s) (alert_resolved _) = live s

-- An incident replaced, and one audit event appended.
abbrev pub committed : String → Incident → AuditDetails → String → Repository → Repository
committed id i details stamp r =
    push_audit id (record { incident_id = id; details = details; occurred_at = stamp })
      (put_incident id i r)

abbrev pub created : Incident → String → Repository → Repository
created i stamp r =
    push_audit i.incident_id
      (record {
        incident_id = i.incident_id;
        details = incident_created i.status;
        occurred_at = stamp;
      })
      (admit i r)

abbrev pub put_context : Context → Repository → Repository
put_context c r = record r { contexts = insert c.context_id c r.contexts }

abbrev pub put_report : Report → String → Repository → Repository
put_report p markdown r = record r {
  reports = insert p.report_id p r.reports;
  report_markdown = insert p.report_id markdown r.report_markdown;
}

abbrev pub put_agent_run : AgentRun → Repository → Repository
put_agent_run a r = record r { agent_runs = insert a.agent_run_id a r.agent_runs }

-- The parts of an incident that no update may change.
pub record SameIdentity (i j : Incident) : Type 0 where
  pub incident_id : i.incident_id ≡ j.incident_id
  pub deduplication_key : i.deduplication_key ≡ j.deduplication_key

pub data Step (r r' : Repository) : Type 0 where
  creates :
      (i : Incident) (stamp : String)
      → lookup i.deduplication_key r.incident_id_by_deduplication_key ≡ none
      → lookup i.incident_id r.incidents ≡ none
      → r' ≡ created i stamp r
      → Step r r'
  updates :
      (id : String) (i j : Incident) (d : AuditDetails) (stamp : String)
      → lookup id r.incidents ≡ some i
      → SameIdentity j i
      → replay_event (live i.status) d ≡ live j.status
      → r' ≡ committed id j d stamp r
      → Step r r'
  touches :
      (id : String) (i j : Incident)
      → lookup id r.incidents ≡ some i
      → SameIdentity j i
      → j.status ≡ i.status
      → r' ≡ put_incident id j r
      → Step r r'
  gathers :
      (id : String) (e : Evidence)
      → e.incident_id ≡ id
      → has id r.incidents ≡ true
      → agrees Evidence-discrete compared_evidence (lookup e.evidence_id (evidence_of id r)) e
        ≡ true
      → r' ≡ put_evidence id e r
      → Step r r'
  freezes :
      (c : Context)
      → has c.incident_id r.incidents ≡ true
      → subset (context_evidence_ids c) (keys (evidence_of c.incident_id r)) ≡ true
      → agrees Context-discrete compared_context (lookup c.context_id r.contexts) c ≡ true
      → r' ≡ put_context c r
      → Step r r'
  publishes :
      (p : Report) (markdown : String) (c : Context)
      → lookup p.context_id r.contexts ≡ some c
      → c.incident_id ≡ p.incident_id
      → subset (report_evidence_ids p) c.evidence_ids ≡ true
      → ((q : Report)
          → lookup p.report_id r.reports ≡ some q
          → compared_report q ≡ compared_report p)
      → r' ≡ put_report p markdown r
      → Step r r'
  records :
      (a : AgentRun) (c : Context)
      → lookup a.context_id r.contexts ≡ some c
      → c.incident_id ≡ a.incident_id
      → agrees AgentRun-discrete compared_run (lookup a.agent_run_id r.agent_runs) a ≡ true
      → r' ≡ put_agent_run a r
      → Step r r'

-- Any number of writes.
pub data Steps : Repository → Repository → Type 0 where
  done : {r : Repository} → Steps r r
  step : {r s t : Repository} → Step r s → Steps s t → Steps r t

pub Steps-trans : {r s t : Repository} → Steps r s → Steps s t → Steps r t
Steps-trans done q = q
Steps-trans (step x p) q = step x (Steps-trans p q)

pub Steps-one : {r s : Repository} → Step r s → Steps r s
Steps-one x = step x done

pub Steps-eq : {r s : Repository} → s ≡ r → Steps r s
Steps-eq {r} {s} e = rw e done
