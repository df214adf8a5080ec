-- ===== src/Repository/Queries.antt =====
-- The viewer's queries of src/incident_platform/repository.py. They write nothing.
pub mod Paging
pub mod Reports
use agent_rca.Prelude.{
  ℕ, String, Bool, true, false, Option, none, some, List, [], ◌∷◌, ◌==◌, ◌&&◌, ◌||◌, leb, not, any,
  mem, keep, take, length, starts_with, if◌then◌else◌, map,
}
use agent_rca.Outcome.{
  Result, ok, err, value_error, key_error, Method, pure, lift, require, proceed, ◌>>=◌, ◌>>◌,
}
use agent_rca.Text.{is_infix}
use agent_rca.Dict.{Dict, lookup, values, is_some}
use agent_rca.Sort.{sort_by, text_le}
use agent_rca.Sort.Pairs.{pair_le}
use agent_rca.Incident.{Status, Severity, Incident, entity_name, incident_namespace}
use agent_rca.Incident.Names.{status_name, severity_name}
use agent_rca.Documents.{Evidence, Context, Report, AgentRun, AuditEvent}
use agent_rca.Runtime.{Runtime}
use agent_rca.Repository.{Repository, Repo, found, require_incident, evidence_of, audit_of}

abbrev pub within : ℕ → ℕ → Bool
within limit maximum = leb 1 limit && leb limit maximum

unfoldable pub validate_query_limit : ℕ → ℕ → Repo Unit
validate_query_limit limit maximum = require (within limit maximum) value_error

-- `len(self._incidents)`
unfoldable pub count : Repo ℕ
count r = (ok (length r.incidents), r)

-- the filters of `query_incidents`, without its cursor
pub record Filters : Type 0 where
  pub statuses : List String
  pub severities : List String
  pub namespace : Option String
  pub search : Option String

-- `not filter or value in filter`
abbrev chosen : List String → String → Bool
chosen [] value = true
chosen (x ∷ xs) value = mem value (x ∷ xs)

abbrev in_namespace : Option String → Option String → Bool
in_namespace none found = true
in_namespace (some wanted) none = false
in_namespace (some wanted) (some found) = found == wanted

abbrev searchable : Incident → List String
searchable i = i.incident_id ∷ i.alert.name ∷ entity_name i.source_entity ∷ values i.alert.labels

abbrev pub by_time : Incident → String × String
by_time i = (i.updated_at, i.incident_id)

-- `(updated_at, incident_id) >= cursor` leaves a row out
abbrev pub past_cursor : Option (String × String) → Incident → Bool
past_cursor none i = true
past_cursor (some cursor) i = not (pair_le cursor (by_time i))

-- the two cursor arguments, which stand together or not at all
unfoldable pub read_cursor : Option String → Option String → Result (Option (String × String))
read_cursor none none = ok none
read_cursor (some updated_at) (some incident_id) = ok (some (updated_at, incident_id))
read_cursor _ _ = err value_error

-- `sort(key=..., reverse=True)`, which keeps the order of equal keys
abbrev pub latest_first {ℓ} : {A : Type ℓ} → (A → String × String) → A → A → Bool
latest_first key a b = pair_le (key b) (key a)

module _ (rt : Runtime) where
  unfoldable pub found_by : Option String → Incident → Bool
  unfolding is_infix
  found_by none i = true
  found_by (some search) i =
      any (λ value. is_infix (rt.casefold search) (rt.casefold value)) (searchable i)

  -- the rows that no filter leaves out
  unfoldable pub matches : Filters → Incident → Bool
  unfolding mem
  matches f i =
      chosen f.statuses (status_name i.status)
      && chosen f.severities (severity_name i.severity)
      && in_namespace f.namespace (incident_namespace i)
      && found_by f.search i

  abbrev pub selected : Filters → Option (String × String) → Repository → List Incident
  selected f cursor r = keep (λ i. matches f i && past_cursor cursor i) (values r.incidents)

  unfoldable pub query_incidents :
      Filters → Option String → Option String → ℕ → Repo (List Incident)
  query_incidents f before_updated_at before_incident_id limit = do
    validate_query_limit limit 101
    cursor ← lift (read_cursor before_updated_at before_incident_id)
    (λ r. (ok (take limit (sort_by (latest_first by_time) (selected f cursor r))), r))

-- the rows of one incident in `values`, the latest first
abbrev pub latest {ℓ} :
    {A : Type ℓ} → (A → String × String) → (A → String) → String → List A → List A
latest key owner id rows = sort_by (latest_first key) (keep (λ a. owner a == id) rows)

unfoldable pub query_evidence : String → ℕ → Repo (List Evidence)
query_evidence id limit = do
  validate_query_limit limit 501
  require_incident id
  (λ r. (
    ok (
        take limit
          (sort_by (λ a b. pair_le (observed a) (observed b)) (values (evidence_of id r)))),
    r,
  ))
  where
    observed : Evidence → String × String
    observed e = (e.observed_at, e.evidence_id)

unfoldable pub query_contexts : String → ℕ → Repo (List Context)
query_contexts id limit = do
  validate_query_limit limit 51
  require_incident id
  (λ r. (
    ok (
        take limit
          (latest (λ c. (c.frozen_at, c.context_id)) (λ c. c.incident_id) id (values r.contexts))),
    r,
  ))

-- the Markdown of each report, whose absence raises
unfoldable pub with_markdown : Dict String → List Report → Result (List (Report × String))
with_markdown markdown [] = ok []
with_markdown markdown (p ∷ ps) =
    join_rows p (lookup p.report_id markdown) (with_markdown markdown ps)
  where
    join_rows :
        Report → Option String → Result (List (Report × String)) → Result (List (Report × String))
    join_rows p none rest = err key_error
    join_rows p (some text) (err e) = err e
    join_rows p (some text) (ok rows) = ok ((p, text) ∷ rows)

abbrev pub reports_of : String → Repository → List Report
reports_of id r =
    latest (λ p. (p.generated_at, p.report_id)) (λ p. p.incident_id) id (values r.reports)

unfoldable pub query_reports : String → ℕ → Repo (List (Report × String))
query_reports id limit = do
  validate_query_limit limit 51
  require_incident id
  (λ r. (with_markdown r.report_markdown (take limit (reports_of id r)), r))

unfoldable pub query_agent_runs : String → ℕ → Repo (List AgentRun)
query_agent_runs id limit = do
  validate_query_limit limit 51
  require_incident id
  (λ r. (
    ok (
        take limit (
          latest (λ a. (a.started_at, a.agent_run_id)) (λ a. a.incident_id) id
            (values r.agent_runs))),
    r,
  ))

unfoldable pub query_audit_events : String → ℕ → Repo (List AuditEvent)
query_audit_events id limit = do
  validate_query_limit limit 1001
  require_incident id
  (λ r. (ok (take limit (audit_of id r)), r))
