-- ===== src/Examples/Queries.antt =====
-- A repository with three incidents, and the queries at it.
use agent_rca.Prelude.{String, ◌≡◌, refl, true, subset, none, some, List, [], ◌∷◌, All, mem}
use agent_rca.Outcome.{ok}
use agent_rca.Dict.{lookup, insert, has}
use agent_rca.Incident.{Incident, Status-discrete, allowed}
use agent_rca.Sort.{sort_by, place}
use agent_rca.Sort.Pairs.{pair_le}
use agent_rca.Repository.{Repository, empty, create_or_get_by_deduplication_key, transition}
use agent_rca.Repository.Calls.{Call, create, run, IsTimed}
use agent_rca.Repository.Queries.{Filters, query_incidents, matches, query_reports}
use agent_rca.Repository.Queries.Paging.{listing, run-next_page}
use agent_rca.Repository.Queries.Reports.{AreReports, query_reports_returns}
use agent_rca.Repository.Documents.{
  store_evidence, store_context, store_report, write_evidence, check_evidence,
}
use agent_rca.Documents.{Report, context_evidence_ids, report_evidence_ids}
use agent_rca.Examples.{noon, sample, checkout, story}

abbrev numbered : String → String → Incident
numbered id time = record checkout { incident_id = id; deduplication_key = id; updated_at = time }

abbrev first : Incident
first = numbered "inc-1" "2026-08-24T11:00:00Z"

abbrev second : Incident
second = numbered "inc-2" "2026-08-24T12:00:00Z"

abbrev third : Incident
third = numbered "inc-3" "2026-08-24T12:00:00Z"

abbrev three : List Call
three = create first noon ∷ create second noon ∷ create third noon ∷ []

abbrev warnings : Filters
warnings = record { statuses = []; severities = "warning" ∷ []; namespace = none; search = none }

abbrev stored : Repository
stored = run sample three empty

three-AreTimed : All IsTimed three
three-AreTimed = (refl, (refl, (refl, tt)))

listed : listing sample warnings stored ≡ third ∷ second ∷ first ∷ []
unfolding run create_or_get_by_deduplication_key empty lookup insert sort_by place pair_le matches
    mem agent_rca.Repository.Queries.found_by
listed = refl

run-next_page_example :
    query_incidents sample warnings (some third.updated_at) (some third.incident_id) 2 stored
    ≡ (ok (second ∷ first ∷ []), stored)
run-next_page_example =
    run-next_page sample three warnings 2 [] third (second ∷ first ∷ []) three-AreTimed refl listed

story_incident : has "inc-checkout" (run sample story empty).incidents ≡ true
unfolding run create_or_get_by_deduplication_key transition store_evidence store_context
    store_report empty lookup insert write_evidence check_evidence subset context_evidence_ids mem
    report_evidence_ids Status-discrete allowed
story_incident = refl

query_reports_returns_example :
    (rows : List (Report × String)) × (query_reports "inc-checkout" 5 (run sample story empty)
      ≡ (ok rows, run sample story empty))
    × AreReports "inc-checkout" 5 (run sample story empty) rows
query_reports_returns_example =
    query_reports_returns sample story "inc-checkout" 5 (refl, (tt, (tt, (tt, (tt, tt))))) refl
      story_incident
