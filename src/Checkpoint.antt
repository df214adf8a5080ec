-- ===== src/Checkpoint.antt =====
-- src/incident_platform/localization_collection.py: the checks of one supplemental collection, and the
-- incident and the checkpoint that it gives.
pub mod Prepare
pub mod Guards
pub mod Merging
use Prim.Native.String.{◌++◌ as append_text}
use agent_rca.Prelude.{
  ℕ, ◌+◌, String, Bool, true, false, Option, none, some, List, [], ◌∷◌, map, ◌==◌, ◌&&◌, ◌||◌, not,
  all, any, mem, subset, unique, ltb, leb, length, if◌then◌else◌,
}
use agent_rca.Outcome.{
  Result, ok, err, invalid_transition, contract_violation, key_error, type_error,
}
use agent_rca.Outcome.Checked.{guard, ◌>>=◌, ◌>>◌}
use agent_rca.Time.{DateTime, at_most}
use agent_rca.Sort.{sort_texts}
use agent_rca.Json.{text}
use agent_rca.Dict.{Dict, lookup, insert, values}
use agent_rca.Incident.{
  Incident, localizing, same_status, EntityRef, kubernetes, graph, entity_name, CollectorStatus,
  CollectorState, pending, running, succeeded, partial, failed, timed_out, skipped,
}
use agent_rca.Documents.{Evidence, Span, Selection, Checkpoint}
use agent_rca.Runtime.{Runtime, parse_time, format_evidence_time}
use agent_rca.Scope.{ResourceScope, make_scope, contains_evidence_subject, value, same}

abbrev pub localization_collectors : List String
localization_collectors =
    "kubernetes" ∷ "prometheus" ∷ "prometheus-workload" ∷ "loki-kernel-oom" ∷ "deployment"
    ∷ "hubble" ∷ []

abbrev pub max_additional_services : ℕ
max_additional_services = 3

-- `source["namespace"] == selection["namespace"]`
abbrev pub namespace_is : EntityRef → String → Result Bool
namespace_is (kubernetes e) name = ok (is e.namespace)
  where
    is : Option String → Bool
    is none = false
    is (some n) = n == name
namespace_is (graph e) name = err key_error

abbrev is_empty : List String → Bool
is_empty [] = true
is_empty (_ ∷ _) = false

unfoldable pub check_selection : EntityRef → Selection → Result (Unit {0})
unfolding mem unique
check_selection source selection = do
  let n = length selection.services
  guard (leb 1 n && leb n max_additional_services) invalid_transition
  guard (unique selection.services) invalid_transition
  guard (not (mem (entity_name source) selection.services)) invalid_transition
  same_namespace ← namespace_is source selection.namespace
  guard same_namespace invalid_transition
  guard (not (selection.cluster_id == "")) invalid_transition
  guard (not (selection.profile_id == "")) invalid_transition
  guard (not (is_empty selection.feature_evidence_ids)) invalid_transition

-- `incident["window"]["recovery_end"] or incident["window"]["incident_end"]`
abbrev pub known_end : Incident → Option String
known_end i = either i.window.recovery_end i.window.incident_end
  where
    either : Option String → Option String → Option String
    either none e = e
    either (some r) e = if r == "" then e else some r

abbrev outcome_word : CollectorState → String
outcome_word pending = "PENDING"
outcome_word running = "RUNNING"
outcome_word succeeded = "SUCCEEDED"
outcome_word partial = "PARTIAL"
outcome_word failed = "FAILED"
outcome_word timed_out = "TIMED_OUT"
outcome_word skipped = "SKIPPED"

abbrev pub is_succeeded : CollectorState → Bool
is_succeeded succeeded = true
is_succeeded _ = false

-- in {"SUCCEEDED", "PARTIAL"}
abbrev pub is_successful : CollectorState → Bool
is_successful succeeded = true
is_successful partial = true
is_successful _ = false

-- in {"SUCCEEDED", "PARTIAL", "FAILED", "TIMED_OUT"}
abbrev pub is_final : CollectorState → Bool
is_final succeeded = true
is_final partial = true
is_final failed = true
is_final timed_out = true
is_final _ = false

-- `item.get("error") or item["status"]`
abbrev reason : CollectorStatus → String
reason s = either s.error
  where
    either : Option String → String
    either none = outcome_word s.status
    either (some e) = if e == "" then outcome_word s.status else e

abbrev failure_of : String → CollectorStatus → List String
failure_of stage s =
    if is_succeeded s.status then [] else append_text stage (append_text ": " (reason s)) ∷ []

-- `old["started_at"] or status["started_at"]`
abbrev first_text : Option String → Option String → Option String
first_text none b = b
first_text (some a) b = if a == "" then b else some a

-- the status and the error of a collector that ran twice, from the failures of the two runs
abbrev merged_outcome : List String → List String → Bool → CollectorState × Option String
merged_outcome [] [] successful = (succeeded, none)
merged_outcome (a ∷ _) [] successful = (if successful then partial else failed, some a)
merged_outcome [] (b ∷ _) successful = (if successful then partial else failed, some b)
merged_outcome (a ∷ _) (b ∷ _) successful =
    (if successful then partial else failed, some (append_text a (append_text "; " b)))

unfoldable pub merge_status : CollectorStatus → CollectorStatus → CollectorStatus
merge_status old status =
    let successful = is_successful old.status || is_successful status.status in
    let outcome =
      merged_outcome (failure_of "initial" old) (failure_of "downstream" status) successful in
    record {
      collector = status.collector;
      status = outcome.0;
      attempts = old.attempts + status.attempts;
      started_at = first_text old.started_at status.started_at;
      ended_at = status.ended_at;
      error = outcome.1;
    }

-- `{item["collector"]: item for item in ...}`
unfoldable pub by_collector : List CollectorStatus → Dict CollectorStatus → Dict CollectorStatus
by_collector [] merged = merged
by_collector (s ∷ ss) merged = by_collector ss (insert s.collector s merged)

abbrev merge_one : CollectorStatus → Option CollectorStatus → CollectorStatus
merge_one status none = status
merge_one status (some old) = merge_status old status

-- `for status in statuses`
unfoldable pub merge_statuses : List CollectorStatus → Dict CollectorStatus → Dict CollectorStatus
merge_statuses [] merged = merged
merge_statuses (s ∷ ss) merged =
    merge_statuses ss (insert s.collector (merge_one s (lookup s.collector merged)) merged)

abbrev optional : (String → String) → Option String → Option String
optional f none = none
optional f (some s) = some (f s)
