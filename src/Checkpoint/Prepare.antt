-- ===== src/Checkpoint/Prepare.antt =====
-- `prepare_localization_collection` of src/incident_platform/localization_collection.py.
use Prim.Native.String.{◌++◌ as append_text}
use agent_rca.Prelude.{
  String, Option, none, some, List, [], ◌∷◌, map, ◌==◌, not, all, subset, unique,
}
use agent_rca.Outcome.{Result, ok, invalid_transition, contract_violation, type_error}
use agent_rca.Outcome.Checked.{guard, ◌>>=◌, ◌>>◌}
use agent_rca.Time.{DateTime, at_most}
use agent_rca.Sort.{sort_texts}
use agent_rca.Json.{text}
use agent_rca.Dict.{values}
use agent_rca.Incident.{Incident, localizing, same_status, CollectorStatus}
use agent_rca.Documents.{Evidence, Span, Selection, Checkpoint}
use agent_rca.Runtime.{Runtime, parse_time, format_evidence_time}
use agent_rca.Scope.{ResourceScope, make_scope, contains_evidence_subject, value, same}
use agent_rca.Checkpoint.{
  check_selection, known_end, is_final, is_empty, localization_collectors, by_collector,
  merge_statuses, optional,
}

module _ (rt : Runtime) where
  abbrev within_known_end : DateTime → Option String → Result (Unit {0})
  within_known_end finish none = ok tt
  within_known_end finish (some e) = do
    known ← parse_time rt e
    guard (at_most finish known) invalid_transition

  -- the window's start and end, inside the incident and not in the future
  unfoldable pub check_window : Incident → Span → DateTime → Result (DateTime × DateTime)
  unfolding parse_time
  check_window i window now = do
    finish ← parse_time rt window.finish
    start ← parse_time rt window.start
    baseline ← parse_time rt i.window.baseline_start
    guard (at_most baseline start) invalid_transition
    guard now.aware type_error
    guard (at_most finish now) invalid_transition
    within_known_end finish (known_end i)
    ok (start, finish)

  -- the loop over the candidates
  unfoldable pub check_candidates :
      String → Selection → ResourceScope → DateTime → DateTime → List Evidence → Result (Unit {0})
  check_candidates id selection scope start finish [] = ok tt
  check_candidates id selection scope start finish (e ∷ es) = do
    let rest = check_candidates id selection scope start finish es
    guard (rt.valid_evidence e) contract_violation
    guard (e.incident_id == id) invalid_transition
    guard (same (value "cluster_id" e.subject) (text selection.cluster_id)) invalid_transition
    guard (same (value "namespace" e.subject) (text scope.namespace)) invalid_transition
    guard (contains_evidence_subject scope e.subject e.facts) invalid_transition
    first ← parse_time rt e.window.start
    guard (at_most start first) invalid_transition
    last ← parse_time rt e.window.finish
    guard (at_most last finish) invalid_transition
    rest

  -- `redact` on one status: none of its keys is sensitive, and its texts are rewritten
  abbrev redact_status : CollectorStatus → CollectorStatus
  redact_status s = record s {
    collector = rt.redact_text s.collector;
    started_at = optional rt.redact_text s.started_at;
    ended_at = optional rt.redact_text s.ended_at;
    error = optional rt.redact_text s.error;
  }

  abbrev pub names_of : List CollectorStatus → List String
  names_of = map (λ s. s.collector)

  unfoldable pub check_statuses : List CollectorStatus → Result (Unit {0})
  check_statuses statuses = do
    let names = names_of statuses
    guard (not (is_empty names)) invalid_transition
    guard (unique names) invalid_transition
    guard (subset names localization_collectors) invalid_transition
    guard (all (λ s. is_final s.status) statuses) invalid_transition

  abbrev pub merged_statuses : Incident → List CollectorStatus → List CollectorStatus
  merged_statuses i statuses =
      values (merge_statuses statuses (by_collector i.collector_statuses []))

  abbrev pub downstream_scope : Incident → Selection → ResourceScope
  downstream_scope i selection = record {
    namespace = selection.namespace;
    resource_names = selection.services;
    resource_name_prefixes = map (λ name. append_text name "-") selection.services;
    max_items = 100;
    related_resource_kinds = "ConfigMap" ∷ [];
  }

  unfoldable pub prepare_localization_collection :
      Incident
      → Selection
      → Span
      → List CollectorStatus
      → List Evidence
      → DateTime
      → Result (Incident × Checkpoint)
  prepare_localization_collection i selection window raw_statuses candidates now = do
    guard (same_status i.status localizing) invalid_transition
    check_selection i.source_entity selection
    (start, finish) ← check_window i window now
    scope ← make_scope (downstream_scope i selection)
    check_candidates i.incident_id selection scope start finish candidates
    let statuses = map redact_status raw_statuses
    check_statuses statuses
    guard (rt.valid_incident (record i { collector_statuses = statuses })) contract_violation
    stamp ← format_evidence_time rt now
    let updated = record i { collector_statuses = merged_statuses i statuses; updated_at = stamp }
    guard (rt.valid_incident updated) contract_violation
    ok (
      updated,
      record {
        selection = selection;
        window = window;
        collector_statuses = statuses;
        evidence_ids = sort_texts (map (λ e. e.evidence_id) candidates);
      },
    )
