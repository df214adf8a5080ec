-- ===== src/Examples/Collection.antt =====
-- Runs of a supplemental collection, and its theorems at them.
use agent_rca.Prelude.{
  String, ◌≡◌, refl, true, false, some, none, List, [], ◌∷◌, All, all, unique, subset, mem,
  String_discrete,
}
use agent_rca.Outcome.{Result, ok, err, invalid_transition}
use agent_rca.Dict.{lookup, insert}
use agent_rca.Json.Equality.{compared}
use agent_rca.Json.{Json-discrete, get}
use agent_rca.Runtime.{parse_time, format_evidence_time}
use agent_rca.Scope.{make_scope, value, contains_evidence_subject, contains_resource_name}
use agent_rca.Sort.{sort_by}
use agent_rca.Text.{is_blank}
use agent_rca.Incident.{
  Status-discrete, allowed, Incident, received, collecting, localizing, CollectorStatus,
  CollectorState, succeeded,
}
use agent_rca.Documents.{Evidence, Selection, Span, Checkpoint}
use agent_rca.Repository.{
  Repository, empty, audit_of, transition, create_or_get_by_deduplication_key,
}
use agent_rca.Repository.Documents.{store_evidence, check_evidence, write_evidence}
use agent_rca.Checkpoint.{
  check_selection, merge_status, by_collector, merge_statuses, is_succeeded, is_final,
  localization_collectors,
}
use agent_rca.Checkpoint.Prepare.{
  prepare_localization_collection, downstream_scope, names_of, check_window, check_candidates,
  check_statuses,
}
use agent_rca.Checkpoint.Guards.{IsAdmitted, prepared_lem}
use agent_rca.Checkpoint.Merging.{merged_failure}
use agent_rca.Repository.Localization.{
  first_checkpoint, store_localization_collection, checkpoint_or_write, add_evidence,
}
use agent_rca.Repository.Supplement.{store_localization_error, store_localization_once}
use agent_rca.Repository.Calls.{create, move, gather, supplement, run}
use agent_rca.Examples.{noon, sample, checkout, restart, moved_to}

abbrev outcome : String → CollectorState → CollectorStatus
outcome name state = record {
  collector = name;
  status = state;
  attempts = 1;
  started_at = some "2026-08-24T11:58:00Z";
  ended_at = some "2026-08-24T11:59:00Z";
  error = none;
}

abbrev failed_first : List CollectorStatus
failed_first = outcome "hubble" CollectorState.failed ∷ outcome "kubernetes" succeeded ∷ []

abbrev succeeded_later : List CollectorStatus
succeeded_later = outcome "hubble" succeeded ∷ []

failed_there :
    lookup "hubble" (by_collector failed_first []) ≡ some (outcome "hubble" CollectorState.failed)
unfolding by_collector lookup insert
failed_there = refl

merged_failure_example :
    (s : CollectorStatus) × (lookup "hubble"
        (merge_statuses succeeded_later (by_collector failed_first []))
      ≡ some s)
    × (is_succeeded s.status ≡ false)
merged_failure_example =
    merged_failure failed_first succeeded_later "hubble" (outcome "hubble" CollectorState.failed)
      failed_there refl

abbrev downstream : Selection
downstream = record {
  services = "payment" ∷ [];
  namespace = "shop";
  cluster_id = "c1";
  profile_id = "p1";
  feature_evidence_ids = "ev-restart" ∷ [];
}

abbrev hour : Span
hour = record { start = "2026-08-24T11:55:00Z"; finish = "2026-08-24T12:00:00Z" }

abbrev flow : Evidence
flow = record restart { evidence_id = "ev-flow" }

abbrev result : Result (Incident × Checkpoint)
result =
    prepare_localization_collection sample (moved_to localizing) downstream hour succeeded_later
      (flow ∷ []) noon

abbrev gathered : Incident
gathered = record (moved_to localizing) { collector_statuses = succeeded_later }

abbrev checkpoint : Checkpoint
checkpoint = record {
  selection = downstream;
  window = hour;
  collector_statuses = succeeded_later;
  evidence_ids = "ev-flow" ∷ [];
}

prepared : result ≡ ok (gathered, checkpoint)
unfolding prepare_localization_collection Status-discrete Json-discrete compared check_selection
    check_window make_scope check_candidates check_statuses by_collector merge_statuses merge_status
    value get contains_evidence_subject contains_resource_name mem subset unique parse_time
    format_evidence_time sort_by is_blank insert lookup String_discrete
prepared = refl

prepared_lem_example :
    ((moved_to localizing).status ≡ localizing)
    × (sample.valid_incident gathered ≡ true)
    × ((gathered.incident_id ≡ "inc-checkout")
        × (gathered.deduplication_key ≡ "alertmanager:checkout")
        × (gathered.status ≡ localizing))
    × All
        (IsAdmitted sample "inc-checkout"
          (downstream_scope sample (moved_to localizing) downstream))
        (flow ∷ [])
    × (checkpoint.selection ≡ downstream)
    × (checkpoint.window ≡ hour)
    × (unique (names_of sample checkpoint.collector_statuses) ≡ true)
    × (subset (names_of sample checkpoint.collector_statuses) localization_collectors ≡ true)
    × (all (λ s. is_final s.status) checkpoint.collector_statuses ≡ true)
prepared_lem_example =
    prepared_lem sample (moved_to localizing) downstream hour succeeded_later (flow ∷ []) noon
      gathered checkpoint prepared

-- The repository after a first supplemental collection.
abbrev supplemented : Repository
supplemented =
    run sample
      (create checkout noon
        ∷ move "inc-checkout" received collecting noon
        ∷ move "inc-checkout" collecting localizing noon
        ∷ gather "inc-checkout" (restart ∷ [])
        ∷ supplement "inc-checkout" downstream hour succeeded_later (flow ∷ []) noon
        ∷ [])
      empty

checkpoint_there : first_checkpoint (audit_of "inc-checkout" supplemented) ≡ some checkpoint
unfolding Status-discrete Json-discrete compared check_selection check_window make_scope
    check_candidates check_statuses by_collector merge_statuses merge_status value get
    contains_evidence_subject contains_resource_name mem subset unique parse_time
    format_evidence_time sort_by is_blank insert lookup String_discrete run
    create_or_get_by_deduplication_key transition allowed store_evidence check_evidence
    write_evidence store_localization_collection prepare_localization_collection checkpoint_or_write
    add_evidence first_checkpoint empty
checkpoint_there = refl

store_localization_once_example :
    ((store_localization_collection sample "inc-checkout" downstream hour [] [] noon supplemented).1
      ≡ supplemented)
    × ((d : Checkpoint)
        → (store_localization_collection sample "inc-checkout" downstream hour [] [] noon
            supplemented).0
          ≡ ok d
        → d ≡ checkpoint)
store_localization_once_example =
    store_localization_once sample "inc-checkout" downstream hour [] [] noon supplemented checkpoint
      checkpoint_there

-- A collection with no collector status is refused.
refused :
    (store_localization_collection sample "inc-checkout" downstream hour [] [] noon supplemented).0
    ≡ err invalid_transition
unfolding Status-discrete Json-discrete compared check_selection check_window make_scope
    check_candidates check_statuses by_collector merge_statuses merge_status value get
    contains_evidence_subject contains_resource_name mem subset unique parse_time
    format_evidence_time sort_by is_blank insert lookup String_discrete run
    create_or_get_by_deduplication_key transition allowed store_evidence check_evidence
    write_evidence store_localization_collection prepare_localization_collection checkpoint_or_write
    add_evidence first_checkpoint empty
refused = refl

store_localization_error_example :
    (store_localization_collection sample "inc-checkout" downstream hour [] [] noon supplemented).1
    ≡ supplemented
store_localization_error_example =
    store_localization_error sample "inc-checkout" downstream hour [] [] noon supplemented
      invalid_transition refused
