-- ===== src/Examples/Gate.antt =====
-- A conclusive draft over one Evidence item, and the gate's theorems at it.
use agent_rca.Prelude.{
  String, ◌≡◌, refl, Bool, true, false, arith, Option, some, none, List, [], ◌∷◌, All, mem, subset,
}
use agent_rca.Documents.{Evidence, context_evidence_ids, report_evidence_ids}
use agent_rca.Gate.{
  Draft, DraftClaim, supported, conclusive, GatePolicy, Investigation, GateInput, accepted,
  claims_of, cited_evidence, cited_references, are_ranked, are_supported, channel_of, channels_of,
  count_distinct,
}
use agent_rca.Gate.Validate.{
  validate, check_citations, check_claims, check_channels, check_conclusive, check_decision,
  check_budget, supporting_items, check_root,
}
use agent_rca.Gate.Accepted.{
  IsCitedFrom, IsProven, IsConclusive, accepted_citations, accepted_root, accepted_conclusive,
}
use agent_rca.Gate.Inspection.{IsBetter, accepted_better}
use agent_rca.Gate.Storable.{IsPublishable, accepted-store_report}
use agent_rca.Outcome.{ok}
use agent_rca.Dict.{lookup, insert, has}
use agent_rca.Text.{is_blank, is_space}
use agent_rca.Repository.{Repository, empty, create_or_get_by_deduplication_key}
use agent_rca.Repository.Documents.{
  store_evidence, store_context, store_report, write_evidence, check_evidence,
}
use agent_rca.Repository.Step.{put_report}
use agent_rca.Repository.Calls.{run, create, gather, freeze}
use agent_rca.Examples.{restart, package_one, noon, sample, checkout, verdict}

abbrev pub any_draft : Draft → Bool
any_draft d = true

-- an engine that proves a cause from any Evidence at all
abbrev some_evidence : Option String → List Evidence → Bool
some_evidence cause [] = false
some_evidence cause (e ∷ es) = true

abbrev policy : GatePolicy
policy = record {
  max_llm_calls = 4;
  max_tool_calls = 8;
  max_output_tokens = 1000;
  max_wall_time_ms = 60000;
  minimum_conclusive_evidence_channels = 1;
  minimum_conclusive_context_completeness = 3;
}

abbrev pub view : GateInput
view = record {
  context = package_one;
  context_completeness = 4;
  collector_failures = [];
  evidence = restart ∷ [];
  available_references = [];
  entity_ids = "payment" ∷ [];
}

abbrev looked : Investigation
looked = record {
  inspected_evidence_ids = "ev-restart" ∷ [];
  inspected_reference_ids = [];
  attempted_tool_calls = 2;
  llm_calls = 1;
  output_tokens = 500;
  wall_time_ms = 1000;
}

abbrev looked_again : Investigation
looked_again = record looked {
  inspected_evidence_ids = "ev-flow" ∷ "ev-restart" ∷ [];
  output_tokens = 400;
}

abbrev cause : DraftClaim
cause = record {
  cause_id = some "crash";
  entity_id = "payment";
  supporting_evidence_ids = "ev-restart" ∷ [];
  contradicting_evidence_ids = [];
  reference_document_ids = [];
}

abbrev draft : Draft
draft = record {
  incident_id = "inc-checkout";
  context_id = "ctx-checkout";
  decision = conclusive;
  hypotheses = record { rank = 1; status = supported; claim = cause } ∷ [];
  root_cause = some cause;
  suggestions = [];
}

draft_accepted : validate any_draft some_evidence policy view looked draft ≡ accepted
unfolding validate check_citations check_claims check_channels check_conclusive check_decision
    check_budget supporting_items check_root cited_evidence cited_references are_ranked
    are_supported channel_of channels_of count_distinct mem subset context_evidence_ids
draft_accepted = refl

accepted_citations_example :
    All (IsCitedFrom (context_evidence_ids package_one) []) (claims_of draft)
    × All (IsCitedFrom ("ev-restart" ∷ []) []) (claims_of draft)
accepted_citations_example =
    accepted_citations any_draft some_evidence policy view looked draft draft_accepted

accepted_root_example : IsProven some_evidence view draft cause
accepted_root_example =
    accepted_root any_draft some_evidence policy view looked draft cause refl draft_accepted

accepted_conclusive_example : IsConclusive policy view draft
accepted_conclusive_example =
    accepted_conclusive any_draft some_evidence policy view looked draft refl draft_accepted

looked-IsBetter : IsBetter looked looked_again
unfolding subset mem
looked-IsBetter = record {
  evidence = refl;
  references = refl;
  tool_calls = omega arith;
  llm_calls = omega arith;
  output_tokens = omega arith;
  wall_time_ms = omega arith;
}

accepted_better_example : validate any_draft some_evidence policy view looked_again draft ≡ accepted
accepted_better_example =
    accepted_better view looked looked_again looked-IsBetter any_draft some_evidence policy draft
      draft_accepted

-- The repository in which the Context Package is stored.
abbrev frozen : Repository
frozen =
    run sample
      (create checkout noon ∷ gather "inc-checkout" (restart ∷ []) ∷ freeze package_one ∷ []) empty

frozen_incident : has "inc-checkout" frozen.incidents ≡ true
unfolding run create_or_get_by_deduplication_key store_evidence store_context empty lookup insert
    write_evidence check_evidence subset mem context_evidence_ids
frozen_incident = refl

frozen_package : lookup "ctx-checkout" frozen.contexts ≡ some package_one
unfolding run create_or_get_by_deduplication_key store_evidence store_context empty lookup insert
    write_evidence check_evidence subset mem context_evidence_ids
frozen_package = refl

frozen_free : lookup "rep-checkout" frozen.reports ≡ none
unfolding run create_or_get_by_deduplication_key store_evidence store_context empty lookup insert
    write_evidence check_evidence subset mem context_evidence_ids
frozen_free = refl

verdict-IsPublishable : IsPublishable sample frozen package_one verdict "# Report"
unfolding is_blank is_space
verdict-IsPublishable = record {
  valid = refl;
  written = refl;
  incident_known = frozen_incident;
  package_known = frozen_package;
  same_incident = refl;
  new_report = frozen_free;
}

package_lists : subset (context_evidence_ids package_one) package_one.evidence_ids ≡ true
unfolding subset mem context_evidence_ids
package_lists = refl

verdict_cites : subset (report_evidence_ids verdict) (cited_evidence (claims_of draft)) ≡ true
unfolding subset mem report_evidence_ids cited_evidence
verdict_cites = refl

accepted-store_report_example :
    store_report sample verdict "# Report" frozen ≡ (ok tt, put_report verdict "# Report" frozen)
accepted-store_report_example =
    accepted-store_report any_draft some_evidence policy view looked draft sample frozen verdict
      "# Report" draft_accepted package_lists verdict_cites verdict-IsPublishable
