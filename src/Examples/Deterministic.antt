-- ===== src/Examples/Deterministic.antt =====
-- A container that ran out of memory, with its restart and an unrelated item, and the theorems of the
-- deterministic engine at it.
use agent_rca.Prelude.{String_discrete, ◌≡◌, refl, some, List, [], ◌∷◌}
use agent_rca.Outcome.{ok}
use agent_rca.Json.Equality.{compared}
use agent_rca.Json.{Fields, field, end, text, number, Json-discrete, get}
use agent_rca.Scope.{value}
use agent_rca.Documents.{Evidence}
use agent_rca.Deterministic.{RuleEvaluation, proven, select, first_pair, at_least, same_subject}
use agent_rca.Deterministic.Rules.{
  oom_id, evaluation, oom_rule, is_termination, is_kernel_oom, is_restart,
}
use agent_rca.Deterministic.Engine.{evaluate_rule, default_rules, find_rule}
use agent_rca.Deterministic.Restricted.{cited, evaluate_rule-cited}
use agent_rca.Gate.{DraftClaim, DraftHypothesis, GateInput, accepted, supported}
use agent_rca.Gate.Validate.{check_root}
use agent_rca.Gate.Proof.{engine_proves, evaluated-check_root}
use agent_rca.Examples.{restart, sample}
use agent_rca.Examples.Gate.{any_draft, view}

abbrev pod : Fields
pod = field "namespace" (text "shop") (
    field "kind" (text "Pod") (
      field "name" (text "payment") (field "cluster_id" (text "c1") (field "uid" (text "u1") end))))

abbrev killed : Evidence
killed = record restart {
  evidence_id = "ev-killed";
  kind = "resource-state";
  subject = pod;
  facts = field "last_termination_reason" (text "OOMKilled") end;
}

abbrev restarted : Evidence
restarted = record restart {
  evidence_id = "ev-restarts";
  source = "prometheus";
  kind = "metric-summary";
  subject = pod;
  facts = field "metric" (text "restart_count_delta") (field "peak_delta" (number 2) end);
}

abbrev observations : List Evidence
observations = restart ∷ killed ∷ restarted ∷ []

abbrev out_of_memory : RuleEvaluation
out_of_memory = evaluation oom_id proven ("ev-killed" ∷ "ev-restarts" ∷ []) []

oom_proven : evaluate_rule sample (default_rules sample) oom_id observations ≡ ok out_of_memory
unfolding String_discrete evaluate_rule find_rule oom_rule is_termination is_kernel_oom is_restart
    select first_pair at_least same_subject value get Json-discrete compared
oom_proven = refl

evaluate_rule-cited_example :
    evaluate_rule sample (default_rules sample) oom_id (cited out_of_memory observations)
    ≡ ok out_of_memory
evaluate_rule-cited_example =
    evaluate_rule-cited sample observations out_of_memory refl oom_id oom_proven

abbrev memory_claim : DraftClaim
memory_claim = record {
  cause_id = some oom_id;
  entity_id = "payment";
  supporting_evidence_ids = "ev-killed" ∷ "ev-restarts" ∷ [];
  contradicting_evidence_ids = [];
  reference_document_ids = [];
}

abbrev memory_first : DraftHypothesis
memory_first = record { rank = 1; status = supported; claim = memory_claim }

abbrev full_view : GateInput
full_view = record view { evidence = observations }

evaluated-check_root_example :
    check_root any_draft (engine_proves sample) full_view (memory_first ∷ []) (some memory_claim)
    ≡ accepted
evaluated-check_root_example =
    evaluated-check_root sample any_draft full_view oom_id out_of_memory memory_claim memory_first
      [] oom_proven refl refl refl refl
