-- ===== src/Deterministic/Engine.antt =====
-- `DeterministicRCAEngine` of src/incident_platform/deterministic.py.
use agent_rca.Prelude.{
  String, Bool, true, false, Option, none, some, List, [], ◌∷◌, ◌++◌, ◌==◌, map, unique, all,
  if◌then◌else◌,
}
use agent_rca.Outcome.{Result, ok, err, value_error, contract_violation}
use agent_rca.Outcome.Checked.{guard, ◌>>=◌, ◌>>◌}
use agent_rca.Documents.{Evidence}
use agent_rca.Runtime.{Runtime}
use agent_rca.Deterministic.{RuleStatus, insufficient, proven as rule_proven, RuleEvaluation}
use agent_rca.Deterministic.Rules.{
  oom_id, image_id, configmap_id, oom_rule, image_rule, configmap_rule,
}

-- `DeterministicRule`
pub record Rule : Type 0 where
  pub rule_id : String
  pub evaluate : List Evidence → Result RuleEvaluation

pub data DecisionStatus : Type 0 where
  proven ambiguous abstain : DecisionStatus

pub record DeterministicDecision : Type 0 where
  pub status : DecisionStatus
  pub root_cause_id : Option String
  pub supporting_evidence_ids : List String
  pub missing_requirements : List String
  pub evaluations : List RuleEvaluation

unfoldable pub make_engine : List Rule → Result (List Rule)
unfolding unique
make_engine rules = do guard (unique (map (λ r. r.rule_id) rules)) value_error; ok rules

-- `self._rules_by_id[rule_id]`
unfoldable pub find_rule : String → List Rule → Result Rule
find_rule id [] = err value_error
find_rule id (r ∷ rs) = if r.rule_id == id then ok r else find_rule id rs

unfoldable pub evaluate_each : List Rule → List Evidence → Result (List RuleEvaluation)
evaluate_each [] evidence = ok []
evaluate_each (r ∷ rs) evidence = do
  first ← r.evaluate evidence
  rest ← evaluate_each rs evidence
  ok (first ∷ rest)

abbrev pub is_proven : RuleStatus → Bool
is_proven rule_proven = true
is_proven _ = false

abbrev pub missing_of : RuleEvaluation → RuleStatus → List String
missing_of e insufficient = e.missing_requirements
missing_of e _ = []

unfoldable pub proven_of : List RuleEvaluation → List RuleEvaluation
proven_of [] = []
proven_of (e ∷ es) = if is_proven e.status then e ∷ proven_of es else proven_of es

unfoldable pub all_missing : List RuleEvaluation → List String
all_missing [] = []
all_missing (e ∷ es) = missing_of e e.status ++ all_missing es

unfoldable pub all_support : List RuleEvaluation → List String
all_support [] = []
all_support (e ∷ es) = e.supporting_evidence_ids ++ all_support es

-- `missing or (...)`
abbrev or_unmatched : List String → List String
or_unmatched [] = "No deterministic failure signature matched" ∷ []
or_unmatched (m ∷ ms) = m ∷ ms

-- from the evaluations that are PROVEN, and all
unfoldable pub decide : List RuleEvaluation → List RuleEvaluation → DeterministicDecision
decide [] evaluations = record {
  status = abstain;
  root_cause_id = none;
  supporting_evidence_ids = [];
  missing_requirements = or_unmatched (all_missing evaluations);
  evaluations = evaluations;
}
decide (e ∷ []) evaluations = record {
  status = proven;
  root_cause_id = some e.rule_id;
  supporting_evidence_ids = e.supporting_evidence_ids;
  missing_requirements = [];
  evaluations = evaluations;
}
decide (e ∷ e' ∷ es) evaluations = record {
  status = ambiguous;
  root_cause_id = none;
  supporting_evidence_ids = all_support (e ∷ e' ∷ es);
  missing_requirements = "Multiple deterministic root causes are simultaneously proven" ∷ [];
  evaluations = evaluations;
}

module _ (rt : Runtime) where
  -- the rules of an engine that is given none
  abbrev pub default_rules : List Rule
  default_rules =
      record { rule_id = oom_id; evaluate = oom_rule rt }
      ∷ record { rule_id = image_id; evaluate = image_rule rt }
      ∷ record { rule_id = configmap_id; evaluate = configmap_rule rt }
      ∷ []

  unfoldable pub evaluate_rule : List Rule → String → List Evidence → Result RuleEvaluation
  evaluate_rule rules id evidence = do
    rule ← find_rule id rules
    guard (all rt.valid_evidence evidence) contract_violation
    rule.evaluate evidence

  unfoldable pub evaluate : List Rule → List Evidence → Result DeterministicDecision
  evaluate rules evidence = do
    guard (all rt.valid_evidence evidence) contract_violation
    evaluations ← evaluate_each rules evidence
    ok (decide (proven_of evaluations) evaluations)

  -- without a validation of the Evidence
  unfoldable pub registered_rule_evaluations : List Evidence → Result (List RuleEvaluation)
  registered_rule_evaluations evidence = evaluate_each default_rules evidence
