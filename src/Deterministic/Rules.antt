-- ===== src/Deterministic/Rules.antt =====
-- The three rules of src/incident_platform/deterministic.py.
use agent_rca.Prelude.{
  String, Bool, true, false, Option, none, some, List, [], ◌∷◌, ◌++◌, ◌&&◌, map, mem, keep,
  if◌then◌else◌,
}
use agent_rca.Outcome.{Result, ok}
use agent_rca.Outcome.Checked.{◌>>=◌}
use agent_rca.Json.{text}
use agent_rca.Scope.{value, same}
use agent_rca.Documents.{Evidence}
use agent_rca.Runtime.{Runtime}
use agent_rca.Deterministic.{
  RuleStatus, not_applicable, insufficient, proven, RuleEvaluation, is_from, fact, member_of,
  and_then, or_else, select, first_pair, truthy, at_least, same_subject, is_value,
}

abbrev pub oom_id : String
oom_id = "kubernetes.container-oomkilled"

abbrev pub image_id : String
image_id = "kubernetes.image-pull-failure"

abbrev pub configmap_id : String
configmap_id = "kubernetes.missing-configmap"

abbrev pub evaluation : String → RuleStatus → List String → List String → RuleEvaluation
evaluation id status supporting missing = record {
  rule_id = id;
  status = status;
  supporting_evidence_ids = supporting;
  missing_requirements = missing;
}

abbrev ids : List Evidence → List String
ids = map (λ e. e.evidence_id)

-- `dict.fromkeys`
unfoldable pub first_occurrences : List String → List String → List String
first_occurrences seen [] = []
first_occurrences seen (x ∷ xs) =
    let rest = first_occurrences (x ∷ seen) xs in if mem x seen then rest else x ∷ rest

-- a pair that proves, or the result without one
abbrev pub concluded :
    String → RuleEvaluation → Option (Evidence × Evidence) → Result RuleEvaluation
concluded id otherwise none = ok otherwise
concluded id otherwise (some (s, e)) =
    ok (evaluation id proven (s.evidence_id ∷ e.evidence_id ∷ []) [])

-- what the three rules share: no signature, a corroborated one, or neither
abbrev pub judged :
    String
    → (Evidence → Evidence → Result Bool)
    → (List Evidence → RuleEvaluation)
    → List Evidence
    → List Evidence
    → Result RuleEvaluation
judged id corroborates otherwise evidence [] = ok (evaluation id not_applicable [] [])
judged id corroborates otherwise evidence (s ∷ ss) = do
  found ← first_pair corroborates evidence (s ∷ ss)
  concluded id (otherwise (s ∷ ss)) found

module _ (rt : Runtime) where
  unfoldable pub is_termination : Evidence → Bool
  is_termination e =
      is_from "kubernetes" "resource-state" e
      && same (fact "last_termination_reason" e) (text "OOMKilled")

  -- the provenance of a valid item is an object
  unfoldable pub is_kernel_oom : Evidence → Bool
  is_kernel_oom e =
      is_from "loki" "log-pattern" e
      && same (value "provider" e.provenance) (text "loki-kernel-oom-provider")
      && same (fact "pattern_id" e) (text "kernel-cgroup-oom")
      && same (fact "kernel_constraint" e) (text "CONSTRAINT_MEMCG")
      && at_least rt (fact "match_count" e) 1
      && same (value "kind" e.subject) (text "Pod")
      && truthy rt (value "uid" e.subject)
      && same (fact "pod_uid" e) (value "uid" e.subject)

  unfoldable pub is_restart : Evidence → Evidence → Bool
  is_restart signature e =
      is_from "prometheus" "metric-summary" e
      && same (fact "metric" e) (text "restart_count_delta")
      && at_least rt (fact "peak_delta" e) 1
      && same_subject rt signature e

  -- `signatures`: the terminations, then the kernel's signals
  abbrev pub oom_signatures : List Evidence → List Evidence
  oom_signatures evidence = keep is_termination evidence ++ keep is_kernel_oom evidence

  unfoldable pub restarts_of : List Evidence → List Evidence → List Evidence
  restarts_of evidence [] = []
  restarts_of evidence (s ∷ ss) = keep (is_restart s) evidence ++ restarts_of evidence ss

  abbrev missing_restart : List Evidence → List String
  missing_restart [] = "Prometheus restart_count_delta at or above 1 for the same workload" ∷ []
  missing_restart (_ ∷ _) = []

  abbrev pub oom_insufficient : List Evidence → List Evidence → RuleEvaluation
  oom_insufficient evidence signatures =
      let restarts = restarts_of evidence signatures in
      evaluation oom_id insufficient (first_occurrences [] (ids (signatures ++ restarts)))
        (missing_restart restarts)

  -- `OOMKilledRule.evaluate`
  unfoldable pub oom_rule : List Evidence → Result RuleEvaluation
  oom_rule evidence =
      judged oom_id (λ s e. ok (is_restart s e)) (oom_insufficient evidence) evidence
        (oom_signatures evidence)

  abbrev pub waiting_reasons : List String
  waiting_reasons = "ErrImagePull" ∷ "ImagePullBackOff" ∷ []

  unfoldable pub is_waiting : Evidence → Result Bool
  is_waiting e =
      and_then (is_from "kubernetes" "resource-state" e)
        (member_of waiting_reasons (fact "waiting_reason" e))

  unfoldable pub is_pull_code : Evidence → Result Bool
  is_pull_code e = do
    by_code ← member_of waiting_reasons (fact "image_pull_code" e)
    or_else by_code (member_of waiting_reasons (fact "message_code" e))

  unfoldable pub is_pull_event : Evidence → Evidence → Result Bool
  is_pull_event state e =
      and_then (is_from "kubernetes" "kubernetes-event" e)
        (do pulled ← is_pull_code e; ok (pulled && same_subject rt state e))

  abbrev pub image_insufficient : List Evidence → RuleEvaluation
  image_insufficient states =
      evaluation image_id insufficient (ids states)
        ("Matching ErrImagePull or ImagePullBackOff Kubernetes Event" ∷ [])

  -- `ImagePullRule.evaluate`
  unfoldable pub image_rule : List Evidence → Result RuleEvaluation
  image_rule evidence = do
    states ← select is_waiting evidence
    judged image_id is_pull_event image_insufficient evidence states

  unfoldable pub is_missing_configmap : Evidence → Bool
  is_missing_configmap e =
      is_from "kubernetes" "resource-state" e
      && same (value "kind" e.subject) (text "ConfigMap")
      && is_value false (value "exists" e.subject)
      && is_value true (fact "required" e)

  abbrev pub mount_reasons : List String
  mount_reasons = "CreateContainerConfigError" ∷ "FailedMount" ∷ []

  unfoldable pub is_mount_event : Evidence → Evidence → Result Bool
  is_mount_event state e = and_then (is_from "kubernetes" "kubernetes-event" e) (do
    failed ← member_of mount_reasons (fact "reason" e)
    ok (
        failed
        && same (fact "missing_kind" e) (text "ConfigMap")
        && same (fact "missing_name" e) (value "name" state.subject)
        && same (value "namespace" e.subject) (value "namespace" state.subject)))

  abbrev pub configmap_insufficient : List Evidence → RuleEvaluation
  configmap_insufficient states =
      evaluation configmap_id insufficient (ids states)
        ("Matching CreateContainerConfigError or FailedMount Event" ∷ [])

  -- `MissingConfigMapRule.evaluate`
  unfoldable pub configmap_rule : List Evidence → Result RuleEvaluation
  configmap_rule evidence =
      judged configmap_id is_mount_event configmap_insufficient evidence
        (keep is_missing_configmap evidence)
