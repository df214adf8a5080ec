-- ===== src/Gate/Proof.antt =====
-- The gate of src/incident_platform/agent_rca.py with the engine of
-- src/incident_platform/deterministic.py, which it uses where it is given no other.
use agent_rca.Prelude.{eq_refl, String, ◌≡◌, refl, Bool, false, Option, none, some, List, ◌∷◌}
use agent_rca.Outcome.{Result, ok, err}
use agent_rca.Documents.{Evidence}
use agent_rca.Runtime.{Runtime}
use agent_rca.Deterministic.{RuleEvaluation, proven}
use agent_rca.Deterministic.Engine.{evaluate_rule, default_rules, is_proven}
use agent_rca.Deterministic.Restricted.{evaluate_rule-cited}
use agent_rca.Gate.{Draft, DraftClaim, DraftHypothesis, GateInput, accepted}
use agent_rca.Gate.Validate.{check_root, supporting_items}

abbrev returned : Result RuleEvaluation → Bool
returned (ok v) = is_proven v.status
returned (err e) = false

-- `evaluate_rule(cause, evidence).status == "PROVEN"`; a call that raises proves nothing here
unfoldable pub engine_proves : Runtime → Option String → List Evidence → Bool
engine_proves rt none evidence = false
engine_proves rt (some cause) evidence =
    returned (evaluate_rule rt (default_rules rt) cause evidence)

-- A root cause whose rule the engine proves from all the Evidence, and that cites what the engine
-- cites, passes the gate's check of the root cause, where the leading hypothesis has the same cause:
-- the gate evaluates the rule on the cited Evidence alone.
pub evaluated-check_root :
    (rt : Runtime) (valid_draft : Draft → Bool) (g : GateInput) (cause : String)
    (v : RuleEvaluation) (root : DraftClaim) (leading : DraftHypothesis)
    (others : List DraftHypothesis)
    → evaluate_rule rt (default_rules rt) cause g.evidence ≡ ok v
    → v.status ≡ proven
    → root.cause_id ≡ some cause
    → root.supporting_evidence_ids ≡ v.supporting_evidence_ids
    → leading.claim.cause_id ≡ some cause
    → check_root valid_draft (engine_proves rt) g (leading ∷ others) (some root) ≡ accepted
unfolding check_root supporting_items engine_proves
evaluated-check_root rt valid_draft g cause v root leading others h k c s l =
    let again = evaluate_rule-cited rt g.evidence v k cause h in
    rw (c, s, l, again, k) (rw (eq_refl cause) refl)
