-- ===== src/Gate/Validate.antt =====
-- `EvidenceGate.validate` of src/incident_platform/agent_rca.py, in the order of its checks.
use agent_rca.Prelude.{
  ℕ, String, Bool, Option, none, some, List, [], ◌∷◌, ◌==◌, ◌&&◌, not, leb, map, mem, subset, keep,
}
use agent_rca.Documents.{Evidence, context_evidence_ids}
use agent_rca.Gate.{
  Draft, DraftClaim, DraftHypothesis, Decision, conclusive, GatePolicy, Investigation, GateInput,
  Verdict, accepted, refused, check, next_check, is_none_left, claims_of, cited_evidence,
  cited_references, are_ranked, are_supported, same_cause, channels_of, count_distinct,
  draft_contract_invalid, incident_mismatch, context_mismatch, unknown_evidence_citation,
  uninspected_evidence_citation, unknown_reference_citation, uninspected_reference_citation,
  entity_out_of_scope, hypothesis_rank_invalid, hypothesis_support_missing, root_leading_mismatch,
  proof_insufficient, conclusive_root_missing, conclusive_support_missing, contradicting_evidence,
  channels_insufficient, context_incomplete, conclusive_collector_failure, rootless_remediation,
  investigation_budget_exceeded, missing_channel, missing_hypothesis,
}

unfoldable pub check_citations : Draft → GateInput → Investigation → Verdict
check_citations d g v =
    check (subset (cited_evidence (claims_of d)) (context_evidence_ids g.context))
      unknown_evidence_citation
      (check (subset (cited_evidence (claims_of d)) v.inspected_evidence_ids)
        uninspected_evidence_citation
        (check (subset (cited_references (claims_of d)) g.available_references)
          unknown_reference_citation
          (check (subset (cited_references (claims_of d)) v.inspected_reference_ids)
            uninspected_reference_citation accepted)))

unfoldable pub check_claims : Draft → GateInput → Verdict
check_claims d g =
    check (subset (map (λ c. c.entity_id) (claims_of d)) g.entity_ids) entity_out_of_scope (
      check (are_ranked 1 d.hypotheses) hypothesis_rank_invalid
        (check (are_supported d.hypotheses) hypothesis_support_missing accepted))

-- the enough-channels test; an id without an item raises KeyError
unfoldable pub check_channels : ℕ → Option (List (String × String)) → Verdict
check_channels minimum none = refused missing_channel
check_channels minimum (some channels) =
    check (leb minimum (count_distinct channels)) channels_insufficient accepted

unfoldable pub check_conclusive : GatePolicy → GateInput → Option DraftClaim → Verdict
check_conclusive policy g none = refused conclusive_root_missing
check_conclusive policy g (some root) =
    check (not (is_none_left root.supporting_evidence_ids)) conclusive_support_missing (
      check (is_none_left root.contradicting_evidence_ids) contradicting_evidence (
        next_check
          (check_channels policy.minimum_conclusive_evidence_channels
            (channels_of root.supporting_evidence_ids g.evidence))
          (check (leb policy.minimum_conclusive_context_completeness g.context_completeness)
            context_incomplete
            (check (is_none_left g.collector_failures) conclusive_collector_failure accepted))))

unfoldable pub check_decision :
    GatePolicy → GateInput → Draft → Decision → Option DraftClaim → Verdict
check_decision policy g d conclusive root = check_conclusive policy g root
check_decision policy g d _ none = check (is_none_left d.suggestions) rootless_remediation accepted
check_decision policy g d _ (some root) = accepted

unfoldable pub check_budget : GatePolicy → Investigation → Verdict
check_budget policy v =
    check
      (leb v.llm_calls policy.max_llm_calls
        && leb v.attempted_tool_calls policy.max_tool_calls
        && leb v.output_tokens policy.max_output_tokens
        && leb v.wall_time_ms policy.max_wall_time_ms)
      investigation_budget_exceeded accepted

-- `valid_draft` is the contract's verdict; `proven` says whether `evaluate_rule` gives PROVEN for a
-- cause and the Evidence that supports it
module _ (valid_draft : Draft → Bool) (proven : Option String → List Evidence → Bool) where
  unfoldable pub supporting_items : DraftClaim → GateInput → List Evidence
  supporting_items root g = keep (λ e. mem e.evidence_id root.supporting_evidence_ids) g.evidence

  unfoldable pub check_root : GateInput → List DraftHypothesis → Option DraftClaim → Verdict
  check_root g hypotheses none = accepted
  check_root g [] (some root) = refused missing_hypothesis
  check_root g (leading ∷ hypotheses) (some root) =
      check (same_cause leading.claim.cause_id root.cause_id) root_leading_mismatch
        (check (proven root.cause_id (supporting_items root g)) proof_insufficient accepted)

  unfoldable pub validate : GatePolicy → GateInput → Investigation → Draft → Verdict
  validate policy g v d = check (valid_draft d) draft_contract_invalid (
      check (d.incident_id == g.context.incident_id) incident_mismatch (
        check (d.context_id == g.context.context_id) context_mismatch (
          next_check (check_citations d g v) (
            next_check (check_claims d g) (
              next_check (check_root g d.hypotheses d.root_cause) (
                next_check (check_decision policy g d d.decision d.root_cause)
                  (check_budget policy v)))))))
