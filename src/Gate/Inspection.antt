-- ===== src/Gate/Inspection.antt =====
-- The gate at more inspection and smaller counts.
use agent_rca.Prelude.{String, ◌≡◌, Bool, true, Option, List, ◌≤◌, subset, subset_trans, arith}
use agent_rca.Documents.{Evidence}
use agent_rca.Gate.{
  Draft, GatePolicy, Investigation, GateInput, accepted, claims_of, cited_evidence,
  cited_references,
}
use agent_rca.Gate.Validate.{validate, check_citations, check_budget}

-- An investigation that showed no less and spent no more.
pub record IsBetter (v w : Investigation) : Type 0 where
  pub evidence : subset v.inspected_evidence_ids w.inspected_evidence_ids ≡ true
  pub references : subset v.inspected_reference_ids w.inspected_reference_ids ≡ true
  pub tool_calls : w.attempted_tool_calls ≤ v.attempted_tool_calls
  pub llm_calls : w.llm_calls ≤ v.llm_calls
  pub output_tokens : w.output_tokens ≤ v.output_tokens
  pub wall_time_ms : w.wall_time_ms ≤ v.wall_time_ms

module _ (g : GateInput) (v w : Investigation) (better : IsBetter v w) where
  citations_better :
      (d : Draft) → check_citations d g v ≡ accepted → check_citations d g w ≡ accepted
  unfolding check_citations
  citations_better d h = ground (
    arith,
    subset_trans (cited_evidence (claims_of d)) v.inspected_evidence_ids w.inspected_evidence_ids,
    subset_trans (cited_references (claims_of d)) v.inspected_reference_ids
        w.inspected_reference_ids,
    better.evidence,
    better.references,
  )

  budget_better :
      (policy : GatePolicy) → check_budget policy v ≡ accepted → check_budget policy w ≡ accepted
  unfolding check_budget
  budget_better policy h =
      ground (arith, better.tool_calls, better.llm_calls, better.output_tokens, better.wall_time_ms)

  -- A draft that the gate accepts after one investigation is accepted after any other that has
  -- inspected at least the same Evidence and references and spent no more of any budget.
  pub accepted_better :
      (valid_draft : Draft → Bool) (proven : Option String → List Evidence → Bool)
      (policy : GatePolicy) (d : Draft)
      → validate valid_draft proven policy g v d ≡ accepted
      → validate valid_draft proven policy g w d ≡ accepted
  unfolding validate
  accepted_better valid_draft proven policy d h =
      ground (arith, citations_better d, budget_better policy)
