-- ===== src/Gate/Storable.antt =====
-- From an accepted draft of src/incident_platform/agent_rca.py to a stored Report of
-- src/incident_platform/repository.py.
use agent_rca.Prelude.{
  String, ◌≡◌, refl, Bool, true, false, Option, none, some, List, arith, subset, subset_trans,
  Option-cases, inl, inr, eq_refl,
}
use agent_rca.Outcome.{ok}
use agent_rca.Dict.{lookup, has}
use agent_rca.Text.{is_blank}
use agent_rca.Documents.{Evidence, Context, Report, context_evidence_ids, report_evidence_ids}
use agent_rca.Runtime.{Runtime}
use agent_rca.Repository.{Repository, require_incident}
use agent_rca.Repository.Documents.{store_report}
use agent_rca.Repository.Step.{put_report}
use agent_rca.Gate.{
  Draft, GatePolicy, Investigation, GateInput, accepted, claims_of, cited_evidence,
}
use agent_rca.Gate.Validate.{validate, check_citations}

-- A new Report that the repository's checks, but for the one on citations, let pass.
pub record IsPublishable (rt : Runtime) (r : Repository) (c : Context) (p : Report)
    (markdown : String) : Type 0 where
  pub valid : rt.valid_report p ≡ true
  pub written : is_blank markdown ≡ false
  pub incident_known : has p.incident_id r.incidents ≡ true
  pub package_known : lookup p.context_id r.contexts ≡ some c
  pub same_incident : c.incident_id ≡ p.incident_id
  pub new_report : lookup p.report_id r.reports ≡ none

module _ (valid_draft : Draft → Bool) (proven : Option String → List Evidence → Bool)
    (policy : GatePolicy) (g : GateInput) (v : Investigation) (d : Draft) where
  citations_known :
      validate valid_draft proven policy g v d ≡ accepted
      → subset (cited_evidence (claims_of d)) (context_evidence_ids g.context) ≡ true
  unfolding validate check_citations
  citations_known h = ground arith

  stored_lem :
      (rt : Runtime) (r : Repository) (p : Report) (markdown : String)
      → IsPublishable rt r g.context p markdown
      → subset (report_evidence_ids p) g.context.evidence_ids ≡ true
      → store_report rt p markdown r ≡ (ok tt, put_report p markdown r)
  unfolding store_report require_incident
  stored_lem rt r p markdown h cites = elim (Option-cases (lookup p.incident_id r.incidents)) [
    | inl e ↦ absurd (ground (arith, h.incident_known))
    | inr (i, e) ↦
        rw
          (
            h.valid,
            h.written,
            e,
            h.package_known,
            h.same_incident,
            eq_refl p.incident_id,
            cites,
            h.new_report,
          )
          refl
  ]

  -- Where the frozen Context Package lists all the Evidence that it references, a new Report that
  -- cites only what an accepted draft cites, and is otherwise fit to be stored, is stored with its
  -- Markdown.
  pub accepted-store_report :
      (rt : Runtime) (r : Repository) (p : Report) (markdown : String)
      → validate valid_draft proven policy g v d ≡ accepted
      → subset (context_evidence_ids g.context) g.context.evidence_ids ≡ true
      → subset (report_evidence_ids p) (cited_evidence (claims_of d)) ≡ true
      → IsPublishable rt r g.context p markdown
      → store_report rt p markdown r ≡ (ok tt, put_report p markdown r)
  accepted-store_report rt r p markdown h lists cites fit = stored_lem rt r p markdown fit (
      subset_trans (report_evidence_ids p) (context_evidence_ids g.context) g.context.evidence_ids
        (subset_trans (report_evidence_ids p) (cited_evidence (claims_of d))
          (context_evidence_ids g.context) cites (citations_known h))
        lists)
