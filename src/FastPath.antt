-- ===== src/FastPath.antt =====
-- `IncidentFastPathService` of src/incident_platform/fast_path.py: from stored Evidence to a Report with
-- the deterministic engine, over the repository. The engine's rules and the report builder are
-- arguments, as in the source. `now` is `generated_at`, or the clock's reading where that is left out.
pub mod Settled
use agent_rca.Prelude.{String, Bool, List}
use agent_rca.Outcome.{
  Error, Result, ok, err, value_error, invalid_transition, Method, pure, lift, require, proceed,
  ◌>>=◌, ◌>>◌,
}
use agent_rca.Time.{DateTime}
use agent_rca.Incident.{Incident, localizing, analyzing, reported, failed, same_status}
use agent_rca.Documents.{Evidence, Context, Report}
use agent_rca.Runtime.{Runtime}
use agent_rca.Repository.{Repository, Repo, get_incident, transition}
use agent_rca.Repository.Documents.{list_evidence, store_context, store_report}
use agent_rca.Deterministic.Engine.{Rule, DeterministicDecision, evaluate}

pub record FastPathArtifacts : Type 0 where
  pub context : Context
  pub report : Report
  pub markdown : String

pub record FastPathRun : Type 0 where
  pub decision : DeterministicDecision
  pub artifacts : FastPathArtifacts
  pub incident : Incident

abbrev pub Builder : Type 0
Builder = Incident → List Evidence → DeterministicDecision → DateTime → Result FastPathArtifacts

module _ (rt : Runtime) where
  -- `_mark_failed_without_masking`
  unfoldable pub mark_failed : String → DateTime → Repository → Repository
  mark_failed id now r = (transition rt id analyzing failed now r).1

  -- the `except` block
  abbrev pub or_mark_failed :
      String → DateTime → Result FastPathRun × Repository → Result FastPathRun × Repository
  or_mark_failed id now (ok run, r) = (ok run, r)
  or_mark_failed id now (err e, r) = (err e, mark_failed id now r)

module _ (rt : Runtime) (rules : List Rule) (build : Builder) where
  -- the `try` block
  unfoldable pub analyze : String → Incident → DateTime → Repo FastPathRun
  analyze id incident now = do
    evidence ← list_evidence id
    decision ← lift (evaluate rt rules evidence)
    artifacts ← lift (build incident evidence decision now)
    store_context rt artifacts.context
    store_report rt artifacts.report artifacts.markdown
    final ← transition rt id analyzing reported now
    pure (record { decision = decision; artifacts = artifacts; incident = final })

  unfoldable pub run_fast_path : String → DateTime → Repo FastPathRun
  run_fast_path id now = do
    require now.aware value_error
    incident ← get_incident id
    require (same_status incident.status localizing) invalid_transition
    current ← transition rt id localizing analyzing now
    (λ r. or_mark_failed rt id now (analyze id current now r))
