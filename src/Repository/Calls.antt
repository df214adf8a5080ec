-- ===== src/Repository/Calls.antt =====
-- Clients of src/incident_platform/repository.py: any sequence of calls of its methods, each of which
-- may raise.
use agent_rca.Prelude.{String, ◌≡◌, true, some, List, [], ◌∷◌, All}
use agent_rca.Time.{DateTime}
use agent_rca.Dict.{lookup}
use agent_rca.Incident.{Incident, Status, CollectorStatus}
use agent_rca.Documents.{Evidence, Context, Report, AgentRun, Selection, Span}
use agent_rca.Runtime.{Runtime}
use agent_rca.Repository.{
  Repository, empty, audit_of, create_or_get_by_deduplication_key, transition,
  replace_collector_statuses, record_alert_resolution,
}
use agent_rca.Repository.Documents.{store_evidence, store_context, store_report, store_agent_run}
use agent_rca.Repository.Localization.{store_localization_collection}
use agent_rca.Repository.Step.{Steps, done, Steps-trans, fresh, live}
use agent_rca.Repository.Step.Index.{IsIndexed, Steps-IsIndexed, empty-IsIndexed}
use agent_rca.Repository.Step.Trail.{Steps-IsReplayed, empty-IsReplayed, replay}
use agent_rca.Repository.Step.Permanence.{Keeps, Steps-Keeps}
use agent_rca.Repository.Step.Citations.{IsCited, Steps-IsCited, empty-IsCited}
use agent_rca.Repository.Transitions.{transition-Steps}
use agent_rca.Repository.Updates.{replace-Steps, resolution-Steps}
use agent_rca.Repository.Creation.{create-Steps}
use agent_rca.Repository.Storing.{
  store_evidence-Steps, store_context-Steps, store_report-Steps, store_agent_run-Steps,
}
use agent_rca.Repository.Supplement.{store_localization-Steps}

pub data Call : Type 0 where
  create : Incident → DateTime → Call
  move : String → Status → Status → DateTime → Call
  replace : String → List CollectorStatus → DateTime → Call
  resolve : String → String → DateTime → Call
  gather : String → List Evidence → Call
  supplement : String → Selection → Span → List CollectorStatus → List Evidence → DateTime → Call
  freeze : Context → Call
  publish : Report → String → Call
  audit : AgentRun → Call

-- Creation is given a time with a timezone, as `AlertmanagerIngestionService` does.
abbrev pub IsTimed : Call → Type 0
IsTimed (create i now) = now.aware ≡ true
IsTimed _ = Unit

module _ (rt : Runtime) where
  unfoldable pub apply : Call → Repository → Repository
  apply (create i now) r = (create_or_get_by_deduplication_key rt i now r).1
  apply (move id expected next now) r = (transition rt id expected next now r).1
  apply (replace id statuses now) r = (replace_collector_statuses rt id statuses now r).1
  apply (resolve id incident_end now) r = (record_alert_resolution rt id incident_end now r).1
  apply (gather id items) r = (store_evidence rt id items r).1
  apply (supplement id selection window statuses items now) r =
      (store_localization_collection rt id selection window statuses items now r).1
  apply (freeze c) r = (store_context rt c r).1
  apply (publish p markdown) r = (store_report rt p markdown r).1
  apply (audit a) r = (store_agent_run rt a r).1

  unfoldable pub run : List Call → Repository → Repository
  unfolding apply
  run [] r = r
  run (c ∷ cs) r = run cs (apply c r)

  apply-Steps : (c : Call) (r : Repository) → IsTimed c → IsIndexed r → Steps r (apply c r)
  unfolding apply
  apply-Steps (create i now) r t h = create-Steps rt i now r t
  apply-Steps (move id expected next now) r t h = transition-Steps rt id expected next now r
  apply-Steps (replace id statuses now) r t h = replace-Steps rt id statuses now r
  apply-Steps (resolve id incident_end now) r t h = resolution-Steps rt id incident_end now r
  apply-Steps (gather id items) r t h = store_evidence-Steps rt id items r
  apply-Steps (supplement id selection window statuses items now) r t h =
      store_localization-Steps rt id selection window statuses items now r h
  apply-Steps (freeze c) r t h = store_context-Steps rt c r
  apply-Steps (publish p markdown) r t h = store_report-Steps rt p markdown r
  apply-Steps (audit a) r t h = store_agent_run-Steps rt a r

  pub run-Steps :
      (cs : List Call) (r : Repository) → All IsTimed cs → IsIndexed r → Steps r (run cs r)
  unfolding run
  run-Steps [] r t h = done
  run-Steps (c ∷ cs) r t h =
      let p = apply-Steps c r t.0 h in
      Steps-trans p (run-Steps cs (apply c r) t.1 (Steps-IsIndexed p h))

  module _ (cs : List Call) (timed : All IsTimed cs) where
    abbrev reached : Repository
    reached = run cs empty

    -- After any calls that give creation a time with a timezone: every incident stands at its own id,
    -- deduplication keys and incidents are in one-to-one correspondence, and exactly the incidents
    -- have rows of audit events and of Evidence.
    pub run-IsIndexed : IsIndexed reached
    run-IsIndexed = Steps-IsIndexed (run-Steps cs empty timed empty-IsIndexed) empty-IsIndexed

    -- After any calls that give creation a time with a timezone, the audit trail of each incident is
    -- a legal sequence, from its creation through allowed transitions, that ends in its status.
    pub run-IsReplayed :
        (id : String) (i : Incident)
        → lookup id reached.incidents ≡ some i
        → replay fresh (audit_of id reached) ≡ live i.status
    run-IsReplayed =
        (Steps-IsReplayed (run-Steps cs empty timed empty-IsIndexed) empty-IsReplayed).at

    -- After any calls that give creation a time with a timezone: Evidence stands under its own id and
    -- incident; a Context Package is of a known incident and all the Evidence that it references is
    -- stored there; a Report or an Agent Run names a stored Context Package of its own incident; and
    -- a Report cites only Evidence of that package.
    pub run-IsCited : IsCited reached
    run-IsCited =
        Steps-IsCited (run-Steps cs empty timed empty-IsIndexed) empty-IsIndexed empty-IsCited

  -- From a state reached by calls that give creation a time with a timezone, further such calls keep
  -- every stored Evidence item, Context Package, Report and Agent Run: under its id stands a document
  -- that is equal to it as Python's `==` compares documents, which tells neither the order of an
  -- object's fields nor 1, 1.0 and `True` apart. Every incident stays known.
  pub run-Keeps :
      (cs ds : List Call)
      → All IsTimed cs
      → All IsTimed ds
      → Keeps (run cs empty) (run ds (run cs empty))
  run-Keeps cs ds t u =
      Steps-Keeps (run-Steps ds (run cs empty) u (run-IsIndexed cs t)) (run-IsIndexed cs t)
