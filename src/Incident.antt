-- ===== src/Incident.antt =====
-- The Incident document: src/incident_platform/incidents.py builds it, contracts/schemas/
-- incident.schema.json and entity-ref.schema.json give its fields, and repository.py its lifecycle.
-- Timestamps are the texts that the document holds.
pub mod Names
use agent_rca.Prelude.{ℕ, String, Bool, true, false, Option, none, some, List, ite}
use agent_rca.Json.{Fields, get, Json}
use agent_rca.Dict.{Dict}

pub data Status : Type 0 where
  received collecting localizing analyzing reported partial failed : Status

unfoldable pub Status-discrete : Discrete Status
Status-discrete = hlevel

pub data Severity : Type 0 where
  info warning critical : Severity

pub Severity-discrete : Discrete Severity
Severity-discrete = hlevel

-- The keys of `ALLOWED_TRANSITIONS` with their sets of successors.
unfoldable pub allowed : Status → Status → Bool
allowed received collecting = true
allowed received failed = true
allowed collecting localizing = true
allowed collecting partial = true
allowed collecting failed = true
allowed localizing analyzing = true
allowed localizing partial = true
allowed localizing failed = true
allowed analyzing reported = true
allowed analyzing partial = true
allowed analyzing failed = true
allowed _ _ = false

pub record KubernetesEntity : Type 0 where
  pub cluster_id : Option String
  pub api_version : Option String
  pub kind : String
  pub namespace : Option String
  pub name : String
  pub uid : Option String
  pub exists : Bool

pub record GraphEntity : Type 0 where
  pub entity_id : String
  pub entity_type : String
  pub domain : String
  pub name : String
  pub scope : Fields
  pub external_ref : Option String
  pub exists : Bool

pub data EntityRef : Type 0 where
  kubernetes : KubernetesEntity → EntityRef
  graph : GraphEntity → EntityRef

abbrev pub entity_name : EntityRef → String
entity_name (kubernetes e) = e.name
entity_name (graph e) = e.name

pub data CollectorState : Type 0 where
  pending running succeeded partial failed timed_out skipped : CollectorState

pub CollectorState-discrete : Discrete CollectorState
CollectorState-discrete = hlevel

pub record CollectorStatus : Type 0 where
  pub collector : String
  pub status : CollectorState
  pub attempts : ℕ
  pub started_at : Option String
  pub ended_at : Option String
  pub error : Option String

pub record IncidentWindow : Type 0 where
  pub baseline_start : String
  pub incident_start : String
  pub incident_end : Option String
  pub recovery_end : Option String

pub record Alert : Type 0 where
  pub fingerprint : String
  pub name : String
  pub labels : Dict String
  pub annotations : Dict String

pub record Incident : Type 0 where
  pub schema_version : String
  pub incident_id : String
  pub deduplication_key : String
  pub status : Status
  pub severity : Severity
  pub source : String
  pub triggered_at : String
  pub window : IncidentWindow
  pub alert : Alert
  pub source_entity : EntityRef
  pub collector_statuses : List CollectorStatus
  pub created_at : String
  pub updated_at : String

abbrev pub same_status : Status → Status → Bool
same_status a b = ite (Status-discrete a b) true false

-- the value of a key, if it is a text
abbrev pub text_of : Option Json → Option String
text_of (some (Json.text s)) = some s
text_of _ = none

abbrev namespace_of : EntityRef → Option String
namespace_of (kubernetes e) = e.namespace
namespace_of (graph e) = text_of (get "namespace" e.scope)

-- `_incident_namespace`; the schema makes `namespace` a required key of a Kubernetes entity and of no
-- other, and `scope` a mapping
unfoldable pub incident_namespace : Incident → Option String
incident_namespace i = namespace_of i.source_entity
