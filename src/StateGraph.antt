-- ===== src/StateGraph.antt =====
-- src/incident_platform/stategraph.py: the records of the temporal StateGraph, their identities and
-- their validation, and the state of InMemoryStateGraphRepository. A history is kept latest first, so
-- that the source's `history[-1]` is its head. Objects are compared up to the order of their keys.
pub mod Validate
pub mod Write
pub mod Entities
pub mod Timeline
pub mod Snapshots
pub mod Relations
pub mod Temporal
pub mod Kept
pub mod Plan
pub mod Reconcile
pub mod Gone
pub mod Retired
pub mod Reconciled
pub mod Paths
pub mod Find
use agent_rca.Prelude.{ℕ, String, Bool, Option, List, []}
use agent_rca.Outcome.{Method}
use agent_rca.Dict.{Dict}
use agent_rca.Json.{Fields}
use agent_rca.Runtime.{Runtime}

-- `EntityIdentity`
pub record EntityIdentity : Type 0 where
  pub version : String
  pub identity_type : String
  pub domain : String
  pub keys : Fields

pub record Entity : Type 0 where
  pub entity_id : String
  pub identity : EntityIdentity
  pub entity_type : String
  pub domain : String
  pub name : String
  pub scope : Fields
  pub external_ref : Option String
  pub exists : Bool
  pub first_seen_at : String
  pub last_seen_at : String
  pub evidence_ids : List String

pub record Snapshot : Type 0 where
  pub snapshot_id : String
  pub entity_id : String
  pub observed_at : String
  pub valid_from : String
  pub valid_to : Option String
  pub state_hash : String
  pub state : Fields
  pub evidence_ids : List String

pub record Relation : Type 0 where
  pub relation_id : String
  pub relation_key : String
  pub source_entity_id : String
  pub relation_type : String
  pub destination_entity_id : String
  pub reference_key : String
  pub projector : String
  pub observed_at : String
  pub valid_from : String
  pub valid_to : Option String
  pub evidence_ids : List String

pub record GraphEvent : Type 0 where
  pub event_id : String
  pub entity_id : String
  pub event_type : String
  pub first_seen_at : String
  pub last_seen_at : String
  pub count : ℕ
  pub attributes : Fields
  pub evidence_ids : List String

-- by `record_type`
pub data GraphRecord : Type 0 where
  of_entity : Entity → GraphRecord
  of_snapshot : Snapshot → GraphRecord
  of_relation : Relation → GraphRecord
  of_event : GraphEvent → GraphRecord

-- What the StateGraph takes from outside besides: `str.lower`, the two patterns for inline secrets, and
-- the validator's verdict on the graph-record contract.
pub record GraphRuntime : Type 0 where
  pub runtime : Runtime
  pub lower : String → String
  pub has_secret : String → Bool
  pub valid_record : GraphRecord → Bool

pub record StateGraph : Type 0 where
  pub entities : Dict Entity
  pub snapshots_by_entity : Dict (List Snapshot)
  pub relations_by_key : Dict (List Relation)
  pub events : Dict GraphEvent

abbrev pub no_graph : StateGraph
no_graph = record { entities = []; snapshots_by_entity = []; relations_by_key = []; events = [] }

abbrev pub Graph : Type 0 → Type 0
Graph = Method StateGraph
