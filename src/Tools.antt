-- ===== src/Tools.antt =====
-- `AgentToolRuntime` of src/incident_platform/agent_rca.py: the Agent's two read-only tools and their
-- budget. A method changes the runtime and returns a text, here the value that the text is the JSON
-- of. `hash` is SHA-256 of that JSON.
pub mod Bounds
use agent_rca.Prelude.{
  ℕ, suc, ◌+◌, String, Bool, true, false, Option, none, some, List, [], ◌∷◌, ◌++◌, ◌==◌, leb,
  length, mem, if◌then◌else◌,
}
use agent_rca.Json.{Json, obj, Fields, end, field}
use agent_rca.Dict.{Dict, lookup}

pub data ToolStatus : Type 0 where
  succeeded denied not_found : ToolStatus

pub data Tool : Type 0 where
  evidence_tool reference_tool : Tool

pub data Answer : Type 0 where
  budget_exhausted : Answer
  answered : ToolStatus → Fields → Answer

pub record ToolEvent : Type 0 where
  pub sequence : ℕ
  pub tool_name : Tool
  pub requested_id : String
  pub status : ToolStatus
  pub result_hash : String

pub record ToolRuntime : Type 0 where
  pub context_evidence_ids : List String
  pub evidence_by_id : Dict Fields
  pub reference_by_id : Dict Fields
  pub max_tool_calls : ℕ
  pub evidence_id_by_candidate_ref : Dict String
  pub tool_events : List ToolEvent
  pub inspected_evidence_ids : List String
  pub inspected_reference_ids : List String
  pub attempted_tool_calls : ℕ

-- a new runtime, with the defaults of the fields
unfoldable pub new_runtime : List String → Dict Fields → Dict Fields → ℕ → Dict String → ToolRuntime
new_runtime context_evidence_ids evidence_by_id reference_by_id max_tool_calls candidates = record {
  context_evidence_ids = context_evidence_ids;
  evidence_by_id = evidence_by_id;
  reference_by_id = reference_by_id;
  max_tool_calls = max_tool_calls;
  evidence_id_by_candidate_ref = candidates;
  tool_events = [];
  inspected_evidence_ids = [];
  inspected_reference_ids = [];
  attempted_tool_calls = 0;
}

-- `pop(key, None)`
unfoldable pub without : String → Fields → Fields
without key end = end
without key (field k v rest) =
    let others = without key rest in if k == key then others else field k v others

abbrev without_hash : Bool → Json → Json
unfolding without
without_hash true (obj provenance) = obj (without "content_hash" provenance)
without_hash _ value = value

-- `_model_evidence_payload`
unfoldable pub model_evidence_payload : Fields → Fields
unfolding without_hash
model_evidence_payload end = end
model_evidence_payload (field k v rest) =
    field k (without_hash (k == "provenance") v) (model_evidence_payload rest)

-- what both methods for Evidence and the one for references start with
abbrev pub attempt : ToolRuntime → ToolRuntime
attempt t = record t { attempted_tool_calls = suc t.attempted_tool_calls }

module _ (hash : Answer → String) where
  abbrev pub event : Tool → String → ToolStatus → Fields → ToolRuntime → ToolEvent
  event tool requested status payload t = record {
    sequence = length t.tool_events + 1;
    tool_name = tool;
    requested_id = requested;
    status = status;
    result_hash = hash (answered status payload);
  }

  abbrev pub with_event : Tool → String → ToolStatus → Fields → ToolRuntime → ToolRuntime
  with_event tool requested status payload t = record t {
    tool_events = t.tool_events ++ event tool requested status payload t ∷ [];
  }

  -- `_record`
  unfoldable pub record_event :
      Tool → String → ToolStatus → Fields → ToolRuntime → Answer × ToolRuntime
  record_event tool requested status payload t =
      if leb t.max_tool_calls (length t.tool_events)
      then (budget_exhausted, t)
      else (answered status payload, with_event tool requested status payload t)

  -- an Evidence item that the run may see, under the id or the reference asked for
  unfoldable pub show_evidence :
      String → String → Option Fields → ToolRuntime → Answer × ToolRuntime
  show_evidence requested id none t = record_event evidence_tool requested not_found end t
  show_evidence requested id (some item) t =
      record_event evidence_tool requested succeeded (model_evidence_payload item)
        (record t { inspected_evidence_ids = id ∷ t.inspected_evidence_ids })

  unfoldable pub look_up_evidence : String → Option String → ToolRuntime → Answer × ToolRuntime
  look_up_evidence requested none t = record_event evidence_tool requested denied end t
  look_up_evidence requested (some id) t =
      if mem id t.context_evidence_ids
      then show_evidence requested id (lookup id t.evidence_by_id) t
      else record_event evidence_tool requested denied end t

  unfoldable pub show_reference : String → Option Fields → ToolRuntime → Answer × ToolRuntime
  show_reference id none t = record_event reference_tool id denied end t
  show_reference id (some item) t =
      record_event reference_tool id succeeded item
        (record t { inspected_reference_ids = id ∷ t.inspected_reference_ids })

  -- `attempted_tool_calls > max_tool_calls`, and what follows it
  abbrev pub budgeted : Answer × ToolRuntime → ToolRuntime → Answer × ToolRuntime
  budgeted next t =
      if leb t.attempted_tool_calls t.max_tool_calls then next else (budget_exhausted, t)

  unfoldable pub inspect_candidate : String → ToolRuntime → Answer × ToolRuntime
  inspect_candidate candidate_ref t =
      budgeted
        (look_up_evidence candidate_ref (lookup candidate_ref t.evidence_id_by_candidate_ref)
          (attempt t))
        (attempt t)

  unfoldable pub inspect_evidence : String → ToolRuntime → Answer × ToolRuntime
  inspect_evidence id t = budgeted (look_up_evidence id (some id) (attempt t)) (attempt t)

  unfoldable pub inspect_reference : String → ToolRuntime → Answer × ToolRuntime
  inspect_reference id t =
      budgeted (show_reference id (lookup id t.reference_by_id) (attempt t)) (attempt t)

-- what the Agent asks for
pub data ToolRequest : Type 0 where
  candidate evidence reference : String → ToolRequest

module _ (hash : Answer → String) where
  unfoldable pub use_tool : ToolRequest → ToolRuntime → Answer × ToolRuntime
  use_tool (candidate ref) t = inspect_candidate hash ref t
  use_tool (evidence id) t = inspect_evidence hash id t
  use_tool (reference id) t = inspect_reference hash id t

  unfoldable pub use_tools : List ToolRequest → ToolRuntime → ToolRuntime
  use_tools [] t = t
  use_tools (r ∷ rs) t = use_tools rs (use_tool r t).1
