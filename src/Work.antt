-- ===== src/Work.antt =====
-- The durable work queues of src/incident_platform/incident_work.py: items, claims, and what the three
-- in-memory queues share. A queue works on the Incident repository beside its items, so the state of
-- a method is both; the lock is held through each method.
pub mod Collection
pub mod Localization
pub mod Analysis
pub mod Step
pub mod Fencing
pub mod Calls
use Prim.Native.String.{◌++◌ as append_text}
use agent_rca.Prelude.{
  ℕ, ◌+◌, ◌*◌, String, Bool, true, false, Option, none, some, List, [], ◌∷◌, ◌==◌, ◌&&◌, ◌||◌, not,
  ltb, leb, starts_with, if◌then◌else◌,
}
use agent_rca.Outcome.{Error, Result, ok, err, value_error, invalid_transition, Method}
use agent_rca.Outcome.Checked.{guard, ◌>>=◌, ◌>>◌}
use agent_rca.Time.{DateTime, at_most, after}
use agent_rca.Text.{is_worker_id, is_incident_id}
use agent_rca.Sort.{sort_by, text_le}
use agent_rca.Dict.{Dict, lookup, insert, is_some}
use agent_rca.Incident.{Incident}
use agent_rca.Repository.{Repository, Repo}

pub data WorkState : Type 0 where
  ready running succeeded failed : WorkState

-- `context_id` is the key that only the analysis queue's items have, the empty text elsewhere.
pub record WorkItem : Type 0 where
  pub context_id : String
  pub state : WorkState
  pub available_at : DateTime
  pub claim_token : Option String
  pub worker_id : Option String
  pub lease_expires_at : Option DateTime
  pub attempt_count : ℕ
  pub error_code : Option String

-- `IncidentWorkClaim`, and with its `context_id` `IncidentAnalysisWorkClaim`
pub record Claim : Type 0 where
  pub incident_id : String
  pub context_id : String
  pub claim_token : String
  pub worker_id : String
  pub lease_expires_at : DateTime
  pub attempt_count : ℕ
  pub incident : Incident

pub record Queue : Type 0 where
  pub repository : Repository
  pub items : Dict WorkItem

abbrev pub Work : Type 0 → Type 0
Work = Method Queue

-- a call of `self._incidents`
abbrev pub on_repository : {A : Type 0} → Repo A → Work A
on_repository m q = let (result, r) = m q.repository in (result, record q { repository = r })

abbrev pub put_item : String → WorkItem → Queue → Queue
put_item id item q = record q { items = insert id item q.items }

-- durations in microseconds
abbrev pub seconds : ℕ → ℕ
seconds n = n * 1000000

unfoldable pub validate_claim_request : String → DateTime → ℕ → ℕ → Result (Unit {0})
validate_claim_request worker_id now lease_duration max_attempts = do
  guard (is_worker_id worker_id) value_error
  guard now.aware value_error
  guard (leb (seconds 10) lease_duration && leb lease_duration (seconds 1800)) value_error
  guard (leb 1 max_attempts && leb max_attempts 10) value_error

unfoldable pub validate_incident_id : String → Result (Unit {0})
validate_incident_id id = guard (is_incident_id id) value_error

-- `__post_init__` of `IncidentWorkClaim`
unfoldable pub make_claim : Claim → Result Claim
make_claim c = do
  guard (not (c.incident_id == "") && c.incident.incident_id == c.incident_id) value_error
  guard (starts_with c.claim_token "claim-") value_error
  guard (is_worker_id c.worker_id) value_error
  guard c.lease_expires_at.aware value_error
  guard (ltb 0 c.attempt_count) value_error
  ok c

-- `__post_init__` of `IncidentAnalysisWorkClaim`
unfoldable pub make_analysis_claim : Claim → Result Claim
make_analysis_claim c = do
  guard (not (c.incident_id == "") && c.incident.incident_id == c.incident_id) value_error
  guard (starts_with c.context_id "ctx-") value_error
  guard (starts_with c.claim_token "claim-") value_error
  guard (is_worker_id c.worker_id) value_error
  guard c.lease_expires_at.aware value_error
  guard (ltb 0 c.attempt_count) value_error
  ok c

-- a new item of `enqueue`
abbrev pub new_item : String → DateTime → WorkItem
new_item context_id available_at = record {
  context_id = context_id;
  state = ready;
  available_at = available_at;
  claim_token = none;
  worker_id = none;
  lease_expires_at = none;
  attempt_count = 0;
  error_code = none;
}

-- `items.setdefault(incident_id, item)`
abbrev pub set_default : String → WorkItem → Queue → Queue
set_default id item q = if is_some (lookup id q.items) then q else put_item id item q

abbrev pub is_ready_state : WorkState → Bool
is_ready_state ready = true
is_ready_state _ = false

abbrev pub is_running : WorkState → Bool
is_running running = true
is_running _ = false

-- `item["lease_expires_at"] <= now`; a RUNNING item has a lease (Work/Fencing)
abbrev pub lease_passed : Option DateTime → DateTime → Bool
lease_passed none now = false
lease_passed (some t) now = at_most t now

-- the two tests of each claim loop
unfoldable pub is_ready : WorkItem → DateTime → Bool
is_ready item now = is_ready_state item.state && at_most item.available_at now

unfoldable pub is_expired : WorkItem → DateTime → ℕ → Bool
is_expired item now max_attempts =
    is_running item.state
    && lease_passed item.lease_expires_at now
    && ltb item.attempt_count max_attempts

-- `f"claim-{uuid.uuid4().hex}"`, from the drawn hexadecimal text
unfoldable pub token_of : String → String
token_of hex = append_text "claim-" hex

-- `item.update` of each claim
abbrev pub start_item : WorkItem → String → String → DateTime → ℕ → WorkItem
start_item item hex worker_id now lease_duration = record item {
  state = running;
  claim_token = some (token_of hex);
  worker_id = some worker_id;
  lease_expires_at = some (after now lease_duration);
  attempt_count = item.attempt_count + 1;
}

-- the claim that each queue returns for an item that it has just started
abbrev pub claim_of : String → WorkItem → String → String → DateTime → ℕ → Incident → Claim
claim_of id item hex worker_id now lease_duration incident = record {
  incident_id = id;
  context_id = item.context_id;
  claim_token = token_of hex;
  worker_id = worker_id;
  lease_expires_at = after now lease_duration;
  attempt_count = item.attempt_count + 1;
  incident = incident;
}

-- `sorted(items, key=(available_at, incident_id))`
abbrev earlier : String × WorkItem → String × WorkItem → Bool
earlier (i, a) (j, b) =
    if ltb a.available_at.instant b.available_at.instant
    then true
    else leb a.available_at.instant b.available_at.instant && text_le i j

unfoldable pub in_order : Dict WorkItem → List (String × WorkItem)
in_order items = sort_by earlier items

abbrev text_is : Option String → String → Bool
text_is none t = false
text_is (some s) t = s == t

-- the item of a claim that is still the current one: `_current_item`, without the Context test
abbrev pub is_current : Claim → WorkItem → Bool
is_current c item =
    is_running item.state
    && text_is item.claim_token c.claim_token
    && text_is item.worker_id c.worker_id

abbrev current_or_stale : Claim → Option WorkItem → Result WorkItem
current_or_stale c none = err invalid_transition
current_or_stale c (some item) = if is_current c item then ok item else err invalid_transition

-- `_current_item` of the collection and the localization queue
unfoldable pub current_item : Claim → Work WorkItem
current_item c q = (current_or_stale c (lookup c.incident_id q.items), q)

-- a finished item: `state`, no lease, and the error code where the source writes one
abbrev pub finish_item : WorkItem → WorkState → WorkItem
finish_item item state = record item { state = state; lease_expires_at = none }
