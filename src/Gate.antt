-- ===== src/Gate.antt =====
-- `EvidenceGate` of src/incident_platform/agent_rca.py: which drafts of the Agent are accepted. The
-- proof engine is an argument, as in the source; the validator's verdict on the draft's contract is
-- one too. Fields that the gate does not read are left out. A share, a number from 0 to 1, is given as a multiple of 2^-1074, as every float is one.
pub mod Validate
pub mod Accepted
pub mod Inspection
pub mod Proof
pub mod Storable
use agent_rca.Prelude.{
  ℕ, suc, String, ◌≡◌, Bool, true, false, Option, none, some, List, [], ◌∷◌, ◌++◌, ◌==◌, ◌&&◌, ◌||◌,
  not, leb, ltb, map, mem, subset, keep, length, if◌then◌else◌, String_discrete, holds, ite,
}
use agent_rca.Json.{Fields}
use agent_rca.Documents.{Evidence, Context, context_evidence_ids}

pub record DraftClaim : Type 0 where
  pub cause_id : Option String
  pub entity_id : String
  pub supporting_evidence_ids : List String
  pub contradicting_evidence_ids : List String
  pub reference_document_ids : List String

pub data HypothesisStatus : Type 0 where
  supported competing rejected unresolved : HypothesisStatus

pub record DraftHypothesis : Type 0 where
  pub rank : ℕ
  pub status : HypothesisStatus
  pub claim : DraftClaim

pub data Decision : Type 0 where
  conclusive partial_decision inconclusive : Decision

pub record Draft : Type 0 where
  pub incident_id : String
  pub context_id : String
  pub decision : Decision
  pub hypotheses : List DraftHypothesis
  pub root_cause : Option DraftClaim
  pub suggestions : List String

pub record GatePolicy : Type 0 where
  pub max_llm_calls : ℕ
  pub max_tool_calls : ℕ
  pub max_output_tokens : ℕ
  pub max_wall_time_ms : ℕ
  pub minimum_conclusive_evidence_channels : ℕ
  pub minimum_conclusive_context_completeness : ℕ

-- what the tool runtime and the model run have counted and shown
pub record Investigation : Type 0 where
  pub inspected_evidence_ids : List String
  pub inspected_reference_ids : List String
  pub attempted_tool_calls : ℕ
  pub llm_calls : ℕ
  pub output_tokens : ℕ
  pub wall_time_ms : ℕ

-- the rest of the gate's arguments, with the parts that it reads of the Context Package's localization
-- and of the investigation view
pub record GateInput : Type 0 where
  pub context : Context
  pub context_completeness : ℕ
  pub collector_failures : List Fields
  pub evidence : List Evidence
  pub available_references : List String
  pub entity_ids : List String

-- the reason codes, and the two built-in exceptions
pub data Reason : Type 0 where
  draft_contract_invalid incident_mismatch context_mismatch : Reason
  unknown_evidence_citation uninspected_evidence_citation : Reason
  unknown_reference_citation uninspected_reference_citation : Reason
  entity_out_of_scope hypothesis_rank_invalid hypothesis_support_missing : Reason
  root_leading_mismatch proof_insufficient conclusive_root_missing : Reason
  conclusive_support_missing contradicting_evidence channels_insufficient : Reason
  context_incomplete conclusive_collector_failure rootless_remediation : Reason
  investigation_budget_exceeded missing_channel missing_hypothesis : Reason

pub data Verdict : Type 0 where
  accepted : Verdict
  refused : Reason → Verdict

-- `if not test: raise`, and the checks that follow
abbrev pub check : Bool → Reason → Verdict → Verdict
check true reason next = next
check false reason next = refused reason

-- a branch of the gate, and the checks that follow it
abbrev pub next_check : Verdict → Verdict → Verdict
next_check accepted next = next
next_check (refused reason) next = refused reason

abbrev pub is_none_left {ℓ} : {A : Type ℓ} → List A → Bool
is_none_left [] = true
is_none_left (x ∷ xs) = false

-- `claims`: the hypotheses, then the root cause
abbrev pub root_claims : Option DraftClaim → List DraftClaim
root_claims none = []
root_claims (some root) = root ∷ []

abbrev pub claims_of : Draft → List DraftClaim
claims_of d = map (λ h. h.claim) d.hypotheses ++ root_claims d.root_cause

-- `_draft_citations`, the order and repetitions of the sets' elements being those of the draft
unfoldable pub cited_evidence : List DraftClaim → List String
cited_evidence [] = []
cited_evidence (c ∷ cs) =
    c.supporting_evidence_ids ++ (c.contradicting_evidence_ids ++ cited_evidence cs)

unfoldable pub cited_references : List DraftClaim → List String
cited_references [] = []
cited_references (c ∷ cs) = c.reference_document_ids ++ cited_references cs

-- `ranks == list(range(first, ...))`
unfoldable pub are_ranked : ℕ → List DraftHypothesis → Bool
are_ranked first [] = true
are_ranked first (h ∷ hs) = leb first h.rank && leb h.rank first && are_ranked (suc first) hs

abbrev claims_support : HypothesisStatus → Bool
claims_support supported = true
claims_support competing = true
claims_support _ = false

-- `unsupported_hypothesis_statuses` is empty
unfoldable pub are_supported : List DraftHypothesis → Bool
are_supported [] = true
are_supported (h ∷ hs) =
    not (claims_support h.status && is_none_left h.claim.supporting_evidence_ids)
    && are_supported hs

abbrev pub same_cause : Option String → Option String → Bool
same_cause none none = true
same_cause (some a) (some b) = a == b
same_cause _ _ = false

-- `channel_by_id[id]`: the last item with the id
unfoldable pub channel_of : String → List Evidence → Option (String × String)
channel_of id [] = none
channel_of id (e ∷ es) = later (channel_of id es) (e.evidence_id == id) (e.source, e.kind)
  where
    later : Option (String × String) → Bool → String × String → Option (String × String)
    later (some channel) here channel' = some channel
    later none true channel' = some channel'
    later none false channel' = none

abbrev pub add_channel :
    Option (String × String) → Option (List (String × String)) → Option (List (String × String))
add_channel (some channel) (some channels) = some (channel ∷ channels)
add_channel _ _ = none

-- `none` is the KeyError of an id that no item has
unfoldable pub channels_of : List String → List Evidence → Option (List (String × String))
channels_of [] es = some []
channels_of (id ∷ ids) es = add_channel (channel_of id es) (channels_of ids es)

abbrev same_channel : String × String → String × String → Bool
same_channel (a, b) (c, d) = a == c && b == d

abbrev has_channel : String × String → List (String × String) → Bool
has_channel channel [] = false
has_channel channel (c ∷ cs) = same_channel channel c || has_channel channel cs

-- `len(set(channels))`
unfoldable pub count_distinct : List (String × String) → ℕ
count_distinct [] = 0
count_distinct (c ∷ cs) =
    let rest = count_distinct cs in if has_channel c cs then rest else suc rest
