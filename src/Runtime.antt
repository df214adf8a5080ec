-- ===== src/Runtime.antt =====
-- What the program takes from outside the repository: the rendering and the parsing of timestamps by
-- Python's `datetime`, and the verdicts of the `jsonschema` validator on the contracts.
use agent_rca.Prelude.{ℕ, String, Bool, Option, none, some, if◌then◌else◌}
use agent_rca.Outcome.{Result, ok, err, value_error, contract_violation}
use agent_rca.Time.{DateTime}
use agent_rca.Json.{Json}
use agent_rca.Incident.{Incident}
use agent_rca.Documents.{Evidence, Context, Report, AgentRun}

pub record Runtime : Type 0 where
  -- `isoformat(timespec="seconds")` of an instant in UTC, ending in "Z"
  pub render : ℕ → String
  -- `datetime.fromisoformat` on the text with "Z" replaced by "+00:00"; `none` is its ValueError
  pub parse : String → Option DateTime
  -- `_redact_string` of evidence.py: the two patterns for inline secrets, by `re.subn`
  pub redact_text : String → String
  -- `str.casefold`
  pub casefold : String → String
  -- `sha256(json.dumps(value, ensure_ascii=True, separators=(",", ":")))`, as hexadecimal digits
  pub digest : Json → String
  -- a float that is not whole, by its text: `value >= threshold`, and `value == 0`
  pub decimal_at_least : String → ℕ → Bool
  pub decimal_is_zero : String → Bool
  -- whether `validate_contract` returns, for each schema
  pub valid_incident : Incident → Bool
  pub valid_evidence : Evidence → Bool
  pub valid_context : Context → Bool
  pub valid_report : Report → Bool
  pub valid_agent_run : AgentRun → Bool

-- `_format_time` of repository.py, which raises `ValueError` without a timezone
unfoldable pub format_time : Runtime → DateTime → Result String
format_time rt t = if t.aware then ok (rt.render t.instant) else err value_error

-- `format_time` of evidence.py, which raises `ContractViolation`
unfoldable pub format_evidence_time : Runtime → DateTime → Result String
format_evidence_time rt t = if t.aware then ok (rt.render t.instant) else err contract_violation

-- `parse_time` of evidence.py
unfoldable pub parse_time : Runtime → String → Result DateTime
parse_time rt s = elim (rt.parse s) [
  | none ↦ err contract_violation
  | some t ↦ if t.aware then ok t else err contract_violation
]
