-- ===== src/Incident/Names.antt =====
-- The texts of the enumerations, by contracts/schemas/incident.schema.json.
use agent_rca.Prelude.{String}
use agent_rca.Incident.{
  Status, received, collecting, localizing, analyzing, reported, partial, failed, Severity, info,
  warning, critical,
}

abbrev pub status_name : Status → String
status_name received = "RECEIVED"
status_name collecting = "COLLECTING"
status_name localizing = "LOCALIZING"
status_name analyzing = "ANALYZING"
status_name reported = "REPORTED"
status_name partial = "PARTIAL"
status_name failed = "FAILED"

abbrev pub severity_name : Severity → String
severity_name info = "info"
severity_name warning = "warning"
severity_name critical = "critical"
