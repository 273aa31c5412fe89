-- ===== src/Poam/Names.antt =====
-- The words of the string unions, as template literals and payloads print them.
use ai_devsecops_command_cen.Common.{String}
use ai_devsecops_command_cen.Poam.Types.{
  Framework, cis_v8, nist_800_53, soc2, iso_27001, PoamSeverity, PoamStatus, opened, in_progress,
  awaiting_evidence, closed, risk_accepted, overdue, PoamSource, auto, manual, Severity,
}

abbrev pub framework_name : Framework → String
framework_name cis_v8 = "cis_v8"
framework_name nist_800_53 = "nist_800_53"
framework_name soc2 = "soc2"
framework_name iso_27001 = "iso_27001"

abbrev pub severity_name : PoamSeverity → String
severity_name PoamSeverity.critical = "critical"
severity_name PoamSeverity.high = "high"
severity_name PoamSeverity.medium = "medium"
severity_name PoamSeverity.low = "low"

abbrev pub status_name : PoamStatus → String
status_name opened = "open"
status_name in_progress = "in_progress"
status_name awaiting_evidence = "awaiting_evidence"
status_name closed = "closed"
status_name risk_accepted = "risk_accepted"
status_name overdue = "overdue"

abbrev pub source_name : PoamSource → String
source_name auto = "auto"
source_name manual = "manual"

-- severityFromPoam.
abbrev pub severity_from_poam : PoamSeverity → Severity
severity_from_poam PoamSeverity.critical = Severity.critical
severity_from_poam PoamSeverity.high = Severity.high
severity_from_poam PoamSeverity.medium = Severity.medium
severity_from_poam PoamSeverity.low = Severity.low
