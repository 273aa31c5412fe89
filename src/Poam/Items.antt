-- ===== src/Poam/Items.antt =====
-- The pure parts of poam.service.ts: the table of transitions, and the items that it builds.
use ai_devsecops_command_cen.Common.{
  ℕ, ◌+◌, ◌*◌, String, Bool, true, false, Option, none, some, [], ◌∷◌, ◌&◌, or_else,
}
use ai_devsecops_command_cen.Common.Json.{text, number}
use ai_devsecops_command_cen.Poam.Types.{
  VulnSeverity, PoamSeverity, PoamStatus, opened, in_progress, awaiting_evidence, closed,
  risk_accepted, overdue, auto, manual, poam_sla_days, day_ms, PoamItem, CreatePoamInput,
  ControlVulnTuple,
}
use ai_devsecops_command_cen.Poam.World.{
  AuditKind, poam_in_progress, poam_pending_verification, poam_risk_accepted,
}
use ai_devsecops_command_cen.Poam.Names.{severity_name, framework_name}

-- mapSeverity.
abbrev pub map_severity : VulnSeverity → PoamSeverity
map_severity VulnSeverity.critical = PoamSeverity.critical
map_severity VulnSeverity.high = PoamSeverity.high
map_severity VulnSeverity.medium = PoamSeverity.medium
map_severity VulnSeverity.low = PoamSeverity.low
map_severity VulnSeverity.info = PoamSeverity.low
map_severity VulnSeverity.unknown = PoamSeverity.low

-- VALID_TRANSITIONS, by membership.
abbrev pub is_valid_transition : PoamStatus → PoamStatus → Bool
is_valid_transition opened opened = false
is_valid_transition opened _ = true
is_valid_transition in_progress in_progress = false
is_valid_transition in_progress _ = true
is_valid_transition awaiting_evidence awaiting_evidence = false
is_valid_transition awaiting_evidence _ = true
is_valid_transition overdue overdue = false
is_valid_transition overdue _ = true
is_valid_transition closed opened = true
is_valid_transition closed _ = false
is_valid_transition risk_accepted opened = true
is_valid_transition risk_accepted closed = true
is_valid_transition risk_accepted _ = false

-- mapPoamStatusToAuditKind.
abbrev pub map_poam_status_to_audit_kind : PoamStatus → Option AuditKind
map_poam_status_to_audit_kind in_progress = some poam_in_progress
map_poam_status_to_audit_kind awaiting_evidence = some poam_pending_verification
map_poam_status_to_audit_kind risk_accepted = some poam_risk_accepted
map_poam_status_to_audit_kind _ = none

-- The item that `createFromTuple` builds.
abbrev pub auto_item : String → ℕ → String → ControlVulnTuple → PoamItem
auto_item tenant now id t =
    let severity = map_severity t.severity in
    record {
      poam_id = id;
      tenant_id = tenant;
      control_id = t.control_id;
      framework = t.framework;
      vuln_id = some t.vuln_id;
      rule_id = some t.rule_id;
      title = "Remediate " & t.control_id & " violation (" & severity_name severity & ")";
      description =
          "Auto-created from rule "
          & t.rule_id
          & ". Vuln "
          & t.vuln_id
          & " triggered a "
          & framework_name t.framework
          & "/"
          & t.control_id
          & " failure.";
      severity = severity;
      status = opened;
      source = auto;
      created_at = now;
      created_by = "system:auto-mapper";
      due_at = now + t.sla_days * day_ms;
      closed_at = none;
      closed_by = none;
      resolution_notes = none;
      evidence_refs = [];
      risk_acceptance = none;
      metadata =
          ("ruleId", text t.rule_id)
          ∷ ("slaDays", number t.sla_days)
          ∷ ("slaPolicy", text "calendar-days")
          ∷ [];
    }

-- The item that `createManual` builds.
abbrev pub manual_item : String → ℕ → String → CreatePoamInput → String → PoamItem
manual_item tenant now id input user = record {
  poam_id = id;
  tenant_id = tenant;
  control_id = input.control_id;
  framework = input.framework;
  vuln_id = input.vuln_id;
  rule_id = none;
  title = input.title;
  description = input.description;
  severity = input.severity;
  status = opened;
  source = manual;
  created_at = now;
  created_by = user;
  due_at = now + or_else input.sla_days (poam_sla_days input.severity) * day_ms;
  closed_at = none;
  closed_by = none;
  resolution_notes = none;
  evidence_refs = [];
  risk_acceptance = none;
  metadata = or_else input.metadata [];
}
