-- ===== src/Evidence/Attacher.antt =====
-- EvidenceAttacher: its inputs and results, emitControlViolated and emitEvidenceAttached, and the
-- loops over the tuples and the summaries that attach and attachInfrastructureFinding share.
use ai_devsecops_command_cen.Poam.Names.{framework_name}
use ai_devsecops_command_cen.Evidence.Scan.{
  RawScanReport, extract_hash, vuln_severity_name, severity_from_vuln,
}
use ai_devsecops_command_cen.Mapper.Types.{MappingInput, ControlSummary}
use ai_devsecops_command_cen.Common.{
  ℕ, ◌+◌, String, List, [], ◌∷◌, map, ◌==◌, if◌then◌else◌, or_else, length, select,
}
use ai_devsecops_command_cen.Poam.Types.{ControlVulnTuple, Severity}
use ai_devsecops_command_cen.Common.Dict.{Dict}
use ai_devsecops_command_cen.Common.Json.{Json, text, number, array}
use ai_devsecops_command_cen.Poam.Service
use ai_devsecops_command_cen.Poam.Service.Emit.{texts}
use ai_devsecops_command_cen.Poam.World.{publish, evidence_attached, control_violated}
use ai_devsecops_command_cen.Poam.Audit.{with_audit}
use ai_devsecops_command_cen.Evidence.World.{
  ◌>>=◌, ◌>>◌, Outside, lift, Act, EvidenceRecord, return, kind_name,
}

-- A scan's `sbom` and report are given as JSON, the report also as its findings.
pub record AttachScanInput : Type 0 where
  pub tenant_id : String
  pub asset_id : String
  pub scan_id : String
  pub tool : String
  pub sbom : Json
  pub scan_report : Json
  pub report : RawScanReport
  pub pre_mapped_control_ids : List String

pub record AttachScanResult : Type 0 where
  pub evidence_ids : List String
  pub attached_controls : List String
  pub poam_created : ℕ
  pub poam_deduplicated : ℕ

pub record InfrastructureFinding : Type 0 where
  pub tenant_id : String
  pub input : MappingInput
  pub finding : Json
  pub source_label : String

-- What emitEvidenceAttached reads of its second argument.
pub record ScanRef : Type 0 where
  pub asset_id : String
  pub scan_id : String
  pub tool : String

abbrev pub rule_ids_of : String → List ControlVulnTuple → List String
rule_ids_of control ts = map (λ t. t.rule_id) (select (λ t. t.control_id == control) ts)

module _ (o : Outside) where
  unfoldable pub emit_control_violated :
      String → ℕ → List ControlVulnTuple → String × ControlSummary → Act (Unit {0})
  unfolding lift with_audit publish texts
  emit_control_violated tenant now ts (control, summary) = lift (
      with_audit
        (record {
          tenant_id = tenant;
          audit_kind = control_violated;
          subject_id = control;
          detail =
              ("framework", text (framework_name summary.framework))
              ∷ ("highestSeverity", text (vuln_severity_name summary.highest_severity))
              ∷ ("violatingVulnCount", number (length summary.vuln_ids))
              ∷ [];
        })
        (publish o.env (record {
          type = "compliance.control.violated";
          version = 1;
          source = "compliance-service";
          tenant_id = tenant;
          payload =
              ("tenantId", text tenant)
              ∷ ("controlId", text control)
              ∷ ("framework", text (framework_name summary.framework))
              ∷ ("status", text "fail")
              ∷ ("violatingVulnIds", array (texts summary.vuln_ids))
              ∷ ("firstObservedAt", number now)
              ∷ ("highestSeverity", text (vuln_severity_name summary.highest_severity))
              ∷ ("ruleIds", array (texts (rule_ids_of control ts)))
              ∷ [];
          severity = severity_from_vuln summary.highest_severity;
        })))

  unfoldable pub emit_evidence_attached : EvidenceRecord → ScanRef → Act (Unit {0})
  unfolding lift with_audit publish texts extract_hash
  emit_evidence_attached e scan = lift (
      with_audit
        (record {
          tenant_id = e.tenant_id;
          audit_kind = evidence_attached;
          subject_id = e.id;
          detail =
              ("controlId", text e.control_id)
              ∷ ("kind", text (kind_name e.kind))
              ∷ ("assetId", text scan.asset_id)
              ∷ ("scanId", text scan.scan_id)
              ∷ ("tool", text scan.tool)
              ∷ [];
        })
        (publish o.env (record {
          type = "compliance.evidence.attached";
          version = 1;
          source = "compliance-service";
          tenant_id = e.tenant_id;
          payload =
              ("tenantId", text e.tenant_id)
              ∷ ("evidenceId", text e.id)
              ∷ ("controlIds", array (texts (e.control_id ∷ [])))
              ∷ ("assetId", text scan.asset_id)
              ∷ ("evidenceType", text (kind_name e.kind))
              ∷ ("objectStorePath", text e.ref)
              ∷ ("hash", text (or_else (extract_hash e.description) ""))
              ∷ ("scanId", text scan.scan_id)
              ∷ ("tool", text scan.tool)
              ∷ ("collectedBy", text e.collected_by)
              ∷ ("collectedAt", number e.collected_at)
              ∷ [];
          severity = Severity.info;
        })))

  -- The loop over the tuples: how many items were created, and how many were there.
  unfoldable pub file_tuples : String → List ControlVulnTuple → Act (ℕ × ℕ)
  unfolding lift Service.create_from_tuple
  file_tuples tenant [] = return (0, 0)
  file_tuples tenant (t ∷ ts) = do
    r ← lift (Service.create_from_tuple o.env tenant t)
    (created, deduplicated) ← file_tuples tenant ts
    return (if r.deduplicated then (created, deduplicated + 1) else (created + 1, deduplicated))

  unfoldable pub emit_violations :
      String → ℕ → List ControlVulnTuple → Dict ControlSummary → Act (Unit {0})
  unfolding emit_control_violated
  emit_violations tenant now ts [] = return tt
  emit_violations tenant now ts (entry ∷ entries) = do
    emit_control_violated tenant now ts entry
    emit_violations tenant now ts entries
