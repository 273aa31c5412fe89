-- ===== src/Evidence/Attach.antt =====
-- EvidenceAttacher: attach and attachInfrastructureFinding. The evidence repository is the in-memory
-- one; `Set`s of control ids keep the order of insertion.
use ai_devsecops_command_cen.Evidence.Scan.{inputs_from, raw_findings}
use ai_devsecops_command_cen.Mapper.Types.{MappingBatchResult, MappingInput}
use ai_devsecops_command_cen.Mapper.Engine.{evaluate_batch, MappingEngine}
use ai_devsecops_command_cen.Evidence.Attacher.{
  AttachScanInput, InfrastructureFinding, file_tuples, ScanRef, emit_evidence_attached,
  emit_violations, AttachScanResult,
}
use ai_devsecops_command_cen.Common.{
  ℕ, String, Option, none, some, List, [], ◌∷◌, ◌++◌, map, ◌&◌, or_else,
}
use ai_devsecops_command_cen.Poam.Types.{ControlVulnTuple}
use ai_devsecops_command_cen.Common.Unique.{dedupe}
use ai_devsecops_command_cen.Mapper.Predicates.{Platform}
use ai_devsecops_command_cen.Evidence.World.{
  ◌>>=◌, ◌>>◌, Outside, create_evidence, find_by_ref, read_date, Act, put_blob, EvidenceKind,
  EvidenceRecord, return, config, log,
}

abbrev pub finding_path : InfrastructureFinding → String
finding_path f = "tenants/" & f.tenant_id & "/" & f.source_label & "/" & f.input.vuln_id & ".json"

abbrev pub finding_description : InfrastructureFinding → String → String
finding_description f hash =
    f.source_label
    & " finding "
    & f.input.vuln_id
    & " (rule "
    & or_else f.input.rule_id "n/a"
    & "); sha256="
    & hash

abbrev pub scan_ref_of : InfrastructureFinding → ScanRef
scan_ref_of f = record {
  asset_id = or_else f.input.workload_name (or_else f.input.resource_kind "unknown");
  scan_id = f.input.vuln_id;
  tool = f.source_label;
}

abbrev pub control_ids : List ControlVulnTuple → List String
control_ids ts = dedupe (map (λ t. t.control_id) ts)

abbrev pub scan_path : AttachScanInput → String → String
scan_path i name =
    "tenants/" & i.tenant_id & "/assets/" & i.asset_id & "/scans/" & i.scan_id & "/" & name

abbrev pub scan_description : AttachScanInput → String → String → String
scan_description i what hash =
    what & " (" & i.tool & ") for asset " & i.asset_id & " (scan " & i.scan_id & "); sha256=" & hash

abbrev pub ref_of_scan : AttachScanInput → ScanRef
ref_of_scan i = record { asset_id = i.asset_id; scan_id = i.scan_id; tool = i.tool }

module _ (o : Outside) (collected_by : String) where
  -- The evidence of one control: the record that has the reference, or a new one and its event.
  unfoldable pub attach_unless :
      InfrastructureFinding → String → String → String → Option EvidenceRecord → Act String
  unfolding create_evidence emit_evidence_attached
  attach_unless f ref hash control (some existing) = return existing.id
  attach_unless f ref hash control none = do
    e ← create_evidence o f.tenant_id control log (finding_description f hash) ref collected_by
    emit_evidence_attached o e (scan_ref_of f)
    return e.id

  unfoldable pub attach_control : InfrastructureFinding → String → String → String → Act String
  unfolding attach_unless find_by_ref
  attach_control f ref hash control s =
      attach_unless f ref hash control (find_by_ref s.records f.tenant_id control ref) s

  unfoldable pub attach_controls :
      InfrastructureFinding → String → String → List String → Act (List String)
  unfolding attach_control
  attach_controls f ref hash [] = return []
  attach_controls f ref hash (c ∷ cs) = do
    id ← attach_control f ref hash c
    ids ← attach_controls f ref hash cs
    return (id ∷ ids)

  -- What comes before the evidence: the items, the events about the controls, and the blob.
  unfoldable pub prepare_finding :
      InfrastructureFinding → MappingBatchResult → Act ((ℕ × ℕ) × (String × String))
  unfolding read_date file_tuples emit_violations put_blob
  prepare_finding f batch = do
    now ← read_date o
    counts ← file_tuples o f.tenant_id batch.tuples
    emit_violations o f.tenant_id now batch.tuples batch.control_summary
    stored ← put_blob o (finding_path f) (o.stringify f.finding)
    return (counts, stored)

  -- The evidence of the controls, once the blob is stored.
  abbrev pub collect_evidence :
      InfrastructureFinding → List String → (ℕ × ℕ) × (String × String) → Act AttachScanResult
  collect_evidence f controls (counts, (ref, hash)) = attach_controls f ref hash controls >>= λ ids.
      return (record {
        evidence_ids = ids;
        attached_controls = controls;
        poam_created = counts.0;
        poam_deduplicated = counts.1;
      })

  unfoldable pub attach_finding :
      Platform → MappingEngine → InfrastructureFinding → Act AttachScanResult
  unfolding prepare_finding attach_controls evaluate_batch dedupe
  attach_finding js engine f =
      let batch = evaluate_batch js engine (f.input ∷ []) in
      prepare_finding f batch >>= collect_evidence f (control_ids batch.tuples)

  -- One evidence record and its event.
  unfoldable pub record_scan :
      AttachScanInput → String → EvidenceKind → String → String × String → Act String
  unfolding create_evidence emit_evidence_attached
  record_scan i control kind what (ref, hash) = do
    e ← create_evidence o i.tenant_id control kind (scan_description i what hash) ref collected_by
    emit_evidence_attached o e (ref_of_scan i)
    return e.id

  -- For each control, the SBOM and the report.
  unfoldable pub record_scans :
      AttachScanInput → String × String → String × String → List String → Act (List String)
  unfolding record_scan
  record_scans i sbom report [] = return []
  record_scans i sbom report (c ∷ cs) = do
    sbom_id ← record_scan i c config "SBOM" sbom
    report_id ← record_scan i c log "Scan report" report
    ids ← record_scans i sbom report cs
    return (sbom_id ∷ report_id ∷ ids)

  -- The findings are mapped only where there are some.
  unfoldable pub file_findings :
      Platform
      → MappingEngine
      → AttachScanInput
      → ℕ
      → List MappingInput
      → Act ((ℕ × ℕ) × List String)
  unfolding file_tuples emit_violations evaluate_batch dedupe
  file_findings js engine i now [] = return ((0, 0), dedupe i.pre_mapped_control_ids)
  file_findings js engine i now (m ∷ ms) =
      let batch = evaluate_batch js engine (m ∷ ms) in
      file_tuples o i.tenant_id batch.tuples >>= λ counts.
      emit_violations o i.tenant_id now batch.tuples batch.control_summary >>= λ _.
      return (counts, dedupe (i.pre_mapped_control_ids ++ map (λ t. t.control_id) batch.tuples))

  unfoldable pub attach : Platform → MappingEngine → AttachScanInput → Act AttachScanResult
  unfolding read_date file_findings put_blob record_scans inputs_from
  attach js engine i = read_date o >>= λ now.
      file_findings js engine i now
        (inputs_from o.show i.tenant_id i.asset_id 0 (raw_findings i.report))
      >>= λ (counts, controls).
          put_blob o (scan_path i "sbom.json") (o.stringify i.sbom) >>= λ sbom.
          put_blob o (scan_path i "report.json") (o.stringify i.scan_report) >>= λ report.
          record_scans i sbom report controls >>= λ ids. return (record {
            evidence_ids = ids;
            attached_controls = controls;
            poam_created = counts.0;
            poam_deduplicated = counts.1;
          })
