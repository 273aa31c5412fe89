-- ===== src/Mapper/Input.antt =====
-- The normalisation of findings (packages/shared/src/types/domain.ts) at the head of
-- mapping-engine.ts.
use ai_devsecops_command_cen.Common.{
  String, Bool, true, false, not, Option, none, some, List, [], ◌∷◌, map, ◌==◌, eqb, if◌then◌else◌,
  or_else, any,
}
use ai_devsecops_command_cen.Common.Dict.{Dict}
use ai_devsecops_command_cen.Poam.Types.{VulnSeverity}
use ai_devsecops_command_cen.Common.Json.{Json, null, boolean, number, text, array, object}
use ai_devsecops_command_cen.Common.Text.{codes, text_eq, lower}
use ai_devsecops_command_cen.Mapper.Types.{
  VulnKind, sca, sast, dast, runtime, manual, unknown, MappingInput,
}

-- `VulnerabilityFinding`, with the optional fields that a richer sender adds.
pub record VulnerabilityFinding : Type 0 where
  pub id : String
  pub tenant_id : String
  pub cve_id : Option String
  pub severity : Option Json
  pub kind : Option Json
  pub kev : Option Json
  pub introduced_at : Option String
  pub asset_id : Option String
  pub component_id : Option String
  pub metadata : Option (Dict Json)

-- A text in lower case is one of the words.
unfoldable pub is_word : String → List String → Bool
is_word s words = any (λ w. text_eq (map lower (codes s)) (codes w)) words

unfoldable pub normalize_severity : Option Json → VulnSeverity
unfolding is_word
normalize_severity (some (text s)) =
    if is_word s ("critical" ∷ "crit" ∷ [])
    then VulnSeverity.critical
    else if is_word s ("high" ∷ [])
    then VulnSeverity.high
    else if is_word s ("medium" ∷ "med" ∷ "moderate" ∷ [])
    then VulnSeverity.medium
    else if is_word s ("low" ∷ [])
    then VulnSeverity.low
    else if is_word s ("info" ∷ "informational" ∷ "negligible" ∷ [])
    then VulnSeverity.info
    else VulnSeverity.unknown
normalize_severity _ = VulnSeverity.unknown

unfoldable pub normalize_kind : Option Json → VulnKind
unfolding is_word
normalize_kind (some (text s)) =
    if is_word s ("sca" ∷ "sbom" ∷ "dependency" ∷ [])
    then sca
    else if is_word s ("sast" ∷ "static" ∷ [])
    then sast
    else if is_word s ("dast" ∷ "dynamic" ∷ [])
    then dast
    else if is_word s ("runtime" ∷ "raptor" ∷ "ebpf" ∷ [])
    then runtime
    else if is_word s ("manual" ∷ "human" ∷ [])
    then manual
    else unknown
normalize_kind _ = unknown

-- `Boolean(value)`.
unfoldable pub as_boolean : Option Json → Bool
as_boolean none = false
as_boolean (some null) = false
as_boolean (some (boolean b)) = b
as_boolean (some (number n)) = not (eqb n 0)
as_boolean (some (text s)) = not (s == "")
as_boolean (some (array _)) = true
as_boolean (some (object _)) = true

unfoldable pub to_mapping_input : VulnerabilityFinding → MappingInput
unfolding normalize_severity normalize_kind as_boolean
to_mapping_input finding = record {
  vuln_id = finding.id;
  tenant_id = finding.tenant_id;
  cve_id = finding.cve_id;
  severity = normalize_severity finding.severity;
  kind = normalize_kind finding.kind;
  kev = as_boolean finding.kev;
  introduced_at = finding.introduced_at;
  asset_id = or_else finding.asset_id "unknown";
  component_id = finding.component_id;
  metadata = finding.metadata;
  subject_kind = none;
  rule_id = none;
  resource_kind = none;
  namespace = none;
  cluster_id = none;
  workload_name = none;
}
