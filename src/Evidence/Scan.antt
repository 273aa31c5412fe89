-- ===== src/Evidence/Scan.antt =====
-- The helpers of evidence-attacher.ts: extractFindings, normalizeSev, severityFromVuln,
-- extractHashFromDescription. A report's fields are read as their declared types; of a `null` and of
-- an absent field both are `none`.
use ai_devsecops_command_cen.Mapper.Types.{MappingInput, VulnKind}
use ai_devsecops_command_cen.Common.Json.{Json}
use ai_devsecops_command_cen.Common.{
  ℕ, ◌+◌, String, Bool, false, ◌||◌, Option, none, some, List, [], ◌∷◌, map, ◌==◌, eqb,
  if◌then◌else◌, ◌&◌, or_else, is_some,
}
use ai_devsecops_command_cen.Poam.Types.{VulnSeverity, Severity}
use ai_devsecops_command_cen.Common.Text.{codes, lower, after, is_hex}
use ai_devsecops_command_cen.Common.Dict.{Dict}
use ai_devsecops_command_cen.Mapper.Input.{is_word}
use Prim.Native.Char.{code}

abbrev pub severity_from_vuln : VulnSeverity → Severity
severity_from_vuln VulnSeverity.critical = Severity.critical
severity_from_vuln VulnSeverity.high = Severity.high
severity_from_vuln VulnSeverity.medium = Severity.medium
severity_from_vuln VulnSeverity.low = Severity.low
severity_from_vuln VulnSeverity.info = Severity.info
severity_from_vuln VulnSeverity.unknown = Severity.info

abbrev pub vuln_severity_name : VulnSeverity → String
vuln_severity_name VulnSeverity.critical = "critical"
vuln_severity_name VulnSeverity.high = "high"
vuln_severity_name VulnSeverity.medium = "medium"
vuln_severity_name VulnSeverity.low = "low"
vuln_severity_name VulnSeverity.info = "info"
vuln_severity_name VulnSeverity.unknown = "unknown"

-- What follows a word at the head of a text, whatever the case of its letters.
unfoldable pub after_word : List ℕ → String → Option String
after_word [] s = some s
after_word (c ∷ cs) String.[] = none
after_word (c ∷ cs) (String.◌∷◌ d s) =
    let rest = after_word cs s in if eqb (lower (code d)) c then rest else none

-- `[a-f0-9:]`, whatever the case.
abbrev pub is_hash_char : ℕ → Bool
is_hash_char c = is_hex (lower c) || eqb c b':'

unfoldable pub hash_chars : String → String
hash_chars String.[] = ""
hash_chars (String.◌∷◌ c s) =
    let rest = hash_chars s in if is_hash_char (code c) then String.◌∷◌ c rest else ""

-- `/sha256=([a-f0-9:]+)/i` at the head of a text.
abbrev pub hash_at : Option String → Option String
hash_at none = none
hash_at (some s) = if hash_chars s == "" then none else some (hash_chars s)

unfoldable pub extract_hash : String → Option String
unfolding after_word hash_chars
extract_hash String.[] = none
extract_hash (String.◌∷◌ c s) =
    let rest = extract_hash s in
    elim (hash_at (after_word (codes "sha256=") (String.◌∷◌ c s))) [ none ↦ rest | some h ↦ some h ]

-- `includes`.
unfoldable pub includes : List ℕ → List ℕ → Bool
unfolding after
includes [] word = is_some (after word [])
includes (c ∷ cs) word = is_some (after word (c ∷ cs)) || includes cs word

unfoldable pub normalize_sev : Option String → VulnSeverity
unfolding includes is_word
normalize_sev none = VulnSeverity.unknown
normalize_sev (some s) =
    if includes (map lower (codes s)) (codes "crit")
    then VulnSeverity.critical
    else if is_word s ("high" ∷ [])
    then VulnSeverity.high
    else if is_word s ("medium" ∷ "moderate" ∷ "med" ∷ [])
    then VulnSeverity.medium
    else if is_word s ("low" ∷ [])
    then VulnSeverity.low
    else if is_word s ("info" ∷ "negligible" ∷ "informational" ∷ [])
    then VulnSeverity.info
    else VulnSeverity.unknown

pub record RawScanFinding : Type 0 where
  pub id : Option String
  pub vuln_id : Option String
  pub issue_id : Option String
  pub cve_id : Option String
  pub cve_id_snake : Option String
  pub cve : Option String
  pub severity : Option String
  pub severity_v4 : Option String
  pub cvss_v3_severity : Option String
  pub kev : Option Bool
  pub is_known_exploited : Option Bool
  pub introduced_at : Option String
  pub introduced_at_snake : Option String
  pub published_at : Option String
  pub package_name : Option String
  pub package_name_snake : Option String
  pub component : Option String
  pub metadata : Option (Dict Json)
  pub raw : Json  -- the finding itself

pub record RawScanReport : Type 0 where
  pub findings : Option (List RawScanFinding)
  pub vulnerabilities : Option (List RawScanFinding)
  pub results : Option (List RawScanFinding)

-- `a ?? b`, where `b` may be absent too.
abbrev pub or_option {ℓ} : {A : Type ℓ} → Option A → Option A → Option A
or_option none b = b
or_option (some a) b = some a

-- What `attach` maps of a finding, with its position for one without an id.
abbrev pub mapping_input_of : (ℕ → String) → String → String → ℕ → RawScanFinding → MappingInput
mapping_input_of show tenant asset n f = record {
  vuln_id = or_else (or_option f.id (or_option f.vuln_id f.issue_id)) ("finding-" & show n);
  tenant_id = tenant;
  cve_id = or_option f.cve_id (or_option f.cve_id_snake f.cve);
  severity = normalize_sev (or_option f.severity (or_option f.severity_v4 f.cvss_v3_severity));
  kind = VulnKind.unknown;
  kev = or_else (or_option f.kev f.is_known_exploited) false;
  introduced_at = or_option f.introduced_at (or_option f.introduced_at_snake f.published_at);
  asset_id = asset;
  component_id = or_option f.package_name (or_option f.package_name_snake f.component);
  metadata = some (or_else f.metadata (("raw", f.raw) ∷ []));
  subject_kind = none;
  rule_id = none;
  resource_kind = none;
  namespace = none;
  cluster_id = none;
  workload_name = none;
}

abbrev pub raw_findings : RawScanReport → List RawScanFinding
raw_findings r = or_else r.findings (or_else r.vulnerabilities (or_else r.results []))

unfoldable pub inputs_from :
    (ℕ → String) → String → String → ℕ → List RawScanFinding → List MappingInput
unfolding normalize_sev
inputs_from show tenant asset n [] = []
inputs_from show tenant asset n (f ∷ fs) =
    mapping_input_of show tenant asset n f ∷ inputs_from show tenant asset (n + 1) fs
