-- ===== src/Evidence/Examples.antt =====
-- Concrete runs of the evidence attacher.
use ai_devsecops_command_cen.Evidence.Lost.{attach_control_refused}
use ai_devsecops_command_cen.Common.{String}
use ai_devsecops_command_cen.Evidence.Scan.{extract_hash, normalize_sev}
use ai_devsecops_command_cen.Evidence.Attach.{attach_control, attach}
use ai_devsecops_command_cen.Evidence.Attacher.{
  AttachScanResult, InfrastructureFinding, AttachScanInput,
}
use ai_devsecops_command_cen.Common.{◌≡◌, refl, none, some, [], ◌∷◌}
use ai_devsecops_command_cen.Poam.Types.{VulnSeverity}
use ai_devsecops_command_cen.Poam.World as Poam
use ai_devsecops_command_cen.Common.Dict
use ai_devsecops_command_cen.Common.Dict.{Dict}
use ai_devsecops_command_cen.Common.Json.{null}
use ai_devsecops_command_cen.Mapper.Examples.{js, engine, log4shell}
use ai_devsecops_command_cen.Poam.Examples.{stars, env}
use ai_devsecops_command_cen.Poam.World.{Env, Result, ok, err, bus, init, publish, record_audit}
use ai_devsecops_command_cen.Evidence.World.{◌>>=◌, AttacherWorld, Outside, find_by_ref}

-- The hash that the in-memory store gives starts with `sha256:`, which the search for it does not
-- take.
hash_of_store :
    (extract_hash "SBOM (syft) for asset web (scan s1); sha256=sha256:00ff" ≡ none)
    × (extract_hash "SBOM (syft) for asset web (scan s1); sha256=00FF" ≡ some "00FF")
unfolding extract_hash
hash_of_store = (refl, refl)

severities :
    (normalize_sev (some "CRITICAL") ≡ VulnSeverity.critical)
    × (normalize_sev (some "Moderate") ≡ VulnSeverity.medium)
    × (normalize_sev (some "severe") ≡ VulnSeverity.unknown)
unfolding normalize_sev
severities = (refl, refl, refl)

abbrev outside : Outside
outside = record {
  env = env;
  new_id = stars;
  date = λ n. n;
  sha256 = λ s. "00ff";
  stringify = λ j. "{}";
  show = λ n. "0";
}

abbrev start : AttacherWorld
start = record { poam = init; records = []; ids = 0; dates = 0; blobs = [] }

abbrev risk : InfrastructureFinding
risk = record {
  tenant_id = "acme";
  input = log4shell;
  finding = null;
  source_label = "runtime-risk";
}

abbrev first_result : AttachScanResult
first_result = record {
  evidence_ids = "" ∷ "*" ∷ [];
  attached_controls = "RA-5" ∷ "SI-2" ∷ [];
  poam_created = 2;
  poam_deduplicated = 0;
}

-- A bus that takes nothing.
abbrev broken : Outside
broken = record outside { env = record env { bus_error = λ n. some "down" } }

nothing_there : find_by_ref start.records "acme" "SI-2" "ref" ≡ none
unfolding find_by_ref
nothing_there = refl

attach_control_refused_example :
    let (r, t) = attach_control broken "collector" risk "ref" "00ff" "SI-2" start in
    (r ≡ err (bus "down"))
    × (t.poam.published ≡ start.poam.published)
    × ((id : String) × (attach_control broken "collector" risk "ref" "00ff" "SI-2" t ≡ (ok id, t)))
attach_control_refused_example =
    attach_control_refused broken "collector" risk "ref" "00ff" "SI-2" start "down" nothing_there
      refl

-- A scan without findings: the SBOM and the report are recorded for each control that is named.
abbrev quiet_scan : AttachScanInput
quiet_scan = record {
  tenant_id = "acme";
  asset_id = "web";
  scan_id = "s1";
  tool = "syft";
  sbom = null;
  scan_report = null;
  report = record { findings = none; vulnerabilities = some []; results = none };
  pre_mapped_control_ids = "SI-2" ∷ "RA-5" ∷ "SI-2" ∷ [];
}

scan_attached :
    (attach outside "collector" js engine quiet_scan start).0
    ≡ ok (record {
      evidence_ids = "" ∷ "*" ∷ "**" ∷ "***" ∷ [];
      attached_controls = "SI-2" ∷ "RA-5" ∷ [];
      poam_created = 0;
      poam_deduplicated = 0;
    })
unfolding attach ◌>>=◌ Poam.◌>>=◌ stars
scan_attached = refl
