-- ===== src/Remediation/Propose.antt =====
-- The data and the steps of proposeRemediation, with findingLabel and rawOf. The input is what
-- RemediationInputSchema lets through; the time of the result is left out.
use ai_devsecops_command_cen.Remediation.Version.{npm, pypi, maven, go, cargo, nuget}
use ai_devsecops_command_cen.Common.Compare.{is_eq, is_gt, is_lt}
use ai_devsecops_command_cen.Remediation.Version.{
  Ecosystem, Version, compare_versions, parse_version, Bump, release_of, BumpRisk,
}
use ai_devsecops_command_cen.Common.{
  ℕ, String, Bool, false, Option, none, some, List, [], ◌∷◌, ◌++◌, map, if◌then◌else◌, ◌&◌, or_else,
  find,
}
use ai_devsecops_command_cen.Common.Dict.{Dict}
use ai_devsecops_command_cen.Common.Groups.{collect}
use ai_devsecops_command_cen.Common.Unique.{dedupe}
use ai_devsecops_command_cen.Common.Sort.{sort}

pub record PackageRef : Type 0 where
  pub name : String
  pub ecosystem : Ecosystem
  pub version : String

pub data PackageSeverity : Type 0 where
  critical high medium low informational : PackageSeverity

pub record RemediationFinding : Type 0 where
  pub id : Option String
  pub cve_id : Option String
  pub pkg : PackageRef
  pub fixed_versions : Option (List String)
  pub severity : PackageSeverity

pub data ProposalStatus : Type 0 where
  ok manual_review : ProposalStatus

pub record Proposal : Type 0 where
  pub name : String
  pub ecosystem : Ecosystem
  pub from : String
  pub to : String
  pub bump : Bump
  pub resolves : List String
  pub risk : BumpRisk
  pub manifest_hint : String
  pub status : ProposalStatus

pub record Unresolved : Type 0 where
  pub name : String
  pub ecosystem : Ecosystem
  pub reason : String

pub record RemediationResult : Type 0 where
  pub proposals : List Proposal
  pub unresolved : List Unresolved

pub record Group : Type 0 where
  pub pkg : PackageRef
  pub findings : List RemediationFinding

abbrev pub ecosystem_name : Ecosystem → String
ecosystem_name npm = "npm"
ecosystem_name pypi = "pypi"
ecosystem_name maven = "maven"
ecosystem_name go = "go"
ecosystem_name cargo = "cargo"
ecosystem_name nuget = "nuget"

abbrev pub group_key : RemediationFinding → String
group_key f = ecosystem_name f.pkg.ecosystem & "::" & f.pkg.name

abbrev pub with_finding : Option Group → RemediationFinding → Group
with_finding none f = record { pkg = f.pkg; findings = f ∷ [] }
with_finding (some g) f = record g { findings = g.findings ++ f ∷ [] }

unfoldable pub group_findings : Dict Group → List RemediationFinding → Dict Group
unfolding collect
group_findings = collect group_key with_finding

abbrev pub finding_label : RemediationFinding → String
finding_label f = or_else f.cve_id (or_else f.id "unknown")

unfoldable pub resolved_by : List RemediationFinding → List String
unfolding dedupe
resolved_by fs = dedupe (map finding_label fs)

-- What parses and is not below the current version is kept.
unfoldable pub keep : Version → Option Version → List Version → List Version
unfolding compare_versions
keep current none rest = rest
keep current (some v) rest = if is_lt (compare_versions v current) then rest else v ∷ rest

unfoldable pub fix_candidates : Ecosystem → Version → List String → List Version
unfolding parse_version keep
fix_candidates eco current [] = []
fix_candidates eco current (raw ∷ raws) =
    keep current (parse_version eco raw) (fix_candidates eco current raws)

abbrev pub before : Version → Version → Bool
before v w = is_lt (compare_versions v w)

abbrev pub head : List Version → Option Version
head [] = none
head (v ∷ vs) = some v

abbrev pub fixes_of : RemediationFinding → List String
fixes_of f = or_else f.fixed_versions []

unfoldable pub min_fix : Ecosystem → Version → RemediationFinding → Option Version
unfolding fix_candidates sort
min_fix eco current f = head (sort before (fix_candidates eco current (fixes_of f)))

abbrev pub add_fix : Option Version → Option (List Version) → Option (List Version)
add_fix none others = none
add_fix (some v) none = none
add_fix (some v) (some vs) = some (v ∷ vs)

-- The least fix of each finding; `none` where some finding has none, which ends_in the loop.
unfoldable pub min_fixes : Ecosystem → Version → List RemediationFinding → Option (List Version)
unfolding min_fix
min_fixes eco current [] = some []
min_fixes eco current (f ∷ fs) = add_fix (min_fix eco current f) (min_fixes eco current fs)

-- The target; `none` while it is the current version itself.
unfoldable pub raise_one : Version → Option Version → Version → Option Version
unfolding compare_versions
raise_one current target v =
    if is_gt (compare_versions v (or_else target current)) then some v else target

unfoldable pub raise : Version → Option Version → List Version → Option Version
unfolding raise_one
raise current target [] = target
raise current target (v ∷ vs) = raise current (raise_one current target v) vs

abbrev pub all_fixes : List RemediationFinding → List String
all_fixes [] = []
all_fixes (f ∷ fs) = fixes_of f ++ all_fixes fs

-- `String(release.join('.'))`, where `show` writes a number in decimal.
abbrev pub join_release : (ℕ → String) → List ℕ → String
join_release show [] = ""
join_release show (n ∷ []) = show n
join_release show (n ∷ m ∷ ns) = show n & "." & join_release show (m ∷ ns)

abbrev pub equals : Version → Option Version → Bool
equals target none = false
equals target (some v) = is_eq (compare_versions v target)

abbrev pub is_target : Ecosystem → Version → String → Bool
is_target eco target raw = equals target (parse_version eco raw)

unfoldable pub raw_of : (ℕ → String) → Version → List RemediationFinding → Ecosystem → String
unfolding parse_version compare_versions
raw_of show target fs eco =
    or_else (find (is_target eco target) (all_fixes fs)) (join_release show (release_of target))
