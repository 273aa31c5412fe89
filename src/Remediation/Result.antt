-- ===== src/Remediation/Result.antt =====
-- proposeRemediation: what it answers for a group, and for all of them.
use ai_devsecops_command_cen.Remediation.Hint.{manifest_hint}
use ai_devsecops_command_cen.Common.Compare.{is_eq}
use ai_devsecops_command_cen.Remediation.Version.{
  Version, parse_version, Bump, BumpRisk, compare_versions, bump_type, risk_by_bump,
}
use ai_devsecops_command_cen.Remediation.Propose.{
  Group, PackageRef, Proposal, RemediationResult, group_findings, raw_of, resolved_by,
  RemediationFinding, Unresolved, ecosystem_name, min_fixes, raise, manual_review, ok,
}
use ai_devsecops_command_cen.Common.{
  ℕ, String, Option, none, some, List, [], ◌∷◌, if◌then◌else◌, ◌&◌, or_else,
}
use ai_devsecops_command_cen.Common.Dict.{Dict}
use ai_devsecops_command_cen.Common.Dict

pub data Answer : Type 0 where
  proposed : Proposal → Answer
  without_fix : Unresolved → Answer

abbrev pub unparsed_hint : PackageRef → String
unparsed_hint pkg =
    "manual review required: cannot parse version \""
    & pkg.version
    & "\" for "
    & ecosystem_name pkg.ecosystem
    & " package "
    & pkg.name

-- The proposal where the installed version does not parse.
abbrev pub review : Group → Proposal
review g = record {
  name = g.pkg.name;
  ecosystem = g.pkg.ecosystem;
  from = g.pkg.version;
  to = g.pkg.version;
  bump = Bump.unknown;
  resolves = resolved_by g.findings;
  risk = BumpRisk.high;
  manifest_hint = unparsed_hint g.pkg;
  status = manual_review;
}

abbrev pub unfixable : Group → Unresolved
unfixable g = record {
  name = g.pkg.name;
  ecosystem = g.pkg.ecosystem;
  reason = "no fixed version at or above the installed version";
}

abbrev pub bump_of : Version → Version → Bump
bump_of current target =
    if is_eq (compare_versions target current) then Bump.no_bump else bump_type current target

module _ (show : ℕ → String) where
  unfoldable pub to_raw : Group → Option Version → String
  unfolding raw_of
  to_raw g none = g.pkg.version
  to_raw g (some target) = raw_of show target g.findings g.pkg.ecosystem

  unfoldable pub upgrade : Group → Version → Option Version → Proposal
  unfolding to_raw resolved_by manifest_hint bump_type compare_versions
  upgrade g current target = record {
    name = g.pkg.name;
    ecosystem = g.pkg.ecosystem;
    from = g.pkg.version;
    to = to_raw g target;
    bump = bump_of current (or_else target current);
    resolves = resolved_by g.findings;
    risk = risk_by_bump (bump_of current (or_else target current));
    manifest_hint = manifest_hint g.pkg.ecosystem g.pkg.name (to_raw g target);
    status = ok;
  }

  abbrev pub judge : Group → Version → Option (List Version) → Answer
  judge g current none = without_fix (unfixable g)
  judge g current (some fixes) = proposed (upgrade g current (raise current none fixes))

  abbrev pub answer_with : Group → Option Version → Answer
  answer_with g none = proposed (review g)
  answer_with g (some current) = judge g current (min_fixes g.pkg.ecosystem current g.findings)

  unfoldable pub answer : Group → Answer
  unfolding parse_version min_fixes raise upgrade
  answer g = answer_with g (parse_version g.pkg.ecosystem g.pkg.version)

  abbrev pub add_answer : Answer → RemediationResult → RemediationResult
  add_answer (proposed p) r = record r { proposals = p ∷ r.proposals }
  add_answer (without_fix u) r = record r { unresolved = u ∷ r.unresolved }

  unfoldable pub answers : List Group → RemediationResult
  unfolding answer
  answers [] = record { proposals = []; unresolved = [] }
  answers (g ∷ gs) = add_answer (answer g) (answers gs)

  unfoldable pub propose_remediation : List RemediationFinding → RemediationResult
  unfolding group_findings answers Dict.values
  propose_remediation findings = answers (Dict.values (group_findings [] findings))
