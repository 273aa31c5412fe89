-- ===== src/Remediation/Examples.antt =====
-- Versions and proposals on concrete inputs.
use ai_devsecops_command_cen.Remediation.Least.{IsUpgraded, answer_least}
use ai_devsecops_command_cen.Remediation.MinFix.{HasNone}
use ai_devsecops_command_cen.Remediation.Whole.{IsLeastOf, propose_least}
use ai_devsecops_command_cen.Remediation.Complete.{IsCovered, propose_covers}
use ai_devsecops_command_cen.Common.{◌⊎◌, All, Any}
use ai_devsecops_command_cen.Remediation.Result.{
  propose_remediation, answer, without_fix, unfixable,
}
use ai_devsecops_command_cen.Remediation.Propose.{RemediationFinding, PackageSeverity, ok, Group}
use ai_devsecops_command_cen.Common.{ℕ, List, [], ◌∷◌}
use ai_devsecops_command_cen.Remediation.Version.{
  Ecosystem, parse_version, compare_versions, npm, pypi, go, Bump, BumpRisk, Version, semver,
}
use ai_devsecops_command_cen.Common.{◌+◌, String, ◌≡◌, refl, Option, none, some}
use Prim.Native.Nat.{Ordering}
use mathlib.Core.Option
use ai_devsecops_command_cen.Remediation.Propose.{ok, PackageSeverity}
use ai_devsecops_command_cen.Remediation.Apply.{
  ApplyOutcome, threw, ApplyInput, MayPass, apply_remediation, IsRefused, apply_remediation_gated,
}
use ai_devsecops_command_cen.Remediation.Version.{npm, pypi, go}

abbrev order_of : Ecosystem → String → String → Option Ordering
order_of eco a b = elim (parse_version eco a) [
  | none ↦ none
  | some v ↦ Option.map (compare_versions v) (parse_version eco b)
]

semver_orders :
    (order_of npm "1.2.3" "v1.10" ≡ some Ordering.lt)
    × (order_of npm "1.2.3-alpha.2" "1.2.3-alpha.10" ≡ some Ordering.lt)
    × (order_of npm "1.2.3" "1.2.3-rc.1+build" ≡ some Ordering.gt)
    × (order_of npm " 1.0.0" "1" ≡ some Ordering.eq)
    × (order_of npm "1.0.0-1" "1.0.0-a" ≡ some Ordering.lt)
    × (order_of go "1.2.3.4.5" "1" ≡ none)
    × (order_of go "1..2" "1" ≡ none)
unfolding parse_version compare_versions
semver_orders = (refl, refl, refl, refl, refl, refl, refl)

pep440_orders :
    (order_of pypi "1.2RC1" "1.2" ≡ some Ordering.lt)
    × (order_of pypi "1.2b2" "1.2rc1" ≡ some Ordering.lt)
    × (order_of pypi "1.2.post1" "1.2.0" ≡ some Ordering.gt)
    × (order_of pypi "1.2.post1.dev3" "1.2a1" ≡ some Ordering.lt)
    × (order_of pypi "1.2.3.4.5" "1.2.3.4.5.0" ≡ some Ordering.eq)
    × (order_of pypi "1.2-3" "1" ≡ none)
    × (order_of pypi "1.2.post" "1" ≡ none)
unfolding parse_version compare_versions
pep440_orders = (refl, refl, refl, refl, refl, refl, refl)

abbrev vulnerable : String → String → List String → RemediationFinding
vulnerable cve installed fixes = record {
  id = none;
  cve_id = some cve;
  pkg = record { name = "left-pad"; ecosystem = npm; version = installed };
  fixed_versions = some fixes;
  severity = PackageSeverity.high;
}

abbrev two_findings : List RemediationFinding
two_findings =
    vulnerable "CVE-1" "1.0.0" ("0.9.9" ∷ "2.0.0" ∷ "1.0.4" ∷ [])
    ∷ vulnerable "CVE-2" "1.0.0" ("1.2.0" ∷ [])
    ∷ []

abbrev show : ℕ → String
show n = "0"

propose_two : propose_remediation show two_findings ≡ record {
  proposals =
      record {
        name = "left-pad";
        ecosystem = npm;
        from = "1.0.0";
        to = "1.2.0";
        bump = Bump.minor;
        resolves = "CVE-1" ∷ "CVE-2" ∷ [];
        risk = BumpRisk.medium;
        manifest_hint = "npm install left-pad@1.2.0";
        status = ok;
      }
      ∷ [];
  unresolved = [];
}
unfolding propose_remediation
propose_two = refl

abbrev pad_group : Group
pad_group = record {
  pkg = record { name = "left-pad"; ecosystem = npm; version = "1.0.0" };
  findings = two_findings;
}

abbrev installed : Version
installed = semver (record { release = 1 ∷ 0 ∷ 0 ∷ []; pre = none })

answer_least_example :
    ((answer show pad_group ≡ without_fix (unfixable pad_group))
      × Any (HasNone npm installed) two_findings)
    ⊎ IsUpgraded pad_group installed (answer show pad_group)
unfolding parse_version
answer_least_example = answer_least show pad_group installed refl

propose_least_example :
    All
      (λ p. p.status ≡ ok → IsLeastOf show two_findings p)
      (propose_remediation show two_findings).proposals
propose_least_example = propose_least show two_findings

propose_covers_example : All (IsCovered show two_findings) two_findings
propose_covers_example = propose_covers show two_findings

-- An integration service that counts its calls.
abbrev counting : ApplyInput → ℕ → ApplyOutcome String × ℕ
counting input n = (threw "offline", n + 1)

abbrev by_hand : ApplyInput
by_hand = record {
  integration_id = some "int-1";
  proposal = record {
    name = "left-pad";
    ecosystem = npm;
    from = "1.0.0";
    to = "1.2.0";
    bump = Bump.minor;
    resolves = [];
    risk = BumpRisk.medium;
    manifest_hint = "npm install evil@1.2.0";
    status = ok;
  };
  context = none;
  dry_run = none;
}

apply_by_hand : (apply_remediation counting by_hand 0).1 ≡ 0
unfolding apply_remediation
apply_by_hand = refl

apply_remediation_gated_example :
    (MayPass by_hand × (apply_remediation counting by_hand 0 ≡ counting by_hand 0))
    ⊎ ((MayPass by_hand → ⊥) × IsRefused counting by_hand 0)
apply_remediation_gated_example = apply_remediation_gated counting by_hand 0

abbrev mixed_findings : List RemediationFinding
mixed_findings =
    vulnerable "CVE-2" "2.0.0" ("2.0.1" ∷ []) ∷ vulnerable "CVE-1" "1.0.0" ("1.0.4" ∷ []) ∷ []

-- The second finding has a fix above its own version, but is judged against that of the first.
propose_mixed : propose_remediation show mixed_findings ≡ record {
  proposals = [];
  unresolved =
      record {
        name = "left-pad";
        ecosystem = npm;
        reason = "no fixed version at or above the installed version";
      }
      ∷ [];
}
unfolding propose_remediation
propose_mixed = refl
