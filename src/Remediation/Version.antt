-- ===== src/Remediation/Version.antt =====
-- Ecosystems and their versions: parseVersion, compareVersions, releaseOf, bumpType, RISK_BY_BUMP.
use ai_devsecops_command_cen.Common.Text.{codes}
use ai_devsecops_command_cen.Remediation.Pep440.{Pep440, compare_pep440, parse_pep440}
use ai_devsecops_command_cen.Remediation.Semver.{Semver, compare_semver, parse_semver}
use ai_devsecops_command_cen.Common.{
  ℕ, zero, suc, String, Bool, true, false, not, Option, List, [], ◌∷◌, eqb, if◌then◌else◌,
}
use Prim.Native.Nat.{Ordering}
use mathlib.Core.Option

pub data Ecosystem : Type 0 where
  npm pypi maven go cargo nuget : Ecosystem

pub data Version : Type 0 where
  semver : Semver → Version
  pep440 : Pep440 → Version

abbrev pub is_pypi : Ecosystem → Bool
is_pypi pypi = true
is_pypi _ = false

unfoldable pub parse_version : Ecosystem → String → Option Version
unfolding parse_semver parse_pep440
parse_version ecosystem raw =
    if is_pypi ecosystem
    then Option.map pep440 (parse_pep440 (codes raw))
    else Option.map semver (parse_semver (codes raw))

unfoldable pub compare_versions : Version → Version → Ordering
unfolding compare_semver compare_pep440
compare_versions (pep440 a) (pep440 b) = compare_pep440 a b
compare_versions (semver a) (semver b) = compare_semver a b
compare_versions _ _ = Ordering.eq

abbrev pub release_of : Version → List ℕ
release_of (pep440 a) = a.release
release_of (semver a) = a.release

pub data Bump : Type 0 where
  no_bump patch minor major unknown : Bump

pub data BumpRisk : Type 0 where
  low medium high : BumpRisk

abbrev pub segment : List ℕ → ℕ → ℕ
segment [] i = 0
segment (n ∷ ns) zero = n
segment (n ∷ ns) (suc i) = segment ns i

unfoldable pub bump_type : Version → Version → Bump
bump_type from to =
    let f = release_of from in
    let t = release_of to in
    if not (eqb (segment t 0) (segment f 0))
    then Bump.major
    else if not (eqb (segment t 1) (segment f 1))
    then Bump.minor
    else Bump.patch

-- RISK_BY_BUMP.
abbrev pub risk_by_bump : Bump → BumpRisk
risk_by_bump Bump.no_bump = low
risk_by_bump Bump.major = high
risk_by_bump Bump.minor = medium
risk_by_bump Bump.patch = low
risk_by_bump Bump.unknown = high
