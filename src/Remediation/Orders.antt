-- ===== src/Remediation/Orders.antt =====
-- The comparisons of versions as orders.
use ai_devsecops_command_cen.Remediation.SemverOrder.{
  compare_release-IsOrder, compare_semver-IsOrder, compare_text-IsOrder,
}
use ai_devsecops_command_cen.Common.Text.{codes}
use ai_devsecops_command_cen.Remediation.Version.{
  Version, compare_versions, parse_version, Ecosystem, is_pypi, pep440, semver,
}
use ai_devsecops_command_cen.Common.{String, ap, [], if◌then◌else◌, or_else}
use ai_devsecops_command_cen.Remediation.Pep440.{
  Pep440, phase_number, Phase, compare_pep440, is_pre_release, parse_pep440,
}
use ai_devsecops_command_cen.Common.{Option, none, some}
use ai_devsecops_command_cen.Remediation.Semver.{compare_text, compare_release, parse_semver}
use ai_devsecops_command_cen.Crypto.Splitting.{Text}
use ai_devsecops_command_cen.Common.{◌≡◌, refl, inl, inr, Bool, true, false, arith, Bool-cases}
use Prim.Native.Nat.{compare, Ordering}
use mathlib.Core.Option
use mathlib.Core.Path.{subst}
use ai_devsecops_command_cen.Common.Compare.{
  IsOrder, Agrees, flip, then_by, compare-IsOrder, then_by-IsOrder, by_key-IsOrder,
}
use ai_devsecops_command_cen.Remediation.Pep440.{dev, pre_release, final, post}

-- Tags count only in a pre-release.
abbrev tag_of : Phase → Option Text → Text
tag_of pre_release tag = or_else tag []
tag_of _ tag = []

tags_apart :
    (p q : Phase) (s t : Option Text) (o : Ordering)
    → then_by (compare (phase_number p) (phase_number q)) (
        then_by
          (if is_pre_release p then compare_text (or_else s []) (or_else t []) else Ordering.eq)
          o)
      ≡ then_by
          (compare (phase_number p) (phase_number q))
          (then_by (compare_text (tag_of p s) (tag_of q t)) o)
unfolding compare_text
tags_apart dev dev s t o = refl
tags_apart dev pre_release s t o = refl
tags_apart dev final s t o = refl
tags_apart dev post s t o = refl
tags_apart pre_release dev s t o = refl
tags_apart pre_release pre_release s t o = refl
tags_apart pre_release final s t o = refl
tags_apart pre_release post s t o = refl
tags_apart final dev s t o = refl
tags_apart final pre_release s t o = refl
tags_apart final final s t o = refl
tags_apart final post s t o = refl
tags_apart post dev s t o = refl
tags_apart post pre_release s t o = refl
tags_apart post final s t o = refl
tags_apart post post s t o = refl

-- comparePep440, as one comparison after another.
abbrev by_parts : Pep440 → Pep440 → Ordering
by_parts a b = then_by (compare_release a.release b.release) (
    then_by (compare (phase_number a.phase) (phase_number b.phase)) (
      then_by (compare_text (tag_of a.phase a.pre_tag) (tag_of b.phase b.pre_tag))
        (compare a.phase_num b.phase_num)))

compare_pep440-by_parts : (a b : Pep440) → compare_pep440 a b ≡ by_parts a b
unfolding compare_pep440
compare_pep440-by_parts a b =
    ap (then_by (compare_release a.release b.release))
      (tags_apart a.phase b.phase a.pre_tag b.pre_tag (compare a.phase_num b.phase_num))

by_parts-IsOrder : IsOrder by_parts
by_parts-IsOrder = then_by-IsOrder (by_key-IsOrder (λ a. a.release) compare_release-IsOrder) (
    then_by-IsOrder (by_key-IsOrder (λ a. phase_number a.phase) compare-IsOrder) (
      then_by-IsOrder (by_key-IsOrder (λ a. tag_of a.phase a.pre_tag) compare_text-IsOrder)
        (by_key-IsOrder (λ a. a.phase_num) compare-IsOrder)))

compare_pep440-IsOrder : IsOrder compare_pep440
compare_pep440-IsOrder = record {
  flips = λ a b.
      rw (compare_pep440-by_parts a b, compare_pep440-by_parts b a) (by_parts-IsOrder.flips a b);
  agrees = λ a b c.
      rw (compare_pep440-by_parts a b, compare_pep440-by_parts b c, compare_pep440-by_parts a c)
        (by_parts-IsOrder.agrees a b c);
}

abbrev pub is_pep440 : Version → Bool
is_pep440 (pep440 a) = true
is_pep440 (semver a) = false

of_map :
    {A : Type 0} (wrap : A → Version) (b : Bool)
    → ((a : A) → is_pep440 (wrap a) ≡ b)
    → (o : Option A) (v : Version) → Option.map wrap o ≡ some v
    → is_pep440 v ≡ b
of_map wrap b kind none v h = cc
of_map wrap b kind (some a) v h =
    let same : wrap a ≡ v = cc in subst (λ w. is_pep440 w ≡ b) same (kind a)

-- Versions of one ecosystem are of one kind.
pub parse_version-kind :
    (eco : Ecosystem) (raw : String) (v : Version)
    → parse_version eco raw ≡ some v
    → is_pep440 v ≡ is_pypi eco
unfolding parse_version
parse_version-kind eco raw v h = elim (Bool-cases (is_pypi eco)) [
  | inl p ↦ rw p (of_map pep440 true (λ a. refl) (parse_pep440 (codes raw)) v (rw p at h))
  | inr p ↦ rw p (of_map semver false (λ a. refl) (parse_semver (codes raw)) v (rw p at h))
]

pub compare_versions-flips : (v w : Version) → compare_versions w v ≡ flip (compare_versions v w)
unfolding compare_versions
compare_versions-flips (pep440 a) (pep440 b) = compare_pep440-IsOrder.flips a b
compare_versions-flips (pep440 a) (semver b) = refl
compare_versions-flips (semver a) (pep440 b) = refl
compare_versions-flips (semver a) (semver b) = compare_semver-IsOrder.flips a b

-- Versions of one kind are compared by an order: what two comparisons in a row say of the third holds.
pub compare_versions-Agrees :
    (v w u : Version)
    → is_pep440 v ≡ is_pep440 w
    → is_pep440 w ≡ is_pep440 u
    → Agrees (compare_versions v w) (compare_versions w u) (compare_versions v u)
unfolding compare_versions
compare_versions-Agrees (pep440 a) (pep440 b) (pep440 c) h k = compare_pep440-IsOrder.agrees a b c
compare_versions-Agrees (semver a) (semver b) (semver c) h k = compare_semver-IsOrder.agrees a b c
compare_versions-Agrees (pep440 a) (semver b) u h k = absurd (ground arith)
compare_versions-Agrees (semver a) (pep440 b) u h k = absurd (ground arith)
compare_versions-Agrees (pep440 a) (pep440 b) (semver c) h k = absurd (ground arith)
compare_versions-Agrees (semver a) (semver b) (pep440 c) h k = absurd (ground arith)
