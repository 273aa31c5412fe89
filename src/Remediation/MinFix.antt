-- ===== src/Remediation/MinFix.antt =====
-- The least fix of a finding, and those of the findings of a group.
use ai_devsecops_command_cen.Common.{Option-cases}
use ai_devsecops_command_cen.Remediation.Orders.{
  is_pep440, compare_versions-flips, parse_version-kind,
}
use ai_devsecops_command_cen.Remediation.Fixes.{
  IsFix, Le, not_lt-Le, Le-trans, Le_refl, Le-not_lt, fix_candidates-IsFix, fix-candidates,
}
use ai_devsecops_command_cen.Remediation.Propose.{
  RemediationFinding, before, head, min_fix, min_fixes, fixes_of, fix_candidates,
}
use ai_devsecops_command_cen.Remediation.Version.{Ecosystem, Version, parse_version, is_pypi}
use ai_devsecops_command_cen.Common.{
  String, ◌≡◌, refl, sym, ◌∙◌, inl, inr, true, false, none, some, List, [], ◌∷◌, All-map, All, Any,
  All-Any,
}
use ai_devsecops_command_cen.Common.Sort.{sort-IsSorted, sort-All, IsSorted-head, All-of_sort}
use Prim.Native.Nat.{Ordering}
use ai_devsecops_command_cen.Common.Compare.{flip, is_lt}
use ai_devsecops_command_cen.Common.Sort.{sort, IsSorted}
use mathlib.Core.Path.{subst}

Any-kind :
    (eco : Ecosystem) (raws : List String) (w : Version)
    → Any (λ raw. parse_version eco raw ≡ some w) raws
    → is_pep440 w ≡ is_pypi eco
Any-kind eco [] w a = elim a [ ]
Any-kind eco (raw ∷ raws) w (inl e) = parse_version-kind eco raw w e
Any-kind eco (raw ∷ raws) w (inr a) = Any-kind eco raws w a

lt_flip : (o : Ordering) → is_lt o ≡ true → is_lt (flip o) ≡ false
lt_flip Ordering.lt h = refl
lt_flip Ordering.eq h = cc
lt_flip Ordering.gt h = cc

before-asym : (v w : Version) → before v w ≡ true → before w v ≡ false
before-asym v w h = rw (compare_versions-flips v w) (lt_flip _ h)

module _ (eco : Ecosystem) (current : Version) where
  abbrev IsOurs : Version → Type 0
  IsOurs v = is_pep440 v ≡ is_pypi eco

  pub IsFix-kind : (raws : List String) (w : Version) → IsFix eco current raws w → IsOurs w
  IsFix-kind raws w (a, le) = Any-kind eco raws w a

  -- A fix of a finding that no other goes below.
  abbrev pub IsLeastFix : RemediationFinding → Version → Type 0
  IsLeastFix f v =
      IsFix eco current (fixes_of f) v × ((w : Version) → IsFix eco current (fixes_of f) w → Le v w)

  before_trans :
      (x y z : Version)
      → IsOurs x
      → IsOurs y
      → IsOurs z
      → before y x ≡ false
      → before z y ≡ false
      → before z x ≡ false
  before_trans x y z p q r h k =
      not_lt-Le z x (Le-trans x y z (p ∙ sym q) (q ∙ sym r) (Le-not_lt y x h) (Le-not_lt z y k))

  head_least :
      (vs : List Version) (v : Version)
      → head vs ≡ some v
      → All IsOurs vs
      → IsSorted before vs
      → All (Le v) vs
  head_least [] v e p s = cc
  head_least (w ∷ []) v e p s = let same : w ≡ v = cc in (subst (λ x. Le x w) same (Le_refl w), tt)
  head_least (w ∷ u ∷ us) v e (p, ps) (h, s) =
      let same : w ≡ v = cc in
      subst (λ x. All (Le x) (w ∷ u ∷ us)) same
        (
          Le_refl w,
          All-map (λ z. Le-not_lt z w) (u ∷ us)
              (IsSorted-head before IsOurs before_trans w u us p ps h s),
        )

  head-All :
      (P : Version → Type 0) (vs : List Version) (v : Version) → head vs ≡ some v → All P vs → P v
  head-All P [] v e h = cc
  head-All P (w ∷ vs) v e (p, h) = let same : w ≡ v = cc in subst P same p

  pub min_fix-some :
      (f : RemediationFinding) (v : Version) → min_fix eco current f ≡ some v → IsLeastFix f v
  unfolding min_fix
  min_fix-some f v e =
      let raws = fixes_of f in
      let found = fix_candidates eco current raws in
      let are_fixes = fix_candidates-IsFix eco current raws in
      let ours = All-map (IsFix-kind raws) found are_fixes in
      let least =
        head_least (sort before found) v e (sort-All before IsOurs found ours)
          (sort-IsSorted before before-asym found) in
      (
        head-All (IsFix eco current raws) (sort before found) v e
            (sort-All before (IsFix eco current raws) found are_fixes),
        λ w fix.
            All-Any (Le v) found w (All-of_sort before (Le v) found least)
              (fix-candidates eco current raws w fix),
      )

  nothing : (vs : List Version) → head vs ≡ none → All (λ v. ⊥) vs
  nothing [] e = tt
  nothing (v ∷ vs) e = cc

  pub min_fix-none :
      (f : RemediationFinding) (w : Version)
      → min_fix eco current f ≡ none
      → IsFix eco current (fixes_of f) w
      → ⊥
  unfolding min_fix
  min_fix-none f w e fix =
      let found = fix_candidates eco current (fixes_of f) in
      All-Any (λ v. ⊥) found w (All-of_sort before (λ v. ⊥) found (nothing _ e))
        (fix-candidates eco current (fixes_of f) w fix)

  -- The findings and their least fixes, one for one.
  abbrev pub AreLeast : List RemediationFinding → List Version → Type 0
  AreLeast [] [] = Unit
  AreLeast (f ∷ fs) (v ∷ vs) = IsLeastFix f v × AreLeast fs vs
  AreLeast _ _ = ⊥

  abbrev pub HasNone : RemediationFinding → Type 0
  HasNone f = (w : Version) → IsFix eco current (fixes_of f) w → ⊥

  pub min_fixes-some :
      (fs : List RemediationFinding) (vs : List Version)
      → min_fixes eco current fs ≡ some vs
      → AreLeast fs vs
  unfolding min_fixes
  min_fixes-some [] [] e = tt
  min_fixes-some [] (v ∷ vs) e = cc
  min_fixes-some (f ∷ fs) vs e = elim (Option-cases (min_fix eco current f)) [
    | inl z ↦ let impossible : none ≡ some vs = rw z at e in cc
    | inr (v, z) ↦ elim (Option-cases (min_fixes eco current fs)) [
      | inl y ↦ let impossible : none ≡ some vs = rw (z, y) at e in cc
      | inr (ws, y) ↦
          let found : some (v ∷ ws) ≡ some vs = rw (z, y) at e in
          let same : v ∷ ws ≡ vs = cc in
          subst (AreLeast (f ∷ fs)) same (min_fix-some f v z, min_fixes-some fs ws y)
    ]
  ]

  pub min_fixes-none :
      (fs : List RemediationFinding) → min_fixes eco current fs ≡ none → Any HasNone fs
  unfolding min_fixes
  min_fixes-none [] e = cc
  min_fixes-none (f ∷ fs) e = elim (Option-cases (min_fix eco current f)) [
    | inl z ↦ inl (λ w. min_fix-none f w z)
    | inr (v, z) ↦ elim (Option-cases (min_fixes eco current fs)) [
      | inl y ↦ inr (min_fixes-none fs y)
      | inr (ws, y) ↦ let impossible : some (v ∷ ws) ≡ none = rw (z, y) at e in cc
    ]
  ]
