-- ===== src/Remediation/Least.antt =====
-- What a group of findings is answered.
use ai_devsecops_command_cen.Remediation.Target.{
  raise-facts, raise-some, raw_of-parses, fix-all_fixes,
}
use ai_devsecops_command_cen.Remediation.Fixes.{IsFix, Le, Le-trans, Le_refl, Le-eq}
use ai_devsecops_command_cen.Remediation.MinFix.{
  AreLeast, IsFix-kind, HasNone, min_fixes-none, min_fixes-some,
}
use ai_devsecops_command_cen.Remediation.Result.{
  Answer, answer, to_raw, upgrade, without_fix, proposed, judge, unfixable,
}
use ai_devsecops_command_cen.Remediation.Orders.{is_pep440, parse_version-kind}
use ai_devsecops_command_cen.Remediation.Propose.{
  Group, RemediationFinding, Proposal, fixes_of, min_fixes, raise, ok, finding_label, resolved_by,
}
use ai_devsecops_command_cen.Remediation.Version.{Ecosystem, Version, parse_version, is_pypi}
use ai_devsecops_command_cen.Common.Unique.{dedupe-has, dedupe-All}
use ai_devsecops_command_cen.Common.{
  map, ℕ, String, ◌≡◌, refl, sym, ◌∙◌, ◌⊎◌, inl, inr, Option, none, some, List, [], ◌∷◌, or_else,
  All-map, All, Any,
}

module _ (eco : Ecosystem) (current : Version) where
  -- Some fix of the finding, at or above the current version, is not above the version.
  abbrev pub Resolves : Version → RemediationFinding → Type 0
  Resolves v f = (w : Version) × IsFix eco current (fixes_of f) w × Le w v

  -- A version, not below the current one, that resolves all findings, and is the least such.
  abbrev pub IsLeastUpgrade : List RemediationFinding → Version → Type 0
  IsLeastUpgrade fs v =
      Le current v
      × All (Resolves v) fs
      × ((u : Version) → is_pep440 u ≡ is_pypi eco → Le current u → All (Resolves u) fs → Le v u)

  each_resolved :
      (fs : List RemediationFinding) (vs : List Version) (v : Version)
      → AreLeast eco current fs vs
      → All (λ w. Le w v) vs
      → All (Resolves v) fs
  each_resolved [] [] v h k = tt
  each_resolved [] (w ∷ vs) v h k = elim h [ ]
  each_resolved (f ∷ fs) [] v h k = elim h [ ]
  each_resolved (f ∷ fs) (w ∷ vs) v (h, hs) (k, ks) = ((w, h.0, k), each_resolved fs vs v hs ks)

  above_all :
      (fs : List RemediationFinding) (vs : List Version) (u : Version)
      → is_pep440 u ≡ is_pypi eco
      → AreLeast eco current fs vs
      → All (Resolves u) fs
      → All (λ w. Le w u) vs
  above_all [] [] u ours h k = tt
  above_all [] (w ∷ vs) u ours h k = elim h [ ]
  above_all (f ∷ fs) [] u ours h k = elim h [ ]
  above_all (f ∷ fs) (w ∷ vs) u ours ((fix, least), hs) ((x, x_fix, x_le), ks) =
      let of_w = IsFix-kind eco current (fixes_of f) w fix in
      let of_x = IsFix-kind eco current (fixes_of f) x x_fix in
      (
        Le-trans w x u (of_w ∙ sym of_x) (of_x ∙ sym ours) (least x x_fix) x_le,
        above_all fs vs u ours hs ks,
      )

  are_ours :
      (fs : List RemediationFinding) (vs : List Version)
      → AreLeast eco current fs vs
      → All (λ v. is_pep440 v ≡ is_pypi eco) vs
  are_ours [] [] h = tt
  are_ours [] (w ∷ vs) h = elim h [ ]
  are_ours (f ∷ fs) [] h = elim h [ ]
  are_ours (f ∷ fs) (w ∷ vs) ((fix, least), hs) =
      (IsFix-kind eco current (fixes_of f) w fix, are_ours fs vs hs)

  -- Versions that compare equal resolve the same.
  least_of_equal :
      (fs : List RemediationFinding) (r v : Version)
      → is_pep440 r ≡ is_pypi eco
      → is_pep440 v ≡ is_pypi eco
      → is_pep440 current ≡ is_pypi eco
      → Le r v
      → Le v r
      → IsLeastUpgrade fs r
      → IsLeastUpgrade fs v
  least_of_equal fs r v of_r of_v ours up down (above, all_resolved, least) = (
    Le-trans current r v (ours ∙ sym of_r) (of_r ∙ sym of_v) above up,
    All-map
        (λ f (w, fix, le).
          let of_w = IsFix-kind eco current (fixes_of f) w fix in
          (w, fix, Le-trans w r v (of_w ∙ sym of_r) (of_r ∙ sym of_v) le up))
        fs all_resolved,
    λ u of_u h k. Le-trans v r u (of_v ∙ sym of_r) (of_r ∙ sym of_u) down (least u of_u h k),
  )

  module _ (ours : is_pep440 current ≡ is_pypi eco) where
    raised_least :
        (fs : List RemediationFinding) (vs : List Version)
        → AreLeast eco current fs vs
        → (is_pep440 (or_else (raise current none vs) current) ≡ is_pypi eco)
          × IsLeastUpgrade fs (or_else (raise current none vs) current)
    raised_least fs vs h =
        let (of_r, above, all_vs, least) =
          raise-facts eco current ours none vs ours (are_ours fs vs h) in
        (
          of_r,
          (
            above,
            each_resolved fs vs _ h all_vs,
            λ u of_u le k. least u le (above_all fs vs u of_u h k),
          ),
        )

-- The proposal names the package of the group, and resolves the labels of its findings, all of them
-- and no others.
abbrev pub IsFor : Group → Proposal → Type 0
IsFor g p =
    (p.name ≡ g.pkg.name)
    × (p.ecosystem ≡ g.pkg.ecosystem)
    × (p.from ≡ g.pkg.version)
    × All (λ f. Any (λ l. l ≡ finding_label f) p.resolves) g.findings
    × All (λ l. Any (λ f. finding_label f ≡ l) g.findings) p.resolves

labels_named :
    (fs : List RemediationFinding) (ls : List String)
    → ((x : String) → Any (λ y. y ≡ x) (map finding_label fs) → Any (λ y. y ≡ x) ls)
    → All (λ f. Any (λ l. l ≡ finding_label f) ls) fs
labels_named [] ls h = tt
labels_named (f ∷ fs) ls h =
    (h (finding_label f) (inl refl), labels_named fs ls (λ x a. h x (inr a)))

labels_of :
    (fs : List RemediationFinding)
    → All (λ l. Any (λ f. finding_label f ≡ l) fs) (map finding_label fs)
labels_of [] = tt
labels_of (f ∷ fs) = (inl refl, All-map (λ l a. inr a) (map finding_label fs) (labels_of fs))

-- A group is answered by its least upgrade.
abbrev pub IsUpgraded : Group → Version → Answer → Type 0
IsUpgraded g current a =
    (p : Proposal) × (v : Version) × (a ≡ proposed p)
    × (p.status ≡ ok)
    × IsFor g p
    × (parse_version g.pkg.ecosystem p.to ≡ some v)
    × IsLeastUpgrade g.pkg.ecosystem current g.findings v

module _ (show : ℕ → String) (g : Group) (current : Version)
    (parsed : parse_version g.pkg.ecosystem g.pkg.version ≡ some current) where
  -- The text of the proposal stands for a version equal to the target.
  to_raw-parses :
      (vs : List Version) (t : Option Version)
      → AreLeast g.pkg.ecosystem current g.findings vs
      → ((w : Version) → t ≡ some w → Any (λ v. v ≡ w) vs)
      → (v : Version) × (parse_version g.pkg.ecosystem (to_raw show g t) ≡ some v)
        × Le (or_else t current) v
        × Le v (or_else t current)
  unfolding to_raw
  to_raw-parses vs none h from = (current, parsed, Le_refl current, Le_refl current)
  to_raw-parses vs (some w) h from =
      let (v, e, same) =
        raw_of-parses g.pkg.ecosystem current show w g.findings
          (fix-all_fixes g.pkg.ecosystem current g.findings vs w h (from w refl)) in
      let (down, up) = Le-eq v w same in (v, e, up, down)

  judge_least :
      (o : Option (List Version))
      → min_fixes g.pkg.ecosystem current g.findings ≡ o
      → ((judge show g current o ≡ without_fix (unfixable g))
          × Any (HasNone g.pkg.ecosystem current) g.findings)
        ⊎ IsUpgraded g current (judge show g current o)
  unfolding upgrade resolved_by
  judge_least none e = inl (refl, min_fixes-none g.pkg.ecosystem current g.findings e)
  judge_least (some vs) e =
      let ours = parse_version-kind g.pkg.ecosystem g.pkg.version current parsed in
      let h = min_fixes-some g.pkg.ecosystem current g.findings vs e in
      let t = raise current none vs in
      let (v, reads, up, down) = to_raw-parses vs t h (from vs) in
      let (of_r, least) = raised_least g.pkg.ecosystem current ours g.findings vs h in
      let of_v = parse_version-kind g.pkg.ecosystem (to_raw show g t) v reads in
      inr (
        upgrade show g current t,
        v,
        refl,
        refl,
        (
          refl,
          refl,
          refl,
          labels_named g.findings _ (dedupe-has (map finding_label g.findings)),
          dedupe-All _ (map finding_label g.findings) (labels_of g.findings),
        ),
        reads,
        least_of_equal g.pkg.ecosystem current g.findings (or_else t current) v of_r of_v ours up
            down least,
      )
    where
      from :
          (ws : List Version) (w : Version) → raise current none ws ≡ some w → Any (λ v. v ≡ w) ws
      from ws w e =
          elim (raise-some g.pkg.ecosystem current
            (parse_version-kind g.pkg.ecosystem g.pkg.version current parsed) none ws w e) [
              | inl k ↦ cc
              | inr a ↦ a
            ]

  -- A group is left without a fix exactly where some finding has none at or above the installed
  -- version; otherwise the least upgrade that resolves every finding is proposed.
  pub answer_least :
      ((answer show g ≡ without_fix (unfixable g))
        × Any (HasNone g.pkg.ecosystem current) g.findings)
      ⊎ IsUpgraded g current (answer show g)
  unfolding answer
  answer_least = rw parsed (judge_least (min_fixes g.pkg.ecosystem current g.findings) refl)
