-- ===== src/Remediation/Complete.antt =====
-- The findings of the input, their groups and the answers of proposeRemediation.
use ai_devsecops_command_cen.Remediation.Whole.{
  IsGroupOf, IsAnswered, groups-IsGroupOf, answers-IsAnswered, put_all-findings,
}
use ai_devsecops_command_cen.Remediation.Result.{propose_remediation}
use ai_devsecops_command_cen.Remediation.Propose.{
  RemediationFinding, Group, group_findings, group_key, with_finding,
}
use ai_devsecops_command_cen.Common.{
  ℕ, String, ◌≡◌, refl, ap, ◌∙◌, inl, inr, Bool, true, none, some, List, [], ◌∷◌, ◌==◌, eq_iff,
  Bool-cases, select, All-map, All_own, All, Any,
}
use ai_devsecops_command_cen.Common.Groups.{put_all, get-collect}
use ai_devsecops_command_cen.Common.Dict
use ai_devsecops_command_cen.Common.Dict.{Dict}
use mathlib.Core.Path.{subst}

values-All :
    (P : Group → Type 0) (m : Dict Group) → All P (Dict.values m) → Dict.AllEntries (λ k g. P g) m
unfolding Dict.values
values-All P [] h = tt
values-All P ((k, g) ∷ m) (p, h) = (p, values-All P m h)

select_has :
    (p : RemediationFinding → Bool) (fs : List RemediationFinding) (f : RemediationFinding)
    → p f ≡ true
    → Any (λ h. f ≡ h) fs
    → (h : RemediationFinding) × (rest : List RemediationFinding) × (select p fs ≡ h ∷ rest)
select_has p [] f own h = elim h [ ]
select_has p (h ∷ fs) f own (inl e) =
    let here : p h ≡ true = subst (λ x. p x ≡ true) e own in rw here (h, select p fs, refl)
select_has p (h ∷ fs) f own (inr a) = elim (Bool-cases (p h)) [
  | inl t ↦ rw t (h, select p fs, refl)
  | inr t ↦ rw t (select_has p fs f own a)
]

-- The group of a key that a finding has.
get-groups :
    (fs : List RemediationFinding) (f : RemediationFinding)
    → Any (λ h. f ≡ h) fs
    → (g : Group) × (Dict.get (group_findings [] fs) (group_key f) ≡ some g)
unfolding group_findings Dict.get
get-groups fs f a =
    let (h, rest, e) = select_has (λ x. group_key x == group_key f) fs f ((eq_iff _ _).1 refl) a in
    (
      _,
      get-collect group_key with_finding fs [] (group_key f)
          ∙ (ap (put_all group_key with_finding none) e
              ∙ put_all-findings rest (with_finding none h)),
    )

module _ (show : ℕ → String) where
  -- The group of a finding is answered in the result.
  abbrev pub IsCovered : List RemediationFinding → RemediationFinding → Type 0
  IsCovered fs f =
      (g : Group) × IsGroupOf fs (group_key f) g × IsAnswered show (propose_remediation show fs) g

  covered :
      (fs : List RemediationFinding) (f : RemediationFinding) → Any (λ h. f ≡ h) fs → IsCovered fs f
  unfolding propose_remediation
  covered fs f a =
      let m = group_findings [] fs in
      let (g, found) = get-groups fs f a in
      (
        g,
        Dict.get-AllEntries (IsGroupOf fs) m (group_key f) g (groups-IsGroupOf fs) found,
        Dict.get-AllEntries (λ k h. IsAnswered show (propose_remediation show fs) h) m (group_key f)
            g (values-All _ m (answers-IsAnswered show (Dict.values m))) found,
      )

  -- Every finding's group, which has all findings with its key, is answered: by a proposal or as
  -- without a fix.
  pub propose_covers : (fs : List RemediationFinding) → All (IsCovered fs) fs
  propose_covers fs = All-map (covered fs) fs (All_own fs)
