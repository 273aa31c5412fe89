-- ===== src/Remediation/Whole.antt =====
-- proposeRemediation as a whole: its groups and its proposals.
use ai_devsecops_command_cen.Remediation.Least.{IsLeastUpgrade, IsFor, answer_least}
use ai_devsecops_command_cen.Remediation.Version.{parse_version, Version}
use ai_devsecops_command_cen.Common.{ap, inl, inr, Option-cases, All-map, All}
use ai_devsecops_command_cen.Remediation.Result.{
  answer, proposed, without_fix, Answer, answers, propose_remediation, add_answer, review,
  unfixable,
}
use ai_devsecops_command_cen.Remediation.Propose.{
  RemediationFinding, RemediationResult, group_findings, Group, group_key, with_finding, Proposal,
  ok, manual_review,
}
use ai_devsecops_command_cen.Common.{
  ℕ, String, ◌≡◌, refl, sym, ◌∙◌, ◌⊎◌, none, some, List, [], ◌∷◌, ◌++◌, Any,
}
use ai_devsecops_command_cen.Common.Groups
use ai_devsecops_command_cen.Common.Groups.{put_all, collect-groups, get-collect, AllEntries-map}
use ai_devsecops_command_cen.Common.Dict
use ai_devsecops_command_cen.Common.Dict.{Dict}
use mathlib.Core.Path.{subst}
use mathlib.Core.List.{append-nil, append_assoc}

-- The findings with a key, under the package of the first of them.
abbrev pub IsGroupOf : List RemediationFinding → String → Group → Type 0
IsGroupOf fs k g =
    (f : RemediationFinding) × (rest : List RemediationFinding) × (Groups.group_of group_key
        with_finding fs k
      ≡ f ∷ rest)
    × (g ≡ record { pkg = f.pkg; findings = f ∷ rest })

abbrev with_all : Group → List RemediationFinding → Group
with_all g fs = record { pkg = g.pkg; findings = fs }

pub put_all-findings :
    (fs : List RemediationFinding) (g : Group)
    → put_all group_key with_finding (some g) fs
      ≡ some (record { pkg = g.pkg; findings = g.findings ++ fs })
put_all-findings [] g = ap (λ fs. some (with_all g fs)) (sym (append-nil g.findings))
put_all-findings (f ∷ fs) g =
    put_all-findings fs (with_finding (some g) f)
    ∙ ap (λ hs. some (with_all g hs)) (append_assoc g.findings (f ∷ []) fs)

grouped :
    (fs : List RemediationFinding) (k : String) (found : List RemediationFinding) (g : Group)
    → Groups.group_of group_key with_finding fs k ≡ found
    → put_all group_key with_finding none found ≡ some g
    → IsGroupOf fs k g
grouped fs k [] g e h = cc
grouped fs k (f ∷ rest) g e h =
    let made = put_all-findings rest (with_finding none f) in
    let same : some g ≡ some (record { pkg = f.pkg; findings = f ∷ rest }) = sym h ∙ made in
    (f, rest, e, cc)

abbrev groups_of : List RemediationFinding → Dict Group
groups_of fs = group_findings [] fs

pub groups-IsGroupOf :
    (fs : List RemediationFinding) → Dict.AllEntries (IsGroupOf fs) (groups_of fs)
unfolding group_findings
groups-IsGroupOf fs =
    AllEntries-map (λ k g h. grouped fs k _ g refl h) _ (collect-groups group_key with_finding fs)

-- The answer to a group is in the result.
abbrev pub IsAnswered : (ℕ → String) → RemediationResult → Group → Type 0
IsAnswered show r g =
    Any (λ p. answer show g ≡ proposed p) r.proposals
    ⊎ Any (λ u. answer show g ≡ without_fix u) r.unresolved

answer-review :
    (show : ℕ → String) (g : Group)
    → parse_version g.pkg.ecosystem g.pkg.version ≡ none
    → answer show g ≡ proposed (review g)
unfolding answer
answer-review show g e = rw e refl

module _ (show : ℕ → String) where
  add_answer-keeps :
      (a : Answer) (r : RemediationResult) (g : Group)
      → IsAnswered show r g
      → IsAnswered show (add_answer show a r) g
  add_answer-keeps (proposed p) r g (inl h) = inl (inr h)
  add_answer-keeps (proposed p) r g (inr h) = inr h
  add_answer-keeps (without_fix u) r g (inl h) = inl h
  add_answer-keeps (without_fix u) r g (inr h) = inr (inr h)

  add_answer_own :
      (a : Answer) (r : RemediationResult) (g : Group)
      → answer show g ≡ a
      → IsAnswered show (add_answer show a r) g
  add_answer_own (proposed p) r g e = inl (inl e)
  add_answer_own (without_fix u) r g e = inr (inl e)

  pub answers-IsAnswered : (gs : List Group) → All (IsAnswered show (answers show gs)) gs
  unfolding answers
  answers-IsAnswered [] = tt
  answers-IsAnswered (g ∷ gs) = (
    add_answer_own (answer show g) (answers show gs) g refl,
    All-map (λ h a. add_answer-keeps (answer show g) (answers show gs) h a) gs
        (answers-IsAnswered gs),
  )

  -- A proposal is the answer to a group of the findings.
  abbrev pub IsOf : List RemediationFinding → Proposal → Type 0
  IsOf fs p = (k : String) × (g : Group) × IsGroupOf fs k g × (answer show g ≡ proposed p)

  add_answer-IsOf :
      (fs : List RemediationFinding) (k : String) (g : Group) (a : Answer) (r : RemediationResult)
      → IsGroupOf fs k g
      → answer show g ≡ a
      → All (IsOf fs) r.proposals
      → All (IsOf fs) (add_answer show a r).proposals
  add_answer-IsOf fs k g (proposed p) r of e h = ((k, g, of, e), h)
  add_answer-IsOf fs k g (without_fix u) r of e h = h

  answers-IsOf :
      (fs : List RemediationFinding) (m : Dict Group)
      → Dict.AllEntries (IsGroupOf fs) m
      → All (IsOf fs) (answers show (Dict.values m)).proposals
  unfolding answers Dict.values
  answers-IsOf fs [] h = tt
  answers-IsOf fs ((k, g) ∷ m) (of, h) =
      add_answer-IsOf fs k g (answer show g) (answers show (Dict.values m)) of refl
        (answers-IsOf fs m h)

  pub propose-IsOf :
      (fs : List RemediationFinding) → All (IsOf fs) (propose_remediation show fs).proposals
  unfolding propose_remediation
  propose-IsOf fs = answers-IsOf fs (groups_of fs) (groups-IsGroupOf fs)

  -- The proposal is for the package of a group of the findings and lists their labels, and its
  -- version is the least that resolves the findings of the group.
  abbrev pub IsLeastOf : List RemediationFinding → Proposal → Type 0
  IsLeastOf fs p =
      (k : String) × (g : Group) × (current : Version) × (v : Version) × IsGroupOf fs k g
      × IsFor g p
      × (parse_version g.pkg.ecosystem g.pkg.version ≡ some current)
      × (parse_version g.pkg.ecosystem p.to ≡ some v)
      × IsLeastUpgrade g.pkg.ecosystem current g.findings v

  least_of :
      (fs : List RemediationFinding) (p : Proposal) → IsOf fs p → p.status ≡ ok → IsLeastOf fs p
  least_of fs p (k, g, of, e) is_ok =
      elim (Option-cases (parse_version g.pkg.ecosystem g.pkg.version)) [
        | inl unread ↦ absurd (reviewed unread)
        | inr (current, parsed) ↦ elim (answer_least show g current parsed) [
          | inl (left, _) ↦
              let impossible : proposed p ≡ without_fix (unfixable g) = sym e ∙ left in cc
          | inr (q, v, answered, _, is_for, reads, least) ↦
              let both : proposed q ≡ proposed p = sym answered ∙ e in
              let same : q ≡ p = cc in
              (
                k,
                g,
                current,
                v,
                of,
                subst (IsFor g) same is_for,
                parsed,
                subst (λ x. parse_version g.pkg.ecosystem x.to ≡ some v) same reads,
                least,
              )
        ]
      ]
    where
      reviewed : parse_version g.pkg.ecosystem g.pkg.version ≡ none → ⊥
      reviewed unread =
          let answered = answer-review show g unread in
          let both : proposed (review g) ≡ proposed p = sym answered ∙ e in
          let same : review g ≡ p = cc in
          let status : manual_review ≡ ok = ap (λ x. x.status) same ∙ is_ok in cc

  -- Every proposal with status ok is for a group of the findings: it has the name, the ecosystem and
  -- the version of the group's package, resolves exactly the labels of the group's findings, and
  -- upgrades to the least version that is not below the installed one and is, for each of these
  -- findings, not below one of its fixes.
  pub propose_least :
      (fs : List RemediationFinding)
      → All (λ p. p.status ≡ ok → IsLeastOf fs p) (propose_remediation show fs).proposals
  propose_least fs = All-map (λ p. least_of fs p) _ (propose-IsOf fs)
