-- ===== src/Remediation/Apply.antt =====
-- applyRemediation. The call of the integration service is a parameter that acts on a state of its
-- own and may throw.
use ai_devsecops_command_cen.Common.{arith}
use ai_devsecops_command_cen.Remediation.Version.{Version}
use ai_devsecops_command_cen.Remediation.Whole.{IsOf}
use ai_devsecops_command_cen.Remediation.Result.{
  answer, upgrade, answer_with, judge, proposed, review,
}
use ai_devsecops_command_cen.Common.{ap, ◌∙◌, some, List}
use mathlib.Core.Path.{subst}
use ai_devsecops_command_cen.Remediation.Propose.{
  Proposal, ProposalStatus, ok, RemediationFinding, Group, raise,
}
use ai_devsecops_command_cen.Common.{
  ℕ, String, ◌≡◌, refl, ◌≢◌, ◌⊎◌, inl, inr, Bool, true, false, not, Option, none, ◌==◌, eq_iff,
  if◌then◌else◌, Bool-cases, or_else,
}
use mathlib.Core.Path.{subst}
use ai_devsecops_command_cen.Remediation.Hint.{manifest_hint}
use ai_devsecops_command_cen.Remediation.Propose.{ok, manual_review}

pub record ApplyContext : Type 0 where
  pub finding_id : Option String
  pub cve_id : Option String
  pub asset_id : Option String
  pub repo : Option String

pub record ApplyInput : Type 0 where
  pub integration_id : Option String
  pub proposal : Proposal
  pub context : Option ApplyContext
  pub dry_run : Option Bool

pub data ApplyKind : Type 0 where
  issue pull_request : ApplyKind

pub record ApplyResult : Type 0 where
  pub applied : Bool
  pub integration_id : String
  pub kind : Option ApplyKind
  pub url : Option String
  pub number : Option ℕ
  pub message : String

pub data ApplyOutcome (E : Type 0) : Type 0 where
  returned : ApplyResult → ApplyOutcome E
  threw : E → ApplyOutcome E

abbrev pub refusal : String → String → ApplyResult
refusal integration_id message = record {
  applied = false;
  integration_id = integration_id;
  kind = none;
  url = none;
  number = none;
  message = message;
}

abbrev pub is_ok : ProposalStatus → Bool
is_ok ok = true
is_ok manual_review = false

clash : (b : Bool) → b ≡ true → b ≡ false → ⊥
clash true h k = ground arith
clash false h k = ground arith

abbrev pub hint_of : Proposal → String
hint_of p = manifest_hint p.ecosystem p.name p.to

-- What the gates ask for.
abbrev pub MayPass : ApplyInput → Type 0
MayPass input =
    (or_else input.integration_id "" ≢ "")
    × (input.proposal.status ≡ ok)
    × (input.proposal.manifest_hint ≡ hint_of input.proposal)

abbrev pub apply_of : Option String → Option ApplyContext → Option Bool → Proposal → ApplyInput
apply_of id context dry_run p = record {
  integration_id = id;
  proposal = p;
  context = context;
  dry_run = dry_run;
}

module _ {E S : Type 0} (call_integration : ApplyInput → S → ApplyOutcome E × S) where
  unfoldable pub apply_remediation : ApplyInput → S → ApplyOutcome E × S
  unfolding manifest_hint
  apply_remediation input s =
      let integration_id = or_else input.integration_id "" in
      if integration_id == ""
      then (returned (refusal "" "integrationId is required to apply a remediation proposal"), s)
      else if not (is_ok input.proposal.status)
      then (
        returned (
            refusal integration_id
              "proposal needs manual_review approval before it can be applied — remediation.apply only accepts proposals with status ok"),
        s,
      )
      else if not (input.proposal.manifest_hint == hint_of input.proposal)
      then (
        returned (
            refusal integration_id
              "proposal manifestHint does not match the hint remediation.propose generates for its package and version — remediation.apply only forwards generated hints"),
        s,
      )
      else call_integration input s

  -- What is refusal leaves the state alone and says that nothing was applied.
  abbrev pub IsRefused : ApplyInput → S → Type 0
  IsRefused input s =
      (r : ApplyResult) × (apply_remediation input s ≡ (returned r, s)) × (r.applied ≡ false)

  ok_of : (t : ProposalStatus) → is_ok t ≡ true → t ≡ ok
  ok_of ok h = refl
  ok_of manual_review h = cc

  -- The integration service is called exactly with what passes the gates: an integration, status ok,
  -- and the hint that is generated for the package and version. All else is refusal.
  pub apply_remediation_gated :
      (input : ApplyInput) (s : S)
      → (MayPass input × (apply_remediation input s ≡ call_integration input s))
        ⊎ ((MayPass input → ⊥) × IsRefused input s)
  unfolding apply_remediation
  apply_remediation_gated input s = elim (Bool-cases (or_else input.integration_id "" == "")) [
    | inl e ↦ inr ((λ h. h.0 ((eq_iff _ _).0 e)), rw e (_, refl, refl))
    | inr e ↦ elim (Bool-cases (is_ok input.proposal.status)) [
      | inr f ↦
          inr
            ((λ h. clash (is_ok input.proposal.status) (ap is_ok h.1) f), rw (e, f) (_, refl, refl))
      | inl f ↦ elim (Bool-cases (input.proposal.manifest_hint == hint_of input.proposal)) [
        | inl h ↦ inl (
          (
            (λ h. clash (or_else input.integration_id "" == "") ((eq_iff _ _).1 h) e),
            ok_of input.proposal.status f,
            (eq_iff _ _).0 h,
          ),
          rw (e, f, h) refl,
        )
        | inr h ↦ inr (
          (λ q.
              clash (input.proposal.manifest_hint == hint_of input.proposal) ((eq_iff _ _).1 q.2)
                h),
          rw (e, f, h) (_, refl, refl),
        )
      ]
    ]
  ]

module _ {E S : Type 0} (call_integration : ApplyInput → S → ApplyOutcome E × S)
    (show : ℕ → String) where
  judged_hint :
      (g : Group) (current : Version) (o : Option (List Version)) (p : Proposal)
      → judge show g current o ≡ proposed p
      → p.manifest_hint ≡ hint_of p
  unfolding upgrade
  judged_hint g current none p e = cc
  judged_hint g current (some vs) p e =
      let q = upgrade show g current (raise current none vs) in
      let same : q ≡ p = cc in subst (λ x. x.manifest_hint ≡ hint_of x) same refl

  -- Where a proposal has status ok, its hint is the generated one.
  hint_answered :
      (g : Group) (o : Option Version) (p : Proposal)
      → answer_with show g o ≡ proposed p
      → p.status ≡ ok
      → p.manifest_hint ≡ hint_of p
  hint_answered g none p e h =
      let same : review g ≡ p = cc in
      let status : manual_review ≡ ok = ap (λ x. x.status) same ∙ h in cc
  hint_answered g (some current) p e h = judged_hint g current _ p e

  pub of_answer :
      (fs : List RemediationFinding) (p : Proposal)
      → IsOf show fs p
      → p.status ≡ ok
      → p.manifest_hint ≡ hint_of p
  unfolding answer
  of_answer fs p (k, g, of, e) h = hint_answered g _ p e h

  pub applied_of :
      (input : ApplyInput) (s : S)
      → MayPass input
      → apply_remediation call_integration input s ≡ call_integration input s
  applied_of input s h = elim (apply_remediation_gated call_integration input s) [
    | inl (_, e) ↦ e
    | inr (stuck, _) ↦ absurd (stuck h)
  ]
