-- ===== src/Remediation/Task.antt =====
-- The task `remediation.apply` (services/agent/src/agents/registry.ts): its input is parsed with
-- ApplyInputSchema and then handed to applyRemediation. An input here has the types of the schema, so
-- that the bounds on its texts and lists are what is left to test.
use ai_devsecops_command_cen.Remediation.Apply.{
  ApplyContext, ApplyInput, ApplyOutcome, threw, apply_remediation,
}
use ai_devsecops_command_cen.Remediation.Propose.{Proposal}
use ai_devsecops_command_cen.Common.{
  ℕ, ◌≤◌, ◌⊎◌, String, ◌≡◌, Bool, true, ◌&&◌, Option, none, some, all, length, leb, if◌then◌else◌,
}

-- `size` is JavaScript's `length` of a string.
module _ (size : String → ℕ) where
  abbrev pub has_at_most : ℕ → String → Bool
  has_at_most n text = leb (size text) n

  abbrev pub filled_at_most : ℕ → String → Bool
  filled_at_most n text = leb 1 (size text) && has_at_most n text

  abbrev pub optional_at_most : ℕ → Option String → Bool
  optional_at_most n none = true
  optional_at_most n (some text) = has_at_most n text

  abbrev pub fits_proposal : Proposal → Bool
  fits_proposal p =
      filled_at_most 200 p.name
      && filled_at_most 100 p.from
      && filled_at_most 100 p.to
      && all (has_at_most 128) p.resolves
      && leb (length p.resolves) 50
      && has_at_most 2000 p.manifest_hint

  abbrev pub fits_context : Option ApplyContext → Bool
  fits_context none = true
  fits_context (some c) =
      optional_at_most 128 c.finding_id
      && optional_at_most 32 c.cve_id
      && optional_at_most 128 c.asset_id
      && optional_at_most 200 c.repo

  abbrev pub fits_input : ApplyInput → Bool
  fits_input input =
      optional_at_most 200 input.integration_id
      && fits_proposal input.proposal
      && fits_context input.context

  module _ {E S : Type 0} (invalid : E)
      (call_integration : ApplyInput → S → ApplyOutcome E × S) where
    unfoldable pub apply_task : ApplyInput → S → ApplyOutcome E × S
    unfolding apply_remediation
    apply_task input s =
        if fits_input input then apply_remediation call_integration input s else (threw invalid, s)

    -- What becomes of a proposal that is applied.
    abbrev pub IsTaken : ApplyInput → S → Type 0
    IsTaken input s =
        (apply_task input s
          ≡ (if fits_input input then call_integration input s else (threw invalid, s)))
        × ((length input.proposal.resolves ≤ 50) ⊎ (apply_task input s ≡ (threw invalid, s)))
