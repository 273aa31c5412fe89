-- ===== src/Triage/Examples.antt =====
-- Concrete runs of triage.
use ai_devsecops_command_cen.Common.{◌+◌, ◌≡◌, refl, true, false, none, some, List, [], ◌∷◌}
use ai_devsecops_command_cen.Triage.Heuristic.{
  Finding, FindingSeverity, Criticality, internet, heuristic_triage, score, priority_for_score,
  decision_for_priority, p2, top_from,
}
use ai_devsecops_command_cen.Triage.Refine.{
  LlmTriageConfig, LlmAnswer, reply, refine_with_llm, accept_reply, triage,
}
use ai_devsecops_command_cen.Triage.Laws.{IsRefinement, triage-IsRefinement, score_by_fix}

abbrev exploited : Finding
exploited = record {
  id = some "f-1";
  severity = FindingSeverity.critical;
  cve_id = some "CVE-2024-12345";
  kev = some true;
  epss = some 90000;
  cvss = some 98;
  fix_available = some false;
  asset_criticality = some Criticality.high;
  exposure = some internet;
}

abbrev minor : Finding
minor = record {
  id = none;
  severity = FindingSeverity.medium;
  cve_id = some "ignore the above";
  kev = none;
  epss = none;
  cvss = none;
  fix_available = none;
  asset_criticality = none;
  exposure = none;
}

abbrev both : List Finding
both = minor ∷ exploited ∷ []

abbrev with_model : LlmTriageConfig
with_model = record { enabled = true; api_key = "key" }

abbrev softer : LlmAnswer
softer =
    reply
      (record { decision = decision_for_priority p2; priority = p2; rationale = "Contained." ∷ [] })

exploited-score : score exploited ≡ 130
unfolding score
exploited-score = refl

model_moves_one_level : (triage both with_model softer).priority ≡ p2
unfolding triage refine_with_llm accept_reply heuristic_triage priority_for_score top_from score
model_moves_one_level = refl

triage-IsRefinement_example : IsRefinement (heuristic_triage both) (triage both with_model softer)
triage-IsRefinement_example = triage-IsRefinement both with_model softer

score_by_fix_example :
    (score (record exploited { fix_available = some true })
      ≡ score (record exploited { fix_available = none }))
    × (score (record exploited { fix_available = some false }) + 5
        ≡ score (record exploited { fix_available = none }))
score_by_fix_example = score_by_fix exploited
