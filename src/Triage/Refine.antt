-- ===== src/Triage/Refine.antt =====
-- `refineWithLlm` and `triage`. What the HTTP call brings is a parameter.
use ai_devsecops_command_cen.Common.{
  ℕ, zero, suc, ◌+◌, ◌-◌, String, Bool, true, false, ◌&&◌, ◌||◌, not, Option, none, some, List, [],
  ◌∷◌, ◌++◌, map, if◌then◌else◌, leb, eqb, take, ◌==◌,
}
use ai_devsecops_command_cen.Common.Text.{codes, is_digit}
use ai_devsecops_command_cen.Triage.Heuristic.{
  Finding, FindingSeverity, Criticality, Exposure, Decision, Priority, p1, p2, p3, p4, llm, said,
  TriageResult, decision_for_priority, heuristic_triage,
}

pub record LlmTriageConfig : Type 0 where
  pub enabled : Bool
  pub api_key : String

-- The reply after `TriageResultSchema`.
pub record LlmTriageReply : Type 0 where
  pub decision : Decision
  pub priority : Priority
  pub rationale : List String

-- What comes of the request: the call throws or is aborted by the timeout, the status is no 2xx, the
-- body cannot be read, has no content, is no JSON or does not fit the schema, or it is a reply.
pub data LlmAnswer : Type 0 where
  transport_error non_2xx no_content invalid_json schema_mismatch : LlmAnswer
  reply : LlmTriageReply → LlmAnswer

-- PRIORITY_ORDER.indexOf.
abbrev pub index_of : Priority → ℕ
index_of p1 = 0
index_of p2 = 1
index_of p3 = 2
index_of p4 = 3

abbrev pub distance : ℕ → ℕ → ℕ
distance a b = (a - b) + (b - a)

abbrev pub clamp_within_one_level : Priority → Priority → Bool
clamp_within_one_level heuristic proposed =
    leb (distance (index_of heuristic) (index_of proposed)) 1

unfoldable pub accept_reply : TriageResult → LlmTriageReply → TriageResult
accept_reply h r =
    if clamp_within_one_level h.priority r.priority
    then record h {
      decision = decision_for_priority r.priority;
      priority = r.priority;
      rationale = h.rationale ++ map said r.rationale;
      engine = llm;
    }
    else h

unfoldable pub refine_with_llm : TriageResult → LlmTriageConfig → LlmAnswer → TriageResult
refine_with_llm h config answer =
    if not config.enabled || config.api_key == ""
    then h
    else elim answer [ reply r ↦ accept_reply h r | _ ↦ h ]

-- `triage`, on findings that the schema has accepted.
unfoldable pub triage : List Finding → LlmTriageConfig → LlmAnswer → TriageResult
triage findings config answer =
    let h = heuristic_triage findings in
    if config.enabled then refine_with_llm h config answer else h

-- MAX_FINDINGS_TO_LLM.
abbrev pub max_findings_to_llm : ℕ
max_findings_to_llm = 50

-- `\d{n,}$`, and `\d{n}` followed by `-` and the other pattern.
unfoldable pub digits_to_end : ℕ → List ℕ → Bool
digits_to_end zero [] = true
digits_to_end (suc n) [] = false
digits_to_end zero (c ∷ cs) = is_digit c && digits_to_end zero cs
digits_to_end (suc n) (c ∷ cs) = is_digit c && digits_to_end n cs

unfoldable pub year_then_number : ℕ → List ℕ → Bool
year_then_number n [] = false
year_then_number zero (c ∷ cs) = eqb c b'-' && digits_to_end 4 cs
year_then_number (suc n) (c ∷ cs) = is_digit c && year_then_number n cs

abbrev pub after_prefix : List ℕ → Bool
after_prefix (c ∷ v ∷ e ∷ d ∷ rest) =
    eqb c b'C' && (eqb v b'V' && (eqb e b'E' && (eqb d b'-' && year_then_number 4 rest)))
after_prefix _ = false

-- CVE_ID.test.
unfoldable pub is_cve_id : String → Bool
is_cve_id s = after_prefix (codes s)

-- `Omit<Finding, 'id'>`.
pub record PromptFinding : Type 0 where
  pub severity : FindingSeverity
  pub cve_id : Option String
  pub kev : Option Bool
  pub epss : Option ℕ
  pub cvss : Option ℕ
  pub fix_available : Option Bool
  pub asset_criticality : Option Criticality
  pub exposure : Option Exposure

abbrev pub well_formed : Option String → Option String
well_formed none = none
well_formed (some c) = if is_cve_id c then some c else none

abbrev pub strip : Finding → PromptFinding
strip f = record {
  severity = f.severity;
  cve_id = well_formed f.cve_id;
  kev = f.kev;
  epss = f.epss;
  cvss = f.cvss;
  fix_available = f.fix_available;
  asset_criticality = f.asset_criticality;
  exposure = f.exposure;
}

unfoldable pub sanitize_findings_for_prompt : List Finding → List PromptFinding
sanitize_findings_for_prompt fs = map strip (take max_findings_to_llm fs)
