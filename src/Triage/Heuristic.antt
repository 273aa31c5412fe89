-- ===== src/Triage/Heuristic.antt =====
-- The types of triage.ts and `heuristicTriage`, on input that the schema has accepted. EPSS is in
-- hundred-thousandths and CVSS in tenths. A rationale line is the data that its text is made of.
use ai_devsecops_command_cen.Common.{
  ℕ, ◌+◌, ◌-◌, String, Bool, true, false, Option, none, some, List, [], ◌∷◌, ◌++◌, map,
  if◌then◌else◌, ltb, leb, length, select, or_else,
}

-- The severities of `FindingSchema`.
pub data FindingSeverity : Type 0 where
  critical high medium low informational : FindingSeverity

pub data Criticality : Type 0 where
  critical high medium low : Criticality

pub data Exposure : Type 0 where
  internet internal : Exposure

pub record Finding : Type 0 where
  pub id : Option String
  pub severity : FindingSeverity
  pub cve_id : Option String
  pub kev : Option Bool
  pub epss : Option ℕ
  pub cvss : Option ℕ
  pub fix_available : Option Bool
  pub asset_criticality : Option Criticality
  pub exposure : Option Exposure

pub data Decision : Type 0 where
  open_incident create_ticket log_only : Decision

pub data Priority : Type 0 where
  p1 p2 p3 p4 : Priority

pub data Engine : Type 0 where
  heuristic llm : Engine

pub data Reason : Type 0 where
  base : ℕ → FindingSeverity → Reason
  known_exploited : Reason
  exploitation_likely : ℕ → Reason
  internet_exposed : Reason
  critical_asset : Reason
  high_asset : Reason
  no_fix : Reason

pub data Line : Type 0 where
  because : String → Reason → Line
  no_findings : Line
  overall : ℕ → Priority → Decision → Line
  -- a line of the model's reply
  said : String → Line

pub record PerFindingScore : Type 0 where
  pub id : Option String
  pub score : ℕ
  pub priority : Priority

pub record Counts : Type 0 where
  pub total : ℕ
  pub critical : ℕ
  pub high : ℕ

-- `triagedAt` is left out.
pub record TriageResult : Type 0 where
  pub decision : Decision
  pub priority : Priority
  pub rationale : List Line
  pub per_finding : List PerFindingScore
  pub counts : Counts
  pub engine : Engine

-- SEVERITY_BASE.
abbrev pub severity_base : FindingSeverity → ℕ
severity_base FindingSeverity.critical = 80
severity_base FindingSeverity.high = 60
severity_base FindingSeverity.medium = 35
severity_base FindingSeverity.low = 15
severity_base FindingSeverity.informational = 5

abbrev pub is_internet : Option Exposure → Bool
is_internet (some internet) = true
is_internet _ = false

abbrev pub is_true : Option Bool → Bool
is_true (some true) = true
is_true _ = false

abbrev pub is_false : Option Bool → Bool
is_false (some false) = true
is_false _ = false

-- `epss !== undefined && epss >= 0.5`.
abbrev pub is_likely : Option ℕ → Bool
is_likely none = false
is_likely (some e) = leb 50000 e

abbrev pub asset_points : Option Criticality → ℕ
asset_points (some Criticality.critical) = 10
asset_points (some Criticality.high) = 5
asset_points _ = 0

abbrev pub asset_reasons : Option Criticality → List Reason
asset_reasons (some Criticality.critical) = critical_asset ∷ []
asset_reasons (some Criticality.high) = high_asset ∷ []
asset_reasons _ = []

-- The score of `scoreFinding`. The base is at least 5, so the subtraction is exact.
unfoldable pub score : Finding → ℕ
score f =
    severity_base f.severity
    + (if is_true f.kev then 25 else 0)
    + (if is_likely f.epss then 15 else 0)
    + (if is_internet f.exposure then 10 else 0)
    + asset_points f.asset_criticality
    - (if is_false f.fix_available then 5 else 0)

unfoldable pub reasons : Finding → List Reason
reasons f =
    base (severity_base f.severity) f.severity
    ∷ ((if is_true f.kev then known_exploited ∷ [] else [])
        ++ ((if is_likely f.epss then exploitation_likely (or_else f.epss 0) ∷ [] else [])
            ++ ((if is_internet f.exposure then internet_exposed ∷ [] else [])
                ++ (asset_reasons f.asset_criticality
                    ++ (if is_false f.fix_available then no_fix ∷ [] else [])))))

-- `f.id ?? f.cveId`.
abbrev pub name_of : Finding → Option String
name_of f = elim f.id [ none ↦ f.cve_id | some i ↦ some i ]

unfoldable pub lines_of : Finding → List Line
lines_of f = map (because (or_else (name_of f) "finding")) (reasons f)

unfoldable pub priority_for_score : ℕ → Priority
priority_for_score n = if leb 80 n then p1 else if leb 60 n then p2 else if leb 35 n then p3 else p4

abbrev pub decision_for_priority : Priority → Decision
decision_for_priority p1 = open_incident
decision_for_priority p2 = open_incident
decision_for_priority p3 = create_ticket
decision_for_priority p4 = log_only

abbrev pub is_critical : Finding → Bool
is_critical f = elim f.severity [ FindingSeverity.critical ↦ true | _ ↦ false ]

abbrev pub is_high : Finding → Bool
is_high f = elim f.severity [ FindingSeverity.high ↦ true | _ ↦ false ]

abbrev pub scored : Finding → PerFindingScore
scored f = record { id = name_of f; score = score f; priority = priority_for_score (score f) }

-- The loop over the findings, from the highest score so far.
unfoldable pub top_from : ℕ → List Finding → ℕ
top_from top [] = top
top_from top (f ∷ fs) = top_from (if ltb top (score f) then score f else top) fs

unfoldable pub all_lines : List Finding → List Line
all_lines [] = []
all_lines (f ∷ fs) = lines_of f ++ all_lines fs

abbrev pub counts_of : List Finding → Counts
counts_of fs = record {
  total = length fs;
  critical = length (select is_critical fs);
  high = length (select is_high fs);
}

-- `topScore` starts at -Infinity, so the first finding sets it.
unfoldable pub heuristic_triage : List Finding → TriageResult
heuristic_triage [] = record {
  decision = log_only;
  priority = p4;
  rationale = no_findings ∷ [];
  per_finding = [];
  counts = record { total = 0; critical = 0; high = 0 };
  engine = heuristic;
}
heuristic_triage (f ∷ fs) =
    let top = top_from (score f) fs in
    let priority = priority_for_score top in
    let decision = decision_for_priority priority in
    record {
      decision = decision;
      priority = priority;
      rationale = all_lines (f ∷ fs) ++ overall top priority decision ∷ [];
      per_finding = map scored (f ∷ fs);
      counts = counts_of (f ∷ fs);
      engine = heuristic;
    }
