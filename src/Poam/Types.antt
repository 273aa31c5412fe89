-- ===== src/Poam/Types.antt =====
-- poam.types.ts, the tuples of mapping.types.ts that create items, and the severities of the bus.
-- An ISO time that the service itself writes is its number of milliseconds.
use ai_devsecops_command_cen.Common.{ℕ, ◌*◌, String, Bool, true, false, Option, List}
use ai_devsecops_command_cen.Common.Dict.{Dict}
use ai_devsecops_command_cen.Common.Json.{Json}

pub data Framework : Type 0 where
  cis_v8 nist_800_53 soc2 iso_27001 : Framework

-- The severity of an event on the bus.
pub data Severity : Type 0 where
  critical high medium low info unknown : Severity

pub data VulnSeverity : Type 0 where
  critical high medium low info unknown : VulnSeverity

pub data PoamSeverity : Type 0 where
  critical high medium low : PoamSeverity

-- `opened` is the source's `open`.
pub data PoamStatus : Type 0 where
  opened in_progress awaiting_evidence closed risk_accepted overdue : PoamStatus

pub data PoamSource : Type 0 where
  auto manual : PoamSource

-- POAM_SLA_DAYS.
abbrev pub poam_sla_days : PoamSeverity → ℕ
poam_sla_days PoamSeverity.critical = 7
poam_sla_days PoamSeverity.high = 30
poam_sla_days PoamSeverity.medium = 90
poam_sla_days PoamSeverity.low = 180

-- DAY_MS.
abbrev pub day_ms : ℕ
day_ms = 24 * 60 * 60 * 1000

pub record PoamRiskAcceptance : Type 0 where
  pub accepted_by : String
  pub accepted_at : ℕ
  pub justification : String
  pub expires_at : String
  pub compensating_control_id : Option String

pub record PoamItem : Type 0 where
  pub poam_id : String
  pub tenant_id : String
  pub control_id : String
  pub framework : Framework
  pub vuln_id : Option String
  pub rule_id : Option String
  pub title : String
  pub description : String
  pub severity : PoamSeverity
  pub status : PoamStatus
  pub source : PoamSource
  pub created_at : ℕ
  pub created_by : String
  pub due_at : ℕ
  pub closed_at : Option ℕ
  pub closed_by : Option String
  pub resolution_notes : Option String
  pub evidence_refs : List String
  pub risk_acceptance : Option PoamRiskAcceptance
  pub metadata : Dict Json

pub record CreatePoamInput : Type 0 where
  pub control_id : String
  pub framework : Framework
  pub title : String
  pub description : String
  pub severity : PoamSeverity
  pub sla_days : Option ℕ
  pub vuln_id : Option String
  pub metadata : Option (Dict Json)

pub record CreatePoamResult : Type 0 where
  pub poam : PoamItem
  pub deduplicated : Bool

-- `status: 'all'` is `every`.
pub data StatusFilter : Type 0 where
  every : StatusFilter
  only : PoamStatus → StatusFilter

-- The cursor is given as the number that `parseInt` reads from it.
pub record ListPoamFilter : Type 0 where
  pub status : Option StatusFilter
  pub control_id : Option String
  pub framework : Option Framework
  pub vuln_id : Option String
  pub due_before : Option String
  pub due_after : Option String
  pub cursor : Option ℕ
  pub limit : Option ℕ

-- A match of a rule on a vulnerability: what the mapping engine hands to the service.
pub record ControlVulnTuple : Type 0 where
  pub control_id : String
  pub vuln_id : String
  pub framework : Framework
  pub rule_id : String
  pub severity : VulnSeverity
  pub sla_days : ℕ
  pub due_at : ℕ

-- `===` on statuses and on frameworks.
abbrev pub status_eq : PoamStatus → PoamStatus → Bool
status_eq opened opened = true
status_eq in_progress in_progress = true
status_eq awaiting_evidence awaiting_evidence = true
status_eq closed closed = true
status_eq risk_accepted risk_accepted = true
status_eq overdue overdue = true
status_eq _ _ = false

abbrev pub framework_eq : Framework → Framework → Bool
framework_eq cis_v8 cis_v8 = true
framework_eq nist_800_53 nist_800_53 = true
framework_eq soc2 soc2 = true
framework_eq iso_27001 iso_27001 = true
framework_eq _ _ = false

-- `status === 'closed' || status === 'risk_accepted'`.
abbrev pub is_settled : PoamStatus → Bool
is_settled closed = true
is_settled risk_accepted = true
is_settled _ = false
