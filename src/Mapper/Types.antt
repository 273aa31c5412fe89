-- ===== src/Mapper/Types.antt =====
-- mapping.types.ts. An absent field is `none`; a time that the mapper itself writes is its number of
-- milliseconds.
use ai_devsecops_command_cen.Common.{ℕ, String, Bool, Option, List}
use ai_devsecops_command_cen.Common.Dict.{Dict}
use ai_devsecops_command_cen.Poam.Types.{Framework, VulnSeverity, ControlVulnTuple}
use ai_devsecops_command_cen.Common.Json.{Json}

pub data VulnKind : Type 0 where
  sca sast dast runtime manual unknown : VulnKind

pub data MappingSubjectKind : Type 0 where
  vulnerability runtime_risk health_issue : MappingSubjectKind

pub record MappingInput : Type 0 where
  pub vuln_id : String
  pub tenant_id : String
  pub cve_id : Option String
  pub severity : VulnSeverity
  pub kind : VulnKind
  pub kev : Bool
  pub introduced_at : Option String
  pub asset_id : String
  pub component_id : Option String
  pub metadata : Option (Dict Json)
  pub subject_kind : Option MappingSubjectKind
  pub rule_id : Option String
  pub resource_kind : Option String
  pub namespace : Option String
  pub cluster_id : Option String
  pub workload_name : Option String

-- `contributes` is always 'fail', so it is left out.
pub record ControlMapping : Type 0 where
  pub rule_id : String
  pub control_id : String
  pub framework : Framework
  pub title : String
  pub description : String
  pub sla_days : ℕ
  pub priority : ℕ

mutual
  pub data Predicate : Type 0 where
    always : Predicate
    severity_gte : VulnSeverity → Predicate
    severity_eq : VulnSeverity → Predicate
    kind_eq : VulnKind → Predicate
    kev : Bool → Predicate
    introduced_within_days : ℕ → Predicate
    cve_pattern : String → Predicate
    asset_pattern : String → Predicate
    component_pattern : String → Predicate
    subject_kind_is : MappingSubjectKind → Predicate
    rule_id_in : List String → Predicate
    resource_kind_is : String → Predicate
    conj : Clauses → Predicate
    disj : Clauses → Predicate
    neg : Predicate → Predicate

  -- `Predicate[]`.
  pub data Clauses : Type 0 where
    nil : Clauses
    cons : Predicate → Clauses → Clauses

pub record MappingRule : Type 0 where
  pub rule_id : String
  pub framework : Framework
  pub control_id : String
  pub title : String
  pub description : String
  pub predicate : Predicate
  pub sla_days : ℕ
  pub priority : ℕ
  pub enabled : Bool

-- The two values of `ComplianceControlStatus` that the mapper gives.
pub data EffectiveStatus : Type 0 where
  fail pass : EffectiveStatus

pub record MappingEvaluation : Type 0 where
  pub input : MappingInput
  pub matches : List ControlMapping
  pub effective_status : EffectiveStatus
  pub evaluated_at : ℕ

-- An entry of `controlSummary`.
pub record ControlSummary : Type 0 where
  pub control_id : String
  pub framework : Framework
  pub vuln_ids : List String
  pub highest_severity : VulnSeverity

pub record MappingBatchResult : Type 0 where
  pub tenant_id : String
  pub evaluated_at : ℕ
  pub rules_version : String
  pub evaluations : List MappingEvaluation
  pub tuples : List ControlVulnTuple
  pub control_summary : Dict ControlSummary
