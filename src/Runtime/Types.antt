-- ===== src/Runtime/Types.antt =====
-- What the rules read of a pod and write of a risk: backend/models/infrastructure/pod.model.ts and
-- runtime-risk.model.ts. Random ids and timestamps are left out.
use ai_devsecops_command_cen.Common.{ℕ, String, Bool, Option, List}

pub data RiskCategory : Type 0 where
  privileged_container host_path_volume host_network host_pid host_ipc root_user : RiskCategory
  dangerous_capability unsafe_security_context service_account_risk rbac_risk : RiskCategory
  image_risk network_policy_missing resource_limits_missing secrets_in_env : RiskCategory
  automount_service_account_token unknown : RiskCategory

pub data RiskLevel : Type 0 where
  critical high medium low : RiskLevel

pub data RiskSeverity : Type 0 where
  critical high medium low info unknown : RiskSeverity

pub data RiskSubject : Type 0 where
  pod workload service service_account role_binding cluster_role_binding ingress : RiskSubject
  config_map secret unknown : RiskSubject

pub record Container : Type 0 where
  pub name : String
  pub image : String
  pub image_digest : Option String
  pub cpu_limits_millicores : ℕ
  pub memory_limits_bytes : ℕ
  pub privileged : Bool
  pub run_as_root : Bool
  pub added_capabilities : List String
  pub host_paths : List String

pub record Pod : Type 0 where
  pub namespace : String
  pub name : String
  pub service_account : Option String
  pub containers : List Container

pub record RuleContext : Type 0 where
  pub tenant_id : String
  pub cluster_id : String
  pub cluster_name : String

pub data Evidence : Type 0 where
  text : String → Evidence
  flag : Bool → Evidence
  null : Evidence

-- A rule without its `evaluate`.
pub record RuleInfo : Type 0 where
  pub id : String
  pub name : String
  pub category : RiskCategory
  pub level : RiskLevel
  pub severity : RiskSeverity
  pub remediation : String
  pub references : List String

pub record RuntimeRisk : Type 0 where
  pub tenant_id : String
  pub cluster_id : String
  pub cluster_name : String
  pub namespace : String
  pub subject : RiskSubject
  pub subject_kind : String
  pub subject_name : String
  pub rule_id : String
  pub rule_name : String
  pub category : RiskCategory
  pub level : RiskLevel
  pub severity : RiskSeverity
  pub message : String
  pub evidence_path : String
  pub evidence_value : Evidence
  pub remediation : String
  pub references : List String
