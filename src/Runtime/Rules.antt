-- ===== src/Runtime/Rules.antt =====
-- The data and rules 1 to 3 of rules.ts. The rules read the pods only; `workloads` and `services` of
-- the input are passed to them and left alone.
use ai_devsecops_command_cen.Common.{
  String, Bool, true, false, List, [], ◌∷◌, ◌++◌, ◌==◌, ◌&◌, if◌then◌else◌, any,
}
use ai_devsecops_command_cen.Runtime.Types.{
  RiskLevel, RiskSeverity, RiskSubject, Container, Pod, RuleContext, Evidence, RuleInfo,
  RuntimeRisk, privileged_container, host_path_volume, root_user, text, flag,
}

-- The loop that pushes what each element gives.
unfoldable pub each {ℓ κ} : {A : Type ℓ} → {B : Type κ} → (A → List B) → List A → List B
each f [] = []
each f (x ∷ xs) = f x ++ each f xs

-- `Set.prototype.has`.
abbrev pub has : List String → String → Bool
has set s = any (λ x. x == s) set

abbrev pub dangerous_capabilities : List String
dangerous_capabilities =
    "NET_RAW" ∷ "NET_ADMIN" ∷ "SYS_ADMIN" ∷ "SYS_MODULE" ∷ "SYS_PTRACE" ∷ "SYS_RAWIO" ∷ "SYS_BOOT"
    ∷ "SYS_TIME" ∷ "SYSLOG" ∷ "MKNOD" ∷ "AUDIT_WRITE" ∷ "DAC_READ_SEARCH" ∷ "SETFCAP"
    ∷ "SYS_RESOURCE" ∷ "ALL" ∷ []

abbrev pub sensitive_host_paths : List String
sensitive_host_paths =
    "/" ∷ "/etc" ∷ "/var/run/docker.sock" ∷ "/var/lib/kubelet" ∷ "/proc" ∷ "/sys" ∷ "/root"
    ∷ "/var/log" ∷ []

abbrev pub cis_k8s : String
cis_k8s = "https://www.cisecurity.org/benchmark/kubernetes"

abbrev pub pod_security : String
pod_security = "https://kubernetes.io/docs/concepts/security/pod-security-standards/"

-- makeRisk, with the level and the severity that it settles on; every rule names a `Pod`.
unfoldable pub make_risk :
    RuleContext
    → RuleInfo
    → RiskSubject
    → Pod
    → String
    → String
    → Evidence
    → RiskLevel
    → RiskSeverity
    → RuntimeRisk
make_risk ctx rule subject pod message path value level severity = record {
  tenant_id = ctx.tenant_id;
  cluster_id = ctx.cluster_id;
  cluster_name = ctx.cluster_name;
  namespace = pod.namespace;
  subject = subject;
  subject_kind = "Pod";
  subject_name = pod.name;
  rule_id = rule.id;
  rule_name = rule.name;
  category = rule.category;
  level = level;
  severity = severity;
  message = message;
  evidence_path = path;
  evidence_value = value;
  remediation = rule.remediation;
  references = rule.references;
}

-- `[x]` where the test holds: the `if` around a `push`.
abbrev pub when {ℓ} : {A : Type ℓ} → Bool → A → List A
when b x = if b then x ∷ [] else []

abbrev pub each_container : (Pod → Container → List RuntimeRisk) → List Pod → List RuntimeRisk
each_container f pods = each (λ pod. each (f pod) pod.containers) pods

abbrev pub at : Container → String → String
at c field = "pod.spec.containers[" & c.name & "]." & field

abbrev pub privileged_rule : RuleInfo
privileged_rule = record {
  id = "AICC-RT-001";
  name = "Privileged container";
  category = privileged_container;
  level = RiskLevel.critical;
  severity = RiskSeverity.critical;
  remediation =
      "Drop `securityContext.privileged: true` and use a narrowly-scoped `capabilities` set instead.";
  references = (cis_k8s & "#5-2-1") ∷ pod_security ∷ [];
}

unfoldable pub privileged_risks : RuleContext → List Pod → List RuntimeRisk
privileged_risks ctx = each_container (λ pod c. when c.privileged (
    make_risk ctx privileged_rule RiskSubject.pod pod
      ("Container " & c.name & " runs in privileged mode") (at c "securityContext.privileged")
      (flag true) RiskLevel.critical RiskSeverity.critical))

abbrev pub host_path_rule : RuleInfo
host_path_rule = record {
  id = "AICC-RT-002";
  name = "hostPath volume mount";
  category = host_path_volume;
  level = RiskLevel.high;
  severity = RiskSeverity.high;
  remediation =
      "Avoid `hostPath` mounts. Use `emptyDir`, `CSI`, or a projected volume for required data.";
  references = (cis_k8s & "#5-2-2") ∷ [];
}

abbrev pub host_path_risk : RuleContext → Pod → Container → String → RuntimeRisk
host_path_risk ctx pod c hp =
    let sensitive = has sensitive_host_paths hp in
    make_risk ctx host_path_rule RiskSubject.pod pod
      (if sensitive
        then "Container " & c.name & " mounts sensitive hostPath " & hp
        else "Container " & c.name & " mounts hostPath " & hp)
      (at c ("volumeMounts[hostPath=" & hp & "]")) (text hp)
      (if sensitive then RiskLevel.critical else RiskLevel.high)
      (if sensitive then RiskSeverity.critical else RiskSeverity.high)

unfoldable pub host_path_risks : RuleContext → List Pod → List RuntimeRisk
host_path_risks ctx =
    each_container (λ pod c. each (λ hp. host_path_risk ctx pod c hp ∷ []) c.host_paths)

abbrev pub root_user_rule : RuleInfo
root_user_rule = record {
  id = "AICC-RT-003";
  name = "Root user execution";
  category = root_user;
  level = RiskLevel.high;
  severity = RiskSeverity.high;
  remediation =
      "Set `securityContext.runAsNonRoot: true` and `runAsUser: <non-zero>` (or use a `runAsUser` from your platform range).";
  references = (cis_k8s & "#5-2-6") ∷ pod_security ∷ [];
}

unfoldable pub root_user_risks : RuleContext → List Pod → List RuntimeRisk
root_user_risks ctx = each_container (λ pod c. when c.run_as_root (
    make_risk ctx root_user_rule RiskSubject.pod pod
      ("Container " & c.name & " runs as root (uid 0)") (at c "securityContext.runAsNonRoot")
      (flag false) RiskLevel.high RiskSeverity.high))
