-- ===== src/Runtime/MoreRules.antt =====
-- Rules 4 to 9 of rules.ts.
use ai_devsecops_command_cen.Common.{
  String, Bool, ◌||◌, ◌&&◌, not, List, [], ◌∷◌, ◌==◌, ◌&◌, if◌then◌else◌, any, eqb, or_else,
}
use ai_devsecops_command_cen.Runtime.Types.{
  RiskLevel, RiskSeverity, RiskSubject, Container, Pod, RuleContext, RuleInfo, RuntimeRisk,
  dangerous_capability, unsafe_security_context, service_account_risk, image_risk,
  resource_limits_missing, text, null,
}
use ai_devsecops_command_cen.Runtime.Rules.{
  each, has, dangerous_capabilities, cis_k8s, pod_security, make_risk, when, each_container, at,
}

abbrev pub dangerous_cap_rule : RuleInfo
dangerous_cap_rule = record {
  id = "AICC-RT-004";
  name = "Dangerous Linux capability";
  category = dangerous_capability;
  level = RiskLevel.high;
  severity = RiskSeverity.high;
  remediation =
      "Drop the dangerous capability. If required, use `capabilities.add` with the minimal set.";
  references = (cis_k8s & "#5-2-8") ∷ pod_security ∷ [];
}

-- The level escalates; the severity stays that of the rule.
abbrev pub cap_risk : RuleContext → Pod → Container → String → RuntimeRisk
cap_risk ctx pod c cap =
    make_risk ctx dangerous_cap_rule RiskSubject.pod pod
      ("Container " & c.name & " adds dangerous capability " & cap)
      (at c "securityContext.capabilities.add") (text cap)
      (if (cap == "SYS_ADMIN") || (cap == "ALL") then RiskLevel.critical else RiskLevel.high)
      RiskSeverity.high

unfoldable pub dangerous_cap_risks : RuleContext → List Pod → List RuntimeRisk
dangerous_cap_risks ctx = each_container (λ pod c.
    each (λ cap. when (has dangerous_capabilities cap) (cap_risk ctx pod c cap))
      c.added_capabilities)

abbrev pub security_context_rule : RuleInfo
security_context_rule = record {
  id = "AICC-RT-005";
  name = "Weak or missing SecurityContext";
  category = unsafe_security_context;
  level = RiskLevel.medium;
  severity = RiskSeverity.medium;
  remediation =
      "Set `securityContext.runAsNonRoot: true`, `allowPrivilegeEscalation: false`, `readOnlyRootFilesystem: true`, and drop all capabilities.";
  references = pod_security ∷ [];
}

abbrev pub system_namespaces : List String
system_namespaces = "kube-system" ∷ "kube-public" ∷ "kube-node-lease" ∷ []

abbrev pub any_explicit : Pod → Bool
any_explicit pod = any (λ (c : Container). not c.run_as_root) pod.containers

abbrev pub security_context_risk : RuleContext → Pod → RuntimeRisk
security_context_risk ctx pod =
    make_risk ctx security_context_rule RiskSubject.pod pod
      "Pod does not declare a hardened SecurityContext (runAsNonRoot, readOnlyRootFilesystem, allowPrivilegeEscalation)."
      "pod.spec.securityContext" null RiskLevel.medium RiskSeverity.medium

-- One finding for a pod.
abbrev pub security_context_of : RuleContext → Pod → List RuntimeRisk
security_context_of ctx pod =
    if has system_namespaces pod.namespace
    then []
    else if any_explicit pod
    then []
    else security_context_risk ctx pod ∷ []

unfoldable pub security_context_risks : RuleContext → List Pod → List RuntimeRisk
security_context_risks ctx = each (security_context_of ctx)

abbrev pub service_account_rule : RuleInfo
service_account_rule = record {
  id = "AICC-RT-006";
  name = "Risky ServiceAccount usage";
  category = service_account_risk;
  level = RiskLevel.medium;
  severity = RiskSeverity.medium;
  remediation =
      "Bind a dedicated ServiceAccount with `automountServiceAccountToken: false` and minimal RBAC. Never use the `default` SA in production.";
  references = (cis_k8s & "#5-1-5") ∷ [];
}

abbrev pub is_default_account : Pod → Bool
is_default_account pod =
    (or_else pod.service_account "default" == "default")
    && (not (pod.namespace == "kube-system") && not (pod.namespace == "kube-public"))

unfoldable pub service_account_risks : RuleContext → List Pod → List RuntimeRisk
service_account_risks ctx = each (λ (pod : Pod). when (is_default_account pod) (
    make_risk ctx service_account_rule RiskSubject.service_account pod
      "Pod uses the `default` ServiceAccount" "pod.spec.serviceAccountName"
      (text (or_else pod.service_account "default")) RiskLevel.medium RiskSeverity.medium))

-- The RBAC rule finds nothing: the inventory has no bindings.
abbrev pub rbac_risks : RuleContext → List Pod → List RuntimeRisk
rbac_risks ctx pods = []

abbrev pub resource_limit_rule : RuleInfo
resource_limit_rule = record {
  id = "AICC-RT-008";
  name = "Missing resource limits";
  category = resource_limits_missing;
  level = RiskLevel.low;
  severity = RiskSeverity.low;
  remediation =
      "Set CPU and memory `limits` on every container. Consider Vertical Pod Autoscaler for recommendation.";
  references = (cis_k8s & "#5-7-1") ∷ [];
}

unfoldable pub resource_limit_risks : RuleContext → List Pod → List RuntimeRisk
resource_limit_risks ctx = each_container (λ pod c.
    when (eqb c.cpu_limits_millicores 0 || eqb c.memory_limits_bytes 0) (
      make_risk ctx resource_limit_rule RiskSubject.pod pod
        ("Container " & c.name & " has no CPU or memory limit") (at c "resources.limits") null
        RiskLevel.low RiskSeverity.low))

abbrev pub image_digest_rule : RuleInfo
image_digest_rule = record {
  id = "AICC-RT-009";
  name = "Image tag is not pinned to a digest";
  category = image_risk;
  level = RiskLevel.medium;
  severity = RiskSeverity.medium;
  remediation =
      "Pin the image by digest (sha256:...) and add a supply-chain verification step (cosign / Kyverno).";
  references = "https://kubernetes.io/docs/concepts/containers/images/" ∷ [];
}

-- No digest, or an empty one.
unfoldable pub image_digest_risks : RuleContext → List Pod → List RuntimeRisk
image_digest_risks ctx = each_container (λ pod c. when (or_else c.image_digest "" == "") (
    make_risk ctx image_digest_rule RiskSubject.pod pod
      ("Container " & c.name & " uses mutable image tag (" & c.image & ")") (at c "image")
      (text c.image) RiskLevel.medium RiskSeverity.medium))
