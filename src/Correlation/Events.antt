-- ===== src/Correlation/Events.antt =====
-- The events of correlation-engine.ts: their types, keys and severities.
use ai_devsecops_command_cen.Common.{
  ℕ, zero, suc, String, Option, none, some, List, [], ◌∷◌, ◌==◌, if◌then◌else◌, ◌&◌, or_else, any,
}
use ai_devsecops_command_cen.Common.Dict.{Dict}
use mathlib.Core.Option
use ai_devsecops_command_cen.Common.Dict
use ai_devsecops_command_cen.Common.Json.{Json, text}
use ai_devsecops_command_cen.Poam.Types.{Severity}

pub data CorrelationEventType : Type 0 where
  security_finding sbom_finding build_failed deployment_blocked manual_override k8s_event :
      CorrelationEventType
  infrastructure_finding deployment_event incident_report health_recommendation runtime_risk :
      CorrelationEventType
  unknown : CorrelationEventType

pub record CorrelationEvent : Type 0 where
  pub id : String
  pub type : CorrelationEventType
  pub occurred_at : String
  pub tenant_id : String
  pub severity : Severity
  pub correlation_key : String
  pub subject : String
  pub message : String
  pub data_fields : Dict Json
  pub source_event_id : String
  pub source_type : String

-- The fields of an `EventEnvelope` that `normalise` reads.
pub record EventEnvelope : Type 0 where
  pub event_id : String
  pub type : String
  pub occurred_at : String
  pub tenant_id : String
  pub severity : Option Severity
  pub data_fields : Option (Dict Json)

-- The cases of `mapType`, in its order.
abbrev pub type_table : List (CorrelationEventType × List String)
type_table =
    (security_finding, "vulnerability.detected" ∷ "scan.completed" ∷ "security.finding" ∷ [])
    ∷ (sbom_finding, "sbom.finding" ∷ "sbom.vulnerability" ∷ [])
    ∷ (build_failed, "cicd.build.failed" ∷ "build.failed" ∷ "pipeline.failed" ∷ [])
    ∷ (
      deployment_blocked,
      "cicd.deployment.blocked" ∷ "deployment.blocked" ∷ "policy.violation" ∷ [],
    )
    ∷ (manual_override, "cicd.deployment.manual_override" ∷ "deployment.override" ∷ [])
    ∷ (k8s_event, "k8s.event" ∷ "k8s.pod.warning" ∷ "k8s.deployment.failed" ∷ [])
    ∷ (infrastructure_finding, "infrastructure.finding" ∷ "cost.finding" ∷ [])
    ∷ (deployment_event, "deployment.event" ∷ "deployment.succeeded" ∷ "deployment.started" ∷ [])
    ∷ (incident_report, "incident.created" ∷ "incident.resolved" ∷ "incident.report" ∷ [])
    ∷ (health_recommendation, "health.recommendation" ∷ [])
    ∷ (runtime_risk, "runtime.risk" ∷ [])
    ∷ []

unfoldable pub type_in : List (CorrelationEventType × List String) → String → CorrelationEventType
type_in [] raw = unknown
type_in ((t, names) ∷ rest) raw = if any (λ n. raw == n) names then t else type_in rest raw

unfoldable pub map_type : String → CorrelationEventType
unfolding type_in
map_type raw = type_in type_table raw

abbrev pub text_of : Option Json → Option String
text_of (some (text s)) = some s
text_of _ = none

-- A field, where it is a text.
abbrev pub text_field : Dict Json → String → Option String
text_field fields name = text_of (Dict.get fields name)

-- A field in the namespace of the event.
abbrev pub in_namespace : Dict Json → String → Option (String × String)
in_namespace fields name = both (text_field fields "namespace") (text_field fields name)
  where
    both : Option String → Option String → Option (String × String)
    both (some n) (some s) = some (n, s)
    both _ _ = none

-- `slice(0, n)`.
unfoldable pub first_chars : ℕ → String → String
first_chars zero s = ""
first_chars (suc n) String.[] = ""
first_chars (suc n) (String.◌∷◌ c s) = String.◌∷◌ c (first_chars n s)

-- The key and the subject that each kind of field gives, in the order of precedence.
unfoldable pub candidates : Dict Json → List (Option (String × String))
unfolding first_chars Dict.get
candidates d =
    Option.map (λ s. ("cve:" & s, "CVE " & s)) (text_field d "cveId")
    ∷ Option.map (λ s. ("image:" & s, "image " & first_chars 19 s & "…"))
        (text_field d "imageDigest")
    ∷ Option.map (λ s. ("image:" & s, "image " & s)) (text_field d "image")
    ∷ Option.map (λ (n, s). ("workload:" & n & "/" & s, n & "/" & s)) (in_namespace d "workload")
    ∷ Option.map (λ (n, s). ("workload:" & n & "/" & s, n & "/" & s)) (in_namespace d "deployment")
    ∷ Option.map (λ (n, s). ("pod:" & n & "/" & s, "pod " & n & "/" & s)) (in_namespace d "pod")
    ∷ Option.map (λ s. ("ns:" & s, "namespace " & s)) (text_field d "namespace")
    ∷ Option.map (λ s. ("cluster:" & s, "cluster " & s)) (text_field d "clusterId")
    ∷ Option.map (λ s. ("subject:" & s, s)) (text_field d "subject")
    ∷ []

abbrev pub first_given : List (Option (String × String)) → String × String
first_given [] = ("unknown", "unknown")
first_given (none ∷ rest) = first_given rest
first_given (some found ∷ rest) = found

unfoldable pub build_correlation_key : Dict Json → String × String
unfolding candidates
build_correlation_key d = first_given (candidates d)

-- CAUSAL_ORDER.
abbrev pub causal_order : CorrelationEventType → ℕ
causal_order security_finding = 1
causal_order sbom_finding = 1
causal_order runtime_risk = 1
causal_order build_failed = 2
causal_order deployment_blocked = 3
causal_order manual_override = 4
causal_order k8s_event = 5
causal_order infrastructure_finding = 5
causal_order health_recommendation = 5
causal_order deployment_event = 4
causal_order incident_report = 6
causal_order unknown = 99

-- SEVERITY_RANK.
abbrev pub severity_rank : Severity → ℕ
severity_rank Severity.critical = 5
severity_rank Severity.high = 4
severity_rank Severity.medium = 3
severity_rank Severity.low = 2
severity_rank Severity.info = 1
severity_rank Severity.unknown = 0

-- `normalise`, with the id that it draws.
unfoldable pub normalise : String → EventEnvelope → CorrelationEvent
unfolding build_correlation_key map_type Dict.get
normalise id event =
    let d = or_else event.data_fields [] in
    let (key, subject) = build_correlation_key d in
    record {
      id = id;
      type = map_type event.type;
      occurred_at = event.occurred_at;
      tenant_id = event.tenant_id;
      severity = or_else event.severity Severity.unknown;
      correlation_key = key;
      subject = subject;
      message = or_else (text_field d "message") (event.type & " on " & subject);
      data_fields = d;
      source_event_id = event.event_id;
      source_type = event.type;
    }
