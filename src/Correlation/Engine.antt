-- ===== src/Correlation/Engine.antt =====
-- `correlate` and `findChain` of correlation-engine.ts. Random ids are a function of the number of the
-- call; the order of `localeCompare` and `Date` are the platform's.
use ai_devsecops_command_cen.Common.{
  ℕ, suc, ◌+◌, ◌-◌, String, Bool, true, false, ◌&&◌, ◌||◌, Option, none, some, List, [], ◌∷◌, ◌++◌,
  map, ◌==◌, ltb, eqb, if◌then◌else◌, ◌&◌, or_else, length, any, find,
}
use ai_devsecops_command_cen.Common.Dict.{Dict}
use ai_devsecops_command_cen.Common.Sort.{sort}
use mathlib.Core.Option
use ai_devsecops_command_cen.Common.Dict
use ai_devsecops_command_cen.Poam.Types.{Severity}
use ai_devsecops_command_cen.Correlation.Events.{
  CorrelationEventType, security_finding, sbom_finding, build_failed, deployment_blocked,
  manual_override, k8s_event, infrastructure_finding, deployment_event, incident_report,
  health_recommendation, runtime_risk, unknown, CorrelationEvent, causal_order, severity_rank,
}

-- `iso` is `new Date(text).toISOString()`, `none` where it throws; `print` writes a number.
pub record Platform : Type 0 where
  pub uuid : ℕ → String
  pub text_before : String → String → Bool
  pub iso : String → Option String
  pub print : ℕ → String
  pub now : String

pub data EdgeKind : Type 0 where
  caused_by preceded_by mitigated_by correlated_with : EdgeKind

pub record CorrelationEdge : Type 0 where
  pub id : String
  pub source : String
  pub target : String
  pub kind : EdgeKind
  pub weight : ℕ
  pub rationale : String

pub record IncidentChain : Type 0 where
  pub id : String
  pub tenant_id : String
  pub root_event_id : String
  pub event_ids : List String
  pub edges : List CorrelationEdge
  pub severity : Severity
  pub title : String
  pub summary : String
  pub created_at : String

abbrev pub type_name : CorrelationEventType → String
type_name security_finding = "security.finding"
type_name sbom_finding = "sbom.finding"
type_name build_failed = "cicd.build.failed"
type_name deployment_blocked = "cicd.deployment.blocked"
type_name manual_override = "cicd.deployment.manual_override"
type_name k8s_event = "k8s.event"
type_name infrastructure_finding = "infrastructure.finding"
type_name deployment_event = "deployment.event"
type_name incident_report = "incident.report"
type_name health_recommendation = "health.recommendation"
type_name runtime_risk = "runtime.risk"
type_name unknown = "unknown"

-- highestSeverity, from the best so far.
abbrev pub severity_from : Severity → List CorrelationEvent → Severity
severity_from best [] = best
severity_from best (e ∷ es) =
    severity_from (if ltb (severity_rank best) (severity_rank e.severity) then e.severity else best)
      es

abbrev pub highest_severity : List CorrelationEvent → Severity
highest_severity es = severity_from Severity.unknown es

-- The elements of a `Set` built from a list, in order of their first occurrence.
abbrev pub distinct_names : List String → List String → List String
distinct_names seen [] = []
distinct_names seen (n ∷ ns) =
    let rest = distinct_names (n ∷ seen) ns in
    if any (λ s. s == n) seen then distinct_names seen ns else n ∷ rest

abbrev pub joined : String → List String → String
joined sep [] = ""
joined sep (s ∷ []) = s
joined sep (s ∷ t ∷ ts) = s & sep & joined sep (t ∷ ts)

abbrev pub is_finding : CorrelationEventType → Bool
is_finding security_finding = true
is_finding sbom_finding = true
is_finding _ = false

abbrev pub or_first : Option CorrelationEvent → List CorrelationEvent → Option CorrelationEvent
or_first (some e) es = some e
or_first none [] = none
or_first none (e ∷ _) = some e

abbrev pub titled : Option CorrelationEvent → List CorrelationEvent → String
titled none es = "Incident chain"
titled (some root) es =
    "Incident: "
    & root.subject
    & " ("
    & joined " → " (distinct_names [] (map (λ e. type_name e.type) es))
    & ")"

unfoldable pub chain_title : List CorrelationEvent → String
chain_title es = titled (or_first (find (λ e. is_finding e.type) es) es) es

module _ (js : Platform) where
  -- The comparator: causal order first, then the time of occurrence.
  abbrev pub causes_first : CorrelationEvent → CorrelationEvent → Bool
  causes_first a b =
      ltb (causal_order a.type) (causal_order b.type)
      || (eqb (causal_order a.type) (causal_order b.type)
          && js.text_before a.occurred_at b.occurred_at)

  -- The lines of the summary; an invalid time throws.
  abbrev pub summary_lines : List CorrelationEvent → Option (List String)
  summary_lines [] = some []
  summary_lines (e ∷ es) = line (js.iso e.occurred_at) (summary_lines es)
    where
      line : Option String → Option (List String) → Option (List String)
      line (some at) (some ls) =
          some (("• " & at & "  " & type_name e.type & " — " & e.message) ∷ ls)
      line _ _ = none

  abbrev pub edge_note : List CorrelationEdge → String
  edge_note [] = ""
  edge_note (e ∷ es) = "\n" & js.print (length (e ∷ es)) & " causal edge(s) identified."

  unfoldable pub chain_summary : List CorrelationEvent → List CorrelationEdge → Option String
  chain_summary es edges =
      Option.map (λ lines. joined "\n" lines & edge_note edges)
        (summary_lines (sort causes_first es))

  abbrev pub edge_between : ℕ → CorrelationEvent → CorrelationEvent → CorrelationEdge
  edge_between n src tgt =
      let a = causal_order src.type in
      let b = causal_order tgt.type in
      record {
        id = js.uuid n;
        source = src.id;
        target = tgt.id;
        kind = if ltb a b then caused_by else preceded_by;
        weight = (b - a) + (a - b);
        rationale = type_name src.type & " → " & type_name tgt.type;
      }

  -- The edges of neighbours, with ids from the `n`-th on.
  unfoldable pub edges_from : ℕ → List CorrelationEvent → List CorrelationEdge
  edges_from n [] = []
  edges_from n (src ∷ []) = []
  edges_from n (src ∷ tgt ∷ rest) = edge_between n src tgt ∷ edges_from (suc n) (tgt ∷ rest)

  unfoldable pub chain_from :
      ℕ → CorrelationEvent → List CorrelationEvent → List CorrelationEdge → Option IncidentChain
  unfolding chain_title chain_summary
  chain_from n root rest edges =
      Option.map
        (λ summary. record {
          id = js.uuid n;
          tenant_id = root.tenant_id;
          root_event_id = root.id;
          event_ids = map (λ e. e.id) (root ∷ rest);
          edges = edges;
          severity = highest_severity (root ∷ rest);
          title = chain_title (root ∷ rest);
          summary = summary;
          created_at = js.now;
        })
        (chain_summary (root ∷ rest) edges)

  -- The chain of a sorted group; the id of the chain is drawn before its summary is made.
  unfoldable pub chain_of : ℕ → List CorrelationEvent → Option IncidentChain
  unfolding chain_from edges_from
  chain_of n [] = none
  chain_of n (root ∷ rest) =
      let edges = edges_from n (root ∷ rest) in chain_from (n + length edges) root rest edges

unfoldable pub add_event :
    Dict (List CorrelationEvent) → CorrelationEvent → Dict (List CorrelationEvent)
add_event buckets e =
    Dict.set buckets e.correlation_key (or_else (Dict.get buckets e.correlation_key) [] ++ e ∷ [])

unfoldable pub bucket :
    Dict (List CorrelationEvent) → List CorrelationEvent → Dict (List CorrelationEvent)
unfolding add_event
bucket buckets [] = buckets
bucket buckets (e ∷ es) = bucket (add_event buckets e) es

module _ (js : Platform) where
  abbrev pub consed :
      Option IncidentChain → Option (List IncidentChain) → Option (List IncidentChain)
  consed (some c) (some cs) = some (c ∷ cs)
  consed _ _ = none

  -- The loop over the buckets; each chain of `k` events draws `k` ids.
  unfoldable pub chains_from : ℕ → Dict (List CorrelationEvent) → Option (List IncidentChain)
  unfolding chain_of
  chains_from n [] = some []
  chains_from n ((key, group) ∷ buckets) =
      let ordered = sort (causes_first js) group in
      let skipped = chains_from n buckets in
      let rest = chains_from (n + length group) buckets in
      if ltb (length group) 2 then skipped else consed (chain_of js n ordered) rest

  abbrev pub edges_of : List IncidentChain → List CorrelationEdge
  edges_of [] = []
  edges_of (c ∷ cs) = c.edges ++ edges_of cs

  -- `none` where the summary of a chain throws.
  unfoldable pub correlate :
      List CorrelationEvent → Option (List IncidentChain × List CorrelationEdge)
  unfolding chains_from bucket
  correlate events =
      Option.map (λ chains. (chains, edges_of chains)) (chains_from 0 (bucket [] events))

abbrev pub find_chain : List IncidentChain → String → Option IncidentChain
find_chain chains id = find (λ c. c.id == id) chains
