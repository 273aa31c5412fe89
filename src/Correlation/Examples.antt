-- ===== src/Correlation/Examples.antt =====
-- A batch with events of two tenants.
use ai_devsecops_command_cen.Correlation.Buckets.{group_of}
use ai_devsecops_command_cen.Correlation.Chains.{IsChainOf, correlate-IsChainOf, correlate_complete}
use ai_devsecops_command_cen.Correlation.Events.{
  CorrelationEvent, EventEnvelope, normalise, build_correlation_key, candidates, first_chars,
  map_type,
}
use ai_devsecops_command_cen.Common.{
  ◌≤◌, String, ◌≡◌, refl, false, Option, none, some, List, [], ◌∷◌, arith, length, All, Any,
}
use ai_devsecops_command_cen.Common.Dict.{Dict}
use ai_devsecops_command_cen.Common.Sort.{sort}
use ai_devsecops_command_cen.Common.Dict
use ai_devsecops_command_cen.Common.Sort.{insert_sorted}
use ai_devsecops_command_cen.Common.Json.{text}
use ai_devsecops_command_cen.Poam.Types.{Severity}
use ai_devsecops_command_cen.Correlation.Events.{type_in}
use ai_devsecops_command_cen.Correlation.Engine.{
  Platform, chain_from, IncidentChain, correlate, CorrelationEdge, chains_from, chain_of,
  chain_title, chain_summary, edges_from, bucket, add_event,
}

-- Times as they stand, ids that are all the same, and no order of texts.
abbrev js : Platform
js = record {
  uuid = λ n. "id";
  text_before = λ s t. false;
  iso = λ s. some s;
  print = λ n. "1";
  now = "2026-01-01T00:00:00.000Z";
}

abbrev warning : String → Severity → EventEnvelope
warning tenant severity = record {
  event_id = "e";
  type = "k8s.pod.warning";
  occurred_at = "2026-01-01T00:00:00.000Z";
  tenant_id = tenant;
  severity = some severity;
  data_fields = some (("namespace", text "default") ∷ []);
}

abbrev batch : List CorrelationEvent
batch =
    normalise "1" (warning "acme" Severity.low)
    ∷ normalise "2" (record (warning "other" Severity.high) { type = "scan.completed" })
    ∷ []

abbrev given :
    Option (List IncidentChain × List CorrelationEdge) → List IncidentChain × List CorrelationEdge
given none = ([], [])
given (some r) = r

abbrev result : List IncidentChain × List CorrelationEdge
result = given (correlate js batch)

returned : correlate js batch ≡ some result
unfolding correlate chains_from chain_of chain_from chain_title chain_summary edges_from bucket
    add_event sort insert_sorted normalise build_correlation_key candidates first_chars map_type
    type_in Dict.get Dict.set
returned = refl

two_of_them : 2 ≤ length (group_of batch "ns:default")
unfolding normalise build_correlation_key candidates first_chars Dict.get
two_of_them = omega arith

correlate-IsChainOf_example : All (λ c. (k : String) × IsChainOf js batch k c) result.0
correlate-IsChainOf_example = correlate-IsChainOf js batch result.0 result.1 returned

correlate_complete_example : Any (IsChainOf js batch "ns:default") result.0
correlate_complete_example =
    correlate_complete js batch "ns:default" result.0 result.1 two_of_them returned
