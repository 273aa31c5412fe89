-- ===== src/Mapper/Examples.antt =====
-- Concrete runs of the mapper.
use ai_devsecops_command_cen.Poam.Service.Requests.{init-Good}
use ai_devsecops_command_cen.Mapper.Filed.{evaluate_batch-filed}
use ai_devsecops_command_cen.Mapper.Summary.{
  summary_of, is_about, all_pairs, evaluate_batch-control_summary, AtMost,
}
use ai_devsecops_command_cen.Mapper.Rules.{
  applies, negated, evaluate_predicate_de_morgan, evaluate_complete,
}
use ai_devsecops_command_cen.Poam.Service.Complete.{HasOpen}
use ai_devsecops_command_cen.Mapper.Tuples.{DistinctKeys, Covers, ComesFrom, evaluate_batch-tuples}
use ai_devsecops_command_cen.Common.{◌↔◌, any, select, All}
use ai_devsecops_command_cen.Poam.Types.{ControlVulnTuple}
use ai_devsecops_command_cen.Common.Sort.{IsSorted}
use mathlib.Core.List.{Perm}
use ai_devsecops_command_cen.Common.{
  ℕ, String, ◌≡◌, refl, true, none, some, List, [], ◌∷◌, map, ◌==◌, if◌then◌else◌,
}
use ai_devsecops_command_cen.Common.Dict.{Dict}
use ai_devsecops_command_cen.Common.Sort.{sort}
use ai_devsecops_command_cen.Common.Dict
use ai_devsecops_command_cen.Common.Sort.{insert_sorted}
use ai_devsecops_command_cen.Mapper.Types.{
  MappingInput, MappingRule, VulnKind, Predicate, always, severity_gte, cve_pattern, conj, disj,
  neg, Clauses, nil, cons, fail,
}
use ai_devsecops_command_cen.Mapper.Predicates.{Platform, invalid, regex, evaluate_predicate}
use ai_devsecops_command_cen.Mapper.Engine.{
  EngineOptions, EngineOptions, MappingEngine, mapping_engine, apply_rules, gather, gather_matches,
  gather_match, gather_tuple, summarised, evaluate, evaluate_batch, tuple_key, mapping_of,
  more_urgent,
}
use ai_devsecops_command_cen.Poam.Types.{VulnSeverity, nist_800_53, PoamItem}
use ai_devsecops_command_cen.Poam.Examples.{stars, stars_distinct, env}
use ai_devsecops_command_cen.Poam.World.{
  init, ok, err, Result, publish, read_clock, random_uuid, ◌>>=◌, pure, record_audit,
}
use ai_devsecops_command_cen.Poam.Service
use ai_devsecops_command_cen.Poam.Repository
use ai_devsecops_command_cen.Poam.Audit.{with_audit}
use ai_devsecops_command_cen.Poam.Service.Emit.{texts, emit_poam_created}

-- Patterns are searched for as they stand, and a lone `(` does not compile.
abbrev pub js : Platform
js = record {
  compile = λ p. if p == "(" then invalid "Unterminated group" else regex (λ s. s == p);
  parse_date = λ s. none;
  date_now = 0;
}

abbrev rule : String → String → Predicate → ℕ → MappingRule
rule id control predicate priority = record {
  rule_id = id;
  framework = nist_800_53;
  control_id = control;
  title = id;
  description = "";
  predicate = predicate;
  sla_days = 7;
  priority = priority;
  enabled = true;
}

abbrev options : EngineOptions
options = record {
  now = 1000;
  rule_ids = none;
  rules =
      rule "bad" "AC-1" (cve_pattern "(") 9
      ∷ rule "high" "SI-2" (severity_gte VulnSeverity.high) 1
      ∷ rule "all" "RA-5" always 2
      ∷ [];
}

abbrev pub log4shell : MappingInput
log4shell = record {
  vuln_id = "v1";
  tenant_id = "acme";
  cve_id = some "CVE-2021-44228";
  severity = VulnSeverity.critical;
  kind = VulnKind.sca;
  kev = true;
  introduced_at = none;
  asset_id = "web";
  component_id = none;
  metadata = none;
  subject_kind = none;
  rule_id = none;
  resource_kind = none;
  namespace = none;
  cluster_id = none;
  workload_name = none;
}

abbrev inputs : List MappingInput
inputs =
    log4shell ∷ log4shell ∷ record log4shell { vuln_id = "v2"; severity = VulnSeverity.low } ∷ []

abbrev pub engine : MappingEngine
engine = mapping_engine options

-- The rule that throws is passed over, the duplicate input gives no second tuple.
three_tuples :
    map (λ t. tuple_key t.control_id t.vuln_id) (evaluate_batch js engine inputs).tuples
    ≡ "RA-5::v1" ∷ "SI-2::v1" ∷ "RA-5::v2" ∷ []
unfolding evaluate_batch evaluate apply_rules evaluate_predicate mapping_engine sort insert_sorted
    gather gather_matches gather_match gather_tuple summarised Dict.get Dict.set
three_tuples = refl

abbrev high_rules : Clauses
high_rules = cons (severity_gte VulnSeverity.high) (cons (cve_pattern "(") nil)

evaluate_predicate_de_morgan_example :
    evaluate_predicate js (neg (conj high_rules)) log4shell
    ≡ evaluate_predicate js (disj (negated high_rules)) log4shell
evaluate_predicate_de_morgan_example = evaluate_predicate_de_morgan js log4shell high_rules

evaluate_complete_example :
    let ev = evaluate js engine log4shell in
    let found = select (applies js options log4shell) options.rules in
    Perm ev.matches (map mapping_of found)
    × IsSorted more_urgent ev.matches
    × ((ev.effective_status ≡ fail) ↔ (any (applies js options log4shell) options.rules ≡ true))
evaluate_complete_example = evaluate_complete js options log4shell

evaluate_batch-tuples_example :
    let result = evaluate_batch js engine inputs in
    DistinctKeys result.tuples
    × Covers engine.now result.tuples result.evaluations
    × All (ComesFrom engine.now result.evaluations) result.tuples
evaluate_batch-tuples_example = evaluate_batch-tuples js engine inputs

evaluate_batch-control_summary_example :
    let result = evaluate_batch js engine inputs in
    let about = select (is_about "RA-5") (all_pairs result.evaluations) in
    (Dict.get result.control_summary "RA-5" ≡ summary_of about)
    × AtMost (Dict.get result.control_summary "RA-5") about
evaluate_batch-control_summary_example = evaluate_batch-control_summary js engine inputs "RA-5"

abbrev one : List MappingInput
one = log4shell ∷ []

abbrev one_tuples : List ControlVulnTuple
one_tuples = (evaluate_batch js engine one).tuples

abbrev items_of : Result (List PoamItem) → List PoamItem
items_of (ok items) = items
items_of (err _) = []

abbrev created : List PoamItem
created = items_of (Service.create_from_tuples env "acme" one_tuples init).0

one_returns : (Service.create_from_tuples env "acme" one_tuples init).0 ≡ ok created
unfolding evaluate_batch evaluate apply_rules evaluate_predicate mapping_engine sort insert_sorted
    gather gather_matches gather_match gather_tuple summarised Dict.get Dict.set Dict.values stars
    with_audit publish read_clock random_uuid ◌>>=◌ pure record_audit emit_poam_created texts
    Service.create_from_tuples Service.create_from_tuple Service.create_unless Service.build_auto
    Service.create Repository.create Repository.find_open_for_control_vuln
one_returns = refl

evaluate_batch-filed_example :
    All
      (λ i.
        All
          (λ r.
            HasOpen
              (Service.create_from_tuples env "acme" one_tuples init).1.items
              "acme"
              r.control_id
              i.vuln_id)
          (select (applies js options i) options.rules))
      one
evaluate_batch-filed_example =
    evaluate_batch-filed js options one env stars_distinct init created "acme"
      (refl, (refl, (refl, tt))) (init-Good env) one_returns
