-- ===== src/Mapper/Engine.antt =====
-- mapping-engine.ts. The engine's clock, `now`, stands still during a batch; predicates read the
-- clock of the platform, as the source's do.
use ai_devsecops_command_cen.Mapper.Input.{to_mapping_input, VulnerabilityFinding}
use ai_devsecops_command_cen.Common.{
  ℕ, ◌+◌, ◌*◌, String, Bool, true, Option, none, some, List, [], ◌∷◌, ◌++◌, map, ◌==◌, ltb,
  if◌then◌else◌, ◌&◌, or_else, any, select,
}
use ai_devsecops_command_cen.Common.Dict.{Dict}
use ai_devsecops_command_cen.Poam.Types.{VulnSeverity, ControlVulnTuple}
use ai_devsecops_command_cen.Common.Sort.{sort}
use ai_devsecops_command_cen.Common.Dict
use ai_devsecops_command_cen.Common.Json
use ai_devsecops_command_cen.Common.Json.{Json, null, boolean, number, text, array, object}
use ai_devsecops_command_cen.Mapper.Types.{
  MappingInput, ControlMapping, MappingRule, fail, pass, MappingEvaluation, ControlSummary,
  MappingBatchResult, EffectiveStatus,
}
use ai_devsecops_command_cen.Mapper.Predicates.{
  Platform, Tried, returned, threw, evaluate_predicate, severity_order,
}

-- `EngineOptions`; `rules` is the list of the rules file.
pub record EngineOptions : Type 0 where
  pub now : ℕ
  pub rule_ids : Option (List String)
  pub rules : List MappingRule

pub record MappingEngine : Type 0 where
  pub rules : List MappingRule
  pub now : ℕ
  pub rule_filter : Option (List String)

-- The constructor.
unfoldable pub mapping_engine : EngineOptions → MappingEngine
mapping_engine options = record {
  rules = select (λ r. r.enabled) options.rules;
  now = options.now;
  rule_filter = options.rule_ids;
}

-- Not `this.ruleFilter && !this.ruleFilter.has(rule.ruleId)`.
abbrev pub runs : Option (List String) → MappingRule → Bool
runs none rule = true
runs (some ids) rule = any (λ id. id == rule.rule_id) ids

abbrev pub mapping_of : MappingRule → ControlMapping
mapping_of rule = record {
  rule_id = rule.rule_id;
  control_id = rule.control_id;
  framework = rule.framework;
  title = rule.title;
  description = rule.description;
  sla_days = rule.sla_days;
  priority = rule.priority;
}

-- The metadata after an error of a rule's predicate.
abbrev pub with_error : MappingRule → String → MappingInput → MappingInput
with_error rule message input = record input {
  metadata = some (
      Dict.set (or_else input.metadata []) "mappingError" (
        object (
          Json.field "ruleId" (text rule.rule_id) (Json.field "message" (text message) Json.end))));
}

-- What a rule's outcome adds to the matches, and to the input.
abbrev pub add_match : MappingRule → Tried → List ControlMapping → List ControlMapping
add_match rule (returned true) matches = matches ++ mapping_of rule ∷ []
add_match rule _ matches = matches

abbrev pub note_error : MappingRule → Tried → MappingInput → MappingInput
note_error rule (threw message) input = with_error rule message input
note_error rule (returned _) input = input

-- Highest priority first.
abbrev pub more_urgent : ControlMapping → ControlMapping → Bool
more_urgent a b = ltb b.priority a.priority

abbrev pub effective : List ControlMapping → EffectiveStatus
effective [] = pass
effective (_ ∷ _) = fail

module _ (js : Platform) where
  -- The loop of `evaluate`, over the rules that are left.
  unfoldable pub apply_rules :
      Option (List String)
      → List MappingRule
      → MappingInput × List ControlMapping
      → MappingInput × List ControlMapping
  apply_rules filter [] s = s
  apply_rules filter (rule ∷ rules) (input, matches) =
      let result = evaluate_predicate js rule.predicate input in
      apply_rules filter rules (
        if runs filter rule
        then (note_error rule result input, add_match rule result matches)
        else (input, matches))

  unfoldable pub evaluate : MappingEngine → MappingInput → MappingEvaluation
  evaluate engine input =
      let (after, found) = apply_rules engine.rule_filter engine.rules (input, []) in
      let matches = sort more_urgent found in
      record {
        input = after;
        matches = matches;
        effective_status = effective matches;
        evaluated_at = engine.now;
      }

-- What the loops of `evaluateBatch` build.
pub record Gathered : Type 0 where
  pub tuples : List ControlVulnTuple
  pub seen : List String
  pub summary : Dict ControlSummary

abbrev pub tuple_key : String → String → String
tuple_key control vuln = control & "::" & vuln

abbrev pub tuple_of : ℕ → MappingInput → ControlMapping → ControlVulnTuple
tuple_of now input m = record {
  control_id = m.control_id;
  vuln_id = input.vuln_id;
  framework = m.framework;
  rule_id = m.rule_id;
  severity = input.severity;
  sla_days = m.sla_days;
  due_at = now + m.sla_days * 24 * 60 * 60 * 1000;
}

-- `SEVERITY_RANK` orders the severities as `SEVERITY_ORDER` of the predicates does.
abbrev pub higher : VulnSeverity → VulnSeverity → VulnSeverity
higher new old = if ltb (severity_order old) (severity_order new) then new else old

unfoldable pub summarised : Option ControlSummary → MappingInput → ControlMapping → ControlSummary
summarised none input m = record {
  control_id = m.control_id;
  framework = m.framework;
  vuln_ids = input.vuln_id ∷ [];
  highest_severity = input.severity;
}
summarised (some old) input m = record old {
  vuln_ids = old.vuln_ids ++ input.vuln_id ∷ [];
  highest_severity = higher input.severity old.highest_severity;
}

-- The body of the inner loop.
unfoldable pub gather_tuple : ℕ → MappingInput → ControlMapping → Gathered → Gathered
gather_tuple now input m g =
    let key = tuple_key m.control_id input.vuln_id in
    if any (λ k. k == key) g.seen
    then g
    else record g { tuples = g.tuples ++ tuple_of now input m ∷ []; seen = key ∷ g.seen }

unfoldable pub gather_match : ℕ → MappingInput → ControlMapping → Gathered → Gathered
unfolding gather_tuple summarised
gather_match now input m g =
    let old = Dict.get g.summary m.control_id in
    record (gather_tuple now input m g) {
      summary = Dict.set g.summary m.control_id (summarised old input m);
    }

unfoldable pub gather_matches : ℕ → MappingInput → List ControlMapping → Gathered → Gathered
gather_matches now input [] g = g
gather_matches now input (m ∷ ms) g = gather_matches now input ms (gather_match now input m g)

unfoldable pub gather : ℕ → List MappingEvaluation → Gathered → Gathered
gather now [] g = g
gather now (ev ∷ evs) g = gather now evs (gather_matches now ev.input ev.matches g)

abbrev pub nothing_gathered : Gathered
nothing_gathered = record { tuples = []; seen = []; summary = [] }

abbrev pub tenant_of : List MappingInput → String
tenant_of [] = "unknown"
tenant_of (i ∷ _) = i.tenant_id

abbrev pub rules_version_of : List MappingRule → String
rules_version_of [] = "empty"
rules_version_of (_ ∷ _) = "1.0.0"

module _ (js : Platform) where
  unfoldable pub evaluate_batch : MappingEngine → List MappingInput → MappingBatchResult
  unfolding evaluate gather
  evaluate_batch engine inputs =
      let evaluations = map (evaluate js engine) inputs in
      let g = gather engine.now evaluations nothing_gathered in
      record {
        tenant_id = tenant_of inputs;
        evaluated_at = engine.now;
        rules_version = rules_version_of engine.rules;
        evaluations = evaluations;
        tuples = g.tuples;
        control_summary = g.summary;
      }

  unfoldable pub evaluate_findings : MappingEngine → List VulnerabilityFinding → MappingBatchResult
  unfolding evaluate_batch to_mapping_input
  evaluate_findings engine findings = evaluate_batch engine (map to_mapping_input findings)
