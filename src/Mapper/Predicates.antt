-- ===== src/Mapper/Predicates.antt =====
-- predicates.ts. The regular expressions and `Date.parse` are a parameter; a pattern that does not
-- compile throws, and so does every predicate that comes to it.
use ai_devsecops_command_cen.Common.{
  ℕ, ◌+◌, ◌-◌, ◌*◌, String, Bool, true, false, not, ◌&&◌, Option, none, some, ◌==◌, leb, eqb,
  if◌then◌else◌, or_else, any,
}
use ai_devsecops_command_cen.Poam.Types.{VulnSeverity, day_ms}
use ai_devsecops_command_cen.Mapper.Types.{
  VulnKind, sca, sast, dast, runtime, manual, unknown, MappingSubjectKind, vulnerability,
  runtime_risk, health_issue, MappingInput, Predicate, always, severity_gte, severity_eq, kind_eq,
  introduced_within_days, cve_pattern, asset_pattern, component_pattern, subject_kind_is,
  rule_id_in, resource_kind_is, conj, disj, neg, Clauses, nil, cons,
}

-- A time that `Date.parse` reads: milliseconds after or before 1970.
pub data Instant : Type 0 where
  since before : ℕ → Instant

-- The outcome of code that may throw an error with a message.
pub data Tried : Type 0 where
  returned : Bool → Tried
  threw : String → Tried

-- `new RegExp(pattern, 'i')`: what compiling throws, or the test.
pub data Compiled : Type 0 where
  invalid : String → Compiled
  regex : (String → Bool) → Compiled

-- What JavaScript itself gives: `RegExp`, `Date.parse` (`none` is NaN) and `Date.now`.
pub record Platform : Type 0 where
  pub compile : String → Compiled
  pub parse_date : String → Option Instant
  pub date_now : ℕ

-- SEVERITY_ORDER, one higher, so that `unknown` is 0.
abbrev pub severity_order : VulnSeverity → ℕ
severity_order VulnSeverity.critical = 5
severity_order VulnSeverity.high = 4
severity_order VulnSeverity.medium = 3
severity_order VulnSeverity.low = 2
severity_order VulnSeverity.info = 1
severity_order VulnSeverity.unknown = 0

abbrev pub at_least : VulnSeverity → VulnSeverity → Bool
at_least actual threshold = leb (severity_order threshold) (severity_order actual)

abbrev pub severity_is : VulnSeverity → VulnSeverity → Bool
severity_is a b = eqb (severity_order a) (severity_order b)

abbrev pub kind_is : VulnKind → VulnKind → Bool
kind_is sca sca = true
kind_is sast sast = true
kind_is dast dast = true
kind_is runtime runtime = true
kind_is manual manual = true
kind_is unknown unknown = true
kind_is _ _ = false

abbrev pub subject_is : MappingSubjectKind → MappingSubjectKind → Bool
subject_is vulnerability vulnerability = true
subject_is runtime_risk runtime_risk = true
subject_is health_issue health_issue = true
subject_is _ _ = false

-- `===` on Booleans.
abbrev pub same_boolean : Bool → Bool → Bool
same_boolean true b = b
same_boolean false b = not b

-- A field that is given and is not the empty text.
abbrev pub truthy : Option String → Option String
truthy none = none
truthy (some s) = if s == "" then none else some s

abbrev pub text_is : Option String → String → Bool
text_is none s = false
text_is (some t) s = t == s

-- `every` and `some` after their first clause, which a throw and the short cut leave at once.
abbrev pub and_then : Tried → Tried → Tried
and_then (threw e) rest = threw e
and_then (returned false) rest = returned false
and_then (returned true) rest = rest

abbrev pub or_then : Tried → Tried → Tried
or_then (threw e) rest = threw e
or_then (returned true) rest = returned true
or_then (returned false) rest = rest

abbrev pub negate : Tried → Tried
negate (threw e) = threw e
negate (returned b) = returned (not b)

-- `compileRegex(pattern).test(text)`.
abbrev pub test : Compiled → String → Tried
test (invalid e) s = threw e
test (regex f) s = returned (f s)

abbrev pub test_given : Compiled → Option String → Tried
test_given c none = returned false
test_given c (some s) = test c s

-- The age of an instant is at least 0 and at most the number of days.
abbrev pub age_within : ℕ → ℕ → Option Instant → Bool
age_within now days none = false
age_within now days (some (since t)) = leb t now && leb (now - t) (days * day_ms)
age_within now days (some (before t)) = leb (now + t) (days * day_ms)

module _ (js : Platform) where
  abbrev pub introduced_within : Option String → ℕ → Bool
  introduced_within none days = false
  introduced_within (some s) days = age_within js.date_now days (js.parse_date s)

  unfoldable mutual
    -- evaluatePredicate.
    pub evaluate_predicate : Predicate → MappingInput → Tried
    evaluate_predicate always i = returned true
    evaluate_predicate (severity_gte v) i = returned (at_least i.severity v)
    evaluate_predicate (severity_eq v) i = returned (severity_is i.severity v)
    evaluate_predicate (kind_eq v) i = returned (kind_is i.kind v)
    evaluate_predicate (Predicate.kev v) i = returned (same_boolean i.kev v)
    evaluate_predicate (introduced_within_days n) i =
        returned (introduced_within (truthy i.introduced_at) n)
    evaluate_predicate (cve_pattern p) i = test_given (js.compile p) (truthy i.cve_id)
    evaluate_predicate (asset_pattern p) i = test (js.compile p) i.asset_id
    evaluate_predicate (component_pattern p) i = test_given (js.compile p) (truthy i.component_id)
    evaluate_predicate (subject_kind_is v) i =
        returned (subject_is (or_else i.subject_kind vulnerability) v)
    evaluate_predicate (rule_id_in ids) i = returned (any (λ id. text_is i.rule_id id) ids)
    evaluate_predicate (resource_kind_is v) i = returned (text_is i.resource_kind v)
    evaluate_predicate (conj cs) i = evaluate_every cs i
    evaluate_predicate (disj cs) i = evaluate_some cs i
    evaluate_predicate (neg p) i = negate (evaluate_predicate p i)

    pub evaluate_every : Clauses → MappingInput → Tried
    evaluate_every nil i = returned true
    evaluate_every (cons p cs) i = and_then (evaluate_predicate p i) (evaluate_every cs i)

    pub evaluate_some : Clauses → MappingInput → Tried
    evaluate_some nil i = returned false
    evaluate_some (cons p cs) i = or_then (evaluate_predicate p i) (evaluate_some cs i)
