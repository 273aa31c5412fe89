-- ===== src/Mapper/Rules.antt =====
-- What `evaluate` finds, and the laws of the predicates.
use ai_devsecops_command_cen.Common.{select-select}
use ai_devsecops_command_cen.Common.{inl, inr, not, eqb, Bool-cases, length}
use ai_devsecops_command_cen.Common.Sort.{sort, sort-perm, sort-IsSorted, sort-length}
use ai_devsecops_command_cen.Common.{◌↔◌, if◌then◌else◌, any}
use ai_devsecops_command_cen.Common.Sort.{IsSorted}
use mathlib.Core.List.{Perm}
use mathlib.Core.List.{append-nil}
use ai_devsecops_command_cen.Common.{String, sym, List, [], ◌∷◌, ◌++◌, map, arith, select}
use ai_devsecops_command_cen.Common.{◌≡◌, refl, ap, ◌∙◌, Bool, true, false, ◌&&◌, Option}
use ai_devsecops_command_cen.Common.Dict.{Dict}
use ai_devsecops_command_cen.Common.Json.{Json}
use ai_devsecops_command_cen.Mapper.Types.{
  MappingInput, MappingRule, Predicate, conj, disj, neg, Clauses, nil, cons, ControlMapping, fail,
}
use ai_devsecops_command_cen.Mapper.Predicates.{
  Platform, Tried, returned, threw, evaluate_predicate, evaluate_every, evaluate_some, and_then,
  or_then, negate,
}
use ai_devsecops_command_cen.Mapper.Engine.{
  EngineOptions, runs, apply_rules, mapping_of, evaluate, note_error, add_match, mapping_engine,
  more_urgent, effective, MappingEngine,
}

abbrev holds : Tried → Bool
holds (returned b) = b
holds (threw _) = false

-- A rule is enabled, is asked for, and its predicate holds of the input as it was given.
abbrev pub applies : Platform → EngineOptions → MappingInput → MappingRule → Bool
applies js options input rule =
    rule.enabled
    && (runs options.rule_ids rule && holds (evaluate_predicate js rule.predicate input))

-- The negation of each clause.
abbrev pub negated : Clauses → Clauses
negated nil = nil
negated (cons p cs) = cons (neg p) (negated cs)

module _ (js : Platform) (i : MappingInput) where
  negate_and : (s t : Tried) → negate (and_then s t) ≡ or_then (negate s) (negate t)
  negate_and (threw e) t = refl
  negate_and (returned true) t = refl
  negate_and (returned false) t = refl

  negated_every : (cs : Clauses) → negate (evaluate_every js cs i) ≡ evaluate_some js (negated cs) i
  unfolding evaluate_predicate
  negated_every nil = refl
  negated_every (cons p cs) =
      negate_and (evaluate_predicate js p i) (evaluate_every js cs i) ∙ rw (negated_every cs) refl

  -- Of every list of clauses: the negation of `and` has the outcome of `or` over the negated clauses,
  -- errors included.
  pub evaluate_predicate_de_morgan :
      (cs : Clauses)
      → evaluate_predicate js (neg (conj cs)) i ≡ evaluate_predicate js (disj (negated cs)) i
  unfolding evaluate_predicate
  evaluate_predicate_de_morgan cs = negated_every cs

  module _ (d : Option (Dict Json)) where
    mutual
      unfolding evaluate_predicate

      ignores_metadata :
          (p : Predicate)
          → evaluate_predicate js p (record i { metadata = d }) ≡ evaluate_predicate js p i
      ignores_metadata (conj cs) = every_ignores_metadata cs
      ignores_metadata (disj cs) = some_ignores_metadata cs
      ignores_metadata (neg p) = ap negate (ignores_metadata p)
      ignores_metadata _ = refl

      every_ignores_metadata :
          (cs : Clauses) → evaluate_every js cs (record i { metadata = d }) ≡ evaluate_every js cs i
      every_ignores_metadata nil = refl
      every_ignores_metadata (cons p cs) = rw (ignores_metadata p, every_ignores_metadata cs) refl

      some_ignores_metadata :
          (cs : Clauses) → evaluate_some js cs (record i { metadata = d }) ≡ evaluate_some js cs i
      some_ignores_metadata nil = refl
      some_ignores_metadata (cons p cs) = rw (ignores_metadata p, some_ignores_metadata cs) refl

module _ {ℓ} {A : Type ℓ} where
  append_cons : (xs : List A) (y : A) (ys : List A) → (xs ++ y ∷ []) ++ ys ≡ xs ++ y ∷ ys
  append_cons [] y ys = refl
  append_cons (x ∷ xs) y ys = ap (λ zs. x ∷ zs) (append_cons xs y ys)

module _ (js : Platform) (filter : Option (List String)) (i : MappingInput) where
  abbrev fires : MappingRule → Bool
  fires rule = runs filter rule && holds (evaluate_predicate js rule.predicate i)

  -- What the rules that are left find, whatever errors were noted before.
  Finds : List MappingRule → Type 0
  Finds rules =
      (d : Option (Dict Json)) (ms : List ControlMapping)
      → (apply_rules js filter rules (record i { metadata = d }, ms)).1
        ≡ ms ++ map mapping_of (select fires rules)

  after_rule :
      (rule : MappingRule) (rules : List MappingRule)
      → Finds rules
      → (d : Option (Dict Json)) (ms : List ControlMapping) (b : Bool) (t : Tried)
      → let given = record i { metadata = d } in
        (apply_rules js filter rules
          (if b then (note_error rule t given, add_match rule t ms) else (given, ms))).1
        ≡ ms
          ++ map mapping_of (if b && holds t then rule ∷ select fires rules else select fires rules)
  unfolding Finds
  after_rule rule rules ih d ms false t = ih d ms
  after_rule rule rules ih d ms true (threw e) = ih _ ms
  after_rule rule rules ih d ms true (returned false) = ih d ms
  after_rule rule rules ih d ms true (returned true) = ih d _ ∙ append_cons ms _ _

  apply_rules-Finds : (rules : List MappingRule) → Finds rules
  unfolding apply_rules Finds
  apply_rules-Finds [] d ms = sym (append-nil ms)
  apply_rules-Finds (rule ∷ rules) d ms =
      let rest = select fires rules in
      let p = rule.predicate in
      after_rule rule rules (apply_rules-Finds rules) d ms (runs filter rule)
        (evaluate_predicate js p (record i { metadata = d }))
      ∙ ap (λ t. ms ++ map mapping_of (if runs filter rule && holds t then rule ∷ rest else rest))
          (ignores_metadata js i d p)

-- Noting errors leaves the vulnerability's id.
module _ (js : Platform) (filter : Option (List String)) where
  after_rule-vuln_id :
      (rule : MappingRule) (i : MappingInput) (b : Bool) (t : Tried) (ms : List ControlMapping)
      → let next : MappingInput × List ControlMapping =
          if b then (note_error rule t i, add_match rule t ms) else (i, ms) in
        next.0.vuln_id ≡ i.vuln_id
  after_rule-vuln_id rule i true (threw e) ms = refl
  after_rule-vuln_id rule i true (returned b) ms = refl
  after_rule-vuln_id rule i false t ms = refl

  apply_rules-vuln_id :
      (rules : List MappingRule) (s : MappingInput × List ControlMapping)
      → (apply_rules js filter rules s).0.vuln_id ≡ s.0.vuln_id
  unfolding apply_rules
  apply_rules-vuln_id [] s = refl
  apply_rules-vuln_id (rule ∷ rules) (i, ms) =
      apply_rules-vuln_id rules _
      ∙ after_rule-vuln_id rule i (runs filter rule) (evaluate_predicate js rule.predicate i) ms

pub evaluate-vuln_id :
    (js : Platform) (engine : MappingEngine) (i : MappingInput)
    → (evaluate js engine i).input.vuln_id ≡ i.vuln_id
unfolding evaluate
evaluate-vuln_id js engine i = apply_rules-vuln_id js engine.rule_filter engine.rules (i, [])

effective-fail :
    (p : MappingRule → Bool) (rules : List MappingRule)
    → let ms = sort more_urgent (map mapping_of (select p rules)) in
      (effective ms ≡ fail) ↔ (any p rules ≡ true)
effective-fail p rules = (
  λ e. ground (arith, by_length ms e, sort-length more_urgent found, any_length rules),
  λ h. of_length ms (ground (arith, sort-length more_urgent found, any_length rules)),
)
  where
    found : List ControlMapping
    found = map mapping_of (select p rules)

    ms : List ControlMapping
    ms = sort more_urgent found

    by_length : (xs : List ControlMapping) → effective xs ≡ fail → eqb (length xs) 0 ≡ false
    by_length [] e = ground arith
    by_length (x ∷ xs) e = ground arith

    of_length : (xs : List ControlMapping) → eqb (length xs) 0 ≡ false → effective xs ≡ fail
    of_length [] e = ground arith
    of_length (x ∷ xs) e = refl

    any_length :
        (xs : List MappingRule) → any p xs ≡ not (eqb (length (map mapping_of (select p xs))) 0)
    any_length [] = refl
    any_length (x ∷ xs) = elim (Bool-cases (p x)) [
      | inl t ↦ rw t (ground arith)
      | inr t ↦ rw t (any_length xs)
    ]

module _ (js : Platform) (options : EngineOptions) (i : MappingInput) where
  pub evaluate-found :
      (evaluate js (mapping_engine options) i).matches
      ≡ sort more_urgent (map mapping_of (select (applies js options i) options.rules))
  unfolding evaluate mapping_engine Finds
  evaluate-found = ap (sort more_urgent) (
      apply_rules-Finds js options.rule_ids i (select (λ r. r.enabled) options.rules) i.metadata []
      ∙ ap (map mapping_of) (select-select _ (λ r. r.enabled) options.rules))

  -- The matches of an input are, up to order, the rules that are enabled, asked for by the filter, and
  -- whose predicate holds of the input as it was given: a rule whose predicate throws neither matches
  -- nor changes what the others find. No match comes after one of lower priority, and the status is
  -- 'fail' exactly where such a rule exists.
  pub evaluate_complete :
      let ev = evaluate js (mapping_engine options) i in
      let found = select (applies js options i) options.rules in
      Perm ev.matches (map mapping_of found)
      × IsSorted more_urgent ev.matches
      × ((ev.effective_status ≡ fail) ↔ (any (applies js options i) options.rules ≡ true))
  unfolding evaluate
  evaluate_complete =
      let found = map mapping_of (select (applies js options i) options.rules) in
      rw evaluate-found (
        sort-perm more_urgent found,
        sort-IsSorted more_urgent (λ x y h. ground arith) found,
        effective-fail (applies js options i) options.rules,
      )
