-- ===== src/Mapper/Summary.antt =====
-- The summary of controls that `evaluateBatch` builds.
use mathlib.Core.Path.{subst}
use ai_devsecops_command_cen.Common.{select-append}
use ai_devsecops_command_cen.Mapper.Predicates.{severity_order, Platform}
use ai_devsecops_command_cen.Common.{
  ℕ, ◌≤◌, ◌≡◌, refl, sym, ap, ◌∙◌, inl, inr, arith, eq_iff, ltb, if◌then◌else◌, Bool-cases, select,
  All,
}
use ai_devsecops_command_cen.Common.Dict.{Dict}
use mathlib.Core.List.{append-nil, append_assoc}
use ai_devsecops_command_cen.Mapper.Engine.{
  higher, evaluate_batch, gather, gather_match, gather_matches, summarised, Gathered, MappingEngine,
  evaluate, nothing_gathered,
}
use ai_devsecops_command_cen.Common.{
  String, Bool, Option, none, some, List, [], ◌∷◌, ◌++◌, map, ◌==◌,
}
use ai_devsecops_command_cen.Poam.Types.{VulnSeverity}
use ai_devsecops_command_cen.Common.Dict
use ai_devsecops_command_cen.Mapper.Types.{
  MappingInput, ControlMapping, MappingEvaluation, ControlSummary,
}

-- The matches of a batch in the order of the loops, each with its input.
abbrev pub pairs_of : MappingInput → List ControlMapping → List (MappingInput × ControlMapping)
pairs_of input [] = []
pairs_of input (m ∷ ms) = (input, m) ∷ pairs_of input ms

abbrev pub all_pairs : List MappingEvaluation → List (MappingInput × ControlMapping)
all_pairs [] = []
all_pairs (ev ∷ evs) = pairs_of ev.input ev.matches ++ all_pairs evs

abbrev pub is_about : String → MappingInput × ControlMapping → Bool
is_about control (_, m) = m.control_id == control

-- The highest of severities, of which there is at least `s`.
abbrev pub highest : VulnSeverity → List (MappingInput × ControlMapping) → VulnSeverity
highest s [] = s
highest s ((i, _) ∷ ps) = highest (higher i.severity s) ps

abbrev pub vuln_of : MappingInput × ControlMapping → String
vuln_of (i, _) = i.vuln_id

-- The summary of a control from the matches that are about it.
abbrev pub summary_of : List (MappingInput × ControlMapping) → Option ControlSummary
summary_of [] = none
summary_of ((i, m) ∷ ps) = some (record {
  control_id = m.control_id;
  framework = m.framework;
  vuln_ids = i.vuln_id ∷ map vuln_of ps;
  highest_severity = highest i.severity ps;
})

-- A summary to which further matches are added.
abbrev extended :
    Option ControlSummary → List (MappingInput × ControlMapping) → Option ControlSummary
extended none ps = summary_of ps
extended (some s) ps = some (record s {
  vuln_ids = s.vuln_ids ++ map vuln_of ps;
  highest_severity = highest s.highest_severity ps;
})

extended-nil : (o : Option ControlSummary) → extended o [] ≡ o
extended-nil none = refl
extended-nil (some s) = ap (λ vs. some (record s { vuln_ids = vs })) (append-nil s.vuln_ids)

extended-cons :
    (o : Option ControlSummary) (i : MappingInput) (m : ControlMapping)
    (ps : List (MappingInput × ControlMapping))
    → extended (some (summarised o i m)) ps ≡ extended o ((i, m) ∷ ps)
unfolding summarised
extended-cons none i m ps = refl
extended-cons (some s) i m ps =
    ap
      (λ vs. some (record s {
        vuln_ids = vs;
        highest_severity = highest (higher i.severity s.highest_severity) ps;
      }))
      (append_assoc s.vuln_ids (i.vuln_id ∷ []) (map vuln_of ps))

highest-append :
    (s : VulnSeverity) (ps qs : List (MappingInput × ControlMapping))
    → highest s (ps ++ qs) ≡ highest (highest s ps) qs
highest-append s [] qs = refl
highest-append s ((i, m) ∷ ps) qs = highest-append (higher i.severity s) ps qs

vulns-append :
    (ps qs : List (MappingInput × ControlMapping))
    → map vuln_of (ps ++ qs) ≡ map vuln_of ps ++ map vuln_of qs
vulns-append [] qs = refl
vulns-append (p ∷ ps) qs = ap (λ vs. vuln_of p ∷ vs) (vulns-append ps qs)

extended-append :
    (o : Option ControlSummary) (ps qs : List (MappingInput × ControlMapping))
    → extended (extended o ps) qs ≡ extended o (ps ++ qs)
extended-append none [] qs = refl
extended-append none ((i, m) ∷ ps) qs =
    rw (highest-append i.severity ps qs, vulns-append ps qs) refl
extended-append (some s) ps qs =
    rw (highest-append s.highest_severity ps qs, vulns-append ps qs)
      (ap
        (λ vs. some (record s {
          vuln_ids = vs;
          highest_severity = highest (highest s.highest_severity ps) qs;
        }))
        (append_assoc s.vuln_ids (map vuln_of ps) (map vuln_of qs)))

module _ (now : ℕ) (c : String) where
  gather_match-summary :
      (i : MappingInput) (m : ControlMapping) (g : Gathered)
      → Dict.get (gather_match now i m g).summary c ≡ (
          if m.control_id == c
          then some (summarised (Dict.get g.summary c) i m)
          else Dict.get g.summary c)
  unfolding gather_match
  gather_match-summary i m g = elim (Bool-cases (m.control_id == c)) [
    | inl same ↦
        let e = (eq_iff m.control_id c).0 same in
        Dict.get-set g.summary m.control_id c _
        ∙ rw same (ap (λ k. some (summarised (Dict.get g.summary k) i m)) e)
    | inr other ↦ Dict.get-set g.summary m.control_id c _ ∙ rw other refl
  ]

  gather_matches-summary :
      (i : MappingInput) (ms : List ControlMapping) (g : Gathered)
      → Dict.get (gather_matches now i ms g).summary c
        ≡ extended (Dict.get g.summary c) (select (is_about c) (pairs_of i ms))
  unfolding gather_matches
  gather_matches-summary i [] g = sym (extended-nil _)
  gather_matches-summary i (m ∷ ms) g =
      gather_matches-summary i ms (gather_match now i m g) ∙ elim (Bool-cases (m.control_id == c)) [
        | inl same ↦
            rw (gather_match-summary i m g, same)
              (extended-cons (Dict.get g.summary c) i m (select (is_about c) (pairs_of i ms)))
        | inr other ↦ rw (gather_match-summary i m g, other) refl
      ]

  gather-summary :
      (evs : List MappingEvaluation) (g : Gathered)
      → Dict.get (gather now evs g).summary c
        ≡ extended (Dict.get g.summary c) (select (is_about c) (all_pairs evs))
  unfolding gather
  gather-summary [] g = sym (extended-nil _)
  gather-summary (ev ∷ evs) g =
      let here = select (is_about c) (pairs_of ev.input ev.matches) in
      let later = select (is_about c) (all_pairs evs) in
      gather-summary evs (gather_matches now ev.input ev.matches g)
      ∙ ap (λ o. extended o later) (gather_matches-summary ev.input ev.matches g)
      ∙ extended-append (Dict.get g.summary c) here later
      ∙ ap (extended (Dict.get g.summary c))
          (sym (select-append (is_about c) (pairs_of ev.input ev.matches) (all_pairs evs)))

-- No match has a higher severity than the highest.
highest_upper :
    (s : VulnSeverity) (ps : List (MappingInput × ControlMapping))
    → (severity_order s ≤ severity_order (highest s ps))
      × All (λ p. severity_order p.0.severity ≤ severity_order (highest s ps)) ps
highest_upper s [] = (omega arith, tt)
highest_upper s ((i, m) ∷ ps) =
    let (lower, rest) = highest_upper (higher i.severity s) ps in
    let (a, b) = higher_upper i.severity s in (omega arith, (omega arith, rest))
  where
    higher_upper :
        (a b : VulnSeverity)
        → (severity_order b ≤ severity_order (higher a b))
          × (severity_order a ≤ severity_order (higher a b))
    higher_upper a b = elim (Bool-cases (ltb (severity_order b) (severity_order a))) [
      | inl t ↦ rw t (ground arith, omega arith)
      | inr t ↦ rw t (omega arith, ground arith)
    ]

-- No match is more severe than the summary says.
abbrev pub AtMost : Option ControlSummary → List (MappingInput × ControlMapping) → Type 0
AtMost none ps = Unit
AtMost (some s) ps = All (λ p. severity_order p.0.severity ≤ severity_order s.highest_severity) ps

summary_of-AtMost : (ps : List (MappingInput × ControlMapping)) → AtMost (summary_of ps) ps
summary_of-AtMost [] = tt
summary_of-AtMost ((i, m) ∷ ps) = highest_upper i.severity ps

-- The summary of each control is that of exactly the matches about it, in order: their
-- vulnerabilities, the framework of the first, and a severity that none of them exceeds; a control
-- without a match has none.
pub evaluate_batch-control_summary :
    (js : Platform) (engine : MappingEngine) (inputs : List MappingInput) (c : String)
    → let result = evaluate_batch js engine inputs in
      let about = select (is_about c) (all_pairs result.evaluations) in
      (Dict.get result.control_summary c ≡ summary_of about)
      × AtMost (Dict.get result.control_summary c) about
unfolding evaluate_batch Dict.get
evaluate_batch-control_summary js engine inputs c =
    let evs = map (evaluate js engine) inputs in
    let about = select (is_about c) (all_pairs evs) in
    let same = gather-summary engine.now c evs nothing_gathered in
    (same, subst (λ o. AtMost o about) (sym same) (summary_of-AtMost about))
