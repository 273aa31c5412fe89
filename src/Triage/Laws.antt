-- ===== src/Triage/Laws.antt =====
-- What triage promises.
use ai_devsecops_command_cen.Common.{
  ℕ, zero, suc, ◌+◌, ◌≤◌, ◌≡◌, ◌⊎◌, inl, inr, refl, sym, arith, String, true, false, none, some,
  List, [], ◌∷◌, ◌++◌, map, if◌then◌else◌, ltb, leb, length, take, All, Any, Bool-cases,
  Option-cases, ◌==◌, ap,
}
use ai_devsecops_command_cen.Common.{leb→le}
use mathlib.Core.List.{append-nil}
use ai_devsecops_command_cen.Triage.Heuristic.{
  Finding, Priority, Line, said, TriageResult, PerFindingScore, decision_for_priority,
  heuristic_triage, score, scored, top_from, priority_for_score,
}
use ai_devsecops_command_cen.Triage.Refine.{
  LlmTriageConfig, LlmAnswer, LlmTriageReply, reply, transport_error, non_2xx, no_content,
  invalid_json, schema_mismatch, index_of, distance, accept_reply, refine_with_llm, triage,
  max_findings_to_llm, PromptFinding, strip, sanitize_findings_for_prompt, is_cve_id,
}

priority_mono :
    (a b : ℕ) → a ≤ b → index_of (priority_for_score b) ≤ index_of (priority_for_score a)
unfolding priority_for_score
priority_mono a b h = ground arith

-- The loop ends at the highest score, which is one of those it saw.
top_from-ge : (top : ℕ) (fs : List Finding) → top ≤ top_from top fs
unfolding top_from
top_from-ge top [] = omega arith
top_from-ge top (f ∷ fs) =
    ground (arith, top_from-ge (if ltb top (score f) then score f else top) fs)

top_from-All : (top : ℕ) (fs : List Finding) → All (λ f. score f ≤ top_from top fs) fs
unfolding top_from
top_from-All top [] = tt
top_from-All top (f ∷ fs) =
    let next = if ltb top (score f) then score f else top in
    let step : score f ≤ next = ground arith in
    (omega (arith, top_from-ge next fs, step), top_from-All next fs)

top_from_reached :
    (top n : ℕ) (fs : List Finding) → top_from top fs ≡ n → (n ≡ top) ⊎ Any (λ f. n ≡ score f) fs
unfolding top_from
top_from_reached top n [] h = inl (sym h)
top_from_reached top n (f ∷ fs) h = elim (Bool-cases (ltb top (score f))) [
  | inl higher ↦ elim (top_from_reached (score f) n fs (rw (higher, top_from) at h)) [
    | inl e ↦ inr (inl e)
    | inr found ↦ inr (inr found)
  ]
  | inr lower ↦ elim (top_from_reached top n fs (rw (lower, top_from) at h)) [
    | inl e ↦ inl e
    | inr found ↦ inr (inr found)
  ]
]

priority_reached :
    (n : ℕ) (fs : List Finding)
    → Any (λ f. n ≡ score f) fs
    → Any (λ f. priority_for_score n ≡ priority_for_score (score f)) fs
priority_reached n [] h = absurd h
priority_reached n (f ∷ fs) (inl e) = inl (ap priority_for_score e)
priority_reached n (f ∷ fs) (inr found) = inr (priority_reached n fs found)

scored-All :
    (p : Priority) (fs : List Finding) (top : ℕ)
    → index_of p ≤ index_of (priority_for_score top)
    → All (λ f. score f ≤ top) fs
    → All (λ (s : PerFindingScore). index_of p ≤ index_of s.priority) (map scored fs)
scored-All p [] top h k = tt
scored-All p (f ∷ fs) top h (l, k) =
    (omega (arith, priority_mono (score f) top l), scored-All p fs top h k)

-- No finding has a more urgent priority than the heuristic result, and the decision is the one of
-- its priority; there is one score for each finding.
pub heuristic_triage-worst :
    (fs : List Finding)
    → let r = heuristic_triage fs in
      All (λ (s : PerFindingScore). index_of r.priority ≤ index_of s.priority) r.per_finding
      × (r.decision ≡ decision_for_priority r.priority)
      × (length r.per_finding ≡ r.counts.total)
unfolding heuristic_triage
heuristic_triage-worst [] = (tt, refl, refl)
heuristic_triage-worst (f ∷ fs) =
    let top = top_from (score f) fs in
    (
      scored-All (priority_for_score top) (f ∷ fs) top (omega arith)
          (top_from-ge (score f) fs, top_from-All (score f) fs),
      refl,
      length-map (f ∷ fs),
    )
  where
    length-map : (gs : List Finding) → length (map scored gs) ≡ length gs
    length-map = elim [ [] ↦ refl | g ∷ (gs → ih) ↦ ap suc ih ]

-- Where there are findings, one of them has the priority of the result.
pub heuristic_triage_reached :
    (f : Finding) (fs : List Finding)
    → Any (λ g. (heuristic_triage (f ∷ fs)).priority ≡ priority_for_score (score g)) (f ∷ fs)
unfolding heuristic_triage
heuristic_triage_reached f fs = elim (top_from_reached (score f) _ fs refl) [
  | inl first ↦ inl (ap priority_for_score first)
  | inr other ↦ inr (priority_reached (top_from (score f) fs) fs other)
]

-- What the model may change in a result.
pub record IsRefinement (h r : TriageResult) : Type 0 where
  pub within_one_level : distance (index_of h.priority) (index_of r.priority) ≤ 1
  pub decision_follows : r.decision ≡ decision_for_priority r.priority
  pub same_scores : r.per_finding ≡ h.per_finding
  pub same_counts : r.counts ≡ h.counts
  pub rationale_kept : (more : List Line) × (r.rationale ≡ h.rationale ++ more)

IsRefinement-refl :
    (h : TriageResult) → h.decision ≡ decision_for_priority h.priority → IsRefinement h h
IsRefinement-refl h d = record {
  within_one_level = ground arith;
  decision_follows = d;
  same_scores = refl;
  same_counts = refl;
  rationale_kept = ([], sym (append-nil h.rationale));
}

accept_reply-IsRefinement :
    (h : TriageResult) (r : LlmTriageReply)
    → h.decision ≡ decision_for_priority h.priority
    → IsRefinement h (accept_reply h r)
unfolding accept_reply
accept_reply-IsRefinement h r d =
    elim (Bool-cases (leb (distance (index_of h.priority) (index_of r.priority)) 1)) [
      | inl near ↦ rw near (record {
        within_one_level = leb→le _ _ near;
        decision_follows = refl;
        same_scores = refl;
        same_counts = refl;
        rationale_kept = (map said r.rationale, refl);
      })
      | inr far ↦ rw far (IsRefinement-refl h d)
    ]

-- Whatever the model answers, and also where the call fails, the result of triage moves the
-- heuristic priority by one level at most, decides by the priority that it ends with, keeps scores
-- and counts, and keeps the heuristic rationale as the beginning of its own.
pub triage-IsRefinement :
    (fs : List Finding) (config : LlmTriageConfig) (answer : LlmAnswer)
    → IsRefinement (heuristic_triage fs) (triage fs config answer)
unfolding triage refine_with_llm
triage-IsRefinement fs config answer =
    let h = heuristic_triage fs in
    let d = (heuristic_triage-worst fs).1 in
    elim (Bool-cases config.enabled) [
      | inr off ↦ rw off (IsRefinement-refl h d)
      | inl on ↦ elim (Bool-cases (config.api_key == "")) [
        | inl no_key ↦ rw (on, no_key) (IsRefinement-refl h d)
        | inr with_key ↦ rw (on, with_key) (by_answer h d answer)
      ]
    ]
  where
    by_answer :
        (h : TriageResult)
        → h.decision ≡ decision_for_priority h.priority
        → (a : LlmAnswer)
        → IsRefinement h (let r : TriageResult = elim a [ reply r ↦ accept_reply h r | _ ↦ h ] in r)
    by_answer h d (reply r) = accept_reply-IsRefinement h r d
    by_answer h d transport_error = IsRefinement-refl h d
    by_answer h d non_2xx = IsRefinement-refl h d
    by_answer h d no_content = IsRefinement-refl h d
    by_answer h d invalid_json = IsRefinement-refl h d
    by_answer h d schema_mismatch = IsRefinement-refl h d

-- A CVE id that reaches the prompt is well formed.
abbrev pub HasCleanId : PromptFinding → Type 0
HasCleanId p = (c : String) → p.cve_id ≡ some c → is_cve_id c ≡ true

strip-HasCleanId : (f : Finding) → HasCleanId (strip f)
strip-HasCleanId f c e = elim (Option-cases f.cve_id) [
  | inl absent ↦ absurd (cc (rw absent at e))
  | inr (d, given) ↦ elim (Bool-cases (is_cve_id d)) [
    | inl good ↦
        let kept : some d ≡ some c = rw (given, good) at e in
        let same : d ≡ c = cc in rw (← same) good
    | inr bad ↦ let gone : none ≡ some c = rw (given, bad) at e in cc
  ]
]

-- At most 50 findings reach the prompt, and each CVE id among them has the form that the pattern
-- asks for.
pub sanitize_findings_for_prompt_bounded :
    (fs : List Finding)
    → (length (sanitize_findings_for_prompt fs) ≤ 50)
      × All HasCleanId (sanitize_findings_for_prompt fs)
unfolding sanitize_findings_for_prompt
sanitize_findings_for_prompt_bounded fs = (short 50 fs, clean (take max_findings_to_llm fs))
  where
    short : (n : ℕ) (gs : List Finding) → length (map strip (take n gs)) ≤ n
    short = elim [
      | zero ↦ λ gs. omega arith
      | suc (n → ih) ↦ elim [ [] ↦ omega arith | g ∷ gs ↦ omega (arith, ih gs) ]
    ]

    clean : (gs : List Finding) → All HasCleanId (map strip gs)
    clean = elim [ [] ↦ tt | g ∷ (gs → ih) ↦ (strip-HasCleanId g, ih) ]

-- An available fix leaves the score as it is where nothing is known of a fix; only the report that
-- no fix is available lowers it, by 5.
pub score_by_fix :
    (f : Finding)
    → (score (record f { fix_available = some true }) ≡ score (record f { fix_available = none }))
      × (score (record f { fix_available = some false }) + 5
          ≡ score (record f { fix_available = none }))
unfolding score
score_by_fix f = (refl, ground arith)
