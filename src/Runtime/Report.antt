-- ===== src/Runtime/Report.antt =====
-- What the report says of its findings.
use ai_devsecops_command_cen.Common.{
  ℕ, zero, suc, ◌+◌, ◌-◌, ◌*◌, ◌≤◌, ◌≡◌, ◌≢◌, ◌↔◌, ◌∙◌, refl, sym, ap, arith, String, true, false,
  Option, none, some, List, [], ◌∷◌, if◌then◌else◌, any, or_else, length, ◌==◌, Bool-cases, eq_iff,
  inl, inr, All, take, length-take, find, ltb,
}
use ai_devsecops_command_cen.Common.Dict.{Dict, get, set, values, get-set}
use ai_devsecops_command_cen.Common.Sort.{sort, IsSorted, sort-IsSorted}
use ai_devsecops_command_cen.Runtime.Types.{RiskLevel, RuntimeRisk, RuleContext, Pod}
use ai_devsecops_command_cen.Runtime.Engine.{
  level_weight, at_level, rollup_level, deduct, score_for, LevelCounts, Recommendation, recommend,
  rec_map, report, comes_before, recommendations_of, evaluate,
}
use ai_devsecops_command_cen.Runtime.Counting.{
  weight_of, tally, deduct-weight, count_levels-tally, tally_total, of_category,
  count_categories-tally, affected, of_rule, rec_map-tally, weight-positive,
}

-- The counters of the report count its findings: the counter of each level counts those of the level,
-- the four together count all of them, and the counter of a category is the number of findings of that
-- category, 0 where it is missing.
pub report-tally :
    (ctx : RuleContext) (pods : List Pod)
    → ((report ctx pods).counts.critical
        ≡ tally (at_level RiskLevel.critical) (report ctx pods).findings)
      × ((report ctx pods).counts.high ≡ tally (at_level RiskLevel.high) (report ctx pods).findings)
      × ((report ctx pods).counts.medium
          ≡ tally (at_level RiskLevel.medium) (report ctx pods).findings)
      × ((report ctx pods).counts.low ≡ tally (at_level RiskLevel.low) (report ctx pods).findings)
      × ((report ctx pods).counts.critical
            + (report ctx pods).counts.high
            + (report ctx pods).counts.medium
            + (report ctx pods).counts.low
          ≡ length (report ctx pods).findings)
      × ((key : String)
          → or_else (get (report ctx pods).category_counts key) 0
            ≡ tally (of_category key) (report ctx pods).findings)
unfolding report get
report-tally ctx pods =
    let none_yet : LevelCounts = record { critical = 0; high = 0; medium = 0; low = 0 } in
    let fs = evaluate ctx pods in
    let (c, h, m, l) = count_levels-tally none_yet fs in
    (
      omega (arith, c),
      omega (arith, h),
      omega (arith, m),
      omega (arith, l),
      omega (arith, c, h, m, l, tally_total fs),
      (λ key. omega (arith, count_categories-tally [] fs key)),
    )

no_weight : (fs : List RuntimeRisk) → 100 - 4 * weight_of fs ≡ 100 → fs ≡ []
unfolding weight_of
no_weight [] h = refl
no_weight (f ∷ fs) h =
    let absurd : ◌≢◌ {A = ℕ} 100 100 = omega (arith, h, weight-positive f.level) in
    elim (absurd refl) [ ]

-- The score is 100 less four times the weight of the findings, stopping at 0; it is 100 exactly where
-- there is no finding.
pub report-score :
    (ctx : RuleContext) (pods : List Pod)
    → ((report ctx pods).score ≡ 100 - 4 * weight_of (report ctx pods).findings)
      × (((report ctx pods).score ≡ 100) ↔ ((report ctx pods).findings ≡ []))
unfolding report deduct
report-score ctx pods =
    let fs = evaluate ctx pods in
    let e = deduct-weight 100 fs in (e, ((λ h. no_weight fs (sym e ∙ h)), (λ h. ap score_for h)))

-- The weight of the heaviest finding, at least that of `low`.
unfoldable heaviest : List RuntimeRisk → ℕ
heaviest [] = 1
heaviest (f ∷ fs) =
    let rest = heaviest fs in if ltb rest (level_weight f.level) then level_weight f.level else rest

rollup_level-heaviest : (fs : List RuntimeRisk) → level_weight (rollup_level fs) ≡ heaviest fs
unfolding rollup_level heaviest
rollup_level-heaviest [] = refl
rollup_level-heaviest (f ∷ fs) = ground (arith, rollup_level-heaviest fs)

heaviest-All :
    (fs : List RuntimeRisk) (n : ℕ) → heaviest fs ≤ n → All (λ f. level_weight f.level ≤ n) fs
unfolding heaviest
heaviest-All [] n h = tt
heaviest-All (f ∷ fs) n h = (ground arith, heaviest-All fs n (ground arith))

rollup_reached :
    (f : RuntimeRisk) (fs : List RuntimeRisk)
    → any (at_level (rollup_level (f ∷ fs))) (f ∷ fs) ≡ true
unfolding rollup_level
rollup_reached f [] = ground arith
rollup_reached f (g ∷ fs) = ground (arith, rollup_reached g fs)

-- No finding of a report weighs more than the report's risk level, and where the report has a finding
-- at all, one of its findings has exactly that level.
pub report-risk_level :
    (ctx : RuleContext) (pods : List Pod)
    → All
        (λ f. level_weight f.level ≤ level_weight (report ctx pods).risk_level)
        (report ctx pods).findings
      × ((report ctx pods).findings ≢ []
          → any (at_level (report ctx pods).risk_level) (report ctx pods).findings ≡ true)
unfolding report
report-risk_level ctx pods =
    let fs = evaluate ctx pods in
    (
      heaviest-All fs (level_weight (rollup_level fs)) (omega (arith, rollup_level-heaviest fs)),
      reached fs,
    )
  where
    reached : (fs : List RuntimeRisk) → fs ≢ [] → any (at_level (rollup_level fs)) fs ≡ true
    reached [] h = elim (h refl) [ ]
    reached (f ∷ fs) h = rollup_reached f fs

comes_before_asym : (a b : Recommendation) → comes_before a b ≡ true → comes_before b a ≡ false
comes_before_asym a b h = ground arith

take-IsSorted :
    (n : ℕ) (rs : List Recommendation)
    → IsSorted comes_before rs
    → IsSorted comes_before (take n rs)
take-IsSorted zero rs h = tt
take-IsSorted (suc n) [] h = tt
take-IsSorted (suc zero) (r ∷ []) h = tt
take-IsSorted (suc (suc n)) (r ∷ []) h = tt
take-IsSorted (suc zero) (r ∷ q ∷ rs) h = tt
take-IsSorted (suc (suc n)) (r ∷ q ∷ rs) (p, h) = (p, take-IsSorted (suc n) (q ∷ rs) h)

-- The report gives at most ten recommendations, none of them after one of a lower level.
pub report-recommendations :
    (ctx : RuleContext) (pods : List Pod)
    → (length (report ctx pods).recommendations ≤ 10)
      × IsSorted comes_before (report ctx pods).recommendations
unfolding report recommendations_of
report-recommendations ctx pods =
    let recs = sort comes_before (values (rec_map [] (evaluate ctx pods))) in
    (
      length-take 10 recs,
      take-IsSorted 10 recs
          (sort-IsSorted comes_before comes_before_asym (values (rec_map [] (evaluate ctx pods)))),
    )

-- The level that a recommendation in the map, or else the first finding of its rule, has.
abbrev pub level_of : Option Recommendation → Option RuntimeRisk → Option RiskLevel
level_of (some r) _ = some r.level
level_of none (some f) = some f.level
level_of none none = none

recommend-level :
    (r : Option Recommendation) (f : RuntimeRisk) (g : Option RuntimeRisk)
    → level_of (some (recommend r f)) g ≡ level_of r (some f)
recommend-level none f g = refl
recommend-level (some r) f g = refl

rec_map-level_of :
    (m : Dict Recommendation) (fs : List RuntimeRisk) (key : String)
    → level_of (get (rec_map m fs) key) none ≡ level_of (get m key) (find (of_rule key) fs)
unfolding rec_map
rec_map-level_of m [] key = refl
rec_map-level_of m (f ∷ fs) key =
    let k = f.rule_id in
    let r = recommend (get m k) f in
    let next = rec_map-level_of (set m k r) fs key in
    elim (Bool-cases (k == key)) [
      | inl same ↦
          let there : get (set m k r) key ≡ some r =
            get-set m k key r ∙ ap (λ b. if b then some r else get m key) same in
          let old : get m k ≡ get m key = ap (get m) ((eq_iff k key).0 same) in
          next
          ∙ ap (λ o. level_of o (find (of_rule key) fs)) there
          ∙ recommend-level (get m k) f (find (of_rule key) fs)
          ∙ ap (λ o. level_of o (some f)) old
          ∙ rw same refl
      | inr other ↦
          let there : get (set m k r) key ≡ get m key =
            get-set m k key r ∙ ap (λ b. if b then some r else get m key) other in
          next ∙ ap (λ o. level_of o (find (of_rule key) fs)) there ∙ rw other refl
    ]

-- The recommendation for a rule counts all the findings of that rule, but has the level of the first
-- one, whatever the levels of the others; without a finding of the rule there is none.
pub rec_map-first :
    (fs : List RuntimeRisk) (key : String)
    → (affected (get (rec_map [] fs) key) ≡ tally (of_rule key) fs)
      × (level_of (get (rec_map [] fs) key) none ≡ level_of none (find (of_rule key) fs))
unfolding get
rec_map-first fs key = (omega (arith, rec_map-tally [] fs key), rec_map-level_of [] fs key)
