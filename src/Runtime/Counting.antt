-- ===== src/Runtime/Counting.antt =====
-- The loops of the report over its findings: score, counters and recommendations.
use ai_devsecops_command_cen.Common.{
  ℕ, ◌+◌, ◌-◌, ◌*◌, ◌≤◌, ◌≡◌, refl, ap, arith, String, Bool, Option, none, some, List, [], ◌∷◌,
  if◌then◌else◌, or_else, length, ◌==◌, Bool-cases, eq_iff, inl, inr,
}
use ai_devsecops_command_cen.Common.Dict.{Dict, get, set, get-set}
use ai_devsecops_command_cen.Runtime.Types.{RiskLevel, RuntimeRisk}
use ai_devsecops_command_cen.Runtime.Engine.{
  level_weight, at_level, deduct, LevelCounts, count_one, count_levels, Recommendation, recommend,
  rec_map, category_name, count_categories,
}

-- The sum of the weights of the findings.
unfoldable pub weight_of : List RuntimeRisk → ℕ
weight_of [] = 0
weight_of (f ∷ fs) = level_weight f.level + weight_of fs

pub weight-positive : (l : RiskLevel) → 1 ≤ level_weight l
weight-positive l = ground arith

pub deduct-weight : (s : ℕ) (fs : List RuntimeRisk) → deduct s fs ≡ s - 4 * weight_of fs
unfolding deduct weight_of
deduct-weight s [] = omega arith
deduct-weight s (f ∷ fs) = omega (arith, deduct-weight (s - 4 * level_weight f.level) fs)

-- How many findings pass a test.
unfoldable pub tally : (RuntimeRisk → Bool) → List RuntimeRisk → ℕ
tally p [] = 0
tally p (f ∷ fs) = (if p f then 1 else 0) + tally p fs

pub count_levels-tally :
    (c : LevelCounts) (fs : List RuntimeRisk)
    → ((count_levels c fs).critical ≡ c.critical + tally (at_level RiskLevel.critical) fs)
      × ((count_levels c fs).high ≡ c.high + tally (at_level RiskLevel.high) fs)
      × ((count_levels c fs).medium ≡ c.medium + tally (at_level RiskLevel.medium) fs)
      × ((count_levels c fs).low ≡ c.low + tally (at_level RiskLevel.low) fs)
unfolding count_levels tally
count_levels-tally c [] = ground arith
count_levels-tally c (f ∷ fs) = ground (arith, count_levels-tally (count_one f.level c) fs)

pub tally_total :
    (fs : List RuntimeRisk)
    → tally (at_level RiskLevel.critical) fs
        + tally (at_level RiskLevel.high) fs
        + tally (at_level RiskLevel.medium) fs
        + tally (at_level RiskLevel.low) fs
      ≡ length fs
unfolding tally
tally_total [] = omega arith
tally_total (f ∷ fs) = ground (arith, tally_total fs)

abbrev pub of_category : String → RuntimeRisk → Bool
of_category key f = category_name f.category == key

pub count_categories-tally :
    (m : Dict ℕ) (fs : List RuntimeRisk) (key : String)
    → or_else (get (count_categories m fs) key) 0
      ≡ or_else (get m key) 0 + tally (of_category key) fs
unfolding count_categories tally
count_categories-tally m [] key = omega arith
count_categories-tally m (f ∷ fs) key =
    let k = category_name f.category in
    let n = or_else (get m k) 0 + 1 in
    elim (Bool-cases (k == key)) [
      | inl same ↦ ground (
        arith,
        count_categories-tally (set m k n) fs key,
        get-set m k key n,
        ap (get m) ((eq_iff k key).0 same),
      )
      | inr other ↦ ground (arith, count_categories-tally (set m k n) fs key, get-set m k key n)
    ]

abbrev pub affected : Option Recommendation → ℕ
affected none = 0
affected (some r) = r.affected_count

abbrev pub of_rule : String → RuntimeRisk → Bool
of_rule key f = f.rule_id == key

recommend_counts :
    (r : Option Recommendation) (f : RuntimeRisk) → (recommend r f).affected_count ≡ affected r + 1
recommend_counts none f = refl
recommend_counts (some r) f = refl

pub rec_map-tally :
    (m : Dict Recommendation) (fs : List RuntimeRisk) (key : String)
    → affected (get (rec_map m fs) key) ≡ affected (get m key) + tally (of_rule key) fs
unfolding rec_map tally
rec_map-tally m [] key = omega arith
rec_map-tally m (f ∷ fs) key =
    let k = f.rule_id in
    let r = recommend (get m k) f in
    elim (Bool-cases (k == key)) [
      | inl same ↦
          let next = rec_map-tally (set m k r) fs key in
          let here = get-set m k key r in
          let one = recommend_counts (get m k) f in
          ground (arith, next, here, one, ap (get m) ((eq_iff k key).0 same))
      | inr other ↦ ground (arith, rec_map-tally (set m k r) fs key, get-set m k key r)
    ]
