-- ===== src/Runtime/Engine.antt =====
-- runtime-security.engine.ts.
use ai_devsecops_command_cen.Common.{
  ℕ, ◌+◌, ◌-◌, ◌*◌, String, Bool, true, false, Option, none, some, List, [], ◌∷◌, ◌&◌,
  if◌then◌else◌, any, take, ltb, or_else,
}
use ai_devsecops_command_cen.Common.Dict.{Dict, get, set, values}
use ai_devsecops_command_cen.Common.Sort.{sort}
use ai_devsecops_command_cen.Runtime.Types.{RiskCategory, RiskLevel, Pod, RuleContext, RuntimeRisk}
use ai_devsecops_command_cen.Runtime.Rules.{
  each, privileged_risks, host_path_risks, root_user_risks,
}
use ai_devsecops_command_cen.Runtime.MoreRules.{
  dangerous_cap_risks, security_context_risks, service_account_risks, rbac_risks,
  resource_limit_risks, image_digest_risks,
}

-- RULES, in their order.
abbrev pub rules : List (RuleContext → List Pod → List RuntimeRisk)
rules =
    privileged_risks ∷ host_path_risks ∷ root_user_risks ∷ dangerous_cap_risks
    ∷ security_context_risks ∷ service_account_risks ∷ rbac_risks ∷ resource_limit_risks
    ∷ image_digest_risks ∷ []

-- `evaluate`. No rule throws on an inventory of these types.
unfoldable pub evaluate : RuleContext → List Pod → List RuntimeRisk
evaluate ctx pods = each (λ rule. rule ctx pods) rules

abbrev pub level_weight : RiskLevel → ℕ
level_weight RiskLevel.critical = 4
level_weight RiskLevel.high = 3
level_weight RiskLevel.medium = 2
level_weight RiskLevel.low = 1

abbrev pub is_level : RiskLevel → RiskLevel → Bool
is_level RiskLevel.critical RiskLevel.critical = true
is_level RiskLevel.high RiskLevel.high = true
is_level RiskLevel.medium RiskLevel.medium = true
is_level RiskLevel.low RiskLevel.low = true
is_level _ _ = false

abbrev pub at_level : RiskLevel → RuntimeRisk → Bool
at_level level f = is_level f.level level

-- The two last returns of the source are both `low`.
unfoldable pub rollup_level : List RuntimeRisk → RiskLevel
rollup_level findings =
    if any (at_level RiskLevel.critical) findings
    then RiskLevel.critical
    else if any (at_level RiskLevel.high) findings
    then RiskLevel.high
    else if any (at_level RiskLevel.medium) findings
    then RiskLevel.medium
    else RiskLevel.low

-- The loop of scoreFor. It only goes down and ends in `max(0, ...)`, so it may stop at 0 on the way.
unfoldable pub deduct : ℕ → List RuntimeRisk → ℕ
deduct s [] = s
deduct s (f ∷ fs) = deduct (s - 4 * level_weight f.level) fs

abbrev pub score_for : List RuntimeRisk → ℕ
score_for findings = deduct 100 findings

pub record LevelCounts : Type 0 where
  pub critical : ℕ
  pub high : ℕ
  pub medium : ℕ
  pub low : ℕ

abbrev pub count_one : RiskLevel → LevelCounts → LevelCounts
count_one RiskLevel.critical c = record {
  critical = c.critical + 1;
  high = c.high;
  medium = c.medium;
  low = c.low;
}
count_one RiskLevel.high c = record {
  critical = c.critical;
  high = c.high + 1;
  medium = c.medium;
  low = c.low;
}
count_one RiskLevel.medium c = record {
  critical = c.critical;
  high = c.high;
  medium = c.medium + 1;
  low = c.low;
}
count_one RiskLevel.low c = record {
  critical = c.critical;
  high = c.high;
  medium = c.medium;
  low = c.low + 1;
}

unfoldable pub count_levels : LevelCounts → List RuntimeRisk → LevelCounts
count_levels c [] = c
count_levels c (f ∷ fs) = count_levels (count_one f.level c) fs

-- The text of a category, which is its key in `categoryCounts`.
abbrev pub category_name : RiskCategory → String
category_name RiskCategory.privileged_container = "privileged_container"
category_name RiskCategory.host_path_volume = "host_path_volume"
category_name RiskCategory.host_network = "host_network"
category_name RiskCategory.host_pid = "host_pid"
category_name RiskCategory.host_ipc = "host_ipc"
category_name RiskCategory.root_user = "root_user"
category_name RiskCategory.dangerous_capability = "dangerous_capability"
category_name RiskCategory.unsafe_security_context = "unsafe_security_context"
category_name RiskCategory.service_account_risk = "service_account_risk"
category_name RiskCategory.rbac_risk = "rbac_risk"
category_name RiskCategory.image_risk = "image_risk"
category_name RiskCategory.network_policy_missing = "network_policy_missing"
category_name RiskCategory.resource_limits_missing = "resource_limits_missing"
category_name RiskCategory.secrets_in_env = "secrets_in_env"
category_name RiskCategory.automount_service_account_token = "automount_service_account_token"
category_name RiskCategory.unknown = "unknown"

-- The loop over the findings that fills `categoryCounts`.
unfoldable pub count_categories : Dict ℕ → List RuntimeRisk → Dict ℕ
count_categories m [] = m
count_categories m (f ∷ fs) =
    let key = category_name f.category in
    count_categories (set m key (or_else (get m key) 0 + 1)) fs

-- A recommendation without its random id.
pub record Recommendation : Type 0 where
  pub title : String
  pub detail : String
  pub level : RiskLevel
  pub affected_count : ℕ

abbrev pub one_more : Recommendation → Recommendation
one_more r = record {
  title = r.title;
  detail = r.detail;
  level = r.level;
  affected_count = r.affected_count + 1;
}

-- The first finding of a rule makes the recommendation, and later ones count.
abbrev pub recommend : Option Recommendation → RuntimeRisk → Recommendation
recommend (some existing) f = one_more existing
recommend none f = record {
  title = "Fix: " & f.rule_name;
  detail = f.remediation;
  level = f.level;
  affected_count = 1;
}

-- The loop over the findings that fills `recMap`.
unfoldable pub rec_map : Dict Recommendation → List RuntimeRisk → Dict Recommendation
rec_map m [] = m
rec_map m (f ∷ fs) = rec_map (set m f.rule_id (recommend (get m f.rule_id) f)) fs

abbrev pub comes_before : Recommendation → Recommendation → Bool
comes_before a b = ltb (level_weight b.level) (level_weight a.level)

unfoldable pub recommendations_of : List RuntimeRisk → List Recommendation
recommendations_of findings = take 10 (sort comes_before (values (rec_map [] findings)))

-- RuntimeSecurityReport without its id and times.
pub record RuntimeSecurityReport : Type 0 where
  pub tenant_id : String
  pub cluster_id : String
  pub risk_level : RiskLevel
  pub score : ℕ
  pub counts : LevelCounts
  pub category_counts : Dict ℕ
  pub findings : List RuntimeRisk
  pub recommendations : List Recommendation

unfoldable pub report : RuleContext → List Pod → RuntimeSecurityReport
report ctx pods =
    let findings = evaluate ctx pods in
    record {
      tenant_id = ctx.tenant_id;
      cluster_id = ctx.cluster_id;
      risk_level = rollup_level findings;
      score = score_for findings;
      counts = count_levels (record { critical = 0; high = 0; medium = 0; low = 0 }) findings;
      category_counts = count_categories [] findings;
      findings = findings;
      recommendations = recommendations_of findings;
    }
