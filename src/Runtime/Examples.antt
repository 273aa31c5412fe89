-- ===== src/Runtime/Examples.antt =====
-- A concrete runtime security report.
use ai_devsecops_command_cen.Common.{◌≡◌, true, false, ◌||◌, none, List, [], ◌∷◌, find}
use ai_devsecops_command_cen.Common.Dict.{get}
use ai_devsecops_command_cen.Runtime.Types.{Container, Pod, RuleContext}
use ai_devsecops_command_cen.Runtime.Engine.{report, evaluate, rec_map}
use ai_devsecops_command_cen.Runtime.Counting.{tally, affected, of_rule}
use ai_devsecops_command_cen.Runtime.Report.{level_of, rec_map-first}
use ai_devsecops_command_cen.Runtime.Critical.{
  is_critical, any_container, is_privileged, mounts_sensitive, adds_take_over, report-critical,
}

abbrev ctx : RuleContext
ctx = record { tenant_id = "t"; cluster_id = "c"; cluster_name = "prod" }

abbrev web : Container
web = record {
  name = "web";
  image = "web:1";
  image_digest = none;
  cpu_limits_millicores = 500;
  memory_limits_bytes = 0;
  privileged = false;
  run_as_root = true;
  added_capabilities = "NET_RAW" ∷ "CHOWN" ∷ [];
  host_paths = "/data" ∷ "/etc" ∷ [];
}

abbrev pods : List Pod
pods =
    record { namespace = "shop"; name = "web-0"; service_account = none; containers = web ∷ [] }
    ∷ []

report-critical_example : is_critical (report ctx pods).risk_level ≡ (
    any_container is_privileged pods
    || (any_container mounts_sensitive pods || any_container adds_take_over pods))
report-critical_example = report-critical ctx pods

rec_map-first_example :
    (affected (get (rec_map [] (evaluate ctx pods)) "AICC-RT-002")
      ≡ tally (of_rule "AICC-RT-002") (evaluate ctx pods))
    × (level_of (get (rec_map [] (evaluate ctx pods)) "AICC-RT-002") none
        ≡ level_of none (find (of_rule "AICC-RT-002") (evaluate ctx pods)))
rec_map-first_example = rec_map-first (evaluate ctx pods) "AICC-RT-002"
