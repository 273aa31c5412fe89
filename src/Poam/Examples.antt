-- ===== src/Poam/Examples.antt =====
-- Concrete runs of the POA&M service.
use ai_devsecops_command_cen.Common.{false, ltb, if◌then◌else◌}
use ai_devsecops_command_cen.Common.Dict.{Dict}
use ai_devsecops_command_cen.Common.{
  ℕ, zero, suc, ◌*◌, ◌≡◌, ◌≢◌, refl, sym, ◌∙◌, ap, arith, String, true, none, some, List, [], ◌∷◌,
  length, All, drop, ◌+◌,
}
use ai_devsecops_command_cen.Common.Dict
use ai_devsecops_command_cen.Common.Text.{codes}
use ai_devsecops_command_cen.Poam.Types.{
  PoamItem, ControlVulnTuple, ListPoamFilter, VulnSeverity, nist_800_53, closed, overdue, only,
}
use ai_devsecops_command_cen.Poam.Repository
use Prim.Native.String.{compare}
use Prim.Native.Nat.{Ordering}
use ai_devsecops_command_cen.Poam.Repository.{Texts, Store, is_open_for, page, clamp_limit, passes}
use ai_devsecops_command_cen.Poam.Repository.Listing.{pages, pages-eq-drop, list_overdue_unmarked}
use ai_devsecops_command_cen.Poam.World.{
  Env, World, init, ok, publish, read_clock, random_uuid, ◌>>=◌, record_audit,
}
use ai_devsecops_command_cen.Poam.Items.{auto_item}
use ai_devsecops_command_cen.Poam.Lifecycle.{Steps, IsDocumented, IsRival}
use ai_devsecops_command_cen.Poam.Service
use ai_devsecops_command_cen.Poam.Audit.{with_audit}
use ai_devsecops_command_cen.Poam.Service.Emit.{
  texts, emit_poam_created, emit_poam_closed, emit_poam_overdue,
}
use ai_devsecops_command_cen.Poam.Service.Safe.{Good}
use ai_devsecops_command_cen.Poam.Service.Marks.{Handled}
use ai_devsecops_command_cen.Poam.Service.Requests.{
  Request, from_tuple, close, scan, run, init-Good, serve,
}
use ai_devsecops_command_cen.Poam.Service.Publishing.{create_from_tuple_refused}
use ai_devsecops_command_cen.Poam.World.{err, bus}
use ai_devsecops_command_cen.Poam.Service.Guarantees.{
  run-Steps, run_unrivalled, run-IsDocumented, run-keeps_closed, scan_for_overdue_complete,
  create_from_tuple_twice,
}

-- Ids of growing length.
unfoldable pub stars : ℕ → String
stars zero = ""
stars (suc n) = String.◌∷◌ "*" (stars n)

stars-length : (n : ℕ) → length (codes (stars n)) ≡ n
unfolding stars
stars-length zero = refl
stars-length (suc n) = omega (arith, stars-length n)

pub stars_distinct : (i j : ℕ) → stars i ≡ stars j → i ≡ j
stars_distinct i j e = sym (stars-length i) ∙ ap (λ s. length (codes s)) e ∙ stars-length j

-- A clock that goes on by 10^10 ms, and a bus that takes everything.
abbrev pub env : Env
env = record { uuid = stars; now = λ n. n * 10000000000; bus_error = λ n. none }

abbrev tuple : ControlVulnTuple
tuple = record {
  control_id = "SI-2";
  vuln_id = "CVE-2024-12345";
  framework = nist_800_53;
  rule_id = "rule-1";
  severity = VulnSeverity.critical;
  sla_days = 7;
  due_at = 604800000;
}

abbrev first : PoamItem
first = auto_item "acme" 0 "" tuple

abbrev filing : List Request
filing = from_tuple "acme" tuple ∷ from_tuple "acme" tuple ∷ []

abbrev closing : List Request
closing = from_tuple "acme" tuple ∷ close "acme" "" "ana" "patched" ("evidence-1" ∷ []) ∷ []

abbrev first_closed : PoamItem
first_closed = record first {
  status = closed;
  closed_at = some 10000000000;
  closed_by = some "ana";
  resolution_notes = some "patched";
  evidence_refs = "evidence-1" ∷ [];
}

filed : Dict.get (run env filing init).items "" ≡ some first
unfolding Dict.get Dict.set Dict.values stars run serve with_audit publish read_clock random_uuid
    ◌>>=◌ record_audit emit_poam_created emit_poam_closed emit_poam_overdue texts
    Service.create_from_tuple Service.create_unless Service.build_auto Service.create Service.close
    Service.transition Service.move Service.update Service.updated Service.report
    Service.audit_transition Repository.create Repository.update Repository.get_by_id
    Repository.find_open_for_control_vuln
filed = refl

closed_there : Dict.get (run env closing init).items "" ≡ some first_closed
unfolding Dict.get Dict.set Dict.values stars run serve with_audit publish read_clock random_uuid
    ◌>>=◌ record_audit emit_poam_created emit_poam_closed emit_poam_overdue texts
    Service.create_from_tuple Service.create_unless Service.build_auto Service.create Service.close
    Service.transition Service.move Service.update Service.updated Service.report
    Service.audit_transition Repository.create Repository.update Repository.get_by_id
    Repository.find_open_for_control_vuln
closed_there = refl

run-Steps_example : Steps init.items (run env closing init).items × Good env (run env closing init)
run-Steps_example = run-Steps env stars_distinct closing init (init-Good env)

first-IsRival : IsRival first first
first-IsRival = record {
  p_auto = refl;
  q_auto = refl;
  p_open = refl;
  q_open = refl;
  tenants = refl;
  controls = refl;
  vulns = refl;
}

run_unrivalled_example : ◌≡◌ {A = String} "" ""
run_unrivalled_example =
    run_unrivalled env stars_distinct filing "" "" first first filed filed first-IsRival

run-IsDocumented_example : IsDocumented first_closed
run-IsDocumented_example = run-IsDocumented env stars_distinct closing "" first_closed closed_there

closing-Good : Good env (run env closing init)
closing-Good = (run-Steps env stars_distinct closing init (init-Good env)).1

run-keeps_closed_example :
    Dict.get (run env (scan ∷ filing) (run env closing init)).items "" ≡ some first_closed
run-keeps_closed_example =
    run-keeps_closed env stars_distinct (scan ∷ filing) (run env closing init) "" first_closed
      (closing-Good) closed_there refl

abbrev filed_world : World
filed_world = run env filing init

abbrev late : PoamItem
late = record first { status = overdue }

scan_returns : (Service.scan_for_overdue env filed_world).0 ≡ ok (late ∷ [])
unfolding Service.scan_for_overdue Service.scan_groups Service.scan_items Service.scan_item
    Repository.find_all_open_grouped_by_tenant Repository.group_from Repository.push_item Dict.get
    Dict.set Dict.values stars run serve with_audit publish read_clock random_uuid ◌>>=◌
    record_audit emit_poam_created emit_poam_closed emit_poam_overdue texts
    Service.create_from_tuple Service.create_unless Service.build_auto Service.create Service.close
    Service.transition Service.move Service.update Service.updated Service.report
    Service.audit_transition Repository.create Repository.update Repository.get_by_id
    Repository.find_open_for_control_vuln
scan_returns = refl

scan_for_overdue_complete_example :
    Handled (env.now filed_world.readings) (Service.scan_for_overdue env filed_world).1.items ""
scan_for_overdue_complete_example =
    scan_for_overdue_complete env filed_world "" first (late ∷ [])
      ((run-Steps env stars_distinct filing init (init-Good env)).1) filed refl scan_returns

create_from_tuple_twice_example :
    let v = (Service.create_from_tuple env "acme" tuple init).1 in
    (q : PoamItem) × (Service.create_from_tuple env "acme" tuple v
      ≡ (ok (record { poam = q; deduplicated = true }), v))
    × (is_open_for "acme" tuple.control_id tuple.vuln_id q ≡ true)
create_from_tuple_twice_example = create_from_tuple_twice env "acme" tuple init

abbrev overdue_only : ListPoamFilter
overdue_only = record {
  status = some (only overdue);
  control_id = none;
  framework = none;
  vuln_id = none;
  due_before = none;
  due_after = none;
  cursor = none;
  limit = some 1;
}

-- Each instant of the example within the first minute of 1970 or later.
abbrev comparing : Texts
comparing = record {
  iso = λ t. if ltb t 60000 then "1970-01-01T00:00:00.000Z" else "1970-01-08T00:00:00.000Z";
  text_before =
      λ s t. elim (compare s t) [ Ordering.lt ↦ true | Ordering.eq ↦ false | Ordering.gt ↦ false ];
}

abbrev two : Store
two = ("a", record first { poam_id = "a" }) ∷ ("b", record late { poam_id = "b" }) ∷ []

list_overdue_unmarked_example :
    All
      (λ (p : PoamItem). p.status ≢ overdue)
      (Repository.list comparing two 604800000 "acme" overdue_only).0
list_overdue_unmarked_example =
    list_overdue_unmarked comparing two 604800000 "acme" overdue_only refl

pages-eq-drop_example :
    pages 4 (first ∷ late ∷ first_closed ∷ []) 2 0
    ≡ some (drop 0 (first ∷ late ∷ first_closed ∷ []))
pages-eq-drop_example =
    pages-eq-drop 4 (first ∷ late ∷ first_closed ∷ []) 2 0 (omega arith) (omega arith) (omega arith)

-- A bus that takes nothing.
abbrev down : Env
down = record env { bus_error = λ n. some "down" }

nothing_open :
    Repository.find_open_for_control_vuln init.items "acme" tuple.control_id tuple.vuln_id ≡ none
unfolding Dict.values Repository.find_open_for_control_vuln
nothing_open = refl

create_from_tuple_refused_example :
    let (result, v) = Service.create_from_tuple down "acme" tuple init in
    (result ≡ err (bus "down"))
    × (v.items
        ≡ Repository.create init.items
            (auto_item "acme" (down.now init.readings) (down.uuid init.uuids) tuple))
    × (v.published ≡ init.published)
    × (length v.audit ≡ length init.audit + 1)
create_from_tuple_refused_example =
    create_from_tuple_refused down "acme" tuple init nothing_open "down" refl
