-- ===== src/Poam/Repository.antt =====
-- poam.repository.ts: the in-memory repository, a `Map` from ids to items in insertion order. No
-- stored item is mutated in place, so a copy is the value itself.

pub mod Groups
pub mod Listing
use ai_devsecops_command_cen.Common.{◌&◌}
use ai_devsecops_command_cen.Common.{
  ℕ, ◌+◌, String, Bool, true, false, ◌&&◌, ◌||◌, not, Option, none, some, List, [], ◌∷◌, ◌++◌, ltb,
  ◌==◌, if◌then◌else◌, or_else, find, select, take, drop, length,
}
use ai_devsecops_command_cen.Common.Dict
use ai_devsecops_command_cen.Common.Dict.{Dict}
use ai_devsecops_command_cen.Common.Sort.{sort}
use ai_devsecops_command_cen.Poam.Types.{
  PoamItem, PoamStatus, Framework, ListPoamFilter, StatusFilter, every, only, status_eq,
  framework_eq, is_settled, opened, in_progress, awaiting_evidence, overdue,
}

abbrev pub Store : Type 0
Store = Dict PoamItem

unfoldable pub create : Store → PoamItem → Store
create items item = Dict.set items item.poam_id item

own : String → PoamItem → Option PoamItem
own tenant item = if item.tenant_id == tenant then some item else none

unfoldable pub get_by_id : Store → String → String → Option PoamItem
unfolding own
get_by_id items tenant id = elim (Dict.get items id) [ none ↦ none | some item ↦ own tenant item ]

-- `item.vulnId === vulnId`, false on `undefined`.
abbrev pub vuln_is : Option String → String → Bool
vuln_is none v = false
vuln_is (some w) v = w == v

-- The tests of the loop of `findOpenForControlVuln`.
abbrev pub is_open_for : String → String → String → PoamItem → Bool
is_open_for tenant control vuln item =
    item.tenant_id == tenant
    && (item.control_id == control && (vuln_is item.vuln_id vuln && not (is_settled item.status)))

unfoldable pub find_open_for_control_vuln : Store → String → String → String → Option PoamItem
find_open_for_control_vuln items tenant control vuln =
    find (is_open_for tenant control vuln) (Dict.values items)

-- `update`: the patch is the spread of its fields over the item, and the two ids are put back. The
-- source throws where the result is `none`.
unfoldable pub update : Store → String → String → (PoamItem → PoamItem) → Option (PoamItem × Store)
unfolding get_by_id
update items tenant id patch = elim (get_by_id items tenant id) [
  | none ↦ none
  | some existing ↦
      let next = record (patch existing) {
        poam_id = existing.poam_id;
        tenant_id = existing.tenant_id;
      } in
      some (next, Dict.set items id next)
]

-- open, in progress or awaiting evidence.
abbrev pub is_active : PoamStatus → Bool
is_active opened = true
is_active in_progress = true
is_active awaiting_evidence = true
is_active _ = false

-- A test of the filter that holds where the field is absent; the empty string counts as absent.
abbrev pub if_given : Option String → (String → Bool) → Bool
if_given none p = true
if_given (some s) p = s == "" || p s

abbrev pub if_set {ℓ} : {A : Type ℓ} → Option A → (A → Bool) → Bool
if_set none p = true
if_set (some a) p = p a

-- The filter by status: 'overdue' is computed from the due date.
abbrev pub status_passes : ℕ → Option StatusFilter → PoamItem → Bool
status_passes now none item = true
status_passes now (some every) item = true
status_passes now (some (only overdue)) item = is_active item.status && not (ltb now item.due_at)
status_passes now (some (only s)) item = status_eq item.status s

-- `toISOString` of an instant, and `<` on strings.
pub record Texts : Type 0 where
  pub iso : ℕ → String
  pub text_before : String → String → Bool

-- The `continue`s of the loop of `list`. The due date is compared as a text with the client's.
unfoldable pub passes : Texts → ℕ → String → ListPoamFilter → PoamItem → Bool
passes js now tenant filter item =
    item.tenant_id == tenant
    && (if_given filter.control_id (λ c. item.control_id == c)
        && (if_set filter.framework (λ f. framework_eq item.framework f)
            && (if_given filter.vuln_id (λ v. vuln_is item.vuln_id v)
                && (if_given filter.due_before (λ d. not (js.text_before d (js.iso item.due_at)))
                    && (if_given filter.due_after (λ d. not (js.text_before (js.iso item.due_at) d))
                        && status_passes now filter.status item)))))

-- `Math.min(Math.max(limit ?? 50, 1), 200)`.
abbrev pub clamp_limit : Option ℕ → ℕ
clamp_limit limit = let n = or_else limit 50 in if ltb n 1 then 1 else if ltb 200 n then 200 else n

-- Newest first.
abbrev pub newer : PoamItem → PoamItem → Bool
newer a b = ltb b.created_at a.created_at

unfoldable pub matching : Texts → Store → ℕ → String → ListPoamFilter → List PoamItem
unfolding passes
matching js items now tenant filter =
    sort newer (select (passes js now tenant filter) (Dict.values items))

-- The page, and the cursor of the next one.
unfoldable pub page : List PoamItem → ℕ → ℕ → List PoamItem × Option ℕ
page matches start limit =
    let slice = take limit (drop start matches) in
    let next = start + length slice in
    (slice, if ltb next (length matches) then some next else none)

unfoldable pub list : Texts → Store → ℕ → String → ListPoamFilter → List PoamItem × Option ℕ
unfolding matching page
list js items now tenant filter =
    page (matching js items now tenant filter) (or_else filter.cursor 0) (clamp_limit filter.limit)

unfoldable pub find_overdue : Store → String → ℕ → Option Framework → List PoamItem
find_overdue items tenant now framework =
    select
      (λ item.
        item.tenant_id == tenant
        && (if_set framework (λ f. framework_eq item.framework f)
            && (is_active item.status && not (ltb now item.due_at))))
      (Dict.values items)

unfoldable pub push_item : Dict (List PoamItem) → PoamItem → Dict (List PoamItem)
push_item out item =
    Dict.set out item.tenant_id (or_else (Dict.get out item.tenant_id) [] ++ item ∷ [])

unfoldable pub group_from : Dict (List PoamItem) → List PoamItem → Dict (List PoamItem)
group_from out [] = out
group_from out (item ∷ rest) =
    group_from (if is_settled item.status then out else push_item out item) rest

unfoldable pub find_all_open_grouped_by_tenant : Store → Dict (List PoamItem)
find_all_open_grouped_by_tenant items = group_from [] (Dict.values items)
