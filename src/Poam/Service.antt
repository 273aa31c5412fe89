-- ===== src/Poam/Service.antt =====
-- poam.service.ts. A method is an action on the `World`; the `Env` gives ids, times and the bus.
pub mod Emit
pub mod Safe
pub mod Refines
pub mod Moves
pub mod Marks
pub mod Scan
pub mod Requests
pub mod Guarantees
pub mod Publishing
pub mod Complete
use ai_devsecops_command_cen.Common.{
  ℕ, ◌+◌, ◌*◌, String, Bool, true, false, not, Option, none, some, List, [], ◌∷◌, ◌++◌, ltb, ◌==◌,
  ◌&◌, if◌then◌else◌, or_else, length, eqb,
}
use ai_devsecops_command_cen.Common.Dict
use ai_devsecops_command_cen.Common.Dict.{Dict}
use ai_devsecops_command_cen.Common.Json.{Json, text, number}
use ai_devsecops_command_cen.Poam.Types.{
  Framework, cis_v8, nist_800_53, soc2, iso_27001, VulnSeverity, PoamSeverity, PoamStatus, opened,
  in_progress, awaiting_evidence, closed, risk_accepted, overdue, auto, manual, poam_sla_days,
  day_ms, PoamRiskAcceptance, PoamItem, CreatePoamInput, CreatePoamResult, ListPoamFilter,
  ControlVulnTuple, status_eq,
}
use ai_devsecops_command_cen.Poam.Repository
use ai_devsecops_command_cen.Poam.Repository.{Store}
use ai_devsecops_command_cen.Poam.World.{
  Env, World, AuditRecord, AuditKind, poam_in_progress, poam_pending_verification,
  poam_risk_accepted, success, not_found, invalid_transition, no_evidence, M, Result, ok, err,
  ◌>>=◌, ◌>>◌, pure, throw, gets, put_items, record_audit, read_clock, random_uuid, publish,
}
use ai_devsecops_command_cen.Poam.Names.{status_name, severity_name, framework_name}
use Emit.{emit_poam_created, emit_poam_closed, emit_poam_overdue}
use ai_devsecops_command_cen.Poam.Items.{
  is_valid_transition, map_poam_status_to_audit_kind, auto_item, manual_item,
}

-- `repo.create`, which returns the item.
unfoldable pub create : PoamItem → M PoamItem
create item = do items ← gets (λ w. w.items); put_items (Repository.create items item); pure item

unfoldable pub updated : Store → String → Option (PoamItem × Store) → M PoamItem
updated items id none = throw (not_found id)
updated items id (some (next, items')) = put_items items' >> pure next

-- `repo.update`.
unfoldable pub update : String → String → (PoamItem → PoamItem) → M PoamItem
update tenant id patch = do
  items ← gets (λ w. w.items)
  updated items id (Repository.update items tenant id patch)

-- The audit record of a transition that has no event of its own.
unfoldable pub audit_transition :
    Option AuditKind → String → String → PoamItem → PoamStatus → PoamStatus → String → M (Unit {0})
audit_transition none tenant id item from to user = pure tt
audit_transition (some kind) tenant id item from to user = record_audit (record {
  tenant_id = tenant;
  result = success;
  audit_kind = kind;
  subject_id = id;
  detail =
      ("controlId", text item.control_id)
      ∷ ("fromStatus", text (status_name from))
      ∷ ("toStatus", text (status_name to))
      ∷ ("actor", text user)
      ∷ [];
})

module _ (env : Env) where
  unfoldable pub build_auto : String → ControlVulnTuple → M PoamItem
  build_auto tenant t = do
    now ← read_clock env
    id ← random_uuid env
    pure (auto_item tenant now id t)

  -- createFromTuple, once the search for an open item has been made.
  unfoldable pub create_unless : String → ControlVulnTuple → Option PoamItem → M CreatePoamResult
  create_unless tenant t (some existing) = pure (record { poam = existing; deduplicated = true })
  create_unless tenant t none = do
    poam ← build_auto tenant t
    saved ← create poam
    emit_poam_created env saved
    pure (record { poam = saved; deduplicated = false })

  unfoldable pub create_from_tuple : String → ControlVulnTuple → M CreatePoamResult
  create_from_tuple tenant t = do
    items ← gets (λ w. w.items)
    create_unless tenant t
        (Repository.find_open_for_control_vuln items tenant t.control_id t.vuln_id)

  unfoldable pub create_from_tuples : String → List ControlVulnTuple → M (List PoamItem)
  create_from_tuples tenant [] = pure []
  create_from_tuples tenant (t ∷ ts) = do
    result ← create_from_tuple tenant t
    created ← create_from_tuples tenant ts
    pure (if result.deduplicated then created else result.poam ∷ created)

  unfoldable pub create_manual : String → CreatePoamInput → String → M PoamItem
  create_manual tenant input user = do
    now ← read_clock env
    id ← random_uuid env
    saved ← create (manual_item tenant now id input user)
    emit_poam_created env saved
    pure saved

  -- The event or the audit record of a transition.
  unfoldable pub report :
      String → String → PoamStatus → PoamStatus → String → PoamItem → M (Unit {0})
  report tenant id from closed user item = emit_poam_closed env item user
  report tenant id from next user item =
      audit_transition (map_poam_status_to_audit_kind next) tenant id item from next user

  unfoldable pub move :
      String → String → PoamStatus → String → (PoamItem → PoamItem) → Option PoamItem → M PoamItem
  move tenant id next user extra none = throw (not_found id)
  move tenant id next user extra (some current) =
      if is_valid_transition current.status next
      then (do
        item ← update tenant id (λ p. record (extra p) { status = next })
        report tenant id current.status next user item
        pure item)
      else throw (invalid_transition current.status next)

  -- `extra` is the spread of the fields that come with the new status.
  unfoldable pub transition :
      String → String → PoamStatus → String → (PoamItem → PoamItem) → M PoamItem
  transition tenant id next user extra = do
    items ← gets (λ w. w.items)
    move tenant id next user extra (Repository.get_by_id items tenant id)

  unfoldable pub start_progress : String → String → String → M PoamItem
  start_progress tenant id user = transition tenant id in_progress user (λ p. p)

  unfoldable pub mark_awaiting_evidence : String → String → String → M PoamItem
  mark_awaiting_evidence tenant id user = transition tenant id awaiting_evidence user (λ p. p)

  unfoldable pub close : String → String → String → String → List String → M PoamItem
  close tenant id user notes [] = throw no_evidence
  close tenant id user notes (ref ∷ refs) = do
    now ← read_clock env
    transition tenant id closed user (λ p. record p {
      closed_at = some now;
      closed_by = some user;
      resolution_notes = some notes;
      evidence_refs = ref ∷ refs;
    })

  unfoldable pub accept_risk :
      String → String → String → String → String → Option String → M PoamItem
  accept_risk tenant id user justification expires control = do
    now ← read_clock env
    transition tenant id risk_accepted user (λ p. record p {
      risk_acceptance = some (record {
        accepted_by = user;
        accepted_at = now;
        justification = justification;
        expires_at = expires;
        compensating_control_id = control;
      });
    })

  -- One item of `scanForOverdue`; `none` is a `continue`.
  unfoldable pub scan_item : ℕ → String → PoamItem → M (Option PoamItem)
  scan_item now tenant item =
      if ltb now item.due_at
      then pure none
      else if status_eq item.status overdue
      then pure none
      else (do
        saved ← update tenant item.poam_id (λ p. record p { status = overdue })
        emit_poam_overdue env saved
        pure (some saved))

  unfoldable pub scan_items : ℕ → String → List PoamItem → M (List PoamItem)
  scan_items now tenant [] = pure []
  scan_items now tenant (item ∷ rest) = do
    here ← scan_item now tenant item
    later ← scan_items now tenant rest
    pure (elim here [ none ↦ later | some p ↦ p ∷ later ])

  unfoldable pub scan_groups : ℕ → Dict (List PoamItem) → M (List PoamItem)
  scan_groups now [] = pure []
  scan_groups now ((tenant, items) ∷ rest) = do
    here ← scan_items now tenant items
    later ← scan_groups now rest
    pure (here ++ later)

  unfoldable pub scan_for_overdue : M (List PoamItem)
  scan_for_overdue = do
    grouped ← gets (λ w. Repository.find_all_open_grouped_by_tenant w.items)
    now ← read_clock env
    scan_groups now grouped
