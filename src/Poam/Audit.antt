-- ===== src/Poam/Audit.antt =====
-- observability/audit.ts: `withAudit` runs an action, records its outcome and passes it on.
use ai_devsecops_command_cen.Common.{String, ◌≡◌, refl}
use ai_devsecops_command_cen.Common.Dict
use ai_devsecops_command_cen.Common.Dict.{Dict}
use ai_devsecops_command_cen.Common.Json.{Json, text}
use ai_devsecops_command_cen.Poam.World.{
  AuditRecord, AuditKind, AuditResult, success, error, Error, Result, ok, err, M, record_audit, bus,
  not_found, invalid_transition, no_evidence, World,
}

-- `Omit<AuditRecord, 'result'>`.
pub record Pending : Type 0 where
  pub tenant_id : String
  pub audit_kind : AuditKind
  pub subject_id : String
  pub detail : Dict Json

abbrev pub outcome : Pending → AuditResult → Dict Json → AuditRecord
outcome p result detail = record {
  tenant_id = p.tenant_id;
  result = result;
  audit_kind = p.audit_kind;
  subject_id = p.subject_id;
  detail = detail;
}

-- `String(err)`, for the errors that can reach it.
abbrev pub message_of : Error → String
message_of (bus message) = message
message_of (not_found id) = id
message_of (invalid_transition _ _) = "invalid transition"
message_of no_evidence = "no evidence"

settle : {A : Type 0} → Pending → Result A → M A
unfolding record_audit
settle p (ok a) w = (ok a, (record_audit (outcome p success p.detail) w).1)
settle p (err e) w =
    (err e, (record_audit (outcome p error (Dict.set p.detail "error" (text (message_of e)))) w).1)

unfoldable pub with_audit : {A : Type 0} → Pending → M A → M A
unfolding settle
with_audit p fn w = let (r, v) = fn w in settle p r v

-- What the action does to the store stands: only the audit trail grows.
settle_items :
    {A : Type 0} (p : Pending) (r : Result A) (v : World)
    → ((settle p r v).1.items ≡ v.items) × ((settle p r v).1.uuids ≡ v.uuids)
unfolding settle
settle_items p (ok a) v = (refl, refl)
settle_items p (err e) v = (refl, refl)

settle-outcome : {A : Type 0} (p : Pending) (r : Result A) (v : World) → (settle p r v).0 ≡ r
unfolding settle
settle-outcome p (ok a) v = refl
settle-outcome p (err e) v = refl

module _ {A : Type 0} (p : Pending) (m : M A) (w : World) where
  pub with_audit_items :
      ((with_audit p m w).1.items ≡ (m w).1.items) × ((with_audit p m w).1.uuids ≡ (m w).1.uuids)
  unfolding with_audit
  with_audit_items = settle_items p (m w).0 (m w).1

  -- The outcome of the action is passed on.
  pub with_audit-outcome : (with_audit p m w).0 ≡ (m w).0
  unfolding with_audit
  with_audit-outcome = settle-outcome p (m w).0 (m w).1
