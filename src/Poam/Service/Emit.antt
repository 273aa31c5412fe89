-- ===== src/Poam/Service/Emit.antt =====
-- The events of poam.service.ts. A payload is the list of its fields; an absent field is left out,
-- and a time is its number of milliseconds.
use ai_devsecops_command_cen.Common.{
  ◌-◌, ◌/◌, String, Option, none, some, List, [], ◌∷◌, ◌++◌, length,
}
use ai_devsecops_command_cen.Common.Dict.{Dict}
use ai_devsecops_command_cen.Common.Json.{Json, text, number, array, Items, nil, cons}
use ai_devsecops_command_cen.Poam.Types.{PoamItem, Severity, day_ms}
use ai_devsecops_command_cen.Poam.Names.{
  framework_name, severity_name, source_name, severity_from_poam,
}
use ai_devsecops_command_cen.Poam.World.{
  Env, M, ◌>>=◌, publish, read_clock, poam_created, poam_closed, poam_overdue,
}
use ai_devsecops_command_cen.Poam.Audit.{with_audit}

abbrev pub optional : String → Option String → Dict Json
optional name none = []
optional name (some s) = (name, text s) ∷ []

unfoldable pub texts : List String → Items
texts [] = nil
texts (s ∷ ss) = cons (text s) (texts ss)

module _ (env : Env) where
  unfoldable pub emit_poam_created : PoamItem → M (Unit {0})
  emit_poam_created poam =
      with_audit
        (record {
          tenant_id = poam.tenant_id;
          audit_kind = poam_created;
          subject_id = poam.poam_id;
          detail =
              ("controlId", text poam.control_id)
              ∷ ("severity", text (severity_name poam.severity))
              ∷ ("source", text (source_name poam.source))
              ∷ [];
        })
        (publish env (record {
          type = "compliance.poam.created";
          version = 1;
          source = "compliance-service";
          tenant_id = poam.tenant_id;
          payload =
              ("poamId", text poam.poam_id)
              ∷ ("controlId", text poam.control_id)
              ∷ ("framework", text (framework_name poam.framework))
              ∷ (optional "vulnId" poam.vuln_id
                  ++ ("severity", text (severity_name poam.severity))
                    ∷ ("dueAt", number poam.due_at)
                    ∷ ("source", text (source_name poam.source))
                    ∷ ("tenantId", text poam.tenant_id)
                    ∷ []);
          severity = severity_from_poam poam.severity;
        }))

  unfoldable pub emit_poam_closed : PoamItem → String → M (Unit {0})
  emit_poam_closed poam user =
      with_audit
        (record {
          tenant_id = poam.tenant_id;
          audit_kind = poam_closed;
          subject_id = poam.poam_id;
          detail =
              ("controlId", text poam.control_id)
              ∷ ("closedBy", text user)
              ∷ ("evidenceCount", number (length poam.evidence_refs))
              ∷ [];
        })
        (publish env (record {
          type = "compliance.poam.closed";
          version = 1;
          source = "compliance-service";
          tenant_id = poam.tenant_id;
          payload =
              ("poamId", text poam.poam_id)
              ∷ ("controlId", text poam.control_id)
              ∷ ("framework", text (framework_name poam.framework))
              ∷ ("closedBy", text user)
              ∷ (optional "resolutionNotes" poam.resolution_notes
                  ++ ("evidenceRefs", array (texts poam.evidence_refs))
                    ∷ ("tenantId", text poam.tenant_id)
                    ∷ []);
          severity = Severity.info;
        }))

  -- The days overdue are from a new reading of the clock, which is not before the due date.
  unfoldable pub emit_poam_overdue : PoamItem → M (Unit {0})
  emit_poam_overdue poam = do
    now ← read_clock env
    with_audit
        (record {
          tenant_id = poam.tenant_id;
          audit_kind = poam_overdue;
          subject_id = poam.poam_id;
          detail =
              ("controlId", text poam.control_id)
              ∷ ("severity", text (severity_name poam.severity))
              ∷ ("daysOverdue", number ((now - poam.due_at) / day_ms))
              ∷ [];
        })
        (publish env (record {
          type = "compliance.poam.overdue";
          version = 1;
          source = "compliance-service";
          tenant_id = poam.tenant_id;
          payload =
              ("poamId", text poam.poam_id)
              ∷ ("controlId", text poam.control_id)
              ∷ ("framework", text (framework_name poam.framework))
              ∷ ("severity", text (severity_name poam.severity))
              ∷ ("dueAt", number poam.due_at)
              ∷ ("tenantId", text poam.tenant_id)
              ∷ [];
          severity = severity_from_poam poam.severity;
        }))
