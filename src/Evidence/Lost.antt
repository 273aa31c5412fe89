-- ===== src/Evidence/Lost.antt =====
-- What is left when the bus refuses the event about a piece of evidence.
use ai_devsecops_command_cen.Common.{◌+◌, ap, ◌∙◌}
use ai_devsecops_command_cen.Common.Dict.{Dict}
use ai_devsecops_command_cen.Evidence.Attach.{
  attach_control, attach_unless, finding_description, scan_ref_of,
}
use ai_devsecops_command_cen.Evidence.Attacher.{
  emit_evidence_attached, InfrastructureFinding, ScanRef,
}
use ai_devsecops_command_cen.Common.{String, ◌≡◌, refl, sym, none, some}
use ai_devsecops_command_cen.Common.Dict
use ai_devsecops_command_cen.Evidence.World.{
  ◌>>=◌, Outside, lift, AttacherWorld, EvidenceRecord, find_by_ref, create_evidence, Act, log,
  proceed, return,
}
use ai_devsecops_command_cen.Poam.World.{Result, ok, err, bus, publish, record_audit, Error}
use ai_devsecops_command_cen.Poam.Audit.{with_audit}
use ai_devsecops_command_cen.Evidence.Redelivery.{
  own_ref, attach_control_found, attach_unless-records, HasRef,
}
use mathlib.Core.Path.{subst}

emit_evidence_attached_refused :
    (o : Outside) (e : EvidenceRecord) (scan : ScanRef) (s : AttacherWorld) (message : String)
    → o.env.bus_error s.poam.attempts ≡ some message
    → ((emit_evidence_attached o e scan s).0 ≡ err (bus message))
      × ((emit_evidence_attached o e scan s).1.poam.published ≡ s.poam.published)
unfolding emit_evidence_attached lift with_audit publish record_audit
emit_evidence_attached_refused o e scan s message refused =
    (rw (refused, publish) refl, rw (refused, publish) refl)

error_of : {A : Type 0} → Error → Result A → Error
error_of d (ok a) = d
error_of d (err e) = e

proceed_err :
    {A B : Type 0} (r : Result A) (x : Error) (k : A → Act B) (s : AttacherWorld)
    → r ≡ err x
    → proceed r k s ≡ (err x, s)
unfolding error_of
proceed_err (ok a) x k s h = cc
proceed_err (err e) x k s h = ap (λ y. (err y, s)) (ap (error_of x) h)

module _ (o : Outside) (collected_by : String) (f : InfrastructureFinding)
    (ref hash control : String) (s : AttacherWorld) where
  attach_unless_refused :
      (message : String)
      → o.env.bus_error s.poam.attempts ≡ some message
      → let (r, t) = attach_unless o collected_by f ref hash control none s in
        (r ≡ err (bus message)) × (t.poam.published ≡ s.poam.published)
  unfolding attach_unless ◌>>=◌ create_evidence
  attach_unless_refused message refused =
      let e : EvidenceRecord = record {
        id = o.new_id s.ids;
        tenant_id = f.tenant_id;
        control_id = control;
        kind = log;
        description = finding_description f hash;
        ref = ref;
        collected_by = collected_by;
        collected_at = o.date s.dates;
      } in
      let stored : AttacherWorld = record s {
        records = Dict.set s.records e.id e;
        ids = s.ids + 1;
        dates = s.dates + 1;
      } in
      let (a, b) = emit_evidence_attached_refused o e (scan_ref_of f) stored message refused in
      let stop =
        proceed_err (emit_evidence_attached o e (scan_ref_of f) stored).0 (bus message)
          (λ _. return e.id) (emit_evidence_attached o e (scan_ref_of f) stored).1 a in
      (ap (λ r. r.0) stop, ap (λ r. r.1.poam.published) stop ∙ b)

  -- Where a control has no evidence yet and the bus refuses the event, attaching throws the error of
  -- the bus and publishes nothing; the record is stored, and attaching again returns it without
  -- publishing or changing anything.
  pub attach_control_refused :
      (message : String)
      → find_by_ref s.records f.tenant_id control ref ≡ none
      → o.env.bus_error s.poam.attempts ≡ some message
      → let (r, t) = attach_control o collected_by f ref hash control s in
        (r ≡ err (bus message))
        × (t.poam.published ≡ s.poam.published)
        × ((id : String) × (attach_control o collected_by f ref hash control t ≡ (ok id, t)))
  unfolding attach_control
  attach_control_refused message new refused =
      let t = (attach_unless o collected_by f ref hash control none s).1 in
      let (e, records, _, fits) = attach_unless-records o collected_by f ref hash control s in
      let there =
        subst (λ m. HasRef m f.tenant_id ref control) (sym records)
          (own_ref o f.tenant_id ref s e control fits) in
      let (a, b) = attach_unless_refused message refused in
      rw new (a, b, attach_control_found o collected_by f ref hash control t there)
