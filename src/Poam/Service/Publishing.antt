-- ===== src/Poam/Service/Publishing.antt =====
-- What `createFromTuple` leaves behind when the bus refuses the event.
use ai_devsecops_command_cen.Common.{◌≡◌, refl, String, none, some, length, ◌+◌, length-append}
use ai_devsecops_command_cen.Poam.Types.{PoamItem, ControlVulnTuple}
use ai_devsecops_command_cen.Poam.World.{
  Env, World, Envelope, M, err, bus, ◌>>=◌, read_clock, random_uuid, publish, record_audit,
}
use ai_devsecops_command_cen.Poam.Audit.{with_audit, Pending}
use ai_devsecops_command_cen.Poam.Items.{auto_item}
use ai_devsecops_command_cen.Poam.Repository
use ai_devsecops_command_cen.Poam.Service
use ai_devsecops_command_cen.Poam.Service.Emit.{emit_poam_created}

-- The action throws what the bus threw: nothing is published, and one audit record is written.
record Refused {A : Type 0} (m : M A) (w : World) (message : String) : Type 0 where
  after : World
  outcome : m w ≡ (err (bus message), after)
  items_kept : after.items ≡ w.items
  published_kept : after.published ≡ w.published
  one_record : length after.audit ≡ length w.audit + 1

with_audit-Refused :
    (env : Env) (p : Pending) (e : Envelope) (w : World) (message : String)
    → env.bus_error w.attempts ≡ some message
    → Refused (with_audit p (publish env e)) w message
unfolding with_audit publish record_audit
with_audit-Refused env p e w message refused = record {
  after = (with_audit p (publish env e) w).1;
  outcome = rw (refused, publish) refl;
  items_kept = rw (refused, publish) refl;
  published_kept = rw (refused, publish) refl;
  one_record = rw (refused, publish) (length-append w.audit _);
}

emit_poam_created-Refused :
    (env : Env) (p : PoamItem) (w : World) (message : String)
    → env.bus_error w.attempts ≡ some message
    → Refused (emit_poam_created env p) w message
unfolding emit_poam_created
emit_poam_created-Refused env p w message refused = with_audit-Refused env _ _ w message refused

module _ (env : Env) (tenant : String) (t : ControlVulnTuple) (w : World)
    (new : Repository.find_open_for_control_vuln w.items tenant t.control_id t.vuln_id ≡ none) where
  -- Where there is no open item for the tuple and the bus refuses the event, `createFromTuple` throws
  -- the error of the bus, but the new item is stored, nothing is published, and one audit record is
  -- written.
  pub create_from_tuple_refused :
      (message : String)
      → env.bus_error w.attempts ≡ some message
      → let (result, v) = Service.create_from_tuple env tenant t w in
        (result ≡ err (bus message))
        × (v.items
            ≡ Repository.create w.items
                (auto_item tenant (env.now w.readings) (env.uuid w.uuids) t))
        × (v.published ≡ w.published)
        × (length v.audit ≡ length w.audit + 1)
  unfolding ◌>>=◌ Service.create_from_tuple Service.create_unless Service.build_auto Service.create
      read_clock random_uuid
  create_from_tuple_refused message refused =
      let p = auto_item tenant (env.now w.readings) (env.uuid w.uuids) t in
      let stored : World = record w {
        items = Repository.create w.items p;
        uuids = w.uuids + 1;
        readings = w.readings + 1;
      } in
      let r = emit_poam_created-Refused env p stored message refused in
      rw (new, Service.create_unless, r.outcome)
        (refl, r.items_kept, r.published_kept, r.one_record)
