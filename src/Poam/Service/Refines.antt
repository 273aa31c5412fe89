-- ===== src/Poam/Service/Refines.antt =====
-- The creating methods of the service against the lifecycle.
use ai_devsecops_command_cen.Common.{
  ℕ, ◌+◌, String, ◌≡◌, refl, sym, ◌∙◌, false, Option, none, some, arith, List, [], ◌∷◌,
}
use ai_devsecops_command_cen.Common.Dict
use ai_devsecops_command_cen.Poam.World.{◌>>◌}
use ai_devsecops_command_cen.Poam.Types.{
  PoamItem, PoamStatus, ControlVulnTuple, CreatePoamInput, opened, closed,
}
use ai_devsecops_command_cen.Poam.Items.{auto_item, manual_item}
use ai_devsecops_command_cen.Poam.World.{Env, World, ◌>>=◌, pure, read_clock, random_uuid}
use ai_devsecops_command_cen.Poam.Repository
use ai_devsecops_command_cen.Poam.Repository.{Store}
use ai_devsecops_command_cen.Poam.Lifecycle.{Step, create, here, next, IsNew}
use ai_devsecops_command_cen.Poam.Lifecycle.Keeps.{Step-Inv}
use ai_devsecops_command_cen.Poam.Service
use ai_devsecops_command_cen.Poam.Service.Emit.{
  emit_poam_created, emit_poam_closed, emit_poam_overdue,
}
use ai_devsecops_command_cen.Poam.Service.Safe.{
  Good, Lands, Safe, Quiet, Quiet-Safe, pure-Safe, bind-Safe, Lands-trans, quiet_rules, safe_rules,
}
use ai_devsecops_command_cen.Poam.Service.{CreatePoamResult}

module _ (env : Env) where
  pub emit_poam_created-Quiet : (p : PoamItem) → Quiet (emit_poam_created env p)
  unfolding emit_poam_created
  emit_poam_created-Quiet p = search quiet_rules

  emit_poam_closed-Quiet : (p : PoamItem) (user : String) → Quiet (emit_poam_closed env p user)
  unfolding emit_poam_closed
  emit_poam_closed-Quiet p user = search quiet_rules

  pub emit_poam_overdue-Quiet : (p : PoamItem) → Quiet (emit_poam_overdue env p)
  unfolding emit_poam_overdue
  emit_poam_overdue-Quiet p = search quiet_rules

  pub report-Quiet :
      (tenant id : String) (from to : PoamStatus) (user : String) (p : PoamItem)
      → Quiet (Service.report env tenant id from to user p)
  unfolding Service.report Service.audit_transition
  report-Quiet tenant id from closed user p = emit_poam_closed-Quiet p user
  report-Quiet tenant id from _ user p = search quiet_rules

  -- The step by which an item under a new id is stored.
  module _ (distinct : (i j : ℕ) → env.uuid i ≡ env.uuid j → i ≡ j) where
    store_new :
        (w v : World) (p : PoamItem)
        → Good env w
        → p.poam_id ≡ env.uuid w.uuids
        → p.status ≡ opened
        → IsNew w.items p
        → v.items ≡ Dict.set w.items p.poam_id p
        → v.uuids ≡ w.uuids + 1
        → Lands env w v
    store_new w v p g id fresh new e u =
        let st : Step w.items v.items =
          create p (rw id (g.fresh w.uuids (omega arith))) fresh new e in
        (
          next here st,
          record {
            inv = Step-Inv g.inv st;
            fresh = λ k le. rw e (
                Dict.get-set_other w.items p.poam_id (env.uuid k) p
                  (λ same. absurd (omega (arith, distinct w.uuids k (sym id ∙ same))))
                ∙ g.fresh k (omega arith));
          },
        )

    -- What `createFromTuple` and `createManual` do once the item is built.
    store_and_emit :
        {A : Type 0} (p : PoamItem) (a : A) (w : World)
        → Good env w
        → p.poam_id ≡ env.uuid w.uuids
        → p.status ≡ opened
        → IsNew w.items p
        → (r : ℕ)
        → Lands env w
            ((emit_poam_created env p >> pure a) (record w {
              items = Dict.set w.items p.poam_id p;
              uuids = w.uuids + 1;
              readings = r;
            })).1
    store_and_emit p a w g id fresh new r =
        let v : World = record w {
          items = Dict.set w.items p.poam_id p;
          uuids = w.uuids + 1;
          readings = r;
        } in
        let stored = store_new w v p g id fresh new refl refl in
        Lands-trans env w v _ stored (
          (bind-Safe env (emit_poam_created env p) (λ _. pure a)
              (Quiet-Safe env _ (emit_poam_created-Quiet p)) (λ _. pure-Safe env a)).at
            v stored.1)

    create_unless-Safe :
        (tenant : String) (t : ControlVulnTuple) (w : World) (found : Option PoamItem)
        → Repository.find_open_for_control_vuln w.items tenant t.control_id t.vuln_id ≡ found
        → Good env w
        → Lands env w (Service.create_unless env tenant t found w).1
    unfolding ◌>>=◌ Service.create_unless Service.build_auto Service.create read_clock random_uuid
        Repository.create
    create_unless-Safe tenant t w (some existing) e g = (here, g)
    create_unless-Safe tenant t w none e g =
        let p = auto_item tenant (env.now w.readings) (env.uuid w.uuids) t in
        let result : CreatePoamResult = record { poam = p; deduplicated = false } in
        store_and_emit p result w g refl refl (λ _. (t.vuln_id, refl, e)) (w.readings + 1)

    pub create_from_tuple-Safe :
        (tenant : String) (t : ControlVulnTuple) → Safe env (Service.create_from_tuple env tenant t)
    unfolding ◌>>=◌ Service.create_from_tuple
    create_from_tuple-Safe tenant t = record {
      at = λ w g.
          create_unless-Safe tenant t w
            (Repository.find_open_for_control_vuln w.items tenant t.control_id t.vuln_id) refl g;
    }

    pub create_from_tuples-Safe :
        (tenant : String) (ts : List ControlVulnTuple)
        → Safe env (Service.create_from_tuples env tenant ts)
    unfolding Service.create_from_tuples
    create_from_tuples-Safe tenant [] = search safe_rules
    create_from_tuples-Safe tenant (t ∷ ts) =
        search (safe_rules, create_from_tuple-Safe tenant t, create_from_tuples-Safe tenant ts)

    pub create_manual-Safe :
        (tenant : String) (input : CreatePoamInput) (user : String)
        → Safe env (Service.create_manual env tenant input user)
    unfolding ◌>>=◌ Service.create_manual Service.create read_clock random_uuid Repository.create
    create_manual-Safe tenant input user = record {
      at = λ w g.
          let p = manual_item tenant (env.now w.readings) (env.uuid w.uuids) input user in
          store_and_emit p p w g refl refl (λ is_auto. cc) (w.readings + 1);
    }
