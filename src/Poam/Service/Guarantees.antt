-- ===== src/Poam/Service/Guarantees.antt =====
-- What the POA&M service guarantees over every sequence of calls.
use ai_devsecops_command_cen.Common.{
  ℕ, String, ◌≡◌, refl, Bool, true, false, Option, none, some, arith, inl, inr, Bool-cases, ◌==◌,
  eq_iff, List, [], ◌∷◌, find,
}
use ai_devsecops_command_cen.Common.Dict
use ai_devsecops_command_cen.Poam.Types.{
  PoamItem, ControlVulnTuple, CreatePoamResult, closed, is_settled,
}
use ai_devsecops_command_cen.Poam.World.{Env, World, init, ok, ◌>>=◌, pure, read_clock, random_uuid}
use ai_devsecops_command_cen.Poam.Items.{auto_item}
use ai_devsecops_command_cen.Poam.Repository
use ai_devsecops_command_cen.Poam.Repository.{Store, is_open_for}
use ai_devsecops_command_cen.Poam.Lifecycle.{Steps, IsDocumented, IsRival}
use ai_devsecops_command_cen.Poam.Lifecycle.Keeps.{Steps-keeps_closed}
use ai_devsecops_command_cen.Poam.Service
use ai_devsecops_command_cen.Poam.Service.Emit.{emit_poam_created}
use ai_devsecops_command_cen.Poam.Service.Safe.{Good, bind-Quiet, pure-Quiet}
use ai_devsecops_command_cen.Poam.Service.Refines.{emit_poam_created-Quiet}
use ai_devsecops_command_cen.Poam.Service.Marks.{Handled}
use ai_devsecops_command_cen.Poam.Service.Scan.{scan-Handled}
use ai_devsecops_command_cen.Poam.Service.Requests.{Request, run, run-Lands, init-Good}

module _ (env : Env) (distinct : (i j : ℕ) → env.uuid i ≡ env.uuid j → i ≡ j) where
  -- From any good world, every sequence of calls, thrown errors included, takes the store along the
  -- lifecycle: it creates open items under new ids and moves items by VALID_TRANSITIONS. It ends in
  -- a good world. The ids of `randomUUID` are assumed distinct.
  pub run-Steps :
      (rs : List Request) (w : World)
      → Good env w
      → Steps w.items (run env rs w).items × Good env (run env rs w)
  run-Steps rs w g = run-Lands env distinct rs w g

  -- After any calls on an empty service, two stored items that were created automatically, are open
  -- and agree on tenant, control and vulnerability are one item. The ids of `randomUUID` are assumed
  -- distinct.
  pub run_unrivalled :
      (rs : List Request) (i j : String) (p q : PoamItem)
      → Dict.get (run env rs init).items i ≡ some p
      → Dict.get (run env rs init).items j ≡ some q
      → IsRival p q
      → i ≡ j
  run_unrivalled rs = (run-Lands env distinct rs init (init-Good env)).1.inv.unrivalled

  -- After any calls on an empty service, every closed item has evidence, the user who closed it and
  -- the time, and every accepted risk has its acceptance. The ids of `randomUUID` are assumed
  -- distinct.
  pub run-IsDocumented :
      (rs : List Request) (id : String) (p : PoamItem)
      → Dict.get (run env rs init).items id ≡ some p
      → IsDocumented p
  run-IsDocumented rs = (run-Lands env distinct rs init (init-Good env)).1.inv.documented

  -- In a good world, an item that is closed is still there, with every field unchanged, after any
  -- calls. The ids of `randomUUID` are assumed distinct.
  pub run-keeps_closed :
      (rs : List Request) (w : World) (id : String) (p : PoamItem)
      → Good env w
      → Dict.get w.items id ≡ some p
      → p.status ≡ closed
      → Dict.get (run env rs w).items id ≡ some p
  run-keeps_closed rs w id p g at c = Steps-keeps_closed id p (run-Lands env distinct rs w g).0 at c

-- In a good world, where the overdue scan returns, each item that was neither closed nor
-- risk-accepted is afterwards settled, overdue, or due later than the scan's clock reading.
pub scan_for_overdue_complete :
    (env : Env) (w : World) (id : String) (p : PoamItem) (out : List PoamItem)
    → Good env w
    → Dict.get w.items id ≡ some p
    → is_settled p.status ≡ false
    → (Service.scan_for_overdue env w).0 ≡ ok out
    → Handled (env.now w.readings) (Service.scan_for_overdue env w).1.items id
scan_for_overdue_complete env w id p out g at live returned =
    scan-Handled env w g id p out at returned live

-- What is written is found again, by it or by an earlier fit.
find-set :
    (f : PoamItem → Bool) (s : Store) (id : String) (p : PoamItem)
    → f p ≡ true
    → (q : PoamItem) × (find f (Dict.values (Dict.set s id p)) ≡ some q) × (f q ≡ true)
unfolding Dict.values Dict.set
find-set f [] id p h = (p, rw h refl, h)
find-set f ((k, r) ∷ s) id p h = elim (Bool-cases (k == id)) [
  | inl here ↦ (p, ground arith, h)
  | inr there ↦ elim (Bool-cases (f r)) [
    | inl fits ↦ (r, ground arith, fits)
    | inr unfit ↦ let (q, found, g) = find-set f s id p h in (q, ground arith, g)
  ]
]

find_fits :
    (f : PoamItem → Bool) (xs : List PoamItem) (q : PoamItem) → find f xs ≡ some q → f q ≡ true
find_fits f [] q e = cc
find_fits f (x ∷ xs) q e = elim (Bool-cases (f x)) [
  | inl fits ↦ let same : x ≡ q = ground arith in rw (← same) fits
  | inr unfit ↦ find_fits f xs q (ground arith)
]

module _ (env : Env) (tenant : String) (t : ControlVulnTuple) where
  pub found_after :
      (w : World) (found : Option PoamItem)
      → Repository.find_open_for_control_vuln w.items tenant t.control_id t.vuln_id ≡ found
      → (q : PoamItem) × (Repository.find_open_for_control_vuln
            (Service.create_unless env tenant t found w).1.items
            tenant
            t.control_id
            t.vuln_id
          ≡ some q)
        × (is_open_for tenant t.control_id t.vuln_id q ≡ true)
  unfolding ◌>>=◌ Service.create_unless Service.build_auto Service.create read_clock random_uuid
      Repository.create Repository.find_open_for_control_vuln
  found_after w (some q) e = (q, e, find_fits (is_open_for tenant t.control_id t.vuln_id) _ q e)
  found_after w none e =
      let p = auto_item tenant (env.now w.readings) (env.uuid w.uuids) t in
      let result : CreatePoamResult = record { poam = p; deduplicated = false } in
      let quiet =
        bind-Quiet (emit_poam_created env p) (λ _. pure result) (emit_poam_created-Quiet env p)
          (λ _. pure-Quiet result) in
      rw (quiet.items_kept _) (
        find-set (is_open_for tenant t.control_id t.vuln_id) w.items p.poam_id p (
          rw
            (
              (eq_iff tenant tenant).1 refl,
              (eq_iff t.control_id t.control_id).1 refl,
              (eq_iff t.vuln_id t.vuln_id).1 refl,
            )
            refl))

  -- After one call of `createFromTuple`, whether or not the bus took the event, a second call with
  -- the same arguments returns an open item of that tenant, control and vulnerability as a
  -- duplicate, and changes nothing.
  pub create_from_tuple_twice :
      (w : World)
      → let v = (Service.create_from_tuple env tenant t w).1 in
        (q : PoamItem) × (Service.create_from_tuple env tenant t v
          ≡ (ok (record { poam = q; deduplicated = true }), v))
        × (is_open_for tenant t.control_id t.vuln_id q ≡ true)
  unfolding ◌>>=◌ Service.create_from_tuple Service.create_unless
  create_from_tuple_twice w =
      let (q, found, fits) = found_after w _ refl in
      (q, rw (found, Service.create_unless) refl, fits)
