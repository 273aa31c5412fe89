-- ===== src/Poam/Service/Scan.antt =====
-- What `scanForOverdue` marks.
use ai_devsecops_command_cen.Common.{
  ℕ, String, ◌≡◌, refl, ◌∙◌, ap, false, Option, some, arith, inl, inr, Bool-cases, eq_iff, List, [],
  ◌∷◌, ltb, All,
}
use ai_devsecops_command_cen.Common.Dict
use mathlib.Core.Path.{subst}
use ai_devsecops_command_cen.Common.Dict.{Dict}
use ai_devsecops_command_cen.Poam.Types.{PoamItem, overdue, status_eq, is_settled}
use ai_devsecops_command_cen.Poam.World.{
  Env, World, Result, ok, err, M, continue, ◌>>=◌, ◌>>◌, pure, read_clock,
}
use ai_devsecops_command_cen.Poam.Repository
use ai_devsecops_command_cen.Poam.Repository.{Store}
use ai_devsecops_command_cen.Poam.Lifecycle.{Inv}
use ai_devsecops_command_cen.Poam.Service
use ai_devsecops_command_cen.Poam.Service.Emit.{emit_poam_overdue}
use ai_devsecops_command_cen.Poam.Service.Safe.{Good, Lands, Quiet, bind-Quiet, pure-Quiet}
use ai_devsecops_command_cen.Poam.Service.Refines.{emit_poam_overdue-Quiet}
use ai_devsecops_command_cen.Poam.Service.Moves.{update_lem}
use ai_devsecops_command_cen.Poam.Service.Marks.{
  as_overdue, marked, Marks, done, more, Marks-trans, IsLive, Marks-IsLive, Handled, Marks-Handled,
  Marks-Steps, Marks-none,
}
use ai_devsecops_command_cen.Poam.Repository.Groups.{
  InGroups, group_from-InGroups, group_from-covers, values-get, get-values,
}
use ai_devsecops_command_cen.Poam.Lifecycle.Keeps.{Steps-Inv}

-- From `w` to `v` items were marked, and no id was drawn.
pub record Scans (w v : World) : Type 0 where
  pub marks : Marks w.items v.items
  pub uuids : v.uuids ≡ w.uuids

Scans-trans : {w v u : World} → Scans w v → Scans v u → Scans w u
Scans-trans a b = record { marks = Marks-trans a.marks b.marks; uuids = b.uuids ∙ a.uuids }

get-get_by_id :
    (s : Store) (tenant id : String) (p : PoamItem)
    → Dict.get s id ≡ some p
    → p.tenant_id ≡ tenant
    → Repository.get_by_id s tenant id ≡ some p
unfolding Repository.get_by_id
get-get_by_id s tenant id p e o =
    rw (e, Repository.get_by_id) (ground (arith, eq_iff p.tenant_id tenant))

module _ (env : Env) (now : ℕ) (tenant : String) where
  announce : PoamItem → M (Option PoamItem)
  announce saved = emit_poam_overdue env saved >> pure (some saved)

  announce-Quiet : (saved : PoamItem) → Quiet (announce saved)
  unfolding announce
  announce-Quiet saved =
      bind-Quiet (emit_poam_overdue env saved) (λ _. pure (some saved))
        (emit_poam_overdue-Quiet env saved) (λ _. pure-Quiet (some saved))

  mark_now :
      (id : String) (w : World) (p : PoamItem)
      → Dict.get w.items id ≡ some p
      → p.tenant_id ≡ tenant
      → is_settled p.status ≡ false
      → let v = ((Service.update tenant id as_overdue >>= announce) w).1 in
        Scans w v × Handled now v.items id
  unfolding ◌>>=◌
  mark_now id w p at owner live =
      let v : World = record w { items = Dict.set w.items id (as_overdue p) } in
      let q = announce-Quiet (as_overdue p) in
      rw (update_lem tenant id as_overdue w p (get-get_by_id w.items tenant id p at owner)) (
        record { marks = more done (marked id p at live (q.items_kept v)); uuids = q.uuids_kept v },
        λ r found.
            let stored = Dict.get-set_self w.items id (as_overdue p) in
            let kept = q.items_kept v in
            let is_r : as_overdue p ≡ r = cc (ap (λ s. Dict.get s id) kept) in
            rw (← is_r) (ground arith),
      )

  -- One item: it is handled, whether or not the bus takes the event.
  scan_item-Scans :
      (item : PoamItem) (w : World)
      → IsLive w.items tenant item
      → Scans w (Service.scan_item env now tenant item w).1
        × Handled now (Service.scan_item env now tenant item w).1.items item.poam_id
  unfolding Service.scan_item pure announce
  scan_item-Scans item w (p, found, owner, live, due, late) =
      elim (Bool-cases (ltb now item.due_at)) [
        | inl early ↦ rw early (
          record { marks = done; uuids = refl },
          λ q at. let is_q : p ≡ q = cc in rw (← is_q, live, due, early) (ground arith),
        )
        | inr reached ↦ elim (Bool-cases (status_eq item.status overdue)) [
          | inl old ↦
              rw (reached, old)
                (
                  record { marks = done; uuids = refl },
                  λ q at. let is_q : p ≡ q = cc in rw (← is_q, late old) refl,
                )
          | inr fresh ↦ rw (reached, fresh) (mark_now item.poam_id w p found owner live)
        ]
      ]

  AllLive-Marks :
      {s t : Store} (items : List PoamItem)
      → Marks s t
      → All (IsLive s tenant) items
      → All (IsLive t tenant) items
  AllLive-Marks [] m h = tt
  AllLive-Marks (item ∷ rest) m (l, h) = (Marks-IsLive tenant item m l, AllLive-Marks rest m h)

  -- From `w` an action got to a result and a world, with the items handled if it returned.
  abbrev Sweeps : {A : Type 0} → World → List PoamItem → Result A × World → Type 0
  Sweeps {A} w items r =
      Scans w r.1 × ((a : A) → r.0 ≡ ok a → All (λ item. Handled now r.1.items item.poam_id) items)

  sweep_end :
      {A B : Type 0} (f : A → B) (w : World) (items : List PoamItem) (r : Result A) (v : World)
      → Sweeps w items (r, v)
      → Sweeps w items (continue r (λ a. pure (f a)) v)
  unfolding pure
  sweep_end f w items (ok a) v (m, h) = (m, λ b e. h a refl)
  sweep_end f w items (err x) v (m, h) = (m, λ b e. cc)

  sweep_next :
      {A B : Type 0} (f : A → M B) (w : World) (item : PoamItem) (rest : List PoamItem)
      (r : Result A) (v : World)
      → Scans w v
      → Handled now v.items item.poam_id
      → ((a : A) → Sweeps v rest (f a v))
      → Sweeps w (item ∷ rest) (continue r f v)
  sweep_next f w item rest (ok a) v m h k =
      let (m', h') = k a in
      (Scans-trans m m', λ b e. (Marks-Handled now item.poam_id m'.marks h, h' b e))
  sweep_next f w item rest (err x) v m h k = (m, λ b e. cc)

  pub scan_items-Sweeps :
      (items : List PoamItem) (w : World)
      → All (IsLive w.items tenant) items
      → Sweeps w items (Service.scan_items env now tenant items w)
  unfolding Service.scan_items ◌>>=◌
  scan_items-Sweeps [] w h = (record { marks = done; uuids = refl }, λ _ _. tt)
  scan_items-Sweeps (item ∷ rest) w (l, h) =
      let (m, handled) = scan_item-Scans item w l in
      let r = Service.scan_item env now tenant item w in
      sweep_next _ w item rest r.0 r.1 m handled λ a.
        let ih = scan_items-Sweeps rest r.1 (AllLive-Marks rest m.marks h) in
        sweep_end _ r.1 rest _ _ ih

module _ (env : Env) (now : ℕ) where
  groups-Marks :
      {s t : Store} (groups : Dict (List PoamItem))
      → Marks s t
      → InGroups (IsLive s) groups
      → InGroups (IsLive t) groups
  groups-Marks [] m h = tt
  groups-Marks ((tenant, items) ∷ rest) m (l, h) =
      (AllLive-Marks env now tenant items m l, groups-Marks rest m h)

  abbrev GroupsHandled : Store → Dict (List PoamItem) → Type 0
  GroupsHandled s groups = InGroups (λ _ item. Handled now s item.poam_id) groups

  Handled-Marks :
      {s t : Store} (items : List PoamItem)
      → Marks s t
      → All (λ item. Handled now s item.poam_id) items
      → All (λ item. Handled now t item.poam_id) items
  Handled-Marks [] m h = tt
  Handled-Marks (item ∷ rest) m (p, h) =
      (Marks-Handled now item.poam_id m p, Handled-Marks rest m h)

  abbrev Covers : {A : Type 0} → World → Dict (List PoamItem) → Result A × World → Type 0
  Covers {A} w groups r = Scans w r.1 × ((a : A) → r.0 ≡ ok a → GroupsHandled r.1.items groups)

  cover_end :
      {A B : Type 0} (f : A → B) (w : World) (groups : Dict (List PoamItem)) (r : Result A)
      (v : World)
      → Covers w groups (r, v)
      → Covers w groups (continue r (λ a. pure (f a)) v)
  unfolding pure
  cover_end f w groups (ok a) v (m, h) = (m, λ b e. h a refl)
  cover_end f w groups (err x) v (m, h) = (m, λ b e. cc)

  cover_next :
      {A B : Type 0} (f : A → M B) (w : World) (tenant : String) (items : List PoamItem)
      (rest : Dict (List PoamItem)) (r : Result A) (v : World)
      → Scans w v × ((a : A) → r ≡ ok a → All (λ item. Handled now v.items item.poam_id) items)
      → ((a : A) → Covers v rest (f a v))
      → Covers w ((tenant, items) ∷ rest) (continue r f v)
  cover_next f w tenant items rest (ok a) v (m, h) k =
      let (m', h') = k a in
      (Scans-trans m m', λ b e. (Handled-Marks items m'.marks (h a refl), h' b e))
  cover_next f w tenant items rest (err x) v (m, h) k = (m, λ b e. cc)

  scan_groups-Covers :
      (groups : Dict (List PoamItem)) (w : World)
      → InGroups (IsLive w.items) groups
      → Covers w groups (Service.scan_groups env now groups w)
  unfolding Service.scan_groups ◌>>=◌
  scan_groups-Covers [] w h = (record { marks = done; uuids = refl }, λ _ _. tt)
  scan_groups-Covers ((tenant, items) ∷ rest) w (l, h) =
      let here = scan_items-Sweeps env now tenant items w l in
      let r = Service.scan_items env now tenant items w in
      cover_next _ w tenant items rest r.0 r.1 here λ a.
        cover_end _ r.1 rest _ _ (scan_groups-Covers rest r.1 (groups-Marks rest here.0.marks h))

-- The snapshot of a store in order.
snapshot-IsLive :
    (s : Store) → Inv s → InGroups (IsLive s) (Repository.find_all_open_grouped_by_tenant s)
unfolding Repository.find_all_open_grouped_by_tenant
snapshot-IsLive s h = group_from-InGroups (IsLive s) [] (Dict.values s) tt (
    values-get s h.is_map _ λ id p at live.
      (p, ap (Dict.get s) (h.keyed id p at) ∙ at, refl, live, refl, λ late. ground arith))

module _ (env : Env) (w : World) (g : Good env w) where
  scan-Covers :
      Covers env
        (env.now w.readings)
        (read_clock env w).1
        (Repository.find_all_open_grouped_by_tenant w.items)
        (Service.scan_for_overdue env w)
  unfolding Service.scan_for_overdue ◌>>=◌ read_clock
  scan-Covers =
      scan_groups-Covers env (env.now w.readings) _ (read_clock env w).1
        (snapshot-IsLive w.items g.inv)

  -- The scan goes along the lifecycle.
  pub scan_for_overdue-Lands : Lands env w (Service.scan_for_overdue env w).1
  unfolding read_clock
  scan_for_overdue-Lands =
      let (m, _) = scan-Covers in
      let steps = Marks-Steps g.inv m.marks in
      (
        steps,
        record {
          inv = Steps-Inv g.inv steps;
          fresh = λ k le. Marks-none (env.uuid k) m.marks (g.fresh k (rw m.uuids at le));
        },
      )

  -- Where the scan returns, every item that was stored is handled.
  pub scan-Handled :
      (id : String) (p : PoamItem) (out : List PoamItem)
      → Dict.get w.items id ≡ some p
      → (Service.scan_for_overdue env w).0 ≡ ok out
      → is_settled p.status ≡ false
      → Handled (env.now w.readings) (Service.scan_for_overdue env w).1.items id
  unfolding Repository.find_all_open_grouped_by_tenant
  scan-Handled id p out at returned live =
      let (m, handled) = scan-Covers in
      let now = env.now w.readings in
      let (_, each) =
        group_from-covers
          (λ _ item. Handled now (Service.scan_for_overdue env w).1.items item.poam_id) []
          (Dict.values w.items) (handled out returned) in
      subst (λ k. Handled now (Service.scan_for_overdue env w).1.items k) (g.inv.keyed id p at)
        (get-values w.items _ each id p at live)
