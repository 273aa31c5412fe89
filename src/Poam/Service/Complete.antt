-- ===== src/Poam/Service/Complete.antt =====
-- `createFromTuples` as a whole: which items it leaves.
use ai_devsecops_command_cen.Common.{sym, ap, ◌∙◌}
use mathlib.Core.Path.{subst}
use ai_devsecops_command_cen.Common.{if◌then◌else◌, All}
use ai_devsecops_command_cen.Common.{ℕ, List}
use ai_devsecops_command_cen.Poam.Service.Emit.{emit_poam_created}
use ai_devsecops_command_cen.Common.{
  String, ◌≡◌, refl, ◌⊎◌, inl, inr, true, false, Option, none, some, [], ◌∷◌, arith, is_some,
}
use ai_devsecops_command_cen.Common.Dict.{Dict}
use ai_devsecops_command_cen.Poam.Types.{ControlVulnTuple}
use ai_devsecops_command_cen.Common.Dict
use ai_devsecops_command_cen.Poam.Types.{PoamItem, CreatePoamResult}
use ai_devsecops_command_cen.Poam.World.{
  Env, World, M, Result, ok, err, ◌>>=◌, pure, read_clock, random_uuid, continue, Error,
}
use ai_devsecops_command_cen.Poam.Items.{auto_item}
use ai_devsecops_command_cen.Poam.Repository
use ai_devsecops_command_cen.Poam.Repository.{Store, find_open_for_control_vuln, is_open_for}
use ai_devsecops_command_cen.Poam.Service
use ai_devsecops_command_cen.Poam.Service.Safe.{Good, bind-Quiet, pure-Quiet}
use ai_devsecops_command_cen.Poam.Service.Refines.{emit_poam_created-Quiet, create_from_tuple-Safe}
use ai_devsecops_command_cen.Poam.Service.Guarantees.{found_after}

-- The store has an open item of the tenant for a control and a vulnerability.
abbrev pub HasOpen : Store → String → String → String → Type 0
HasOpen items tenant control vuln =
    is_some (find_open_for_control_vuln items tenant control vuln) ≡ true

module _ (env : Env) (tenant : String) (t : ControlVulnTuple) where
  -- The items after `createFromTuple`: as before, or with one new item.
  create_unless-items :
      (found : Option PoamItem) (w : World)
      → let after = (Service.create_unless env tenant t found w).1.items in
        (after ≡ w.items) ⊎ ((p : PoamItem) × (after ≡ Dict.set w.items (env.uuid w.uuids) p))
  unfolding ◌>>=◌ Service.create_unless Service.build_auto Service.create read_clock random_uuid
      Repository.create
  create_unless-items (some q) w = inl refl
  create_unless-items none w =
      let p = auto_item tenant (env.now w.readings) (env.uuid w.uuids) t in
      let result : CreatePoamResult = record { poam = p; deduplicated = false } in
      let quiet =
        bind-Quiet (emit_poam_created env p) (λ _. pure result) (emit_poam_created-Quiet env p)
          (λ _. pure-Quiet result) in
      inr (p, quiet.items_kept _)

  create_from_tuple-HasOpen :
      (w : World)
      → HasOpen (Service.create_from_tuple env tenant t w).1.items tenant t.control_id t.vuln_id
  unfolding ◌>>=◌ Service.create_from_tuple
  create_from_tuple-HasOpen w =
      let (q, found, fits) = found_after env tenant t w _ refl in rw found refl

  create_from_tuple-keeps :
      (w : World) (control vuln : String)
      → Good env w
      → HasOpen w.items tenant control vuln
      → HasOpen (Service.create_from_tuple env tenant t w).1.items tenant control vuln
  unfolding ◌>>=◌ Service.create_from_tuple find_open_for_control_vuln
  create_from_tuple-keeps w control vuln g h =
      let found = find_open_for_control_vuln w.items tenant t.control_id t.vuln_id in
      elim (create_unless-items found w) [
        | inl same ↦ rw same h
        | inr (p, new) ↦ rw new (
            Dict.find-set_new (is_open_for tenant control vuln) w.items (env.uuid w.uuids) p
              (g.fresh w.uuids (omega arith)) h)
      ]

-- What follows an action without effect of its own leaves the world that the action left.
continue-pure-items :
    {A B : Type 0} (f : A → B) (r : Result A) (w : World) → (continue r (λ a. pure (f a)) w).1 ≡ w
unfolding pure
continue-pure-items f (ok a) w = refl
continue-pure-items f (err e) w = refl

continue-pure-ok :
    {A B : Type 0} (f : A → B) (r : Result A) (w : World) (b : B)
    → (continue r (λ a. pure (f a)) w).0 ≡ ok b
    → (a : A) × (r ≡ ok a)
unfolding pure
continue-pure-ok f (ok a) w b h = (a, refl)
continue-pure-ok f (err e) w b h = cc

Result-cases : {A : Type 0} (r : Result A) → ((a : A) × (r ≡ ok a)) ⊎ ((e : Error) × (r ≡ err e))
Result-cases (ok a) = inl (a, refl)
Result-cases (err e) = inr (e, refl)

module _ (env : Env) (distinct : (i j : ℕ) → env.uuid i ≡ env.uuid j → i ≡ j)
    (tenant : String) where
  -- The rest of the loop, after the result of the first tuple.
  abbrev rest_of : List ControlVulnTuple → CreatePoamResult → M (List PoamItem)
  rest_of ts result = Service.create_from_tuples env tenant ts >>= λ created.
      pure (if result.deduplicated then created else result.poam ∷ created)

  Keeps : World → World → Type 0
  Keeps w v =
      (control vuln : String)
      → HasOpen w.items tenant control vuln
      → HasOpen v.items tenant control vuln

  continue-Keeps :
      (ts : List ControlVulnTuple) (r : Result CreatePoamResult) (w v : World)
      → Keeps w v
      → Keeps w (Service.create_from_tuples env tenant ts v).1
      → Keeps w (continue r (rest_of ts) v).1
  unfolding ◌>>=◌ Keeps
  continue-Keeps ts (err e) w v h k control vuln there = h control vuln there
  continue-Keeps ts (ok a) w v h k control vuln there =
      subst (λ u. HasOpen u.items tenant control vuln)
        (sym (
          continue-pure-items (λ created. if a.deduplicated then created else a.poam ∷ created)
            (Service.create_from_tuples env tenant ts v).0
            (Service.create_from_tuples env tenant ts v).1))
        (k control vuln there)

  create_from_tuples-Keeps :
      (ts : List ControlVulnTuple) (w : World)
      → Good env w
      → Keeps w (Service.create_from_tuples env tenant ts w).1
  unfolding ◌>>=◌ Service.create_from_tuples pure Keeps
  create_from_tuples-Keeps [] w g control vuln h = h
  create_from_tuples-Keeps (t ∷ ts) w g control vuln there =
      let (r, v) = Service.create_from_tuple env tenant t w in
      let first : Keeps w v = λ c u h. create_from_tuple-keeps env tenant t w c u g h in
      let good = ((create_from_tuple-Safe env distinct tenant t).at w g).1 in
      continue-Keeps ts r w v first (λ c u h. create_from_tuples-Keeps ts v good c u (first c u h))
        control vuln there

  -- The world after the loop is the one after its rest, where the first tuple did not throw.
  after_first :
      (ts : List ControlVulnTuple) (r : Result CreatePoamResult) (v : World) (a : CreatePoamResult)
      → r ≡ ok a
      → (continue r (rest_of ts) v).1 ≡ (Service.create_from_tuples env tenant ts v).1
  unfolding ◌>>=◌
  after_first ts r v a returned = rw returned (
      continue-pure-items _ (Service.create_from_tuples env tenant ts v).0
        (Service.create_from_tuples env tenant ts v).1)

  rest_returned :
      (ts : List ControlVulnTuple) (r : Result CreatePoamResult) (v : World) (a : CreatePoamResult)
      (out : List PoamItem)
      → r ≡ ok a
      → (continue r (rest_of ts) v).0 ≡ ok out
      → (b : List PoamItem) × ((Service.create_from_tuples env tenant ts v).0 ≡ ok b)
  unfolding ◌>>=◌
  rest_returned ts r v a out returned e =
      continue-pure-ok _ (Service.create_from_tuples env tenant ts v).0
        (Service.create_from_tuples env tenant ts v).1 out
        (ap (λ q. (continue q (rest_of ts) v).0) (sym returned) ∙ e)

  -- Where `createFromTuples` returns, there is an open item for each of its tuples.
  pub create_from_tuples-HasOpen :
      (ts : List ControlVulnTuple) (w : World) (out : List PoamItem)
      → Good env w
      → (Service.create_from_tuples env tenant ts w).0 ≡ ok out
      → All
          (λ t.
            HasOpen
              (Service.create_from_tuples env tenant ts w).1.items
              tenant
              t.control_id
              t.vuln_id)
          ts
  unfolding ◌>>=◌ Service.create_from_tuples Keeps
  create_from_tuples-HasOpen [] w out g e = tt
  create_from_tuples-HasOpen (t ∷ ts) w out g e =
      let (r, v) = Service.create_from_tuple env tenant t w in
      let good = ((create_from_tuple-Safe env distinct tenant t).at w g).1 in
      elim (Result-cases r) [
        | inl (a, returned) ↦
            let (b, more) = rest_returned ts r v a out returned e in
            subst (λ u. All (λ x. HasOpen u.items tenant x.control_id x.vuln_id) (t ∷ ts))
              (sym (after_first ts r v a returned))
              (
                create_from_tuples-Keeps ts v good t.control_id t.vuln_id
                    (create_from_tuple-HasOpen env tenant t w),
                create_from_tuples-HasOpen ts v b good more,
              )
        | inr (x, threw) ↦ absurd (failed threw)
      ]
    where
      failed : {x : Error} → (Service.create_from_tuple env tenant t w).0 ≡ err x → ⊥
      failed threw =
          let wrong : err _ ≡ ok out =
            ap (λ q. (continue q (rest_of ts) (Service.create_from_tuple env tenant t w).1).0)
              (sym threw)
            ∙ e in
          cc
