-- ===== src/Poam/Service/Moves.antt =====
-- The transitions of the service against the lifecycle.
use ai_devsecops_command_cen.Common.{
  String, ◌≡◌, ◌≢◌, refl, sym, ◌∙◌, ap, true, Option, none, some, arith, inl, inr, Option-cases,
  Bool-cases, eq_iff, List, [], ◌∷◌,
}
use ai_devsecops_command_cen.Common.Dict
use ai_devsecops_command_cen.Poam.Types.{
  PoamItem, PoamStatus, opened, in_progress, awaiting_evidence, closed, risk_accepted,
}
use ai_devsecops_command_cen.Poam.Items.{is_valid_transition}
use ai_devsecops_command_cen.Poam.World.{Env, World, ok, M, ◌>>=◌, read_clock}
use ai_devsecops_command_cen.Poam.Repository
use ai_devsecops_command_cen.Poam.Repository.{Store}
use ai_devsecops_command_cen.Poam.Lifecycle.{Step, move, here, next, IsDocumented}
use ai_devsecops_command_cen.Poam.Lifecycle.Keeps.{Step-Inv}
use ai_devsecops_command_cen.Poam.Service
use ai_devsecops_command_cen.Poam.Service.Safe.{
  Good, Lands, Safe, Quiet-Safe, pure-Safe, bind-Safe, bind-Lands, read_clock-Quiet, throw-Safe,
}
use ai_devsecops_command_cen.Poam.Service.Refines.{report-Quiet}

-- The item that `update` stores.
abbrev pub stamped : (PoamItem → PoamItem) → PoamItem → PoamItem
stamped patch p = record (patch p) { poam_id = p.poam_id; tenant_id = p.tenant_id }

pub get_by_id-get :
    (s : Store) (tenant id : String) (p : PoamItem)
    → Repository.get_by_id s tenant id ≡ some p
    → (Dict.get s id ≡ some p) × (p.tenant_id ≡ tenant)
unfolding Repository.get_by_id
get_by_id-get s tenant id p e = elim (Option-cases (Dict.get s id)) [
  | inl missing ↦ absurd (cc (rw (missing, Repository.get_by_id) at e))
  | inr (q, found) ↦ ground (arith, eq_iff q.tenant_id tenant)
]

pub update_lem :
    (tenant id : String) (patch : PoamItem → PoamItem) (w : World) (p : PoamItem)
    → Repository.get_by_id w.items tenant id ≡ some p
    → Service.update tenant id patch w
      ≡ (ok (stamped patch p), record w { items = Dict.set w.items id (stamped patch p) })
unfolding ◌>>=◌ Service.update Service.updated Repository.update
update_lem tenant id patch w p e = rw (e, Repository.update)

-- A patch that may come with a status: what it leaves alone, and what it brings.
pub record IsPatch (next : PoamStatus) (patch : PoamItem → PoamItem) : Type 0 where
  pub sets_status : (p : PoamItem) → (patch p).status ≡ next
  pub control : (p : PoamItem) → (patch p).control_id ≡ p.control_id
  pub vuln : (p : PoamItem) → (patch p).vuln_id ≡ p.vuln_id
  pub source : (p : PoamItem) → (patch p).source ≡ p.source
  pub due : (p : PoamItem) → (patch p).due_at ≡ p.due_at
  pub documented : (p : PoamItem) → IsDocumented (stamped patch p)

module _ (env : Env) where
  stored :
      (tenant id : String) (to : PoamStatus) (patch : PoamItem → PoamItem) (w : World)
      (p : PoamItem)
      → IsPatch to patch
      → to ≢ opened
      → Repository.get_by_id w.items tenant id ≡ some p
      → is_valid_transition p.status to ≡ true
      → Good env w
      → Lands env w (record w { items = Dict.set w.items id (stamped patch p) })
  stored tenant id to patch w p h n found valid g =
      let (at_id, _) = get_by_id-get w.items tenant id p found in
      let same_key = g.inv.keyed id p at_id in
      let st : Step w.items (Dict.set w.items id (stamped patch p)) =
        move p (stamped patch p) (ap (Dict.get w.items) same_key ∙ at_id)
          (record {
            same_id = refl;
            same_tenant = refl;
            same_control = h.control p;
            same_vuln = h.vuln p;
            same_source = h.source p;
            same_due = h.due p;
          })
          (rw (h.sets_status p) valid) (λ e. n (sym (h.sets_status p) ∙ e)) (h.documented p)
          (ap (λ k. Dict.set w.items k (stamped patch p)) (sym same_key)) in
      (
        next here st,
        record {
          inv = Step-Inv g.inv st;
          fresh = λ k le.
              Dict.get-set_other w.items id (env.uuid k) (stamped patch p)
                (λ same. cc (g.fresh k le))
              ∙ g.fresh k le;
        },
      )

  -- An update along the table, and a quiet action after it.
  update_then :
      {A : Type 0} (tenant id : String) (to : PoamStatus) (patch : PoamItem → PoamItem) (w : World)
      (p : PoamItem) (k : PoamItem → M A)
      → IsPatch to patch
      → to ≢ opened
      → Repository.get_by_id w.items tenant id ≡ some p
      → is_valid_transition p.status to ≡ true
      → ((q : PoamItem) → Safe env (k q))
      → Good env w
      → Lands env w ((Service.update tenant id patch >>= k) w).1
  update_then tenant id to patch w p k h n found valid rest g =
      bind-Lands env (Service.update tenant id patch) k w
        (rw (update_lem tenant id patch w p found)
          (stored tenant id to patch w p h n found valid g))
        rest

  move-Safe :
      (tenant id : String) (to : PoamStatus) (user : String) (extra : PoamItem → PoamItem)
      (w : World) (found : Option PoamItem)
      → IsPatch to (λ p. record (extra p) { status = to })
      → to ≢ opened
      → Repository.get_by_id w.items tenant id ≡ found
      → Good env w
      → Lands env w (Service.move env tenant id to user extra found w).1
  unfolding Service.move
  move-Safe tenant id to user extra w none h n e g = (throw-Safe env _).at w g
  move-Safe tenant id to user extra w (some p) h n e g =
      elim (Bool-cases (is_valid_transition p.status to)) [
        | inl valid ↦ rw valid (
            update_then tenant id to (λ q. record (extra q) { status = to }) w p _ h n e valid
              (λ q.
                bind-Safe env _ _ (Quiet-Safe env _ (report-Quiet env tenant id p.status to user q))
                  (λ _. pure-Safe env q))
              g)
        | inr refused ↦ rw refused ((throw-Safe env _).at w g)
      ]

  pub transition-Safe :
      (tenant id : String) (to : PoamStatus) (user : String) (extra : PoamItem → PoamItem)
      → IsPatch to (λ p. record (extra p) { status = to })
      → to ≢ opened
      → Safe env (Service.transition env tenant id to user extra)
  unfolding ◌>>=◌ Service.transition
  transition-Safe tenant id to user extra h n = record {
    at = λ w g.
        move-Safe tenant id to user extra w (Repository.get_by_id w.items tenant id) h n refl g;
  }

  clock-Safe : Safe env (read_clock env)
  clock-Safe = Quiet-Safe env _ (read_clock-Quiet env)

  pub start_progress-Safe :
      (tenant id user : String) → Safe env (Service.start_progress env tenant id user)
  unfolding Service.start_progress
  start_progress-Safe tenant id user =
      transition-Safe tenant id in_progress user (λ p. p) (ground arith) (λ e. cc)

  pub mark_awaiting_evidence-Safe :
      (tenant id user : String) → Safe env (Service.mark_awaiting_evidence env tenant id user)
  unfolding Service.mark_awaiting_evidence
  mark_awaiting_evidence-Safe tenant id user =
      transition-Safe tenant id awaiting_evidence user (λ p. p) (ground arith) (λ e. cc)

  pub close-Safe :
      (tenant id user notes : String) (refs : List String)
      → Safe env (Service.close env tenant id user notes refs)
  unfolding Service.close
  close-Safe tenant id user notes [] = throw-Safe env _
  close-Safe tenant id user notes (ref ∷ refs) =
      bind-Safe env _ _ clock-Safe
        λ now. transition-Safe tenant id closed user _ (ground arith) (λ e. cc)

  pub accept_risk-Safe :
      (tenant id user justification expires : String) (control : Option String)
      → Safe env (Service.accept_risk env tenant id user justification expires control)
  unfolding Service.accept_risk
  accept_risk-Safe tenant id user justification expires control =
      bind-Safe env _ _ clock-Safe
        λ now. transition-Safe tenant id risk_accepted user _ (ground arith) (λ e. cc)
