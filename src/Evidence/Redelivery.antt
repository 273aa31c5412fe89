-- ===== src/Evidence/Redelivery.antt =====
-- The same infrastructure finding, delivered again.
use ai_devsecops_command_cen.Common.{false}
use ai_devsecops_command_cen.Common.{sym, Option, some, List, [], ◌∷◌, arith, All}
use ai_devsecops_command_cen.Evidence.Attach.{
  attach_control, attach_unless, finding_description, scan_ref_of, attach_controls,
}
use ai_devsecops_command_cen.Evidence.Attacher.{InfrastructureFinding, emit_evidence_attached}
use ai_devsecops_command_cen.Common.{
  ℕ, ◌+◌, ◌≤◌, String, ◌≡◌, refl, ap, ◌∙◌, inl, inr, true, none, ◌==◌, eq_iff, Option-cases,
  is_some,
}
use ai_devsecops_command_cen.Common.Dict
use ai_devsecops_command_cen.Common.Dict.{Dict}
use ai_devsecops_command_cen.Evidence.World.{
  ◌>>=◌, EvidenceRecord, Outside, return, AttacherWorld, find_by_ref, proceed, create_evidence,
  has_ref, log, Act,
}
use ai_devsecops_command_cen.Poam.World.{Result, ok, err}
use ai_devsecops_command_cen.Evidence.Keeps.{emit_evidence_attached-KeepsRecords, bind_ok}
use mathlib.Core.Path.{subst}

-- The ids that are still to be drawn stand for no record.
abbrev pub IsFresh : Outside → AttacherWorld → Type 0
IsFresh o s = (n : ℕ) → s.ids ≤ n → Dict.get s.records (o.new_id n) ≡ none

-- Some record of the tenant has the reference, for a control.
abbrev pub HasRef : Dict EvidenceRecord → String → String → String → Type 0
HasRef records tenant ref control = is_some (find_by_ref records tenant control ref) ≡ true

proceed_state :
    {A B : Type 0} (r : Result A) (b : B) (s : AttacherWorld) → (proceed r (λ _. return b) s).1 ≡ s
unfolding return
proceed_state (ok a) b s = refl
proceed_state (err e) b s = refl

has_own : (a : String) → (a == a) ≡ true
has_own a = (eq_iff a a).1 refl

pub own_ref :
    (o : Outside) (tenant ref : String) (s : AttacherWorld) (e : EvidenceRecord) (control : String)
    → has_ref tenant control ref e ≡ true
    → HasRef (Dict.set s.records (o.new_id s.ids) e) tenant ref control
unfolding find_by_ref
own_ref o tenant ref s e control fits =
    Dict.find-set_own (has_ref tenant control ref) s.records (o.new_id s.ids) e fits

kept_ref :
    (o : Outside) (tenant ref : String) (s : AttacherWorld) (e : EvidenceRecord) (control : String)
    → Dict.get s.records (o.new_id s.ids) ≡ none
    → HasRef s.records tenant ref control
    → HasRef (Dict.set s.records (o.new_id s.ids) e) tenant ref control
unfolding find_by_ref
kept_ref o tenant ref s e control free h =
    Dict.find-set_new (has_ref tenant control ref) s.records (o.new_id s.ids) e free h

module _ (o : Outside) (collected_by : String) (f : InfrastructureFinding) (ref hash : String) where
  -- A control without a record gets one under a new id, whatever the bus does.
  pub attach_unless-records :
      (control : String) (s : AttacherWorld)
      → (e : EvidenceRecord) × ((attach_unless o collected_by f ref hash control none s).1.records
          ≡ Dict.set s.records (o.new_id s.ids) e)
        × ((attach_unless o collected_by f ref hash control none s).1.ids ≡ s.ids + 1)
        × (has_ref f.tenant_id control ref e ≡ true)
  unfolding attach_unless ◌>>=◌ create_evidence
  attach_unless-records control s =
      let e : EvidenceRecord = record {
        id = o.new_id s.ids;
        tenant_id = f.tenant_id;
        control_id = control;
        kind = log;
        description = finding_description f hash;
        ref = ref;
        collected_by = collected_by;
        collected_at = o.date s.dates;
      } in
      let stored : AttacherWorld = record s {
        records = Dict.set s.records e.id e;
        ids = s.ids + 1;
        dates = s.dates + 1;
      } in
      let emit = emit_evidence_attached o e (scan_ref_of f) in
      let kept = emit_evidence_attached-KeepsRecords o e (scan_ref_of f) in
      let state = proceed_state (emit stored).0 e.id (emit stored).1 in
      (
        e,
        ap (λ t. t.records) state ∙ kept.records_kept stored,
        ap (λ t. t.ids) state ∙ kept.ids_kept stored,
        rw (has_own f.tenant_id, has_own control, has_own ref) refl,
      )

  module _ (distinct : (i j : ℕ) → o.new_id i ≡ o.new_id j → i ≡ j) where
    -- What an attached control leaves: its own record, the others, and ids that are still fresh.
    Leaves : String → AttacherWorld → AttacherWorld → Type 0
    Leaves control s t =
        HasRef t.records f.tenant_id ref control
        × IsFresh o t
        × ((c : String) → HasRef s.records f.tenant_id ref c → HasRef t.records f.tenant_id ref c)

    attach_unless-Leaves :
        (control : String) (s : AttacherWorld) (found : Option EvidenceRecord)
        → IsFresh o s
        → find_by_ref s.records f.tenant_id control ref ≡ found
        → Leaves control s (attach_unless o collected_by f ref hash control found s).1
    unfolding Leaves attach_unless return
    attach_unless-Leaves control s (some e) fresh h = (ap is_some h, fresh, λ c k. k)
    attach_unless-Leaves control s none fresh h =
        let t = (attach_unless o collected_by f ref hash control none s).1 in
        let (e, records, ids, fits) = attach_unless-records control s in
        let here : HasRef (Dict.set s.records (o.new_id s.ids) e) f.tenant_id ref control =
          own_ref o f.tenant_id ref s e control fits in
        (
          subst (λ m. HasRef m f.tenant_id ref control) (sym records) here,
          λ n le.
              subst (λ m. Dict.get m (o.new_id n) ≡ none) (sym records)
                (Dict.get-set_other s.records (o.new_id s.ids) (o.new_id n) e
                    (λ same. let eq = distinct s.ids n same in absurd (omega (arith, eq, ids, le)))
                  ∙ fresh n (omega (arith, ids, le))),
          λ c k.
              subst (λ m. HasRef m f.tenant_id ref c) (sym records)
                (kept_ref o f.tenant_id ref s e c (fresh s.ids (omega arith)) k),
        )

    attach_control-Leaves :
        (control : String) (s : AttacherWorld)
        → IsFresh o s
        → Leaves control s (attach_control o collected_by f ref hash control s).1
    unfolding attach_control
    attach_control-Leaves control s fresh = attach_unless-Leaves control s _ fresh refl

    -- Where the loop returns, every control has its record.
    pub attach_controls-HasRef :
        (cs : List String) (s : AttacherWorld) (out : List String)
        → IsFresh o s
        → (attach_controls o collected_by f ref hash cs s).0 ≡ ok out
        → let t = (attach_controls o collected_by f ref hash cs s).1 in
          All (HasRef t.records f.tenant_id ref) cs
          × ((c : String) → HasRef s.records f.tenant_id ref c → HasRef t.records f.tenant_id ref c)
    unfolding attach_controls Leaves return
    attach_controls-HasRef [] s out fresh h = (tt, λ c k. k)
    attach_controls-HasRef (c ∷ cs) s out fresh h =
        let m = attach_control o collected_by f ref hash c in
        let rest : String → Act (List String) =
          λ id. attach_controls o collected_by f ref hash cs >>= λ ids. return (id ∷ ids) in
        let (id, _, h1, same) = bind_ok m rest s out h in
        let t = (m s).1 in
        let (ids, returned, _, same') =
          bind_ok (attach_controls o collected_by f ref hash cs) (λ ids. return (id ∷ ids)) t out
            h1 in
        let (own, fresh', keeps) = attach_control-Leaves c s fresh in
        let (rests, keeps') = attach_controls-HasRef cs t _ fresh' returned in
        let state = ap (λ r. r.1.records) (same ∙ same') in
        (
          (
            subst (λ r. HasRef r f.tenant_id ref c) (sym state) (keeps' c own),
            subst (λ r. All (HasRef r f.tenant_id ref) cs) (sym state) rests,
          ),
          λ d k. subst (λ r. HasRef r f.tenant_id ref d) (sym state) (keeps' d (keeps d k)),
        )

  -- Where every control has its record, the loop changes nothing.
  pub attach_control_found :
      (control : String) (s : AttacherWorld)
      → HasRef s.records f.tenant_id ref control
      → (id : String) × (attach_control o collected_by f ref hash control s ≡ (ok id, s))
  unfolding attach_control attach_unless return
  attach_control_found control s h =
      elim (Option-cases (find_by_ref s.records f.tenant_id control ref)) [
        | inl e ↦ let impossible : false ≡ true = rw e at h in absurd (ground arith)
        | inr (e, found) ↦ rw (found, attach_unless) (e.id, refl)
      ]

  pub attach_controls_found :
      (cs : List String) (s : AttacherWorld)
      → All (HasRef s.records f.tenant_id ref) cs
      → (ids : List String) × (attach_controls o collected_by f ref hash cs s ≡ (ok ids, s))
  unfolding attach_controls ◌>>=◌ return
  attach_controls_found [] s h = ([], refl)
  attach_controls_found (c ∷ cs) s (h, hs) =
      let (id, e) = attach_control_found c s h in
      let (ids, e') = attach_controls_found cs s hs in rw (e, proceed, e', proceed) (id ∷ ids, refl)
