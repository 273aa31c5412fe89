-- ===== src/Poam/Lifecycle/Keeps.antt =====
-- The steps of the lifecycle against the invariant, and against a closed item.
use ai_devsecops_command_cen.Common.{
  String, ◌≡◌, refl, sym, ◌∙◌, ap, ◌≢◌, true, false, some, ◌⊎◌, inl, inr, arith, ◌==◌, eq_iff,
  Bool-cases,
}
use ai_devsecops_command_cen.Common.Dict
use ai_devsecops_command_cen.Poam.Types.{PoamItem, PoamStatus, opened, closed, is_settled}
use ai_devsecops_command_cen.Poam.Repository.{Store, is_open_for, find_open_for_control_vuln}
use ai_devsecops_command_cen.Poam.Items.{is_valid_transition}
use ai_devsecops_command_cen.Poam.Lifecycle.{
  SameSubject, IsDocumented, IsNew, IsRival, Inv, Step, create, move, Steps, here, next, not-find,
}

-- A read after a write: the written item, or an old one under another id.
get_of_set :
    (s : Store) (k i : String) (p q : PoamItem)
    → Dict.get (Dict.set s k p) i ≡ some q
    → ((k ≡ i) × (p ≡ q)) ⊎ ((k ≢ i) × (Dict.get s i ≡ some q))
get_of_set s k i p q e = elim (Bool-cases (k == i)) [
  | inl same ↦ inl ((eq_iff k i).0 same, ground (arith, Dict.get-set s k i p))
  | inr other ↦ inr (ground (arith, eq_iff k i), ground (arith, Dict.get-set s k i p))
]

IsRival-sym : {p q : PoamItem} → IsRival p q → IsRival q p
IsRival-sym r = record {
  p_auto = r.q_auto;
  q_auto = r.p_auto;
  p_open = r.q_open;
  q_open = r.p_open;
  tenants = sym r.tenants;
  controls = sym r.controls;
  vulns = sym r.vulns;
}

IsRival-found :
    {p q : PoamItem} (v : String)
    → IsRival p q
    → p.vuln_id ≡ some v
    → is_open_for p.tenant_id p.control_id v q ≡ true
IsRival-found {p} {q} v r e = rw (
  (eq_iff q.tenant_id p.tenant_id).1 (sym r.tenants),
  (eq_iff q.control_id p.control_id).1 (sym r.controls),
  sym r.vulns ∙ e,
  (eq_iff v v).1 refl,
  r.q_open,
)

-- A new automatic item has no rival.
IsNew-unrivalled :
    (s : Store) (p q : PoamItem) (j : String) → IsNew s p → Dict.get s j ≡ some q → IsRival p q → ⊥
unfolding find_open_for_control_vuln
IsNew-unrivalled s p q j new g r =
    let (v, has, missing) = new r.p_auto in
    let unfit = not-find (is_open_for p.tenant_id p.control_id v) s j q missing g in
    cc (IsRival-found v r has)

module _ {s : Store} (h : Inv s) where
  create-Inv : (p : PoamItem) → p.status ≡ opened → IsNew s p → Inv (Dict.set s p.poam_id p)
  create-Inv p fresh new = record {
    is_map = Dict.set-IsMap s p.poam_id p h.is_map;
    keyed = λ i q g. elim (get_of_set s p.poam_id i p q g) [
      | inl (e, same) ↦ cc
      | inr (ne, old) ↦ h.keyed i q old
    ];
    documented = λ i q g. elim (get_of_set s p.poam_id i p q g) [
      | inl (e, same) ↦ rw (← same) (record {
        has_evidence = λ c. cc;
        has_closer = λ c. cc;
        has_time = λ c. cc;
        has_acceptance = λ c. cc;
      })
      | inr (ne, old) ↦ h.documented i q old
    ];
    unrivalled = λ i j a b ga gb r. elim (get_of_set s p.poam_id i p a ga) [
      | inl (e, same) ↦ elim (get_of_set s p.poam_id j p b gb) [
        | inl (f, _) ↦ sym e ∙ f
        | inr (_, old) ↦ absurd (IsNew-unrivalled s p b j new old (rw (← same) at r))
      ]
      | inr (ne, old) ↦ elim (get_of_set s p.poam_id j p b gb) [
        | inl (f, same) ↦ absurd (IsNew-unrivalled s p a i new old (IsRival-sym (rw (← same) at r)))
        | inr (_, old') ↦ h.unrivalled i j a b old old' r
      ]
    ];
  }

  -- An open item that was moved was open before.
  was_open :
      (a b : PoamStatus)
      → is_valid_transition a b ≡ true
      → b ≢ opened
      → is_settled b ≡ false
      → is_settled a ≡ false
  was_open a b v n o = ground arith

  -- A moved item takes its rivals along.
  IsRival-back :
      {p q b : PoamItem}
      → SameSubject p q
      → is_valid_transition p.status q.status ≡ true
      → q.status ≢ opened
      → IsRival q b
      → IsRival p b
  IsRival-back {p} {q} same v n r = record {
    p_auto = sym same.same_source ∙ r.p_auto;
    q_auto = r.q_auto;
    p_open = was_open p.status q.status v n r.p_open;
    q_open = r.q_open;
    tenants = sym same.same_tenant ∙ r.tenants;
    controls = sym same.same_control ∙ r.controls;
    vulns = sym same.same_vuln ∙ r.vulns;
  }

  move-Inv :
      (p q : PoamItem)
      → Dict.get s p.poam_id ≡ some p
      → SameSubject p q
      → is_valid_transition p.status q.status ≡ true
      → q.status ≢ opened
      → IsDocumented q
      → Inv (Dict.set s p.poam_id q)
  move-Inv p q at same v n doc = record {
    is_map = Dict.set-IsMap s p.poam_id q h.is_map;
    keyed = λ i a g. elim (get_of_set s p.poam_id i q a g) [
      | inl (e, is_q) ↦ ap (λ x. x.poam_id) (sym is_q) ∙ same.same_id ∙ e
      | inr (_, old) ↦ h.keyed i a old
    ];
    documented = λ i a g. elim (get_of_set s p.poam_id i q a g) [
      | inl (_, is_q) ↦ rw (← is_q) doc
      | inr (_, old) ↦ h.documented i a old
    ];
    unrivalled = λ i j a b ga gb r. elim (get_of_set s p.poam_id i q a ga) [
      | inl (e, is_q) ↦ elim (get_of_set s p.poam_id j q b gb) [
        | inl (f, _) ↦ sym e ∙ f
        | inr (_, old) ↦
            sym e ∙ h.unrivalled p.poam_id j p b at old (IsRival-back same v n (rw (← is_q) at r))
      ]
      | inr (_, old) ↦ elim (get_of_set s p.poam_id j q b gb) [
        | inl (f, is_q) ↦
            sym (
              h.unrivalled p.poam_id i p a at old
                (IsRival-back same v n (IsRival-sym (rw (← is_q) at r))))
            ∙ f
        | inr (_, old') ↦ h.unrivalled i j a b old old' r
      ]
    ];
  }

-- Every step keeps the invariant.
pub Step-Inv : {s t : Store} → Inv s → Step s t → Inv t
Step-Inv h (create p free fresh new e) = rw e (create-Inv h p fresh new)
Step-Inv h (move p q at same v n doc e) = rw e (move-Inv h p q at same v n doc)

pub Steps-Inv : {s t : Store} → Inv s → Steps s t → Inv t
Steps-Inv h here = h
Steps-Inv h (next a st) = Step-Inv (Steps-Inv h a) st

-- From closed, only a reopening is in the table.
closed-moves : (b : PoamStatus) → is_valid_transition closed b ≡ true → b ≡ opened
closed-moves b v = ground arith

Step-keeps_closed :
    {s t : Store} (id : String) (p : PoamItem)
    → Step s t
    → Dict.get s id ≡ some p
    → p.status ≡ closed
    → Dict.get t id ≡ some p
Step-keeps_closed {s} id p (create q free _ _ e) g c =
    rw e (Dict.get-set_other s q.poam_id id q (λ same. cc) ∙ g)
Step-keeps_closed {s} id p (move q r at same v n doc e) g c = elim (Bool-cases (q.poam_id == id)) [
  | inl eq ↦
      let key = (eq_iff q.poam_id id).0 eq in
      let item : some p ≡ some q = cc in
      let is_closed : q.status ≡ closed = cc in
      absurd (n (closed-moves r.status (rw is_closed at v)))
  | inr ne ↦
      rw e (Dict.get-set_other s q.poam_id id r (λ same. ground (arith, eq_iff q.poam_id id)) ∙ g)
]

-- A closed item stays as it is.
pub Steps-keeps_closed :
    {s t : Store} (id : String) (p : PoamItem)
    → Steps s t
    → Dict.get s id ≡ some p
    → p.status ≡ closed
    → Dict.get t id ≡ some p
Steps-keeps_closed id p here g c = g
Steps-keeps_closed id p (next a st) g c =
    Step-keeps_closed id p st (Steps-keeps_closed id p a g c) c
