-- ===== src/Poam/Lifecycle.antt =====
-- The abstract view of the store of poam.service.ts: a step creates an item under a new id or moves
-- one item along VALID_TRANSITIONS. Service/Refines and the files beside it relate the service to
-- these steps.
pub mod Keeps
use ai_devsecops_command_cen.Common.{
  String, ◌≡◌, ◌≢◌, Bool, true, false, none, some, [], ◌∷◌, inl, inr, arith, ◌==◌, find, Bool-cases,
}
use ai_devsecops_command_cen.Common.Dict
use ai_devsecops_command_cen.Poam.Types.{PoamItem, opened, closed, risk_accepted, auto, is_settled}
use ai_devsecops_command_cen.Poam.Repository.{Store, find_open_for_control_vuln}
use ai_devsecops_command_cen.Poam.Items.{is_valid_transition}

-- The fields that no transition changes.
pub record SameSubject (p q : PoamItem) : Type 0 where
  pub same_id : q.poam_id ≡ p.poam_id
  pub same_tenant : q.tenant_id ≡ p.tenant_id
  pub same_control : q.control_id ≡ p.control_id
  pub same_vuln : q.vuln_id ≡ p.vuln_id
  pub same_source : q.source ≡ p.source
  pub same_due : q.due_at ≡ p.due_at

-- A closed item has its evidence, its time and its author; an accepted risk has its acceptance.
pub record IsDocumented (p : PoamItem) : Type 0 where
  pub has_evidence : p.status ≡ closed → p.evidence_refs ≢ []
  pub has_closer : p.status ≡ closed → p.closed_by ≢ none
  pub has_time : p.status ≡ closed → p.closed_at ≢ none
  pub has_acceptance : p.status ≡ risk_accepted → p.risk_acceptance ≢ none

-- An automatic item is made only where no open item of its tenant has its control and vulnerability.
abbrev pub IsNew : Store → PoamItem → Type 0
IsNew s p =
    p.source ≡ auto
    → (v : String) × (p.vuln_id ≡ some v)
      × (find_open_for_control_vuln s p.tenant_id p.control_id v ≡ none)

pub data Step (s : Store) : Store → Type 0 where
  create :
      {t : Store} (p : PoamItem)
      → Dict.get s p.poam_id ≡ none
      → p.status ≡ opened
      → IsNew s p
      → t ≡ Dict.set s p.poam_id p
      → Step s t
  move :
      {t : Store} (p q : PoamItem)
      → Dict.get s p.poam_id ≡ some p
      → SameSubject p q
      → is_valid_transition p.status q.status ≡ true
      → q.status ≢ opened
      → IsDocumented q
      → t ≡ Dict.set s p.poam_id q
      → Step s t

pub data Steps (s : Store) : Store → Type 0 where
  here : Steps s s
  next : {t u : Store} → Steps s t → Step t u → Steps s u

pub Steps-trans : {s t u : Store} → Steps s t → Steps t u → Steps s u
Steps-trans a here = a
Steps-trans a (next b st) = next (Steps-trans a b) st

-- Two automatic items about the same thing, both open.
pub record IsRival (p q : PoamItem) : Type 0 where
  pub p_auto : p.source ≡ auto
  pub q_auto : q.source ≡ auto
  pub p_open : is_settled p.status ≡ false
  pub q_open : is_settled q.status ≡ false
  pub tenants : p.tenant_id ≡ q.tenant_id
  pub controls : p.control_id ≡ q.control_id
  pub vulns : p.vuln_id ≡ q.vuln_id

pub record Inv (s : Store) : Type 0 where
  pub is_map : Dict.IsMap s
  pub keyed : (id : String) (p : PoamItem) → Dict.get s id ≡ some p → p.poam_id ≡ id
  pub documented : (id : String) (p : PoamItem) → Dict.get s id ≡ some p → IsDocumented p
  pub unrivalled :
      (i j : String) (p q : PoamItem)
      → Dict.get s i ≡ some p
      → Dict.get s j ≡ some q
      → IsRival p q
      → i ≡ j

-- What a search does not find fails the test.
pub not-find :
    (f : PoamItem → Bool) (s : Store) (id : String) (p : PoamItem)
    → find f (Dict.values s) ≡ none
    → Dict.get s id ≡ some p
    → f p ≡ false
unfolding Dict.get Dict.values
not-find f [] id p e g = cc
not-find f ((k, q) ∷ s) id p e g = elim (Bool-cases (f q)) [
  | inl yes_q ↦ ground arith
  | inr no_q ↦ elim (Bool-cases (k == id)) [
    | inl found ↦ ground arith
    | inr other ↦ not-find f s id p (ground arith) (ground arith)
  ]
]
