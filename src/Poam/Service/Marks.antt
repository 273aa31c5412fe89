-- ===== src/Poam/Service/Marks.antt =====
-- Stores between which unsettled items are marked as overdue, one after another.
use ai_devsecops_command_cen.Common.{
  ℕ, String, ◌≡◌, refl, sym, ◌∙◌, ap, Bool, true, false, ◌||◌, none, some, arith, inl, inr,
  Bool-cases, ◌==◌, eq_iff, ltb,
}
use ai_devsecops_command_cen.Common.Dict
use ai_devsecops_command_cen.Poam.Types.{PoamItem, overdue, status_eq, is_settled}
use ai_devsecops_command_cen.Poam.Repository.{Store}
use ai_devsecops_command_cen.Poam.Lifecycle.{Inv, move, Steps, here, next, Steps-trans}
use ai_devsecops_command_cen.Poam.Lifecycle.Keeps.{Steps-Inv}

abbrev pub as_overdue : PoamItem → PoamItem
as_overdue p = record p { status = overdue }

pub data Mark (s : Store) : Store → Type 0 where
  same : {t : Store} → t ≡ s → Mark s t
  marked :
      {t : Store} (id : String) (p : PoamItem)
      → Dict.get s id ≡ some p
      → is_settled p.status ≡ false
      → t ≡ Dict.set s id (as_overdue p)
      → Mark s t

pub data Marks (s : Store) : Store → Type 0 where
  done : Marks s s
  more : {t u : Store} → Marks s t → Mark t u → Marks s u

pub Marks-trans : {s t u : Store} → Marks s t → Marks t u → Marks s u
Marks-trans a done = a
Marks-trans a (more b m) = more (Marks-trans a b) m

-- What a snapshot's item says of the store: it is there, unsettled, with its due date.
abbrev pub IsLive : Store → String → PoamItem → Type 0
IsLive s tenant item =
    (p : PoamItem) × (Dict.get s item.poam_id ≡ some p)
    × (p.tenant_id ≡ tenant)
    × (is_settled p.status ≡ false)
    × (p.due_at ≡ item.due_at)
    × (status_eq item.status overdue ≡ true → p.status ≡ overdue)

-- Nothing is left to do for an item: it is settled, marked, or not yet due.
abbrev pub is_handled : ℕ → PoamItem → Bool
is_handled now p = is_settled p.status || (status_eq p.status overdue || ltb now p.due_at)

abbrev pub Handled : ℕ → Store → String → Type 0
Handled now s id = (p : PoamItem) → Dict.get s id ≡ some p → is_handled now p ≡ true

Mark-IsLive :
    {s t : Store} (tenant : String) (item : PoamItem)
    → Mark s t
    → IsLive s tenant item
    → IsLive t tenant item
Mark-IsLive tenant item (same e) l = rw e l
Mark-IsLive {s} tenant item (marked k p at free e) (q, found, owner, live, due, late) =
    elim (Bool-cases (k == item.poam_id)) [
      | inl eq ↦
          let key = (eq_iff k item.poam_id).0 eq in
          let is_p : q ≡ p = cc in
          (
            as_overdue p,
            rw (e, key) (Dict.get-set_self s item.poam_id (as_overdue p)),
            ap (λ x. x.tenant_id) (sym is_p) ∙ owner,
            refl,
            ap (λ x. x.due_at) (sym is_p) ∙ due,
            λ _. refl,
          )
      | inr ne ↦ (
        q,
        rw e (
            Dict.get-set_other s k item.poam_id (as_overdue p)
              (λ h. ground (arith, eq_iff k item.poam_id))
            ∙ found),
        owner,
        live,
        due,
        late,
      )
    ]

Mark-Handled :
    {s t : Store} (now : ℕ) (id : String) → Mark s t → Handled now s id → Handled now t id
Mark-Handled now id (same e) h p found = h p (rw e at found)
Mark-Handled {s} now id (marked k q at free e) h p found = elim (Bool-cases (k == id)) [
  | inl eq ↦
      let is_p : as_overdue q ≡ p = ground (arith, Dict.get-set s k id (as_overdue q)) in
      rw (← is_p) (ground arith)
  | inr ne ↦ h p (ground (arith, Dict.get-set s k id (as_overdue q)))
]

Mark-none : {s t : Store} (id : String) → Mark s t → Dict.get s id ≡ none → Dict.get t id ≡ none
Mark-none id (same e) h = rw e h
Mark-none {s} id (marked k q at free e) h = rw e (Dict.get-set_other s k id _ (λ eq. cc) ∙ h)

-- An unsettled item that is not overdue may become so; one that is stays as it is.
Mark-Steps : {s t : Store} → Inv s → Mark s t → Steps s t
Mark-Steps h (same e) = rw e here
Mark-Steps {s} h (marked id p at free e) = elim (Bool-cases (status_eq p.status overdue)) [
  | inl already ↦
      let unchanged : as_overdue p ≡ p = ground arith in
      rw (e, unchanged, Dict.set-get s id p at) here
  | inr fresh ↦
      let key = h.keyed id p at in
      next here (
        move p (as_overdue p) (ap (Dict.get s) key ∙ at) (ground arith) (ground arith) (λ o. cc)
          (ground arith) (e ∙ ap (λ k. Dict.set s k (as_overdue p)) (sym key)))
]

pub Marks-IsLive :
    {s t : Store} (tenant : String) (item : PoamItem)
    → Marks s t
    → IsLive s tenant item
    → IsLive t tenant item
Marks-IsLive tenant item done l = l
Marks-IsLive tenant item (more ms m) l = Mark-IsLive tenant item m (Marks-IsLive tenant item ms l)

-- What is handled stays handled.
pub Marks-Handled :
    {s t : Store} (now : ℕ) (id : String) → Marks s t → Handled now s id → Handled now t id
Marks-Handled now id done h = h
Marks-Handled now id (more ms m) h = Mark-Handled now id m (Marks-Handled now id ms h)

pub Marks-none :
    {s t : Store} (id : String) → Marks s t → Dict.get s id ≡ none → Dict.get t id ≡ none
Marks-none id done h = h
Marks-none id (more ms m) h = Mark-none id m (Marks-none id ms h)

pub Marks-Steps : {s t : Store} → Inv s → Marks s t → Steps s t
Marks-Steps h done = here
Marks-Steps h (more ms m) = let a = Marks-Steps h ms in Steps-trans a (Mark-Steps (Steps-Inv h a) m)
