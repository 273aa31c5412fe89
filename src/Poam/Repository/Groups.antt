-- ===== src/Poam/Repository/Groups.antt =====
-- What the groups of `findAllOpenGroupedByTenant` hold.
use ai_devsecops_command_cen.Common.{
  String, ◌≡◌, refl, false, some, arith, inl, inr, Option-cases, Bool-cases, ◌==◌, eq_iff, List, [],
  ◌∷◌, ◌++◌, or_else, All, All-append,
}
use ai_devsecops_command_cen.Common.Dict
use mathlib.Core.Path.{subst}
use ai_devsecops_command_cen.Common.Dict.{Dict}
use ai_devsecops_command_cen.Poam.Types.{PoamItem, is_settled}
use ai_devsecops_command_cen.Poam.Repository.{Store, push_item, group_from}

module _ (P : String → PoamItem → Type 0) where
  -- Every item of every group has the property, with the group's tenant.
  abbrev pub InGroups : Dict (List PoamItem) → Type 0
  InGroups groups = Dict.AllEntries (λ tenant items. All (P tenant) items) groups

  group_of :
      (out : Dict (List PoamItem)) (tenant : String)
      → InGroups out
      → All (P tenant) (or_else (Dict.get out tenant) [])
  group_of out tenant h = elim (Option-cases (Dict.get out tenant)) [
    | inl missing ↦ rw missing tt
    | inr (items, found) ↦
        rw found (Dict.get-AllEntries (λ t is. All (P t) is) out tenant items h found)
  ]

  push_item-InGroups :
      (out : Dict (List PoamItem)) (item : PoamItem)
      → InGroups out
      → P item.tenant_id item
      → InGroups (push_item out item)
  unfolding push_item
  push_item-InGroups out item h p =
      Dict.set-AllEntries (λ t is. All (P t) is) out item.tenant_id _ h
        (All-append (P item.tenant_id) _ (item ∷ []) (group_of out item.tenant_id h) (p, tt))

  pub group_from-InGroups :
      (out : Dict (List PoamItem)) (items : List PoamItem)
      → InGroups out
      → All (λ item. is_settled item.status ≡ false → P item.tenant_id item) items
      → InGroups (group_from out items)
  unfolding group_from
  group_from-InGroups out [] h k = h
  group_from-InGroups out (item ∷ rest) h (p, k) = elim (Bool-cases (is_settled item.status)) [
    | inl settled ↦ rw settled (group_from-InGroups out rest h k)
    | inr live ↦
        rw live
          (group_from-InGroups (push_item out item) rest (push_item-InGroups out item h (p live)) k)
  ]

  split_last :
      (xs : List PoamItem) (x : PoamItem) (tenant : String)
      → All (P tenant) (xs ++ x ∷ [])
      → All (P tenant) xs × P tenant x
  split_last [] x tenant (p, h) = (tt, p)
  split_last (y ∷ ys) x tenant (p, h) = let (a, b) = split_last ys x tenant h in ((p, a), b)

  -- What holds of the groups after a push held before it, and holds of the pushed item.
  push_back :
      (out : Dict (List PoamItem)) (item : PoamItem)
      → InGroups
          (Dict.set out item.tenant_id (or_else (Dict.get out item.tenant_id) [] ++ item ∷ []))
      → InGroups out × P item.tenant_id item
  unfolding Dict.set Dict.get
  push_back [] item (h, _) = (tt, (split_last [] item item.tenant_id h).1)
  push_back ((k, is) ∷ out) item h = elim (Bool-cases (k == item.tenant_id)) [
    | inl same ↦
        let (first, others) = rw same at h in
        let (a, b) = split_last is item k first in
        ((a, others), subst (λ t. P t item) ((eq_iff k item.tenant_id).0 same) b)
    | inr other ↦
        let (first, others) = rw other at h in
        let (a, b) = push_back out item others in ((first, a), b)
  ]

  -- No unsettled item is left out of the groups.
  pub group_from-covers :
      (out : Dict (List PoamItem)) (items : List PoamItem)
      → InGroups (group_from out items)
      → InGroups out × All (λ item. is_settled item.status ≡ false → P item.tenant_id item) items
  unfolding group_from push_item
  group_from-covers out [] h = (h, tt)
  group_from-covers out (item ∷ rest) h = elim (Bool-cases (is_settled item.status)) [
    | inl settled ↦
        let (a, b) = group_from-covers out rest (rw settled at h) in (a, (λ live. cc, b))
    | inr live ↦
        let (a, b) = group_from-covers (push_item out item) rest (rw live at h) in
        let (c, d) = push_back out item a in (c, (λ _. d, b))
  ]

-- Each value of a map is found under its key.
pub values-get :
    (s : Store)
    → Dict.IsMap s
    → (P : PoamItem → Type 0) → ((id : String) (p : PoamItem) → Dict.get s id ≡ some p → P p)
    → All P (Dict.values s)
unfolding Dict.values Dict.get
values-get [] m P h = tt
values-get ((k, p) ∷ s) (free, m) P h = (
  h k p (rw ((eq_iff k k).1 refl) refl),
  values-get s m P (λ id q e. h id q (elim (Bool-cases (k == id)) [
    | inl same ↦ cc ((eq_iff k id).0 same)
    | inr other ↦ rw other e
  ])),
)

pub get-values :
    (s : Store) (P : PoamItem → Type 0)
    → All P (Dict.values s)
    → (id : String) (p : PoamItem) → Dict.get s id ≡ some p
    → P p
unfolding Dict.values Dict.get
get-values [] P h id p e = cc
get-values ((k, q) ∷ s) P (a, h) id p e = elim (Bool-cases (k == id)) [
  | inl same ↦ let is_p : q ≡ p = ground arith in rw (← is_p) a
  | inr other ↦ get-values s P h id p (rw other at e)
]
