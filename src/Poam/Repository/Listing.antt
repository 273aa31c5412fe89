-- ===== src/Poam/Repository/Listing.antt =====
-- `list`: what a page holds, and where the cursors lead.
use ai_devsecops_command_cen.Common.Dict.{Dict}
use ai_devsecops_command_cen.Common.{
  ℕ, zero, suc, ◌≤◌, ◌<◌, ◌+◌, ◌-◌, String, ◌≡◌, ◌≢◌, refl, sym, ap, Bool, true, Option, none, some,
  arith, inl, inr, Bool-cases, eq_iff, List, [], ◌∷◌, ◌++◌, or_else, All, select, take, drop,
  length, length-take, ltb, ltb→lt,
}
use ai_devsecops_command_cen.Common.Dict
use native.Mathlib.Nat.{zero-add, suc-add}
use mathlib.Core.Option
use ai_devsecops_command_cen.Common.Sort.{sort-All}
use ai_devsecops_command_cen.Poam.Types.{PoamItem, ListPoamFilter, only, overdue}
use ai_devsecops_command_cen.Poam.Repository.{
  Store, Texts, passes, newer, matching, page, list, clamp_limit,
}

module _ {ℓ} {A : Type ℓ} where
  select-All : (f : A → Bool) (xs : List A) → All (λ x. f x ≡ true) (select f xs)
  select-All f [] = tt
  select-All f (x ∷ xs) = elim (Bool-cases (f x)) [
    | inl fits ↦ rw fits (fits, select-All f xs)
    | inr unfit ↦ rw unfit (select-All f xs)
  ]

  module _ {κ} (P : A → Type κ) where
    take-All : (n : ℕ) (xs : List A) → All P xs → All P (take n xs)
    take-All zero xs h = tt
    take-All (suc n) [] h = tt
    take-All (suc n) (x ∷ xs) (p, h) = (p, take-All n xs h)

    drop-All : (n : ℕ) (xs : List A) → All P xs → All P (drop n xs)
    drop-All zero xs h = h
    drop-All (suc n) [] h = tt
    drop-All (suc n) (x ∷ xs) (p, h) = drop-All n xs h

  take-append-drop : (n : ℕ) (xs : List A) → take n xs ++ drop (length (take n xs)) xs ≡ xs
  take-append-drop zero xs = refl
  take-append-drop (suc n) [] = refl
  take-append-drop (suc n) (x ∷ xs) = ap (λ r. x ∷ r) (take-append-drop n xs)

  take_all : (n : ℕ) (xs : List A) → length xs ≤ length (take n xs) → take n xs ≡ xs
  take_all zero [] h = refl
  take_all zero (x ∷ xs) h = absurd (omega arith)
  take_all (suc n) [] h = refl
  take_all (suc n) (x ∷ xs) h = ap (λ r. x ∷ r) (take_all n xs (omega arith))

  drop-nil : (n : ℕ) → drop {A = A} n [] ≡ []
  drop-nil zero = refl
  drop-nil (suc n) = refl

  drop-add : (m n : ℕ) (xs : List A) → drop (m + n) xs ≡ drop n (drop m xs)
  drop-add zero n xs = rw (zero-add) refl
  drop-add (suc m) n [] = rw suc-add (sym (drop-nil n))
  drop-add (suc m) n (x ∷ xs) = rw suc-add (drop-add m n xs)

  length-drop : (n : ℕ) (xs : List A) → length (drop n xs) ≡ length xs - n
  length-drop zero xs = omega arith
  length-drop (suc n) [] = omega arith
  length-drop (suc n) (x ∷ xs) = omega (arith, length-drop n xs)

  take-pos : (n : ℕ) (xs : List A) → 0 < n → 0 < length xs → 0 < length (take n xs)
  take-pos zero xs h k = absurd (omega arith)
  take-pos (suc n) [] h k = absurd (omega arith)
  take-pos (suc n) (x ∷ xs) h k = omega arith

clamp_limit_bounds : (l : Option ℕ) → (1 ≤ clamp_limit l) × (clamp_limit l ≤ 200)
clamp_limit_bounds l = ground arith

-- A page holds at most 200 items, and no more than the limit that is asked for; each of them belongs
-- to the tenant and passes every test of the filter.
pub list-passes :
    (js : Texts) (items : Store) (now : ℕ) (tenant : String) (filter : ListPoamFilter)
    → let (found, next) = list js items now tenant filter in
      (length found ≤ 200)
      × (length found ≤ clamp_limit filter.limit)
      × All (λ p. (p.tenant_id ≡ tenant) × (passes js now tenant filter p ≡ true)) found
unfolding list page matching
list-passes js items now tenant filter =
    let all = select-All (passes js now tenant filter) (Dict.values items) in
    let sorted = sort-All newer (λ p. passes js now tenant filter p ≡ true) _ all in
    let short =
      length-take (clamp_limit filter.limit)
        (drop (or_else filter.cursor 0) (matching js items now tenant filter)) in
    (
      omega (arith, short, (clamp_limit_bounds filter.limit).1),
      short,
      owned _ (
          take-All (λ p. passes js now tenant filter p ≡ true) (clamp_limit filter.limit) _
            (drop-All (λ p. passes js now tenant filter p ≡ true) (or_else filter.cursor 0) _
              sorted)),
    )
  where
    one : (p : PoamItem) → passes js now tenant filter p ≡ true → p.tenant_id ≡ tenant
    one p h = ground (arith, eq_iff p.tenant_id tenant)

    owned :
        (xs : List PoamItem)
        → All (λ p. passes js now tenant filter p ≡ true) xs
        → All (λ p. (p.tenant_id ≡ tenant) × (passes js now tenant filter p ≡ true)) xs
    owned = elim [ [] ↦ λ h. tt | x ∷ (xs → ih) ↦ λ h. ((one x h.0, h.0), ih h.1) ]

-- A page with what the further pages show.
abbrev with_following :
    List PoamItem → Option ℕ → (ℕ → Option (List PoamItem)) → Option (List PoamItem)
with_following slice none more = some slice
with_following slice (some n) more = Option.map (λ rest. slice ++ rest) (more n)

-- The items that a client sees that follows the cursors from `start` to the last page, or none where
-- `fuel` pages do not reach it.
pub pages : ℕ → List PoamItem → ℕ → ℕ → Option (List PoamItem)
pages zero matches limit start = none
pages (suc fuel) matches limit start =
    with_following (page matches start limit).0 (page matches start limit).1
      (pages fuel matches limit)

-- Following the cursors from `start` ends, and shows every match from there on once, in order: as
-- many pages as there are matches left, and one more, reach the last page. The limit is at least 1.
pub pages-eq-drop :
    (fuel : ℕ) (matches : List PoamItem) (limit start : ℕ)
    → 0 < limit
    → 0 < fuel
    → length matches < fuel + start
    → pages fuel matches limit start ≡ some (drop start matches)
unfolding pages page
pages-eq-drop zero matches limit start h f k = absurd (omega arith)
pages-eq-drop (suc fuel) matches limit start h f k =
    let xs = drop start matches in
    let len = length-drop start matches in
    let next = start + length (take limit xs) in
    elim (Bool-cases (ltb next (length matches))) [
      | inl later ↦
          let lt = ltb→lt next (length matches) later in
          let more = take-pos limit xs h (omega arith) in
          let ih = pages-eq-drop fuel matches limit next h (omega arith) (omega arith) in
          rw (later, ih, drop-add start (length (take limit xs)) matches)
            (ap (λ ys. some ys) (take-append-drop limit xs))
      | inr last ↦ rw last (ap (λ ys. some ys) (take_all limit xs (ground arith)))
    ]

-- Where the filter asks for overdue items, no item of the page has the status `overdue`: an item
-- that the scan has marked is not listed.
pub list_overdue_unmarked :
    (js : Texts) (items : Store) (now : ℕ) (tenant : String) (filter : ListPoamFilter)
    → filter.status ≡ some (only overdue)
    → All (λ p. p.status ≢ overdue) (list js items now tenant filter).0
unfolding passes
list_overdue_unmarked js items now tenant filter asked =
    unmarked _ (list-passes js items now tenant filter).2
  where
    one : (p : PoamItem) → passes js now tenant filter p ≡ true → p.status ≢ overdue
    one p h = λ e. ground arith

    unmarked :
        (xs : List PoamItem)
        → All (λ p. (p.tenant_id ≡ tenant) × (passes js now tenant filter p ≡ true)) xs
        → All (λ p. p.status ≢ overdue) xs
    unmarked = elim [ [] ↦ λ h. tt | x ∷ (xs → ih) ↦ λ h. (one x h.0.1, ih h.1) ]
