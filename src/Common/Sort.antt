-- ===== src/Common/Sort.antt =====
-- `Array.prototype.sort` with a comparator: a stable sort. `before x y` holds where the comparator
-- puts `x` strictly before `y`.
use mathlib.Core.Path.{◌≡◌, refl}
use mathlib.Core.Logic.{inl, inr}
use mathlib.Core.Bool.{Bool, true, false}
use mathlib.Core.List.{List, [], ◌∷◌, Perm}
use mathlib.Core.List.Perm
use native.Mathlib.Omega.{arith}
use ai_devsecops_command_cen.Common.Tests.{if◌then◌else◌, Bool-cases}
use ai_devsecops_command_cen.Common.Lists.{All, length}

module _ {ℓ} {A : Type ℓ} (before : A → A → Bool) where
  unfoldable pub insert_sorted : A → List A → List A
  insert_sorted x [] = x ∷ []
  insert_sorted x (y ∷ ys) =
      let rest = insert_sorted x ys in if before y x then y ∷ rest else x ∷ y ∷ ys

  unfoldable pub sort : List A → List A
  unfolding insert_sorted
  sort [] = []
  sort (x ∷ xs) = insert_sorted x (sort xs)

  insert_sorted-perm : (x : A) (ys : List A) → Perm (insert_sorted x ys) (x ∷ ys)
  unfolding insert_sorted
  insert_sorted-perm x [] = Perm.refl _
  insert_sorted-perm x (y ∷ ys) = elim (Bool-cases (before y x)) [
    | inl p ↦ rw p (Perm.trans (Perm.cons y (insert_sorted-perm x ys)) (Perm.swap x y ys))
    | inr p ↦ rw p (Perm.refl _)
  ]

  -- Sorting keeps the elements.
  pub sort-perm : (xs : List A) → Perm (sort xs) xs
  unfolding sort
  sort-perm [] = Perm.refl _
  sort-perm (x ∷ xs) = Perm.trans (insert_sorted-perm x (sort xs)) (Perm.cons x (sort-perm xs))

  pub insert_sorted-length : (x : A) (ys : List A) → length (insert_sorted x ys) ≡ length (x ∷ ys)
  unfolding insert_sorted
  insert_sorted-length x [] = refl
  insert_sorted-length x (y ∷ ys) = ground (arith, insert_sorted-length x ys)

  pub sort-length : (xs : List A) → length (sort xs) ≡ length xs
  unfolding sort
  sort-length [] = refl
  sort-length (x ∷ xs) = omega (arith, insert_sorted-length x (sort xs), sort-length xs)

  module _ {κ} (P : A → Type κ) where
    insert_sorted-All : (x : A) (ys : List A) → P x → All P ys → All P (insert_sorted x ys)
    unfolding insert_sorted
    insert_sorted-All x [] p h = (p, tt)
    insert_sorted-All x (y ∷ ys) p (q, h) = elim (Bool-cases (before y x)) [
      | inl e ↦ rw e (q, insert_sorted-All x ys p h)
      | inr e ↦ rw e (p, (q, h))
    ]

    -- What holds of every element holds of every element of the sorted list.
    pub sort-All : (xs : List A) → All P xs → All P (sort xs)
    unfolding sort
    sort-All [] h = tt
    sort-All (x ∷ xs) (p, h) = insert_sorted-All x (sort xs) p (sort-All xs h)

    insert_sorted-All_of : (x : A) (ys : List A) → All P (insert_sorted x ys) → P x × All P ys
    unfolding insert_sorted
    insert_sorted-All_of x [] (p, h) = (p, tt)
    insert_sorted-All_of x (y ∷ ys) h = elim (Bool-cases (before y x)) [
      | inl e ↦
          let (q, rest) = rw e at h in let (p, k) = insert_sorted-All_of x ys rest in (p, (q, k))
      | inr e ↦ rw e at h
    ]

    -- And the other way round.
    pub All-of_sort : (xs : List A) → All P (sort xs) → All P xs
    unfolding sort
    All-of_sort [] h = tt
    All-of_sort (x ∷ xs) h =
        let (p, rest) = insert_sorted-All_of x (sort xs) h in (p, All-of_sort xs rest)

  -- No neighbour comes strictly before the one that it follows.
  abbrev pub IsSorted : List A → Type 0
  IsSorted [] = Unit
  IsSorted (x ∷ []) = Unit
  IsSorted (x ∷ y ∷ ys) = (before y x ≡ false) × IsSorted (y ∷ ys)

  module _ (asym : (x y : A) → before x y ≡ true → before y x ≡ false) where
    insert_sorted-IsSorted : (x : A) (ys : List A) → IsSorted ys → IsSorted (insert_sorted x ys)
    unfolding insert_sorted
    insert_sorted-IsSorted x [] h = tt
    insert_sorted-IsSorted x (y ∷ []) h = elim (Bool-cases (before y x)) [
      | inl e ↦ rw e (asym y x e, tt)
      | inr e ↦ rw e (e, tt)
    ]
    insert_sorted-IsSorted x (y ∷ z ∷ zs) (p, h) = elim (Bool-cases (before y x)) [
      | inl e ↦ rw e (follow (insert_sorted-IsSorted x (z ∷ zs) h) e)
      | inr e ↦ rw e (e, (p, h))
    ]
      where
        follow :
            IsSorted (insert_sorted x (z ∷ zs))
            → before y x ≡ true
            → IsSorted (y ∷ insert_sorted x (z ∷ zs))
        follow s e = elim (Bool-cases (before z x)) [
          | inl f ↦ rw f (p, rw f at s)
          | inr f ↦ rw f (asym y x e, rw f at s)
        ]

    -- The result is in order.
    pub sort-IsSorted : (xs : List A) → IsSorted (sort xs)
    unfolding sort
    sort-IsSorted [] = tt
    sort-IsSorted (x ∷ xs) = insert_sorted-IsSorted x (sort xs) (sort-IsSorted xs)

  -- Where the order is transitive, nothing in a sorted list comes strictly before its head.
  module _ {κ} (P : A → Type κ) where
    pub IsSorted-head :
        ((x y z : A)
          → P x
          → P y
          → P z
          → before y x ≡ false
          → before z y ≡ false
          → before z x ≡ false)
        → (x y : A) (ys : List A) → P x
        → All P (y ∷ ys)
        → before y x ≡ false
        → IsSorted (y ∷ ys)
        → All (λ z. before z x ≡ false) (y ∷ ys)
    IsSorted-head trans x y [] px ps h s = (h, tt)
    IsSorted-head trans x y (z ∷ zs) px (py, (pz, ps)) h (k, s) =
        (h, IsSorted-head trans x z zs px (pz, ps) (trans x y z px py pz h k) s)
