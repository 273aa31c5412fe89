-- ===== src/Common/Compare.antt =====
-- Comparators as JavaScript uses them, by the sign of their result: `lt` for a negative number, `gt`
-- for a positive one. Lists are compared element by element.
use Prim.Native.Nat.{ℕ, compare, Ordering}
use mathlib.Core.Path.{◌≡◌, refl, sym}
use mathlib.Core.Bool.{Bool, true, false}
use mathlib.Core.List.{List, [], ◌∷◌}
use native.Mathlib.Omega.{arith}

abbrev pub is_lt : Ordering → Bool
is_lt Ordering.lt = true
is_lt _ = false

abbrev pub is_gt : Ordering → Bool
is_gt Ordering.gt = true
is_gt _ = false

abbrev pub is_eq : Ordering → Bool
is_eq Ordering.eq = true
is_eq _ = false

-- The first comparison that does not find the two equal decides.
abbrev pub then_by : Ordering → Ordering → Ordering
then_by Ordering.eq o = o
then_by Ordering.lt o = Ordering.lt
then_by Ordering.gt o = Ordering.gt

abbrev pub flip : Ordering → Ordering
flip Ordering.lt = Ordering.gt
flip Ordering.eq = Ordering.eq
flip Ordering.gt = Ordering.lt

pub flip-then_by : (o p : Ordering) → flip (then_by o p) ≡ then_by (flip o) (flip p)
flip-then_by Ordering.lt p = refl
flip-then_by Ordering.eq p = refl
flip-then_by Ordering.gt p = refl

-- What two comparisons in a row say of the one from end to end.
abbrev pub Agrees : Ordering → Ordering → Ordering → Type 0
Agrees Ordering.eq p q = q ≡ p
Agrees Ordering.lt Ordering.gt q = Unit
Agrees Ordering.lt _ q = q ≡ Ordering.lt
Agrees Ordering.gt Ordering.lt q = Unit
Agrees Ordering.gt _ q = q ≡ Ordering.gt

pub then_by-Agrees :
    (o p q o' p' q' : Ordering)
    → Agrees o p q
    → Agrees o' p' q'
    → Agrees (then_by o o') (then_by p p') (then_by q q')
then_by-Agrees Ordering.eq Ordering.eq q o' p' q' h k = rw h k
then_by-Agrees Ordering.eq Ordering.lt q Ordering.eq p' q' h k = rw h refl
then_by-Agrees Ordering.eq Ordering.lt q Ordering.lt p' q' h k = rw h refl
then_by-Agrees Ordering.eq Ordering.lt q Ordering.gt p' q' h k = tt
then_by-Agrees Ordering.eq Ordering.gt q Ordering.eq p' q' h k = rw h refl
then_by-Agrees Ordering.eq Ordering.gt q Ordering.lt p' q' h k = tt
then_by-Agrees Ordering.eq Ordering.gt q Ordering.gt p' q' h k = rw h refl
then_by-Agrees Ordering.lt Ordering.eq q o' Ordering.eq q' h k = rw h refl
then_by-Agrees Ordering.lt Ordering.eq q o' Ordering.lt q' h k = rw h refl
then_by-Agrees Ordering.lt Ordering.eq q o' Ordering.gt q' h k = tt
then_by-Agrees Ordering.lt Ordering.lt q o' p' q' h k = rw h refl
then_by-Agrees Ordering.lt Ordering.gt q o' p' q' h k = tt
then_by-Agrees Ordering.gt Ordering.eq q o' Ordering.eq q' h k = rw h refl
then_by-Agrees Ordering.gt Ordering.eq q o' Ordering.lt q' h k = tt
then_by-Agrees Ordering.gt Ordering.eq q o' Ordering.gt q' h k = rw h refl
then_by-Agrees Ordering.gt Ordering.lt q o' p' q' h k = tt
then_by-Agrees Ordering.gt Ordering.gt q o' p' q' h k = rw h refl

pub Agrees-lt : (p : Ordering) → Agrees Ordering.lt p Ordering.lt
Agrees-lt Ordering.lt = refl
Agrees-lt Ordering.eq = refl
Agrees-lt Ordering.gt = tt

pub Agrees-gt : (p : Ordering) → Agrees p Ordering.gt Ordering.gt
Agrees-gt Ordering.lt = tt
Agrees-gt Ordering.eq = refl
Agrees-gt Ordering.gt = refl

pub Agrees-lt_right : (p : Ordering) → Agrees p Ordering.lt Ordering.lt
Agrees-lt_right Ordering.lt = refl
Agrees-lt_right Ordering.eq = refl
Agrees-lt_right Ordering.gt = tt

pub Agrees-gt_left : (p : Ordering) → Agrees Ordering.gt p Ordering.gt
Agrees-gt_left Ordering.lt = tt
Agrees-gt_left Ordering.eq = refl
Agrees-gt_left Ordering.gt = refl

pub Agrees-eq : (p : Ordering) → Agrees p Ordering.eq p
Agrees-eq Ordering.lt = refl
Agrees-eq Ordering.eq = refl
Agrees-eq Ordering.gt = refl

Agrees-flip : (p : Ordering) → Agrees p (flip p) Ordering.eq
Agrees-flip Ordering.lt = tt
Agrees-flip Ordering.eq = refl
Agrees-flip Ordering.gt = tt

-- A comparator is lawful where its results fit together.
pub record IsOrder {ℓ} {A : Type ℓ} (cmp : A → A → Ordering) : Type ℓ where
  pub flips : (x y : A) → cmp y x ≡ flip (cmp x y)
  pub agrees : (x y z : A) → Agrees (cmp x y) (cmp y z) (cmp x z)

compare-flips : (x y : ℕ) → compare y x ≡ flip (compare x y)
compare-flips x y = ground arith

compare-Agrees : (x y z : ℕ) → Agrees (compare x y) (compare y z) (compare x z)
compare-Agrees x y z = ground arith

pub compare-IsOrder : IsOrder compare
compare-IsOrder = record { flips = compare-flips; agrees = compare-Agrees }

module _ {ℓ} {A : Type ℓ} (cmp : A → A → Ordering) where
  -- Element by element; the one that ends first comes first.
  unfoldable pub compare_lists : List A → List A → Ordering
  compare_lists [] [] = Ordering.eq
  compare_lists [] (y ∷ ys) = Ordering.lt
  compare_lists (x ∷ xs) [] = Ordering.gt
  compare_lists (x ∷ xs) (y ∷ ys) = then_by (cmp x y) (compare_lists xs ys)

  -- Element by element, where a given value stands for what the shorter list lacks.
  unfoldable pub compare_padded : A → List A → List A → Ordering
  compare_padded o [] [] = Ordering.eq
  compare_padded o [] (y ∷ ys) = then_by (cmp o y) (compare_padded o [] ys)
  compare_padded o (x ∷ xs) [] = then_by (cmp x o) (compare_padded o xs [])
  compare_padded o (x ∷ xs) (y ∷ ys) = then_by (cmp x y) (compare_padded o xs ys)

  module _ (law : IsOrder cmp) where
    then_by-flips :
        (x y : A) (p : Ordering) {q : Ordering}
        → q ≡ flip p
        → then_by (cmp y x) q ≡ flip (then_by (cmp x y) p)
    then_by-flips x y p h = rw (h, law.flips x y) (sym (flip-then_by (cmp x y) p))

    compare_lists-flips : (xs ys : List A) → compare_lists ys xs ≡ flip (compare_lists xs ys)
    unfolding compare_lists
    compare_lists-flips [] [] = refl
    compare_lists-flips [] (y ∷ ys) = refl
    compare_lists-flips (x ∷ xs) [] = refl
    compare_lists-flips (x ∷ xs) (y ∷ ys) = then_by-flips x y _ (compare_lists-flips xs ys)

    then_by_transfer :
        (x y z : A) (p q r : Ordering)
        → Agrees p q r
        → Agrees (then_by (cmp x y) p) (then_by (cmp y z) q) (then_by (cmp x z) r)
    then_by_transfer x y z p q r h =
        then_by-Agrees (cmp x y) (cmp y z) (cmp x z) p q r (law.agrees x y z) h

    compare_lists-Agrees :
        (xs ys zs : List A)
        → Agrees (compare_lists xs ys) (compare_lists ys zs) (compare_lists xs zs)
    unfolding compare_lists
    compare_lists-Agrees [] [] zs = refl
    compare_lists-Agrees [] (y ∷ ys) [] = tt
    compare_lists-Agrees [] (y ∷ ys) (z ∷ zs) = Agrees-lt _
    compare_lists-Agrees (x ∷ xs) [] [] = refl
    compare_lists-Agrees (x ∷ xs) [] (z ∷ zs) = tt
    compare_lists-Agrees (x ∷ xs) (y ∷ ys) [] = Agrees-gt _
    compare_lists-Agrees (x ∷ xs) (y ∷ ys) (z ∷ zs) =
        then_by_transfer x y z _ _ _ (compare_lists-Agrees xs ys zs)

    pub compare_lists-IsOrder : IsOrder compare_lists
    compare_lists-IsOrder = record { flips = compare_lists-flips; agrees = compare_lists-Agrees }

    compare_padded-flips :
        (o : A) (xs ys : List A) → compare_padded o ys xs ≡ flip (compare_padded o xs ys)
    unfolding compare_padded
    compare_padded-flips o [] [] = refl
    compare_padded-flips o [] (y ∷ ys) = then_by-flips o y _ (compare_padded-flips o [] ys)
    compare_padded-flips o (x ∷ xs) [] = then_by-flips x o _ (compare_padded-flips o xs [])
    compare_padded-flips o (x ∷ xs) (y ∷ ys) = then_by-flips x y _ (compare_padded-flips o xs ys)

    compare_padded-Agrees :
        (o : A) (xs ys zs : List A)
        → Agrees (compare_padded o xs ys) (compare_padded o ys zs) (compare_padded o xs zs)
    unfolding compare_padded
    compare_padded-Agrees o [] [] zs = refl
    compare_padded-Agrees o [] (y ∷ ys) [] =
        rw (compare_padded-flips o [] (y ∷ ys)) (Agrees-flip (compare_padded o [] (y ∷ ys)))
    compare_padded-Agrees o [] (y ∷ ys) (z ∷ zs) =
        then_by_transfer o y z _ _ _ (compare_padded-Agrees o [] ys zs)
    compare_padded-Agrees o (x ∷ xs) [] [] = Agrees-eq _
    compare_padded-Agrees o (x ∷ xs) [] (z ∷ zs) =
        then_by_transfer x o z _ _ _ (compare_padded-Agrees o xs [] zs)
    compare_padded-Agrees o (x ∷ xs) (y ∷ ys) [] =
        then_by_transfer x y o _ _ _ (compare_padded-Agrees o xs ys [])
    compare_padded-Agrees o (x ∷ xs) (y ∷ ys) (z ∷ zs) =
        then_by_transfer x y z _ _ _ (compare_padded-Agrees o xs ys zs)

    pub compare_padded-IsOrder : (o : A) → IsOrder (compare_padded o)
    compare_padded-IsOrder o = record {
      flips = compare_padded-flips o;
      agrees = compare_padded-Agrees o;
    }

-- A comparator that goes by a key is lawful where the one of the keys is.
module _ {ℓ κ} {A : Type ℓ} {B : Type κ} (key : A → B) {cmp : B → B → Ordering} where
  pub by_key-IsOrder : IsOrder cmp → IsOrder (λ x y. cmp (key x) (key y))
  by_key-IsOrder law = record {
    flips = λ x y. law.flips (key x) (key y);
    agrees = λ x y z. law.agrees (key x) (key y) (key z);
  }

-- And so is one comparator after another.
module _ {ℓ} {A : Type ℓ} {cmp cmp' : A → A → Ordering} where
  pub then_by-IsOrder : IsOrder cmp → IsOrder cmp' → IsOrder (λ x y. then_by (cmp x y) (cmp' x y))
  then_by-IsOrder law law' = record {
    flips = λ x y. rw (law.flips x y, law'.flips x y) (sym (flip-then_by (cmp x y) (cmp' x y)));
    agrees = λ x y z.
        then_by-Agrees (cmp x y) (cmp y z) (cmp x z) (cmp' x y) (cmp' y z) (cmp' x z)
          (law.agrees x y z) (law'.agrees x y z);
  }
