-- ===== src/Common/Unique.antt =====
-- JavaScript's `Set` of strings, in insertion order.
use Prim.Native.String.{String}
use mathlib.Core.Bool.{Bool, true, not}
use mathlib.Core.Path.{◌≡◌, ap, ◌∙◌}
use mathlib.Core.Logic.{inl, inr}
use mathlib.Core.List.{List, [], ◌∷◌}
use text.Mathlib.Text.{◌==◌}
use text.Mathlib.TextEquality.{eq_iff}
use ai_devsecops_command_cen.Common.Lists.{select, All, Any}
use ai_devsecops_command_cen.Common.Tests.{Bool-cases}

-- `Array.from(new Set(items))`: the first of each.
unfoldable pub dedupe : List String → List String
dedupe [] = []
dedupe (x ∷ xs) = x ∷ select (λ y. not (x == y)) (dedupe xs)

module _ (P : String → Type 0) where
  select-keeps : (f : String → Bool) (xs : List String) → All P xs → All P (select f xs)
  select-keeps f [] h = tt
  select-keeps f (x ∷ xs) (p, h) = elim (Bool-cases (f x)) [
    | inl e ↦ rw e (p, select-keeps f xs h)
    | inr e ↦ rw e (select-keeps f xs h)
  ]

  -- What holds of every element holds of those that are left.
  pub dedupe-All : (xs : List String) → All P xs → All P (dedupe xs)
  unfolding dedupe
  dedupe-All [] h = tt
  dedupe-All (x ∷ xs) (p, h) = (p, select-keeps _ (dedupe xs) (dedupe-All xs h))

select-has :
    (f : String → Bool) (x : String) (xs : List String)
    → f x ≡ true
    → Any (λ y. y ≡ x) xs
    → Any (λ y. y ≡ x) (select f xs)
select-has f x [] fits a = elim a [ ]
select-has f x (y ∷ ys) fits (inl e) = rw (ap f e ∙ fits) (inl e)
select-has f x (y ∷ ys) fits (inr a) = elim (Bool-cases (f y)) [
  | inl e ↦ rw e (inr (select-has f x ys fits a))
  | inr e ↦ rw e (select-has f x ys fits a)
]

-- No element is lost.
pub dedupe-has :
    (xs : List String) (x : String) → Any (λ y. y ≡ x) xs → Any (λ y. y ≡ x) (dedupe xs)
unfolding dedupe
dedupe-has [] x a = elim a [ ]
dedupe-has (y ∷ ys) x (inl e) = inl e
dedupe-has (y ∷ ys) x (inr a) = elim (Bool-cases (y == x)) [
  | inl e ↦ inl ((eq_iff y x).0 e)
  | inr e ↦ inr (select-has _ x (dedupe ys) (ap not e) (dedupe-has ys x a))
]
