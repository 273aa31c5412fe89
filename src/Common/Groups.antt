-- ===== src/Common/Groups.antt =====
-- Values gathered in a `Map` under their keys, one after the other.
use Prim.Native.String.{String}
use mathlib.Core.Path.{◌≡◌, refl, sym, ap, ◌∙◌, subst}
use mathlib.Core.Logic.{inl, inr}
use mathlib.Core.Option.{Option, none, some}
use mathlib.Core.List.{List, [], ◌∷◌}
use native.Mathlib.Omega.{arith}
use text.Mathlib.Text.{◌==◌}
use text.Mathlib.TextEquality.{eq_iff}
use ai_devsecops_command_cen.Common.Tests.{if◌then◌else◌, Bool-cases}
use ai_devsecops_command_cen.Common.Lists.{select}
use ai_devsecops_command_cen.Common.Dict.{Dict}
use ai_devsecops_command_cen.Common.Dict

module _ {B : Type 0} where
  -- Without a key twice, what stands in a map is what is found in it.
  entries-found :
      (m other : Dict B)
      → ((k : String) (v : B) → Dict.get m k ≡ some v → Dict.get other k ≡ some v)
      → Dict.IsMap m
      → Dict.AllEntries (λ k v. Dict.get other k ≡ some v) m
  unfolding Dict.get
  entries-found [] other f h = tt
  entries-found ((j, v) ∷ m) other f (free, h) = (
    f j v (ground (arith, eq_iff j j)),
    entries-found m other
        (λ k w e. f k w (elim (Bool-cases (j == k)) [
          | inl t ↦
              let same = (eq_iff j k).0 t in
              let gone : Dict.get m k ≡ none = subst (λ x. Dict.get m x ≡ none) same free in cc
          | inr t ↦ ground arith
        ]))
        h,
  )

  pub AllEntries-map :
      {P Q : String → B → Type 0}
      → ((k : String) (v : B) → P k v → Q k v)
      → (m : Dict B) → Dict.AllEntries P m
      → Dict.AllEntries Q m
  AllEntries-map f [] h = tt
  AllEntries-map f ((k, v) ∷ m) (p, h) = (f k v p, AllEntries-map f m h)

module _ {A B : Type 0} (key : A → String) (put : Option B → A → B) where
  abbrev pub add_to : Dict B → A → Dict B
  add_to m x = Dict.set m (key x) (put (Dict.get m (key x)) x)

  unfoldable pub collect : Dict B → List A → Dict B
  unfolding Dict.get Dict.set
  collect m [] = m
  collect m (x ∷ xs) = collect (add_to m x) xs

  -- The values with a key, in order.
  abbrev pub group_of : List A → String → List A
  group_of xs k = select (λ x. key x == k) xs

  -- What stands under a key once further values were put there.
  abbrev pub put_all : Option B → List A → Option B
  put_all o [] = o
  put_all o (x ∷ xs) = put_all (some (put o x)) xs

  get-add_to :
      (m : Dict B) (x : A) (k : String)
      → Dict.get (add_to m x) k ≡ (if key x == k then some (put (Dict.get m k) x) else Dict.get m k)
  get-add_to m x k = elim (Bool-cases (key x == k)) [
    | inl t ↦
        Dict.get-set m (key x) k _
        ∙ rw t (ap (λ j. some (put (Dict.get m j) x)) ((eq_iff (key x) k).0 t))
    | inr t ↦ Dict.get-set m (key x) k _ ∙ rw t refl
  ]

  pub get-collect :
      (xs : List A) (m : Dict B) (k : String)
      → Dict.get (collect m xs) k ≡ put_all (Dict.get m k) (group_of xs k)
  unfolding collect
  get-collect [] m k = refl
  get-collect (x ∷ xs) m k = get-collect xs (add_to m x) k ∙ elim (Bool-cases (key x == k)) [
    | inl t ↦ rw (get-add_to m x k, t) refl
    | inr t ↦ rw (get-add_to m x k, t) refl
  ]

  collect-IsMap : (xs : List A) (m : Dict B) → Dict.IsMap m → Dict.IsMap (collect m xs)
  unfolding collect
  collect-IsMap [] m h = h
  collect-IsMap (x ∷ xs) m h = collect-IsMap xs (add_to m x) (Dict.set-IsMap m (key x) _ h)

  -- Under each key stands what its own values make.
  pub collect-groups :
      (xs : List A) → Dict.AllEntries (λ k v. put_all none (group_of xs k) ≡ some v) (collect [] xs)
  unfolding Dict.get
  collect-groups xs =
      let m = collect [] xs in
      AllEntries-map (λ k v e. sym (get-collect xs [] k) ∙ e) m
        (entries-found m m (λ k v e. e) (collect-IsMap xs [] tt))
