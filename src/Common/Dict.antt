-- ===== src/Common/Dict.antt =====
-- JavaScript's `Map` with string keys: an association list in insertion order. `set` on a key that
-- is there keeps the key's place, and a new key goes to the end.
use Prim.Native.String.{String}
use mathlib.Core.Path.{◌≡◌, refl, sym, ◌∙◌, subst}
use mathlib.Core.Logic.{◌≢◌}
use mathlib.Core.Option.{Option, none, some}
use mathlib.Core.Logic.{inl, inr}
use mathlib.Core.List.{List, [], ◌∷◌}
use native.Mathlib.Omega.{arith}
use text.Mathlib.Text.{◌==◌}
use text.Mathlib.TextEquality.{eq_iff}
use text.Mathlib.TextPositions.{eq_refl}
use mathlib.Core.Bool.{Bool, true}
use ai_devsecops_command_cen.Common.Tests.{if◌then◌else◌, Bool-cases, is_some}
use ai_devsecops_command_cen.Common.Lists.{find}

abbrev pub Dict {ℓ} : Type ℓ → Type ℓ
Dict V = List (String × V)

module _ {ℓ} {V : Type ℓ} where
  unfoldable pub get : Dict V → String → Option V
  get [] k = none
  get ((j, v) ∷ m) k = if j == k then some v else get m k

  unfoldable pub set : Dict V → String → V → Dict V
  set [] k v = (k, v) ∷ []
  set ((j, w) ∷ m) k v = if j == k then (j, v) ∷ m else (j, w) ∷ set m k v

  unfoldable pub remove : Dict V → String → Dict V
  remove [] k = []
  remove ((j, w) ∷ m) k = let rest = remove m k in if j == k then rest else (j, w) ∷ rest

  unfoldable pub values : Dict V → List V
  values [] = []
  values ((_, v) ∷ m) = v ∷ values m

  pub get-set :
      (m : Dict V) (k j : String) (v : V) → get (set m k v) j ≡ (if k == j then some v else get m j)
  unfolding get set
  get-set [] k j v = refl
  get-set ((i, w) ∷ m) k j v = ground (arith, eq_iff k j, eq_iff i k, eq_iff i j, get-set m k j v)

  pub get-set_self : (m : Dict V) (k : String) (v : V) → get (set m k v) k ≡ some v
  get-set_self m k v = simp (get-set, eq_refl)

  pub get-set_other : (m : Dict V) (k j : String) (v : V) → k ≢ j → get (set m k v) j ≡ get m j
  get-set_other m k j v h = ground (arith, get-set m k j v, eq_iff k j)

  pub get-remove :
      (m : Dict V) (k j : String) → get (remove m k) j ≡ (if k == j then none else get m j)
  unfolding get remove
  get-remove [] k j = ground arith
  get-remove ((i, w) ∷ m) k j = ground (arith, eq_iff k j, eq_iff i k, eq_iff i j, get-remove m k j)

  -- No key stands twice.
  abbrev pub IsMap : Dict V → Type ℓ
  IsMap [] = Unit
  IsMap ((k, _) ∷ m) = (get m k ≡ none) × IsMap m

  pub set-IsMap : (m : Dict V) (k : String) (v : V) → IsMap m → IsMap (set m k v)
  unfolding get set
  set-IsMap [] k v h = (refl, tt)
  set-IsMap ((j, w) ∷ m) k v (free, h) = elim (Bool-cases (j == k)) [
    | inl same ↦ rw same (free, h)
    | inr other ↦ rw other (
      get-set_other m k j v (λ e. ground (arith, eq_iff j k, eq_iff k j)) ∙ free,
      set-IsMap m k v h,
    )
  ]

  -- Writing what is there changes nothing.
  pub set-get : (m : Dict V) (k : String) (v : V) → get m k ≡ some v → set m k v ≡ m
  unfolding get set
  set-get [] k v e = cc
  set-get ((j, w) ∷ m) k v e = elim (Bool-cases (j == k)) [
    | inl same ↦ ground arith
    | inr other ↦ ground (arith, set-get m k v)
  ]

  -- What a search finds, it finds after a new key too.
  pub find-set_new :
      (f : V → Bool) (m : Dict V) (k : String) (v : V)
      → get m k ≡ none
      → is_some (find f (values m)) ≡ true
      → is_some (find f (values (set m k v))) ≡ true
  unfolding get values set
  find-set_new f [] k v free h = ground arith
  find-set_new f ((j, w) ∷ m) k v free h = elim (Bool-cases (j == k)) [
    | inl here ↦ ground arith
    | inr there ↦ elim (Bool-cases (f w)) [
      | inl fits ↦ ground arith
      | inr unfit ↦ ground (arith, find-set_new f m k v)
    ]
  ]

  -- And it finds something where the value of the new key fits.
  pub find-set_own :
      (f : V → Bool) (m : Dict V) (k : String) (v : V)
      → f v ≡ true
      → is_some (find f (values (set m k v))) ≡ true
  unfolding get values set
  find-set_own f [] k v h = ground arith
  find-set_own f ((j, w) ∷ m) k v h = elim (Bool-cases (j == k)) [
    | inl here ↦ ground arith
    | inr there ↦ elim (Bool-cases (f w)) [
      | inl fits ↦ ground arith
      | inr unfit ↦ ground (arith, find-set_own f m k v)
    ]
  ]

  module _ {κ} (P : String → V → Type κ) where
    abbrev pub AllEntries : Dict V → Type κ
    AllEntries [] = Unit
    AllEntries ((k, v) ∷ m) = P k v × AllEntries m

    pub get-AllEntries : (m : Dict V) (k : String) (v : V) → AllEntries m → get m k ≡ some v → P k v
    unfolding get
    get-AllEntries [] k v h e = cc
    get-AllEntries ((j, w) ∷ m) k v (p, h) e = elim (Bool-cases (j == k)) [
      | inl same ↦
          let is_v : some w ≡ some v = ground arith in
          let w_is_v : w ≡ v = cc in
          subst (λ x. P k x) w_is_v (subst (λ i. P i w) ((eq_iff j k).0 same) p)
      | inr other ↦ get-AllEntries m k v h (ground arith)
    ]

    pub set-AllEntries :
        (m : Dict V) (k : String) (v : V) → AllEntries m → P k v → AllEntries (set m k v)
    unfolding set
    set-AllEntries [] k v h p = (p, tt)
    set-AllEntries ((j, w) ∷ m) k v (q, h) p = elim (Bool-cases (j == k)) [
      | inl same ↦ rw same (subst (λ i. P i v) (sym ((eq_iff j k).0 same)) p, h)
      | inr other ↦ rw other (q, set-AllEntries m k v h p)
    ]
