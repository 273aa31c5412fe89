-- ===== src/Remediation/Target.antt =====
-- The target of a group: the greatest of the least fixes, and the text that stands for it.
use ai_devsecops_command_cen.Remediation.Fixes.{eq_self, Le, Le-gt, Le_refl, Le-trans}
use ai_devsecops_command_cen.Remediation.MinFix.{AreLeast}
use ai_devsecops_command_cen.Remediation.Orders.{is_pep440}
use ai_devsecops_command_cen.Remediation.Propose.{
  RemediationFinding, is_target, raw_of, all_fixes, raise, raise_one, fixes_of, equals,
}
use ai_devsecops_command_cen.Remediation.Version.{
  Ecosystem, Version, parse_version, is_pypi, compare_versions,
}
use ai_devsecops_command_cen.Common.{
  ℕ, String, ◌≡◌, refl, sym, ◌∙◌, ◌⊎◌, inl, inr, Bool, true, false, Option, some, List, [], ◌∷◌,
  Bool-cases, Option-cases, or_else, find, Any-map, All, Any, Any-left, Any-right,
}
use ai_devsecops_command_cen.Common.Compare.{is_gt, is_eq}
use mathlib.Core.Path.{subst}

module _ (eco : Ecosystem) (current : Version) (ours : is_pep440 current ≡ is_pypi eco) where
  abbrev AreOurs : List Version → Type 0
  AreOurs vs = All (λ v. is_pep440 v ≡ is_pypi eco) vs

  abbrev IsOurs : Version → Type 0
  IsOurs v = is_pep440 v ≡ is_pypi eco

  abbrev at_now : Option Version → Version
  at_now t = or_else t current

  raise_one-facts :
      (t : Option Version) (v : Version)
      → IsOurs (at_now t)
      → IsOurs v
      → IsOurs (at_now (raise_one current t v))
        × Le (at_now t) (at_now (raise_one current t v))
        × Le v (at_now (raise_one current t v))
        × ((u : Version) → Le (at_now t) u → Le v u → Le (at_now (raise_one current t v)) u)
  unfolding raise_one
  raise_one-facts t v p q = elim (Bool-cases (is_gt (compare_versions v (at_now t)))) [
    | inl e ↦ rw e (q, Le-gt v (at_now t) e, Le_refl v, λ u h k. k)
    | inr e ↦ rw e (p, Le_refl (at_now t), e, λ u h k. h)
  ]

  -- The target is not below the versions that it was raised by, and the least such.
  pub raise-facts :
      (t : Option Version) (vs : List Version)
      → IsOurs (at_now t)
      → AreOurs vs
      → IsOurs (at_now (raise current t vs))
        × Le (at_now t) (at_now (raise current t vs))
        × All (λ v. Le v (at_now (raise current t vs))) vs
        × ((u : Version)
            → Le (at_now t) u
            → All (λ v. Le v u) vs
            → Le (at_now (raise current t vs)) u)
  unfolding raise
  raise-facts t [] p q = (p, Le_refl (at_now t), tt, λ u h k. h)
  raise-facts t (v ∷ vs) p (q, qs) =
      let s = raise_one current t v in
      let (o, le, of_v, least) = raise_one-facts t v p q in
      let (o', le', all_vs, least') = raise-facts s vs o qs in
      let r = at_now (raise current s vs) in
      (
        o',
        Le-trans (at_now t) (at_now s) r (p ∙ sym o) (o ∙ sym o') le le',
        (Le-trans v (at_now s) r (q ∙ sym o) (o ∙ sym o') of_v le', all_vs),
        λ u h (k, ks). least' u (least u h k) ks,
      )

  raise_one-some :
      (t : Option Version) (v w : Version) → raise_one current t v ≡ some w → (t ≡ some w) ⊎ (v ≡ w)
  unfolding raise_one
  raise_one-some t v w e = elim (Bool-cases (is_gt (compare_versions v (at_now t)))) [
    | inl g ↦ let same : some v ≡ some w = rw g at e in inr cc
    | inr g ↦ inl (rw g at e)
  ]

  -- It is one of them.
  pub raise-some :
      (t : Option Version) (vs : List Version) (w : Version)
      → raise current t vs ≡ some w
      → (t ≡ some w) ⊎ Any (λ v. v ≡ w) vs
  unfolding raise
  raise-some t [] w e = inl e
  raise-some t (v ∷ vs) w e = elim (raise-some (raise_one current t v) vs w e) [
    | inl h ↦ elim (raise_one-some t v w h) [ inl k ↦ inl k | inr k ↦ inr (inl k) ]
    | inr h ↦ inr (inr h)
  ]

find-some :
    {A : Type 0} (p : A → Bool) (xs : List A)
    → Any (λ x. p x ≡ true) xs
    → (x : A) × (find p xs ≡ some x) × (p x ≡ true)
find-some p [] h = elim h [ ]
find-some p (x ∷ xs) h = elim (Bool-cases (p x)) [
  | inl e ↦ rw e (x, refl, e)
  | inr e ↦ rw e (find-some p xs (later e h))
]
  where
    later : p x ≡ false → Any (λ y. p y ≡ true) (x ∷ xs) → Any (λ y. p y ≡ true) xs
    later e (inl k) = cc
    later e (inr k) = k

module _ (eco : Ecosystem) (current : Version) where
  -- A least fix stands among the fixes of the group.
  pub fix-all_fixes :
      (fs : List RemediationFinding) (vs : List Version) (w : Version)
      → AreLeast eco current fs vs
      → Any (λ v. v ≡ w) vs
      → Any (λ raw. parse_version eco raw ≡ some w) (all_fixes fs)
  fix-all_fixes [] [] w h a = elim a [ ]
  fix-all_fixes [] (v ∷ vs) w h a = elim h [ ]
  fix-all_fixes (f ∷ fs) [] w h a = elim a [ ]
  fix-all_fixes (f ∷ fs) (v ∷ vs) w (h, hs) (inl e) =
      Any-left _ (fixes_of f) (all_fixes fs)
        (subst (λ x. Any (λ raw. parse_version eco raw ≡ some x) (fixes_of f)) e h.0.0)
  fix-all_fixes (f ∷ fs) (v ∷ vs) w (h, hs) (inr a) =
      Any-right _ (fixes_of f) (all_fixes fs) (fix-all_fixes fs vs w hs a)

  is_target-own :
      (w : Version) (raw : String) → parse_version eco raw ≡ some w → is_target eco w raw ≡ true
  is_target-own w raw e = rw (e, equals) (eq_self w)

  is_target-parses :
      (w : Version) (raw : String)
      → is_target eco w raw ≡ true
      → (v : Version) × (parse_version eco raw ≡ some v) × (is_eq (compare_versions v w) ≡ true)
  is_target-parses w raw h = elim (Option-cases (parse_version eco raw)) [
    | inl e ↦ let impossible : false ≡ true = rw (e, equals) at h in cc
    | inr (v, e) ↦ (v, e, rw (e, equals) at h)
  ]

  -- The text that stands for a target parses to a version that is equal to it.
  pub raw_of-parses :
      (show : ℕ → String) (w : Version) (fs : List RemediationFinding)
      → Any (λ raw. parse_version eco raw ≡ some w) (all_fixes fs)
      → (v : Version) × (parse_version eco (raw_of show w fs eco) ≡ some v)
        × (is_eq (compare_versions v w) ≡ true)
  unfolding raw_of
  raw_of-parses show w fs a =
      let (raw, e, hit) =
        find-some (is_target eco w) (all_fixes fs) (Any-map (is_target-own w) (all_fixes fs) a) in
      rw e (is_target-parses w raw hit)
