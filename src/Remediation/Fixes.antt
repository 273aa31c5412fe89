-- ===== src/Remediation/Fixes.antt =====
-- The order of the versions of one ecosystem, and the least fix of a finding.
use ai_devsecops_command_cen.Common.{sym, Option, none, All-map}
use ai_devsecops_command_cen.Remediation.Orders.{
  is_pep440, compare_versions-Agrees, compare_versions-flips,
}
use ai_devsecops_command_cen.Remediation.Propose.{fix_candidates, keep}
use ai_devsecops_command_cen.Remediation.Version.{
  Ecosystem, Version, compare_versions, parse_version,
}
use ai_devsecops_command_cen.Common.{
  String, ◌≡◌, refl, inl, inr, true, false, some, List, [], ◌∷◌, arith, Bool-cases, All, Any,
}
use Prim.Native.Nat.{Ordering}
use ai_devsecops_command_cen.Common.Compare.{Agrees, flip, is_lt, is_gt, is_eq}
use mathlib.Core.Path.{subst}

-- One version is not above another.
abbrev pub Le : Version → Version → Type 0
Le v w = is_gt (compare_versions v w) ≡ false

not_gt_of_Agrees :
    (o p q : Ordering) → Agrees o p q → is_gt o ≡ false → is_gt p ≡ false → is_gt q ≡ false
not_gt_of_Agrees Ordering.eq p q a h k = rw a k
not_gt_of_Agrees Ordering.lt Ordering.eq q a h k = rw a refl
not_gt_of_Agrees Ordering.lt Ordering.lt q a h k = rw a refl
not_gt_of_Agrees Ordering.lt Ordering.gt q a h k = absurd (ground arith)
not_gt_of_Agrees Ordering.gt p q a h k = absurd (ground arith)

pub Le-trans :
    (v w u : Version)
    → is_pep440 v ≡ is_pep440 w
    → is_pep440 w ≡ is_pep440 u
    → Le v w
    → Le w u
    → Le v u
Le-trans v w u p q h k = not_gt_of_Agrees _ _ _ (compare_versions-Agrees v w u p q) h k

not_gt_flip : (o : Ordering) → is_lt o ≡ false → is_gt (flip o) ≡ false
not_gt_flip Ordering.lt h = cc
not_gt_flip Ordering.eq h = refl
not_gt_flip Ordering.gt h = refl

pub Le-not_lt : (v w : Version) → is_lt (compare_versions v w) ≡ false → Le w v
Le-not_lt v w h = rw (compare_versions-flips v w) (not_gt_flip _ h)

not_lt_flip : (o : Ordering) → is_gt o ≡ false → is_lt (flip o) ≡ false
not_lt_flip Ordering.lt h = refl
not_lt_flip Ordering.eq h = refl
not_lt_flip Ordering.gt h = cc

pub not_lt-Le : (v w : Version) → Le w v → is_lt (compare_versions v w) ≡ false
not_lt-Le v w h = rw (compare_versions-flips w v) (not_lt_flip _ h)

gt_flip : (o : Ordering) → is_gt o ≡ true → is_gt (flip o) ≡ false
gt_flip Ordering.lt h = cc
gt_flip Ordering.eq h = cc
gt_flip Ordering.gt h = refl

pub Le-gt : (v w : Version) → is_gt (compare_versions v w) ≡ true → Le w v
Le-gt v w h = rw (compare_versions-flips v w) (gt_flip _ h)

own_flip : (o : Ordering) → o ≡ flip o → is_eq o ≡ true
own_flip Ordering.lt h = cc
own_flip Ordering.eq h = refl
own_flip Ordering.gt h = cc

pub eq_self : (v : Version) → is_eq (compare_versions v v) ≡ true
eq_self v = own_flip _ (compare_versions-flips v v)

eq_both : (o : Ordering) → is_eq o ≡ true → (is_gt o ≡ false) × (is_gt (flip o) ≡ false)
eq_both Ordering.lt h = cc
eq_both Ordering.eq h = (refl, refl)
eq_both Ordering.gt h = cc

pub Le-eq : (v w : Version) → is_eq (compare_versions v w) ≡ true → Le v w × Le w v
Le-eq v w h = rw (compare_versions-flips v w) (eq_both _ h)

pub Le_refl : (v : Version) → Le v v
Le_refl v = (Le-eq v v (eq_self v)).0

keep-All :
    (P : Version → Type 0) (current : Version) (o : Option Version) (rest : List Version)
    → ((v : Version) → o ≡ some v → Le current v → P v)
    → All P rest
    → All P (keep current o rest)
unfolding keep
keep-All P current none rest f h = h
keep-All P current (some v) rest f h = elim (Bool-cases (is_lt (compare_versions v current))) [
  | inl low ↦ rw (low, All) h
  | inr high ↦ rw (high, All) (f v refl (Le-not_lt v current high), h)
]

keep-Any :
    (P : Version → Type 0) (current : Version) (o : Option Version) (rest : List Version)
    → Any P rest
    → Any P (keep current o rest)
unfolding keep
keep-Any P current none rest h = h
keep-Any P current (some v) rest h = elim (Bool-cases (is_lt (compare_versions v current))) [
  | inl low ↦ rw (low, Any) h
  | inr high ↦ rw (high, Any) (inr h)
]

keep_own :
    (current w : Version) (rest : List Version)
    → Le current w
    → Any (λ v. v ≡ w) (keep current (some w) rest)
unfolding keep
keep_own current w rest h = rw (not_lt-Le w current h, Any) (inl refl)

module _ (eco : Ecosystem) (current : Version) where
  -- A version is a fix of a finding, at or above the current one.
  abbrev pub IsFix : List String → Version → Type 0
  IsFix raws w = Any (λ raw. parse_version eco raw ≡ some w) raws × Le current w

  pub fix_candidates-IsFix :
      (raws : List String) → All (IsFix raws) (fix_candidates eco current raws)
  unfolding fix_candidates
  fix_candidates-IsFix [] = tt
  fix_candidates-IsFix (raw ∷ raws) =
      keep-All (IsFix (raw ∷ raws)) current (parse_version eco raw) _ (λ v e le. (inl e, le))
        (All-map (λ v (a, le). (inr a, le)) _ (fix_candidates-IsFix raws))

  pub fix-candidates :
      (raws : List String) (w : Version)
      → IsFix raws w
      → Any (λ v. v ≡ w) (fix_candidates eco current raws)
  unfolding fix_candidates
  fix-candidates [] w (a, le) = elim a [ ]
  fix-candidates (raw ∷ raws) w (inl e, le) =
      subst (λ o. Any (λ v. v ≡ w) (keep current o (fix_candidates eco current raws))) (sym e)
        (keep_own current w _ le)
  fix-candidates (raw ∷ raws) w (inr a, le) =
      keep-Any _ current (parse_version eco raw) _ (fix-candidates raws w (a, le))
