-- ===== src/Remediation/SemverOrder.antt =====
-- The comparisons of texts, of pre-release identifiers and of semantic versions as orders.
use ai_devsecops_command_cen.Remediation.Semver.{
  compare_identifier, compare_pre, compare_pre_identifiers, compare_release, compare_semver,
  compare_text, is_numeric, number_of,
}
use ai_devsecops_command_cen.Crypto.Splitting.{Text}
use ai_devsecops_command_cen.Common.{
  ◌≡◌, refl, inl, inr, Bool, true, false, Option, none, some, List, arith, Bool-cases,
}
use Prim.Native.Nat.{compare, Ordering}
use ai_devsecops_command_cen.Common.Compare.{
  IsOrder, Agrees, flip, Agrees-gt_left, compare-IsOrder, compare_lists-IsOrder,
  compare_padded-IsOrder, then_by-IsOrder, Agrees-lt_right, by_key-IsOrder, Agrees-lt, Agrees-gt,
}

pub compare_text-IsOrder : IsOrder compare_text
unfolding compare_text
compare_text-IsOrder = compare_lists-IsOrder compare compare-IsOrder

identifier-flips : (a b : Text) → compare_identifier b a ≡ flip (compare_identifier a b)
unfolding compare_identifier
identifier-flips a b = elim (Bool-cases (is_numeric a)) [
  | inl p ↦ elim (Bool-cases (is_numeric b)) [
    | inl q ↦ rw (p, q) (compare-IsOrder.flips (number_of a) (number_of b))
    | inr q ↦ rw (p, q) refl
  ]
  | inr p ↦ elim (Bool-cases (is_numeric b)) [
    | inl q ↦ rw (p, q) refl
    | inr q ↦ rw (p, q) (compare_text-IsOrder.flips a b)
  ]
]

-- How two identifiers compare, once it is known which of them are numbers.
abbrev by_kind : Bool → Bool → Text → Text → Ordering
by_kind true true a b = compare (number_of a) (number_of b)
by_kind true false a b = Ordering.lt
by_kind false true a b = Ordering.gt
by_kind false false a b = compare_text a b

by_kind-Agrees :
    (p q r : Bool) (a b c : Text) → Agrees (by_kind p q a b) (by_kind q r b c) (by_kind p r a c)
by_kind-Agrees true true true a b c =
    compare-IsOrder.agrees (number_of a) (number_of b) (number_of c)
by_kind-Agrees true true false a b c = Agrees-lt_right (compare (number_of a) (number_of b))
by_kind-Agrees true false true a b c = tt
by_kind-Agrees true false false a b c = Agrees-lt (compare_text b c)
by_kind-Agrees false true true a b c = Agrees-gt_left (compare (number_of b) (number_of c))
by_kind-Agrees false true false a b c = tt
by_kind-Agrees false false true a b c = Agrees-gt (compare_text a b)
by_kind-Agrees false false false a b c = compare_text-IsOrder.agrees a b c

compare_identifier-by_kind :
    (a b : Text) → compare_identifier a b ≡ by_kind (is_numeric a) (is_numeric b) a b
unfolding compare_identifier
compare_identifier-by_kind a b = ground arith

compare_identifier-IsOrder : IsOrder compare_identifier
compare_identifier-IsOrder = record {
  flips = identifier-flips;
  agrees = λ a b c.
      rw
        (
          compare_identifier-by_kind a b,
          compare_identifier-by_kind b c,
          compare_identifier-by_kind a c,
        )
        (by_kind-Agrees (is_numeric a) (is_numeric b) (is_numeric c) a b c);
}

pre_identifiers-IsOrder : IsOrder compare_pre_identifiers
unfolding compare_pre_identifiers
pre_identifiers-IsOrder = compare_lists-IsOrder compare_identifier compare_identifier-IsOrder

pub compare_release-IsOrder : IsOrder compare_release
unfolding compare_release
compare_release-IsOrder = compare_padded-IsOrder compare compare-IsOrder 0

pre-flips : (p q : Option (List Text)) → compare_pre q p ≡ flip (compare_pre p q)
unfolding compare_pre
pre-flips none none = refl
pre-flips none (some q) = refl
pre-flips (some p) none = refl
pre-flips (some p) (some q) = pre_identifiers-IsOrder.flips p q

pre-Agrees :
    (p q r : Option (List Text)) → Agrees (compare_pre p q) (compare_pre q r) (compare_pre p r)
unfolding compare_pre
pre-Agrees none none r = refl
pre-Agrees none (some q) none = tt
pre-Agrees none (some q) (some r) = Agrees-gt_left (compare_pre_identifiers q r)
pre-Agrees (some p) none none = refl
pre-Agrees (some p) none (some r) = tt
pre-Agrees (some p) (some q) none = Agrees-lt_right (compare_pre_identifiers p q)
pre-Agrees (some p) (some q) (some r) = pre_identifiers-IsOrder.agrees p q r

pub compare_semver-IsOrder : IsOrder compare_semver
unfolding compare_semver
compare_semver-IsOrder =
    then_by-IsOrder (by_key-IsOrder (λ a. a.release) compare_release-IsOrder)
      (by_key-IsOrder (λ a. a.pre) (record { flips = pre-flips; agrees = pre-Agrees }))
