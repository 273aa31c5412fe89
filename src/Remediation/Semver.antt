-- ===== src/Remediation/Semver.antt =====
-- parseSemver, comparePreIdentifiers and compareSemver. `trim` and the regular expressions are walked
-- by hand; a group that is there is always taken, since nothing else of the expression can stand in
-- its place.
use ai_devsecops_command_cen.Common.Text.{is_digit, split_on, value_from}
use ai_devsecops_command_cen.Crypto.Splitting.{Text}
use ai_devsecops_command_cen.Common.{
  ℕ, zero, suc, Bool, true, not, ◌&&◌, ◌||◌, Option, none, some, List, [], ◌∷◌, leb, eqb,
  if◌then◌else◌, all,
}
use ai_devsecops_command_cen.Crypto.Parsing.{trim_left, trim_right, is_empty}
use Prim.Native.Nat.{compare, Ordering}
use ai_devsecops_command_cen.Common.Compare.{compare_lists, compare_padded, then_by}

pub record Semver : Type 0 where
  pub release : List ℕ
  pub pre : Option (List Text)

unfoldable pub take_while : (ℕ → Bool) → Text → Text
take_while p [] = []
take_while p (c ∷ cs) = let rest = take_while p cs in if p c then c ∷ rest else []

unfoldable pub drop_while : (ℕ → Bool) → Text → Text
drop_while p [] = []
drop_while p (c ∷ cs) = let rest = drop_while p cs in if p c then rest else c ∷ cs

-- `Number` of digits.
abbrev pub number_of : Text → ℕ
number_of cs = value_from 10 0 cs

-- `(\d+)`, and what follows.
unfoldable pub digits : Text → Option (ℕ × Text)
unfolding take_while drop_while value_from
digits cs =
    if is_empty (take_while is_digit cs)
    then none
    else some (number_of (take_while is_digit cs), drop_while is_digit cs)

abbrev pub after_dot : Text → Option (ℕ × Text)
after_dot [] = none
after_dot (c ∷ cs) = if eqb c b'.' then digits cs else none

-- `(?:\.(\d+))?`, as often as it is there but at most a number of times.
unfoldable pub segments : ℕ → Text → List ℕ × Text
unfolding digits
segments zero cs = ([], cs)
segments (suc n) cs = elim (after_dot cs) [
  | none ↦ ([], cs)
  | some (k, rest) ↦ let (ks, left) = segments n rest in (k ∷ ks, left)
]

-- `[0-9A-Za-z.-]`.
abbrev pub is_tag_char : ℕ → Bool
is_tag_char c =
    is_digit c
    || ((leb b'A' c && leb c b'Z') || ((leb b'a' c && leb c b'z') || (eqb c b'.' || eqb c b'-')))

-- `(?:\+[0-9A-Za-z.-]+)?$`.
abbrev pub is_build : Text → Bool
is_build [] = true
is_build (c ∷ cs) = eqb c b'+' && (not (is_empty cs) && all is_tag_char cs)

abbrev pub with_pre : List ℕ → Text → Text → Option Semver
with_pre release tag rest =
    if not (is_empty tag) && is_build rest
    then some (record { release = release; pre = some (split_on b'.' tag) })
    else none

-- `(?:-([0-9A-Za-z.-]+))?` and the rest.
unfoldable pub semver_tail : List ℕ → Text → Option Semver
unfolding take_while drop_while split_on
semver_tail release [] = some (record { release = release; pre = none })
semver_tail release (c ∷ cs) =
    if eqb c b'-'
    then with_pre release (take_while is_tag_char cs) (drop_while is_tag_char cs)
    else if is_build (c ∷ cs)
    then some (record { release = release; pre = none })
    else none

abbrev pub strip_v : Text → Text
strip_v [] = []
strip_v (c ∷ cs) = if eqb c b'v' then cs else c ∷ cs

unfoldable pub parse_semver : Text → Option Semver
unfolding trim_left trim_right digits segments semver_tail
parse_semver raw = elim (digits (strip_v (trim_left (trim_right raw)))) [
  | none ↦ none
  | some (k, rest) ↦ let (ks, left) = segments 3 rest in semver_tail (k ∷ ks) left
]

-- `/^\d+$/`.
abbrev pub is_numeric : Text → Bool
is_numeric cs = not (is_empty cs) && all is_digit cs

-- `<` on texts.
unfoldable pub compare_text : Text → Text → Ordering
unfolding compare_lists
compare_text = compare_lists compare

unfoldable pub compare_identifier : Text → Text → Ordering
unfolding compare_text value_from
compare_identifier a b =
    if is_numeric a
    then (if is_numeric b then compare (number_of a) (number_of b) else Ordering.lt)
    else if is_numeric b
    then Ordering.gt
    else compare_text a b

unfoldable pub compare_pre_identifiers : List Text → List Text → Ordering
unfolding compare_identifier compare_lists
compare_pre_identifiers = compare_lists compare_identifier

-- A release comes after its own pre-releases.
unfoldable pub compare_pre : Option (List Text) → Option (List Text) → Ordering
unfolding compare_pre_identifiers
compare_pre none none = Ordering.eq
compare_pre none (some q) = Ordering.gt
compare_pre (some p) none = Ordering.lt
compare_pre (some p) (some q) = compare_pre_identifiers p q

unfoldable pub compare_release : List ℕ → List ℕ → Ordering
unfolding compare_padded
compare_release = compare_padded compare 0

unfoldable pub compare_semver : Semver → Semver → Ordering
unfolding compare_release compare_pre
compare_semver a b = then_by (compare_release a.release b.release) (compare_pre a.pre b.pre)
