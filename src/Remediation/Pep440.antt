-- ===== src/Remediation/Pep440.antt =====
-- parsePep440 and comparePep440. The regular expression ignores case, so the text is put into lower
-- case first; that changes none of its digits.
use ai_devsecops_command_cen.Remediation.Semver.{
  compare_release, compare_text, digits, segments, take_while, drop_while, number_of,
}
use ai_devsecops_command_cen.Common.Text.{after, codes, lower, value_from, is_digit}
use ai_devsecops_command_cen.Crypto.Splitting.{Text}
use ai_devsecops_command_cen.Common.{
  ℕ, Bool, true, false, Option, none, some, List, [], ◌∷◌, map, if◌then◌else◌, or_else, length,
}
use ai_devsecops_command_cen.Crypto.Parsing.{trim_left, trim_right, is_empty}
use Prim.Native.Nat.{compare, Ordering}
use ai_devsecops_command_cen.Common.Compare.{then_by}

pub data Phase : Type 0 where
  dev pre_release final post : Phase

pub record Pep440 : Type 0 where
  pub release : List ℕ
  pub phase : Phase
  pub phase_num : ℕ
  pub pre_tag : Option Text

abbrev pub read_tag : List Text → Text → Option (Text × Text)
read_tag [] cs = none
read_tag (tag ∷ tags) cs = elim (after tag cs) [
  | none ↦ read_tag tags cs
  | some rest ↦ some (tag, rest)
]

-- `(?:(a|b|rc)(\d*))?`, and what follows.
unfoldable pub tag_part : Text → Option (Text × ℕ) × Text
unfolding after take_while drop_while value_from
tag_part cs = elim (read_tag (codes "a" ∷ codes "b" ∷ codes "rc" ∷ []) cs) [
  | none ↦ (none, cs)
  | some (tag, rest) ↦ (some (tag, number_of (take_while is_digit rest)), drop_while is_digit rest)
]

-- `(?:\.post(\d+))?` and `(?:\.dev(\d+))?`, and what follows.
unfoldable pub marked_number : Text → Text → Option ℕ × Text
unfolding after digits
marked_number word cs = elim (after word cs) [
  | none ↦ (none, cs)
  | some rest ↦ elim (digits rest) [ none ↦ (none, cs) | some (k, left) ↦ (some k, left) ]
]

abbrev pub phase_of : List ℕ → Option (Text × ℕ) → Option ℕ → Option ℕ → Pep440
phase_of release tag posts (some n) = record {
  release = release;
  phase = dev;
  phase_num = n;
  pre_tag = none;
}
phase_of release (some (tag, n)) posts none = record {
  release = release;
  phase = pre_release;
  phase_num = n;
  pre_tag = some tag;
}
phase_of release none (some n) none = record {
  release = release;
  phase = post;
  phase_num = n;
  pre_tag = none;
}
phase_of release none none none = record {
  release = release;
  phase = final;
  phase_num = 0;
  pre_tag = none;
}

abbrev pub pep440_tail : List ℕ → Text → Option Pep440
pep440_tail release cs =
    let (tag, after_tag) = tag_part cs in
    let (posts, after_post) = marked_number (codes ".post") after_tag in
    let (devs, left) = marked_number (codes ".dev") after_post in
    if is_empty left then some (phase_of release tag posts devs) else none

-- A text has no more segments than characters.
unfoldable pub parse_pep440 : Text → Option Pep440
unfolding trim_left trim_right digits segments tag_part marked_number
parse_pep440 raw = elim (digits (map lower (trim_left (trim_right raw)))) [
  | none ↦ none
  | some (k, rest) ↦ let (ks, left) = segments (length rest) rest in pep440_tail (k ∷ ks) left
]

abbrev pub phase_number : Phase → ℕ
phase_number dev = 0
phase_number pre_release = 1
phase_number final = 2
phase_number post = 3

abbrev pub is_pre_release : Phase → Bool
is_pre_release pre_release = true
is_pre_release _ = false

abbrev pub compare_tag : Pep440 → Pep440 → Ordering
compare_tag a b =
    if is_pre_release a.phase
    then compare_text (or_else a.pre_tag []) (or_else b.pre_tag [])
    else Ordering.eq

unfoldable pub compare_pep440 : Pep440 → Pep440 → Ordering
unfolding compare_release compare_text
compare_pep440 a b = then_by (compare_release a.release b.release) (
    then_by (compare (phase_number a.phase) (phase_number b.phase))
      (then_by (compare_tag a b) (compare a.phase_num b.phase_num)))
