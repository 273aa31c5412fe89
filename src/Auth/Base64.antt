-- ===== src/Auth/Base64.antt =====
-- b64url and b64urlDecode, over the base64 of `Buffer`.
use ai_devsecops_command_cen.Common.{sym, ◌∙◌, inl, inr, Bool-cases}
use ai_devsecops_command_cen.Common.{
  ℕ, zero, suc, ◌+◌, ◌-◌, ◌%◌, ◌≤◌, ◌≡◌, refl, ap, Bool, true, false, ◌&&◌, ◌||◌, List, [], ◌∷◌,
  ◌++◌, map, arith, leb, eqb, if◌then◌else◌, length, all,
}
use ai_devsecops_command_cen.Crypto.Splitting.{Text, without}

abbrev pub swap_char : ℕ → ℕ → ℕ → ℕ
swap_char from to c = if eqb c from then to else c

-- `replace(/=+$/, '')`.
unfoldable pub strip_padding : Text → Text
strip_padding [] = []
strip_padding (c ∷ cs) =
    let rest = strip_padding cs in if eqb c b'=' && eqb (length rest) 0 then [] else c ∷ rest

abbrev pub to_url : ℕ → ℕ
to_url c = swap_char b'/' b'_' (swap_char b'+' b'-' c)

abbrev pub from_url : ℕ → ℕ
from_url c = swap_char b'_' b'/' (swap_char b'-' b'+' c)

abbrev pub times : ℕ → ℕ → Text
times zero c = []
times (suc n) c = c ∷ times n c

-- `pad`.
abbrev pub padding : Text → Text
padding s = if eqb (length s % 4) 0 then [] else times (4 - length s % 4) b'='

-- The alphabet of base64.
abbrev pub is_base64 : ℕ → Bool
is_base64 c =
    (leb b'A' c && leb c b'Z')
    || ((leb b'a' c && leb c b'z') || ((leb b'0' c && leb c b'9') || (eqb c b'+' || eqb c b'/')))

-- What base64 gives for a text: a body and up to two `=`, a multiple of four together.
pub record IsPadded (s : Text) : Type 0 where
  pub body : Text
  pub pads : ℕ
  pub shape : s ≡ body ++ times pads b'='
  pub few : pads ≤ 2
  pub whole : (length body + pads) % 4 ≡ 0
  pub alphabet : all (λ c. is_base64 c) body ≡ true

-- `Buffer.from(...).toString('base64')` and back, with UTF-8, are the arguments.
unfoldable pub b64url : (Text → Text) → Text → Text
unfolding strip_padding
b64url to_base64 s = strip_padding (map to_url (to_base64 s))

unfoldable pub b64url_decode : (Text → Text) → Text → Text
b64url_decode from_base64 s = from_base64 (map from_url s ++ padding s)

strip_padding-times : (pads : ℕ) → strip_padding (times pads b'=') ≡ []
unfolding strip_padding
strip_padding-times zero = refl
strip_padding-times (suc n) = rw (strip_padding-times n) refl

-- Only the padding is stripped off.
strip_padding-append :
    (s : Text) (pads : ℕ) → without b'=' s ≡ true → strip_padding (s ++ times pads b'=') ≡ s
unfolding strip_padding
strip_padding-append [] pads h = strip_padding-times pads
strip_padding-append (c ∷ s) pads h =
    let other : eqb c b'=' ≡ false = ground arith in
    rw (strip_padding-append s pads (ground arith), other) refl

from_url-to_url : (c : ℕ) → is_base64 c ≡ true → from_url (to_url c) ≡ c
from_url-to_url c h = ground arith

module _ {A B C : Type 0} (f : A → B) (g : B → C) where
  map-map : (xs : List A) → map g (map f xs) ≡ map (λ x. g (f x)) xs
  map-map [] = refl
  map-map (x ∷ xs) = ap (λ ys. g (f x) ∷ ys) (map-map xs)

map-append : (f : ℕ → ℕ) (xs ys : Text) → map f (xs ++ ys) ≡ map f xs ++ map f ys
map-append f [] ys = refl
map-append f (x ∷ xs) ys = ap (λ zs. f x ∷ zs) (map-append f xs ys)

map-times : (n : ℕ) → map to_url (times n b'=') ≡ times n b'='
map-times zero = refl
map-times (suc n) = ap (λ zs. b'=' ∷ zs) (map-times n)

map-length : (f : ℕ → ℕ) (xs : Text) → length (map f xs) ≡ length xs
map-length f [] = refl
map-length f (x ∷ xs) = ap suc (map-length f xs)

url_back : (s : Text) → all (λ c. is_base64 c) s ≡ true → map from_url (map to_url s) ≡ s
url_back [] h = refl
url_back (c ∷ s) h =
    let head = from_url-to_url c (ground arith) in
    let rest = url_back s (ground arith) in λ i. head i ∷ rest i

url_clean :
    (s : Text)
    → all (λ c. is_base64 c) s ≡ true
    → (without b'=' (map to_url s) ≡ true) × (without b'.' (map to_url s) ≡ true)
url_clean [] h = (refl, refl)
url_clean (c ∷ s) h = let (a, b) = url_clean s (ground arith) in (ground arith, ground arith)

padding_back :
    (s : Text) (pads : ℕ) → pads ≤ 2 → (length s + pads) % 4 ≡ 0 → padding s ≡ times pads b'='
padding_back s pads few whole = elim (Bool-cases (eqb (length s % 4) 0)) [
  | inl t ↦
      let full : length s % 4 ≡ 0 = ground arith in
      let none_missing : pads ≡ 0 = omega arith in rw (t, none_missing) refl
  | inr t ↦
      let part : 1 ≤ length s % 4 = ground arith in
      let missing : pads ≡ 4 - length s % 4 = omega arith in rw (t, missing) refl
]

url_stripped : (s : Text) (h : IsPadded s) → strip_padding (map to_url s) ≡ map to_url h.body
url_stripped s h =
    ap (λ x. strip_padding (map to_url x)) h.shape
    ∙ ap strip_padding (
        map-append to_url h.body (times h.pads b'=')
        ∙ ap (λ p. map to_url h.body ++ p) (map-times h.pads))
    ∙ strip_padding-append (map to_url h.body) h.pads (url_clean h.body h.alphabet).0

-- What `b64urlDecode` is given after `b64url`: the base64 text, its padding put back.
padded_back :
    (s : Text)
    → IsPadded s
    → map from_url (strip_padding (map to_url s)) ++ padding (strip_padding (map to_url s)) ≡ s
padded_back s h =
    let back = url_back h.body h.alphabet in
    let pad =
      padding_back (map to_url h.body) h.pads h.few
        (ap (λ n. (n + h.pads) % 4) (map-length to_url h.body) ∙ h.whole) in
    ap (λ x. map from_url x ++ padding x) (url_stripped s h) ∙ (λ i. back i ++ pad i) ∙ sym h.shape

pub b64url-dotless :
    (to_base64 : Text → Text) (s : Text)
    → IsPadded (to_base64 s)
    → without b'.' (b64url to_base64 s) ≡ true
unfolding b64url
b64url-dotless to_base64 s h =
    ap (λ x. without b'.' x) (url_stripped (to_base64 s) h) ∙ (url_clean h.body h.alphabet).1

-- Where base64 pads its texts and gives them back, so does its form for URLs.
pub b64url_decode-b64url :
    (to_base64 from_base64 : Text → Text) (s : Text)
    → IsPadded (to_base64 s)
    → from_base64 (to_base64 s) ≡ s
    → b64url_decode from_base64 (b64url to_base64 s) ≡ s
unfolding b64url b64url_decode
b64url_decode-b64url to_base64 from_base64 s h back =
    ap from_base64 (padded_back (to_base64 s) h) ∙ back
