-- ===== src/Ssrf/Classify.antt =====
-- The classes of IP literals. A host is its list of code points.
use ai_devsecops_command_cen.Common.{
  ℕ, ◌/◌, ◌%◌, String, Bool, false, ◌&&◌, ◌||◌, Option, none, some, List, [], ◌∷◌, ◌++◌, map,
  if◌then◌else◌, leb, eqb, all, length,
}
use ai_devsecops_command_cen.Common.Text.{
  codes, text_eq, is_digit, is_hex, split_on, after, decimal, value_from, lower,
}

pub data IpClass : Type 0 where
  loopback link_local metadata private public : IpClass

-- What `isIP` answers.
pub data IpVersion : Type 0 where
  v4 v6 : IpVersion

-- `Number` on a part: the callers pass digits; anything else is not an integer. An empty part is 0.
abbrev pub octet : List ℕ → Option ℕ
octet part =
    if all is_digit part
    then (let n = value_from 10 0 part in if leb n 255 then some n else none)
    else none

-- The test of the four parts.
abbrev pub four : List (List ℕ) → Option (ℕ × ℕ)
four (a ∷ b ∷ c ∷ d ∷ []) = elim (octet a) [
  | none ↦ none
  | some m ↦ elim (octet b) [
    | none ↦ none
    | some n ↦ elim (octet c) [
      | none ↦ none
      | some _ ↦ elim (octet d) [ none ↦ none | some _ ↦ some (m, n) ]
    ]
  ]
]
four _ = none

-- The first two octets, which are all that the classes look at, if there are four.
unfoldable pub ipv4_octets : List ℕ → Option (ℕ × ℕ)
ipv4_octets host = four (split_on b'.' host)

unfoldable pub class_of_octets : Bool → ℕ → ℕ → IpClass
class_of_octets is_alibaba a b =
    if eqb a 0
    then loopback
    else if eqb a 127
    then loopback
    else if eqb a 169 && eqb b 254
    then link_local
    else if is_alibaba
    then metadata
    else if eqb a 100 && (leb 64 b && leb b 127)
    then private
    else if eqb a 10
    then private
    else if eqb a 172 && (leb 16 b && leb b 31)
    then private
    else if eqb a 192 && eqb b 168
    then private
    else public

unfoldable pub classify_ipv4 : List ℕ → IpClass
classify_ipv4 host = elim (ipv4_octets host) [
  | none ↦ public
  | some (a, b) ↦ class_of_octets (text_eq host (codes "100.100.100.200")) a b
]

-- `host.replace(/^\[|\]$/g, '')`.
abbrev pub drop_open : List ℕ → List ℕ
drop_open [] = []
drop_open (c ∷ cs) = if eqb c b'[' then cs else c ∷ cs

unfoldable pub drop_close : List ℕ → List ℕ
drop_close [] = []
drop_close (c ∷ []) = if eqb c b']' then [] else c ∷ []
drop_close (c ∷ d ∷ cs) = c ∷ drop_close (d ∷ cs)

abbrev pub strip_brackets : List ℕ → List ℕ
strip_brackets host = drop_close (drop_open host)

abbrev pub normalize_ipv6 : List ℕ → List ℕ
normalize_ipv6 host = map lower (strip_brackets host)

abbrev pub is_number : List ℕ → Bool
is_number part = leb 1 (length part) && all is_digit part

-- `\d+\.\d+\.\d+\.\d+`, whole.
abbrev pub is_dotted_parts : List (List ℕ) → Bool
is_dotted_parts (a ∷ b ∷ c ∷ d ∷ []) = is_number a && (is_number b && (is_number c && is_number d))
is_dotted_parts _ = false

abbrev pub is_group : List ℕ → Bool
is_group part = leb 1 (length part) && (leb (length part) 4 && all is_hex part)

-- The dotted text of the two groups of 16 bits.
unfoldable pub dotted : ℕ → ℕ → List ℕ
dotted hi lo =
    decimal (hi / 256)
    ++ (b'.' ∷ (decimal (hi % 256) ++ (b'.' ∷ (decimal (lo / 256) ++ (b'.' ∷ decimal (lo % 256))))))

-- `([0-9a-f]{1,4}):([0-9a-f]{1,4})`, whole.
abbrev pub two_groups : List (List ℕ) → Option (List ℕ)
two_groups (a ∷ b ∷ []) =
    if is_group a && is_group b then some (dotted (value_from 16 0 a) (value_from 16 0 b)) else none
two_groups _ = none

-- The end of the pattern, behind the prefix.
unfoldable pub carried : List ℕ → Option (List ℕ)
carried rest =
    if is_dotted_parts (split_on b'.' rest) then some rest else two_groups (split_on b':' rest)

abbrev pub behind : String → List ℕ → Option (List ℕ)
behind prefix h = elim (after (codes prefix) h) [ none ↦ none | some rest ↦ carried rest ]

-- The prefixes in the order of the pattern.
unfoldable pub embedded_ipv4 : List ℕ → Option (List ℕ)
embedded_ipv4 h = elim (behind "::ffff:" h) [
  | some v ↦ some v
  | none ↦ elim (behind "::" h) [ some v ↦ some v | none ↦ behind "64:ff9b::" h ]
]

-- `/^fe[89ab][0-9a-f]:/` and `/^f[cd][0-9a-f]{2}:/`.
abbrev pub is_link_local6 : List ℕ → Bool
is_link_local6 (f ∷ e ∷ x ∷ y ∷ c ∷ _) =
    eqb f b'f'
    && (eqb e b'e'
        && ((eqb x b'8' || (eqb x b'9' || (eqb x b'a' || eqb x b'b'))) && (is_hex y && eqb c b':')))
is_link_local6 _ = false

abbrev pub is_unique_local : List ℕ → Bool
is_unique_local (f ∷ d ∷ x ∷ y ∷ c ∷ _) =
    eqb f b'f' && ((eqb d b'c' || eqb d b'd') && (is_hex x && (is_hex y && eqb c b':')))
is_unique_local _ = false

-- The classes of an address that carries no IPv4 address.
unfoldable pub class_of_v6 : List ℕ → IpClass
class_of_v6 h =
    if text_eq h (codes "::1") || text_eq h (codes "::")
    then loopback
    else if text_eq h (codes "fd00:ec2::254")
    then metadata
    else if is_link_local6 h
    then link_local
    else if is_unique_local h
    then private
    else public

unfoldable pub classify_ipv6 : List ℕ → IpClass
classify_ipv6 host =
    let h = normalize_ipv6 host in
    elim (embedded_ipv4 h) [ some inner ↦ classify_ipv4 inner | none ↦ class_of_v6 h ]
