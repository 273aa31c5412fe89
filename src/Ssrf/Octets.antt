-- ===== src/Ssrf/Octets.antt =====
-- The four octets of a dotted IPv4 text: `embeddedIpv4`, `ipv4Octets` and `classifyIpv4`.
use ai_devsecops_command_cen.Common.{
  ℕ, ◌+◌, ◌*◌, ◌/◌, ◌%◌, sym, false, ◌&&◌, ◌≤◌, ◌<◌, ◌≡◌, ◌∙◌, refl, ap, arith, true, some, List,
  [], ◌∷◌, ◌++◌, ltb, eqb, eqb_iff, Bool-cases, inl, inr, All, map,
}
use ai_devsecops_command_cen.Common.Text.{codes, text_eq, text_eq→≡, split_on, decimal, value_from}
use ai_devsecops_command_cen.Ssrf.Classify.{
  octet, four, dotted, class_of_octets, ipv4_octets, classify_ipv4,
}
use mathlib.Core.Path.{subst}

-- The list lacks a character.
abbrev pub Lacks : ℕ → List ℕ → Type 0
Lacks sep = All (λ c. eqb c sep ≡ false)

module _ (sep : ℕ) where
  pub split_on-append :
      (ds rest : List ℕ) → Lacks sep ds → split_on sep (ds ++ (sep ∷ rest)) ≡ ds ∷ split_on sep rest
  unfolding split_on
  split_on-append [] rest h = rw ((eqb_iff sep sep).1 refl) refl
  split_on-append (c ∷ cs) rest (p, h) = rw (p, split_on-append cs rest h) refl

  pub split_on_part : (ds : List ℕ) → Lacks sep ds → split_on sep ds ≡ ds ∷ []
  unfolding split_on
  split_on_part [] h = refl
  split_on_part (c ∷ cs) (p, h) = rw (p, split_on_part cs h) refl

decimal-Lacks : (n : ℕ) → Lacks b'.' (decimal n)
unfolding decimal
decimal-Lacks n = elim (Bool-cases (ltb n 10)) [
  | inl e ↦ rw e (ground arith, tt)
  | inr e ↦ elim (Bool-cases (ltb n 100)) [
    | inl f ↦ rw (e, f) (ground arith, (ground arith, tt))
    | inr f ↦ rw (e, f) (ground arith, (ground arith, (ground arith, tt)))
  ]
]

octet-decimal : (n : ℕ) → n ≤ 255 → octet (decimal n) ≡ some n
unfolding decimal value_from
octet-decimal n h = ground arith

split_on-dotted :
    (hi lo : ℕ)
    → split_on b'.' (dotted hi lo)
      ≡ decimal (hi / 256) ∷ decimal (hi % 256) ∷ decimal (lo / 256) ∷ decimal (lo % 256) ∷ []
unfolding dotted
split_on-dotted hi lo =
    split_on-append b'.' (decimal (hi / 256)) _ (decimal-Lacks (hi / 256))
    ∙ ap (λ r. decimal (hi / 256) ∷ r)
        (split_on-append b'.' (decimal (hi % 256)) _ (decimal-Lacks (hi % 256))
          ∙ ap (λ r. decimal (hi % 256) ∷ r)
              (split_on-append b'.' (decimal (lo / 256)) _ (decimal-Lacks (lo / 256))
                ∙ ap (λ r. decimal (lo / 256) ∷ r)
                    (split_on_part b'.' (decimal (lo % 256)) (decimal-Lacks (lo % 256)))))

ipv4_octets-dotted :
    (hi lo : ℕ) → hi < 65536 → lo < 65536 → ipv4_octets (dotted hi lo) ≡ some (hi / 256, hi % 256)
unfolding ipv4_octets
ipv4_octets-dotted hi lo h k =
    let a = octet-decimal (hi / 256) (omega arith) in
    let b = octet-decimal (hi % 256) (omega arith) in
    let c = octet-decimal (lo / 256) (omega arith) in
    let d = octet-decimal (lo % 256) (omega arith) in
    ap four (split_on-dotted hi lo)
    ∙ four_of (decimal (hi / 256)) (decimal (hi % 256)) (decimal (lo / 256)) (decimal (lo % 256)) a
        b c d
  where
    four_of :
        (p q r s : List ℕ) {a b c d : ℕ}
        → octet p ≡ some a
        → octet q ≡ some b
        → octet r ≡ some c
        → octet s ≡ some d
        → four (p ∷ q ∷ r ∷ s ∷ []) ≡ some (a, b)
    four_of p q r s ha hb hc hd = rw (ha, hb, hc, hd, four) refl

metadata_text :
    (hi lo : ℕ)
    → hi ≡ 25700
    → lo ≡ 25800
    → text_eq (dotted hi lo) (codes "100.100.100.200") ≡ false
    → ⊥
unfolding dotted decimal
metadata_text hi lo e f g =
    let whole : text_eq (dotted 25700 25800) (codes "100.100.100.200") ≡ false =
      subst (λ x. text_eq (dotted x 25800) (codes "100.100.100.200") ≡ false) e
        (subst (λ x. text_eq (dotted hi x) (codes "100.100.100.200") ≡ false) f g) in
    let impossible : true ≡ false = whole in absurd (ground arith)

-- The dotted text is that of the metadata address exactly for its two groups, 0x6464 and 0x64c8.
text_eq-dotted :
    (hi lo : ℕ)
    → hi < 65536
    → lo < 65536
    → text_eq (dotted hi lo) (codes "100.100.100.200") ≡ (eqb hi 25700 && eqb lo 25800)
unfolding decimal value_from split_on
text_eq-dotted hi lo h k = elim (Bool-cases (text_eq (dotted hi lo) (codes "100.100.100.200"))) [
  | inl e ↦
      let same = text_eq→≡ (dotted hi lo) (codes "100.100.100.200") e in
      let parts : map octet (split_on b'.' (dotted hi lo))
          ≡ map octet (split_on b'.' (codes "100.100.100.200")) =
        ap (λ t. map octet (split_on b'.' t)) same in
      let bytes = sym (octets_of hi lo h k) ∙ parts in
      e
      ∙ sym (
          groups_of (hi / 256) (hi % 256) (lo / 256) (lo % 256) hi lo bytes (omega arith)
            (omega arith))
  | inr e ↦ elim (Bool-cases (eqb hi 25700 && eqb lo 25800)) [
    | inr f ↦ e ∙ sym f
    | inl f ↦ absurd (metadata_text hi lo (ground arith) (ground arith) e)
  ]
]
  where
    octets_of :
        (hi lo : ℕ)
        → hi < 65536
        → lo < 65536
        → map octet (split_on b'.' (dotted hi lo))
          ≡ some (hi / 256) ∷ some (hi % 256) ∷ some (lo / 256) ∷ some (lo % 256) ∷ []
    octets_of hi lo h k =
        let a = octet-decimal (hi / 256) (omega arith) in
        let b = octet-decimal (hi % 256) (omega arith) in
        let c = octet-decimal (lo / 256) (omega arith) in
        let d = octet-decimal (lo % 256) (omega arith) in
        ap (map octet) (split_on-dotted hi lo) ∙ rw (a, b, c, d) refl

    groups_of :
        (a b c d hi lo : ℕ)
        → some a ∷ some b ∷ some c ∷ some d ∷ [] ≡ some 100 ∷ some 100 ∷ some 100 ∷ some 200 ∷ []
        → hi ≡ a * 256 + b
        → lo ≡ c * 256 + d
        → (eqb hi 25700 && eqb lo 25800) ≡ true
    groups_of a b c d hi lo e f g =
        let x : a ≡ 100 = cc in
        let y : b ≡ 100 = cc in
        let z : c ≡ 100 = cc in
        let w : d ≡ 200 = cc in
        let is_hi : hi ≡ 25700 = omega arith in
        let is_lo : lo ≡ 25800 = omega arith in
        rw ((eqb_iff hi 25700).1 is_hi, (eqb_iff lo 25800).1 is_lo) refl

-- A dotted text of two groups is classified by the bytes of the groups.
pub classify_ipv4-dotted :
    (hi lo : ℕ)
    → hi < 65536
    → lo < 65536
    → classify_ipv4 (dotted hi lo)
      ≡ class_of_octets (eqb hi 25700 && eqb lo 25800) (hi / 256) (hi % 256)
unfolding classify_ipv4
classify_ipv4-dotted hi lo h k =
    classed (dotted hi lo) (hi / 256) (hi % 256) (ipv4_octets-dotted hi lo h k)
    ∙ ap (λ x. class_of_octets x (hi / 256) (hi % 256)) (text_eq-dotted hi lo h k)
  where
    classed :
        (host : List ℕ) (a b : ℕ)
        → ipv4_octets host ≡ some (a, b)
        → classify_ipv4 host ≡ class_of_octets (text_eq host (codes "100.100.100.200")) a b
    classed host a b e = rw (e, classify_ipv4) refl
