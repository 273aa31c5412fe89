-- ===== src/Ssrf/Dotted.antt =====
-- IPv4-mapped addresses in hexadecimal groups: `embeddedIpv4` and `ipv4Octets`.
use ai_devsecops_command_cen.Common.{
  ℕ, ◌/◌, ◌%◌, false, ◌&&◌, ◌≤◌, ◌<◌, ◌≡◌, ◌∙◌, refl, ap, arith, true, some, List, [], ◌∷◌, ◌++◌,
  eqb, All, all, map, All-append,
}
use ai_devsecops_command_cen.Common.Text.{codes, value_from, is_hex, lower, digit_value, after}
use ai_devsecops_command_cen.Ssrf.Classify.{
  dotted, class_of_octets, is_group, classify_ipv6, classify_ipv4, embedded_ipv4, carried,
  drop_close, normalize_ipv6,
}
use ai_devsecops_command_cen.Ssrf.Octets.{
  Lacks, split_on-append, split_on_part, classify_ipv4-dotted,
}

drop_close-Lacks : (xs : List ℕ) → Lacks b']' xs → drop_close xs ≡ xs
unfolding drop_close
drop_close-Lacks [] h = refl
drop_close-Lacks (c ∷ []) (p, h) = rw p refl
drop_close-Lacks (c ∷ d ∷ cs) (p, h) = ap (λ r. c ∷ r) (drop_close-Lacks (d ∷ cs) h)

map-lower : (xs : List ℕ) → All (λ c. lower c ≡ c) xs → map lower xs ≡ xs
map-lower [] h = refl
map-lower (c ∷ cs) (p, h) = rw (p, map-lower cs h) refl

hex-All :
    (P : ℕ → Type 0)
    → ((c : ℕ) → is_hex c ≡ true → P c)
    → (xs : List ℕ) → all is_hex xs ≡ true
    → All P xs
hex-All P f [] h = tt
hex-All P f (c ∷ cs) h = (f c (ground arith), hex-All P f cs (ground arith))

digit_value-hex : (c : ℕ) → is_hex c ≡ true → digit_value c ≤ 15
digit_value-hex c h = ground arith

group-hex : (a : List ℕ) → is_group a ≡ true → all is_hex a ≡ true
group-hex a h = ground arith

digits_of : (a : List ℕ) → is_group a ≡ true → All (λ c. digit_value c ≤ 15) a
digits_of a h = hex-All (λ c. digit_value c ≤ 15) digit_value-hex a (group-hex a h)

group_bound : (a : List ℕ) → is_group a ≡ true → value_from 16 0 a < 65536
unfolding value_from
group_bound [] h = absurd (ground arith)
group_bound (a ∷ []) h = let (p, _) = digits_of (a ∷ []) h in omega (arith, p)
group_bound (a ∷ b ∷ []) h = let (p, (q, _)) = digits_of (a ∷ b ∷ []) h in omega (arith, p, q)
group_bound (a ∷ b ∷ c ∷ []) h =
    let (p, (q, (r, _))) = digits_of (a ∷ b ∷ c ∷ []) h in omega (arith, p, q, r)
group_bound (a ∷ b ∷ c ∷ d ∷ []) h =
    let (p, (q, (r, (s, _)))) = digits_of (a ∷ b ∷ c ∷ d ∷ []) h in omega (arith, p, q, r, s)
group_bound (a ∷ b ∷ c ∷ d ∷ e ∷ rest) h = absurd (ground arith)

-- The text of two groups behind a prefix has a property of characters.
groups-All :
    (P : ℕ → Type 0)
    → ((c : ℕ) → is_hex c ≡ true → P c)
    → P b':'
    → (a b : List ℕ) → is_group a ≡ true
    → is_group b ≡ true
    → All P (a ++ (b':' ∷ b))
groups-All P f colon a b h k =
    All-append P a (b':' ∷ b) (hex-All P f a (group-hex a h)) (colon, hex-All P f b (group-hex b k))

classify_ipv6_of :
    (host h v : List ℕ)
    → normalize_ipv6 host ≡ h
    → embedded_ipv4 h ≡ some v
    → classify_ipv6 host ≡ classify_ipv4 v
unfolding classify_ipv6
classify_ipv6_of host h v e f = rw (e, f, classify_ipv6) refl

module _ (a b : List ℕ) (h : is_group a ≡ true) (k : is_group b ≡ true) where
  carried-groups : carried (a ++ (b':' ∷ b)) ≡ some (dotted (value_from 16 0 a) (value_from 16 0 b))
  unfolding carried
  carried-groups =
      let no_dot : Lacks b'.' (a ++ (b':' ∷ b)) =
        groups-All (λ c. eqb c b'.' ≡ false) (λ c e. ground arith) refl a b h k in
      let a_whole : Lacks b':' a =
        hex-All (λ c. eqb c b':' ≡ false) (λ c e. ground arith) a (group-hex a h) in
      let b_whole : Lacks b':' b =
        hex-All (λ c. eqb c b':' ≡ false) (λ c e. ground arith) b (group-hex b k) in
      rw
        (
          split_on_part b'.' _ no_dot,
          split_on-append b':' a b a_whole,
          split_on_part b':' b b_whole,
          h,
          k,
        )
        refl

  normalize-groups :
      normalize_ipv6 (codes "::ffff:" ++ (a ++ (b':' ∷ b))) ≡ codes "::ffff:" ++ (a ++ (b':' ∷ b))
  normalize-groups =
      let no_close = groups-All (λ c. eqb c b']' ≡ false) (λ c e. ground arith) refl a b h k in
      let lowered = groups-All (λ c. lower c ≡ c) (λ c e. ground arith) refl a b h k in
      let host = codes "::ffff:" ++ (a ++ (b':' ∷ b)) in
      ap (map lower)
        (drop_close-Lacks host (refl, (refl, (refl, (refl, (refl, (refl, (refl, no_close))))))))
      ∙ map-lower host (refl, (refl, (refl, (refl, (refl, (refl, (refl, lowered)))))))

  embedded_ipv4-groups :
      embedded_ipv4 (codes "::ffff:" ++ (a ++ (b':' ∷ b)))
      ≡ some (dotted (value_from 16 0 a) (value_from 16 0 b))
  unfolding embedded_ipv4 after
  embedded_ipv4-groups = rw (carried-groups, embedded_ipv4) refl

  -- An IPv4-mapped address `::ffff:a:b` in two groups of one to four hexadecimal digits in lower case
  -- has the class that the two bytes of its first group have as the first two octets of an IPv4
  -- address; the one address of class metadata, 100.100.100.200, is that of the groups 0x6464 and
  -- 0x64c8 (25700 and 25800).
  pub classify_ipv6-mapped :
      classify_ipv6 (codes "::ffff:" ++ (a ++ (b':' ∷ b)))
      ≡ class_of_octets
          (eqb (value_from 16 0 a) 25700 && eqb (value_from 16 0 b) 25800)
          (value_from 16 0 a / 256)
          (value_from 16 0 a % 256)
  classify_ipv6-mapped =
      classify_ipv6_of _ _ _ normalize-groups embedded_ipv4-groups
      ∙ classify_ipv4-dotted _ _ (group_bound a h) (group_bound b k)
