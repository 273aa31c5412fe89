-- ===== src/Crypto/Splitting.antt =====
-- `split` and `join` at one character.
use ai_devsecops_command_cen.Common.{
  ℕ, suc, ◌+◌, ◌≤◌, ◌≡◌, refl, ap, ◌∙◌, inl, inr, Bool, true, false, not, List, [], ◌∷◌, ◌++◌,
  arith, eqb, if◌then◌else◌, Bool-cases, length, all, All,
}
use ai_devsecops_command_cen.Common.Text.{split_on, prepend}

abbrev pub Text : Type 0
Text = List ℕ

abbrev pub without : ℕ → Text → Bool
without sep cs = all (λ c. not (eqb c sep)) cs

-- `Array.prototype.join`.
unfoldable pub join_with : ℕ → List Text → Text
join_with sep [] = []
join_with sep (part ∷ []) = part
join_with sep (part ∷ next ∷ parts) = part ++ sep ∷ join_with sep (next ∷ parts)

abbrev pub occurrences : ℕ → Text → ℕ
occurrences sep [] = 0
occurrences sep (c ∷ cs) = let rest = occurrences sep cs in if eqb c sep then suc rest else rest

split_on-before :
    (sep : ℕ) (part rest : Text)
    → without sep part ≡ true
    → split_on sep (part ++ sep ∷ rest) ≡ part ∷ split_on sep rest
unfolding split_on
split_on-before sep [] rest h = ground arith
split_on-before sep (c ∷ part) rest h =
    rw (split_on-before sep part rest (ground arith)) (ground arith)

split_on-whole : (sep : ℕ) (part : Text) → without sep part ≡ true → split_on sep part ≡ part ∷ []
unfolding split_on
split_on-whole sep [] h = refl
split_on-whole sep (c ∷ part) h = rw (split_on-whole sep part (ground arith)) (ground arith)

-- Splitting what was joined gives the parts back.
pub split_on-join_with :
    (sep : ℕ) (part : Text) (parts : List Text)
    → All (λ p. without sep p ≡ true) (part ∷ parts)
    → split_on sep (join_with sep (part ∷ parts)) ≡ part ∷ parts
unfolding join_with
split_on-join_with sep part [] (h, hs) = split_on-whole sep part h
split_on-join_with sep part (next ∷ parts) (h, hs) =
    split_on-before sep part (join_with sep (next ∷ parts)) h
    ∙ ap (λ ps. part ∷ ps) (split_on-join_with sep next parts hs)

occurrences-append :
    (sep : ℕ) (xs ys : Text) → occurrences sep (xs ++ ys) ≡ occurrences sep xs + occurrences sep ys
occurrences-append sep [] ys = omega arith
occurrences-append sep (x ∷ xs) ys = ground (arith, occurrences-append sep xs ys)

prepend-length :
    (c : ℕ) (part : Text) (parts : List Text)
    → length (prepend c (part ∷ parts)) ≡ length (part ∷ parts)
prepend-length c part parts = refl

-- A text has one part more than separators.
pub split_on-length : (sep : ℕ) (cs : Text) → length (split_on sep cs) ≡ suc (occurrences sep cs)
unfolding split_on
split_on-length sep [] = refl
split_on-length sep (c ∷ cs) = elim (Bool-cases (eqb c sep)) [
  | inl t ↦ rw t (omega (arith, split_on-length sep cs))
  | inr t ↦ rw t (kept (split_on sep cs) (split_on-length sep cs))
]
  where
    kept :
        (parts : List Text)
        → length parts ≡ suc (occurrences sep cs)
        → length (prepend c parts) ≡ suc (occurrences sep cs)
    kept [] h = absurd (omega (arith, h))
    kept (part ∷ parts) h = h

-- The separators of joined parts are those between them and those within.
pub join_with-occurrences :
    (sep : ℕ) (part : Text) (parts : List Text)
    → length parts + occurrences sep part ≤ occurrences sep (join_with sep (part ∷ parts))
unfolding join_with
join_with-occurrences sep part [] = omega arith
join_with-occurrences sep part (next ∷ parts) =
    let later = join_with-occurrences sep next parts in
    let one : eqb sep sep ≡ true = ground arith in
    rw (occurrences-append sep part (sep ∷ join_with sep (next ∷ parts)), one)
      (omega (arith, later))

pub without-occurrences : (sep : ℕ) (cs : Text) → without sep cs ≡ false → 1 ≤ occurrences sep cs
without-occurrences sep [] h = ground arith
without-occurrences sep (c ∷ cs) h = ground (arith, without-occurrences sep cs)
