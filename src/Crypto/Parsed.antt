-- ===== src/Crypto/Parsed.antt =====
-- What parseKeyring returns.
use ai_devsecops_command_cen.Crypto.Parsing.{
  parse_entries, parse_keyring, cut, keyring_of, entries_of, read_entry,
}
use ai_devsecops_command_cen.Crypto.Keyring.{
  get_key, set_key, Bytes, Outcome, Keyring, key_bytes, ok, err,
}
use ai_devsecops_command_cen.Crypto.Splitting.{Text}
use ai_devsecops_command_cen.Crypto.Secret.{Primitives}
use ai_devsecops_command_cen.Common.{
  ℕ, ◌+◌, ◌≡◌, refl, inl, inr, true, Option, none, some, List, [], ◌∷◌, arith, eqb, Bool-cases,
  Option-cases, or_else, is_some, length, All,
}
use mathlib.Core.Path.{subst}
use ai_devsecops_command_cen.Common.Text.{text_eq, text_eq_refl}

abbrev pub Keys : Type 0
Keys = List (Text × Bytes)

abbrev pub HasLength : Text × Bytes → Type 0
HasLength (_, key) = length key ≡ 32

-- The active id, if there is one, has a key.
abbrev HasActive : Keys → Option Text → Type 0
HasActive keys none = Unit
HasActive keys (some id) = is_some (get_key keys id) ≡ true

set_key-HasLength :
    (keys : Keys) (id : Text) (key : Bytes)
    → length key ≡ 32
    → All HasLength keys
    → All HasLength (set_key keys id key)
unfolding set_key
set_key-HasLength [] id key l h = (l, tt)
set_key-HasLength ((j, old) ∷ keys) id key l (o, h) = elim (Bool-cases (text_eq j id)) [
  | inl e ↦ rw e (l, h)
  | inr e ↦ rw e (o, set_key-HasLength keys id key l h)
]

get_key-set_key_self :
    (keys : Keys) (id : Text) (key : Bytes) → is_some (get_key (set_key keys id key) id) ≡ true
unfolding set_key get_key
get_key-set_key_self [] id key = rw (text_eq_refl id) refl
get_key-set_key_self ((j, old) ∷ keys) id key = elim (Bool-cases (text_eq j id)) [
  | inl e ↦ ground arith
  | inr e ↦ ground (arith, get_key-set_key_self keys id key)
]

get_key-set_key_keeps :
    (keys : Keys) (id j : Text) (key : Bytes)
    → is_some (get_key keys j) ≡ true
    → is_some (get_key (set_key keys id key) j) ≡ true
unfolding set_key get_key
get_key-set_key_keeps [] id j key h = ground arith
get_key-set_key_keeps ((i, old) ∷ keys) id j key h = elim (Bool-cases (text_eq i j)) [
  | inl e ↦ ground arith
  | inr e ↦ ground (arith, get_key-set_key_keeps keys id j key)
]

get_key-HasLength :
    (keys : Keys) (id : Text) (key : Bytes)
    → All HasLength keys
    → get_key keys id ≡ some key
    → length key ≡ 32
unfolding get_key
get_key-HasLength [] id key h e = cc
get_key-HasLength ((j, k) ∷ keys) id key (l, h) e = elim (Bool-cases (text_eq j id)) [
  | inl t ↦ let same : some k ≡ some key = ground arith in let is_k : k ≡ key = cc in rw (← is_k) l
  | inr t ↦ get_key-HasLength keys id key h (ground arith)
]

module _ (js : Primitives) where
  abbrev GoodEntries : Outcome (Keys × Option Text) → Type 0
  GoodEntries (err e) = Unit
  GoodEntries (ok (keys, active)) = All HasLength keys × HasActive keys active

  set_key-HasActive :
      (keys : Keys) (id : Text) (key : Bytes) (active : Option Text)
      → HasActive keys active
      → HasActive (set_key keys id key) (some (or_else active id))
  set_key-HasActive keys id key none h = get_key-set_key_self keys id key
  set_key-HasActive keys id key (some a) h = get_key-set_key_keeps keys id a key h

  read_entry-Good :
      (n : ℕ) (o : Option (Text × Text)) (rest : Text → Bytes → Outcome (Keys × Option Text))
      → ((id : Text) (key : Bytes) → length key ≡ 32 → GoodEntries (rest id key))
      → GoodEntries (read_entry js n o rest)
  read_entry-Good n none rest h = tt
  read_entry-Good n (some (id, text)) rest h =
      let key = js.from_base64 text in
      elim (Bool-cases (eqb (length key) key_bytes)) [
        | inl t ↦ rw t (h id key (ground arith))
        | inr t ↦ rw t tt
      ]

  parse_entries-Good :
      (entries : List Text) (n : ℕ) (keys : Keys) (active : Option Text)
      → All HasLength keys
      → HasActive keys active
      → GoodEntries (parse_entries js entries n keys active)
  unfolding parse_entries
  parse_entries-Good [] n keys active h a = (h, a)
  parse_entries-Good (entry ∷ entries) n keys active h a =
      read_entry-Good n (cut entry) _ (λ id key l.
        parse_entries-Good entries (n + 1) (set_key keys id key) (some (or_else active id))
          (set_key-HasLength keys id key l h) (set_key-HasActive keys id key active a))

  keyring_of-Good :
      (r : Outcome (Keys × Option Text)) (k : Keyring)
      → GoodEntries r
      → keyring_of js r ≡ ok k
      → All HasLength k.keys × (is_some (get_key k.keys k.active_key_id) ≡ true)
  keyring_of-Good (err e) k h q = cc
  keyring_of-Good (ok (keys, none)) k h q = cc
  keyring_of-Good (ok (keys, some id)) k (h, a) q =
      let same : record { active_key_id = id; keys = keys } ≡ k = cc in
      subst (λ x. All HasLength x.keys × (is_some (get_key x.keys x.active_key_id) ≡ true)) same
        (h, a)

  -- A keyring that `parseKeyring` returns has a key under its active id, and all its keys have 32
  -- bytes.
  pub parse_keyring-usable :
      (value : Text) (k : Keyring)
      → parse_keyring js value ≡ ok k
      → (key : Bytes) × (get_key k.keys k.active_key_id ≡ some key)
        × (length key ≡ 32)
        × All HasLength k.keys
  unfolding parse_keyring
  parse_keyring-usable value k parsed =
      let (lengths, there) =
        keyring_of-Good (parse_entries js (entries_of value) 0 [] none) k
          (parse_entries-Good (entries_of value) 0 [] none tt tt) parsed in
      elim (Option-cases (get_key k.keys k.active_key_id)) [
        | inl gone ↦ ground arith
        | inr (key, found) ↦ (key, found, get_key-HasLength k.keys _ key lengths found, lengths)
      ]
