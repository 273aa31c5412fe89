-- ===== src/Crypto/Parsing.antt =====
-- parseKeyring and createCipherKeyring.
use ai_devsecops_command_cen.Crypto.Splitting.{Text}
use ai_devsecops_command_cen.Crypto.Keyring.{
  Outcome, Bytes, Keyring, err, key_bytes, ok, malformed_entry, named_wrong_length, no_entries,
  get_key, set_key, wrong_length, active_not_present, entry_ref,
}
use ai_devsecops_command_cen.Common.{
  ℕ, ◌+◌, Bool, true, false, not, ◌&&◌, ◌||◌, Option, none, some, List, [], ◌∷◌, map, leb, eqb,
  if◌then◌else◌, or_else, is_some, length, select,
}
use ai_devsecops_command_cen.Common.Text.{split_on}
use ai_devsecops_command_cen.Crypto.Secret.{Primitives}

-- The white space and line terminators that `trim` takes off.
abbrev pub is_space : ℕ → Bool
is_space c =
    eqb c 32
    || ((leb 9 c && leb c 13)
        || (eqb c 160
            || (eqb c 5760
                || ((leb 8192 c && leb c 8202)
                    || (eqb c 8232
                        || (eqb c 8233
                            || (eqb c 8239 || (eqb c 8287 || (eqb c 12288 || eqb c 65279)))))))))

abbrev pub is_empty : Text → Bool
is_empty [] = true
is_empty (_ ∷ _) = false

unfoldable pub trim_left : Text → Text
trim_left [] = []
trim_left (c ∷ cs) = let rest = trim_left cs in if is_space c then rest else c ∷ cs

unfoldable pub trim_right : Text → Text
trim_right [] = []
trim_right (c ∷ cs) =
    let rest = trim_right cs in if is_space c && is_empty rest then [] else c ∷ rest

-- The text before the first colon and the one after it: `indexOf` and `slice`.
unfoldable pub cut : Text → Option (Text × Text)
cut [] = none
cut (c ∷ cs) =
    if eqb c b':'
    then some ([], cs)
    else elim (cut cs) [ none ↦ none | some (a, b) ↦ some (c ∷ a, b) ]

-- `split(',')`, `trim`, and the empty ones left out.
unfoldable pub entries_of : Text → List Text
unfolding trim_left trim_right
entries_of value =
    select (λ e. not (is_empty e)) (map (λ e. trim_left (trim_right e)) (split_on b',' value))

module _ (js : Primitives) where
  -- One entry, cut at its colon; `rest` goes on with its key.
  abbrev pub read_entry :
      ℕ
      → Option (Text × Text)
      → (Text → Bytes → Outcome (List (Text × Bytes) × Option Text))
      → Outcome (List (Text × Bytes) × Option Text)
  read_entry n none rest = err (malformed_entry (n + 1))
  read_entry n (some (id, text)) rest =
      let key = js.from_base64 text in
      if eqb (length key) key_bytes
      then rest id key
      else err (wrong_length (entry_ref id (some (n + 1))))

  -- The loop, from the entry at a position on, with the keys read so far and the active id.
  unfoldable pub parse_entries :
      List Text
      → ℕ
      → List (Text × Bytes)
      → Option Text
      → Outcome (List (Text × Bytes) × Option Text)
  unfolding cut
  parse_entries [] n keys active = ok (keys, active)
  parse_entries (entry ∷ entries) n keys active =
      read_entry n (cut entry)
        (λ id key. parse_entries entries (n + 1) (set_key keys id key) (some (or_else active id)))

  abbrev pub keyring_of : Outcome (List (Text × Bytes) × Option Text) → Outcome Keyring
  keyring_of (err e) = err e
  keyring_of (ok (keys, none)) = err no_entries
  keyring_of (ok (keys, some id)) = ok (record { active_key_id = id; keys = keys })

  -- Without an entry the source throws before the loop; with one, the loop sets the active id.
  unfoldable pub parse_keyring : Text → Outcome Keyring
  unfolding parse_entries entries_of
  parse_keyring value = keyring_of (parse_entries (entries_of value) 0 [] none)

-- The first key of a wrong length.
abbrev pub bad_key : List (Text × Bytes) → Option Text
bad_key [] = none
bad_key ((id, key) ∷ keys) = if eqb (length key) key_bytes then bad_key keys else some id

unfoldable pub create_cipher_keyring : List (Text × Bytes) → Text → Outcome Keyring
create_cipher_keyring keys active = elim (bad_key keys) [
  | some id ↦ err (named_wrong_length id)
  | none ↦
      if is_some (get_key keys active)
      then ok (record { active_key_id = active; keys = keys })
      else err (active_not_present active)
]
