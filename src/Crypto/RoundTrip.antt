-- ===== src/Crypto/RoundTrip.antt =====
-- Encryption followed by decryption.
use ai_devsecops_command_cen.Common.{Option, none}
use ai_devsecops_command_cen.Common.{suc, if◌then◌else◌}
use ai_devsecops_command_cen.Crypto.Splitting.{
  Text, without, split_on-join_with, join_with, occurrences, split_on-length, join_with-occurrences,
  without-occurrences,
}
use ai_devsecops_command_cen.Crypto.Keyring.{Bytes, Keyring, get_key, ok, err, malformed_value}
use ai_devsecops_command_cen.Common.{◌≤◌, false, List, arith}
use ai_devsecops_command_cen.Common.{
  ◌≡◌, refl, ap, ◌∙◌, Bool, true, ◌&&◌, ◌||◌, some, [], ◌∷◌, ltb, leb, length, all,
}
use ai_devsecops_command_cen.Common.Text.{split_on}
use ai_devsecops_command_cen.Crypto.Secret.{
  Primitives, decrypt_parts, envelope, Sealed, encrypt_secret, plain_or_error, decrypt_secret,
  format_version, encrypt_under, encrypt_with,
}

abbrev pub is_bytes : Bytes → Bool
is_bytes bs = all (λ b. ltb b 256) bs

-- A text that UTF-8 keeps: Unicode scalar values, no lone surrogate.
abbrev pub is_text : Text → Bool
is_text cs = all (λ c. ltb c 0xD800 || (leb 0xE000 c && ltb c 0x110000)) cs

-- What Node documents of base64 and of AES-256-GCM with a key and a vector of the right lengths.
pub record Lawful (js : Primitives) : Type 0 where
  pub base64_back : (b : Bytes) → is_bytes b ≡ true → js.from_base64 (js.to_base64 b) ≡ b
  pub base64_dotless : (b : Bytes) → is_bytes b ≡ true → without b'.' (js.to_base64 b) ≡ true
  pub opens :
      (key iv : Bytes) (id p : Text)
      → length key ≡ 32
      → length iv ≡ 12
      → is_text p ≡ true
      → (c : Sealed) × (js.seal key iv id p ≡ some c)
        × (is_bytes c.ct ≡ true)
        × (is_bytes c.tag ≡ true)
        × (js.open_sealed key iv id c ≡ some p)

module _ (js : Primitives) (laws : Lawful js) (id : Text) (iv : Bytes) (c : Sealed)
    (ivs : is_bytes iv ≡ true) (cts : is_bytes c.ct ≡ true) (tags : is_bytes c.tag ≡ true) where
  parts_of_envelope :
      without b'.' id ≡ true
      → split_on b'.' (envelope js id iv c)
        ≡ format_version ∷ id ∷ js.to_base64 iv ∷ js.to_base64 c.tag ∷ js.to_base64 c.ct ∷ []
  unfolding envelope
  parts_of_envelope dotless =
      split_on-join_with b'.' format_version
        (id ∷ js.to_base64 iv ∷ js.to_base64 c.tag ∷ js.to_base64 c.ct ∷ [])
        (
          refl,
          (
            dotless,
            (
              laws.base64_dotless iv ivs,
              (laws.base64_dotless c.tag tags, (laws.base64_dotless c.ct cts, tt)),
            ),
          ),
        )

  decrypt_parts_lem :
      (other : Keyring) (allow : Bool) (value : Text) (key : Bytes) (p : Text)
      → get_key other.keys id ≡ some key
      → length iv ≡ 12
      → js.open_sealed key iv id c ≡ some p
      → decrypt_parts js other allow value
          (format_version ∷ id ∷ js.to_base64 iv ∷ js.to_base64 c.tag ∷ js.to_base64 c.ct ∷ [])
        ≡ ok p
  unfolding decrypt_parts
  decrypt_parts_lem other allow value key p there v o =
      rw
        (
          laws.base64_back iv ivs,
          laws.base64_back c.ct cts,
          laws.base64_back c.tag tags,
          there,
          v,
          o,
        )
        refl

module _ (js : Primitives) (keyring other : Keyring) (iv : Bytes) (p : Text) (key : Bytes) where
  -- What was encrypted under a keyring is decrypted under every keyring that has the same key under
  -- the active id, with or without `allowPlaintext`: where the key has 32 bytes, the vector 12, the
  -- text is well formed, and the id of the key has no dot.
  pub decrypt_secret-encrypt_secret :
      (allow : Bool)
      → Lawful js
      → get_key keyring.keys keyring.active_key_id ≡ some key
      → get_key other.keys keyring.active_key_id ≡ some key
      → length key ≡ 32
      → length iv ≡ 12
      → is_bytes iv ≡ true
      → is_text p ≡ true
      → without b'.' keyring.active_key_id ≡ true
      → (value : Text) × (encrypt_secret js keyring iv p ≡ ok value)
        × (decrypt_secret js other value allow ≡ ok p)
  unfolding encrypt_secret decrypt_secret
  decrypt_secret-encrypt_secret allow laws here there k v ivs text dotless =
      let id = keyring.active_key_id in
      let (c, sealed, ct, tag, again) = laws.opens key iv id p k v text in
      let value = envelope js id iv c in
      (
        value,
        rw (here, sealed) refl,
        ap (decrypt_parts js other allow value)
              (parts_of_envelope js laws id iv c ivs ct tag dotless)
            ∙ decrypt_parts_lem js laws id iv c ivs ct tag other allow value key p there v again,
      )

-- A value in other than five parts is taken for plaintext or refused.
not_five :
    (js : Primitives) (k : Keyring) (allow : Bool) (value : Text) (parts : List Text)
    → 6 ≤ length parts
    → decrypt_parts js k allow value parts ≡ plain_or_error js allow value
unfolding decrypt_parts
not_five js k allow value [] h = refl
not_five js k allow value (a ∷ []) h = refl
not_five js k allow value (a ∷ b ∷ []) h = refl
not_five js k allow value (a ∷ b ∷ c ∷ []) h = refl
not_five js k allow value (a ∷ b ∷ c ∷ d ∷ []) h = refl
not_five js k allow value (a ∷ b ∷ c ∷ d ∷ e ∷ []) h = absurd (omega (arith, h))
not_five js k allow value (a ∷ b ∷ c ∷ d ∷ e ∷ f ∷ rest) h = refl

dotted_parts :
    (js : Primitives) (id : Text) (iv : Bytes) (c : Sealed)
    → without b'.' id ≡ false
    → 6 ≤ length (split_on b'.' (envelope js id iv c))
unfolding envelope join_with
dotted_parts js id iv c dotted =
    let tail = js.to_base64 iv ∷ js.to_base64 c.tag ∷ js.to_base64 c.ct ∷ [] in
    let value = envelope js id iv c in
    let inner : occurrences b'.' value ≡ suc (occurrences b'.' (join_with b'.' (id ∷ tail))) =
      refl in
    omega (
      arith,
      split_on-length b'.' value,
      inner,
      join_with-occurrences b'.' id tail,
      without-occurrences b'.' id dotted,
    )

-- What is returned is the envelope of something sealed.
module _ (js : Primitives) (id : Text) (iv : Bytes) (p value : Text) where
  returned_sealed :
      (o : Option Sealed)
      → encrypt_with js id iv o ≡ ok value
      → (c : Sealed) × (value ≡ envelope js id iv c)
  returned_sealed none e = cc
  returned_sealed (some c) e = (c, cc)

  returned_under :
      (o : Option Bytes)
      → encrypt_under js id iv p o ≡ ok value
      → (c : Sealed) × (value ≡ envelope js id iv c)
  returned_under none e = cc
  returned_under (some key) e = returned_sealed (js.seal key iv id p) e

-- Where the id of the active key has a dot, whatever `encryptSecret` returns cannot be decrypted under
-- any keyring: `decryptSecret` refuses it as malformed, or with `allowPlaintext` gives the ciphertext
-- back as if it were the plaintext.
pub decrypt_secret_dotted :
    (js : Primitives) (keyring other : Keyring) (iv : Bytes) (p value : Text) (allow : Bool)
    → without b'.' keyring.active_key_id ≡ false
    → encrypt_secret js keyring iv p ≡ ok value
    → decrypt_secret js other value allow ≡ (if allow then ok value else err malformed_value)
unfolding encrypt_secret decrypt_secret
decrypt_secret_dotted js keyring other iv p value allow dotted encrypted =
    let id = keyring.active_key_id in
    let (c, e) = returned_under js id iv p value (get_key keyring.keys id) encrypted in
    not_five js other allow value (split_on b'.' value) (rw e (dotted_parts js id iv c dotted))
