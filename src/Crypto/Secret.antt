-- ===== src/Crypto/Secret.antt =====
-- encryptSecret and decryptSecret. The cipher and base64 are those of `node:crypto` and `Buffer`; the
-- initialisation vector that `randomBytes` draws is an argument. Text is its code points.
use ai_devsecops_command_cen.Crypto.Splitting.{Text, join_with}
use ai_devsecops_command_cen.Crypto.Keyring.{
  Bytes, Keyring, Outcome, err, get_key, ok, active_not_found, cipher_failed, malformed_value,
  not_authentic, unknown_key, entry_ref, iv_bytes,
}
use ai_devsecops_command_cen.Common.{
  Bool, Option, none, some, List, [], ◌∷◌, eqb, if◌then◌else◌, length,
}
use ai_devsecops_command_cen.Common.Text.{text_eq, split_on}

-- The ciphertext with its tag.
pub record Sealed : Type 0 where
  pub ct : Bytes
  pub tag : Bytes

-- `none` is a thrown error. `seal` and `open_sealed` take the key, the vector and the key id whose
-- UTF-8 bytes are the additional data; the plaintext goes through UTF-8.
pub record Primitives : Type 0 where
  pub seal : Bytes → Bytes → Text → Text → Option Sealed
  pub open_sealed : Bytes → Bytes → Text → Sealed → Option Text
  pub to_base64 : Bytes → Text
  pub from_base64 : Text → Bytes

abbrev pub format_version : Text
format_version = b'v' ∷ b'1' ∷ []

module _ (js : Primitives) where
  unfoldable pub envelope : Text → Bytes → Sealed → Text
  envelope key_id iv c =
      join_with b'.'
        (format_version ∷ key_id ∷ js.to_base64 iv ∷ js.to_base64 c.tag ∷ js.to_base64 c.ct ∷ [])

  abbrev pub encrypt_with : Text → Bytes → Option Sealed → Outcome Text
  encrypt_with key_id iv none = err cipher_failed
  encrypt_with key_id iv (some c) = ok (envelope key_id iv c)

  abbrev pub encrypt_under : Text → Bytes → Text → Option Bytes → Outcome Text
  encrypt_under key_id iv plaintext none = err (active_not_found key_id)
  encrypt_under key_id iv plaintext (some key) =
      encrypt_with key_id iv (js.seal key iv key_id plaintext)

  unfoldable pub encrypt_secret : Keyring → Bytes → Text → Outcome Text
  unfolding envelope
  encrypt_secret keyring iv plaintext =
      let key_id = keyring.active_key_id in
      encrypt_under key_id iv plaintext (get_key keyring.keys key_id)

  abbrev pub opened : Option Text → Outcome Text
  opened none = err not_authentic
  opened (some plaintext) = ok plaintext

  abbrev pub decrypt_under : Text → Bytes → Sealed → Option Bytes → Outcome Text
  decrypt_under key_id iv c none = err (unknown_key (entry_ref key_id none))
  decrypt_under key_id iv c (some key) =
      if eqb (length iv) iv_bytes
      then opened (js.open_sealed key iv key_id c)
      else err malformed_value

  abbrev pub plain_or_error : Bool → Text → Outcome Text
  plain_or_error allow_plaintext value = if allow_plaintext then ok value else err malformed_value

  unfoldable pub decrypt_parts : Keyring → Bool → Text → List Text → Outcome Text
  decrypt_parts keyring allow value (version ∷ key_id ∷ iv ∷ tag ∷ ct ∷ []) =
      if text_eq version format_version
      then decrypt_under key_id (js.from_base64 iv)
          (record { ct = js.from_base64 ct; tag = js.from_base64 tag })
          (get_key keyring.keys key_id)
      else plain_or_error allow value
  decrypt_parts keyring allow value _ = plain_or_error allow value

  -- `allow` is `opts?.allowPlaintext`.
  unfoldable pub decrypt_secret : Keyring → Text → Bool → Outcome Text
  unfolding decrypt_parts
  decrypt_secret keyring value allow = decrypt_parts keyring allow value (split_on b'.' value)
