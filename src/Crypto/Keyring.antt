-- ===== src/Crypto/Keyring.antt =====
-- Keys by their ids: a `Map` whose keys are texts as lists of code points.
use ai_devsecops_command_cen.Crypto.Splitting.{Text}
use ai_devsecops_command_cen.Common.{
  ℕ, Bool, ◌&&◌, ◌||◌, Option, none, some, List, [], ◌∷◌, leb, eqb, if◌then◌else◌, length, all,
}
use ai_devsecops_command_cen.Common.Text.{text_eq}

abbrev pub Bytes : Type 0
Bytes = List ℕ

unfoldable pub get_key : List (Text × Bytes) → Text → Option Bytes
get_key [] id = none
get_key ((j, key) ∷ keys) id = if text_eq j id then some key else get_key keys id

unfoldable pub set_key : List (Text × Bytes) → Text → Bytes → List (Text × Bytes)
set_key [] id key = (id, key) ∷ []
set_key ((j, old) ∷ keys) id key =
    let rest = set_key keys id key in if text_eq j id then (j, key) ∷ keys else (j, old) ∷ rest

pub record Keyring : Type 0 where
  pub active_key_id : Text
  pub keys : List (Text × Bytes)

-- KEY_BYTES and IV_BYTES.
abbrev pub key_bytes : ℕ
key_bytes = 32

abbrev pub iv_bytes : ℕ
iv_bytes = 12

-- What an error message says of an entry: its id, its position, or neither.
pub data EntryRef : Type 0 where
  key_named : Text → EntryRef
  entry_number : ℕ → EntryRef
  redacted : EntryRef

-- The errors of the file, and one that `node:crypto` throws.
pub data CryptoError : Type 0 where
  no_entries : CryptoError
  malformed_entry : ℕ → CryptoError
  wrong_length : EntryRef → CryptoError
  named_wrong_length : Text → CryptoError
  active_not_present : Text → CryptoError
  active_not_found : Text → CryptoError
  malformed_value : CryptoError
  unknown_key : EntryRef → CryptoError
  not_authentic : CryptoError
  cipher_failed : CryptoError

pub data Outcome {ℓ} (A : Type ℓ) : Type ℓ where
  ok : A → Outcome A
  err : CryptoError → Outcome A

-- The characters of SAFE_KEY_ID.
abbrev pub is_safe_char : ℕ → Bool
is_safe_char c =
    (leb b'A' c && leb c b'Z')
    || ((leb b'a' c && leb c b'z')
        || ((leb b'0' c && leb c b'9')
            || (eqb c b'.' || (eqb c b'_' || (eqb c b'~' || eqb c b'-')))))

abbrev pub safe_key_id : Text → Bool
safe_key_id id = leb 1 (length id) && (leb (length id) 32 && all is_safe_char id)

abbrev pub entry_ref : Text → Option ℕ → EntryRef
entry_ref id none = if safe_key_id id then key_named id else redacted
entry_ref id (some n) = if safe_key_id id then key_named id else entry_number n
