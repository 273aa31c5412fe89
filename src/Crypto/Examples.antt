-- ===== src/Crypto/Examples.antt =====
-- A stand-in for the primitives that meets their laws, and concrete keyrings.
use ai_devsecops_command_cen.Crypto.Parsed.{HasLength, parse_keyring-usable}
use ai_devsecops_command_cen.Crypto.Parsing.{
  parse_keyring, entries_of, trim_left, trim_right, cut, parse_entries,
}
use ai_devsecops_command_cen.Crypto.Splitting.{Text, without}
use ai_devsecops_command_cen.Crypto.Secret.{Primitives, decrypt_secret, encrypt_secret, envelope}
use ai_devsecops_command_cen.Crypto.RoundTrip.{
  Lawful, is_text, decrypt_secret-encrypt_secret, is_bytes, decrypt_secret_dotted,
}
use ai_devsecops_command_cen.Crypto.Keyring.{
  Bytes, Keyring, get_key, err, ok, malformed_value, set_key,
}
use ai_devsecops_command_cen.Common.{
  ℕ, zero, suc, ◌+◌, ◌-◌, ◌*◌, ◌/◌, ◌%◌, ◌≡◌, refl, ap, true, false, some, [], ◌∷◌, ◌++◌, map,
  arith, length, All,
}
use ai_devsecops_command_cen.Common.Text.{codes, split_on}

-- A code point as three bytes.
abbrev to_bytes : Text → Bytes
to_bytes [] = []
to_bytes (c ∷ cs) = c % 256 ∷ c / 256 % 256 ∷ c / 65536 ∷ to_bytes cs

abbrev of_bytes : Bytes → Text
of_bytes (a ∷ b ∷ c ∷ rest) = (a + 256 * b + 65536 * c) ∷ of_bytes rest
of_bytes _ = []

abbrev js : Primitives
js = record {
  seal = λ key iv id p. some (record { ct = to_bytes p; tag = [] });
  open_sealed = λ key iv id c. some (of_bytes c.ct);
  to_base64 = λ b. map (λ x. x + 256) b;
  from_base64 = λ t. map (λ x. x - 256) t;
}

of_bytes-to_bytes : (p : Text) → of_bytes (to_bytes p) ≡ p
of_bytes-to_bytes [] = refl
of_bytes-to_bytes (c ∷ cs) = λ i. whole i ∷ of_bytes-to_bytes cs i
  where
    whole : c % 256 + 256 * (c / 256 % 256) + 65536 * (c / 65536) ≡ c
    whole = omega arith

to_bytes-is_bytes : (p : Text) → is_text p ≡ true → is_bytes (to_bytes p) ≡ true
to_bytes-is_bytes [] h = refl
to_bytes-is_bytes (c ∷ cs) h = ground (arith, to_bytes-is_bytes cs)

base64_back : (b : Bytes) → map (λ x. x - 256) (map (λ x. x + 256) b) ≡ b
base64_back [] = refl
base64_back (x ∷ b) = let same : x + 256 - 256 ≡ x = omega arith in λ i. same i ∷ base64_back b i

base64_dotless : (b : Bytes) → without b'.' (map (λ x. x + 256) b) ≡ true
base64_dotless [] = refl
base64_dotless (x ∷ b) = ground (arith, base64_dotless b)

js-Lawful : Lawful js
js-Lawful = record {
  base64_back = λ b h. base64_back b;
  base64_dotless = λ b h. base64_dotless b;
  opens = λ key iv id p k v h. (
    record { ct = to_bytes p; tag = [] },
    refl,
    to_bytes-is_bytes p h,
    refl,
    ap some (of_bytes-to_bytes p),
  );
}

abbrev repeated : ℕ → ℕ → Bytes
repeated zero x = []
repeated (suc n) x = x ∷ repeated n x

abbrev old_key : Bytes
old_key = repeated 32 7

abbrev before_rotation : Keyring
before_rotation = record { active_key_id = codes "k1"; keys = (codes "k1", old_key) ∷ [] }

abbrev after_rotation : Keyring
after_rotation = record {
  active_key_id = codes "k2";
  keys = (codes "k2", repeated 32 9) ∷ (codes "k1", old_key) ∷ [];
}

abbrev vector : Bytes
vector = repeated 12 1

there_before : get_key before_rotation.keys before_rotation.active_key_id ≡ some old_key
unfolding get_key
there_before = refl

there_after : get_key after_rotation.keys before_rotation.active_key_id ≡ some old_key
unfolding get_key
there_after = refl

decrypt_secret-encrypt_secret_example :
    (value : Text) × (encrypt_secret js before_rotation vector (codes "pw") ≡ ok value)
    × (decrypt_secret js after_rotation value false ≡ ok (codes "pw"))
decrypt_secret-encrypt_secret_example =
    decrypt_secret-encrypt_secret js before_rotation after_rotation vector (codes "pw") old_key
      false js-Lawful there_before there_after refl refl refl refl refl

abbrev dotted_ring : Keyring
dotted_ring = record { active_key_id = codes "2024.1"; keys = (codes "2024.1", old_key) ∷ [] }

abbrev dotted_value : Text
dotted_value = envelope js (codes "2024.1") vector (record { ct = to_bytes (codes "pw"); tag = [] })

dotted_encrypts : encrypt_secret js dotted_ring vector (codes "pw") ≡ ok dotted_value
unfolding encrypt_secret get_key
dotted_encrypts = refl

decrypt_secret_dotted_example :
    decrypt_secret js dotted_ring dotted_value false ≡ err malformed_value
decrypt_secret_dotted_example =
    decrypt_secret_dotted js dotted_ring dotted_ring vector (codes "pw") dotted_value false refl
      dotted_encrypts

abbrev env_value : Text
env_value = codes "k1:" ++ map (λ x. x + 256) old_key

parsed : parse_keyring js env_value ≡ ok before_rotation
unfolding parse_keyring entries_of trim_left trim_right cut parse_entries set_key split_on
parsed = refl

parse_keyring-usable_example :
    (key : Bytes) × (get_key before_rotation.keys before_rotation.active_key_id ≡ some key)
    × (length key ≡ 32)
    × All HasLength before_rotation.keys
parse_keyring-usable_example = parse_keyring-usable js env_value before_rotation parsed
