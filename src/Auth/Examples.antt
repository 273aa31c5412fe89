-- ===== src/Auth/Examples.antt =====
-- A stand-in for the platform that meets its laws, and concrete tokens and requests.
use ai_devsecops_command_cen.Auth.Refresh.{
  RefreshDecoded, RefreshEntry, RefreshJson, TokenServiceDeps, issue, parse_ttl, rotate_refresh,
  sign_refresh, verify_jwt, get_entry, ttl_from, verify_jwt_parts, set_entry,
}
use ai_devsecops_command_cen.Auth.Hook.{
  AuthHookOptions, FromToken, Request, auth_hook, header_identity, is_public, FromHeaders,
  identified, auth_hook_identity,
}
use ai_devsecops_command_cen.Common.{◌⊎◌, none, some, List}
use ai_devsecops_command_cen.Common.{
  ℕ, ◌+◌, ◌-◌, ◌*◌, ◌/◌, ◌%◌, ◌<◌, ◌≡◌, refl, sym, true, [], ◌∷◌, arith, length, all,
}
use mathlib.Core.List.{append-nil}
use ai_devsecops_command_cen.Common.Text.{codes, split_on, after}
use ai_devsecops_command_cen.Crypto.RoundTrip.{is_text}
use ai_devsecops_command_cen.Crypto.Splitting.{Text, join_with}
use ai_devsecops_command_cen.Auth.Base64.{
  b64url, b64url_decode, is_base64, IsPadded, strip_padding, b64url_decode-b64url,
}
use ai_devsecops_command_cen.Auth.Token.{
  Platform, ok, sign, AccessTokenClaims, AccessTokenPayload, JwtSecretOptions, sign_access_token,
  verify_access_token, verify_parts, check_claims,
}
use ai_devsecops_command_cen.Auth.Accepts.{
  Lawful, decoded_of, Accepted, verify_access_token-Accepted, verify_access_token-sign_access_token,
}
use ai_devsecops_command_cen.Auth.Rotation.{rotate_refresh_burns, issuing, calls, call, Call}

-- A code point as eight letters, from 'A' to 'P'.
abbrev letter : ℕ → ℕ
letter n = 65 + n % 16

abbrev to_letters : Text → Text
to_letters [] = []
to_letters (c ∷ cs) =
    let a = c / 16 in
    let b = a / 16 in
    let d = b / 16 in
    let e = d / 16 in
    let f = e / 16 in
    letter c ∷ letter a ∷ letter b ∷ letter d ∷ letter e ∷ letter f ∷ 65 ∷ 65 ∷ to_letters cs

abbrev of_letters : Text → Text
of_letters (c ∷ a ∷ b ∷ d ∷ e ∷ f ∷ _ ∷ _ ∷ cs) =
    ((c - 65)
      + 16 * ((a - 65) + 16 * ((b - 65) + 16 * ((d - 65) + 16 * ((e - 65) + 16 * (f - 65))))))
    ∷ of_letters cs
of_letters _ = []

letter_back : (n : ℕ) → letter n - 65 + 16 * (n / 16) ≡ n
letter_back n = omega arith

of_letters-to_letters : (s : Text) → is_text s ≡ true → of_letters (to_letters s) ≡ s
of_letters-to_letters [] h = refl
of_letters-to_letters (c ∷ cs) h =
    let small : c < 0x110000 = ground arith in
    let rest = of_letters-to_letters cs (ground arith) in λ i. whole small i ∷ rest i
  where
    whole :
        c < 0x110000
        → (letter c - 65)
            + 16
              * ((letter (c / 16) - 65)
                  + 16
                    * ((letter (c / 16 / 16) - 65)
                        + 16
                          * ((letter (c / 16 / 16 / 16) - 65)
                              + 16
                                * ((letter (c / 16 / 16 / 16 / 16) - 65)
                                    + 16 * (letter (c / 16 / 16 / 16 / 16 / 16) - 65)))))
          ≡ c
    whole small = omega arith

letters-length : (s : Text) → length (to_letters s) ≡ 8 * length s
letters-length [] = refl
letters-length (c ∷ cs) = omega (arith, letters-length cs)

letter-is_base64 : (n : ℕ) → is_base64 (letter n) ≡ true
letter-is_base64 n = ground arith

letters-alphabet : (s : Text) → all (λ c. is_base64 c) (to_letters s) ≡ true
letters-alphabet [] = refl
letters-alphabet (c ∷ cs) =
    let a = c / 16 in
    let b = a / 16 in
    let d = b / 16 in
    let e = d / 16 in
    rw
      (
        letter-is_base64 c,
        letter-is_base64 a,
        letter-is_base64 b,
        letter-is_base64 d,
        letter-is_base64 e,
        letter-is_base64 (e / 16),
      )
      (letters-alphabet cs)

to_letters-IsPadded : (s : Text) → IsPadded (to_letters s)
to_letters-IsPadded s = record {
  body = to_letters s;
  pads = 0;
  shape = sym (append-nil (to_letters s));
  few = omega arith;
  whole = omega (arith, letters-length s);
  alphabet = letters-alphabet s;
}

abbrev claims : AccessTokenClaims
claims = record { sub = codes "u1"; email = none; role = codes "admin"; tenant_id = codes "acme" }

abbrev jwt : JwtSecretOptions
jwt = record { secret = codes "s3"; issuer = codes "aicc"; audience = codes "api" }

abbrev payload : AccessTokenPayload
payload = record { claims = claims; iss = codes "aicc"; aud = codes "api"; iat = 100; exp = 1000 }

-- Its JSON knows one payload.
abbrev js : Platform
js = record {
  digest = λ secret s. to_letters secret;
  to_base64 = to_letters;
  from_base64 = of_letters;
  stringify_header = codes "{}";
  stringify = λ p. codes "{1}";
  parse = λ t. some (decoded_of payload);
}

js-Lawful : Lawful js payload
js-Lawful = record {
  padded = to_letters-IsPadded;
  digest_padded = λ secret s. to_letters-IsPadded secret;
  base64_back = of_letters-to_letters;
  json_text = refl;
  json_back = refl;
}

abbrev token : Text
token = sign_access_token js claims jwt 100 none

verify_access_token-sign_access_token_example :
    verify_access_token js token jwt 1000 ≡ ok (decoded_of payload)
verify_access_token-sign_access_token_example =
    verify_access_token-sign_access_token js claims jwt 100 1000 none js-Lawful
      (record { has_sub = refl; has_role = refl; has_tenant = refl }) (omega arith)

token_accepted : verify_access_token js token jwt 1000 ≡ ok (decoded_of payload)
unfolding verify_access_token verify_parts sign_access_token sign b64url b64url_decode strip_padding
    join_with split_on check_claims
token_accepted = refl

verify_access_token-Accepted_example : Accepted js token jwt 1000 (decoded_of payload)
verify_access_token-Accepted_example =
    verify_access_token-Accepted js token jwt 1000 (decoded_of payload) token_accepted

b64url_decode-b64url_example :
    b64url_decode of_letters (b64url to_letters (codes "a.b?")) ≡ codes "a.b?"
b64url_decode-b64url_example =
    b64url_decode-b64url to_letters of_letters (codes "a.b?") (to_letters-IsPadded (codes "a.b?"))
      refl

abbrev hook_options : AuthHookOptions
hook_options = record { jwt = jwt; optional_paths = none; dev_bypass = true }

-- Basic authentication, with a tenant of the client's choice.
abbrev basic : Request
basic = record {
  url = codes "/items?x";
  authorization = some (codes "Basic dTpw");
  x_tenant_id = some (codes "other");
  x_user_id = none;
}

basic_identified : auth_hook js hook_options 0 basic ≡ identified (header_identity basic)
unfolding auth_hook is_public split_on after
basic_identified = refl

auth_hook_identity_example :
    FromToken js hook_options 0 basic (header_identity basic)
    ⊎ FromHeaders js hook_options basic (header_identity basic)
auth_hook_identity_example =
    auth_hook_identity js hook_options 0 basic (header_identity basic) basic_identified

abbrev json : RefreshJson
json = record {
  stringify = λ p. codes "{2}";
  parse = λ t. some (record { sub = codes "u1"; jti = codes "j1"; exp = some 2000 });
}

abbrev deps : TokenServiceDeps
deps = record { jwt = jwt; access_ttl = codes "15m"; refresh_ttl = codes "7d" }

fifteen_minutes : parse_ttl (codes "15m") ≡ 900
unfolding parse_ttl ttl_from
fifteen_minutes = refl

abbrev login : List Call
login = issuing claims (codes "j1") 100000 ∷ []

abbrev refresh_token : Text
refresh_token = sign_refresh js json deps (codes "u1") (codes "j1") 604800 100000

abbrev entry : RefreshEntry
entry = record { sub = codes "u1"; expires_at = 100000 + 604800 * 1000; payload = none }

abbrev told : RefreshDecoded
told = record { sub = codes "u1"; jti = codes "j1"; exp = some 2000 }

refresh_verifies : verify_jwt js json deps refresh_token 200000 ≡ some told
unfolding verify_jwt verify_jwt_parts sign_refresh sign b64url b64url_decode strip_padding join_with
    split_on
refresh_verifies = refl

refresh_stored : get_entry (calls js json deps login []) (codes "j1") ≡ some entry
unfolding calls call issue get_entry set_entry parse_ttl ttl_from
refresh_stored = refl

rotate_refresh_burns_example :
    let (result, store) =
      rotate_refresh js json deps refresh_token (codes "j2") 200000 (calls js json deps login []) in
    (result ≡ none) × (get_entry store (codes "j1") ≡ none)
rotate_refresh_burns_example =
    rotate_refresh_burns js json deps login refresh_token (codes "j2") 200000 told entry
      refresh_verifies refresh_stored refl
