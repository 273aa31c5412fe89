-- ===== src/Auth/Token.antt =====
-- signAccessToken and verifyAccessToken. HMAC, JSON and base64 are those of the platform; the clock's
-- reading, in whole seconds, is an argument. Text is its code points.
use ai_devsecops_command_cen.Common.{
  ℕ, ◌+◌, Bool, true, false, not, ◌||◌, Option, none, some, List, [], ◌∷◌, ◌++◌, ltb, if◌then◌else◌,
  or_else, any,
}
use ai_devsecops_command_cen.Common.Json.{Json}
use ai_devsecops_command_cen.Common.Text.{text_eq, split_on}
use ai_devsecops_command_cen.Crypto.Splitting.{Text, join_with}
use ai_devsecops_command_cen.Auth.Base64.{b64url, b64url_decode}

pub record AccessTokenClaims : Type 0 where
  pub sub : Text
  pub email : Option Text
  pub role : Text
  pub tenant_id : Text

pub record AccessTokenPayload : Type 0 where
  pub claims : AccessTokenClaims
  pub iss : Text
  pub aud : Text
  pub iat : ℕ
  pub exp : ℕ

pub record JwtSecretOptions : Type 0 where
  pub secret : Text
  pub issuer : Text
  pub audience : Text

-- `aud` of a parsed token: a text, an array of which the texts are kept, or something else.
pub data Audience : Type 0 where
  one : Text → Audience
  many : List Text → Audience
  other : Audience

-- `sub`, `role` or `tenantId` of a parsed token: a text, another value that `!` takes for present,
-- such as a number other than 0, or none of these (absent, null, false or 0).
pub data Claim : Type 0 where
  no_claim : Claim
  claim_text : Text → Claim
  claim_value : Json → Claim

-- The fields that are read of a parsed token; `none` where a field is absent or of another type.
pub record Decoded : Type 0 where
  pub exp : Option ℕ
  pub nbf : Option ℕ
  pub iss : Option Text
  pub aud : Audience
  pub sub : Claim
  pub role : Claim
  pub tenant_id : Claim

-- `digest` is the base64 of the HMAC-SHA256 of a text under a secret. `parse` is `JSON.parse`, `none`
-- where it throws.
pub record Platform : Type 0 where
  pub digest : Text → Text → Text
  pub to_base64 : Text → Text
  pub from_base64 : Text → Text
  pub stringify_header : Text
  pub stringify : AccessTokenPayload → Text
  pub parse : Text → Option Decoded

-- The messages of `UnauthorizedError`.
pub data AuthError : Type 0 where
  malformed bad_signature expired not_yet_valid bad_issuer bad_audience missing_claims : AuthError
  authentication_required : AuthError

pub data Verified {ℓ} (A : Type ℓ) : Type ℓ where
  ok : A → Verified A
  err : AuthError → Verified A

-- `!value` on a claim.
abbrev pub missing : Claim → Bool
missing no_claim = true
missing (claim_text []) = true
missing (claim_text (_ ∷ _)) = false
missing (claim_value _) = false

abbrev pub is_given : Option Text → Text → Bool
is_given none t = false
is_given (some s) t = text_eq s t

abbrev pub audience_ok : Audience → Text → Bool
audience_ok (one a) t = text_eq a t
audience_ok (many as') t = any (λ a. text_eq a t) as'
audience_ok other t = false

abbrev pub later_than : Option ℕ → ℕ → Bool
later_than none now = false
later_than (some t) now = ltb now t

abbrev pub earlier_than : Option ℕ → ℕ → Bool
earlier_than none now = false
earlier_than (some t) now = ltb t now

-- The checks of the claims, in order.
unfoldable pub check_claims : JwtSecretOptions → ℕ → Decoded → Verified Decoded
check_claims opts now d =
    if earlier_than d.exp now
    then err expired
    else if later_than d.nbf now
    then err not_yet_valid
    else if not (is_given d.iss opts.issuer)
    then err bad_issuer
    else if not (audience_ok d.aud opts.audience)
    then err bad_audience
    else if missing d.sub || (missing d.role || missing d.tenant_id)
    then err missing_claims
    else ok d

module _ (js : Platform) where
  unfoldable pub sign : Text → Text → Text → Text
  unfolding b64url
  sign header body secret = b64url (js.digest secret) (header ++ b'.' ∷ body)

  abbrev pub check_decoded : JwtSecretOptions → ℕ → Option Decoded → Verified Decoded
  check_decoded opts now none = err malformed
  check_decoded opts now (some d) = check_claims opts now d

  unfoldable pub verify_parts : JwtSecretOptions → ℕ → List Text → Verified Decoded
  unfolding sign b64url_decode
  verify_parts opts now (header ∷ body ∷ sig ∷ []) =
      if text_eq sig (sign header body opts.secret)
      then check_decoded opts now (js.parse (b64url_decode js.from_base64 body))
      else err bad_signature
  verify_parts opts now _ = err malformed

  unfoldable pub verify_access_token : Text → JwtSecretOptions → ℕ → Verified Decoded
  unfolding verify_parts
  verify_access_token token opts now = verify_parts opts now (split_on b'.' token)

  abbrev pub payload_of : AccessTokenClaims → JwtSecretOptions → ℕ → Option ℕ → AccessTokenPayload
  payload_of claims opts now ttl = record {
    claims = claims;
    iss = opts.issuer;
    aud = opts.audience;
    iat = now;
    exp = now + or_else ttl 900;
  }

  unfoldable pub sign_access_token : AccessTokenClaims → JwtSecretOptions → ℕ → Option ℕ → Text
  unfolding sign b64url
  sign_access_token claims opts now ttl =
      let header = b64url js.to_base64 js.stringify_header in
      let body = b64url js.to_base64 (js.stringify (payload_of claims opts now ttl)) in
      join_with b'.' (header ∷ body ∷ sign header body opts.secret ∷ [])
