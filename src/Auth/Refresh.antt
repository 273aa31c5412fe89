-- ===== src/Auth/Refresh.antt =====
-- services/auth/src/services/token.service.ts: refresh tokens and their rotation. The ids that
-- `randomBytes` draws and the clock, in milliseconds, are arguments.
use ai_devsecops_command_cen.Common.{
  ℕ, ◌+◌, ◌-◌, ◌*◌, ◌/◌, Bool, true, false, Option, none, some, List, [], ◌∷◌, ltb, eqb,
  if◌then◌else◌,
}
use ai_devsecops_command_cen.Common.Text.{text_eq, split_on, is_digit}
use ai_devsecops_command_cen.Crypto.Splitting.{Text, join_with}
use ai_devsecops_command_cen.Auth.Base64.{b64url, b64url_decode}
use ai_devsecops_command_cen.Auth.Token.{
  Platform, sign_access_token, AccessTokenClaims, sign, JwtSecretOptions,
}

-- What is signed and read of a refresh token, with the issuer and the audience.
pub record RefreshPayload : Type 0 where
  pub sub : Text
  pub jti : Text
  pub iss : Text
  pub aud : Text
  pub iat : ℕ
  pub exp : ℕ

pub record RefreshDecoded : Type 0 where
  pub sub : Text
  pub jti : Text
  pub exp : Option ℕ

-- An entry of `refreshStore`. `payload` is the field that `rotateRefresh` looks for.
pub record RefreshEntry : Type 0 where
  pub sub : Text
  pub expires_at : ℕ
  pub payload : Option AccessTokenClaims

abbrev pub RefreshStore : Type 0
RefreshStore = List (Text × RefreshEntry)

pub record TokenPair : Type 0 where
  pub access_token : Text
  pub refresh_token : Text
  pub access_token_expires_in : ℕ
  pub refresh_token_expires_in : ℕ

pub record TokenServiceDeps : Type 0 where
  pub jwt : JwtSecretOptions
  pub access_ttl : Text
  pub refresh_ttl : Text

-- JSON for refresh tokens; `none` where `JSON.parse` throws.
pub record RefreshJson : Type 0 where
  pub stringify : RefreshPayload → Text
  pub parse : Text → Option RefreshDecoded

-- The seconds of a unit: s, m, h or d.
abbrev pub unit_seconds : ℕ → Option ℕ
unit_seconds c =
    if eqb c b's'
    then some 1
    else if eqb c b'm'
    then some 60
    else if eqb c b'h'
    then some (60 * 60)
    else if eqb c b'd'
    then some (60 * 60 * 24)
    else none

abbrev pub ttl_of : Option ℕ → ℕ → ℕ
ttl_of none n = 900
ttl_of (some unit) n = n * unit

-- The text from a digit on, where `seen` says that one was read before.
unfoldable pub ttl_from : Bool → ℕ → Text → ℕ
ttl_from seen n [] = 900
ttl_from seen n (c ∷ []) = if seen then ttl_of (unit_seconds c) n else 900
ttl_from seen n (c ∷ d ∷ cs) =
    let rest = ttl_from true (n * 10 + (c - b'0')) (d ∷ cs) in if is_digit c then rest else 900

unfoldable pub parse_ttl : Text → ℕ
unfolding ttl_from
parse_ttl ttl = ttl_from false 0 ttl

unfoldable pub get_entry : RefreshStore → Text → Option RefreshEntry
get_entry [] jti = none
get_entry ((j, e) ∷ store) jti = if text_eq j jti then some e else get_entry store jti

unfoldable pub set_entry : RefreshStore → Text → RefreshEntry → RefreshStore
set_entry [] jti entry = (jti, entry) ∷ []
set_entry ((j, e) ∷ store) jti entry =
    let rest = set_entry store jti entry in
    if text_eq j jti then (j, entry) ∷ store else (j, e) ∷ rest

unfoldable pub delete_entry : RefreshStore → Text → RefreshStore
delete_entry [] jti = []
delete_entry ((j, e) ∷ store) jti =
    let rest = delete_entry store jti in if text_eq j jti then rest else (j, e) ∷ rest

module _ (js : Platform) (json : RefreshJson) (deps : TokenServiceDeps) where
  -- `signJwt` of a refresh payload.
  unfoldable pub sign_refresh : Text → Text → ℕ → ℕ → Text
  unfolding b64url sign
  sign_refresh sub jti ttl now_ms =
      let now = now_ms / 1000 in
      let header = b64url js.to_base64 js.stringify_header in
      let body = b64url js.to_base64 (
        json.stringify (record {
          sub = sub;
          jti = jti;
          iss = deps.jwt.issuer;
          aud = deps.jwt.audience;
          iat = now;
          exp = now + ttl;
        })) in
      join_with b'.' (header ∷ body ∷ sign js header body deps.jwt.secret ∷ [])

  -- `issue`, with the id that it draws.
  unfoldable pub issue : AccessTokenClaims → Text → ℕ → RefreshStore → TokenPair × RefreshStore
  unfolding sign_refresh sign_access_token parse_ttl
  issue payload jti now_ms store =
      let access = parse_ttl deps.access_ttl in
      let refresh = parse_ttl deps.refresh_ttl in
      (
        record {
          access_token = sign_access_token js payload deps.jwt (now_ms / 1000) (some access);
          refresh_token = sign_refresh payload.sub jti refresh now_ms;
          access_token_expires_in = access;
          refresh_token_expires_in = refresh;
        },
        set_entry store jti
            (record { sub = payload.sub; expires_at = now_ms + refresh * 1000; payload = none }),
      )

  abbrev pub is_over : Option ℕ → ℕ → Bool
  is_over none now_ms = false
  is_over (some exp) now_ms = ltb (exp * 1000) now_ms

  abbrev pub unexpired : ℕ → Option RefreshDecoded → Option RefreshDecoded
  unexpired now_ms none = none
  unexpired now_ms (some d) = if is_over d.exp now_ms then none else some d

  -- `verifyJwt`, `none` where it throws.
  unfoldable pub verify_jwt_parts : ℕ → List Text → Option RefreshDecoded
  unfolding sign b64url_decode
  verify_jwt_parts now_ms (header ∷ body ∷ sig ∷ []) =
      if text_eq sig (sign js header body deps.jwt.secret)
      then unexpired now_ms (json.parse (b64url_decode js.from_base64 body))
      else none
  verify_jwt_parts now_ms _ = none

  unfoldable pub verify_jwt : Text → ℕ → Option RefreshDecoded
  unfolding verify_jwt_parts
  verify_jwt token now_ms = verify_jwt_parts now_ms (split_on b'.' token)

  abbrev pub reissued :
      Option AccessTokenClaims → Text → ℕ → RefreshStore → Option TokenPair × RefreshStore
  reissued none jti now_ms store = (none, store)
  reissued (some payload) jti now_ms store =
      let (pair, after) = issue payload jti now_ms store in (some pair, after)

  abbrev pub rotate_entry :
      RefreshDecoded
      → Option RefreshEntry
      → Text
      → ℕ
      → RefreshStore
      → Option TokenPair × RefreshStore
  rotate_entry d none jti now_ms store = (none, store)
  rotate_entry d (some e) jti now_ms store =
      if text_eq e.sub d.sub
      then reissued e.payload jti now_ms (delete_entry store d.jti)
      else (none, store)

  abbrev pub rotate_decoded :
      Option RefreshDecoded → Text → ℕ → RefreshStore → Option TokenPair × RefreshStore
  rotate_decoded none jti now_ms store = (none, store)
  rotate_decoded (some d) jti now_ms store = rotate_entry d (get_entry store d.jti) jti now_ms store

  -- `rotateRefresh`, with the id that a new token would draw.
  unfoldable pub rotate_refresh : Text → Text → ℕ → RefreshStore → Option TokenPair × RefreshStore
  unfolding verify_jwt
  rotate_refresh token jti now_ms store = rotate_decoded (verify_jwt token now_ms) jti now_ms store
