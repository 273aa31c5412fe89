-- ===== src/Auth/Accepts.antt =====
-- What verifyAccessToken accepts.
use ai_devsecops_command_cen.Common.{inl, inr, Bool, not, List, if◌then◌else◌, Bool-cases}
use mathlib.Core.Path.{subst}
use ai_devsecops_command_cen.Common.{refl, ◌||◌, ◌++◌, arith, ltb}
use ai_devsecops_command_cen.Common.{
  ℕ, ◌+◌, ◌≤◌, ◌≡◌, ap, ◌∙◌, true, false, Option, none, some, [], ◌∷◌, or_else,
}
use ai_devsecops_command_cen.Common.Text.{text_eq, split_on, text_eq_refl, text_eq→≡}
use ai_devsecops_command_cen.Crypto.RoundTrip.{is_text}
use ai_devsecops_command_cen.Crypto.Splitting.{Text, without, split_on-join_with}
use ai_devsecops_command_cen.Auth.Base64.{
  b64url, b64url_decode, IsPadded, b64url-dotless, b64url_decode-b64url,
}
use ai_devsecops_command_cen.Auth.Token.{
  Platform, ok, err, check_claims, expired, AccessTokenClaims, AccessTokenPayload, JwtSecretOptions,
  Decoded, claim_text, missing, verify_access_token, one, sign, sign_access_token, earlier_than,
  payload_of, later_than, is_given, verify_parts, audience_ok, check_decoded, AuthError,
  not_yet_valid, Verified, bad_issuer, bad_audience, missing_claims,
}

-- What `JSON.parse` gives of a payload.
abbrev pub decoded_of : AccessTokenPayload → Decoded
decoded_of p = record {
  exp = some p.exp;
  nbf = none;
  iss = some p.iss;
  aud = one p.aud;
  sub = claim_text p.claims.sub;
  role = claim_text p.claims.role;
  tenant_id = claim_text p.claims.tenant_id;
}

-- What is documented of base64, and of JSON at a payload: padding, and that what was written is read
-- back.
pub record Lawful (js : Platform) (p : AccessTokenPayload) : Type 0 where
  pub padded : (s : Text) → IsPadded (js.to_base64 s)
  pub digest_padded : (secret s : Text) → IsPadded (js.digest secret s)
  pub base64_back : (s : Text) → is_text s ≡ true → js.from_base64 (js.to_base64 s) ≡ s
  pub json_text : is_text (js.stringify p) ≡ true
  pub json_back : js.parse (js.stringify p) ≡ some (decoded_of p)

-- The claims that are required.
pub record IsComplete (c : AccessTokenClaims) : Type 0 where
  pub has_sub : missing (claim_text c.sub) ≡ false
  pub has_role : missing (claim_text c.role) ≡ false
  pub has_tenant : missing (claim_text c.tenant_id) ≡ false

-- What an accepted token is: signed under the secret, in time, from the issuer, for the audience, and
-- with the required claims.
pub record Accepted (js : Platform) (token : Text) (opts : JwtSecretOptions) (now : ℕ) (d : Decoded)
    : Type 0 where
  pub header : Text
  pub body : Text
  pub signed : split_on b'.' token ≡ header ∷ body ∷ sign js header body opts.secret ∷ []
  pub claimed : js.parse (b64url_decode js.from_base64 body) ≡ some d
  pub in_time : earlier_than d.exp now ≡ false
  pub valid_already : later_than d.nbf now ≡ false
  pub issued : is_given d.iss opts.issuer ≡ true
  pub for_audience : audience_ok d.aud opts.audience ≡ true
  pub with_sub : missing d.sub ≡ false
  pub with_role : missing d.role ≡ false
  pub with_tenant : missing d.tenant_id ≡ false

module _ (js : Platform) (opts : JwtSecretOptions) where
  verify_parts-signed :
      (header body : Text) (now : ℕ)
      → verify_parts js opts now (header ∷ body ∷ sign js header body opts.secret ∷ [])
        ≡ check_decoded js opts now (js.parse (b64url_decode js.from_base64 body))
  unfolding verify_parts
  verify_parts-signed header body now = rw (text_eq_refl (sign js header body opts.secret)) refl

  sign-dotless :
      {p : AccessTokenPayload}
      → Lawful js p
      → (header body : Text) → without b'.' (sign js header body opts.secret) ≡ true
  unfolding sign
  sign-dotless laws header body =
      b64url-dotless (js.digest opts.secret) (header ++ b'.' ∷ body)
        (laws.digest_padded opts.secret (header ++ b'.' ∷ body))

  check_claims-fresh :
      (claims : AccessTokenClaims) (now later : ℕ) (ttl : Option ℕ)
      → IsComplete claims
      → later ≤ now + or_else ttl 900
      → let d = decoded_of (payload_of js claims opts now ttl) in check_claims opts later d ≡ ok d
  unfolding check_claims
  check_claims-fresh claims now later ttl complete in_time =
      let fresh : ltb (now + or_else ttl 900) later ≡ false = ground arith in
      rw
        (
          fresh,
          text_eq_refl opts.issuer,
          text_eq_refl opts.audience,
          complete.has_sub,
          complete.has_role,
          complete.has_tenant,
        )
        refl

module _ (js : Platform) (claims : AccessTokenClaims) (opts : JwtSecretOptions) where
  -- A token that was signed with complete claims is accepted with them, under the same secret, issuer
  -- and audience, until its time to live is over.
  pub verify_access_token-sign_access_token :
      (now later : ℕ) (ttl : Option ℕ)
      → Lawful js (payload_of js claims opts now ttl)
      → IsComplete claims
      → later ≤ now + or_else ttl 900
      → verify_access_token js (sign_access_token js claims opts now ttl) opts later
        ≡ ok (decoded_of (payload_of js claims opts now ttl))
  unfolding verify_access_token sign_access_token
  verify_access_token-sign_access_token now later ttl laws complete in_time =
      let p = payload_of js claims opts now ttl in
      let header = b64url js.to_base64 js.stringify_header in
      let body = b64url js.to_base64 (js.stringify p) in
      let sig = sign js header body opts.secret in
      let parts = split_on-join_with b'.' header (body ∷ sig ∷ []) (
        b64url-dotless js.to_base64 js.stringify_header (laws.padded js.stringify_header),
        (
          b64url-dotless js.to_base64 (js.stringify p) (laws.padded (js.stringify p)),
          (sign-dotless js opts laws header body, tt),
        ),
      ) in
      let read =
        b64url_decode-b64url js.to_base64 js.from_base64 (js.stringify p)
          (laws.padded (js.stringify p)) (laws.base64_back (js.stringify p) (laws.json_text)) in
      ap (verify_parts js opts later) parts
      ∙ verify_parts-signed js opts header body later
      ∙ ap (λ t. check_decoded js opts later (js.parse t)) read
      ∙ ap (check_decoded js opts later) laws.json_back
      ∙ check_claims-fresh js opts claims now later ttl complete in_time

-- The checks that a claim set has passed.
record Passed (opts : JwtSecretOptions) (now : ℕ) (d e : Decoded) : Type 0 where
  same : d ≡ e
  p_time : earlier_than d.exp now ≡ false
  p_valid : later_than d.nbf now ≡ false
  p_issuer : is_given d.iss opts.issuer ≡ true
  p_audience : audience_ok d.aud opts.audience ≡ true
  p_claims : (missing d.sub || (missing d.role || missing d.tenant_id)) ≡ false

-- A check that was passed.
passed :
    (fails : Bool) (x : AuthError) (rest : Verified Decoded) (d : Decoded)
    → (if fails then err x else rest) ≡ ok d
    → (fails ≡ false) × (rest ≡ ok d)
passed true x rest d h = cc
passed false x rest d h = (refl, h)

check_claims-Passed :
    (opts : JwtSecretOptions) (now : ℕ) (d e : Decoded)
    → check_claims opts now d ≡ ok e
    → Passed opts now d e
unfolding check_claims
check_claims-Passed opts now d e h =
    let (time, h1) = passed (earlier_than d.exp now) expired _ e h in
    let (valid, h2) = passed (later_than d.nbf now) not_yet_valid _ e h1 in
    let (issuer, h3) = passed (not (is_given d.iss opts.issuer)) bad_issuer _ e h2 in
    let (audience, h4) = passed (not (audience_ok d.aud opts.audience)) bad_audience _ e h3 in
    let (claims, h5) =
      passed (missing d.sub || (missing d.role || missing d.tenant_id)) missing_claims (ok d) e
        h4 in
    record {
      same = cc;
      p_time = time;
      p_valid = valid;
      p_issuer = ground arith;
      p_audience = ground arith;
      p_claims = claims;
    }

module _ (js : Platform) (token : Text) (opts : JwtSecretOptions) (now : ℕ) (e : Decoded) where
  claims-Accepted :
      (header body : Text) (o : Option Decoded)
      → split_on b'.' token ≡ header ∷ body ∷ sign js header body opts.secret ∷ []
      → js.parse (b64url_decode js.from_base64 body) ≡ o
      → check_decoded js opts now o ≡ ok e
      → Accepted js token opts now e
  claims-Accepted header body none signed read h = cc
  claims-Accepted header body (some d) signed read h =
      let p = check_claims-Passed opts now d e h in
      subst (Accepted js token opts now) p.same (record {
        header = header;
        body = body;
        signed = signed;
        claimed = read;
        in_time = p.p_time;
        valid_already = p.p_valid;
        issued = p.p_issuer;
        for_audience = p.p_audience;
        with_sub = ground (arith, p.p_claims);
        with_role = ground (arith, p.p_claims);
        with_tenant = ground (arith, p.p_claims);
      })

  parts-Accepted :
      (parts : List Text)
      → split_on b'.' token ≡ parts
      → verify_parts js opts now parts ≡ ok e
      → Accepted js token opts now e
  unfolding verify_parts
  parts-Accepted [] s h = cc
  parts-Accepted (a ∷ []) s h = cc
  parts-Accepted (a ∷ b ∷ []) s h = cc
  parts-Accepted (header ∷ body ∷ sig ∷ []) s h =
      elim (Bool-cases (text_eq sig (sign js header body opts.secret))) [
        | inl t ↦
            let same = text_eq→≡ sig (sign js header body opts.secret) t in
            claims-Accepted header body (js.parse (b64url_decode js.from_base64 body))
              (s ∙ ap (λ x. header ∷ body ∷ x ∷ []) same) refl (rw t at h)
        | inr t ↦ absurd (refused (rw t at h))
      ]
    where
      refused : {A : Type 0} {x : AuthError} {a : A} → err x ≡ ok a → ⊥
      refused q = cc
  parts-Accepted (a ∷ b ∷ c ∷ d ∷ rest) s h = cc

  -- Whatever token is accepted is signed under the secret, in time, from the issuer, for the audience
  -- and with the required claims, and what is returned is what its body says.
  pub verify_access_token-Accepted :
      verify_access_token js token opts now ≡ ok e → Accepted js token opts now e
  unfolding verify_access_token
  verify_access_token-Accepted h = parts-Accepted (split_on b'.' token) refl h
