-- ===== src/Auth/Hook.antt =====
-- buildAuthHook: the identity that a request gets.
use ai_devsecops_command_cen.Common.{refl, false}
use ai_devsecops_command_cen.Common.{
  ℕ, ◌≡◌, ◌⊎◌, inl, inr, Bool, true, Option, none, some, List, [], ◌∷◌, ◌++◌, map, if◌then◌else◌,
  Bool-cases, or_else, is_some, any, drop,
}
use ai_devsecops_command_cen.Common.Text.{text_eq, split_on, after, codes, lower}
use ai_devsecops_command_cen.Crypto.Splitting.{Text}
use ai_devsecops_command_cen.Crypto.Parsing.{trim_left, trim_right}
use ai_devsecops_command_cen.Auth.Token.{
  Platform, ok, err, authentication_required, Verified, AuthError, Decoded, JwtSecretOptions, Claim,
  claim_text, no_claim, verify_access_token,
}
use ai_devsecops_command_cen.Auth.Accepts.{Accepted, verify_access_token-Accepted}

-- `url` is `req.routeOptions?.url ?? req.url ?? ''`.
pub record Request : Type 0 where
  pub url : Text
  pub authorization : Option Text
  pub x_tenant_id : Option Text
  pub x_user_id : Option Text

pub record AuthHookOptions : Type 0 where
  pub jwt : JwtSecretOptions
  pub optional_paths : Option (List Text)
  pub dev_bypass : Bool

-- `req.tenantId`, `req.userId` and `req.userRole`.
pub record Identity : Type 0 where
  pub tenant_id : Claim
  pub user_id : Claim
  pub user_role : Claim

pub data HookResult : Type 0 where
  let_through : HookResult  -- a public path: no identity
  identified : Identity → HookResult
  rejected : AuthError → HookResult

-- DEFAULT_PUBLIC_PATHS.
abbrev pub default_public_paths : List Text
default_public_paths = codes "/healthz" ∷ codes "/readyz" ∷ codes "/metrics" ∷ []

abbrev pub first_part : List Text → Text
first_part [] = []
first_part (part ∷ _) = part

unfoldable pub is_public : AuthHookOptions → Text → Bool
is_public opts url =
    let path = first_part (split_on b'?' url) in
    any (λ p. text_eq p path) (default_public_paths ++ or_else opts.optional_paths [])

-- The header says that a token follows.
abbrev pub is_bearer : Text → Bool
is_bearer header = is_some (after (codes "bearer ") (map lower header))

abbrev pub token_of : Text → Text
token_of header = trim_left (trim_right (drop 7 header))

abbrev pub identity_of : Decoded → Identity
identity_of d = record { tenant_id = d.tenant_id; user_id = d.sub; user_role = d.role }

abbrev pub header_identity : Request → Identity
header_identity req = record {
  tenant_id = claim_text (or_else req.x_tenant_id []);
  user_id = claim_text (or_else req.x_user_id []);
  user_role = no_claim;
}

abbrev pub of_verified : Verified Decoded → HookResult
of_verified (err e) = rejected e
of_verified (ok d) = identified (identity_of d)

abbrev pub without_token : AuthHookOptions → Request → HookResult
without_token opts req =
    if opts.dev_bypass then identified (header_identity req) else rejected authentication_required

abbrev pub bearer_of : Option Text → Option Text
bearer_of none = none
bearer_of (some header) = if is_bearer header then some header else none

module _ (js : Platform) where
  abbrev pub by_header : AuthHookOptions → ℕ → Request → Option Text → HookResult
  by_header opts now req none = without_token opts req
  by_header opts now req (some header) =
      of_verified (verify_access_token js (token_of header) opts.jwt now)

  unfoldable pub auth_hook : AuthHookOptions → ℕ → Request → HookResult
  unfolding is_public verify_access_token trim_left trim_right
  auth_hook opts now req =
      if is_public opts req.url
      then let_through
      else by_header opts now req (bearer_of req.authorization)

  -- The identity is that of a token which the header carries and which is accepted.
  pub record FromToken (opts : AuthHookOptions) (now : ℕ) (req : Request) (i : Identity)
      : Type 0 where
    header : Text
    claims : Decoded
    sent : bearer_of req.authorization ≡ some header
    accepted : Accepted js (token_of header) opts.jwt now claims
    taken : i ≡ identity_of claims

  -- The identity is what the client's own headers say.
  pub record FromHeaders (opts : AuthHookOptions) (req : Request) (i : Identity) : Type 0 where
    bypassed : opts.dev_bypass ≡ true
    no_token : bearer_of req.authorization ≡ none
    claimed : i ≡ header_identity req

  bypass_only :
      (opts : AuthHookOptions) (req : Request) (i : Identity) (b : Bool)
      → (if b then identified (header_identity req) else rejected authentication_required)
        ≡ identified i
      → (b ≡ true) × (i ≡ header_identity req)
  bypass_only opts req i true h = (refl, cc)
  bypass_only opts req i false h = cc

  token_only :
      (opts : AuthHookOptions) (now : ℕ) (req : Request) (i : Identity) (header : Text)
      (v : Verified Decoded)
      → bearer_of req.authorization ≡ some header
      → verify_access_token js (token_of header) opts.jwt now ≡ v
      → of_verified v ≡ identified i
      → FromToken opts now req i
  token_only opts now req i header (err x) sent e h = cc
  token_only opts now req i header (ok d) sent e h = record {
    header = header;
    claims = d;
    sent = sent;
    accepted = verify_access_token-Accepted js (token_of header) opts.jwt now d e;
    taken = cc;
  }

  identified_by :
      (opts : AuthHookOptions) (now : ℕ) (req : Request) (i : Identity) (o : Option Text)
      → bearer_of req.authorization ≡ o
      → by_header opts now req o ≡ identified i
      → FromToken opts now req i ⊎ FromHeaders opts req i
  identified_by opts now req i none sent h =
      let (b, e) = bypass_only opts req i opts.dev_bypass h in
      inr (record { bypassed = b; no_token = sent; claimed = e })
  identified_by opts now req i (some header) sent h =
      inl (token_only opts now req i header _ sent refl h)

  -- Where the hook identifies a request, the identity is that of the accepted bearer token that the
  -- request carries; only with `devBypass`, and where the Authorization header, if any, is not a
  -- bearer token, is it the one of the client's own headers.
  pub auth_hook_identity :
      (opts : AuthHookOptions) (now : ℕ) (req : Request) (i : Identity)
      → auth_hook opts now req ≡ identified i
      → FromToken opts now req i ⊎ FromHeaders opts req i
  unfolding auth_hook
  auth_hook_identity opts now req i h = elim (Bool-cases (is_public opts req.url)) [
    | inl t ↦ absurd (not_identified (rw t at h))
    | inr t ↦ identified_by opts now req i (bearer_of req.authorization) refl (rw t at h)
  ]
    where
      not_identified : let_through ≡ identified i → ⊥
      not_identified q = cc
