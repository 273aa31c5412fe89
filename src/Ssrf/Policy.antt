-- ===== src/Ssrf/Policy.antt =====
-- What an accepted URL may reach.
use ai_devsecops_command_cen.Common.{
  ℕ, ◌≡◌, ◌≢◌, ◌⊎◌, inl, inr, refl, Bool, true, Option, none, some, List, [], ◌∷◌, All,
  Option-cases, Bool-cases,
}
use ai_devsecops_command_cen.Common.Text.{codes, text_eq}
use ai_devsecops_command_cen.Ssrf.Classify.{loopback, link_local, metadata, strip_brackets}
use ai_devsecops_command_cen.Ssrf.Check.{
  Url, Net, Reason, ServerUrlCheckResult, accepted, rejected, policy_reason_for, classify_address,
  verdict, check_url, check_server_url, check_all, check_resolved, check_host, check_server_url_dns,
}

-- An address that the policy lets through: no link-local or metadata address, and a loopback address
-- only where private APIs are allowed.
pub record IsAllowed (net : Net) (allow : Bool) (address : List ℕ) : Type 0 where
  pub no_link_local : classify_address net allow address ≢ some link_local
  pub no_metadata : classify_address net allow address ≢ some metadata
  pub no_loopback : classify_address net allow address ≡ some loopback → allow ≡ true

-- What an accepted URL promises.
pub record IsVetted (net : Net) (allow : Bool) (url : Url) : Type 0 where
  pub https : text_eq url.protocol (codes "https:") ≡ true
  pub host_allowed : IsAllowed net allow (strip_brackets url.hostname)
  pub addresses_allowed :
      net.is_ip (strip_brackets url.hostname) ≡ none
      → (found : List (List ℕ)) × (net.resolve (strip_brackets url.hostname) ≡ some found)
        × (found ≢ [])
        × All (IsAllowed net allow) found

module _ (net : Net) (allow : Bool) where
  verdict-IsAllowed :
      (address : List ℕ) → verdict net allow address ≡ none → IsAllowed net allow address
  unfolding verdict
  verdict-IsAllowed address h = record {
    no_link_local = λ e. cc (rw (e, verdict) at h);
    no_metadata = λ e. cc (rw (e, verdict) at h);
    no_loopback = λ e. elim (Bool-cases allow) [
      | inl on ↦ on
      | inr off ↦ cc (rw (e, verdict, policy_reason_for, off) at h)
    ];
  }

  check_all-IsAllowed :
      (addresses : List (List ℕ))
      → check_all net allow addresses ≡ accepted
      → All (IsAllowed net allow) addresses
  unfolding check_all
  check_all-IsAllowed [] h = tt
  check_all-IsAllowed (address ∷ rest) h = elim (Option-cases (verdict net allow address)) [
    | inl fine ↦
        (verdict-IsAllowed address fine, check_all-IsAllowed rest (rw (fine, check_all) at h))
    | inr (reason, bad) ↦ cc (rw (bad, check_all) at h)
  ]

  check_resolved-IsAllowed :
      (answer : Option (List (List ℕ)))
      → check_resolved net allow answer ≡ accepted
      → (found : List (List ℕ)) × (answer ≡ some found)
        × (found ≢ [])
        × All (IsAllowed net allow) found
  unfolding check_resolved
  check_resolved-IsAllowed none h = cc
  check_resolved-IsAllowed (some []) h = cc
  check_resolved-IsAllowed (some (address ∷ rest)) h =
      (address ∷ rest, refl, (λ e. cc), check_all-IsAllowed (address ∷ rest) h)

  check_host-IsAllowed :
      (host : List ℕ)
      → check_host net allow host ≡ accepted
      → net.is_ip host ≡ none
      → (found : List (List ℕ)) × (net.resolve host ≡ some found)
        × (found ≢ [])
        × All (IsAllowed net allow) found
  unfolding check_host
  check_host-IsAllowed host h name =
      check_resolved-IsAllowed (net.resolve host) (rw (name, check_host) at h)

  check_url-IsVetted :
      (u : Option Url)
      → check_url net allow u ≡ accepted
      → (url : Url) × (u ≡ some url)
        × (text_eq url.protocol (codes "https:") ≡ true)
        × IsAllowed net allow (strip_brackets url.hostname)
  unfolding check_url
  check_url-IsVetted none h = cc
  check_url-IsVetted (some url) h = elim (Bool-cases (text_eq url.protocol (codes "https:"))) [
    | inl https ↦ elim (Option-cases (verdict net allow (strip_brackets url.hostname))) [
      | inl fine ↦ (url, refl, https, verdict-IsAllowed (strip_brackets url.hostname) fine)
      | inr (reason, bad) ↦ cc (rw (https, bad, check_url) at h)
    ]
    | inr plain ↦ cc (rw (plain, check_url) at h)
  ]

  result-cases :
      (r : ServerUrlCheckResult) → (r ≡ accepted) ⊎ ((reason : Reason) × (r ≡ rejected reason))
  result-cases accepted = inl refl
  result-cases (rejected reason) = inr (reason, refl)

  -- An accepted URL parses, uses https, has no link-local or metadata address as its literal host
  -- (and no loopback address unless the option allows it); and where its host is a name, the name
  -- resolved, to at least one address, and every address it resolved to is allowed in the same sense.
  pub check_server_url_dns-IsVetted :
      (raw : List ℕ)
      → check_server_url_dns net allow raw ≡ accepted
      → (url : Url) × (net.parse_url raw ≡ some url) × IsVetted net allow url
  unfolding check_server_url_dns check_server_url
  check_server_url_dns-IsVetted raw h = elim (result-cases (check_server_url net allow raw)) [
    | inr (reason, bad) ↦ cc (rw (bad, check_server_url_dns) at h)
    | inl fine ↦ vet fine (check_url-IsVetted (net.parse_url raw) fine)
  ]
    where
      vet :
          check_server_url net allow raw ≡ accepted
          → (url : Url) × (net.parse_url raw ≡ some url)
            × (text_eq url.protocol (codes "https:") ≡ true)
            × IsAllowed net allow (strip_brackets url.hostname)
          → (url : Url) × (net.parse_url raw ≡ some url) × IsVetted net allow url
      vet fine (url, parsed, https, host) = (
        url,
        parsed,
        record {
          https = https;
          host_allowed = host;
          addresses_allowed =
              check_host-IsAllowed (strip_brackets url.hostname)
                (rw (fine, check_server_url_dns, parsed) at h);
        },
      )
