-- ===== src/Ssrf/Check.antt =====
-- The policy, `checkServerUrl` and `checkServerUrlDns`. `isIP`, the URL parser and the resolver are
-- parameters.
use ai_devsecops_command_cen.Common.{ℕ, Bool, not, Option, none, some, List, [], ◌∷◌, if◌then◌else◌}
use ai_devsecops_command_cen.Common.Text.{codes, text_eq}
use ai_devsecops_command_cen.Ssrf.Classify.{
  IpClass, loopback, link_local, metadata, private, public, IpVersion, v4, v6, classify_ipv4,
  classify_ipv6, strip_brackets,
}

-- The text of a URL that the parser accepts: its protocol and its host name.
pub record Url : Type 0 where
  pub protocol : List ℕ
  pub hostname : List ℕ

pub record Net : Type 0 where
  pub is_ip : List ℕ → Option IpVersion
  pub parse_url : List ℕ → Option Url
  -- the addresses of a host name; `none` where the resolver throws
  pub resolve : List ℕ → Option (List (List ℕ))

pub data Reason : Type 0 where
  invalid_url not_https link_local_or_metadata loopback_address unresolved no_address : Reason

pub data ServerUrlCheckResult : Type 0 where
  accepted : ServerUrlCheckResult
  rejected : Reason → ServerUrlCheckResult

abbrev pub policy_reason_for : IpClass → Bool → Option Reason
policy_reason_for link_local allow = some link_local_or_metadata
policy_reason_for metadata allow = some link_local_or_metadata
policy_reason_for loopback allow = if allow then none else some loopback_address
policy_reason_for private allow = none
policy_reason_for public allow = none

module _ (net : Net) (allow_private_api : Bool) where
  -- classifyAddress.
  unfoldable pub classify_address : List ℕ → Option IpClass
  classify_address address = elim (net.is_ip address) [
    | none ↦ none
    | some v4 ↦ some (classify_ipv4 address)
    | some v6 ↦ some (classify_ipv6 address)
  ]

  -- The class of an address, and what the policy says of it.
  unfoldable pub verdict : List ℕ → Option Reason
  verdict address = elim (classify_address address) [
    | none ↦ none
    | some kind ↦ policy_reason_for kind allow_private_api
  ]

  abbrev pub by_verdict : Option Reason → ServerUrlCheckResult
  by_verdict none = accepted
  by_verdict (some reason) = rejected reason

  unfoldable pub check_url : Option Url → ServerUrlCheckResult
  check_url none = rejected invalid_url
  check_url (some url) =
      if not (text_eq url.protocol (codes "https:"))
      then rejected not_https
      else by_verdict (verdict (strip_brackets url.hostname))

  unfoldable pub check_server_url : List ℕ → ServerUrlCheckResult
  check_server_url raw = check_url (net.parse_url raw)

  -- The loop over the resolved addresses.
  unfoldable pub check_all : List (List ℕ) → ServerUrlCheckResult
  check_all [] = accepted
  check_all (address ∷ rest) = elim (verdict address) [
    | some reason ↦ rejected reason
    | none ↦ check_all rest
  ]

  unfoldable pub check_resolved : Option (List (List ℕ)) → ServerUrlCheckResult
  check_resolved none = rejected unresolved
  check_resolved (some []) = rejected no_address
  check_resolved (some (address ∷ rest)) = check_all (address ∷ rest)

  -- A literal has been classified; a name is resolved.
  unfoldable pub check_host : List ℕ → ServerUrlCheckResult
  check_host host = elim (net.is_ip host) [
    | some _ ↦ accepted
    | none ↦ check_resolved (net.resolve host)
  ]

  abbrev pub host_of : Option Url → List ℕ
  host_of none = []
  host_of (some url) = strip_brackets url.hostname

  unfoldable pub check_server_url_dns : List ℕ → ServerUrlCheckResult
  check_server_url_dns raw = elim (check_server_url raw) [
    | rejected reason ↦ rejected reason
    | accepted ↦ check_host (host_of (net.parse_url raw))
  ]
