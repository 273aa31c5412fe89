-- ===== src/Ssrf/Examples.antt =====
-- Concrete checks of cluster URLs.
use ai_devsecops_command_cen.Common.{◌&&◌, eqb}
use ai_devsecops_command_cen.Common.{
  ℕ, ◌/◌, ◌%◌, ◌++◌, ◌≡◌, refl, true, false, Option, none, some, List, [], ◌∷◌, if◌then◌else◌,
}
use ai_devsecops_command_cen.Common.Text.{codes, text_eq, split_on, after, decimal, value_from}
use ai_devsecops_command_cen.Ssrf.Classify.{
  IpVersion, link_local, v4, v6, classify_ipv4, classify_ipv6, ipv4_octets, class_of_octets,
  embedded_ipv4, carried, dotted, drop_close,
}
use ai_devsecops_command_cen.Ssrf.Check.{
  Url, Net, accepted, rejected, link_local_or_metadata, classify_address, verdict, check_url,
  check_server_url, check_all, check_resolved, check_host, check_server_url_dns,
}
use ai_devsecops_command_cen.Ssrf.Dotted.{classify_ipv6-mapped}
use ai_devsecops_command_cen.Ssrf.Policy.{IsVetted, check_server_url_dns-IsVetted}

abbrev version_of : List ℕ → Option IpVersion
version_of host =
    if text_eq host (codes "10.0.0.5")
    then some v4
    else if text_eq host (codes "::ffff:169.254.169.254")
    then some v6
    else none

-- A resolver that answers with one private address, and a parser that reads every text as a host.
abbrev net : Net
net = record {
  is_ip = version_of;
  parse_url = λ raw. some (record { protocol = codes "https:"; hostname = raw });
  resolve = λ host. some (codes "10.0.0.5" ∷ []);
}

abbrev rebound : Net
rebound = record net {
  resolve = λ host. some (codes "10.0.0.5" ∷ codes "::ffff:169.254.169.254" ∷ []);
}

mapped_metadata : classify_ipv6 (codes "::ffff:a9fe:a9fe") ≡ link_local
unfolding classify_ipv6 embedded_ipv4 carried dotted classify_ipv4 ipv4_octets class_of_octets
    split_on after decimal value_from drop_close
mapped_metadata = refl

accepted_name : check_server_url_dns net false (codes "kube.example.com") ≡ accepted
unfolding check_server_url_dns check_server_url check_url check_host check_resolved check_all
    verdict classify_address classify_ipv4 ipv4_octets class_of_octets split_on value_from
    drop_close
accepted_name = refl

rejected_rebound :
    check_server_url_dns rebound true (codes "kube.example.com") ≡ rejected link_local_or_metadata
unfolding check_server_url_dns check_server_url check_url check_host check_resolved check_all
    verdict classify_address classify_ipv6 embedded_ipv4 carried dotted classify_ipv4 ipv4_octets
    class_of_octets split_on after decimal value_from drop_close
rejected_rebound = refl

check_server_url_dns-IsVetted_example :
    (url : Url) × (net.parse_url (codes "kube.example.com") ≡ some url) × IsVetted net false url
check_server_url_dns-IsVetted_example =
    check_server_url_dns-IsVetted net false (codes "kube.example.com") accepted_name

classify_ipv6-mapped_example :
    classify_ipv6 (codes "::ffff:" ++ (codes "6464" ++ (b':' ∷ codes "64c8")))
    ≡ class_of_octets
        (eqb (value_from 16 0 (codes "6464")) 25700 && eqb (value_from 16 0 (codes "64c8")) 25800)
        (value_from 16 0 (codes "6464") / 256)
        (value_from 16 0 (codes "6464") % 256)
classify_ipv6-mapped_example = classify_ipv6-mapped (codes "6464") (codes "64c8") refl refl
