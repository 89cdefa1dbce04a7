-- ===== src/Tests/Network.antt =====
-- The outbound policy of crates/erabi-crawler/src/network_policy.rs at concrete inputs.
use erabi.Base.{
  ◌≤◌, ◌<◌, ◌≡◌, refl, ◌↔◌, true, none, some, List, [], ◌∷◌, ok, arith, All, length, max,
}
use erabi.Text.{text, text_eq}
use erabi.Url.{Ipv4Addr, Ipv6Addr, domain, Url}
use erabi.Network.{
  v4, SocketAddr, resolve_static, NetworkTargetPolicy, new, ValidatedNetworkTarget,
  is_public_unicast, ip_lt, socket_lt, insert, normalize, normalize_and_validate_addresses,
  validate_url_shape, validate_url, addresses_of, validate_and_resolve, answered,
}
use erabi.Network.Public.{is_public_ipv4, is_public_ipv6}
use erabi.Network.Ranges.{IsOctets, InBlock, is_public_ipv4_iff}
use erabi.Network.Ranges
use erabi.Network.Ranges6.{IsSegments, is_public_ipv6_iff}
use erabi.Network.Ranges6
use erabi.Network.Targets.{IsTarget, IsSafe, validate_and_resolve-IsSafe}
use erabi.Network.Pinning.{SameIps, validate_and_resolve-SameIps}

abbrev public : Ipv4Addr
public = record { first = 93; second = 184; third = 215; fourth = 14 }

public-IsOctets : IsOctets public
public-IsOctets = omega arith

is_public_ipv4_iff_example :
    is_public_ipv4 public ≡ true ↔ All (λ b. ¬ (InBlock (Ranges.number public) b)) Ranges.prohibited
is_public_ipv4_iff_example = is_public_ipv4_iff public public-IsOctets

abbrev mapped : Ipv6Addr
mapped = record { s0 = 0; s1 = 0; s2 = 0; s3 = 0; s4 = 0; s5 = 65535; s6 = 32512; s7 = 1 }

mapped-IsSegments : IsSegments mapped
mapped-IsSegments = omega arith

is_public_ipv6_iff_example :
    is_public_ipv6 mapped ≡ true
    ↔ All (λ b. ¬ (InBlock (Ranges6.number mapped) b)) Ranges6.prohibited
is_public_ipv6_iff_example = is_public_ipv6_iff mapped mapped-IsSegments

abbrev answer : List SocketAddr
answer = record { ip = v4 public; port = 0 } ∷ record { ip = v4 public; port = 53 } ∷ []

abbrev page : Url
page = record {
  scheme = text "https";
  username = [];
  password = none;
  host = some (domain (text "example.com"));
  host_str = some (text "example.com");
  port_or_known_default = some 443;
  path = text "/";
  query = none;
  fragment = none;
}

abbrev policy : NetworkTargetPolicy
policy = new (resolve_static ((text "example.com", ok answer) ∷ []))

abbrev target : ValidatedNetworkTarget
target = record {
  url = page;
  host = text "example.com";
  port = 443;
  addresses = record { ip = v4 public; port = 443 } ∷ [];
}

target_accepted : validate_and_resolve policy page ≡ ok target
unfolding validate_and_resolve validate_url validate_url_shape text_eq addresses_of new
    resolve_static normalize_and_validate_addresses normalize insert socket_lt ip_lt
    is_public_unicast is_public_ipv4
target_accepted = refl

validate_and_resolve-IsSafe_example :
    IsTarget page
    × (target.url ≡ page)
    × (page.host_str ≡ some target.host)
    × (page.port_or_known_default ≡ some target.port)
    × All (IsSafe target.port) target.addresses
    × (0 < length target.addresses)
    × (length target.addresses ≤ max 1 policy.address_limit)
validate_and_resolve-IsSafe_example = validate_and_resolve-IsSafe policy page target target_accepted

resolver_answers : policy.resolver target.host target.port ≡ answered (ok answer)
unfolding new resolve_static text_eq
resolver_answers = refl

validate_and_resolve-SameIps_example : SameIps answer target.addresses
validate_and_resolve-SameIps_example =
    validate_and_resolve-SameIps policy page (text "example.com") answer target refl
      resolver_answers target_accepted
