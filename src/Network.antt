-- ===== src/Network.antt =====
-- crates/erabi-crawler/src/network_policy.rs: which outbound targets the crawler accepts. The
-- resolver is a function from a host and a port to what the await of its answer gives.
pub mod Public
pub mod Ranges
pub mod Ranges6
pub mod Normalize
pub mod Addresses
pub mod Targets
pub mod Pinning
use erabi.Base.{
  ℕ, ◌+◌, ◌-◌, ◌%◌, Bool, true, false, not, ◌&&◌, ◌||◌, List, [], ◌∷◌, ◌++◌, Option, none, some,
  Result, ok, err, ◌>>=◌, ◌>>◌, reject, ok_or, map_err, ltb, leb, ◌==◌, if◌then◌else◌, is_none,
  is_some, is_empty, length, min,
}
use erabi.Text.{Text, text, text_eq}
use erabi.Url.{Ipv4Addr, Ipv6Addr, Host, domain, ipv4, ipv6, Url}
use erabi.Network.Public.{is_public_ipv4, is_public_ipv6}
use erabi.Pacing.{Duration, secs}

abbrev pub default_network_resolution_timeout : Duration
default_network_resolution_timeout = secs 3

abbrev pub default_network_resolution_address_limit : ℕ
default_network_resolution_address_limit = 16

pub data IpAddr : Type 0 where
  v4 : Ipv4Addr → IpAddr
  v6 : Ipv6Addr → IpAddr

pub record SocketAddr : Type 0 where
  pub ip : IpAddr
  pub port : ℕ  -- u16

pub data NetworkResolveError : Type 0 where
  failed too_many_addresses : NetworkResolveError

-- The outcome of `timeout(resolution_timeout, resolver.resolve(host, port)).await`.
pub data Resolution : Type 0 where
  timed_out : Resolution
  answered : Result (List SocketAddr) NetworkResolveError → Resolution

pub data NetworkTargetError : Type 0 where
  unsupported_scheme missing_host credentials_not_allowed fragment_not_allowed : NetworkTargetError
  invalid_port prohibited_literal_address resolution_failed : NetworkTargetError
  resolution_timed_out empty_resolution too_many_resolved : NetworkTargetError
  prohibited_resolved_address : NetworkTargetError

pub record NetworkTargetPolicy : Type 0 where
  pub resolver : Text → ℕ → Resolution
  pub resolution_timeout : Duration
  pub address_limit : ℕ

unfoldable pub new : (Text → ℕ → Resolution) → NetworkTargetPolicy
new resolver = record {
  resolver = resolver;
  resolution_timeout = default_network_resolution_timeout;
  address_limit = default_network_resolution_address_limit;
}

unfoldable pub with_resolution_timeout : NetworkTargetPolicy → Duration → NetworkTargetPolicy
with_resolution_timeout p timeout = record p {
  resolution_timeout = min timeout default_network_resolution_timeout;
}

unfoldable pub with_address_limit : NetworkTargetPolicy → ℕ → NetworkTargetPolicy
with_address_limit p limit = record p {
  address_limit = min limit default_network_resolution_address_limit;
}

-- The loop of `SystemNetworkResolver::resolve`, over what the lookup yields.
unfoldable pub collect :
    List SocketAddr → List SocketAddr → Result (List SocketAddr) NetworkResolveError
collect addresses [] = ok addresses
collect addresses (a ∷ found) =
    let rest = collect (addresses ++ (a ∷ [])) found in
    if leb default_network_resolution_address_limit (length addresses)
    then err too_many_addresses
    else rest

abbrev pub Answers : Type 0
Answers = List (Text × Result (List SocketAddr) NetworkResolveError)

-- `StaticNetworkResolver::resolve`, at the answers that it was made with.
unfoldable pub resolve_static : Answers → Text → ℕ → Resolution
resolve_static [] host port = answered (err failed)
resolve_static ((h, answer) ∷ answers) host port =
    if text_eq h host then answered answer else resolve_static answers host port

unfoldable pub is_public_unicast : IpAddr → Bool
is_public_unicast (v4 a) = is_public_ipv4 a
is_public_unicast (v6 a) = is_public_ipv6 a

-- The order of two addresses of one kind is that of their parts, first to last.
abbrev pub parts_lt : List (ℕ × ℕ) → Bool
parts_lt [] = false
parts_lt ((a, b) ∷ rest) = ltb a b || (a == b && parts_lt rest)

abbrev pub ipv4_lt : Ipv4Addr → Ipv4Addr → Bool
ipv4_lt a b =
    parts_lt
      ((a.first, b.first) ∷ (a.second, b.second) ∷ (a.third, b.third) ∷ (a.fourth, b.fourth) ∷ [])

abbrev pub ipv6_lt : Ipv6Addr → Ipv6Addr → Bool
ipv6_lt a b = parts_lt (
    (a.s0, b.s0)
    ∷ (a.s1, b.s1)
    ∷ (a.s2, b.s2)
    ∷ (a.s3, b.s3)
    ∷ (a.s4, b.s4)
    ∷ (a.s5, b.s5)
    ∷ (a.s6, b.s6)
    ∷ (a.s7, b.s7)
    ∷ [])

unfoldable pub ip_lt : IpAddr → IpAddr → Bool
ip_lt (v4 a) (v4 b) = ipv4_lt a b
ip_lt (v4 _) (v6 _) = true
ip_lt (v6 _) (v4 _) = false
ip_lt (v6 a) (v6 b) = ipv6_lt a b

unfoldable pub socket_lt : SocketAddr → SocketAddr → Bool
socket_lt a b = ip_lt a.ip b.ip || (not (ip_lt b.ip a.ip) && ltb a.port b.port)

-- `BTreeSet::insert` on the set as the list of its members in order.
unfoldable pub insert : SocketAddr → List SocketAddr → List SocketAddr
insert a [] = a ∷ []
insert a (b ∷ set) =
    if socket_lt a b then a ∷ b ∷ set else if socket_lt b a then b ∷ insert a set else b ∷ set

-- The loop over the answers.
unfoldable pub normalize :
    ℕ → List SocketAddr → List SocketAddr → Result (List SocketAddr) NetworkTargetError
normalize port normalized [] = ok normalized
normalize port normalized (a ∷ addresses) =
    let rest = normalize port (insert (record { ip = a.ip; port = port }) normalized) addresses in
    if is_public_unicast a.ip then rest else err prohibited_resolved_address

unfoldable pub normalize_and_validate_addresses :
    List SocketAddr → ℕ → ℕ → Result (List SocketAddr) NetworkTargetError
normalize_and_validate_addresses addresses port address_limit = do
  reject (is_empty addresses) empty_resolution
  reject (address_limit == 0 || ltb address_limit (length addresses)) too_many_resolved
  normalized ← normalize port [] addresses
  reject (is_empty normalized) empty_resolution
  ok normalized

unfoldable pub validate_url_shape : Url → Result (Unit {0}) NetworkTargetError
validate_url_shape url = do
  reject (not (text_eq url.scheme (text "http") || text_eq url.scheme (text "https")))
      unsupported_scheme
  reject (is_none url.host_str) missing_host
  reject (not (is_empty url.username) || is_some url.password) credentials_not_allowed
  reject (is_some url.fragment) fragment_not_allowed

unfoldable pub validate_url : Url → Result (Unit {0}) NetworkTargetError
validate_url url = do
  validate_url_shape url
  port ← ok_or url.port_or_known_default invalid_port
  reject (port == 0) invalid_port

pub record ValidatedNetworkTarget : Type 0 where
  pub url : Url
  pub host : Text
  pub port : ℕ
  pub addresses : List SocketAddr

abbrev pub resolve_error : NetworkResolveError → NetworkTargetError
resolve_error failed = resolution_failed
resolve_error too_many_addresses = too_many_resolved

abbrev pub resolved : Resolution → Result (List SocketAddr) NetworkTargetError
resolved timed_out = err resolution_timed_out
resolved (answered answer) = map_err resolve_error answer

abbrev pub literal : IpAddr → ℕ → Result (List SocketAddr) NetworkTargetError
literal ip port = do
  reject (not (is_public_unicast ip)) prohibited_literal_address
  ok (record { ip = ip; port = port } ∷ [])

-- The `match url.host()`.
unfoldable pub addresses_of :
    NetworkTargetPolicy → Option Host → Text → ℕ → Result (List SocketAddr) NetworkTargetError
addresses_of p none host port = err missing_host
addresses_of p (some (ipv4 a)) host port = literal (v4 a) port
addresses_of p (some (ipv6 a)) host port = literal (v6 a) port
addresses_of p (some (domain _)) host port = do
  resolution ← resolved (p.resolver host port)
  normalize_and_validate_addresses resolution port p.address_limit

unfoldable pub validate_and_resolve :
    NetworkTargetPolicy → Url → Result ValidatedNetworkTarget NetworkTargetError
validate_and_resolve p url = do
  validate_url url
  host ← ok_or url.host_str missing_host
  port ← ok_or url.port_or_known_default invalid_port
  addresses ← addresses_of p url.host host port
  ok (record { url = url; host = host; port = port; addresses = addresses })
