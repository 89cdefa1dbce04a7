-- ===== src/Network/Targets.antt =====
-- `validate_url` and `validate_and_resolve` of crates/erabi-crawler/src/network_policy.rs: the
-- targets that may be connected to.
use erabi.Base.{
  ℕ, ◌≤◌, ◌<◌, ◌≡◌, refl, ◌↔◌, ◌⊎◌, true, List, [], ◌∷◌, Option, none, some, ok, arith, ◌≢◌, All,
  length, >>=-eq-ok, max,
}
use erabi.Text.{Text, text}
use erabi.Text.Search.{text_eq_iff}
use erabi.Url.{Host, domain, ipv4, ipv6, Url}
use erabi.Network.{
  IpAddr, v4, v6, SocketAddr, NetworkTargetPolicy, ValidatedNetworkTarget, is_public_unicast,
  normalize_and_validate_addresses, validate_url_shape, validate_url, literal, resolved,
  addresses_of, validate_and_resolve,
}
use erabi.Network.Normalize.{normalize-eq_ok, normalize-All, length-normalize, normalize-nonempty}
use erabi.Network.Addresses.{normalize_and_validate-ok}

-- A URL that has the shape of a target.
abbrev pub IsTarget : Url → Type 0
IsTarget url =
    ((url.scheme ≡ text "http") ⊎ (url.scheme ≡ text "https"))
    × (url.host_str ≢ none)
    × (url.username ≡ [])
    × (url.password ≡ none)
    × (url.fragment ≡ none)
    × (port : ℕ) × (url.port_or_known_default ≡ some port)
    × (0 < port)

-- `validate_url` accepts a URL exactly where its scheme is http or https, it has a host and an
-- effective port that is not 0, and neither credentials nor a fragment.
pub validate_url_iff : (url : Url) → validate_url url ≡ ok tt ↔ IsTarget url
unfolding validate_url validate_url_shape
validate_url_iff url =
    ground (arith, text_eq_iff url.scheme (text "http"), text_eq_iff url.scheme (text "https"))

-- A connection to the address goes to a public unicast address, at the port.
abbrev pub IsSafe : ℕ → SocketAddr → Type 0
IsSafe port a = (is_public_unicast a.ip ≡ true) × (a.port ≡ port)

Accepted : NetworkTargetPolicy → ℕ → List SocketAddr → Type 0
Accepted p port addresses =
    All (IsSafe port) addresses
    × (0 < length addresses)
    × (length addresses ≤ max 1 p.address_limit)

literal-Accepted :
    (p : NetworkTargetPolicy) (ip : IpAddr) (port : ℕ) (set : List SocketAddr)
    → literal ip port ≡ ok set
    → Accepted p port set
unfolding Accepted
literal-Accepted p ip port [] h = absurd (ground (arith, h))
literal-Accepted p ip port (a ∷ []) h = ground (arith, h)
literal-Accepted p ip port (a ∷ b ∷ set) h = absurd (ground (arith, h))

normalized-Accepted :
    (p : NetworkTargetPolicy) (xs : List SocketAddr) (port : ℕ) (set : List SocketAddr)
    → normalize_and_validate_addresses xs port p.address_limit ≡ ok set
    → Accepted p port set
unfolding Accepted
normalized-Accepted p [] port set h =
    absurd (omega (arith, (normalize_and_validate-ok [] port p.address_limit set h).0))
normalized-Accepted p (a ∷ xs) port set h =
    let (lt, le, g) = normalize_and_validate-ok (a ∷ xs) port p.address_limit set h in
    (
      normalize-All (IsSafe port) port [] (a ∷ xs) set g tt
          (at_port (a ∷ xs) (normalize-eq_ok port [] (a ∷ xs) set g)),
      normalize-nonempty port a xs set g,
      omega (arith, length-normalize port [] (a ∷ xs) set g, le),
    )
  where
    at_port :
        (ys : List SocketAddr)
        → All (λ b. is_public_unicast b.ip ≡ true) ys
        → All (λ b. IsSafe port (record { ip = b.ip; port = port })) ys
    at_port [] e = tt
    at_port (b ∷ ys) (e, es) = ((e, refl), at_port ys es)

addresses-Accepted :
    (p : NetworkTargetPolicy) (host : Option Host) (name : Text) (port : ℕ) (set : List SocketAddr)
    → addresses_of p host name port ≡ ok set
    → Accepted p port set
unfolding addresses_of
addresses-Accepted p none name port set h = absurd (ground (arith, h))
addresses-Accepted p (some (ipv4 a)) name port set h = literal-Accepted p (v4 a) port set h
addresses-Accepted p (some (ipv6 a)) name port set h = literal-Accepted p (v6 a) port set h
addresses-Accepted p (some (domain d)) name port set h =
    let (xs, _, g) =
      >>=-eq-ok (resolved (p.resolver name port))
        (λ xs. normalize_and_validate_addresses xs port p.address_limit) h in
    normalized-Accepted p xs port set g

pub validate_and_resolve-parts :
    (p : NetworkTargetPolicy) (url : Url) (t : ValidatedNetworkTarget)
    → validate_and_resolve p url ≡ ok t
    → (validate_url url ≡ ok tt)
      × (t.url ≡ url)
      × (url.host_str ≡ some t.host)
      × (url.port_or_known_default ≡ some t.port)
      × (addresses_of p url.host t.host t.port ≡ ok t.addresses)
unfolding validate_and_resolve
validate_and_resolve-parts p url t h = ground (arith, h)

-- A target that comes out of `validate_and_resolve` is for the URL asked about, which has the
-- shape of a target, and for its host and port; it has an address, no more of them than the limit
-- (or one, for a literal), and each is public unicast and at the URL's port.
pub validate_and_resolve-IsSafe :
    (p : NetworkTargetPolicy) (url : Url) (t : ValidatedNetworkTarget)
    → validate_and_resolve p url ≡ ok t
    → IsTarget url
      × (t.url ≡ url)
      × (url.host_str ≡ some t.host)
      × (url.port_or_known_default ≡ some t.port)
      × All (IsSafe t.port) t.addresses
      × (0 < length t.addresses)
      × (length t.addresses ≤ max 1 p.address_limit)
unfolding Accepted
validate_and_resolve-IsSafe p url t h =
    let (v, u, host, port, set) = validate_and_resolve-parts p url t h in
    let (safe, lt, le) = addresses-Accepted p url.host t.host t.port t.addresses set in
    ((validate_url_iff url).0 v, u, host, port, safe, lt, le)
