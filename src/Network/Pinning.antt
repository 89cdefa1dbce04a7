-- ===== src/Network/Pinning.antt =====
-- The addresses that `validate_and_resolve` of crates/erabi-crawler/src/network_policy.rs pins for a
-- domain: those that the resolver gave.
use erabi.Base.{ℕ, ◌≡◌, refl, subst, inl, inr, List, [], ◌∷◌, some, ok, ◌>>=◌, All, Any}
use erabi.Text.{Text}
use erabi.Url.{domain, Url}
use erabi.Network.{
  IpAddr, SocketAddr, answered, NetworkTargetPolicy, ValidatedNetworkTarget, normalize,
  normalize_and_validate_addresses, addresses_of, validate_and_resolve, resolved,
}
use erabi.Network.Normalize.{normalize-All, normalize-Any}
use erabi.Network.Addresses.{normalize_and_validate-ok}
use erabi.Network.Targets.{validate_and_resolve-parts}

-- Some address of the list has the IP.
abbrev pub HasIp : IpAddr → List SocketAddr → Type 0
HasIp ip addresses = Any (λ a. a.ip ≡ ip) addresses

-- The two lists have the same IPs.
abbrev pub SameIps : List SocketAddr → List SocketAddr → Type 0
SameIps xs ys = All (λ a. HasIp a.ip xs) ys × All (λ x. HasIp x.ip ys) xs

given :
    (xs : List SocketAddr) (port : ℕ) (ys : List SocketAddr)
    → ((ip : IpAddr) → HasIp ip ys → HasIp ip xs)
    → All (λ a. HasIp (a.ip) xs) ys
given xs port [] f = tt
given xs port (y ∷ ys) f = (f y.ip (inl refl), given xs port ys (λ ip h. f ip (inr h)))

kept :
    (set : List SocketAddr) (ys : List SocketAddr)
    → ((ip : IpAddr) → HasIp ip ys → HasIp ip set)
    → All (λ x. HasIp x.ip set) ys
kept set [] f = tt
kept set (y ∷ ys) f = (f y.ip (inl refl), kept set ys (λ ip h. f ip (inr h)))

normalize-SameIps :
    (port : ℕ) (xs set : List SocketAddr) → normalize port [] xs ≡ ok set → SameIps xs set
normalize-SameIps port xs set h = (
  normalize-All (λ a. HasIp a.ip xs) port [] xs set h tt (given xs port xs (λ ip g. g)),
  kept set xs (λ ip g. normalize-Any (λ a. a.ip ≡ ip) port [] xs set h (inr g)),
)

normalized :
    (p : NetworkTargetPolicy) (name host : Text) (port : ℕ) (answer addresses : List SocketAddr)
    → p.resolver host port ≡ answered (ok answer)
    → addresses_of p (some (domain name)) host port ≡ ok addresses
    → normalize_and_validate_addresses answer port p.address_limit ≡ ok addresses
unfolding addresses_of
normalized p name host port answer addresses e g =
    subst
      (λ r.
        (resolved r >>= λ xs. normalize_and_validate_addresses xs port p.address_limit)
        ≡ ok addresses)
      e g

-- Where the resolver answers for a domain and the target is accepted, its addresses have exactly
-- the IPs of the answer: none is dropped, and a connection can go nowhere else.
pub validate_and_resolve-SameIps :
    (p : NetworkTargetPolicy) (url : Url) (name : Text) (answer : List SocketAddr)
    (t : ValidatedNetworkTarget)
    → url.host ≡ some (domain name)
    → p.resolver t.host t.port ≡ answered (ok answer)
    → validate_and_resolve p url ≡ ok t
    → SameIps answer t.addresses
validate_and_resolve-SameIps p url name answer t d r h =
    let (_, _, _, _, set) = validate_and_resolve-parts p url t h in
    normalize-SameIps t.port answer t.addresses
      (normalize_and_validate-ok answer t.port p.address_limit t.addresses (
        normalized p name t.host t.port answer t.addresses r
          (subst (λ o. addresses_of p o t.host t.port ≡ ok t.addresses) d set))).2
