-- ===== src/Network/Addresses.antt =====
-- `normalize_and_validate_addresses` of crates/erabi-crawler/src/network_policy.rs: the answers of
-- a resolver that it accepts.
use erabi.Base.{
  ℕ, ◌≤◌, ◌<◌, ◌≡◌, ap, ◌↔◌, true, List, [], ◌∷◌, ok, is_ok, is_ok→eq, arith, All, length,
}
use erabi.Network.{SocketAddr, is_public_unicast, normalize, normalize_and_validate_addresses}
use erabi.Network.Normalize.{normalize-eq_ok, normalize-is_ok, normalize-nonempty}

-- What a successful call says of its arguments.
pub normalize_and_validate-ok :
    (addresses : List SocketAddr) (port address_limit : ℕ) (set : List SocketAddr)
    → normalize_and_validate_addresses addresses port address_limit ≡ ok set
    → (0 < length addresses)
      × (length addresses ≤ address_limit)
      × (normalize port [] addresses ≡ ok set)
unfolding normalize_and_validate_addresses
normalize_and_validate-ok [] port limit set h = absurd (ground (arith, h))
normalize_and_validate-ok (a ∷ xs) port limit set h = ground (arith, h)

normalize_and_validate-accepts :
    (a : SocketAddr) (xs : List SocketAddr) (port address_limit : ℕ) (set : List SocketAddr)
    → length (a ∷ xs) ≤ address_limit
    → normalize port [] (a ∷ xs) ≡ ok set
    → 0 < length set
    → normalize_and_validate_addresses (a ∷ xs) port address_limit ≡ ok set
unfolding normalize_and_validate_addresses
normalize_and_validate-accepts a xs port limit set le h lt = ground (arith, le, h, lt)

-- A call succeeds exactly where there are answers, no more of them than the limit, and every one
-- of them is public unicast: one prohibited answer refuses them all.
pub normalize_and_validate-is_ok_iff :
    (addresses : List SocketAddr) (port address_limit : ℕ)
    → is_ok (normalize_and_validate_addresses addresses port address_limit) ≡ true
      ↔ (0 < length addresses)
        × (length addresses ≤ address_limit)
        × All (λ a. is_public_unicast a.ip ≡ true) addresses
normalize_and_validate-is_ok_iff addresses port limit =
    (λ h. sound h, λ (lt, le, ys). complete addresses lt le ys)
  where
    sound :
        is_ok (normalize_and_validate_addresses addresses port limit) ≡ true
        → (0 < length addresses)
          × (length addresses ≤ limit)
          × All (λ a. is_public_unicast a.ip ≡ true) addresses
    sound h =
        let (set, e) = is_ok→eq (normalize_and_validate_addresses addresses port limit) h in
        let (lt, le, g) = normalize_and_validate-ok addresses port limit set e in
        (lt, le, normalize-eq_ok port [] addresses set g)

    complete :
        (xs : List SocketAddr)
        → 0 < length xs
        → length xs ≤ limit
        → All (λ a. is_public_unicast a.ip ≡ true) xs
        → is_ok (normalize_and_validate_addresses xs port limit) ≡ true
    complete [] lt le ys = absurd (omega (arith, lt))
    complete (a ∷ xs) lt le ys =
        let (set, e) = normalize-is_ok port [] (a ∷ xs) ys in
        ap is_ok (
          normalize_and_validate-accepts a xs port limit set le e
            (normalize-nonempty port a xs set e))
