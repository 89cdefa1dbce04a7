-- ===== src/Network/Ranges.antt =====
-- The address ranges that crates/erabi-crawler/src/network_policy.rs keeps the crawler out of, as
-- intervals of the 32-bit number of an IPv4 address.
use erabi.Base.{ℕ, ◌+◌, ◌*◌, ◌≤◌, ◌<◌, ◌≡◌, ◌↔◌, true, List, [], ◌∷◌, arith, All}
use erabi.Url.{Ipv4Addr}
use erabi.Network.Public.{is_public_ipv4}

abbrev pub IsOctets : Ipv4Addr → Type 0
IsOctets a = (a.first < 256) × (a.second < 256) × (a.third < 256) × (a.fourth < 256)

abbrev pub number : Ipv4Addr → ℕ
number a = a.first * 16777216 + a.second * 65536 + a.third * 256 + a.fourth

-- A block of addresses: its first number, and the first one past it.
abbrev pub InBlock : ℕ → ℕ × ℕ → Type 0
InBlock n (low, high) = (low ≤ n) × (n < high)

-- 0/8, 10/8, 100.64/10, 127/8, 169.254/16, 172.16/12, 192.0.0/24, 192.0.2/24, 192.168/16,
-- 192.88.99/24, 198.18/15, 198.51.100/24, 203.0.113/24 and 224/3.
abbrev pub prohibited : List (ℕ × ℕ)
prohibited =
    (0, 16777216)
    ∷ (167772160, 184549376)
    ∷ (1681915904, 1686110208)
    ∷ (2130706432, 2147483648)
    ∷ (2851995648, 2852061184)
    ∷ (2886729728, 2887778304)
    ∷ (3221225472, 3221225728)
    ∷ (3221225984, 3221226240)
    ∷ (3232235520, 3232301056)
    ∷ (3227017984, 3227018240)
    ∷ (3323068416, 3323199488)
    ∷ (3325256704, 3325256960)
    ∷ (3405803776, 3405804032)
    ∷ (3758096384, 4294967296)
    ∷ []

-- An IPv4 address, with octets below 256, counts as public exactly where its number lies in none
-- of the prohibited blocks: 0/8, 10/8, 100.64/10, 127/8, 169.254/16, 172.16/12, 192.0.0/24,
-- 192.0.2/24, 192.168/16, 192.88.99/24, 198.18/15, 198.51.100/24, 203.0.113/24 and 224/3.
pub is_public_ipv4_iff :
    (a : Ipv4Addr)
    → IsOctets a
    → is_public_ipv4 a ≡ true ↔ All (λ b. ¬ (InBlock (number a) b)) prohibited
unfolding is_public_ipv4
is_public_ipv4_iff a o = ground (arith, o)
