-- ===== src/Network/Public.antt =====
-- `is_public_ipv4` and `is_public_ipv6` of crates/erabi-crawler/src/network_policy.rs.
use erabi.Base.{ℕ, ◌-◌, ◌%◌, Bool, not, ◌&&◌, ◌||◌, leb, ◌==◌}
use erabi.Url.{Ipv4Addr, Ipv6Addr}

unfoldable pub is_public_ipv4 : Ipv4Addr → Bool
is_public_ipv4 a =
    let first = a.first in
    let second = a.second in
    let third = a.third in
    not (
      first == 0
      || first == 10
      || (first == 100 && (leb 64 second && leb second 127))
      || first == 127
      || (first == 169 && second == 254)
      || (first == 172 && (leb 16 second && leb second 31))
      || (first == 192 && second == 0 && third == 0)
      || (first == 192 && second == 0 && third == 2)
      || (first == 192 && second == 168)
      || (first == 192 && second == 88 && third == 99)
      || (first == 198 && (leb 18 second && leb second 19))
      || (first == 198 && second == 51 && third == 100)
      || (first == 203 && second == 0 && third == 113)
      || leb 224 first)

-- `segment & mask`, where the mask keeps the bits of a 16-bit segment from `low` up.
abbrev pub high_bits : ℕ → ℕ → ℕ
high_bits segment low = segment - segment % low

abbrev pub starts_zero : Ipv6Addr → Bool
starts_zero a = a.s0 == 0 && a.s1 == 0 && a.s2 == 0 && a.s3 == 0 && a.s4 == 0

unfoldable pub is_unspecified : Ipv6Addr → Bool
is_unspecified a = starts_zero a && a.s5 == 0 && a.s6 == 0 && a.s7 == 0

unfoldable pub is_loopback : Ipv6Addr → Bool
is_loopback a = starts_zero a && a.s5 == 0 && a.s6 == 0 && a.s7 == 1

unfoldable pub is_multicast : Ipv6Addr → Bool
is_multicast a = high_bits a.s0 256 == 65280

-- The other tests, in the source's order: a `matches!` on the segments, or a mask.
unfoldable pub is_compatible : Ipv6Addr → Bool
is_compatible a = starts_zero a && a.s5 == 0

unfoldable pub is_mapped : Ipv6Addr → Bool
is_mapped a = starts_zero a && a.s5 == 65535

unfoldable pub is_translated : Ipv6Addr → Bool
is_translated a = a.s0 == 100 && a.s1 == 65435 && a.s2 == 0 && a.s3 == 0 && a.s4 == 0 && a.s5 == 0

unfoldable pub is_locally_translated : Ipv6Addr → Bool
is_locally_translated a = a.s0 == 100 && a.s1 == 65435 && a.s2 == 1

unfoldable pub is_discard : Ipv6Addr → Bool
is_discard a = a.s0 == 256 && a.s1 == 0 && a.s2 == 0 && a.s3 == 0

unfoldable pub is_assignment : Ipv6Addr → Bool
is_assignment a = a.s0 == 8193 && leb a.s1 511

unfoldable pub is_6to4 : Ipv6Addr → Bool
is_6to4 a = a.s0 == 8194

unfoldable pub is_example : Ipv6Addr → Bool
is_example a = a.s0 == 8193 && a.s1 == 3512

unfoldable pub is_documentation : Ipv6Addr → Bool
is_documentation a = a.s0 == 16383 && leb a.s1 4095

unfoldable pub is_segment_routing : Ipv6Addr → Bool
is_segment_routing a = a.s0 == 24320

unfoldable pub is_unique_local : Ipv6Addr → Bool
is_unique_local a = high_bits a.s0 512 == 64512

unfoldable pub is_link_local : Ipv6Addr → Bool
is_link_local a = high_bits a.s0 64 == 65152

unfoldable pub is_public_ipv6 : Ipv6Addr → Bool
is_public_ipv6 a = not (
    is_unspecified a
    || is_loopback a
    || is_multicast a
    || is_compatible a
    || is_mapped a
    || is_translated a
    || is_locally_translated a
    || is_discard a
    || is_assignment a
    || is_6to4 a
    || is_example a
    || is_documentation a
    || is_segment_routing a
    || is_unique_local a
    || is_link_local a)
