-- ===== src/Network/Ranges6.antt =====
-- The ranges of IPv6 addresses that crates/erabi-crawler/src/network_policy.rs keeps the crawler
-- out of, as intervals of the 128-bit number of an address.
use erabi.Base.{ℕ, ◌+◌, ◌*◌, ◌<◌, ◌≡◌, ◌↔◌, true, List, [], ◌∷◌, arith, All}
use erabi.Url.{Ipv6Addr}
use erabi.Network.Public.{
  is_public_ipv6, is_unspecified, is_loopback, is_6to4, is_assignment, is_compatible, is_discard,
  is_documentation, is_example, is_link_local, is_locally_translated, is_mapped, is_multicast,
  is_segment_routing, is_translated, is_unique_local,
}
use erabi.Network.Ranges.{InBlock}

abbrev pub IsSegments : Ipv6Addr → Type 0
IsSegments a =
    (a.s0 < 65536)
    × (a.s1 < 65536)
    × (a.s2 < 65536)
    × (a.s3 < 65536)
    × (a.s4 < 65536)
    × (a.s5 < 65536)
    × (a.s6 < 65536)
    × (a.s7 < 65536)

unfoldable pub number : Ipv6Addr → ℕ
number a =
    a.s0 * 5192296858534827628530496329220096
    + a.s1 * 79228162514264337593543950336
    + a.s2 * 1208925819614629174706176
    + a.s3 * 18446744073709551616
    + a.s4 * 281474976710656
    + a.s5 * 4294967296
    + a.s6 * 65536
    + a.s7

-- ::/96, ::ffff:0:0/96, 64:ff9b::/96, 64:ff9b:1::/48, 100::/64, 2001::/23, 2002::/16,
-- 2001:db8::/32, 3fff::/20, 5f00::/16, fc00::/7, fe80::/10 and ff00::/8.
abbrev pub prohibited : List (ℕ × ℕ)
prohibited =
    (0, 4294967296)
    ∷ (281470681743360, 281474976710656)
    ∷ (524413980667603649783483181312245760, 524413980667603649783483185607213056)
    ∷ (524413980668812575603097810486951936, 524413980670021501422712439661658112)
    ∷ (1329227995784915872903807060280344576, 1329227995784915891350551133989896192)
    ∷ (42540488161975842760550356425300246528, 42540528726795050063891204319802818560)
    ∷ (42545680458834377588178886921629466624, 42550872755692912415807417417958686720)
    ∷ (42540766411282592856903984951653826560, 42540766490510755371168322545197776896)
    ∷ (85065399433376081038215121361612832768, 85065723951929739464941904517633409024)
    ∷ (126276659599567007925861670726632734720, 126281851896425542753490201222961954816)
    ∷ (334965454937798799971759379190646833152, 337623910929368631717566993311207522304)
    ∷ (338288524927261089654018896841347694592, 338620831926207318622244848606417780736)
    ∷ (338953138925153547590470800371487866880, 340282366920938463463374607431768211456)
    ∷ []

is_compatible_iff :
    (a : Ipv6Addr) → IsSegments a → is_compatible a ≡ true ↔ InBlock (number a) (0, 4294967296)
unfolding is_compatible number
is_compatible_iff a o = ground (arith, o)

is_mapped_iff :
    (a : Ipv6Addr)
    → IsSegments a
    → is_mapped a ≡ true ↔ InBlock (number a) (281470681743360, 281474976710656)
unfolding is_mapped number
is_mapped_iff a o = ground (arith, o)

is_translated_iff :
    (a : Ipv6Addr)
    → IsSegments a
    → is_translated a ≡ true
      ↔ InBlock
          (number a)
          (524413980667603649783483181312245760, 524413980667603649783483185607213056)
unfolding is_translated number
is_translated_iff a o = ground (arith, o)

is_locally_translated_iff :
    (a : Ipv6Addr)
    → IsSegments a
    → is_locally_translated a ≡ true
      ↔ InBlock
          (number a)
          (524413980668812575603097810486951936, 524413980670021501422712439661658112)
unfolding is_locally_translated number
is_locally_translated_iff a o = ground (arith, o)

is_discard_iff :
    (a : Ipv6Addr)
    → IsSegments a
    → is_discard a ≡ true
      ↔ InBlock
          (number a)
          (1329227995784915872903807060280344576, 1329227995784915891350551133989896192)
unfolding is_discard number
is_discard_iff a o = ground (arith, o)

is_assignment_iff :
    (a : Ipv6Addr)
    → IsSegments a
    → is_assignment a ≡ true
      ↔ InBlock
          (number a)
          (42540488161975842760550356425300246528, 42540528726795050063891204319802818560)
unfolding is_assignment number
is_assignment_iff a o = ground (arith, o)

is_6to4_iff :
    (a : Ipv6Addr)
    → IsSegments a
    → is_6to4 a ≡ true
      ↔ InBlock
          (number a)
          (42545680458834377588178886921629466624, 42550872755692912415807417417958686720)
unfolding is_6to4 number
is_6to4_iff a o = ground (arith, o)

is_example_iff :
    (a : Ipv6Addr)
    → IsSegments a
    → is_example a ≡ true
      ↔ InBlock
          (number a)
          (42540766411282592856903984951653826560, 42540766490510755371168322545197776896)
unfolding is_example number
is_example_iff a o = ground (arith, o)

is_documentation_iff :
    (a : Ipv6Addr)
    → IsSegments a
    → is_documentation a ≡ true
      ↔ InBlock
          (number a)
          (85065399433376081038215121361612832768, 85065723951929739464941904517633409024)
unfolding is_documentation number
is_documentation_iff a o = ground (arith, o)

is_segment_routing_iff :
    (a : Ipv6Addr)
    → IsSegments a
    → is_segment_routing a ≡ true
      ↔ InBlock
          (number a)
          (126276659599567007925861670726632734720, 126281851896425542753490201222961954816)
unfolding is_segment_routing number
is_segment_routing_iff a o = ground (arith, o)

is_unique_local_iff :
    (a : Ipv6Addr)
    → IsSegments a
    → is_unique_local a ≡ true
      ↔ InBlock
          (number a)
          (334965454937798799971759379190646833152, 337623910929368631717566993311207522304)
unfolding is_unique_local number
is_unique_local_iff a o = ground (arith, o)

is_link_local_iff :
    (a : Ipv6Addr)
    → IsSegments a
    → is_link_local a ≡ true
      ↔ InBlock
          (number a)
          (338288524927261089654018896841347694592, 338620831926207318622244848606417780736)
unfolding is_link_local number
is_link_local_iff a o = ground (arith, o)

is_multicast_iff :
    (a : Ipv6Addr)
    → IsSegments a
    → is_multicast a ≡ true
      ↔ InBlock
          (number a)
          (338953138925153547590470800371487866880, 340282366920938463463374607431768211456)
unfolding is_multicast number
is_multicast_iff a o = ground (arith, o)

is_unspecified-IsCompatible : (a : Ipv6Addr) → is_unspecified a ≡ true → is_compatible a ≡ true
unfolding is_unspecified is_compatible
is_unspecified-IsCompatible a h = ground (arith, h)

is_loopback-IsCompatible : (a : Ipv6Addr) → is_loopback a ≡ true → is_compatible a ≡ true
unfolding is_loopback is_compatible
is_loopback-IsCompatible a h = ground (arith, h)

-- An IPv6 address, with segments below 65536, counts as public exactly where its number lies in
-- none of the prohibited blocks: ::/96, ::ffff:0:0/96, 64:ff9b::/96, 64:ff9b:1::/48, 100::/64,
-- 2001::/23, 2002::/16, 2001:db8::/32, 3fff::/20, 5f00::/16, fc00::/7, fe80::/10 and ff00::/8.
pub is_public_ipv6_iff :
    (a : Ipv6Addr)
    → IsSegments a
    → is_public_ipv6 a ≡ true ↔ All (λ b. ¬ (InBlock (number a) b)) prohibited
unfolding is_public_ipv6
is_public_ipv6_iff a o = ground (
  arith,
  is_compatible_iff a o,
  is_mapped_iff a o,
  is_translated_iff a o,
  is_locally_translated_iff a o,
  is_discard_iff a o,
  is_assignment_iff a o,
  is_6to4_iff a o,
  is_example_iff a o,
  is_documentation_iff a o,
  is_segment_routing_iff a o,
  is_unique_local_iff a o,
  is_link_local_iff a o,
  is_multicast_iff a o,
  is_unspecified-IsCompatible a,
  is_loopback-IsCompatible a,
)
