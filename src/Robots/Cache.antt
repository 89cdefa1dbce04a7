-- ===== src/Robots/Cache.antt =====
-- `RobotsCache` of crates/erabi-crawler/src/robots.rs: a bounded map from origins to parsed
-- policies, in the order of the origins, with an expiry for each entry.
pub mod Bounds
use erabi.Base.{
  ℕ, Bool, true, false, not, ◌&&◌, ◌||◌, List, [], ◌∷◌, Option, none, some, ltb, leb, ◌==◌,
  if◌then◌else◌, length, filter, is_none,
}
use erabi.Pacing.{Instant, OriginKey}
use erabi.Pacing.Admission.{RobotsPolicyEvidence, origin_eq}
use erabi.Pacing.Registry.{origin_lt}
use erabi.Robots.{RobotsDocument}

abbrev pub max_robots_cache_entries : ℕ
max_robots_cache_entries = 256

pub record CacheEntry : Type 0 where
  pub document : RobotsDocument
  pub expires_at : Instant
  pub evidence : RobotsPolicyEvidence

abbrev pub Entries : Type 0
Entries = List (OriginKey × CacheEntry)

unfoldable pub retain : Instant → Entries → Entries
retain now [] = []
retain now ((k, e) ∷ m) =
    let rest = retain now m in if ltb now e.expires_at then (k, e) ∷ rest else rest

unfoldable pub find_entry : OriginKey → Entries → Option CacheEntry
find_entry k [] = none
find_entry k ((j, e) ∷ m) = if origin_eq j k then some e else find_entry k m

unfoldable pub remove_entry : OriginKey → Entries → Entries
remove_entry k [] = []
remove_entry k ((j, e) ∷ m) = if origin_eq j k then m else (j, e) ∷ remove_entry k m

unfoldable pub place : OriginKey → CacheEntry → Entries → Entries
place k e [] = (k, e) ∷ []
place k e ((j, f) ∷ m) = if origin_lt k j then (k, e) ∷ (j, f) ∷ m else (j, f) ∷ place k e m

unfoldable pub replace : OriginKey → CacheEntry → Entries → Entries
replace k e [] = []
replace k e ((j, f) ∷ m) = if origin_eq j k then (j, e) ∷ m else (j, f) ∷ replace k e m

-- `BTreeMap::insert`: the entry replaces one of the same origin, or stands at its place in order.
unfoldable pub put : OriginKey → CacheEntry → Entries → Entries
put k e m = if is_none (find_entry k m) then place k e m else replace k e m

abbrev pub RobotsPolicy : Type 0
RobotsPolicy = RobotsDocument × RobotsPolicyEvidence

abbrev pub policy_of : Option CacheEntry → Option RobotsPolicy
policy_of none = none
policy_of (some e) = some (e.document, e.evidence)

-- `get` drops what has expired before it looks.
unfoldable pub get : Entries → OriginKey → Instant → Entries × Option RobotsPolicy
get m origin now = let live = retain now m in (live, policy_of (find_entry origin live))

-- The order of the pairs of expiry and origin that `min_by_key` compares.
abbrev pub earlier : OriginKey × CacheEntry → OriginKey × CacheEntry → Bool
earlier (k, e) (j, f) =
    ltb e.expires_at f.expires_at || (e.expires_at == f.expires_at && origin_lt k j)

-- `min_by_key`: the first of the least entries.
unfoldable pub soonest : OriginKey × CacheEntry → Entries → OriginKey × CacheEntry
soonest best [] = best
soonest best (x ∷ m) = soonest (if earlier x best then x else best) m

unfoldable pub evict : Entries → Entries
evict [] = []
evict (x ∷ m) = remove_entry (soonest x m).0 (x ∷ m)

abbrev pub needs_eviction : Entries → OriginKey → Bool
needs_eviction m origin = is_none (find_entry origin m) && leb max_robots_cache_entries (length m)

unfoldable pub insert :
    Entries → OriginKey → RobotsDocument → RobotsPolicyEvidence → Instant → Instant → Entries
insert m origin document evidence now expires_at =
    let live = retain now m in
    put origin (record { document = document; expires_at = expires_at; evidence = evidence })
      (if needs_eviction live origin then evict live else live)
