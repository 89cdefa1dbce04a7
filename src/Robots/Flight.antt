-- ===== src/Robots/Flight.antt =====
-- The single flight of `cached_or_fetch_document` in crates/erabi-crawler/src/robots.rs: tasks that
-- want the policy of one origin wait for the one that fetches it. Each lock is one step. The channel
-- of an origin in flight wakes its followers when the entry is removed, so the map is the list of
-- its origins.
pub mod Leaders
use erabi.Base.{ℕ, ◌≡◌, Bool, true, false, ◌||◌, List, [], ◌∷◌, Option, none, some, if◌then◌else◌}
use erabi.Pacing.{Instant, OriginKey}
use erabi.Pacing.Admission.{RobotsPolicyEvidence, cache, origin_eq}
use erabi.Robots.{RobotsDocument}
use erabi.Robots.Cache.{Entries, RobotsPolicy, get}

unfoldable pub contains : OriginKey → List OriginKey → Bool
contains k [] = false
contains k (j ∷ js) = origin_eq j k || contains k js

unfoldable pub remove : OriginKey → List OriginKey → List OriginKey
remove k [] = []
remove k (j ∷ js) = if origin_eq j k then js else j ∷ remove k js

-- A policy from the cache is returned with that as its evidence.
abbrev pub from_cache : Option RobotsPolicy → Option RobotsPolicy
from_cache none = none
from_cache (some (document, _)) = some (document, cache)

-- The look into the cache.
unfoldable pub look_up : Entries → OriginKey → Instant → Entries × Option RobotsPolicy
look_up m origin now = let (live, found) = get m origin now in (live, from_cache found)

pub data Turn : Type 0 where
  follows leads : Turn

-- The look into the map of origins in flight.
unfoldable pub enter : List OriginKey → OriginKey → List OriginKey × Turn
enter in_flight origin =
    if contains origin in_flight then (in_flight, follows) else (origin ∷ in_flight, leads)

-- The map, and the guards that leading tasks hold: a guard is there from the entry on, and its drop,
-- also where the task is cancelled or aborted, removes the entry.
pub record Flights : Type 0 where
  pub in_flight : List OriginKey
  pub guards : List OriginKey

abbrev pub none_flies : Flights
none_flies = record { in_flight = []; guards = [] }

abbrev pub with_guard : List OriginKey → OriginKey → List OriginKey × Turn → Flights
with_guard guards origin (in_flight, follows) = record { in_flight = in_flight; guards = guards }
with_guard guards origin (in_flight, leads) = record {
  in_flight = in_flight;
  guards = origin ∷ guards;
}

unfoldable pub drop_flight : Flights → OriginKey → Flights
drop_flight s origin = record {
  in_flight = remove origin s.in_flight;
  guards = remove origin s.guards;
}

pub data Step : Flights → Flights → Type 0 where
  enters :
      (s : Flights) (origin : OriginKey)
      → Step s (with_guard s.guards origin (enter s.in_flight origin))
  drops :
      (s : Flights) (origin : OriginKey)
      → contains origin s.guards ≡ true
      → Step s (drop_flight s origin)

pub data Reach : Flights → Type 0 where
  starts : Reach none_flies
  steps : {s t : Flights} → Reach s → Step s t → Reach t
