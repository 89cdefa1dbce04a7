-- ===== src/Pacing/Registry.antt =====
-- The bounded registry of origins in crates/erabi-crawler/src/pacing.rs. The map from origins to
-- their shared states is the list of its entries; the code inserts at the origin's place in the
-- map's order, and prunes in that order.
pub mod Pruning
pub mod Retirement
pub mod Protection
pub mod Keys
use erabi.Base.{
  ℕ, ◌+◌, Bool, true, false, ◌&&◌, ◌||◌, List, [], ◌∷◌, map, Option, none, some, Result, ok, err,
  ltb, leb, ◌==◌, if◌then◌else◌, length, checked_add, u64_max,
}
use erabi.Text.{Text, text_eq}
use erabi.Pacing.{
  Instant, OriginKey, AdmissionError, origin_capacity_exhausted, registration_id_exhausted,
  OriginPacingState, default_state, normalize_expired_safety, is_safe_to_retire, add_registration,
}
use erabi.Pacing.Admission.{origin_eq}

-- The order of `String`, byte by byte, which on UTF-8 is that of the code points.
unfoldable pub text_lt : Text → Text → Bool
text_lt [] [] = false
text_lt [] (_ ∷ _) = true
text_lt (_ ∷ _) [] = false
text_lt (a ∷ s) (b ∷ t) = ltb a b || (a == b && text_lt s t)

-- The derived order of `OriginKey`: by scheme, then host, then port.
unfoldable pub origin_lt : OriginKey → OriginKey → Bool
unfolding text_lt
origin_lt a b =
    text_lt a.scheme b.scheme
    || (text_eq a.scheme b.scheme
        && (text_lt a.host b.host || (text_eq a.host b.host && ltb a.port b.port)))

abbrev pub States : Type 0
States = List (OriginKey × OriginPacingState)

unfoldable pub get : OriginKey → States → Option OriginPacingState
get k [] = none
get k ((j, s) ∷ m) = if origin_eq j k then some s else get k m

-- `insert` at a key that the map does not hold.
unfoldable pub insert : OriginKey → OriginPacingState → States → States
unfolding origin_lt
insert k s [] = (k, s) ∷ []
insert k s ((j, t) ∷ m) = if origin_lt k j then (k, s) ∷ (j, t) ∷ m else (j, t) ∷ insert k s m

unfoldable pub update : OriginKey → OriginPacingState → States → States
update k s [] = []
update k s ((j, t) ∷ m) = if origin_eq j k then (j, s) ∷ m else (j, t) ∷ update k s m

unfoldable pub remove : OriginKey → States → States
remove k [] = []
remove k ((j, t) ∷ m) = if origin_eq j k then m else (j, t) ∷ remove k m

pub record OriginRegistry : Type 0 where
  pub states : States
  pub next_registration_id : Option ℕ  -- u64
  pub capacity : ℕ

unfoldable pub new : ℕ → OriginRegistry
new capacity = record { states = []; next_registration_id = some 1; capacity = capacity }

-- The origins whose states the filter of `prune_safe_states` lets through, in the map's order.
unfoldable pub removable : Instant → States → List OriginKey
removable now [] = []
removable now ((k, s) ∷ m) =
    let rest = removable now m in if (is_safe_to_retire s now).1 then k ∷ rest else rest

-- The filter normalizes every state that it tests.
unfoldable pub examined : Instant → States → States
examined now [] = []
examined now ((k, s) ∷ m) = (k, (is_safe_to_retire s now).0) ∷ examined now m

unfoldable pub prune_loop : ℕ → List OriginKey → States → States
prune_loop capacity [] m = m
prune_loop capacity (k ∷ ks) m =
    let rest = prune_loop capacity ks (remove k m) in if ltb (length m) capacity then m else rest

unfoldable pub prune_safe_states : States → Instant → ℕ → States
prune_safe_states m now capacity = prune_loop capacity (removable now m) (examined now m)

-- `registry.states` after the branch that finds or makes the origin's state.
abbrev pub make_room : States → Instant → ℕ → States
make_room m now capacity = if leb capacity (length m) then prune_safe_states m now capacity else m

unfoldable pub find_or_create :
    States → OriginKey → Instant → ℕ → States × Result OriginPacingState AdmissionError
find_or_create m origin now capacity = elim (get origin m) [
  | some s ↦ (m, ok s)
  | none ↦
      let room = make_room m now capacity in
      if leb capacity (length room)
      then (room, err origin_capacity_exhausted)
      else (insert origin default_state room, ok default_state)
]

-- The registration identifier is taken, and the origin's state gets the registration.
abbrev pub assign :
    OriginRegistry
    → OriginKey
    → ℕ
    → States
    → OriginPacingState
    → Option ℕ
    → OriginRegistry × Result ℕ AdmissionError
assign r origin concurrency m s none = (record r { states = m }, err registration_id_exhausted)
assign r origin concurrency m s (some id) = (
  record r {
    states = update origin (add_registration s id concurrency) m;
    next_registration_id = checked_add u64_max id 1;
  },
  ok id,
)

abbrev pub add_to :
    OriginRegistry
    → OriginKey
    → ℕ
    → States × Result OriginPacingState AdmissionError
    → OriginRegistry × Result ℕ AdmissionError
add_to r origin concurrency (m, err e) = (record r { states = m }, err e)
add_to r origin concurrency (m, ok s) = assign r origin concurrency m s r.next_registration_id

unfoldable pub register :
    OriginRegistry → OriginKey → ℕ → Instant → OriginRegistry × Result ℕ AdmissionError
register r origin concurrency now =
    add_to r origin concurrency (find_or_create r.states origin now r.capacity)
