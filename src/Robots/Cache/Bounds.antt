-- ===== src/Robots/Cache/Bounds.antt =====
-- About the cache of crates/erabi-crawler/src/robots.rs: its size, and the age of its answers.
use erabi.Base.{
  suc, ◌≤◌, ◌<◌, ◌≡◌, refl, inl, inr, Bool, true, false, [], ◌∷◌, none, some, arith, ap, Any,
  Bool-cases, Option-cases, length, leb, is_none, if◌then◌else◌,
}
use erabi.Pacing.{Instant, OriginKey}
use erabi.Pacing.Admission.{RobotsPolicyEvidence}
use erabi.Pacing.Admission.Origins.{origin_eq_iff}
use erabi.Robots.{RobotsDocument}
use erabi.Robots.Cache.{
  max_robots_cache_entries, CacheEntry, Entries, retain, find_entry, remove_entry, place, replace,
  put, policy_of, get, earlier, soonest, evict, needs_eviction, insert,
}

length-retain : (now : Instant) (m : Entries) → length (retain now m) ≤ length m
unfolding retain
length-retain now [] = omega arith
length-retain now ((k, e) ∷ m) = ground (arith, length-retain now m)

length-place :
    (k : OriginKey) (e : CacheEntry) (m : Entries) → length (place k e m) ≡ suc (length m)
unfolding place
length-place k e [] = refl
length-place k e ((j, f) ∷ m) = ground (arith, length-place k e m)

length-replace : (k : OriginKey) (e : CacheEntry) (m : Entries) → length (replace k e m) ≡ length m
unfolding replace
length-replace k e [] = refl
length-replace k e ((j, f) ∷ m) = ground (arith, length-replace k e m)

find-place :
    (k : OriginKey) (e : CacheEntry) (m : Entries)
    → find_entry k m ≡ none
    → find_entry k (place k e m) ≡ some e
unfolding find_entry place
find-place k e [] h = ground (arith, origin_eq_iff k k)
find-place k e ((j, f) ∷ m) h = ground (arith, origin_eq_iff k k, find-place k e m, h)

find-replace :
    (k : OriginKey) (e : CacheEntry) (m : Entries)
    → is_none (find_entry k m) ≡ false
    → find_entry k (replace k e m) ≡ some e
unfolding find_entry replace
find-replace k e [] h = absurd (ground (arith, h))
find-replace k e ((j, f) ∷ m) h = ground (arith, find-replace k e m, h)

find-put : (k : OriginKey) (e : CacheEntry) (m : Entries) → find_entry k (put k e m) ≡ some e
unfolding put
find-put k e m = elim (Option-cases (find_entry k m)) [
  | inl n ↦ rw n (find-place k e m n)
  | inr (f, y) ↦ rw y (find-replace k e m (ap is_none y))
]

length-put_new :
    (k : OriginKey) (e : CacheEntry) (m : Entries) → length (put k e m) ≤ suc (length m)
unfolding put
length-put_new k e m = ground (arith, length-place k e m, length-replace k e m)

length-put_known :
    (k : OriginKey) (e : CacheEntry) (m : Entries)
    → is_none (find_entry k m) ≡ false
    → length (put k e m) ≡ length m
unfolding put
length-put_known k e m h = ground (arith, h, length-replace k e m)

-- The removal of an origin that the map holds makes it shorter by one.
length-remove :
    (k : OriginKey) (m : Entries)
    → is_none (find_entry k m) ≡ false
    → suc (length (remove_entry k m)) ≡ length m
unfolding find_entry remove_entry
length-remove k [] h = absurd (ground (arith, h))
length-remove k ((j, f) ∷ m) h = ground (arith, length-remove k m, h)

-- The entry that `min_by_key` picks is one of those it compares.
find-soonest :
    (best : OriginKey × CacheEntry) (m : Entries)
    → is_none (find_entry (soonest best m).0 (best ∷ m)) ≡ false
unfolding find_entry soonest
find-soonest (k, e) [] = ground (arith, origin_eq_iff k k)
find-soonest (k, e) ((j, f) ∷ m) = picked (λ x. find-soonest x m) (earlier (j, f) (k, e))
  where
    skip :
        (o : OriginKey)
        → is_none (find_entry o ((j, f) ∷ m)) ≡ false
        → is_none (find_entry o ((k, e) ∷ (j, f) ∷ m)) ≡ false
    skip o h = ground (arith, h)

    insert_between :
        (o : OriginKey)
        → is_none (find_entry o ((k, e) ∷ m)) ≡ false
        → is_none (find_entry o ((k, e) ∷ (j, f) ∷ m)) ≡ false
    insert_between o h = ground (arith, h)

    picked :
        ((x : OriginKey × CacheEntry) → is_none (find_entry (soonest x m).0 (x ∷ m)) ≡ false)
        → (b : Bool)
        → is_none (find_entry (soonest (if b then (j, f) else (k, e)) m).0 ((k, e) ∷ (j, f) ∷ m))
          ≡ false
    picked found true = skip (soonest (j, f) m).0 (found (j, f))
    picked found false = insert_between (soonest (k, e) m).0 (found (k, e))

length-evict :
    (m : Entries) → max_robots_cache_entries ≤ length m → suc (length (evict m)) ≡ length m
unfolding evict
length-evict [] h = absurd (omega (arith, h))
length-evict (x ∷ m) h = length-remove (soonest x m).0 (x ∷ m) (find-soonest x m)

-- A cache within its limit of 256 entries stays so through an insertion.
pub insert-le :
    (m : Entries) (origin : OriginKey) (d : RobotsDocument) (ev : RobotsPolicyEvidence)
    (now expires_at : Instant)
    → length m ≤ max_robots_cache_entries
    → length (insert m origin d ev now expires_at) ≤ max_robots_cache_entries
unfolding insert
insert-le m origin d ev now expires_at h =
    bounded (retain now m) (omega (arith, h, length-retain now m))
  where
    new : CacheEntry
    new = record { document = d; expires_at = expires_at; evidence = ev }

    bounded :
        (live : Entries)
        → length live ≤ max_robots_cache_entries
        → length (put origin new (if needs_eviction live origin then evict live else live))
          ≤ max_robots_cache_entries
    bounded live g = elim (Bool-cases (is_none (find_entry origin live))) [
      | inr known ↦ rw known (omega (arith, g, length-put_known origin new live known))
      | inl fresh ↦ elim (Bool-cases (leb max_robots_cache_entries (length live))) [
        | inl full ↦
            rw (fresh, full)
              (ground (arith, full, length-put_new origin new (evict live), length-evict live, g))
        | inr room ↦ rw (fresh, room) (ground (arith, room, length-put_new origin new live))
      ]
    ]

find-retain :
    (now : Instant) (k : OriginKey) (e : CacheEntry) (m : Entries)
    → now < e.expires_at
    → find_entry k m ≡ some e
    → find_entry k (retain now m) ≡ some e
unfolding find_entry retain
find-retain now k e [] lt h = absurd (ground (arith, h))
find-retain now k e ((j, f) ∷ m) lt h = ground (arith, find-retain now k e m, lt, h)

pub get-insert :
    (m : Entries) (origin : OriginKey) (d : RobotsDocument) (ev : RobotsPolicyEvidence)
    (now expires_at later : Instant)
    → later < expires_at
    → (get (insert m origin d ev now expires_at) origin later).1 ≡ some (d, ev)
unfolding get insert
get-insert m origin d ev now expires_at later lt =
    let new : CacheEntry = record { document = d; expires_at = expires_at; evidence = ev } in
    let live = retain now m in
    let room = if needs_eviction live origin then evict live else live in
    ap policy_of (find-retain later origin new (put origin new room) lt (find-put origin new room))

-- An answer is the policy of an entry that the map holds for the origin and that has not expired.
pub get-IsFresh :
    (m : Entries) (origin : OriginKey) (now : Instant) (d : RobotsDocument)
    (ev : RobotsPolicyEvidence)
    → (get m origin now).1 ≡ some (d, ev)
    → Any
        (λ x. (x.0 ≡ origin) × (now < x.1.expires_at) × (x.1.document ≡ d) × (x.1.evidence ≡ ev))
        m
unfolding get find_entry retain
get-IsFresh [] origin now d ev h = absurd (ground (arith, h))
get-IsFresh ((j, f) ∷ m) origin now d ev h =
    ground (arith, origin_eq_iff j origin, get-IsFresh m origin now d ev, h)
