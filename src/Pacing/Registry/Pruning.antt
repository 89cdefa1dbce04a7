-- ===== src/Pacing/Registry/Pruning.antt =====
-- The registry of crates/erabi-crawler/src/pacing.rs stays within its capacity, and pruning removes
-- inactive origins only.
use erabi.Base.{
  ℕ, suc, ◌≤◌, ◌≡◌, refl, List, [], ◌∷◌, Option, none, some, Result, ok, err, arith, length,
}
use erabi.Pacing.{
  Instant, OriginKey, AdmissionError, OriginPacingState, default_state, add_registration,
}
use erabi.Pacing.Registry.{
  States, insert, update, remove, OriginRegistry, removable, examined, prune_loop,
  prune_safe_states, make_room, find_or_create, assign, add_to, register,
}

length-insert :
    (k : OriginKey) (s : OriginPacingState) (m : States) → length (insert k s m) ≡ suc (length m)
unfolding insert
length-insert k s [] = refl
length-insert k s ((j, t) ∷ m) = ground (arith, length-insert k s m)

length-update :
    (k : OriginKey) (s : OriginPacingState) (m : States) → length (update k s m) ≡ length m
unfolding update
length-update k s [] = refl
length-update k s ((j, t) ∷ m) = ground (arith, length-update k s m)

length-remove : (k : OriginKey) (m : States) → length (remove k m) ≤ length m
unfolding remove
length-remove k [] = omega arith
length-remove k ((j, t) ∷ m) = ground (arith, length-remove k m)

length-examined : (now : Instant) (m : States) → length (examined now m) ≡ length m
unfolding examined
length-examined now [] = refl
length-examined now ((k, s) ∷ m) = ground (arith, length-examined now m)

length-prune_loop :
    (c : ℕ) (ks : List OriginKey) (m : States) → length (prune_loop c ks m) ≤ length m
unfolding prune_loop
length-prune_loop c [] m = omega arith
length-prune_loop c (k ∷ ks) m =
    ground (arith, length-prune_loop c ks (remove k m), length-remove k m)

make_room-le : (m : States) (now : Instant) (c : ℕ) → length (make_room m now c) ≤ length m
unfolding prune_safe_states
make_room-le m now c =
    ground (arith, length-prune_loop c (removable now m) (examined now m), length-examined now m)

find_or_create-le :
    (m : States) (k : OriginKey) (now : Instant) (c : ℕ)
    → length m ≤ c
    → length (find_or_create m k now c).0 ≤ c
unfolding find_or_create
find_or_create-le m k now c h =
    ground (arith, make_room-le m now c, length-insert k default_state (make_room m now c))

assign-le :
    (r : OriginRegistry) (k : OriginKey) (concurrency : ℕ) (m : States) (s : OriginPacingState)
    (o : Option ℕ)
    → length m ≤ r.capacity
    → (length (assign r k concurrency m s o).0.states ≤ r.capacity)
      × ((assign r k concurrency m s o).0.capacity ≡ r.capacity)
assign-le r k concurrency m s none h = (h, refl)
assign-le r k concurrency m s (some id) h =
    (omega (arith, length-update k (add_registration s id concurrency) m), refl)

add_to-le :
    (r : OriginRegistry) (k : OriginKey) (concurrency : ℕ)
    (f : States × Result OriginPacingState AdmissionError)
    → length f.0 ≤ r.capacity
    → (length (add_to r k concurrency f).0.states ≤ r.capacity)
      × ((add_to r k concurrency f).0.capacity ≡ r.capacity)
add_to-le r k concurrency (m, err e) h = (h, refl)
add_to-le r k concurrency (m, ok s) h = assign-le r k concurrency m s r.next_registration_id h

-- A registry within its capacity stays so through a registration, whether it succeeds or fails,
-- and keeps that capacity.
pub register-le :
    (r : OriginRegistry) (k : OriginKey) (concurrency : ℕ) (now : Instant)
    → length r.states ≤ r.capacity
    → (length (register r k concurrency now).0.states ≤ r.capacity)
      × ((register r k concurrency now).0.capacity ≡ r.capacity)
unfolding register
register-le r k concurrency now h =
    add_to-le r k concurrency (find_or_create r.states k now r.capacity)
      (find_or_create-le r.states k now r.capacity h)
