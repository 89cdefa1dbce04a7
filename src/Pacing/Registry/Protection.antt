-- ===== src/Pacing/Registry/Protection.antt =====
-- About the origins that pruning the registry of crates/erabi-crawler/src/pacing.rs leaves alone.
use erabi.Base.{
  ℕ, ◌≡◌, refl, sym, subst, ◌∙◌, ◌≢◌, ◌⊎◌, inl, inr, false, List, [], ◌∷◌, some, Result, ok, err,
  arith, leb, length, All, Bool-cases, Option-cases,
}
use erabi.Pacing.{
  Instant, OriginKey, AdmissionError, OriginPacingState, default_state, is_safe_to_retire,
  add_registration,
}
use erabi.Pacing.Admission.{origin_eq}
use erabi.Pacing.Admission.Origins.{origin_eq_iff}
use erabi.Pacing.Registry.Retirement.{
  InUse, Kept, in_use_stays, unchanged-Kept, retire-Kept,
}
use erabi.Pacing.Registry.{
  States, get, insert, update, remove, OriginRegistry, removable, examined, prune_loop,
  prune_safe_states, make_room, find_or_create, add_to, register,
}

-- No two entries of the map share an origin.
abbrev pub IsDistinct : States → Type 0
IsDistinct [] = Unit
IsDistinct ((k, s) ∷ m) = All (λ e. k ≢ e.0) m × IsDistinct m

get-insert :
    (j k : OriginKey) (s : OriginPacingState) (m : States) → k ≢ j → get j (insert k s m) ≡ get j m
unfolding get insert
get-insert j k s [] n = ground (arith, origin_eq_iff k j)
get-insert j k s ((i, t) ∷ m) n = ground (arith, origin_eq_iff k j, get-insert j k s m n)

get-update :
    (j k : OriginKey) (s : OriginPacingState) (m : States) → k ≢ j → get j (update k s m) ≡ get j m
unfolding get update
get-update j k s [] n = refl
get-update j k s ((i, t) ∷ m) n =
    ground (arith, origin_eq_iff i j, origin_eq_iff i k, get-update j k s m n)

get-remove : (j k : OriginKey) (m : States) → k ≢ j → get j (remove k m) ≡ get j m
unfolding get remove
get-remove j k [] n = refl
get-remove j k ((i, t) ∷ m) n =
    ground (arith, origin_eq_iff i j, origin_eq_iff i k, get-remove j k m n)

get-prune_loop :
    (j : OriginKey) (c : ℕ) (ks : List OriginKey) (m : States)
    → All (λ k. k ≢ j) ks
    → get j (prune_loop c ks m) ≡ get j m
unfolding prune_loop
get-prune_loop j c [] m n = refl
get-prune_loop j c (k ∷ ks) m n =
    ground (arith, get-prune_loop j c ks (remove k m) n.1, get-remove j k m n.0)

get-examined :
    (j : OriginKey) (now : Instant) (m : States) (s : OriginPacingState)
    → get j m ≡ some s
    → get j (examined now m) ≡ some (is_safe_to_retire s now).0
unfolding get examined
get-examined j now [] s h = cc
get-examined j now ((i, t) ∷ m) s h = ground (arith, get-examined j now m s)

removable-keys :
    (k : OriginKey) (now : Instant) (m : States)
    → All (λ e. k ≢ e.0) m
    → All (λ i. i ≢ k) (removable now m)
unfolding removable
removable-keys k now [] n = tt
removable-keys k now ((i, t) ∷ m) n = elim (Bool-cases (is_safe_to_retire t now).1) [
  | inl y ↦ rw y ((λ e. n.0 (sym e)), removable-keys k now m n.1)
  | inr z ↦ rw z (removable-keys k now m n.1)
]

-- An origin whose state may not retire is not among those to remove.
removable-ne :
    (j : OriginKey) (now : Instant) (m : States) (s : OriginPacingState)
    → IsDistinct m
    → get j m ≡ some s
    → (is_safe_to_retire s now).1 ≡ false
    → All (λ i. i ≢ j) (removable now m)
unfolding removable get
removable-ne j now [] s d h u = cc
removable-ne j now ((i, t) ∷ m) s d h u = elim (Bool-cases (origin_eq i j)) [
  | inl e ↦
      let same : i ≡ j = (origin_eq_iff i j).0 e in
      let shut : (is_safe_to_retire t now).1 ≡ false = ground (arith, e, h, u) in
      rw shut (subst (λ k. All (λ i'. i' ≢ k) (removable now m)) same (removable-keys i now m d.0))
  | inr n ↦
      let other : i ≢ j = ground (arith, origin_eq_iff i j, n) in
      let rest = removable-ne j now m s d.1 (ground (arith, n, h)) u in
      elim (Bool-cases (is_safe_to_retire t now).1) [
        | inl y ↦ rw y (other, rest)
        | inr z ↦ rw z rest
      ]
]

get-prune :
    (j : OriginKey) (now : Instant) (m : States) (s : OriginPacingState) (c : ℕ)
    → IsDistinct m
    → get j m ≡ some s
    → (is_safe_to_retire s now).1 ≡ false
    → get j (prune_safe_states m now c) ≡ some (is_safe_to_retire s now).0
unfolding prune_safe_states
get-prune j now m s c d h u =
    get-prune_loop j c (removable now m) (examined now m) (removable-ne j now m s d h u)
    ∙ get-examined j now m s h

-- The entry is as it was, or normalized by the test that kept it.
abbrev Stays : OriginKey → OriginPacingState → Instant → States → Type 0
Stays j s now m = (get j m ≡ some s) ⊎ (get j m ≡ some (is_safe_to_retire s now).0)

make_room-Stays :
    (j : OriginKey) (now : Instant) (m : States) (s : OriginPacingState) (c : ℕ)
    → IsDistinct m
    → get j m ≡ some s
    → (is_safe_to_retire s now).1 ≡ false
    → Stays j s now (make_room m now c)
make_room-Stays j now m s c d h u = elim (Bool-cases (leb c (length m))) [
  | inl full ↦ rw full (inr (get-prune j now m s c d h u))
  | inr room ↦ rw room (inl h)
]

find_or_create-Stays :
    (j k : OriginKey) (now : Instant) (m : States) (s : OriginPacingState) (c : ℕ)
    → k ≢ j
    → IsDistinct m
    → get j m ≡ some s
    → (is_safe_to_retire s now).1 ≡ false
    → Stays j s now (find_or_create m k now c).0
unfolding find_or_create
find_or_create-Stays j k now m s c n d h u =
    ground
      (arith, make_room-Stays j now m s c d h u, get-insert j k default_state (make_room m now c) n)

add_to-Stays :
    (j k : OriginKey) (now : Instant) (s : OriginPacingState) (r : OriginRegistry) (concurrency : ℕ)
    (f : States × Result OriginPacingState AdmissionError)
    → k ≢ j
    → Stays j s now f.0
    → Stays j s now (add_to r k concurrency f).0.states
add_to-Stays j k now s r concurrency (m, err e) n h = h
add_to-Stays j k now s r concurrency (m, ok t) n h = elim (Option-cases r.next_registration_id) [
  | inl e ↦ rw e h
  | inr (id, e) ↦ rw e (ground (arith, get-update j k (add_registration t id concurrency) m n, h))
]

-- The map holds the origin's state, at most without deadlines that have passed.
abbrev pub Keeps : OriginKey → OriginPacingState → Instant → States → Type 0
Keeps j s now m = (t : OriginPacingState) × (get j m ≡ some t) × Kept now s t

Stays-Keeps :
    (j : OriginKey) (s : OriginPacingState) (now : Instant) (m : States)
    → Stays j s now m
    → Keeps j s now m
Stays-Keeps j s now m (inl same) = (s, same, unchanged-Kept s now)
Stays-Keeps j s now m (inr examined) = ((is_safe_to_retire s now).0, examined, retire-Kept s now)

-- In a registry of distinct origins, registering another origin never evicts one that has a
-- registration, a request in flight, a waiting task or a deadline that has not passed: its state
-- keeps its counts and registrations, and each of its deadlines unless that has passed.
pub register-Keeps :
    (j k : OriginKey) (now : Instant) (s : OriginPacingState) (r : OriginRegistry) (concurrency : ℕ)
    → k ≢ j
    → IsDistinct r.states
    → get j r.states ≡ some s
    → InUse now s
    → Keeps j s now (register r k concurrency now).0.states
unfolding register
register-Keeps j k now s r concurrency n d h u =
    Stays-Keeps j s now (register r k concurrency now).0.states (
      add_to-Stays j k now s r concurrency (find_or_create r.states k now r.capacity) n
        (find_or_create-Stays j k now r.states s r.capacity n d h (in_use_stays s now u)))
