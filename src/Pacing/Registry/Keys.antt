-- ===== src/Pacing/Registry/Keys.antt =====
-- About the origins that the registry of crates/erabi-crawler/src/pacing.rs holds.
use erabi.Base.{
  ℕ, ◌≡◌, refl, sym, ◌≢◌, ◌↔◌, inl, inr, true, List, [], ◌∷◌, Option, none, some, Result, ok, err,
  arith, All, Bool-cases, Option-cases, is_empty, is_none,
}
use erabi.Pacing.{
  Instant, OriginKey, AdmissionError, OriginPacingState, default_state, is_safe_to_retire, expire,
  add_registration,
}
use erabi.Pacing.Admission.Origins.{origin_eq_iff}
use erabi.Pacing.Admission.Attempt.{IsPast, AllPast}
use erabi.Pacing.Registry.{
  States, get, insert, update, remove, OriginRegistry, removable, examined, prune_loop,
  prune_safe_states, make_room, find_or_create, add_to, register, origin_lt,
}
use erabi.Pacing.Registry.Protection.{IsDistinct}

insert-ne :
    (i k : OriginKey) (s : OriginPacingState) (m : States)
    → i ≢ k
    → All (λ e. i ≢ e.0) m
    → All (λ e. i ≢ e.0) (insert k s m)
unfolding insert
insert-ne i k s [] n h = (n, tt)
insert-ne i k s ((j, t) ∷ m) n h = ground (arith, insert-ne i k s m n h.1)

get-none_iff : (k : OriginKey) (m : States) → (get k m ≡ none) ↔ All (λ e. k ≢ e.0) m
unfolding get
get-none_iff k [] = (λ _. tt, λ _. refl)
get-none_iff k ((j, t) ∷ m) = ground (arith, origin_eq_iff j k, get-none_iff k m)

insert-IsDistinct :
    (k : OriginKey) (s : OriginPacingState) (m : States)
    → All (λ e. k ≢ e.0) m
    → IsDistinct m
    → IsDistinct (insert k s m)
unfolding insert
insert-IsDistinct k s [] g d = (tt, tt)
insert-IsDistinct k s ((j, t) ∷ m) g d = elim (Bool-cases (origin_lt k j)) [
  | inl y ↦ rw y (g, d)
  | inr n ↦ rw n (insert-ne j k s m (λ e. g.0 (sym e)) d.0, insert-IsDistinct k s m g.1 d.1)
]

update-ne :
    (i k : OriginKey) (s : OriginPacingState) (m : States)
    → All (λ e. i ≢ e.0) m
    → All (λ e. i ≢ e.0) (update k s m)
unfolding update
update-ne i k s [] h = tt
update-ne i k s ((j, t) ∷ m) h = ground (arith, update-ne i k s m h.1)

update-IsDistinct :
    (k : OriginKey) (s : OriginPacingState) (m : States) → IsDistinct m → IsDistinct (update k s m)
unfolding update
update-IsDistinct k s [] d = tt
update-IsDistinct k s ((j, t) ∷ m) d =
    ground (arith, update-ne j k s m d.0, update-IsDistinct k s m d.1)

remove-ne : (i k : OriginKey) (m : States) → All (λ e. i ≢ e.0) m → All (λ e. i ≢ e.0) (remove k m)
unfolding remove
remove-ne i k [] h = tt
remove-ne i k ((j, t) ∷ m) h = ground (arith, remove-ne i k m h.1)

remove-IsDistinct : (k : OriginKey) (m : States) → IsDistinct m → IsDistinct (remove k m)
unfolding remove
remove-IsDistinct k [] d = tt
remove-IsDistinct k ((j, t) ∷ m) d = ground (arith, remove-ne j k m d.0, remove-IsDistinct k m d.1)

examined-ne :
    (i : OriginKey) (now : Instant) (m : States)
    → All (λ e. i ≢ e.0) m
    → All (λ e. i ≢ e.0) (examined now m)
unfolding examined
examined-ne i now [] h = tt
examined-ne i now ((j, t) ∷ m) h = (h.0, examined-ne i now m h.1)

examined-IsDistinct : (now : Instant) (m : States) → IsDistinct m → IsDistinct (examined now m)
unfolding examined
examined-IsDistinct now [] d = tt
examined-IsDistinct now ((j, t) ∷ m) d = (examined-ne j now m d.0, examined-IsDistinct now m d.1)

prune_loop-ne :
    (i : OriginKey) (c : ℕ) (ks : List OriginKey) (m : States)
    → All (λ e. i ≢ e.0) m
    → All (λ e. i ≢ e.0) (prune_loop c ks m)
unfolding prune_loop
prune_loop-ne i c [] m h = h
prune_loop-ne i c (k ∷ ks) m h =
    ground (arith, prune_loop-ne i c ks (remove k m) (remove-ne i k m h))

prune_loop-IsDistinct :
    (c : ℕ) (ks : List OriginKey) (m : States) → IsDistinct m → IsDistinct (prune_loop c ks m)
unfolding prune_loop
prune_loop-IsDistinct c [] m d = d
prune_loop-IsDistinct c (k ∷ ks) m d =
    ground (arith, prune_loop-IsDistinct c ks (remove k m) (remove-IsDistinct k m d))

make_room-ne :
    (i : OriginKey) (now : Instant) (m : States) (c : ℕ)
    → All (λ e. i ≢ e.0) m
    → All (λ e. i ≢ e.0) (make_room m now c)
unfolding prune_safe_states
make_room-ne i now m c h =
    ground (arith, prune_loop-ne i c (removable now m) (examined now m) (examined-ne i now m h))

make_room-IsDistinct :
    (now : Instant) (m : States) (c : ℕ) → IsDistinct m → IsDistinct (make_room m now c)
unfolding prune_safe_states
make_room-IsDistinct now m c d = ground (
  arith,
  prune_loop-IsDistinct c (removable now m) (examined now m) (examined-IsDistinct now m d),
)

find_or_create-IsDistinct :
    (m : States) (k : OriginKey) (now : Instant) (c : ℕ)
    → IsDistinct m
    → IsDistinct (find_or_create m k now c).0
unfolding find_or_create
find_or_create-IsDistinct m k now c d =
    let room = make_room m now c in
    ground (
      arith,
      make_room-IsDistinct now m c d,
      get-none_iff k m,
      make_room-ne k now m c,
      insert-IsDistinct k default_state room,
    )

add_to-IsDistinct :
    (r : OriginRegistry) (k : OriginKey) (concurrency : ℕ)
    (f : States × Result OriginPacingState AdmissionError)
    → IsDistinct f.0
    → IsDistinct (add_to r k concurrency f).0.states
add_to-IsDistinct r k concurrency (m, err e) d = d
add_to-IsDistinct r k concurrency (m, ok t) d = elim (Option-cases r.next_registration_id) [
  | inl e ↦ rw e d
  | inr (id, e) ↦ rw e (update-IsDistinct k (add_registration t id concurrency) m d)
]

-- A registration keeps the origins of the registry distinct, also where it prunes or fails.
pub register-IsDistinct :
    (r : OriginRegistry) (k : OriginKey) (concurrency : ℕ) (now : Instant)
    → IsDistinct r.states
    → IsDistinct (register r k concurrency now).0.states
unfolding register
register-IsDistinct r k concurrency now d =
    add_to-IsDistinct r k concurrency (find_or_create r.states k now r.capacity)
      (find_or_create-IsDistinct r.states k now r.capacity d)
