-- ===== src/Pacing/Admission/System/Accounts.antt =====
-- The counters of one origin of crates/erabi-crawler/src/pacing.rs agree with its live permits and
-- waiting tasks, whatever the interleaving.
use erabi.Base.{
  ℕ, ◌+◌, ◌≤◌, ◌<◌, ◌≡◌, Bool, true, false, Option, none, some, Result, ok, err, List, [], ◌∷◌,
  arith, All, u32_max,
}
use erabi.Pacing.{
  Duration, Instant, PacingOutcome, AdmissionError, OriginPacingState, least, lower,
  effective_concurrency, normalize_expired_safety, latest_deadline, remove_registration,
  add_registration, release_registration, register_waiter, release_waiter, release, record_outcome,
}
use erabi.Pacing.Admission.{
  AdmissionAttempt, acquired, wait_until, wait_for_permit, Attempt, inspect, attempt, conclude,
  iterate,
}
use erabi.Pacing.Admission.System.{
  System, start, lost_by, after, Step, tick, register, unregister, enter, wait, record_evidence,
  finish, inspect_for_retirement, Reach, here, next,
}

pub record IsAccounted (s : System) : Type 0 where
  pub flights : s.state.in_flight ≡ s.permits + s.lost
  pub waiting : s.state.waiting_admissions ≡ s.waiters
  pub few : s.waiters ≤ u32_max
  pub caps : All (λ r. r.1 ≤ u32_max) s.state.registrations

-- The requests that an attempt adds to those in flight.
abbrev gain : Result AdmissionAttempt AdmissionError → ℕ
gain (ok acquired) = 1
gain (ok _) = 0
gain (err e) = lost_by e

-- Counters that an attempt leaves alone, and the one that it raises.
record Counts (s : OriginPacingState) (a : Attempt) : Type 0 where
  flights : a.0.in_flight ≡ s.in_flight + gain a.1
  waiting : a.0.waiting_admissions ≡ s.waiting_admissions
  registrations : a.0.registrations ≡ s.registrations

abbrev IsCapped : Option ℕ → Type 0
IsCapped none = Unit
IsCapped (some c) = c ≤ u32_max

IsCapped-lower : (c : ℕ) (o : Option ℕ) → c ≤ u32_max → IsCapped o → IsCapped (lower c o)
IsCapped-lower c none h k = h
IsCapped-lower c (some m) h k = omega arith

IsCapped-least : (rs : List (ℕ × ℕ)) → All (λ r. r.1 ≤ u32_max) rs → IsCapped (least rs)
unfolding least
IsCapped-least [] h = tt
IsCapped-least ((i, c) ∷ rs) h = IsCapped-lower c (least rs) h.0 (IsCapped-least rs h.1)

inspect-Counts :
    (s : OriginPacingState) (o : Option ℕ) (b : Option Instant) (d now : ℕ)
    → IsCapped o
    → Counts s (inspect s o b d now)
inspect-Counts s none b d now h = ground arith
inspect-Counts s (some c) none d now h = ground arith
inspect-Counts s (some c) (some b) d now h = ground arith

attempt-Counts :
    (s : OriginPacingState) (d now : ℕ)
    → All (λ r. r.1 ≤ u32_max) s.registrations
    → Counts s (attempt s d now)
unfolding attempt effective_concurrency normalize_expired_safety
attempt-Counts s d now h =
    let t = normalize_expired_safety s now in
    let c =
      inspect-Counts t (least s.registrations) (latest_deadline t) d now
        (IsCapped-least s.registrations h) in
    record { flights = c.flights; waiting = c.waiting; registrations = c.registrations }

conclude-IsAccounted :
    (s : System) (a : Attempt)
    → IsAccounted s
    → 0 < s.waiters
    → Counts s.state a
    → IsAccounted (after s (conclude a))
unfolding release_waiter
conclude-IsAccounted s (t, ok acquired) h w c = ground arith
conclude-IsAccounted s (t, ok (wait_until d)) h w c = ground arith
conclude-IsAccounted s (t, ok wait_for_permit) h w c = ground arith
conclude-IsAccounted s (t, err e) h w c = ground arith

iterate-IsAccounted :
    (s : System) (cancelled : Bool) (d : Duration)
    → IsAccounted s
    → 0 < s.waiters
    → IsAccounted (after s (iterate s.state cancelled d s.now))
unfolding iterate release_waiter
iterate-IsAccounted s true d h w = ground arith
iterate-IsAccounted s false d h w =
    conclude-IsAccounted s (attempt s.state d s.now) h w (attempt-Counts s.state d s.now h.caps)

remove-caps :
    (id : ℕ) (rs : List (ℕ × ℕ))
    → All (λ r. r.1 ≤ u32_max) rs
    → All (λ r. r.1 ≤ u32_max) (remove_registration id rs)
unfolding remove_registration
remove-caps id [] h = tt
remove-caps id ((j, c) ∷ rs) h = ground (arith, remove-caps id rs h.1)

-- Recording evidence touches the deadlines and the rate-limit count only.
record_outcome_keeps :
    (s : OriginPacingState) (o : PacingOutcome) (now : Instant)
    → ((record_outcome s o now).0.in_flight ≡ s.in_flight)
      × ((record_outcome s o now).0.waiting_admissions ≡ s.waiting_admissions)
      × ((record_outcome s o now).0.registrations ≡ s.registrations)
unfolding record_outcome
record_outcome_keeps s o now = ground arith

Step-IsAccounted : {s t : System} → Step s t → IsAccounted s → IsAccounted t
unfolding add_registration release_registration register_waiter release normalize_expired_safety
Step-IsAccounted (tick s t l) h = ground arith
Step-IsAccounted (register s id c l) h = record {
  flights = h.flights;
  waiting = h.waiting;
  few = h.few;
  caps = (l, remove-caps id s.state.registrations h.caps);
}
Step-IsAccounted (unregister s id) h = record {
  flights = h.flights;
  waiting = h.waiting;
  few = h.few;
  caps = remove-caps id s.state.registrations h.caps;
}
Step-IsAccounted (enter s l) h = ground arith
Step-IsAccounted (wait s cancelled d w) h = iterate-IsAccounted s cancelled d h w
Step-IsAccounted (record_evidence s o p) h =
    let k = record_outcome_keeps s.state o s.now in ground (arith, k)
Step-IsAccounted (finish s p) h = ground arith
Step-IsAccounted (inspect_for_retirement s) h = ground arith

-- From the empty state of an origin, every interleaving of registrations, waits, cancellations,
-- evidence and releases keeps the in-flight count equal to the live permits plus the slots lost to
-- a clock overflow, and the waiter count equal to the waiting tasks.
pub Reach-IsAccounted : (now : Instant) {s : System} → Reach (start now) s → IsAccounted s
Reach-IsAccounted now here = omega arith
Reach-IsAccounted now (next r st) = Step-IsAccounted st (Reach-IsAccounted now r)
