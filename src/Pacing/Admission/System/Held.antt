-- ===== src/Pacing/Admission/System/Held.antt =====
-- A deadline of one origin of crates/erabi-crawler/src/pacing.rs, once set, is kept by every
-- interleaving until the clock has passed it, and no admission comes before that.
use erabi.Base.{
  ℕ, ◌+◌, ◌≤◌, ◌<◌, ◌≡◌, refl, ◌≢◌, ◌⊎◌, inl, inr, Bool, true, false, Option, none, some, ok, err,
  arith, saturating_add, u8_max,
}
use native.Mathlib.Decide.{dec_le}
use native.Mathlib.Nat.{le_trans}
use erabi.Pacing.{
  Duration, Instant, PacingOutcome, success, failed, rate_limited, RetryAfterTiming, delay,
  OriginPacingState, effective_concurrency, normalize_expired_safety, latest_deadline, expire,
  bounded_backoff, add_registration, release_registration, register_waiter, release_waiter, release,
  record_outcome, later_deadline, record_retry_after, record_rate_limit,
}
use erabi.Pacing.Admission.{
  acquired, wait_until, wait_for_permit, Attempt, inspect, attempt, conclude, iterate, Iteration,
  admitted, refused, waits,
}
use erabi.Pacing.Admission.Attempt.{IsPast, AllPast, attempt-acquired_iff}
use erabi.Pacing.Admission.System.{
  System, after, Step, tick, register, unregister, enter, wait, record_evidence, finish,
  inspect_for_retirement, Reach, here, next, Admits,
}

-- A deadline not before the instant.
abbrev pub IsFrom : Instant → Option Instant → Type 0
IsFrom t none = ⊥
IsFrom t (some deadline) = t ≤ deadline

-- Some deadline of the origin is not before the instant.
abbrev pub Holds : Instant → OriginPacingState → Type 0
Holds t s = IsFrom t s.next_request_at ⊎ IsFrom t s.backoff_until ⊎ IsFrom t s.retry_after_until

expire-IsFrom :
    (t now : Instant) (o : Option Instant) → now < t → IsFrom t o → IsFrom t (expire now o)
expire-IsFrom t now none l h = h
expire-IsFrom t now (some d) l h = ground arith

normalize-Holds :
    (t now : Instant) (s : OriginPacingState)
    → now < t
    → Holds t s
    → Holds t (normalize_expired_safety s now)
unfolding normalize_expired_safety
normalize-Holds t now s l (inl h) = inl (expire-IsFrom t now s.next_request_at l h)
normalize-Holds t now s l (inr (inl h)) = inr (inl (expire-IsFrom t now s.backoff_until l h))
normalize-Holds t now s l (inr (inr h)) = inr (inr (expire-IsFrom t now s.retry_after_until l h))

later-IsFrom : (t c : Instant) (o : Option Instant) → IsFrom t o → t ≤ later_deadline o c
later-IsFrom t c none h = absurd h
later-IsFrom t c (some d) h = omega arith

not-IsPast : (t now : Instant) (o : Option Instant) → now < t → IsFrom t o → ¬ IsPast now o
not-IsPast t now none l h p = h
not-IsPast t now (some d) l h p = omega arith

not-AllPast : (t now : Instant) (s : OriginPacingState) → now < t → Holds t s → ¬ AllPast now s
not-AllPast t now s l (inl h) p = not-IsPast t now s.next_request_at l h p.0
not-AllPast t now s l (inr (inl h)) p = not-IsPast t now s.backoff_until l h p.1
not-AllPast t now s l (inr (inr h)) p = not-IsPast t now s.retry_after_until l h p.2

-- An attempt that takes no slot leaves the three deadlines of the state that it inspects.
inspect_deadlines :
    (s : OriginPacingState) (o : Option ℕ) (b : Option Instant) (d now : ℕ) (t : Instant)
    → (inspect s o b d now).1 ≢ ok acquired
    → Holds t s
    → Holds t (inspect s o b d now).0
inspect_deadlines s none b d now t n h = h
inspect_deadlines s (some c) none d now t n h = ground arith
inspect_deadlines s (some c) (some b) d now t n h = ground arith

attempt-Holds :
    (t : Instant) (s : OriginPacingState) (d now : ℕ)
    → now < t
    → Holds t s
    → Holds t (attempt s d now).0
unfolding attempt
attempt-Holds t s d now l h =
    let n = normalize_expired_safety s now in
    inspect_deadlines n (effective_concurrency n) (latest_deadline n) d now t
      (λ e. not-AllPast t now s l h ((attempt-acquired_iff s d now).0 e).1)
      (normalize-Holds t now s l h)

conclude-Holds :
    (t : Instant) (s : System) (a : Attempt) → Holds t a.0 → Holds t (after s (conclude a)).state
unfolding release_waiter
conclude-Holds t s (u, ok acquired) h = h
conclude-Holds t s (u, ok (wait_until d)) h = h
conclude-Holds t s (u, ok wait_for_permit) h = h
conclude-Holds t s (u, err e) h = h

iterate-Holds :
    (t : Instant) (s : System) (cancelled : Bool) (d : Duration)
    → s.now < t
    → Holds t s.state
    → Holds t (after s (iterate s.state cancelled d s.now)).state
unfolding iterate release_waiter
iterate-Holds t s true d l h = h
iterate-Holds t s false d l h =
    conclude-Holds t s (attempt s.state d s.now) (attempt-Holds t s.state d s.now l h)

retry-Holds :
    (t : Instant) (s : OriginPacingState) (d : Option Duration) (now : Instant)
    → Holds t s
    → Holds t (record_retry_after s d now).0
retry-Holds t s none now h = h
retry-Holds t s (some d) now h = ground (arith, later-IsFrom t (now + d) s.retry_after_until)

rate_limit-Holds :
    (t : Instant) (s : OriginPacingState) (r : RetryAfterTiming) (now : Instant)
    → Holds t s
    → Holds t (record_rate_limit s r now).0
rate_limit-Holds t s r now h =
    let count = saturating_add u8_max s.consecutive_rate_limits 1 in
    let until = now + bounded_backoff count in
    ground (
      arith,
      later-IsFrom t until s.backoff_until,
      retry-Holds t
          (record s {
            consecutive_rate_limits = count;
            backoff_until = some (later_deadline s.backoff_until until);
          })
          (delay r) now,
    )

outcome-Holds :
    (t : Instant) (s : OriginPacingState) (o : PacingOutcome) (now : Instant)
    → now < t
    → Holds t s
    → Holds t (record_outcome s o now).0
unfolding record_outcome
outcome-Holds t s success now l h = normalize-Holds t now s l h
outcome-Holds t s failed now l h = normalize-Holds t now s l h
outcome-Holds t s (rate_limited r) now l h =
    rate_limit-Holds t (normalize_expired_safety s now) r now (normalize-Holds t now s l h)

-- Either the clock has reached the instant, or a deadline holds it off.
unfoldable pub IsHeld : Instant → System → Type 0
IsHeld t s = (t ≤ s.now) ⊎ Holds t s.state

Step-IsHeld_later :
    {s u : System} (t : Instant) → Step s u → s.now < t → Holds t s.state → IsHeld t u
unfolding IsHeld add_registration release_registration register_waiter release
Step-IsHeld_later t (tick s now l) p h = inr h
Step-IsHeld_later t (register s id c l) p h = inr h
Step-IsHeld_later t (unregister s id) p h = inr h
Step-IsHeld_later t (enter s l) p h = inr h
Step-IsHeld_later t (wait s cancelled d w) p h = inr (iterate-Holds t s cancelled d p h)
Step-IsHeld_later t (record_evidence s o q) p h = inr (outcome-Holds t s.state o s.now p h)
Step-IsHeld_later t (finish s q) p h = inr h
Step-IsHeld_later t (inspect_for_retirement s) p h = inr (normalize-Holds t s.now s.state p h)

now-after : (s : System) (r : OriginPacingState × Iteration) → (after s r).now ≡ s.now
now-after s (t, admitted) = refl
now-after s (t, refused e) = refl
now-after s (t, waits a) = refl

Step-now : {s u : System} → Step s u → s.now ≤ u.now
Step-now (tick s t l) = l
Step-now (register s id c l) = omega arith
Step-now (unregister s id) = omega arith
Step-now (enter s l) = omega arith
Step-now (wait s cancelled d w) = omega (arith, now-after s (iterate s.state cancelled d s.now))
Step-now (record_evidence s o p) = omega arith
Step-now (finish s p) = omega arith
Step-now (inspect_for_retirement s) = omega arith

Step-IsHeld : {s u : System} (t : Instant) → Step s u → IsHeld t s → IsHeld t u
unfolding IsHeld
Step-IsHeld {s} {u} t st (inl p) = inl (le_trans p (Step-now st))
Step-IsHeld {s} {u} t st (inr h) = elim (dec_le t s.now) [
  | yes p ↦ inl (le_trans p (Step-now st))
  | no p ↦ Step-IsHeld_later t st (omega arith) h
]

pub Reach-IsHeld : {s u : System} (t : Instant) → Reach s u → IsHeld t s → IsHeld t u
Reach-IsHeld t here h = h
Reach-IsHeld t (next r st) h = Step-IsHeld t st (Reach-IsHeld t r h)

admitted-acquired : (a : Attempt) → (conclude a).1 ≡ admitted → a.1 ≡ ok acquired
admitted-acquired (s, ok acquired) h = refl
admitted-acquired (s, ok (wait_until d)) h = cc
admitted-acquired (s, ok wait_for_permit) h = cc
admitted-acquired (s, err e) h = cc

pub Admits-acquired :
    {s : System} {d : Duration} → Admits s d → (attempt s.state d s.now).1 ≡ ok acquired
unfolding iterate
Admits-acquired {s} {d} a = admitted-acquired (attempt s.state d s.now) a.granted

-- An instant that is held off is no instant of an admission.
pub held-le : {s : System} (t : Instant) (d : Duration) → IsHeld t s → Admits s d → t ≤ s.now
unfolding IsHeld
held-le t d (inl p) a = p
held-le {s} t d (inr h) a = elim (dec_le t s.now) [
  | yes p ↦ p
  | no p ↦ absurd (
      not-AllPast t s.now s.state (omega arith) h
        ((attempt-acquired_iff s.state d s.now).0 (Admits-acquired a)).1)
]
