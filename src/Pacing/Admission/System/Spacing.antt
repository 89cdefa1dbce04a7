-- ===== src/Pacing/Admission/System/Spacing.antt =====
-- Requests to one origin of crates/erabi-crawler/src/pacing.rs are spaced by the effective delay, and
-- a rate limit holds them off for its backoff and its Retry-After.
use erabi.Base.{
  ℕ, ◌+◌, ◌≤◌, ◌≡◌, refl, inl, inr, Option, none, some, ok, arith, saturating_add, u8_max,
  Option-cases,
}
use erabi.Pacing.{
  Duration, Instant, rate_limited, RetryAfterTiming, absent, honored, clamped, invalid, delay,
  OriginPacingState, effective_concurrency, normalize_expired_safety, latest_deadline,
  bounded_backoff, release_waiter, record_rate_limit, record_outcome, later_deadline,
}
use erabi.Pacing.Admission.{acquired, inspect, attempt, iterate}
use erabi.Pacing.Admission.System.{System, Reach, Admits, admit}
use erabi.Pacing.Admission.System.Held.{IsFrom, IsHeld, Reach-IsHeld, held-le, Admits-acquired}

inspect_next :
    (s : OriginPacingState) (o : Option ℕ) (b : Option Instant) (d now : ℕ)
    → (inspect s o b d now).1 ≡ ok acquired
    → (inspect s o b d now).0.next_request_at ≡ some (now + d)
inspect_next s none b d now h = ground arith
inspect_next s (some c) none d now h = ground arith
inspect_next s (some c) (some b) d now h = ground arith

attempt_next :
    (s : OriginPacingState) (d now : ℕ)
    → (attempt s d now).1 ≡ ok acquired
    → (attempt s d now).0.next_request_at ≡ some (now + d)
unfolding attempt
attempt_next s d now h =
    let n = normalize_expired_safety s now in
    inspect_next n (effective_concurrency n) (latest_deadline n) d now h

admit_next :
    {s : System} {d : Duration} → Admits s d → (admit s d).state.next_request_at ≡ some (s.now + d)
unfolding iterate release_waiter
admit_next {s} {d} a = ground (arith, attempt_next s.state d s.now, Admits-acquired a)

IsFrom-some : (t x : Instant) (o : Option Instant) → o ≡ some x → t ≤ x → IsFrom t o
IsFrom-some t x o h l = rw h l

-- Between a request's admission and the next one on the same origin there passes at least the
-- effective delay of the first, whatever tasks register, wait, are cancelled, record evidence or
-- finish in between.
pub admissions_spaced :
    {s t : System} {d e : Duration}
    → Admits s d
    → Reach (admit s d) t
    → Admits t e
    → s.now + d ≤ t.now
unfolding IsHeld
admissions_spaced {s} {t} {d} {e} a r b =
    let from =
      IsFrom-some (s.now + d) (s.now + d) (admit s d).state.next_request_at (admit_next a)
        (omega arith) in
    held-le (s.now + d) e (Reach-IsHeld (s.now + d) r (inr (inl from))) b

-- The backoff that the next rate limit of a state brings.
abbrev pub next_backoff : OriginPacingState → Duration
next_backoff s = bounded_backoff (saturating_add u8_max s.consecutive_rate_limits 1)

abbrev pub honored_delay : RetryAfterTiming → Duration
honored_delay r = elim (delay r) [ none ↦ 0 | some d ↦ d ]

later-le : (o : Option Instant) (c : Instant) → c ≤ later_deadline o c
later-le none c = omega arith
later-le (some d) c = omega arith

backoff-IsFrom :
    (s : OriginPacingState) (r : RetryAfterTiming) (now : Instant)
    → (record_rate_limit s r now).1 ≡ ok tt
    → IsFrom (now + next_backoff s) (record_rate_limit s r now).0.backoff_until
backoff-IsFrom s absent now h = ground (arith, later-le s.backoff_until (now + next_backoff s))
backoff-IsFrom s invalid now h = ground (arith, later-le s.backoff_until (now + next_backoff s))
backoff-IsFrom s (honored d) now h = ground (arith, later-le s.backoff_until (now + next_backoff s))
backoff-IsFrom s (clamped d) now h = ground (arith, later-le s.backoff_until (now + next_backoff s))

retry-IsFrom :
    (s : OriginPacingState) (r : RetryAfterTiming) (d : Duration) (now : Instant)
    → delay r ≡ some d
    → (record_rate_limit s r now).1 ≡ ok tt
    → IsFrom (now + d) (record_rate_limit s r now).0.retry_after_until
retry-IsFrom s absent d now e h = cc
retry-IsFrom s invalid d now e h = cc
retry-IsFrom s (honored x) d now e h = ground (arith, later-le s.retry_after_until (now + d))
retry-IsFrom s (clamped x) d now e h = ground (arith, later-le s.retry_after_until (now + d))

normalize_count :
    (s : OriginPacingState) (now : Instant)
    → (normalize_expired_safety s now).consecutive_rate_limits ≡ s.consecutive_rate_limits
unfolding normalize_expired_safety
normalize_count s now = refl

-- What a recorded rate limit holds off.
limited-IsHeld :
    (s : System) (r : RetryAfterTiming)
    → (record_outcome s.state (rate_limited r) s.now).1 ≡ ok tt
    → let t = record s { state = (record_outcome s.state (rate_limited r) s.now).0 } in
      IsHeld (s.now + next_backoff s.state) t × IsHeld (s.now + honored_delay r) t
unfolding IsHeld record_outcome
limited-IsHeld s r h = (
  inr (inr (inl (backoff-IsFrom (normalize_expired_safety s.state s.now) r s.now h))),
  elim (Option-cases (delay r)) [
    | inl e ↦ inl (rw (e, honored_delay) (omega arith))
    | inr (d, e) ↦
        rw (e, honored_delay)
          (inr (inr (inr (retry-IsFrom (normalize_expired_safety s.state s.now) r d s.now e h))))
  ],
)

-- After a rate limit whose evidence was recorded without an overflow, no request of the origin is
-- admitted before the bounded backoff for the raised count has passed, nor before the bounded
-- Retry-After delay has.
pub rate_limit_holds :
    (s : System) (r : RetryAfterTiming) {t : System} {e : Duration}
    → (record_outcome s.state (rate_limited r) s.now).1 ≡ ok tt
    → Reach (record s { state = (record_outcome s.state (rate_limited r) s.now).0 }) t
    → Admits t e
    → (s.now + next_backoff s.state ≤ t.now) × (s.now + honored_delay r ≤ t.now)
rate_limit_holds s r {t} {e} h q a =
    let held = limited-IsHeld s r h in
    (
      held-le (s.now + next_backoff s.state) e
          (Reach-IsHeld (s.now + next_backoff s.state) q held.0) a,
      held-le (s.now + honored_delay r) e (Reach-IsHeld (s.now + honored_delay r) q held.1) a,
    )
