-- ===== src/Pacing/Admission/Attempt.antt =====
-- When an attempt of crates/erabi-crawler/src/pacing.rs takes a slot, and what it leaves behind.
use erabi.Base.{
  ℕ, ◌+◌, ◌≤◌, ◌<◌, ◌≡◌, refl, ap, ◌∙◌, ◌↔◌, ◌≢◌, true, Option, none, some, List, [], ◌∷◌, ok, err,
  arith, All, is_none_or, leb, u32_max,
}
use erabi.Pacing.{
  Instant, OriginPacingState, expire, clock_overflow, last_instant, lower, least,
  effective_concurrency, normalize_expired_safety, latest, latest_deadline,
}
use erabi.Pacing.Admission.{acquired, inspect, attempt}

-- The deadline is absent or has passed.
abbrev pub IsPast : Instant → Option Instant → Type 0
IsPast now none = Unit
IsPast now (some deadline) = deadline ≤ now

abbrev pub AllPast : Instant → OriginPacingState → Type 0
AllPast now s =
    IsPast now s.next_request_at × IsPast now s.backoff_until × IsPast now s.retry_after_until

-- Every registered configuration leaves room for one more request, and there is one.
pub record HasRoom (s : OriginPacingState) : Type 0 where
  pub registered : s.registrations ≢ []
  pub room : All (λ r. s.in_flight < r.1) s.registrations

abbrev IsAbove : ℕ → Option ℕ → Type 0
IsAbove n none = Unit
IsAbove n (some m) = n < m

IsAbove-lower : (n c : ℕ) (o : Option ℕ) → IsAbove n (lower c o) ↔ ((n < c) × IsAbove n o)
IsAbove-lower n c none = ground arith
IsAbove-lower n c (some m) = ground arith

IsAbove-least : (n : ℕ) (rs : List (ℕ × ℕ)) → IsAbove n (least rs) ↔ All (λ r. n < r.1) rs
unfolding least
IsAbove-least n [] = (λ _. tt, λ _. tt)
IsAbove-least n ((i, c) ∷ rs) = ground (arith, IsAbove-lower n c (least rs), IsAbove-least n rs)

least-none : (rs : List (ℕ × ℕ)) → least rs ≡ none → rs ≡ []
unfolding least
least-none [] h = refl
least-none ((i, c) ∷ rs) h = ground arith

least-nil : least [] ≡ none
unfolding least
least-nil = refl

IsPast-latest :
    (now : Instant) (a b : Option Instant) → IsPast now (latest a b) ↔ (IsPast now a × IsPast now b)
IsPast-latest now none b = ground arith
IsPast-latest now (some x) none = ground arith
IsPast-latest now (some x) (some y) = ground arith

IsPast-expire : (now : Instant) (a : Option Instant) → IsPast now (expire now a) ↔ IsPast now a
IsPast-expire now none = ground arith
IsPast-expire now (some x) = ground arith

IsPast-test :
    (now : Instant) (a : Option Instant) → (is_none_or (λ d. leb d now) a ≡ true) ↔ IsPast now a
IsPast-test now none = ground arith
IsPast-test now (some x) = ground arith

latest_past :
    (now : Instant) (s : OriginPacingState)
    → (is_none_or (λ d. leb d now) (latest_deadline (normalize_expired_safety s now)) ≡ true)
      ↔ AllPast now s
unfolding latest_deadline normalize_expired_safety
latest_past now s =
    let a = expire now s.next_request_at in
    let b = expire now s.backoff_until in
    let c = expire now s.retry_after_until in
    ground (
      arith,
      IsPast-test now (latest a (latest b c)),
      IsPast-latest now a (latest b c),
      IsPast-latest now b c,
      IsPast-expire now s.next_request_at,
      IsPast-expire now s.backoff_until,
      IsPast-expire now s.retry_after_until,
    )

inspect_iff :
    (s : OriginPacingState) (o : Option ℕ) (not_before : Option Instant) (d now : ℕ)
    → ((inspect s o not_before d now).1 ≡ ok acquired) ↔ (
        (o ≢ none)
        × IsAbove s.in_flight o
        × (is_none_or (λ t. leb t now) not_before ≡ true)
        × (now + d ≤ last_instant))
inspect_iff s none b d now = ground arith
inspect_iff s (some c) none d now = ground arith
inspect_iff s (some c) (some b) d now = ground arith

normalize_keeps :
    (s : OriginPacingState) (now : Instant)
    → ((normalize_expired_safety s now).in_flight ≡ s.in_flight)
      × ((normalize_expired_safety s now).registrations ≡ s.registrations)
unfolding normalize_expired_safety
normalize_keeps s now = (refl, refl)

room_iff :
    (s : OriginPacingState)
    → HasRoom s ↔ ((least s.registrations ≢ none) × IsAbove s.in_flight (least s.registrations))
room_iff s = (
  λ h. (
    λ e. h.registered (least-none s.registrations e),
    (IsAbove-least s.in_flight s.registrations).1 h.room,
  ),
  λ h. record {
    registered = λ e. h.0 (ap least e ∙ least-nil);
    room = (IsAbove-least s.in_flight s.registrations).0 h.1;
  },
)

-- An attempt takes a slot exactly if some configuration is registered, every registered one leaves
-- room for one more request in flight, all three deadlines of the origin have passed, and the next
-- deadline can be represented.
pub attempt-acquired_iff :
    (s : OriginPacingState) (d now : ℕ)
    → ((attempt s d now).1 ≡ ok acquired) ↔ (HasRoom s × AllPast now s × (now + d ≤ last_instant))
unfolding attempt effective_concurrency
attempt-acquired_iff s d now =
    let t = normalize_expired_safety s now in
    ground (
      arith,
      room_iff s,
      latest_past now s,
      normalize_keeps s now,
      inspect_iff t (least t.registrations) (latest_deadline t) d now,
    )

inspect_acquired :
    (s : OriginPacingState) (o : Option ℕ) (b : Option Instant) (d now : ℕ)
    → s.in_flight < u32_max
    → (inspect s o b d now).1 ≡ ok acquired
    → (inspect s o b d now).0
      ≡ record s { in_flight = s.in_flight + 1; next_request_at = some (now + d) }
inspect_acquired s none b d now m h = ground arith
inspect_acquired s (some c) none d now m h = ground arith
inspect_acquired s (some c) (some b) d now m h = ground arith

expire-IsPast : (now : Instant) (a : Option Instant) → IsPast now a → expire now a ≡ none
expire-IsPast now none h = refl
expire-IsPast now (some x) h = ground arith

normalize_past :
    (s : OriginPacingState) (now : Instant)
    → AllPast now s
    → normalize_expired_safety s now
      ≡ record s { next_request_at = none; backoff_until = none; retry_after_until = none }
unfolding normalize_expired_safety
normalize_past s now h = cc (
  expire-IsPast now s.next_request_at h.0,
  expire-IsPast now s.backoff_until h.1,
  expire-IsPast now s.retry_after_until h.2,
)

-- An attempt that takes a slot, with the count of requests in flight below its machine limit,
-- counts one more request in flight, sets the origin's next deadline to the effective delay from
-- now, and changes no registration, waiter count or rate-limit count; the other two deadlines are
-- cleared, having passed.
pub attempt-effect :
    (s : OriginPacingState) (d now : ℕ)
    → s.in_flight < u32_max
    → (attempt s d now).1 ≡ ok acquired
    → (attempt s d now).0 ≡ record s {
      in_flight = s.in_flight + 1;
      next_request_at = some (now + d);
      backoff_until = none;
      retry_after_until = none;
    }
unfolding attempt effective_concurrency
attempt-effect s d now m h =
    let t = normalize_expired_safety s now in
    ground (
      arith,
      attempt-acquired_iff s d now,
      normalize_past s now,
      inspect_acquired t (least t.registrations) (latest_deadline t) d now,
    )

inspect_overflow :
    (s : OriginPacingState) (o : Option ℕ) (b : Option Instant) (d now : ℕ)
    → s.in_flight < u32_max
    → (inspect s o b d now).1 ≡ err clock_overflow
    → ((inspect s o b d now).0.in_flight ≡ s.in_flight + 1) × (last_instant < now + d)
inspect_overflow s none b d now m h = ground arith
inspect_overflow s (some c) none d now m h = ground arith
inspect_overflow s (some c) (some b) d now m h = ground arith

-- An attempt that fails because the next deadline cannot be represented hands out no permit, yet
-- leaves one more request counted in flight, where that count is below its machine limit.
pub attempt-overflow :
    (s : OriginPacingState) (d now : ℕ)
    → s.in_flight < u32_max
    → (attempt s d now).1 ≡ err clock_overflow
    → ((attempt s d now).0.in_flight ≡ s.in_flight + 1) × (last_instant < now + d)
unfolding attempt effective_concurrency
attempt-overflow s d now m h =
    let t = normalize_expired_safety s now in
    ground (
      arith,
      normalize_keeps s now,
      inspect_overflow t (least t.registrations) (latest_deadline t) d now,
    )
