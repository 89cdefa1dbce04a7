-- ===== src/Pacing/Registry/Retirement.antt =====
-- About `is_safe_to_retire` of crates/erabi-crawler/src/pacing.rs: when the state of an origin may
-- leave the registry, and what the test makes of a state that stays.
use erabi.Base.{
  ℕ, ◌≡◌, refl, ◌≢◌, ◌↔◌, ◌⊎◌, inl, inr, true, false, List, [], ◌∷◌, Option, none, some, arith,
  is_empty, is_none, Bool-cases,
}
use erabi.Pacing.{
  Instant, OriginPacingState, is_safe_to_retire, expire, normalize_expired_safety, is_idle,
}
use erabi.Pacing.Admission.Attempt.{IsPast, AllPast}

-- Something uses the origin: a registration, a request in flight, a waiting task, or a deadline that
-- has not passed.
abbrev pub InUse : Instant → OriginPacingState → Type 0
InUse now s =
    (s.registrations ≢ [])
    ⊎ ((s.in_flight ≢ 0) ⊎ ((s.waiting_admissions ≢ 0) ⊎ (¬ (AllPast now s))))

-- The deadline is as it was, or it has passed and is no longer there.
abbrev pub Cleared : Instant → Option Instant → Option Instant → Type 0
Cleared now before after = (after ≡ before) ⊎ (IsPast now before × (after ≡ none))

-- The state is as it was, but for deadlines that have passed.
pub record Kept (now : Instant) (s t : OriginPacingState) : Type 0 where
  pub in_flight : t.in_flight ≡ s.in_flight
  pub registrations : t.registrations ≡ s.registrations
  pub waiting_admissions : t.waiting_admissions ≡ s.waiting_admissions
  pub consecutive_rate_limits : t.consecutive_rate_limits ≡ s.consecutive_rate_limits
  pub next_request_at : Cleared now s.next_request_at t.next_request_at
  pub backoff_until : Cleared now s.backoff_until t.backoff_until
  pub retry_after_until : Cleared now s.retry_after_until t.retry_after_until

is_empty_iff : (rs : List (ℕ × ℕ)) → (is_empty rs ≡ true) ↔ (rs ≡ [])
is_empty_iff [] = (λ _. refl, λ _. refl)
is_empty_iff (r ∷ rs) = (λ h. cc, λ h. cc)

expire_iff : (now : Instant) (o : Option Instant) → (is_none (expire now o) ≡ true) ↔ IsPast now o
expire_iff now none = (λ _. tt, λ _. refl)
expire_iff now (some d) = ground arith

-- A state may retire exactly if nothing uses the origin and all three deadlines have passed.
pub retire_iff :
    (s : OriginPacingState) (now : Instant)
    → ((is_safe_to_retire s now).1 ≡ true)
      ↔ ((s.registrations ≡ []) × (s.in_flight ≡ 0) × (s.waiting_admissions ≡ 0) × AllPast now s)
unfolding is_safe_to_retire
retire_iff s now = ground (
  arith,
  is_empty_iff s.registrations,
  expire_iff now s.next_request_at,
  expire_iff now s.backoff_until,
  expire_iff now s.retry_after_until,
)

pub in_use_stays :
    (s : OriginPacingState) (now : Instant) → InUse now s → (is_safe_to_retire s now).1 ≡ false
in_use_stays s now u = elim (Bool-cases (is_safe_to_retire s now).1) [
  | inr n ↦ n
  | inl y ↦
      let (r, f, w, p) = (retire_iff s now).0 y in
      elim u [
        | inl a ↦ absurd (a r)
        | inr v ↦ elim v [
          | inl b ↦ absurd (b f)
          | inr x ↦ elim x [ inl c ↦ absurd (c w) | inr d ↦ absurd (d p) ]
        ]
      ]
]

expire-Cleared : (now : Instant) (o : Option Instant) → Cleared now o (expire now o)
expire-Cleared now none = inl refl
expire-Cleared now (some d) = ground arith

pub unchanged-Kept : (s : OriginPacingState) (now : Instant) → Kept now s s
unchanged-Kept s now = record {
  in_flight = refl;
  registrations = refl;
  waiting_admissions = refl;
  consecutive_rate_limits = refl;
  next_request_at = inl refl;
  backoff_until = inl refl;
  retry_after_until = inl refl;
}

pub retire-Kept : (s : OriginPacingState) (now : Instant) → Kept now s (is_safe_to_retire s now).0
unfolding is_safe_to_retire normalize_expired_safety
retire-Kept s now = record {
  in_flight = refl;
  registrations = refl;
  waiting_admissions = refl;
  consecutive_rate_limits = refl;
  next_request_at = expire-Cleared now s.next_request_at;
  backoff_until = expire-Cleared now s.backoff_until;
  retry_after_until = expire-Cleared now s.retry_after_until;
}
