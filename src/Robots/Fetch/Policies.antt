-- ===== src/Robots/Fetch/Policies.antt =====
-- What follows from a robots response in crates/erabi-crawler/src/robots.rs for the requests to its
-- origin: the admission that pacing gets to see, and the pause after a rate limit.
use erabi.Base.{
  ℕ, ◌+◌, ◌≤◌, ◌≡◌, refl, sym, subst, ◌⊎◌, inl, inr, Bool, Option, none, some, Result, ok, err,
  arith, max, saturating_add, u8_max,
}
use erabi.Text.{Text}
use erabi.Url.{Url}
use erabi.Pacing.{
  Instant, OriginKey, AdmissionError, robots_disallowed, OriginPacingState, rate_limited,
  record_outcome, release, release_registration, secs, RetryAfterTiming, delay,
}
use erabi.Pacing.Admission.Attempt.{AllPast, attempt-acquired_iff}
use erabi.Pacing.Admission.{acquired, attempt, RobotsPolicyEvidence, acquire_guard}
use erabi.Pacing.Admission.Origins.{origin_eq_iff}
use erabi.Pacing.Backoff.{bounded_backoff_range}
use erabi.Robots.{RobotsDocument, deny_all, response_too_large}
use erabi.Robots.Parse.{Float}
use erabi.Robots.Evaluate.{evaluate, decide}
use erabi.Robots.Fetch.{
  RobotsHttpResponse, policy, return_error, record_failure, StatusAction, perform, invalid,
  on_status, failure_error, on_response, admission_of, Shared, fetch_admitted, unavailable,
  rate_limited_response,
}
use erabi.Robots.Fetch.Responses.{on_response-policy_iff}

denies :
    (o : OriginKey) (target : Url) (user_agent : Text) (override : Bool) (e : RobotsPolicyEvidence)
    → acquire_guard o (admission_of o target user_agent override (deny_all, e))
      ≡ err robots_disallowed
unfolding acquire_guard admission_of evaluate decide
denies o target user_agent override e = ground (arith, origin_eq_iff o o)

abbrev pub after : Option ℕ → ℕ
after none = 0
after (some d) = d

-- The pause that a rate limit asks for: a second, or the time of its Retry-After if that is more.
abbrev pub pause : RetryAfterTiming → ℕ
pause timing = max (secs 1) (after (delay timing))

paused :
    (s : OriginPacingState) (timing : RetryAfterTiming) (now t : Instant)
    → (record_outcome s (rate_limited timing) now).1 ≡ ok tt
    → AllPast t (release (record_outcome s (rate_limited timing) now).0)
    → now + pause timing ≤ t
unfolding record_outcome release
paused s timing now t h p =
    ground (arith, h, p, bounded_backoff_range (saturating_add u8_max s.consecutive_rate_limits 1))

recorded :
    (x : Result (Unit {0}) AdmissionError)
    → failure_error rate_limited_response x ≡ unavailable rate_limited_response
    → x ≡ ok tt
recorded (ok _) h = refl
recorded (err e) h = absurd (ground (arith, h))

module _ (f : Float) where
  on_rate_limit :
      (r : RobotsHttpResponse)
      → r.status ≡ 429
      → on_response f (ok r) ≡ record_failure (rate_limited r.retry_after) rate_limited_response
        ⊎ on_response f (ok r) ≡ return_error (invalid response_too_large)
  unfolding on_response on_status
  on_rate_limit r h = ground (arith, h)

  -- Where the origin denies access to its robots file, with 401 or 403, pacing refuses every
  -- request to it, with an override as well.
  pub acquire_guard_denied :
      (r : RobotsHttpResponse) (d : RobotsDocument) (e : RobotsPolicyEvidence) (o : OriginKey)
      (target : Url) (user_agent : Text) (override : Bool)
      → r.status ≡ 401 ⊎ r.status ≡ 403
      → on_response f (ok r) ≡ policy d e
      → acquire_guard o (admission_of o target user_agent override (d, e)) ≡ err robots_disallowed
  acquire_guard_denied r d e o target user_agent override s h =
      let (_, fits) = (on_response-policy_iff f r d e).0 h in
      let same : d ≡ deny_all = ground (arith, s, fits) in
      subst
        (λ x.
          acquire_guard o (admission_of o target user_agent override (x, e))
          ≡ err robots_disallowed)
        (sym same) (denies o target user_agent override e)

  -- After a robots response of status 429 whose rate limit was recorded without an overflow, no
  -- attempt at the origin succeeds, with whatever delay, before a second and the time of the
  -- response's Retry-After have passed since.
  pub fetch_admitted-rate_limited :
      (s : Shared) (o : OriginKey) (id : ℕ) (now later : Instant) (r : RobotsHttpResponse) (d t : ℕ)
      → r.status ≡ 429
      → (fetch_admitted f s o id now later (ok r)).1 ≡ err (unavailable rate_limited_response)
      → (attempt (fetch_admitted f s o id now later (ok r)).0.pacing d t).1 ≡ ok acquired
      → now + pause r.retry_after ≤ t
  unfolding fetch_admitted release_registration
  fetch_admitted-rate_limited s o id now later r d t status h g = elim (on_rate_limit r status) [
    | inl e ↦
        limited
          (subst (λ a. (perform s o now later a).1 ≡ err (unavailable rate_limited_response)) e h)
          (subst
            (λ a.
              (attempt (release_registration (release (perform s o now later a).0.pacing) id) d t).1
              ≡ ok acquired)
            e g)
    | inr e ↦ absurd (
        too_large
          (subst (λ a. (perform s o now later a).1 ≡ err (unavailable rate_limited_response)) e h))
  ]
    where
      too_large :
          (perform s o now later (return_error (invalid response_too_large))).1
            ≡ err (unavailable rate_limited_response)
          → ⊥
      too_large k = ground (arith, k)

      action : StatusAction
      action = record_failure (rate_limited r.retry_after) rate_limited_response

      limited :
          (perform s o now later action).1 ≡ err (unavailable rate_limited_response)
          → (attempt
              (release_registration (release (perform s o now later action).0.pacing) id)
              d
              t).1
            ≡ ok acquired
          → now + pause r.retry_after ≤ t
      limited k l =
          paused s.pacing r.retry_after now t
            (recorded (record_outcome s.pacing (rate_limited r.retry_after) now).1
              (ground (arith, k)))
            ((attempt-acquired_iff
                (release_registration
                  (release (record_outcome s.pacing (rate_limited r.retry_after) now).0) id)
                d t).0
              l).1
