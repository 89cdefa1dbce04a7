-- ===== src/Robots/Fetch/Outcomes.antt =====
-- What `fetch_document` of crates/erabi-crawler/src/robots.rs leaves in the cache and in the
-- origin's pacing, on each of its paths.
use erabi.Base.{ℕ, ◌-◌, ◌≡◌, refl, ap, Result, err, arith}
use erabi.Pacing.{
  Instant, OriginKey, PacingOutcome, success, failed, rate_limited, OriginPacingState,
  record_outcome, release, release_registration, normalize_expired_safety,
}
use erabi.Pacing.Admission.{RobotsPolicyEvidence}
use erabi.Robots.{RobotsDocument}
use erabi.Robots.Parse.{Float}
use erabi.Robots.Cache.{Entries}
use erabi.Robots.Fetch.{
  RobotsPolicyError, RobotsHttpResponse, RobotsTransportError, StatusAction, policy, return_error,
  record_failure, Shared, keep, perform, on_response, fetch_admitted,
}

record_outcome-in_flight :
    (s : OriginPacingState) (outcome : PacingOutcome) (now : Instant)
    → (record_outcome s outcome now).0.in_flight ≡ s.in_flight
unfolding record_outcome normalize_expired_safety
record_outcome-in_flight s success now = refl
record_outcome-in_flight s failed now = refl
record_outcome-in_flight s (rate_limited r) now = ground arith

keep-err :
    (m : Entries) (o : OriginKey) (d : RobotsDocument) (ev : RobotsPolicyEvidence) (now : Instant)
    (e : RobotsPolicyError)
    → (keep m o d ev now).1 ≡ err e
    → (keep m o d ev now).0 ≡ m
keep-err m o d ev now e h = ground (arith, h)

perform-err :
    (s : Shared) (o : OriginKey) (now later : Instant) (a : StatusAction) (e : RobotsPolicyError)
    → (perform s o now later a).1 ≡ err e
    → (perform s o now later a).0.entries ≡ s.entries
unfolding record_outcome
perform-err s o now later (policy d ev) e h = keep-err s.entries o d ev later e h
perform-err s o now later (return_error x) e h = refl
perform-err s o now later (record_failure x y) e h = refl

perform-in_flight :
    (s : Shared) (o : OriginKey) (now later : Instant) (a : StatusAction)
    → (perform s o now later a).0.pacing.in_flight ≡ s.pacing.in_flight
unfolding record_outcome normalize_expired_safety
perform-in_flight s o now later (policy d ev) = refl
perform-in_flight s o now later (return_error x) = refl
perform-in_flight s o now later (record_failure x y) = record_outcome-in_flight s.pacing x now

module _ (f : Float) where
  -- A fetch that fails, in whatever way, leaves the cache as it was.
  pub fetch_admitted-err :
      (s : Shared) (o : OriginKey) (id : ℕ) (now later : Instant)
      (response : Result RobotsHttpResponse RobotsTransportError) (e : RobotsPolicyError)
      → (fetch_admitted f s o id now later response).1 ≡ err e
      → (fetch_admitted f s o id now later response).0.entries ≡ s.entries
  unfolding fetch_admitted
  fetch_admitted-err s o id now later response e h =
      perform-err s o now later (on_response f response) e h

  -- The permit's slot is given back on every path: success, refusal, and any error.
  pub fetch_admitted-in_flight :
      (s : Shared) (o : OriginKey) (id : ℕ) (now later : Instant)
      (response : Result RobotsHttpResponse RobotsTransportError)
      → (fetch_admitted f s o id now later response).0.pacing.in_flight ≡ s.pacing.in_flight - 1
  unfolding fetch_admitted release release_registration
  fetch_admitted-in_flight s o id now later response =
      ap (λ n. n - 1) (perform-in_flight s o now later (on_response f response))
