-- ===== src/Pacing/Backoff.antt =====
-- About the backoff of repeated rate limits in crates/erabi-crawler/src/pacing.rs.
use erabi.Base.{ℕ, zero, suc, ◌-◌, ◌*◌, ◌^◌, ◌≤◌, ◌≡◌, arith, min}
use native.Mathlib.Decide.{dec_le}
use native.Mathlib.Nat.{pow-suc, pow-le-pow_right, one-le-pow}
use erabi.Pacing.{secs, max_rate_limit_backoff, bounded_backoff}

-- For every count of consecutive rate limits from 1 on, the backoff is one second doubled once for
-- each limit after the first, and at most a minute: cutting the exponent at 6 changes nothing.
pub bounded_backoff_lem :
    (n : ℕ) → bounded_backoff (suc n) ≡ min (secs 1 * 2 ^ n) max_rate_limit_backoff
unfolding bounded_backoff
bounded_backoff_lem n = elim (dec_le n 6) [
  | yes l ↦ let e : min (suc n - 1) 6 ≡ n = omega arith in rw e
  | no g ↦
      let e : min (suc n - 1) 6 ≡ 6 = omega arith in
      let large : 64 ≤ 2 ^ n =
        pow-le-pow_right {n = 2} (omega arith) {i = 6} {j = n} (omega arith) in
      rw e (omega (arith, large))
]

backoff_zero :
    (secs 1 ≤ bounded_backoff 0)
    × (bounded_backoff 0 ≤ max_rate_limit_backoff)
    × (bounded_backoff 0 ≤ bounded_backoff 1)
unfolding bounded_backoff
backoff_zero = omega arith

-- A backoff lies between one second and one minute, and does not shrink as limits follow.
pub bounded_backoff_range :
    (n : ℕ)
    → (secs 1 ≤ bounded_backoff n)
      × (bounded_backoff n ≤ max_rate_limit_backoff)
      × (bounded_backoff n ≤ bounded_backoff (suc n))
bounded_backoff_range zero = backoff_zero
bounded_backoff_range (suc n) = omega (
  arith,
  bounded_backoff_lem n,
  bounded_backoff_lem (suc n),
  pow-suc 2 n,
  one-le-pow n 2 (omega arith),
)
