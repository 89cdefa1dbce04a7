-- ===== src/Db/System/Order.antt =====
-- The order in which crates/erabi-db/src/repositories/job.rs takes the jobs that wait.
use erabi.Base.{
  ℕ, ◌≤◌, ◌<◌, ◌≡◌, refl, ◌⊎◌, ◌↔◌, inl, inr, Bool, true, false, not, none, some, arith, ℤ, pos, negsuc, ap, IsBelow, Option, is_none,
}
use erabi.Db.Tables.{JobState, JobRow, state_eq}
use erabi.Db.Queue.{int_lt, precedes, is_eligible}

pub int_lt_irrefl : (a : ℤ) → int_lt a a ≡ false
unfolding int_lt
int_lt_irrefl (pos a) = ground arith
int_lt_irrefl (negsuc a) = ground arith

pub int_lt_asym : (a b : ℤ) → int_lt a b ≡ true → int_lt b a ≡ false
unfolding int_lt
int_lt_asym (pos a) (pos b) h = ground arith
int_lt_asym (pos a) (negsuc b) h = cc
int_lt_asym (negsuc a) (pos b) h = refl
int_lt_asym (negsuc a) (negsuc b) h = ground arith

-- What is not before `b`, which is not before `c`, is not before `c`.
pub int_lt_trans : (a b c : ℤ) → int_lt a b ≡ false → int_lt b c ≡ false → int_lt a c ≡ false
unfolding int_lt
int_lt_trans (pos a) (pos b) (pos c) h k = ground arith
int_lt_trans (pos a) (pos b) (negsuc c) h k = refl
int_lt_trans (pos a) (negsuc b) (pos c) h k = cc
int_lt_trans (pos a) (negsuc b) (negsuc c) h k = refl
int_lt_trans (negsuc a) (pos b) c h k = cc
int_lt_trans (negsuc a) (negsuc b) (pos c) h k = cc
int_lt_trans (negsuc a) (negsuc b) (negsuc c) h k = ground arith

pub precedes_irrefl : (r : JobRow) → precedes r r ≡ false
unfolding precedes
precedes_irrefl r = ground (arith, int_lt_irrefl r.priority)

pub precedes_asym : (r s : JobRow) → precedes r s ≡ true → precedes s r ≡ false
unfolding precedes
precedes_asym r s h = ground (arith, h, int_lt_asym s.priority r.priority)

pub precedes_trans :
    (r s t : JobRow) → precedes r s ≡ false → precedes s t ≡ false → precedes r t ≡ false
unfolding precedes
precedes_trans r s t h k =
    let trans = int_lt_trans in
    ground (
      arith,
      h,
      k,
      trans t.priority s.priority r.priority,
      trans r.priority s.priority t.priority,
      trans s.priority r.priority t.priority,
      trans s.priority t.priority r.priority,
      trans r.priority t.priority s.priority,
      trans t.priority r.priority s.priority,
      int_lt_asym s.priority r.priority,
      int_lt_asym t.priority s.priority,
      int_lt_asym t.priority r.priority,
    )

-- A job that an acquisition may take: it waits, is due and, where heavy work is not admitted, has no
-- run.
pub record Eligible (now : ℕ) (allow : Bool) (r : JobRow) : Type 0 where
  pub waits : r.state ≡ JobState.queued
  pub due : r.scheduled_at ≤ now
  pub light : (allow ≡ true) ⊎ (r.crawl_run_id ≡ none)

-- The higher priority comes first, then the earlier schedule, the older job and the lower
-- identifier.
abbrev pub Before : JobRow → JobRow → Type 0
Before r s =
    IsBelow s.priority r.priority
    ⊎ ((r.priority ≡ s.priority)
      × ((r.scheduled_at < s.scheduled_at)
        ⊎ ((r.scheduled_at ≡ s.scheduled_at)
          × ((r.created_at < s.created_at)
            ⊎ ((r.created_at ≡ s.created_at) × (r.id < s.id))))))

int_lt_iff : (a b : ℤ) → (int_lt a b ≡ true) ↔ IsBelow a b
unfolding int_lt
int_lt_iff (pos a) (pos b) = ground arith
int_lt_iff (pos a) (negsuc b) = (λ h. cc, λ h. absurd h)
int_lt_iff (negsuc a) (pos b) = (λ _. tt, λ _. refl)
int_lt_iff (negsuc a) (negsuc b) = ground arith

-- Two numbers neither of which is below the other are the same.
int_lt_total : (a b : ℤ) → int_lt a b ≡ false → int_lt b a ≡ false → a ≡ b
unfolding int_lt
int_lt_total (pos a) (pos b) h k = let same : a ≡ b = ground (arith, h, k) in ap pos same
int_lt_total (pos a) (negsuc b) h k = absurd (cc)
int_lt_total (negsuc a) (pos b) h k = absurd (cc)
int_lt_total (negsuc a) (negsuc b) h k = let same : a ≡ b = ground (arith, h, k) in ap negsuc same

int_lt-equal : (a b : ℤ) → a ≡ b → int_lt a b ≡ false
int_lt-equal a b e = rw e (int_lt_irrefl b)

pub precedes_iff : (r s : JobRow) → (precedes r s ≡ true) ↔ Before r s
unfolding precedes
precedes_iff r s = ground (
  arith,
  int_lt_iff s.priority r.priority,
  int_lt_total r.priority s.priority,
  int_lt-equal r.priority s.priority,
)

state_eq_iff : (s : JobState) → (state_eq s JobState.queued ≡ true) ↔ (s ≡ JobState.queued)
state_eq_iff JobState.queued = (λ _. refl, λ _. refl)
state_eq_iff JobState.running = (λ h. cc, λ h. cc)
state_eq_iff JobState.succeeded = (λ h. cc, λ h. cc)
state_eq_iff JobState.failed = (λ h. cc, λ h. cc)
state_eq_iff JobState.cancelled = (λ h. cc, λ h. cc)

is_none_iff : (o : Option ℕ) → (is_none o ≡ true) ↔ (o ≡ none)
is_none_iff none = (λ _. refl, λ _. refl)
is_none_iff (some n) = (λ h. cc, λ h. cc)

pub is_eligible_iff :
    (now : ℕ) (allow : Bool) (r : JobRow) → (is_eligible now allow r ≡ true) ↔ Eligible now allow r
unfolding is_eligible
is_eligible_iff now allow r =
    ground (arith, state_eq_iff r.state, is_none_iff r.crawl_run_id)
