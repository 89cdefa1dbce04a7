-- ===== src/Jobs/Storage.antt =====
-- crates/erabi-jobs/src/storage_pressure.rs: the levels of free storage, and the controller that
-- signals the active work. A token is the number of its registration. Each time that the code takes
-- a lock, and each signal, is a step; what a call has still to do behind its lock is kept. No code
-- panics under the locks, so they are never poisoned.
pub mod Signals
use erabi.Base.{
  ℕ, ◌+◌, ◌-◌, ◌*◌, ◌<◌, ◌≡◌, Bool, true, false, not, List, [], ◌∷◌, ◌++◌, Option, none, some,
  Result, ok, err, leb, if◌then◌else◌,
}
use erabi.Jobs.Maps.{Active, contains, get, remove, insert, values}

abbrev pub default_warning_free_bytes : ℕ
default_warning_free_bytes = 10 * 1024 * 1024 * 1024

abbrev pub default_critical_free_bytes : ℕ
default_critical_free_bytes = 1024 * 1024 * 1024

pub data StoragePressureLevel : Type 0 where
  healthy warning critical unavailable : StoragePressureLevel

pub record StoragePressurePolicy : Type 0 where
  pub warning_free_bytes : ℕ
  pub critical_free_bytes : ℕ

abbrev pub default_policy : StoragePressurePolicy
default_policy = record {
  warning_free_bytes = default_warning_free_bytes;
  critical_free_bytes = default_critical_free_bytes;
}

pub data StoragePressurePolicyError : Type 0 where
  invalid_threshold_ordering : StoragePressurePolicyError

unfoldable pub new_policy : ℕ → ℕ → Result StoragePressurePolicy StoragePressurePolicyError
new_policy warning_bytes critical_bytes =
    if leb warning_bytes critical_bytes
    then err invalid_threshold_ordering
    else ok (record { warning_free_bytes = warning_bytes; critical_free_bytes = critical_bytes })

pub record StoragePressureState : Type 0 where
  pub level : StoragePressureLevel
  pub free_bytes : Option ℕ
  pub warning_threshold : ℕ
  pub critical_threshold : ℕ

abbrev pub level_of : StoragePressurePolicy → ℕ → StoragePressureLevel
level_of p free_bytes =
    if leb free_bytes p.critical_free_bytes
    then critical
    else if leb free_bytes p.warning_free_bytes
    then warning
    else healthy

unfoldable pub classify : StoragePressurePolicy → ℕ → StoragePressureState
classify p free_bytes = record {
  level = level_of p free_bytes;
  free_bytes = some free_bytes;
  warning_threshold = p.warning_free_bytes;
  critical_threshold = p.critical_free_bytes;
}

unfoldable pub unavailable_state : StoragePressurePolicy → StoragePressureState
unavailable_state p = record {
  level = unavailable;
  free_bytes = none;
  warning_threshold = p.warning_free_bytes;
  critical_threshold = p.critical_free_bytes;
}

abbrev pub is_critical : StoragePressureLevel → Bool
is_critical critical = true
is_critical _ = false

abbrev pub is_growth_refused : StoragePressureLevel → Bool
is_growth_refused critical = true
is_growth_refused unavailable = true
is_growth_refused _ = false

unfoldable pub allows_artifact_heavy : StoragePressureState → Bool
allows_artifact_heavy s = not (is_growth_refused s.level)

-- The controller, the tokens that are signalled, and what calls have still to do: `updating` calls
-- of `update` have published a critical state and not read the active tokens, the tokens `leaving`
-- have been read and not signalled, and those `rechecking` are registered and not checked again.
pub record Controller : Type 0 where
  pub policy : StoragePressurePolicy
  pub state : StoragePressureState
  pub active_heavy : Active
  pub signalled : List ℕ
  pub updating : ℕ
  pub leaving : List ℕ
  pub rechecking : List ℕ
  pub next_token : ℕ

unfoldable pub new : StoragePressurePolicy → Controller
new p = record {
  policy = p;
  state = unavailable_state p;
  active_heavy = [];
  signalled = [];
  updating = 0;
  leaving = [];
  rechecking = [];
  next_token = 0;
}

-- `update`, up to its return or to the lock of the active tokens.
unfoldable pub publish : Controller → StoragePressureState → Controller
publish c published = record c {
  state = published;
  updating = if is_critical published.level then c.updating + 1 else c.updating;
}

-- `update` reads the active tokens.
unfoldable pub read_active : Controller → Controller
read_active c = record c { updating = c.updating - 1; leaving = values c.active_heavy ++ c.leaving }

abbrev pub signal : Controller → ℕ → List ℕ → Controller
signal c token rest = record c { signalled = token ∷ c.signalled; leaving = rest }

-- `register`, up to the second look at the state; work of another class is not tracked.
unfoldable pub register : Controller → ℕ → Bool → Controller
register c job artifact_heavy =
    let token = c.next_token in
    if artifact_heavy
    then record c {
      active_heavy = insert job token c.active_heavy;
      rechecking = token ∷ c.rechecking;
      next_token = token + 1;
    }
    else record c { next_token = token + 1 }

-- The second look at the state.
unfoldable pub recheck : Controller → ℕ → List ℕ → Controller
recheck c token rest = record c {
  rechecking = rest;
  leaving = if is_critical c.state.level then token ∷ c.leaving else c.leaving;
}

unfoldable pub release : Controller → ℕ → Controller
release c job = record c { active_heavy = remove job c.active_heavy }

pub data Step : Controller → Controller → Type 0 where
  publishes : (c : Controller) (published : StoragePressureState) → Step c (publish c published)
  reads : (c : Controller) → 0 < c.updating → Step c (read_active c)
  signals :
      (c : Controller) (before : List ℕ) (token : ℕ) (behind : List ℕ)
      → c.leaving ≡ before ++ token ∷ behind
      → Step c (signal c token (before ++ behind))
  registers :
      (c : Controller) (job : ℕ) (artifact_heavy : Bool) → Step c (register c job artifact_heavy)
  rechecks :
      (c : Controller) (before : List ℕ) (token : ℕ) (behind : List ℕ)
      → c.rechecking ≡ before ++ token ∷ behind
      → Step c (recheck c token (before ++ behind))
  releases : (c : Controller) (job : ℕ) → Step c (release c job)

pub data Reach (p : StoragePressurePolicy) : Controller → Type 0 where
  starts : Reach p (new p)
  steps : {c d : Controller} → Reach p c → Step c d → Reach p d
