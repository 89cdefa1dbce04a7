-- ===== src/Jobs/Cancellation.antt =====
-- crates/erabi-jobs/src/cancellation.rs: the controller of cancellation requests. A token is the
-- number of its registration, and its flag is set once the number is among the cancelled ones. The
-- code cancels tokens after it has given the lock back, so tokens that it still has to cancel are
-- kept, and cancelling one of them is a step of its own. The lock is never poisoned, as no code
-- panics under it.
pub mod Requests
use erabi.Base.{
  ℕ, ◌+◌, ◌≡◌, Bool, true, false, ◌||◌, List, [], ◌∷◌, ◌++◌, Option, none, some, if◌then◌else◌,
}
use erabi.Jobs.Maps.{Active, contains, get, remove, insert, values, discard}

pub record ControllerState : Type 0 where
  pub requested : List ℕ
  pub active : Active
  pub shutdown_requested : Bool

-- The controller, the tokens that are cancelled, those still to be cancelled by a call that has
-- left the lock, and the number of the next token.
pub record Controller : Type 0 where
  pub state : ControllerState
  pub cancelled : List ℕ
  pub leaving : List ℕ
  pub next_token : ℕ

abbrev pub default_controller : Controller
default_controller = record {
  state = record { requested = []; active = []; shutdown_requested = false };
  cancelled = [];
  leaving = [];
  next_token = 0;
}

abbrev pub cancel_now : ControllerState → ℕ → Bool
cancel_now s job = s.shutdown_requested || contains job s.requested

-- The new token is made with its flag set where the job is to be cancelled, so that the `cancel`
-- behind the lock finds it set.
unfoldable pub register : Controller → ℕ → Controller
register c job =
    let token = c.next_token in
    record c {
      state = record c.state { active = insert job token c.state.active };
      cancelled = if cancel_now c.state job then token ∷ c.cancelled else c.cancelled;
      next_token = token + 1;
    }

abbrev pub leave : Option ℕ → List ℕ → List ℕ
leave none leaving = leaving
leave (some token) leaving = token ∷ leaving

unfoldable pub request : Controller → ℕ → Controller
request c job = record c {
  state = record c.state { requested = job ∷ c.state.requested };
  leaving = leave (get job c.state.active) c.leaving;
}

unfoldable pub cancel_all : Controller → Controller
cancel_all c = record c {
  state = record c.state { shutdown_requested = true };
  leaving = values c.state.active ++ c.leaving;
}

unfoldable pub release : Controller → ℕ → Bool → Controller
release c job terminal_boundary = record c {
  state = record c.state {
    active = remove job c.state.active;
    requested = if terminal_boundary then discard job c.state.requested else c.state.requested;
  };
}

unfoldable pub retire_after_terminal_boundary : Controller → ℕ → Controller
retire_after_terminal_boundary c job = record c {
  state = record c.state { requested = discard job c.state.requested };
}

-- The `cancel` of the first token that a call still holds.
abbrev pub cancel : Controller → ℕ → List ℕ → Controller
cancel c token rest = record c { cancelled = token ∷ c.cancelled; leaving = rest }

-- A step of any thread; threads that hold tokens cancel them in any order.
pub data Step : Controller → Controller → Type 0 where
  registers : (c : Controller) (job : ℕ) → Step c (register c job)
  requests : (c : Controller) (job : ℕ) → Step c (request c job)
  shuts_down : (c : Controller) → Step c (cancel_all c)
  releases : (c : Controller) (job : ℕ) (terminal : Bool) → Step c (release c job terminal)
  retires : (c : Controller) (job : ℕ) → Step c (retire_after_terminal_boundary c job)
  cancels :
      (c : Controller) (before : List ℕ) (token : ℕ) (behind : List ℕ)
      → c.leaving ≡ before ++ token ∷ behind
      → Step c (cancel c token (before ++ behind))

pub data Reach : Controller → Type 0 where
  starts : Reach default_controller
  steps : {c d : Controller} → Reach c → Step c d → Reach d
