-- ===== src/Jobs/Cancellation/Requests.antt =====
-- About the cancellation requests of crates/erabi-jobs/src/cancellation.rs between the threads.
use erabi.Base.{
  ℕ, ◌≡◌, sym, ap, subst, ◌⊎◌, inl, inr, Bool, true, false, List, [], ◌∷◌, ◌++◌, Option, none, some,
  arith, ◌==◌, ==→eq, Bool-cases,
}
use erabi.Jobs.Maps.{
  contains, get, values, get-remove, contains-values, contains-append, contains-discard,
}
use erabi.Jobs.Cancellation.{
  Controller, cancel_now, register, leave, request, cancel_all, release,
  retire_after_terminal_boundary, cancel, Step, registers, requests, shuts_down, releases, retires,
  cancels, Reach, starts, steps,
}

-- The token is cancelled, or a call that has left the lock is about to cancel it.
Reached : Controller → ℕ → Type 0
Reached c token = (contains token c.cancelled ≡ true) ⊎ (contains token c.leaving ≡ true)

-- What holds of every active job: where it is to be cancelled, its token is reached.
Covers : Controller → ℕ → ℕ → Type 0
Covers c job token = (cancel_now c.state job ≡ false) ⊎ Reached c token

IsCovered : Controller → Type 0
IsCovered c = (job token : ℕ) → get job c.state.active ≡ some token → Covers c job token

register-IsCovered : (c : Controller) (new : ℕ) → IsCovered c → IsCovered (register c new)
unfolding IsCovered Covers Reached register get contains
register-IsCovered c new h job token g =
    ground (arith, g, get-remove job new token c.state.active, h job token)

contains-leave :
    (o : Option ℕ) (x : ℕ) (xs : List ℕ) → contains x xs ≡ true → contains x (leave o xs) ≡ true
unfolding contains
contains-leave none x xs h = h
contains-leave (some y) x xs h = ground (arith, h)

contains-leave_self :
    (o : Option ℕ) (x : ℕ) (xs : List ℕ) → o ≡ some x → contains x (leave o xs) ≡ true
unfolding contains
contains-leave_self none x xs h = absurd (ground (arith, h))
contains-leave_self (some y) x xs h = ground (arith, h)

request-IsCovered : (c : Controller) (new : ℕ) → IsCovered c → IsCovered (request c new)
unfolding IsCovered Covers Reached request contains
request-IsCovered c new h job token g = elim (Bool-cases (new == job)) [
  | inl y ↦
      let same : new ≡ job = ==→eq new job y in
      inr (
        inr (
          contains-leave_self (get new c.state.active) token c.leaving
            (subst (λ k. get k c.state.active ≡ some token) (sym same) g)))
  | inr n ↦
      ground (arith, n, h job token g, contains-leave (get new c.state.active) token c.leaving)
]

cancel_all-IsCovered : (c : Controller) → IsCovered c → IsCovered (cancel_all c)
unfolding IsCovered Covers Reached cancel_all
cancel_all-IsCovered c h job token g = ground (
  arith,
  contains-values job token c.state.active g,
  contains-append token (values c.state.active) c.leaving,
)

release-IsCovered :
    (c : Controller) (old : ℕ) (terminal : Bool) → IsCovered c → IsCovered (release c old terminal)
unfolding IsCovered Covers Reached release
release-IsCovered c old terminal h job token g = ground (
  arith,
  get-remove job old token c.state.active g,
  h job token,
  contains-discard job old c.state.requested,
)

retire-IsCovered :
    (c : Controller) (old : ℕ) → IsCovered c → IsCovered (retire_after_terminal_boundary c old)
unfolding IsCovered Covers Reached retire_after_terminal_boundary
retire-IsCovered c old h job token g =
    ground (arith, h job token g, contains-discard job old c.state.requested)

cancel-IsCovered :
    (c : Controller) (before : List ℕ) (token : ℕ) (behind : List ℕ)
    → c.leaving ≡ before ++ token ∷ behind
    → IsCovered c
    → IsCovered (cancel c token (before ++ behind))
unfolding IsCovered Covers Reached contains
cancel-IsCovered c before this behind e h job token g = ground (
  arith,
  h job token g,
  ap (contains token) e,
  contains-append token before (this ∷ behind),
  contains-append token before behind,
)

Step-IsCovered : {c d : Controller} → Step c d → IsCovered c → IsCovered d
Step-IsCovered (registers c job) h = register-IsCovered c job h
Step-IsCovered (requests c job) h = request-IsCovered c job h
Step-IsCovered (shuts_down c) h = cancel_all-IsCovered c h
Step-IsCovered (releases c job terminal) h = release-IsCovered c job terminal h
Step-IsCovered (retires c job) h = retire-IsCovered c job h
Step-IsCovered (cancels c before token behind e) h = cancel-IsCovered c before token behind e h

Reach-IsCovered : {c : Controller} → Reach c → IsCovered c
unfolding IsCovered get
Reach-IsCovered starts = λ job token g. absurd (ground (arith, g))
Reach-IsCovered (steps r st) = Step-IsCovered st (Reach-IsCovered r)

-- In whatever order the threads register, request, release and shut down, once no call still has a
-- token to cancel, the token of every active job is cancelled if the process is shutting down
-- or the job is among those whose cancellation has been requested and not retired, whether it was
-- registered before or after.
pub no_request_lost :
    {c : Controller} (job token : ℕ)
    → Reach c
    → c.leaving ≡ []
    → get job c.state.active ≡ some token
    → (c.state.shutdown_requested ≡ true) ⊎ (contains job c.state.requested ≡ true)
    → contains token c.cancelled ≡ true
unfolding IsCovered Covers Reached contains
no_request_lost {c} job token r e g h =
    ground (arith, Reach-IsCovered r job token g, ap (contains token) e, h)
