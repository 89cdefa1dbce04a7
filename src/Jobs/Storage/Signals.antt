-- ===== src/Jobs/Storage/Signals.antt =====
-- About the signals that active work gets from crates/erabi-jobs/src/storage_pressure.rs between
-- the threads.
use erabi.Base.{
  ℕ, ◌<◌, ◌≡◌, ap, ◌⊎◌, inl, inr, Bool, true, false, List, [], ◌∷◌, ◌++◌, some, arith, Bool-cases,
}
use erabi.Jobs.Maps.{contains, get, values, get-remove, contains-values, contains-append}
use erabi.Jobs.Storage.{
  StoragePressurePolicy, StoragePressureState, is_critical, Controller, new, publish, read_active,
  signal, register, recheck, release, Step, publishes, reads, signals, registers, rechecks,
  releases, Reach, starts, steps,
}

-- The token is signalled, or some call will still signal it.
Served : Controller → ℕ → Type 0
Served c token =
    (contains token c.signalled ≡ true)
    ⊎ (contains token c.leaving ≡ true)
    ⊎ (contains token c.rechecking ≡ true)
    ⊎ (0 < c.updating)

Serves : Controller → ℕ → Type 0
Serves c token = (is_critical c.state.level ≡ false) ⊎ Served c token

IsServed : Controller → Type 0
IsServed c = (job token : ℕ) → get job c.active_heavy ≡ some token → Serves c token

publish-IsServed : (c : Controller) (s : StoragePressureState) → IsServed c → IsServed (publish c s)
unfolding IsServed Serves Served publish
publish-IsServed c s h job token g = elim (Bool-cases (is_critical s.level)) [
  | inl y ↦ inr (inr (inr (inr (rw y (omega arith)))))
  | inr n ↦ inl n
]

read_active-IsServed : (c : Controller) → IsServed c → IsServed (read_active c)
unfolding IsServed Serves Served read_active
read_active-IsServed c h job token g = ground (
  arith,
  contains-values job token c.active_heavy g,
  contains-append token (values c.active_heavy) c.leaving,
)

signal-IsServed :
    (c : Controller) (before : List ℕ) (token : ℕ) (behind : List ℕ)
    → c.leaving ≡ before ++ token ∷ behind
    → IsServed c
    → IsServed (signal c token (before ++ behind))
unfolding IsServed Serves Served contains
signal-IsServed c before this behind e h job token g = ground (
  arith,
  h job token g,
  ap (contains token) e,
  contains-append token before (this ∷ behind),
  contains-append token before behind,
)

register-IsServed :
    (c : Controller) (job : ℕ) (heavy : Bool) → IsServed c → IsServed (register c job heavy)
unfolding IsServed Serves Served register get contains
register-IsServed c new false h job token g = h job token g
register-IsServed c new true h job token g =
    ground (arith, g, get-remove job new token c.active_heavy, h job token)

recheck-IsServed :
    (c : Controller) (before : List ℕ) (token : ℕ) (behind : List ℕ)
    → c.rechecking ≡ before ++ token ∷ behind
    → IsServed c
    → IsServed (recheck c token (before ++ behind))
unfolding IsServed Serves Served recheck contains
recheck-IsServed c before this behind e h job token g =
    elim (Bool-cases (is_critical c.state.level)) [
      | inl y ↦ rw y (
          ground (
            arith,
            y,
            h job token g,
            ap (contains token) e,
            contains-append token before (this ∷ behind),
            contains-append token before behind,
          ))
      | inr n ↦ inl n
    ]

release-IsServed : (c : Controller) (old : ℕ) → IsServed c → IsServed (release c old)
unfolding IsServed Serves Served release
release-IsServed c old h job token g =
    ground (arith, get-remove job old token c.active_heavy g, h job token)

Step-IsServed : {c d : Controller} → Step c d → IsServed c → IsServed d
Step-IsServed (publishes c s) h = publish-IsServed c s h
Step-IsServed (reads c p) h = read_active-IsServed c h
Step-IsServed (signals c before token behind e) h = signal-IsServed c before token behind e h
Step-IsServed (registers c job heavy) h = register-IsServed c job heavy h
Step-IsServed (rechecks c before token behind e) h = recheck-IsServed c before token behind e h
Step-IsServed (releases c job) h = release-IsServed c job h

Reach-IsServed : (p : StoragePressurePolicy) {c : Controller} → Reach p c → IsServed c
unfolding IsServed new get
Reach-IsServed p starts = λ job token g. absurd (ground (arith, g))
Reach-IsServed p (steps r st) = Step-IsServed st (Reach-IsServed p r)

-- In whatever order the threads publish observations, register and release work, once no call has
-- anything left to do, the token of every active artifact-heavy job is signalled if the state is
-- critical, whether the job was registered before or after it became so.
pub no_signal_lost :
    (p : StoragePressurePolicy) {c : Controller} (job token : ℕ)
    → Reach p c
    → c.updating ≡ 0
    → c.leaving ≡ []
    → c.rechecking ≡ []
    → get job c.active_heavy ≡ some token
    → is_critical c.state.level ≡ true
    → contains token c.signalled ≡ true
unfolding IsServed Serves Served contains
no_signal_lost p {c} job token r u l k g h =
    ground
      (arith, Reach-IsServed p r job token g, ap (contains token) l, ap (contains token) k, u, h)
