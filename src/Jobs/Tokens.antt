-- ===== src/Jobs/Tokens.antt =====
-- The two tokens of crates/erabi-jobs: `CancellationToken` of src/cancellation.rs and
-- `StoragePressureToken` of src/storage_pressure.rs, each with one task that waits for it. Setting
-- the flag and notifying the waiting tasks are two steps; `notify_waiters` reaches exactly the
-- tasks whose `Notified` exists at that moment.
pub mod Wakeups
use erabi.Base.{◌≡◌, Bool, true, false, if◌then◌else◌}

-- Where the waiting task stands: about to look at the flag, between the look and the wait, in the
-- wait, or back.
pub data Waiter : Type 0 where
  looking : Waiter
  enabled : (notified : Bool) → Waiter
  unsubscribed : Waiter
  asleep : (notified : Bool) → Waiter
  returned : Waiter

-- The flag, whether the task that set it has still to notify, and the waiting task.
pub record Token : Type 0 where
  pub flag : Bool
  pub notifies : Bool
  pub waiter : Waiter

abbrev pub new_token : Token
new_token = record { flag = false; notifies = false; waiter = looking }

-- `notify_waiters`.
abbrev pub notified_waiter : Waiter → Waiter
notified_waiter looking = looking
notified_waiter (enabled _) = enabled true
notified_waiter unsubscribed = unsubscribed
notified_waiter (asleep _) = asleep true
notified_waiter returned = returned

-- `cancel` and `signal`: only the first swap of the flag notifies.
unfoldable pub swap : Token → Token
swap t = record t { flag = true; notifies = if t.flag then t.notifies else true }

unfoldable pub notify : Token → Token
notify t = record t { notifies = false; waiter = notified_waiter t.waiter }

-- The rounds of `CancellationToken::cancelled`, which looks at the flag before it makes its
-- `Notified`, step by step.
abbrev pub cancelled_step : Bool → Waiter → Waiter
cancelled_step true looking = returned
cancelled_step false looking = unsubscribed
cancelled_step _ unsubscribed = asleep false
cancelled_step _ (asleep true) = looking
cancelled_step _ (asleep false) = asleep false
cancelled_step _ (enabled n) = enabled n
cancelled_step _ returned = returned

-- The rounds of `StoragePressureToken::signalled`, which enables its `Notified` before it looks.
abbrev pub signalled_step : Bool → Waiter → Waiter
signalled_step _ looking = enabled false
signalled_step true (enabled _) = returned
signalled_step false (enabled n) = asleep n
signalled_step _ (asleep true) = looking
signalled_step _ (asleep false) = asleep false
signalled_step _ unsubscribed = unsubscribed
signalled_step _ returned = returned

-- Any interleaving of the waiting task with tasks that set the flag.
pub data Step (rounds : Bool → Waiter → Waiter) : Token → Token → Type 0 where
  sets : (t : Token) → Step rounds t (swap t)
  notifies : (t : Token) → t.notifies ≡ true → Step rounds t (notify t)
  waits : (t : Token) → Step rounds t (record t { waiter = rounds t.flag t.waiter })

pub data Reach (rounds : Bool → Waiter → Waiter) (s : Token) : Token → Type 0 where
  here : Reach rounds s s
  next : {t u : Token} → Reach rounds s t → Step rounds t u → Reach rounds s u
