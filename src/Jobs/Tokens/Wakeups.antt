-- ===== src/Jobs/Tokens/Wakeups.antt =====
-- Whether the tokens of crates/erabi-jobs wake the task that waits for them.
use erabi.Base.{◌≡◌, refl, ap, subst, ◌∙◌, ◌⊎◌, inl, inr, Bool, true, false, arith, Bool-cases}
use erabi.Jobs.Tokens.{
  Waiter, looking, enabled, unsubscribed, asleep, returned, Token, new_token, notified_waiter, swap,
  notify, cancelled_step, signalled_step, Step, sets, notifies, waits, Reach, here, next,
}

-- A task that sleeps for a set flag has been notified, or will be.
abbrev IsCared : Bool → Bool → Waiter → Type 0
IsCared flag pending (asleep n) = (flag ≡ false) ⊎ (pending ≡ true) ⊎ (n ≡ true)
IsCared flag pending (enabled n) = Unit
IsCared flag pending looking = Unit
IsCared flag pending unsubscribed = ⊥
IsCared flag pending returned = Unit

abbrev IsAwake : Token → Type 0
IsAwake t = IsCared t.flag t.notifies t.waiter

swap-IsAwake : (t : Token) → IsAwake t → IsAwake (swap t)
unfolding swap
swap-IsAwake t h = elim (Bool-cases t.flag) [
  | inl y ↦ rw y (swapped y t.waiter h)
  | inr n ↦ rw n (pending t.waiter h)
]
  where
    swapped : t.flag ≡ true → (w : Waiter) → IsCared t.flag t.notifies w → IsCared true t.notifies w
    swapped y w k = subst (λ b. IsCared b t.notifies w) y k

    pending : (w : Waiter) → IsCared t.flag t.notifies w → IsCared true true w
    pending looking k = tt
    pending (enabled n) k = tt
    pending unsubscribed k = k
    pending (asleep n) k = inr (inl refl)
    pending returned k = tt

notify-IsCared :
    (flag pending : Bool) (w : Waiter)
    → IsCared flag pending w
    → IsCared flag false (notified_waiter w)
notify-IsCared flag pending looking h = tt
notify-IsCared flag pending (enabled n) h = tt
notify-IsCared flag pending unsubscribed h = h
notify-IsCared flag pending (asleep n) h = inr (inr refl)
notify-IsCared flag pending returned h = tt

waits-IsCared :
    (flag pending : Bool) (w : Waiter)
    → IsCared flag pending w
    → IsCared flag pending (signalled_step flag w)
waits-IsCared flag pending looking h = tt
waits-IsCared true pending (enabled n) h = tt
waits-IsCared false pending (enabled n) h = inl refl
waits-IsCared flag pending (asleep true) h = tt
waits-IsCared flag pending (asleep false) h = h
waits-IsCared flag pending unsubscribed h = h
waits-IsCared flag pending returned h = tt

Step-IsAwake : {t u : Token} → Step signalled_step t u → IsAwake t → IsAwake u
unfolding notify
Step-IsAwake (sets t) h = swap-IsAwake t h
Step-IsAwake (notifies t p) h = notify-IsCared t.flag t.notifies t.waiter h
Step-IsAwake (waits t) h = waits-IsCared t.flag t.notifies t.waiter h

Reach-IsAwake : {s t : Token} → IsAwake s → Reach signalled_step s t → IsAwake t
Reach-IsAwake h here = h
Reach-IsAwake h (next r st) = Step-IsAwake st (Reach-IsAwake h r)

-- Three rounds of the task that waits, with the flag set.
unfoldable pub three_rounds : (Bool → Waiter → Waiter) → Waiter → Waiter
three_rounds rounds w = rounds true (rounds true (rounds true w))

awake_returns :
    (pending : Bool) (w : Waiter)
    → pending ≡ false
    → IsCared true pending w
    → three_rounds signalled_step w ≡ returned
unfolding three_rounds
awake_returns pending looking p h = refl
awake_returns pending (enabled n) p h = refl
awake_returns pending unsubscribed p h = absurd h
awake_returns pending (asleep true) p h = refl
awake_returns pending (asleep false) p h = absurd (ground (arith, p, h))
awake_returns pending returned p h = refl

-- A storage token wakes its task: once the flag is set and the notification sent, the task, in
-- whatever order it and the tasks that set the flag took their steps, returns within three rounds
-- of its own.
pub signalled_returns :
    {t : Token}
    → Reach signalled_step new_token t
    → t.flag ≡ true
    → t.notifies ≡ false
    → three_rounds signalled_step t.waiter ≡ returned
signalled_returns {t} r f n =
    awake_returns t.notifies t.waiter n
      (subst (λ b. IsCared b t.notifies t.waiter) f (Reach-IsAwake {s = new_token} tt r))

-- The task sleeps though the flag is set, and nobody is left to notify it.
pub record IsStuck (t : Token) : Type 0 where
  pub set : t.flag ≡ true
  pub sent : t.notifies ≡ false
  pub sleeps : t.waiter ≡ asleep false

Step-IsStuck : {t u : Token} → Step cancelled_step t u → IsStuck t → IsStuck u
unfolding swap
Step-IsStuck (sets t) h = record { set = refl; sent = rw h.set h.sent; sleeps = h.sleeps }
Step-IsStuck (notifies t p) h = absurd (ground (arith, p, h.sent))
Step-IsStuck (waits t) h = record {
  set = h.set;
  sent = h.sent;
  sleeps = ap (cancelled_step t.flag) h.sleeps ∙ asleep_stays t.flag;
}
  where
    asleep_stays : (b : Bool) → cancelled_step b (asleep false) ≡ asleep false
    asleep_stays true = refl
    asleep_stays false = refl

-- A task that sleeps for a cancelled token behind the notification never wakes: further calls of
-- `cancel` do not notify it.
pub Reach-IsStuck : {s t : Token} → IsStuck s → Reach cancelled_step s t → IsStuck t
Reach-IsStuck h here = h
Reach-IsStuck h (next r st) = Step-IsStuck st (Reach-IsStuck h r)

abbrev looked : Token
looked = record new_token { waiter = unsubscribed }

abbrev stuck : Token
stuck = record { flag = true; notifies = false; waiter = asleep false }

to_stuck : Reach cancelled_step new_token stuck
unfolding swap notify
to_stuck =
    next (next (next (next here (waits new_token)) (sets looked)) (notifies (swap looked) refl))
      (waits (notify (swap looked)))

-- Whenever a task is about to look at a cancellation token that is not set, with no notification
-- outstanding, it can come to sleep for good: the token is set and its notification sent between
-- the look and the wait.
pub lost_wakeup :
    (t : Token)
    → t.flag ≡ false
    → t.notifies ≡ false
    → t.waiter ≡ looking
    → (u : Token) × Reach cancelled_step t u × IsStuck u
lost_wakeup t f n w =
    let same : new_token ≡ t = cc (f, n, w) in
    (
      stuck,
      subst (λ s. Reach cancelled_step s stuck) same to_stuck,
      record { set = refl; sent = refl; sleeps = refl },
    )
