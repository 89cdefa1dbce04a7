-- ===== src/Tests/Jobs.antt =====
-- The signals of crates/erabi-jobs at concrete runs: a request that comes before its job, a critical
-- observation between the registration of a job and its second look, and a task that waits for a
-- token.
use erabi.Base.{◌≡◌, refl, inr, true, false, [], some, arith}
use erabi.Jobs.Maps.{contains, get, remove, values}
use erabi.Jobs.Cancellation.{default_controller}
use erabi.Jobs.Cancellation.Requests.{no_request_lost}
use erabi.Jobs.Cancellation
use erabi.Jobs.Storage.{default_policy, new, classify, is_critical}
use erabi.Jobs.Storage.Signals.{no_signal_lost}
use erabi.Jobs.Storage
use erabi.Jobs.Tokens.{
  Token, new_token, looking, asleep, returned, swap, notify, cancelled_step, signalled_step, sets,
  notifies, Reach, here, next,
}
use erabi.Jobs.Tokens.Wakeups.{three_rounds, IsStuck, signalled_returns, Reach-IsStuck, lost_wakeup}

abbrev requested : Cancellation.Controller
requested = Cancellation.request default_controller 7

abbrev registered : Cancellation.Controller
registered = Cancellation.register requested 7

request_then_register : Cancellation.Reach registered
request_then_register =
    Cancellation.steps
      (Cancellation.steps Cancellation.starts (Cancellation.requests default_controller 7))
      (Cancellation.registers requested 7)

nothing_leaves : registered.leaving ≡ []
unfolding Cancellation.register Cancellation.request get
nothing_leaves = refl

is_active : get 7 registered.state.active ≡ some 0
unfolding Cancellation.register Cancellation.request get
is_active = refl

is_requested : contains 7 registered.state.requested ≡ true
unfolding Cancellation.register Cancellation.request contains
is_requested = refl

no_request_lost_example : contains 0 registered.cancelled ≡ true
no_request_lost_example =
    no_request_lost 7 0 request_then_register nothing_leaves is_active (inr is_requested)

abbrev joined : Storage.Controller
joined = Storage.register (new default_policy) 7 true

abbrev observed : Storage.Controller
observed = Storage.publish joined (classify default_policy 1000)

abbrev checked : Storage.Controller
checked = Storage.recheck observed 0 []

abbrev told : Storage.Controller
told = Storage.signal checked 0 []

abbrev settled : Storage.Controller
settled = Storage.signal (Storage.read_active told) 0 []

storage_run : Storage.Reach default_policy settled
unfolding new Storage.register Storage.publish Storage.recheck Storage.read_active classify values
    remove
storage_run =
    Storage.steps
      (Storage.steps
        (Storage.steps
          (Storage.steps
            (Storage.steps
              (Storage.steps Storage.starts (Storage.registers (new default_policy) 7 true))
              (Storage.publishes joined (classify default_policy 1000)))
            (Storage.rechecks observed [] 0 [] refl))
          (Storage.signals checked [] 0 [] refl))
        (Storage.reads told (omega arith)))
      (Storage.signals (Storage.read_active told) [] 0 [] refl)

no_signal_lost_example : contains 0 settled.signalled ≡ true
unfolding new Storage.register Storage.publish Storage.recheck Storage.read_active classify values
    remove get
no_signal_lost_example = no_signal_lost default_policy 7 0 storage_run refl refl refl refl refl

abbrev set : Token
set = notify (swap new_token)

token_is_set : Reach signalled_step new_token set
unfolding swap
token_is_set = next (next here (sets new_token)) (notifies (swap new_token) refl)

signalled_returns_example : three_rounds signalled_step looking ≡ returned
unfolding swap notify
signalled_returns_example = signalled_returns token_is_set refl refl

lost_wakeup_example : (u : Token) × Reach cancelled_step new_token u × IsStuck u
lost_wakeup_example = lost_wakeup new_token refl refl refl

abbrev sleeping : Token
sleeping = record { flag = true; notifies = false; waiter = asleep false }

sleeping-IsStuck : IsStuck sleeping
sleeping-IsStuck = record { set = refl; sent = refl; sleeps = refl }

Reach-IsStuck_example : IsStuck (swap sleeping)
Reach-IsStuck_example = Reach-IsStuck sleeping-IsStuck (next here (sets sleeping))
