-- ===== src/Timer/Tests.antt =====
-- The service of inc/timer.hpp with two timers.
use hermesconcurrencyengine.Common.{ℕ, List, ◌≡◌, refl, true, false, none, some, [], ◌∷◌, arith}
use hermesconcurrencyengine.Timer.{
  Timer, Service, Thresholds, start, cancel, is_running, has_sid, take_due,
  default_timeout_algorithm, round, first_round, sort, insert, below_busy_wait_threshold, wake_time,
}
use hermesconcurrencyengine.Timer.Schedule.{
  World, Action, asleep_until, at_top, firing, polls, starts, passes, runs, start_world, run_thread,
  step, run,
}
use hermesconcurrencyengine.Timer.Schedule.Phases.{Accounts}
use hermesconcurrencyengine.Timer.Schedule.Accounts.{all_accounted}
use hermesconcurrencyengine.Timer.Order.{IsSorted}
use hermesconcurrencyengine.Timer.Cancel.{cancel_hangs}
use hermesconcurrencyengine.Timer.Rounds.{Promises, round_lem}

abbrev sooner : Timer
sooner = record { sid = 1; timeout = 100; awt = 11 }

abbrev later : Timer
later = record { sid = 2; timeout = 300; awt = 12 }

abbrev service : Service
service = record { running = true; waiting = false; timers = sooner ∷ later ∷ [] }

abbrev thresholds : Thresholds
thresholds = record { busy_wait = 5; early_wakeup = 10; early_wakeup_long = 250 }

service-IsSorted : IsSorted service.timers
service-IsSorted = ground arith

cancel_hangs_example :
    (cancel 1000 service 2 ≡ none) × (is_running service 2 ≡ has_sid 2 (later ∷ []))
cancel_hangs_example =
    cancel_hangs 1000 service 2 sooner (later ∷ []) refl refl (omega arith) (omega arith)

round_lem_example :
    Promises 20 service (round (default_timeout_algorithm thresholds) thresholds 20 service)
round_lem_example = round_lem thresholds 20 service (omega arith) (omega arith) service-IsSorted

-- Both timers are started, and the thread fires the first at its timeout.
abbrev history : List Action
history = starts later ∷ starts sooner ∷ passes 150 ∷ runs ∷ runs ∷ []

module _ (algorithm : ℕ → ℕ → ℕ) (h : Thresholds) where
  abbrev fired_first : World
  fired_first = record {
    service = record { running = true; waiting = false; timers = later ∷ [] };
    now = 150;
    phase = firing [];
    started = sooner ∷ later ∷ [];
    fired = sooner ∷ [];
    cancelled = [];
  }

  history_ran : run algorithm h (start_world 0) history ≡ some fired_first
  unfolding run step start_world start sort insert run_thread round first_round take_due
  history_ran = refl

all_accounted_example : Accounts (fired_first (default_timeout_algorithm thresholds) thresholds)
all_accounted_example =
    all_accounted (default_timeout_algorithm thresholds) thresholds history 0
      (fired_first (default_timeout_algorithm thresholds) thresholds)
      (history_ran (default_timeout_algorithm thresholds) thresholds)

-- The thread sleeps for the first timer when another is started.
abbrev sleeping : World
sleeping = record {
  service = record { running = true; waiting = true; timers = later ∷ [] };
  now = 0;
  phase = asleep_until 50;
  started = later ∷ [];
  fired = [];
  cancelled = [];
}

abbrev woken : World
woken = record sleeping {
  service = record { running = true; waiting = false; timers = sooner ∷ later ∷ [] };
  phase = at_top;
  started = sooner ∷ later ∷ [];
}

sleeps_first :
    run (default_timeout_algorithm thresholds) thresholds (start_world 0) (starts later ∷ runs ∷ [])
    ≡ some sleeping
unfolding run step start_world start sort insert run_thread round first_round take_due
    below_busy_wait_threshold wake_time default_timeout_algorithm
sleeps_first = refl

start_awakens :
    step (default_timeout_algorithm thresholds) thresholds sleeping (starts sooner) ≡ some woken
unfolding step start sort insert
start_awakens = refl

abbrev spinning : World
spinning = record {
  service = record { running = true; waiting = false; timers = sooner ∷ [] };
  now = 97;
  phase = polls 100;
  started = sooner ∷ [];
  fired = [];
  cancelled = [];
}
