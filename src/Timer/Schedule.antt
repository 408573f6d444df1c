-- ===== src/Timer/Schedule.antt =====
-- Threads at one timer service of inc/timer.hpp: `start_`, `cancel`, the destructor, and the thread of
-- `run()`, which lets go of the lock where it resumes awaitables, spins, or sleeps.
pub mod Phases
pub mod RunThread
pub mod Accounts
pub mod Undefined
use hermesconcurrencyengine.Common.{
  ℕ, suc, ◌+◌, Bool, true, false, Option, none, some, List, [], ◌∷◌, ◌++◌, if◌then◌else◌,
}
use hermesconcurrencyengine.Timer.{
  Timer, Service, Cancelled, Thresholds, Round, stopped, fires, spins, sleeps_until, sleeps, start,
  cancel, round, below_busy_wait_threshold, destroy,
}

-- The thread of `run()`: not started; about to lock and look at the timers; resuming timers that it
-- took; spinning for a timeout; asleep; after a read of the front of no timers, which is undefined; and
-- returned.
pub data Phase : Type 0 where
  unlaunched : Phase
  at_top : Phase
  firing : List Timer → Phase
  polls : ℕ → Phase
  asleep_until : ℕ → Phase
  asleep : Phase
  undefined_read : Phase
  exited : Phase

-- `fired` are the timers resumed with `(void*)1`, and `cancelled` the awaitables with `(void*)0`.
pub record World : Type 0 where
  pub service : Service
  pub now : ℕ
  pub phase : Phase
  pub started : List Timer
  pub fired : List Timer
  pub cancelled : List ℕ

pub data Action : Type 0 where
  starts : Timer → Action
  cancels : ℕ → Action
  passes : ℕ → Action
  runs : Action
  -- `cv_.wait` and `cv_.wait_until` return
  wakes : Action
  -- the destructor up to `join`, and after it
  stops : Action
  destroys : Action

abbrev pub wake : Phase → Phase
wake unlaunched = unlaunched
wake at_top = at_top
wake (firing ts) = firing ts
wake (polls t) = polls t
wake (asleep_until t) = at_top
wake asleep = at_top
wake undefined_read = undefined_read
wake exited = exited

-- `thd_ = std::thread(...)`, which only the first `start_` of a service does.
abbrev pub launch : Phase → Phase
launch unlaunched = at_top
launch at_top = at_top
launch (firing ts) = firing ts
launch (polls t) = polls t
launch (asleep_until t) = at_top
launch asleep = at_top
launch undefined_read = undefined_read
launch exited = exited

-- `notify_`, with the flag `waiting_`.
abbrev pub notified : Bool → Phase → Phase
notified waiting p = if waiting then wake p else p

unfoldable pub start_world : ℕ → World
start_world now = record {
  service = record { running = false; waiting = false; timers = [] };
  now = now;
  phase = unlaunched;
  started = [];
  fired = [];
  cancelled = [];
}

module _ (algorithm : ℕ → ℕ → ℕ) (h : Thresholds) where
  -- What the thread does after it looked at the timers.
  abbrev pub after_round : World → Round → World
  after_round w stopped = record w { phase = exited }
  after_round w (fires due next) = record w { service = next; phase = firing due }
  after_round w (spins timeout) = record w { phase = polls timeout }
  after_round w (sleeps_until t next) = record w { service = next; phase = asleep_until t }
  after_round w (sleeps next) = record w { service = next; phase = asleep }

  -- One round of the busy wait: it reads the front of the timers, and asks whether to go on.
  abbrev pub poll : World → List Timer → World
  poll w [] = record w { phase = undefined_read }
  poll w (t ∷ ts) = record w {
    phase = if below_busy_wait_threshold h w.now t.timeout then polls t.timeout else at_top;
  }

  unfoldable pub run_thread : Phase → World → World
  unfolding round below_busy_wait_threshold
  run_thread unlaunched w = w
  run_thread at_top w = after_round w (round algorithm h w.now w.service)
  run_thread (firing []) w = record w { phase = at_top }
  run_thread (firing (t ∷ ts)) w = record w { phase = firing ts; fired = t ∷ w.fired }
  run_thread (polls timeout) w = poll w w.service.timers
  run_thread (asleep_until t) w = w
  run_thread asleep w = w
  run_thread undefined_read w = w
  run_thread exited w = w

  abbrev pub cancelled_by : World → Cancelled → World
  cancelled_by w c = record w {
    service = c.next;
    phase = if c.result then notified w.service.waiting w.phase else w.phase;
    cancelled = c.resumed ++ w.cancelled;
  }

  -- The timers left are cancelled once the thread has returned, or was never launched.
  abbrev pub destroy_after : Phase → World → World
  destroy_after exited w = cancelled_by w (destroy w.service)
  destroy_after unlaunched w = cancelled_by w (destroy w.service)
  destroy_after at_top w = w
  destroy_after (firing ts) w = w
  destroy_after (polls t) w = w
  destroy_after (asleep_until t) w = w
  destroy_after asleep w = w
  destroy_after undefined_read w = w

  -- `none` where the caller never returns, and keeps the lock.
  unfoldable pub step : World → Action → Option World
  unfolding start cancel destroy
  step w (starts t) = some (record w {
    service = start w.service t;
    phase = if w.service.running then notified w.service.waiting w.phase else launch w.phase;
    started = t ∷ w.started;
  })
  step w (cancels sid) = elim (cancel 1 w.service sid) [
    | none ↦ none
    | some c ↦ some (cancelled_by w c)
  ]
  step w (passes ticks) = some (record w { now = w.now + ticks })
  step w runs = some (run_thread w.phase w)
  step w wakes = some (record w { phase = wake w.phase })
  step w stops = some (record w {
    service = record w.service { running = false; waiting = false };
    phase = notified w.service.waiting w.phase;
  })
  step w destroys = some (destroy_after w.phase w)

  unfoldable pub run : World → List Action → Option World
  run w [] = some w
  run w (a ∷ rest) = elim (step w a) [ none ↦ none | some next ↦ run next rest ]
