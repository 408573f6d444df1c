-- ===== src/Scheduler/Threads.antt =====
-- The thread of `run()` of inc/scheduler.hpp, and any other threads, in any order.
use hermesconcurrencyengine.Common.{ℕ, zero, suc, none, some, List, [], ◌∷◌, ◌++◌}
use hermesconcurrencyengine.Scheduler
use hermesconcurrencyengine.Scheduler.{
  Scheduler, Worker, starts, waits_resume, woken_resume, waits_coroutines, woken_coroutines,
  returned, between, executes, Outcome, done, yielded, taken,
}

pub record World : Type 0 where
  pub scheduler : Scheduler
  -- the handles that were accepted, in order; those whose execution began, in order; and those that
  -- the scheduler no longer has
  pub scheduled : List ℕ
  pub begun : List ℕ
  pub gone : List ℕ

pub data Action : Type 0 where
  schedule : ℕ → Action
  suspend resume halt : Action
  -- the thread of `run()` goes on: to its next unlock, or to its next coroutine
  turn : Action
  -- the coroutine that is executed schedules one, or stops
  schedule_local : ℕ → Action
  stops : Outcome → Action
  -- a wait that ends with no notification
  spurious : Action

-- Whether the scheduler keeps the handle of a coroutine that stopped so.
abbrev pub gone_by : Outcome → ℕ → List ℕ
gone_by done h = h ∷ []
gone_by yielded h = []
gone_by taken h = h ∷ []

abbrev pub begins : Worker → List ℕ
begins (executes count h) = h ∷ []
begins w = []

unfoldable pub turn_worker : Scheduler → Scheduler
turn_worker s = elim s.worker [
  | starts ↦ Scheduler.run s
  | woken_resume ↦ Scheduler.suspension_loop s
  | woken_coroutines ↦ Scheduler.execution_loop s
  | between count ↦ elim count [
    | zero ↦ Scheduler.execution_loop (Scheduler.cleanup_batch s)
    | suc rest ↦ Scheduler.next_coroutine s rest
  ]
  | waits_resume ↦ s
  | waits_coroutines ↦ s
  | returned ↦ s
  | executes count h ↦ s
]

abbrev wake_spuriously : Worker → Worker
wake_spuriously waits_resume = woken_resume
wake_spuriously waits_coroutines = woken_coroutines
wake_spuriously w = w

abbrev only : World → Scheduler → World
only w s = record w { scheduler = s }

unfoldable pub step : World → Action → World
step w (schedule h) = elim (Scheduler.schedule w.scheduler h) [
  | none ↦ w
  | some s ↦ record w { scheduler = s; scheduled = w.scheduled ++ h ∷ [] }
]
step w suspend = only w (Scheduler.suspend w.scheduler)
step w resume = only w (Scheduler.resume w.scheduler)
step w halt = only w (Scheduler.halt w.scheduler)
step w turn = elim w.scheduler.worker [
  | executes count h ↦ w
  | _ ↦ record w {
    scheduler = turn_worker w.scheduler;
    begun = w.begun ++ begins (turn_worker w.scheduler).worker;
  }
]
step w (schedule_local h) = elim w.scheduler.worker [
  | executes count running ↦ record w {
    scheduler = Scheduler.schedule_local w.scheduler h;
    scheduled = w.scheduled ++ h ∷ [];
  }
  | _ ↦ w
]
step w (stops outcome) = elim w.scheduler.worker [
  | executes count h ↦ record w {
    scheduler = Scheduler.finish_coroutine w.scheduler count h outcome;
    gone = w.gone ++ gone_by outcome h;
  }
  | _ ↦ w
]
step w spurious = only w (record w.scheduler { worker = wake_spuriously w.scheduler.worker })

unfoldable pub run : World → List Action → World
run w [] = w
run w (a ∷ rest) = run (step w a) rest

unfoldable pub start : World
start = record { scheduler = Scheduler.make; scheduled = []; begun = []; gone = [] }
