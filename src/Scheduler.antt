-- ===== src/Scheduler.antt =====
-- inc/scheduler.hpp: `hce::scheduler`, one thread in `run()` that executes the coroutines of a queue in
-- batches, and the threads that schedule, suspend, resume and halt. A coroutine handle is a number.
-- Every function here is a part of the code that runs under `lk_`, or, in a batch, a part that only
-- the thread of `run()` reads; Scheduler/Threads puts these parts in any order.
pub mod Threads
pub mod Wakeups
pub mod Conservation
pub mod Batches
pub mod Halting
pub mod Lifecycle
pub mod Tasks
pub mod Throwing
mod Tests
use hermesconcurrencyengine.Common.{
  ℕ, zero, suc, ◌+◌, Bool, true, false, Option, none, some, List, [], ◌∷◌, ◌++◌, length,
  if◌then◌else◌, is_empty,
}

pub data State : Type 0 where
  executing suspended halted : State

-- Where the thread of `run()` is: before its first lock; in a wait on one of the two conditions, or
-- woken from it and about to lock; between two coroutines of a batch of which so many are left; in
-- the execution of a coroutine; or returned.
pub data Worker : Type 0 where
  starts waits_resume woken_resume waits_coroutines woken_coroutines returned : Worker
  between : ℕ → Worker
  executes : ℕ → ℕ → Worker

pub record Scheduler : Type 0 where
  pub state : State
  pub coroutine_queue : List ℕ
  pub local_queue : List ℕ
  pub batch_size : ℕ
  pub waiting_for_resume : Bool
  pub waiting_for_coroutines : Bool
  pub worker : Worker

-- The constructor, and a thread about to call `run()`.
unfoldable pub make : Scheduler
make = record {
  state = executing;
  coroutine_queue = [];
  local_queue = [];
  batch_size = 0;
  waiting_for_resume = false;
  waiting_for_coroutines = false;
  worker = starts;
}

unfoldable pub scheduled_count : Scheduler → ℕ
scheduled_count s = s.batch_size + length s.coroutine_queue

abbrev wake_resume : Worker → Worker
wake_resume waits_resume = woken_resume
wake_resume w = w

abbrev wake_coroutines : Worker → Worker
wake_coroutines waits_coroutines = woken_coroutines
wake_coroutines w = w

-- The notifications are sent under the lock.
unfoldable pub resume_notify : Scheduler → Scheduler
resume_notify s =
    if s.waiting_for_resume
    then record s { waiting_for_resume = false; worker = wake_resume s.worker }
    else s

unfoldable pub coroutines_notify : Scheduler → Scheduler
coroutines_notify s =
    if s.waiting_for_coroutines
    then record s { waiting_for_coroutines = false; worker = wake_coroutines s.worker }
    else s

-- `schedule_` from another thread: `none` is `scheduler_halted_exception`.
unfoldable pub schedule : Scheduler → ℕ → Option Scheduler
schedule s h = elim s.state [
  | halted ↦ none
  | executing ↦
      some (coroutines_notify (record s { coroutine_queue = s.coroutine_queue ++ h ∷ [] }))
  | suspended ↦
      some (coroutines_notify (record s { coroutine_queue = s.coroutine_queue ++ h ∷ [] }))
]

-- `schedule_` from a coroutine that this scheduler executes.
unfoldable pub schedule_local : Scheduler → ℕ → Scheduler
schedule_local s h = record s { local_queue = s.local_queue ++ h ∷ [] }

unfoldable pub suspend : Scheduler → Scheduler
suspend s = elim s.state [
  | halted ↦ s
  | executing ↦ coroutines_notify (record s { state = suspended })
  | suspended ↦ coroutines_notify (record s { state = suspended })
]

unfoldable pub resume : Scheduler → Scheduler
resume s = elim s.state [
  | halted ↦ s
  | executing ↦ s
  | suspended ↦ resume_notify (record s { state = executing })
]

unfoldable pub halt : Scheduler → Scheduler
halt s = elim s.state [
  | halted ↦ s
  | executing ↦ coroutines_notify (resume_notify (record s { state = halted }))
  | suspended ↦ coroutines_notify (resume_notify (record s { state = halted }))
]

unfoldable pub reset_flags : Scheduler → Scheduler
reset_flags s = record s {
  batch_size = 0;
  waiting_for_resume = false;
  waiting_for_coroutines = false;
}

unfoldable pub wait_for_resume : Scheduler → Scheduler
wait_for_resume s = record s { waiting_for_resume = true; worker = waits_resume }

-- The loop that executes, from its test until the lock is let go: a batch begins, the thread waits
-- for coroutines, or the loop ends, and `run()` goes back to its outer tests.
unfoldable pub execution_loop : Scheduler → Scheduler
execution_loop s = elim s.state [
  | executing ↦
      if is_empty s.coroutine_queue
      then record s { waiting_for_coroutines = true; worker = waits_coroutines }
      else record s {
        coroutine_queue = s.local_queue;
        local_queue = s.coroutine_queue;
        batch_size = length s.coroutine_queue;
        worker = between (length s.coroutine_queue);
      }
  | suspended ↦ wait_for_resume (reset_flags s)
  | halted ↦ record (reset_flags s) { worker = returned }
]

-- The loop that waits until the scheduler is not suspended.
unfoldable pub suspension_loop : Scheduler → Scheduler
suspension_loop s = elim s.state [
  | suspended ↦ wait_for_resume s
  | executing ↦ execution_loop s
  | halted ↦ execution_loop s
]

-- The first test of `run()`.
unfoldable pub run : Scheduler → Scheduler
run s = elim s.state [
  | halted ↦ record s { worker = returned }
  | executing ↦ suspension_loop s
  | suspended ↦ suspension_loop s
]

unfoldable pub cleanup_batch : Scheduler → Scheduler
cleanup_batch s = record s {
  batch_size = 0;
  coroutine_queue = s.coroutine_queue ++ s.local_queue;
  local_queue = [];
}

-- The next coroutine of a batch. The code reads the front of `local_queue` unchecked.
unfoldable pub next_coroutine : Scheduler → ℕ → Scheduler
next_coroutine s count = elim s.local_queue [
  | [] ↦ s
  | h ∷ rest ↦ record s { local_queue = rest; worker = executes count h }
]

-- How a coroutine stops: it is done, it has suspended itself and is to go on, or an awaitable took its
-- handle.
pub data Outcome : Type 0 where
  done yielded taken : Outcome

unfoldable pub finish_coroutine : Scheduler → ℕ → ℕ → Outcome → Scheduler
finish_coroutine s count h yielded = record s {
  local_queue = s.local_queue ++ h ∷ [];
  worker = between count;
}
finish_coroutine s count h done = record s { worker = between count }
finish_coroutine s count h taken = record s { worker = between count }
