-- ===== src/Scheduler/Halting.antt =====
-- A halted scheduler of inc/scheduler.hpp.
use hermesconcurrencyengine.Common.{ℕ, ◌≡◌, refl, List, [], ◌∷◌, append-nil, arith}
use hermesconcurrencyengine.Scheduler
use hermesconcurrencyengine.Scheduler.{
  Scheduler, State, executing, suspended, halted, Worker, starts, waits_resume, woken_resume,
  waits_coroutines, woken_coroutines, returned, between, executes, Outcome,
}
use hermesconcurrencyengine.Scheduler.Threads
use hermesconcurrencyengine.Scheduler.Threads.{World, Action, turn_worker, step, run}
use hermesconcurrencyengine.Scheduler.Wakeups.{IsPlaced}

-- If the thread of `run()` sleeps in a suspended scheduler, then after `halt_` it returns from
-- `run()` at its next turn, with the scheduler halted and the queue as it was.
pub halt_abandons :
    (s : Scheduler)
    → IsPlaced s
    → s.worker ≡ waits_resume
    → let t = turn_worker (Scheduler.halt s) in
      (t.worker ≡ returned) × (t.state ≡ halted) × (t.coroutine_queue ≡ s.coroutine_queue)
unfolding turn_worker Scheduler.halt Scheduler.coroutines_notify Scheduler.resume_notify
    Scheduler.suspension_loop Scheduler.execution_loop Scheduler.reset_flags
halt_abandons s v e = ground (arith, v)

-- A scheduler that is halted and whose `run()` has returned.
record IsOver (w : World) (queue begun : List ℕ) : Type 0 where
  over : w.scheduler.worker ≡ returned
  state : w.scheduler.state ≡ halted
  same_queue : w.scheduler.coroutine_queue ≡ queue
  same_begun : w.begun ≡ begun

step-IsOver : (w : World) (a : Action) (q b : List ℕ) → IsOver w q b → IsOver (step w a) q b
unfolding step turn_worker Scheduler.schedule Scheduler.suspend Scheduler.resume Scheduler.halt
step-IsOver w (Threads.stops o) q b v = ground (arith, v)
step-IsOver w Threads.turn q b v = ground (arith, v, append-nil w.begun)
step-IsOver w a q b v = ground (arith, v)

run-IsOver :
    (acts : List Action) (w : World) (q b : List ℕ) → IsOver w q b → IsOver (run w acts) q b
unfolding run
run-IsOver [] w q b v = v
run-IsOver (a ∷ acts) w q b v = run-IsOver acts (step w a) q b (step-IsOver w a q b v)

-- Once `run()` has returned from a halted scheduler, no sequence of steps begins a coroutine,
-- changes the queue, or ends the state `halted`.
pub halted_for_good :
    (acts : List Action) (w : World)
    → w.scheduler.worker ≡ returned
    → w.scheduler.state ≡ halted
    → let r = run w acts in
      (r.begun ≡ w.begun)
      × (r.scheduler.coroutine_queue ≡ w.scheduler.coroutine_queue)
      × (r.scheduler.state ≡ halted)
halted_for_good acts w e f =
    let o =
      run-IsOver acts w w.scheduler.coroutine_queue w.begun
        (record { over = e; state = f; same_queue = refl; same_begun = refl }) in
    (o.same_begun, o.same_queue, o.state)
