-- ===== src/Scheduler/Wakeups.antt =====
-- When the thread of `run()` of inc/scheduler.hpp sleeps.
use hermesconcurrencyengine.Common.{
  zero, suc, ◌≤◌, ◌≡◌, refl, true, List, [], ◌∷◌, length, length-append, arith,
}
use hermesconcurrencyengine.Scheduler
use hermesconcurrencyengine.Scheduler.{
  Scheduler, State, executing, suspended, halted, Worker, starts, waits_resume, woken_resume,
  waits_coroutines, woken_coroutines, returned, between, executes, Outcome, done, yielded, taken,
}
use hermesconcurrencyengine.Scheduler.Threads
use hermesconcurrencyengine.Scheduler.Threads.{World, Action, turn_worker, step, run, start}

-- The thread sleeps for `resume` only while the scheduler is suspended, and for coroutines only while
-- it executes and has none, each time with the flag set that makes the others notify it; it returns
-- only when the scheduler is halted; a batch never runs out of handles, and no handle is local outside
-- of one.
abbrev pub Placed : Worker → Scheduler → Type 0
Placed starts s = s.local_queue ≡ []
Placed woken_resume s = s.local_queue ≡ []
Placed woken_coroutines s = s.local_queue ≡ []
Placed waits_resume s = (s.state ≡ suspended) × (s.waiting_for_resume ≡ true) × (s.local_queue ≡ [])
Placed waits_coroutines s =
    (s.state ≡ executing)
    × (s.coroutine_queue ≡ [])
    × (s.waiting_for_coroutines ≡ true)
    × (s.local_queue ≡ [])
Placed returned s = (s.state ≡ halted) × (s.local_queue ≡ [])
Placed (between count) s = count ≤ length s.local_queue
Placed (executes count h) s = count ≤ length s.local_queue

abbrev pub IsPlaced : Scheduler → Type 0
IsPlaced s = Placed s.worker s

execution_loop-IsPlaced :
    (s : Scheduler) → s.local_queue ≡ [] → IsPlaced (Scheduler.execution_loop s)
unfolding Scheduler.execution_loop Scheduler.wait_for_resume Scheduler.reset_flags
execution_loop-IsPlaced s e = ground arith

suspension_loop-IsPlaced :
    (s : Scheduler) → s.local_queue ≡ [] → IsPlaced (Scheduler.suspension_loop s)
unfolding Scheduler.suspension_loop Scheduler.wait_for_resume
suspension_loop-IsPlaced s e = ground (arith, execution_loop-IsPlaced s e)

run-IsPlaced : (s : Scheduler) → s.local_queue ≡ [] → IsPlaced (Scheduler.run s)
unfolding Scheduler.run
run-IsPlaced s e = ground (arith, suspension_loop-IsPlaced s e)

cleanup-local : (s : Scheduler) → (Scheduler.cleanup_batch s).local_queue ≡ []
unfolding Scheduler.cleanup_batch
cleanup-local s = refl

turn-IsPlaced : (w : Worker) (s : Scheduler) → s.worker ≡ w → Placed w s → IsPlaced (turn_worker s)
unfolding turn_worker Scheduler.next_coroutine
turn-IsPlaced starts s e v = ground (arith, run-IsPlaced s v)
turn-IsPlaced woken_resume s e v = ground (arith, suspension_loop-IsPlaced s v)
turn-IsPlaced woken_coroutines s e v = ground (arith, execution_loop-IsPlaced s v)
turn-IsPlaced (between zero) s e v =
    ground (arith, execution_loop-IsPlaced (Scheduler.cleanup_batch s) (cleanup-local s))
turn-IsPlaced (between (suc n)) s e v = ground arith
turn-IsPlaced waits_resume s e v = ground arith
turn-IsPlaced waits_coroutines s e v = ground arith
turn-IsPlaced returned s e v = ground arith
turn-IsPlaced (executes n h) s e v = ground arith

stops-IsPlaced :
    (w : World) (o : Outcome) → IsPlaced w.scheduler → IsPlaced (step w (Threads.stops o)).scheduler
unfolding step Scheduler.finish_coroutine
stops-IsPlaced w done v = ground arith
stops-IsPlaced w taken v = ground arith
stops-IsPlaced w yielded v = grind (arith, length-append)

step-IsPlaced : (w : World) (a : Action) → IsPlaced w.scheduler → IsPlaced (step w a).scheduler
unfolding step Scheduler.schedule Scheduler.suspend Scheduler.resume Scheduler.halt
    Scheduler.resume_notify Scheduler.coroutines_notify Scheduler.schedule_local
    Scheduler.finish_coroutine
step-IsPlaced w (Threads.schedule h) v = ground arith
step-IsPlaced w Threads.suspend v = ground arith
step-IsPlaced w Threads.resume v = ground arith
step-IsPlaced w Threads.halt v = ground arith
step-IsPlaced w Threads.turn v = ground (arith, turn-IsPlaced w.scheduler.worker w.scheduler refl v)
step-IsPlaced w (Threads.schedule_local h) v =
    ground (arith, length-append w.scheduler.local_queue (h ∷ []))
step-IsPlaced w (Threads.stops o) v = stops-IsPlaced w o v
step-IsPlaced w Threads.spurious v = ground arith

run-IsPlaced_World :
    (acts : List Action) (w : World) → IsPlaced w.scheduler → IsPlaced (run w acts).scheduler
unfolding run
run-IsPlaced_World [] w v = v
run-IsPlaced_World (a ∷ acts) w v = run-IsPlaced_World acts (step w a) (step-IsPlaced w a v)

-- In every interleaving from a new scheduler, the thread of `run()` sleeps for `resume` only while
-- the scheduler is suspended, and for coroutines only while it executes and its queue is empty,
-- each time with the flag set that makes the others notify it; it has returned only if the
-- scheduler is halted; and within a batch the local queue has at least as many handles as the batch
-- has coroutines left.
pub scheduler_sleeps : (acts : List Action) → IsPlaced (run start acts).scheduler
unfolding start Scheduler.make
scheduler_sleeps acts = run-IsPlaced_World acts start refl
