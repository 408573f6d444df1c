-- ===== src/Scheduler/Conservation.antt =====
-- Where the scheduler of inc/scheduler.hpp has each coroutine.
use hermesconcurrencyengine.Common.{
  ℕ, zero, suc, ◌+◌, ◌≡◌, refl, List, [], ◌∷◌, ◌++◌, arith, if◌then◌else◌, ◌==◌,
}
use hermesconcurrencyengine.Scheduler
use hermesconcurrencyengine.Scheduler.{
  Scheduler, State, executing, suspended, halted, Worker, starts, waits_resume, woken_resume,
  waits_coroutines, woken_coroutines, returned, between, executes, Outcome, done, yielded, taken,
}
use hermesconcurrencyengine.Scheduler.Threads
use hermesconcurrencyengine.Scheduler.Threads.{World, Action, turn_worker, step, run, start, begins}

-- How often `h` is in a list of handles.
abbrev pub count : ℕ → List ℕ → ℕ
count h [] = 0
count h (x ∷ xs) = (if x == h then 1 else 0) + count h xs

pub count-append : (h : ℕ) (xs ys : List ℕ) → count h (xs ++ ys) ≡ count h xs + count h ys
count-append h [] ys = omega arith
count-append h (x ∷ xs) ys = omega (arith, count-append h xs ys)

-- How often the scheduler has `h`: in its queues, or in execution.
abbrev pub held : ℕ → Scheduler → ℕ
held h s = count h s.coroutine_queue + (count h s.local_queue + count h (begins s.worker))

execution_loop-held :
    (h : ℕ) (s : Scheduler) → begins s.worker ≡ [] → held h (Scheduler.execution_loop s) ≡ held h s
unfolding Scheduler.execution_loop Scheduler.wait_for_resume Scheduler.reset_flags
execution_loop-held h s e = ground arith

suspension_loop-held :
    (h : ℕ) (s : Scheduler) → begins s.worker ≡ [] → held h (Scheduler.suspension_loop s) ≡ held h s
unfolding Scheduler.suspension_loop Scheduler.wait_for_resume
suspension_loop-held h s e = ground (arith, execution_loop-held h s e)

run-held : (h : ℕ) (s : Scheduler) → begins s.worker ≡ [] → held h (Scheduler.run s) ≡ held h s
unfolding Scheduler.run
run-held h s e = ground (arith, suspension_loop-held h s e)

cleanup_batch-held :
    (h : ℕ) (s : Scheduler)
    → begins s.worker ≡ []
    → (held h (Scheduler.cleanup_batch s) ≡ held h s)
      × (begins (Scheduler.cleanup_batch s).worker ≡ [])
unfolding Scheduler.cleanup_batch
cleanup_batch-held h s e = ground (arith, count-append h s.coroutine_queue s.local_queue)

turn-held : (w : Worker) (h : ℕ) (s : Scheduler) → s.worker ≡ w → held h (turn_worker s) ≡ held h s
unfolding turn_worker Scheduler.next_coroutine
turn-held starts h s e = ground (arith, run-held h s)
turn-held woken_resume h s e = ground (arith, suspension_loop-held h s)
turn-held woken_coroutines h s e = ground (arith, execution_loop-held h s)
turn-held (between zero) h s e =
    ground (arith, cleanup_batch-held h s, execution_loop-held h (Scheduler.cleanup_batch s))
turn-held (between (suc n)) h s e = ground arith
turn-held waits_resume h s e = ground arith
turn-held waits_coroutines h s e = ground arith
turn-held returned h s e = ground arith
turn-held (executes n g) h s e = ground arith

abbrev Conserved : ℕ → World → Type 0
Conserved h w = count h w.scheduled ≡ held h w.scheduler + count h w.gone

step-Conserved : (h : ℕ) (w : World) (a : Action) → Conserved h w → Conserved h (step w a)
unfolding step Scheduler.schedule Scheduler.suspend Scheduler.resume Scheduler.halt
    Scheduler.resume_notify Scheduler.coroutines_notify Scheduler.schedule_local
    Scheduler.finish_coroutine
step-Conserved h w (Threads.schedule g) v = ground (
  arith,
  count-append h w.scheduled (g ∷ []),
  count-append h w.scheduler.coroutine_queue (g ∷ []),
)
step-Conserved h w Threads.suspend v = ground arith
step-Conserved h w Threads.resume v = ground arith
step-Conserved h w Threads.halt v = ground arith
step-Conserved h w Threads.turn v = ground (arith, turn-held w.scheduler.worker h w.scheduler refl)
step-Conserved h w (Threads.schedule_local g) v =
    ground
      (arith, count-append h w.scheduled (g ∷ []), count-append h w.scheduler.local_queue (g ∷ []))
step-Conserved h w (Threads.stops done) v = grind (arith, count-append)
step-Conserved h w (Threads.stops yielded) v = grind (arith, count-append)
step-Conserved h w (Threads.stops taken) v = grind (arith, count-append)
step-Conserved h w Threads.spurious v = ground arith

run-Conserved : (h : ℕ) (acts : List Action) (w : World) → Conserved h w → Conserved h (run w acts)
unfolding run
run-Conserved h [] w v = v
run-Conserved h (a ∷ acts) w v = run-Conserved h acts (step w a) (step-Conserved h w a v)

-- In every interleaving from a new scheduler, a handle was accepted exactly as often as it is now
-- in the two queues, in execution, or gone because its coroutine was done or an awaitable took it.
pub handles_conserved :
    (h : ℕ) (acts : List Action)
    → let w = run start acts in count h w.scheduled ≡ held h w.scheduler + count h w.gone
unfolding start Scheduler.make
handles_conserved h acts = run-Conserved h acts start refl
