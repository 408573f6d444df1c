-- ===== src/Scheduler/Throwing.antt =====
-- The `catch` of `run()` of inc/scheduler.hpp: an exception that leaves a coroutine of a batch.
use hermesconcurrencyengine.Common.{ℕ, ◌+◌, ◌≡◌, List, [], ◌∷◌, length, arith}
use hermesconcurrencyengine.Scheduler
use hermesconcurrencyengine.Scheduler.{Scheduler, Worker, executes, returned}
use hermesconcurrencyengine.Scheduler.Threads.{Action, run, start}
use hermesconcurrencyengine.Scheduler.Conservation.{count, handles_conserved, count-append}

-- The scheduler when `run()` has rethrown the exception, and the coroutines that it destroyed.
pub record Thrown : Type 0 where
  pub scheduler : Scheduler
  pub destroyed : List ℕ

-- `co.resume()` rethrows; the destructor of `co` destroys the frame, and the handler puts what is left of
-- the batch back.
unfoldable pub throw_from : Worker → Scheduler → Thrown
throw_from (executes left h) s = record {
  scheduler = record (Scheduler.cleanup_batch s) { worker = returned };
  destroyed = h ∷ [];
}
throw_from w s = record { scheduler = s; destroyed = [] }

-- In every interleaving from a new scheduler, if a coroutine that is executed throws, then `run()`
-- ends with the local queue empty, the whole workload in the queue of the other threads, and the
-- state as it was; the coroutine is destroyed; and every handle was accepted as often as it is in
-- that queue, destroyed by the exception, or gone before.
pub thrown-conserved :
    (h g left : ℕ) (acts : List Action)
    → (run start acts).scheduler.worker ≡ executes left g
    → let w = run start acts in
      let t = throw_from w.scheduler.worker w.scheduler in
      (t.scheduler.worker ≡ returned)
      × (t.scheduler.state ≡ w.scheduler.state)
      × (t.scheduler.local_queue ≡ [])
      × (Scheduler.scheduled_count t.scheduler ≡ length t.scheduler.coroutine_queue)
      × (t.destroyed ≡ g ∷ [])
      × (count h w.scheduled
          ≡ count h t.scheduler.coroutine_queue + (count h t.destroyed + count h w.gone))
unfolding throw_from Scheduler.cleanup_batch Scheduler.scheduled_count
thrown-conserved h g left acts e =
    let w = run start acts in
    ground (
      arith,
      e,
      handles_conserved h acts,
      count-append h w.scheduler.coroutine_queue w.scheduler.local_queue,
    )
