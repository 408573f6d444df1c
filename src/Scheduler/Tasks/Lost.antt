-- ===== src/Scheduler/Tasks/Lost.antt =====
-- A coroutine that is scheduled at a halted scheduler of inc/scheduler.hpp, from a thread of another.
use hermesconcurrencyengine.Common.{ℕ, Bool, true, false, none, some, ◌∷◌, ◌≡◌, refl, arith}
use hermesconcurrencyengine.Scheduler
use hermesconcurrencyengine.Scheduler.{Scheduler, State, halted}
use hermesconcurrencyengine.Scheduler.Tasks.{
  Tasks, Outcome, unwinds, install_joiner, make_joiner, remote_result, schedule,
}
use hermesconcurrencyengine.Awaitable
use hermesconcurrencyengine.Awaitable.{Interface, await_ready, await_block}
use hermesconcurrencyengine.Awaitable.Implementations.{Reschedule, reschedule, on_suspend}
use hermesconcurrencyengine.Awaitable.Implementations.Joining
use hermesconcurrencyengine.Awaitable.Implementations.Joining.{Joiner}
use hermesconcurrencyengine.Coroutine.Cleanup.{install}
use hermesconcurrencyengine.Awaitable.Wrapper.{terminates, blocks, wait}

refuses : (s : Scheduler) (h : ℕ) → s.state ≡ halted → Scheduler.schedule s h ≡ none
unfolding Scheduler.schedule
refuses s h e = ground (arith, e)

-- In a coroutine the process terminates; a thread goes to sleep for a joiner that is not ready.
abbrev pub NeverReturns : {T : Type 0} → Bool → Outcome T → Type 0
NeverReturns true o = o ≡ unwinds terminates
NeverReturns {T} false o =
    (i : Interface (Reschedule (Joiner T))) × (o ≡ unwinds (blocks (record { impl = some i })))
    × (i.state.inner.ready ≡ false)
    × (i.tt ≡ true)

module _ {T : Type 0} where
  refused-NeverReturns :
      (is_in : Bool) (h : ℕ) (s : Tasks T)
      → NeverReturns is_in (remote_result is_in s.joiners none (install_joiner h s)).outcome
  unfolding make_joiner wait Awaitable.make await_ready await_block Joining.implementation
      Joining.make reschedule on_suspend
  refused-NeverReturns true h s = refl
  refused-NeverReturns false h s = (_, refl, refl, refl)

  -- If a thread that is not in `run()` of a halted scheduler schedules a coroutine there that is
  -- not done, then `schedule` does not throw `scheduler_halted_exception` to it: in a coroutine the
  -- process terminates, and else the thread sleeps for a joiner that is not ready; the scheduler is
  -- as it was, so it does not get the handle, and the frame is not destroyed, with the joiner's
  -- handler in its promise.
  pub schedule-halted :
      (is_in : Bool) (h : ℕ) (s : Tasks T)
      → (s.frame h).done ≡ false
      → s.scheduler.state ≡ halted
      → let r = schedule false is_in (some h) s in
        NeverReturns is_in r.outcome
        × (r.next.scheduler ≡ s.scheduler)
        × ((r.next.frame h).done ≡ false)
        × ((r.next.frame h).cleanup_list ≡ s.joiners ∷ (s.frame h).cleanup_list)
  unfolding schedule install_joiner install
  schedule-halted is_in h s e n =
      rw (e, schedule)
        (rw (refuses s.scheduler h n)
          (refused-NeverReturns is_in h s, refl, ground (arith, e), ground arith))
