-- ===== src/Awaitable/Tests.antt =====
-- Awaits of the awaitables of inc/coroutine.hpp at concrete values: a coroutine on the scheduler 3, whose
-- handle is 7, awaits a joiner, or the value of a blocking call.
use hermesconcurrencyengine.Common.{
  ℕ, ◌+◌, ◌*◌, ◌≤◌, true, false, Option, none, some, List, [], ◌∷◌, ◌≡◌, refl, inl, inr, length,
}
use hermesconcurrencyengine.Awaitable.{
  Implementation, make, await_ready, await_suspend, await_block, resume,
}
use hermesconcurrencyengine.Awaitable.Protocol.{
  World, Action, awaits, suspends, spurious, relocks, continues, resumes, completes, start,
  block_round, await_at, suspend_at, wake_at, relock_at, continue_at, resume_at, complete_at, step,
  Reach, here, then_step,
}
use hermesconcurrencyengine.Awaitable.Protocol.Wakeups.{
  Woken, SentOnce, Moves, no_missed_wakeup, sent_once, no_deadlock,
}
use hermesconcurrencyengine.Awaitable.Protocol.Rounds.{run, spurious_wakeups, actions_bounded}
use hermesconcurrencyengine.Awaitable.Protocol.Held.{HeldWorld, HeldAction, held_start, held_step}
use hermesconcurrencyengine.Awaitable.Protocol.Held
use hermesconcurrencyengine.Awaitable.Implementations.{Reschedule, FreshAt, on_suspend, reschedule}
use hermesconcurrencyengine.Awaitable.Implementations.Joining
use hermesconcurrencyengine.Awaitable.Implementations.Joining.{Joiner}
use hermesconcurrencyengine.Awaitable.Results.{unawaited}
use hermesconcurrencyengine.Scheduler
use hermesconcurrencyengine.Scheduler.Tasks.{
  Tasks, co_return, cleanup, destroy, install_joiner, schedule,
}
use hermesconcurrencyengine.Scheduler.Tasks.Joined.{returns_value, joined_value}
use hermesconcurrencyengine.Coroutine.Cleanup.{install}

abbrev joining : Implementation (Reschedule (Joiner ℕ)) (Option (Option ℕ))
joining = Joining.implementation (some 3)

abbrev message : Option (Option ℕ)
message = Joining.cleanup true (some 42)

abbrev by : Option ℕ → World (Reschedule (Joiner ℕ))
by caller = start joining message caller (unawaited Joining.make)

abbrev after : World (Reschedule (Joiner ℕ)) → Action → World (Reschedule (Joiner ℕ))
after w a = elim (step joining message w a) [ some next ↦ next | none ↦ w ]

abbrev ready : World (Reschedule (Joiner ℕ))
ready = after (by (some 7)) awaits

abbrev suspended : World (Reschedule (Joiner ℕ))
suspended = after ready suspends

abbrev resumed : World (Reschedule (Joiner ℕ))
resumed = after suspended resumes

abbrev completed : World (Reschedule (Joiner ℕ))
completed = after resumed completes

abbrev continued : World (Reschedule (Joiner ℕ))
continued = after completed continues

steps_suspended : Reach joining message (by (some 7)) suspended
unfolding step start make await_at suspend_at await_ready resume_at await_suspend complete_at resume
    continue_at reschedule on_suspend Joining.implementation Joining.make Joining.cleanup
    Joining.on_resume
steps_suspended =
    then_step (by (some 7)) ready suspends suspended
      (then_step (by (some 7)) (by (some 7)) awaits ready (here (by (some 7))) refl) refl

steps_completed : Reach joining message (by (some 7)) completed
unfolding step start make await_at suspend_at await_ready resume_at await_suspend complete_at resume
    continue_at reschedule on_suspend Joining.implementation Joining.make Joining.cleanup
    Joining.on_resume
steps_completed =
    then_step (by (some 7)) resumed completes completed
      (then_step (by (some 7)) suspended resumes resumed steps_suspended refl) refl

steps_continued : Reach joining message (by (some 7)) continued
unfolding step start make await_at suspend_at await_ready resume_at await_suspend complete_at resume
    continue_at reschedule on_suspend Joining.implementation Joining.make Joining.cleanup
    Joining.on_resume
steps_continued = then_step (by (some 7)) completed continues continued steps_completed refl

fresh : FreshAt (Joining.make {T = ℕ}) (some 3) (unawaited Joining.make)
fresh = (refl, inl refl)

no_missed_wakeup_example :
    Woken joining (FreshAt Joining.make (some 3)) message completed.awaiter completed
unfolding step start make await_at suspend_at await_ready resume_at await_suspend complete_at resume
    continue_at reschedule on_suspend Joining.implementation Joining.make Joining.cleanup
    Joining.on_resume
no_missed_wakeup_example =
    no_missed_wakeup joining (FreshAt Joining.make (some 3)) message
      (Joining.implementation-Lawful (some 3)) (some 7) (unawaited Joining.make) fresh
      steps_completed refl

sent_once_example : SentOnce joining message completed
sent_once_example =
    sent_once joining (FreshAt Joining.make (some 3)) message
      (Joining.implementation-Lawful (some 3)) (some 7) (unawaited Joining.make) fresh
      steps_completed

no_deadlock_example : Moves joining message completed
no_deadlock_example =
    no_deadlock joining (FreshAt Joining.make (some 3)) message
      (Joining.implementation-Lawful (some 3)) (some 7) (unawaited Joining.make) fresh
      steps_completed

-- The coroutine 9 is scheduled at a new scheduler, returns 42 and is destroyed.
abbrev tasks : Tasks ℕ
tasks = record {
  scheduler = Scheduler.make;
  frame = λ h. record { done = false; result = none; cleanup_list = [] };
  joiners = 5;
}

joined_value_example :
    ◌≡◌ {A = ℕ} 5 5 × (Joining.get_result continued.interface.state.inner ≡ some 42)
unfolding step start make await_at suspend_at await_ready resume_at await_suspend complete_at resume
    continue_at reschedule on_suspend Joining.implementation Joining.make Joining.cleanup
    Joining.on_resume schedule destroy co_return cleanup install_joiner install Scheduler.schedule
    Scheduler.coroutines_notify Scheduler.make
joined_value_example =
    joined_value false false 9 tasks (returns_value 42) (some 7) (some 3) {rest = []} refl refl
      (inr (λ e. cc)) refl steps_continued refl

-- A thread is woken once for nothing before the operation is complete.
abbrev woken_twice : List Action
woken_twice = awaits ∷ suspends ∷ spurious ∷ relocks ∷ resumes ∷ completes ∷ relocks ∷ []

ran : (end : World (Reschedule (Joiner ℕ))) × (run joining message (by none) woken_twice ≡ some end)
unfolding step start make await_at suspend_at await_ready resume_at await_suspend complete_at resume
    continue_at reschedule on_suspend Joining.implementation Joining.make Joining.cleanup
    Joining.on_resume run relock_at wake_at block_round await_block
ran = (_, refl)

actions_bounded_example : length woken_twice ≤ 6 + 2 * spurious_wakeups woken_twice
actions_bounded_example =
    actions_bounded joining (FreshAt Joining.make (some 3)) message
      (Joining.implementation-Lawful (some 3)) none (unawaited Joining.make) woken_twice fresh
      (ran.1)

-- The same coroutine, where the thread that resumes takes the lock first.
abbrev held_by : HeldWorld (Reschedule (Joiner ℕ))
held_by = held_start joining message (some 7) (unawaited Joining.make)

abbrev held_after :
    HeldWorld (Reschedule (Joiner ℕ)) → HeldAction → HeldWorld (Reschedule (Joiner ℕ))
held_after v a = elim (held_step joining message v a) [ some next ↦ next | none ↦ v ]

abbrev held_suspended : HeldWorld (Reschedule (Joiner ℕ))
held_suspended = held_after (held_after held_by Held.awaits) Held.suspends

abbrev held_taken : HeldWorld (Reschedule (Joiner ℕ))
held_taken = held_after held_suspended Held.takes_lock

abbrev held_resumed : HeldWorld (Reschedule (Joiner ℕ))
held_resumed = held_after held_taken Held.resumes
