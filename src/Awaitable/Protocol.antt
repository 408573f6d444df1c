-- ===== src/Awaitable/Protocol.antt =====
-- One coroutine or thread that awaits an operation, and the one call of `resume` that completes it, in
-- any order: `await_ready`, `await_suspend` and `resume` of inc/coroutine.hpp at the lock, the
-- wakeups that come after the lock is released, and the loop of `this_thread::block_`.

pub mod Shapes
pub mod Invariant
pub mod Wakeups
pub mod Rounds
pub mod Held
pub mod Images
pub mod Simulation
use hermesconcurrencyengine.Common.{
  ℕ, Bool, true, false, Option, none, some, List, [], ◌∷◌, ◌++◌, ◌≡◌,
}
use hermesconcurrencyengine.Awaitable.{
  Implementation, Interface, defer, lock, to_destination, unblock, not_blocked, acquire, unlock,
  make, await_ready, await_suspend, await_block, resume,
}

-- `holds` is between `await_ready` and `await_suspend`; `asleep` is in `cv.wait`, and `woken` has to
-- lock again.
pub data Awaiter : Type 0 where
  arrives : Awaiter
  holds : Awaiter
  suspended : Awaiter
  asleep : Awaiter
  woken : Awaiter
  finished : Awaiter

pub data Resumer : Type 0 where
  coming : Resumer
  sends : ℕ → Resumer
  notifies : Resumer
  returned : Resumer

-- `caller` is the handle of the awaiting coroutine, or `none` for a thread; `thread_ready` is the flag
-- `ready` of that thread; `destination` are the handles that `to_destination` was called with.
pub record World (S : Type 0) : Type 0 where
  pub interface : Interface S
  pub caller : Option ℕ
  pub thread_ready : Bool
  pub awaiter : Awaiter
  pub resumer : Resumer
  pub destination : List ℕ

pub data Action : Type 0 where
  awaits : Action
  suspends : Action
  spurious : Action
  relocks : Action
  continues : Action
  resumes : Action
  completes : Action

-- `m` is what the call of `resume` passes.
module _ {S M : Type 0} (I : Implementation S M) (m : M) where
  unfoldable pub start : Option ℕ → S → World S
  start caller s = record {
    interface = make defer lock s;
    caller = caller;
    thread_ready = false;
    awaiter = arrives;
    resumer = coming;
    destination = [];
  }

  -- An action on the lock is taken only where the lock is free.
  abbrev when_free : World S → World S → Option (World S)
  when_free w next = elim w.interface.locked [ true ↦ none | false ↦ some next ]

  -- `while(!ready) cv.wait(lk); ready = false`, one round, and the unlock after it.
  unfoldable pub block_round : World S → World S
  block_round w = elim w.thread_ready [
    | true ↦ record w { interface = unlock w.interface; thread_ready = false; awaiter = finished }
    | false ↦ record w { interface = unlock w.interface; awaiter = asleep }
  ]

  unfoldable pub await_at : Awaiter → World S → Option (World S)
  await_at arrives w =
      let r = await_ready I w.interface in
      when_free w (record w {
        interface = r.next;
        awaiter = elim r.result [ true ↦ finished | false ↦ holds ];
      })
  await_at holds w = none
  await_at suspended w = none
  await_at asleep w = none
  await_at woken w = none
  await_at finished w = none

  unfoldable pub suspend_at : Awaiter → World S → Option (World S)
  suspend_at holds w = elim w.caller [
    | some h ↦ some (record w { interface = await_suspend I h w.interface; awaiter = suspended })
    | none ↦ some (block_round (record w { interface = await_block I w.interface }))
  ]
  suspend_at arrives w = none
  suspend_at suspended w = none
  suspend_at asleep w = none
  suspend_at woken w = none
  suspend_at finished w = none

  unfoldable pub wake_at : Awaiter → World S → Option (World S)
  wake_at asleep w = some (record w { awaiter = woken })
  wake_at arrives w = none
  wake_at holds w = none
  wake_at suspended w = none
  wake_at woken w = none
  wake_at finished w = none

  unfoldable pub relock_at : Awaiter → World S → Option (World S)
  relock_at woken w = when_free w (block_round (record w { interface = acquire w.interface }))
  relock_at arrives w = none
  relock_at holds w = none
  relock_at suspended w = none
  relock_at asleep w = none
  relock_at finished w = none

  -- The coroutine runs again once its handle is at its destination.
  unfoldable pub continue_at : Awaiter → World S → Option (World S)
  continue_at suspended w = elim w.destination [
    | h ∷ hs ↦ some (record w { awaiter = finished })
    | [] ↦ none
  ]
  continue_at arrives w = none
  continue_at holds w = none
  continue_at asleep w = none
  continue_at woken w = none
  continue_at finished w = none

  unfoldable pub resume_at : Resumer → World S → Option (World S)
  resume_at coming w =
      let r = resume I m w.interface in
      when_free w (elim r.wakes [
        | to_destination h ↦ record w { interface = r.next; resumer = sends h }
        | unblock ↦ record w { interface = r.next; thread_ready = true; resumer = notifies }
        | not_blocked ↦ record w { interface = r.next; resumer = returned }
      ])
  resume_at (sends h) w = none
  resume_at notifies w = none
  resume_at returned w = none

  -- `cv.notify_one` wakes the thread if it is asleep.
  abbrev notified : Awaiter → Awaiter
  notified asleep = woken
  notified arrives = arrives
  notified holds = holds
  notified suspended = suspended
  notified woken = woken
  notified finished = finished

  unfoldable pub complete_at : Resumer → World S → Option (World S)
  complete_at (sends h) w =
      some (record w { destination = w.destination ++ h ∷ []; resumer = returned })
  complete_at notifies w = some (record w { awaiter = notified w.awaiter; resumer = returned })
  complete_at coming w = none
  complete_at returned w = none

  unfoldable pub step : World S → Action → Option (World S)
  step w awaits = await_at w.awaiter w
  step w suspends = suspend_at w.awaiter w
  step w spurious = wake_at w.awaiter w
  step w relocks = relock_at w.awaiter w
  step w continues = continue_at w.awaiter w
  step w resumes = resume_at w.resumer w
  step w completes = complete_at w.resumer w

  -- The worlds that any sequence of actions leads to.
  pub data Reach : World S → World S → Type 0 where
    here : (w : World S) → Reach w w
    then_step :
        (first w : World S) (a : Action) (next : World S)
        → Reach first w
        → step w a ≡ some next
        → Reach first next
