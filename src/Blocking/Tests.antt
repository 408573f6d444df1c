-- ===== src/Blocking/Tests.antt =====
-- The workers of inc/blocking.hpp at a cache for two.
use hermesconcurrencyengine.Common.{ℕ, true, false, ◌≡◌, refl, some, none, [], ◌∷◌, arith}
use hermesconcurrencyengine.CircularBuffer.{CircularBuffer}
use hermesconcurrencyengine.CircularBuffer.Refine.{Holds}
use hermesconcurrencyengine.Blocking.{Service}
use hermesconcurrencyengine.Blocking.Calls.{Call, sync, async, block_, block-equivalence}
use hermesconcurrencyengine.Awaitable.{Implementation, make, await_ready, resume}
use hermesconcurrencyengine.Awaitable.Protocol.{
  World, Action, awaits, resumes, start, await_at, resume_at, step, Reach, here, then_step,
}
use hermesconcurrencyengine.Awaitable.Implementations.{Reschedule, reschedule}
use hermesconcurrencyengine.Awaitable.Implementations.Calls
use hermesconcurrencyengine.Awaitable.Implementations.Calls.{
  AsyncPartial, SyncPartial, get_sync_result,
}
use hermesconcurrencyengine.Awaitable.Results.{unawaited}

-- Worker 7 is cached, and two are active.
abbrev cache : CircularBuffer ℕ
cache = record { size = 2; used = 1; back_idx = 0; front_idx = 1; slots = none ∷ some 7 ∷ [] }

abbrev service : Service ℕ
service = record { worker_active_count = 2; worker_cache = cache }

cache-Holds : Holds cache (7 ∷ [])
cache-Holds = record {
  small = omega arith;
  block = refl;
  used_in = omega arith;
  front_in = omega arith;
  back_at = refl;
  contents = refl;
}

-- A coroutine awaits a blocking call that returns 42 on worker 7.
abbrev calling : Implementation (Reschedule (AsyncPartial ℕ)) ℕ
calling = Calls.implementation (some 3)

abbrev called : World (Reschedule (AsyncPartial ℕ))
called = start calling 42 (some 5) (unawaited Calls.make)

abbrev after : World (Reschedule (AsyncPartial ℕ)) → Action → World (Reschedule (AsyncPartial ℕ))
after w a = elim (step calling 42 w a) [ some next ↦ next | none ↦ w ]

abbrev completed_first : World (Reschedule (AsyncPartial ℕ))
completed_first = after called resumes

abbrev returned : World (Reschedule (AsyncPartial ℕ))
returned = after completed_first awaits

steps_returned : Reach calling 42 called returned
unfolding step start make await_at await_ready resume_at resume reschedule Calls.implementation
    Calls.make Calls.on_resume
steps_returned =
    then_step called completed_first awaits returned
      (then_step called called resumes completed_first (here called) refl) refl

abbrev in_coroutine : Call ℕ ℕ
in_coroutine = block_ true service 9 42

abbrev in_thread : Call ℕ ℕ
in_thread = block_ false service 9 42

block-equivalence_example :
    (in_coroutine.awaitable ≡ async Calls.make (some 7) 42)
    × (a : SyncPartial ℕ) × (in_thread.awaitable ≡ sync a)
    × (Calls.get_result returned.interface.state.inner ≡ some (get_sync_result a))
unfolding step start make await_at await_ready resume_at resume reschedule Calls.implementation
    Calls.make Calls.on_resume
block-equivalence_example =
    block-equivalence service (7 ∷ []) 9 42 cache-Holds (omega arith) (some 5) (some 3)
      steps_returned refl
