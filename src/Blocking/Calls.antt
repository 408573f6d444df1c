-- ===== src/Blocking/Calls.antt =====
-- inc/blocking.hpp: `block_`, `async` and the awaitables that a blocking call returns. `value` is what
-- the callable returns, and a thunk on a worker is the value that it passes to `resume`.
use hermesconcurrencyengine.Common.{
  ℕ, Bool, true, false, Option, none, some, List, [], ◌≡◌, refl, ap,
}
use hermesconcurrencyengine.CircularBuffer.Refine.{Holds}
use hermesconcurrencyengine.Blocking.{Service, checkout_worker, checkin_worker, Checkin}
use hermesconcurrencyengine.Blocking.Workers.{Few, first_or, checkout_worker_lem}
use hermesconcurrencyengine.Awaitable.Protocol.{World, start, Reach, finished}
use hermesconcurrencyengine.Awaitable.Implementations.{Reschedule}
use hermesconcurrencyengine.Awaitable.Implementations.Calls
use hermesconcurrencyengine.Awaitable.Implementations.Calls.{
  AsyncPartial, SyncPartial, get_sync_result,
}
use hermesconcurrencyengine.Awaitable.Results.{unawaited, call_result}

-- The awaitable that `block_` returns: `sync<T>`, or `async<T>` with its worker (`none` where the
-- cache handed out raw memory) and what that worker's thunk will pass to `resume`.
pub data Blocked (W T : Type 0) : Type 0 where
  sync : SyncPartial T → Blocked W T
  async : AsyncPartial T → Option W → T → Blocked W T

pub record Call (W T : Type 0) : Type 0 where
  pub next : Service W
  pub awaitable : Blocked W T

module _ {W : Type 0} where
  -- The destructor of `async`.
  unfoldable pub destroy : Service W → Option W → Checkin W
  unfolding checkin_worker
  destroy s (some w) = checkin_worker s w
  destroy s none = record { next = s; discarded = [] }

module _ {W T : Type 0} where
  unfoldable pub block_ : Bool → Service W → W → T → Call W T
  unfolding Calls.make checkout_worker
  block_ true s new_worker value =
      let c = checkout_worker s new_worker in
      record { next = c.next; awaitable = async Calls.make c.worker value }
  block_ false s new_worker value = record { next = s; awaitable = sync (record { value = value }) }

  -- With a worker cache that holds `xs`, and workers too few for the counts to wrap: in a coroutine
  -- `block_` returns an `async` on the first of `xs`, or on a new worker where there is none, and
  -- outside it a `sync`; and once the `async` has been awaited, in any order with its `resume`, it
  -- returns the value that the `sync` returns.
  pub block-equivalence :
      (s : Service W) (xs : List W) (new_worker : W) (value : T)
      → Holds s.worker_cache xs
      → Few s xs
      → (caller scheduler : Option ℕ) {w : World (Reschedule (AsyncPartial T))}
      → Reach
          (Calls.implementation scheduler)
          value
          (start (Calls.implementation scheduler) value caller (unawaited Calls.make))
          w
      → w.awaiter ≡ finished
      → ((block_ true s new_worker value).awaitable
          ≡ async Calls.make (some (first_or new_worker xs)) value)
        × (a : SyncPartial T) × ((block_ false s new_worker value).awaitable ≡ sync a)
        × (Calls.get_result w.interface.state.inner ≡ some (get_sync_result a))
  unfolding block_ get_sync_result
  block-equivalence s xs new_worker value h few caller scheduler r e =
      let (given, cached, count) = checkout_worker_lem s xs new_worker h few in
      (
        ap (λ worker. async Calls.make worker value) given,
        record { value = value },
        refl,
        call_result caller scheduler value r e,
      )
