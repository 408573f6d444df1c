-- ===== src/Awaitable/Protocol/Simulation.antt =====
-- Each run of Held.antt is a run of the protocol of `lock`.
use hermesconcurrencyengine.Common.{false, Option, some, ◌≡◌, ◌⊎◌, ◌&&◌}
use mathlib.Core.Option
use hermesconcurrencyengine.Awaitable.{Implementation, no_lock}
use hermesconcurrencyengine.Awaitable.Protocol.{
  Awaiter, arrives, holds, suspended, asleep, woken, finished, block_round, when_free, step,
}
use hermesconcurrencyengine.Awaitable.Protocol
use hermesconcurrencyengine.Awaitable.Protocol.Held.{HeldWorld}
use hermesconcurrencyengine.Awaitable.Protocol.Images.{as_lock}

-- The policy is `no_lock`, and the awaiter does not have the lock while the other thread has it.
abbrev pub IsHeld : {S : Type 0} → HeldWorld S → Type 0
IsHeld v =
    (v.world.interface.resume_policy ≡ no_lock) × ((v.held && v.world.interface.locked) ≡ false)

module _ {S M : Type 0} (I : Implementation S M) (m : M) where
  -- The step is one of the protocol of `lock`, or changes nothing there.
  abbrev Simulates : HeldWorld S → HeldWorld S → Type 0
  Simulates v u =
      IsHeld u
      × ((as_lock u.world ≡ as_lock v.world)
          ⊎ ((b : Protocol.Action) × (step I m (as_lock v.world) b ≡ some (as_lock u.world))))
