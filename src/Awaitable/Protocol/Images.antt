-- ===== src/Awaitable/Protocol/Images.antt =====
-- The operations of the protocol do not read the resume policy, and keep it.
use hermesconcurrencyengine.Common.{false, some, ◌≡◌, refl, arith}
use mathlib.Core.Option
use hermesconcurrencyengine.Awaitable.{
  Implementation, lock, no_lock, await_ready, await_suspend, await_block, resume,
}
use hermesconcurrencyengine.Awaitable.Protocol.{
  Awaiter, arrives, holds, suspended, asleep, woken, finished, Resumer, coming, sends, notifies,
  returned, World, await_at, suspend_at, wake_at, relock_at, continue_at, resume_at, complete_at,
  block_round,
}
use hermesconcurrencyengine.Awaitable.Protocol.Held.{resumed}

abbrev pub as_lock : {S : Type 0} → World S → World S
as_lock w = record w { interface = record w.interface { resume_policy = lock } }

module _ {S M : Type 0} (I : Implementation S M) (m : M) where
  pub await_at-as_lock :
      (p : Awaiter) (w : World S)
      → await_at I m p (as_lock w) ≡ Option.map as_lock (await_at I m p w)
  unfolding await_at await_ready
  await_at-as_lock arrives w = ground arith
  await_at-as_lock holds w = refl
  await_at-as_lock suspended w = refl
  await_at-as_lock asleep w = refl
  await_at-as_lock woken w = refl
  await_at-as_lock finished w = refl

  pub suspend_at-as_lock :
      (p : Awaiter) (w : World S)
      → suspend_at I m p (as_lock w) ≡ Option.map as_lock (suspend_at I m p w)
  unfolding suspend_at await_suspend await_block block_round
  suspend_at-as_lock arrives w = refl
  suspend_at-as_lock holds w = ground arith
  suspend_at-as_lock suspended w = refl
  suspend_at-as_lock asleep w = refl
  suspend_at-as_lock woken w = refl
  suspend_at-as_lock finished w = refl

  pub relock_at-as_lock :
      (p : Awaiter) (w : World S)
      → relock_at I m p (as_lock w) ≡ Option.map as_lock (relock_at I m p w)
  unfolding relock_at block_round
  relock_at-as_lock arrives w = refl
  relock_at-as_lock holds w = refl
  relock_at-as_lock suspended w = refl
  relock_at-as_lock asleep w = refl
  relock_at-as_lock woken w = ground arith
  relock_at-as_lock finished w = refl

  pub wake_at-as_lock :
      (p : Awaiter) (w : World S) → wake_at I m p (as_lock w) ≡ Option.map as_lock (wake_at I m p w)
  unfolding wake_at
  wake_at-as_lock arrives w = refl
  wake_at-as_lock holds w = refl
  wake_at-as_lock suspended w = refl
  wake_at-as_lock asleep w = refl
  wake_at-as_lock woken w = refl
  wake_at-as_lock finished w = refl

  pub continue_at-as_lock :
      (p : Awaiter) (w : World S)
      → continue_at I m p (as_lock w) ≡ Option.map as_lock (continue_at I m p w)
  unfolding continue_at
  continue_at-as_lock arrives w = refl
  continue_at-as_lock holds w = refl
  continue_at-as_lock suspended w = ground arith
  continue_at-as_lock asleep w = refl
  continue_at-as_lock woken w = refl
  continue_at-as_lock finished w = refl

  pub complete_at-as_lock :
      (p : Resumer) (w : World S)
      → complete_at I m p (as_lock w) ≡ Option.map as_lock (complete_at I m p w)
  unfolding complete_at
  complete_at-as_lock coming w = refl
  complete_at-as_lock (sends h) w = refl
  complete_at-as_lock notifies w = refl
  complete_at-as_lock returned w = refl

  pub resume-as_lock :
      (w : World S)
      → w.interface.resume_policy ≡ no_lock
      → w.interface.locked ≡ false
      → resume_at I m coming (as_lock w) ≡ some (as_lock (resumed I m w))
  unfolding resume_at resume
  resume-as_lock w p l = ground (arith, p, l)

module _ {S M : Type 0} (I : Implementation S M) (m : M) where
  pub await_at-policy :
      (p : Awaiter) (w : World S) {x : World S}
      → await_at I m p w ≡ some x
      → x.interface.resume_policy ≡ w.interface.resume_policy
  unfolding await_at await_ready
  await_at-policy arrives w e = ground (arith, e)
  await_at-policy p w e = ground (arith, e)

  pub suspend_at-policy :
      (p : Awaiter) (w : World S) {x : World S}
      → suspend_at I m p w ≡ some x
      → x.interface.resume_policy ≡ w.interface.resume_policy
  unfolding suspend_at await_suspend await_block block_round
  suspend_at-policy holds w e = ground (arith, e)
  suspend_at-policy p w e = ground (arith, e)

  pub relock_at-policy :
      (p : Awaiter) (w : World S) {x : World S}
      → relock_at I m p w ≡ some x
      → x.interface.resume_policy ≡ w.interface.resume_policy
  unfolding relock_at block_round
  relock_at-policy woken w e = ground (arith, e)
  relock_at-policy p w e = ground (arith, e)

  pub wake_at-interface :
      (p : Awaiter) (w : World S) {x : World S}
      → wake_at I m p w ≡ some x
      → x.interface ≡ w.interface
  unfolding wake_at
  wake_at-interface asleep w e = ground (arith, e)
  wake_at-interface p w e = ground (arith, e)

  pub continue_at-interface :
      (p : Awaiter) (w : World S) {x : World S}
      → continue_at I m p w ≡ some x
      → x.interface ≡ w.interface
  unfolding continue_at
  continue_at-interface suspended w e = ground (arith, e)
  continue_at-interface p w e = ground (arith, e)

  pub complete_at-interface :
      (p : Resumer) (w : World S) {x : World S}
      → complete_at I m p w ≡ some x
      → x.interface ≡ w.interface
  unfolding complete_at
  complete_at-interface notifies w e = ground (arith, e)
  complete_at-interface p w e = ground (arith, e)
