-- ===== src/Awaitable/Protocol/Held.antt =====
-- An await under the policies `defer` and `no_lock`, which the channels use: the thread that calls
-- `resume` holds the lock of the awaitable from before the call until after it, so what `resume` wakes
-- is woken under the lock. Each run is one of the protocol of `lock`.
use hermesconcurrencyengine.Common.{ℕ, Bool, true, false, Option, none, some, ◌≡◌}
use hermesconcurrencyengine.Awaitable.{
  Implementation, defer, no_lock, to_destination, unblock, not_blocked, make, resume,
}
use hermesconcurrencyengine.Awaitable.Protocol.{
  Resumer, coming, sends, notifies, returned, World, start, await_at, suspend_at, wake_at,
  relock_at, continue_at, complete_at,
}

-- `held` is whether the thread that resumes has the lock.
pub record HeldWorld (S : Type 0) : Type 0 where
  pub world : World S
  pub held : Bool

pub data HeldAction : Type 0 where
  awaits : HeldAction
  suspends : HeldAction
  spurious : HeldAction
  relocks : HeldAction
  continues : HeldAction
  takes_lock : HeldAction
  resumes : HeldAction
  completes : HeldAction
  gives_lock : HeldAction

module _ {S M : Type 0} (I : Implementation S M) (m : M) where
  unfoldable pub held_start : Option ℕ → S → HeldWorld S
  unfolding start
  held_start caller s =
      let w = start I m caller s in
      record { world = record w { interface = make defer no_lock s }; held = false }

  abbrev pub keep_held : Bool → Option (World S) → Option (HeldWorld S)
  keep_held h none = none
  keep_held h (some w) = some (record { world = w; held = h })

  -- What takes the lock waits while it is held.
  abbrev pub unless_held : Bool → Option (World S) → Option (HeldWorld S)
  unless_held true o = none
  unless_held false o = keep_held false o

  abbrev pub take_from : Bool → Bool → World S → Option (HeldWorld S)
  take_from false false w = some (record { world = w; held = true })
  take_from false true w = none
  take_from true locked w = none

  -- The call of `resume`, up to what it wakes.
  abbrev pub resumed : World S → World S
  resumed w =
      let r = resume I m w.interface in
      elim r.wakes [
        | to_destination h ↦ record w { interface = r.next; resumer = sends h }
        | unblock ↦ record w { interface = r.next; thread_ready = true; resumer = notifies }
        | not_blocked ↦ record w { interface = r.next; resumer = returned }
      ]

  abbrev pub resume_held : Bool → Resumer → World S → Option (HeldWorld S)
  resume_held true coming w = some (record { world = resumed w; held = true })
  resume_held true (sends h) w = none
  resume_held true notifies w = none
  resume_held true returned w = none
  resume_held false r w = none

  abbrev pub give_from : Bool → Resumer → World S → Option (HeldWorld S)
  give_from true returned w = some (record { world = w; held = false })
  give_from true coming w = none
  give_from true (sends h) w = none
  give_from true notifies w = none
  give_from false r w = none

  unfoldable pub held_step : HeldWorld S → HeldAction → Option (HeldWorld S)
  unfolding await_at suspend_at wake_at relock_at continue_at complete_at resume
  held_step v awaits = unless_held v.held (await_at I m v.world.awaiter v.world)
  held_step v suspends = unless_held v.held (suspend_at I m v.world.awaiter v.world)
  held_step v spurious = keep_held v.held (wake_at I m v.world.awaiter v.world)
  held_step v relocks = unless_held v.held (relock_at I m v.world.awaiter v.world)
  held_step v continues = keep_held v.held (continue_at I m v.world.awaiter v.world)
  held_step v takes_lock = take_from v.held v.world.interface.locked v.world
  held_step v resumes = resume_held v.held v.world.resumer v.world
  held_step v completes = keep_held v.held (complete_at I m v.world.resumer v.world)
  held_step v gives_lock = give_from v.held v.world.resumer v.world

  pub data HeldReach : HeldWorld S → HeldWorld S → Type 0 where
    held_here : (v : HeldWorld S) → HeldReach v v
    held_then :
        (first v : HeldWorld S) (a : HeldAction) (next : HeldWorld S)
        → HeldReach first v
        → held_step v a ≡ some next
        → HeldReach first next
