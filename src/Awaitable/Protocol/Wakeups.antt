-- ===== src/Awaitable/Protocol/Wakeups.antt =====
-- What the shapes of one await and its one `resume` say together: no wakeup is lost, none comes twice,
-- and the two always come to their end.
use hermesconcurrencyengine.Common.{
  ℕ, true, Option, none, some, [], ◌∷◌, ◌≡◌, ◌≢◌, refl, sym, subst, ◌⊎◌, inl, inr, arith,
}
use hermesconcurrencyengine.Awaitable.{
  Implementation, Lawful, await_ready, await_suspend, await_block, resume, destroy,
}
use hermesconcurrencyengine.Awaitable.Protocol.{
  Awaiter, World, Action, arrives, holds, suspended, asleep, woken, finished, returned, awaits,
  suspends, spurious, relocks, continues, resumes, completes, start, block_round, await_at,
  suspend_at, relock_at, continue_at, resume_at, complete_at, step, Reach,
}
use hermesconcurrencyengine.Awaitable.Protocol.Shapes.{
  Shape, Fits, Over, world_of, at_start, resumed_first, about_to_suspend, stored, taken, scheduled,
  blocked, stirred, unblocked, unblocked_stirred, notified, unblocked_finished, over, continued,
}
use hermesconcurrencyengine.Awaitable.Protocol.Invariant.{consistent, ready-Over}

module _ {S M : Type 0} (I : Implementation S M) (Fresh : S → Type 0) (m : M) where
  -- What has become of the awaiter once `resume` has returned.
  abbrev pub Woken : Awaiter → World S → Type 0
  Woken arrives w = Over I Fresh m w.interface.state
  Woken holds w = ⊥
  Woken suspended w = (h : ℕ) × (w.caller ≡ some h) × (w.destination ≡ h ∷ [])
  Woken asleep w = ⊥
  Woken woken w = w.thread_ready ≡ true
  Woken finished w = Over I Fresh m w.interface.state

module _ {S M : Type 0} (I : Implementation S M) (m : M) where
  -- The handle of the awaiting coroutine was passed on at most once, and no other was.
  abbrev pub SentOnce : World S → Type 0
  SentOnce w = (w.destination ≡ []) ⊎ (h : ℕ) × (w.caller ≡ some h) × (w.destination ≡ h ∷ [])

  -- Either both have finished, or one of them can act, without a spurious wakeup.
  abbrev pub Moves : World S → Type 0
  Moves w =
      (w.awaiter ≡ finished) × (w.resumer ≡ returned)
      ⊎ (a : Action) × (a ≢ spurious) × (next : World S) × (step I m w a ≡ some next)

module _ {S M : Type 0} (I : Implementation S M) (Fresh : S → Type 0) (m : M)
    (law : Lawful I Fresh) where
  every_shape :
      (P : World S → Type 0)
      → ((p : Shape S) → Fits I Fresh m p → P (world_of p))
      → {w : World S} (caller : Option ℕ) (s : S) → Fresh s
      → Reach I m (start I m caller s) w
      → P w
  every_shape P each caller s h r =
      let (p, same, fits) = consistent I Fresh m law caller s h r in
      subst P (sym same) (each p fits)

  shape-Woken :
      (p : Shape S)
      → Fits I Fresh m p
      → (world_of p).resumer ≡ returned
      → Woken I Fresh m (world_of p).awaiter (world_of p)
  shape-Woken (at_start c s) h e = absurd (ground arith)
  shape-Woken (resumed_first c s) h e = h
  shape-Woken (about_to_suspend c s) h e = absurd (ground arith)
  shape-Woken (stored k s) h e = absurd (ground arith)
  shape-Woken (taken k s) h e = absurd (ground arith)
  shape-Woken (scheduled k s) h e = (k, refl, refl)
  shape-Woken (blocked s) h e = absurd (ground arith)
  shape-Woken (stirred s) h e = absurd (ground arith)
  shape-Woken (unblocked s) h e = absurd (ground arith)
  shape-Woken (unblocked_stirred s) h e = absurd (ground arith)
  shape-Woken (notified s) h e = refl
  shape-Woken (unblocked_finished s) h e = absurd (ground arith)
  shape-Woken (over c s) h e = h
  shape-Woken (continued k s) h e = h

  shape-SentOnce : (p : Shape S) → Fits I Fresh m p → SentOnce I m (world_of p)
  shape-SentOnce (at_start c s) h = inl refl
  shape-SentOnce (resumed_first c s) h = inl refl
  shape-SentOnce (about_to_suspend c s) h = inl refl
  shape-SentOnce (stored k s) h = inl refl
  shape-SentOnce (taken k s) h = inl refl
  shape-SentOnce (scheduled k s) h = inr (k, refl, refl)
  shape-SentOnce (blocked s) h = inl refl
  shape-SentOnce (stirred s) h = inl refl
  shape-SentOnce (unblocked s) h = inl refl
  shape-SentOnce (unblocked_stirred s) h = inl refl
  shape-SentOnce (notified s) h = inl refl
  shape-SentOnce (unblocked_finished s) h = inl refl
  shape-SentOnce (over c s) h = inl refl
  shape-SentOnce (continued k s) h = inr (k, refl, refl)

  shape-Moves : (p : Shape S) → Fits I Fresh m p → Moves I m (world_of p)
  unfolding step await_at await_ready suspend_at await_suspend await_block block_round relock_at
      continue_at resume_at resume complete_at
  shape-Moves (at_start c s) h =
      inr (resumes, (λ e. ground arith), world_of (resumed_first c (I.on_resume m s)), refl)
  shape-Moves (resumed_first c s) h = inr (
    awaits,
    (λ e. ground arith),
    world_of (over c s),
    rw (await_ready, ready-Over I Fresh m law h) refl,
  )
  shape-Moves (about_to_suspend none s) h =
      inr (suspends, (λ e. ground arith), world_of (blocked (I.on_suspend s)), refl)
  shape-Moves (about_to_suspend (some k) s) h =
      inr (suspends, (λ e. ground arith), world_of (stored k (I.on_suspend s)), refl)
  shape-Moves (stored k s) h =
      inr (resumes, (λ e. ground arith), world_of (taken k (I.on_resume m s)), refl)
  shape-Moves (taken k s) h = inr (completes, (λ e. ground arith), world_of (scheduled k s), refl)
  shape-Moves (scheduled k s) h =
      inr (continues, (λ e. ground arith), world_of (continued k s), refl)
  shape-Moves (blocked s) h =
      inr (resumes, (λ e. ground arith), world_of (unblocked (I.on_resume m s)), refl)
  shape-Moves (stirred s) h =
      inr (resumes, (λ e. ground arith), world_of (unblocked_stirred (I.on_resume m s)), refl)
  shape-Moves (unblocked s) h = inr (completes, (λ e. ground arith), world_of (notified s), refl)
  shape-Moves (unblocked_stirred s) h =
      inr (completes, (λ e. ground arith), world_of (notified s), refl)
  shape-Moves (notified s) h = inr (relocks, (λ e. ground arith), world_of (over none s), refl)
  shape-Moves (unblocked_finished s) h =
      inr (completes, (λ e. ground arith), world_of (over none s), refl)
  shape-Moves (over c s) h = inl (refl, refl)
  shape-Moves (continued k s) h = inl (refl, refl)

  shape-ends :
      (p : Shape S)
      → Fits I Fresh m p
      → (world_of p).awaiter ≡ finished
      → Over I Fresh m (world_of p).interface.state
        × (destroy (world_of p).interface ≡ some (world_of p).interface)
  unfolding destroy
  shape-ends (at_start c s) h e = absurd (ground arith)
  shape-ends (resumed_first c s) h e = absurd (ground arith)
  shape-ends (about_to_suspend c s) h e = absurd (ground arith)
  shape-ends (stored k s) h e = absurd (ground arith)
  shape-ends (taken k s) h e = absurd (ground arith)
  shape-ends (scheduled k s) h e = absurd (ground arith)
  shape-ends (blocked s) h e = absurd (ground arith)
  shape-ends (stirred s) h e = absurd (ground arith)
  shape-ends (unblocked s) h e = absurd (ground arith)
  shape-ends (unblocked_stirred s) h e = absurd (ground arith)
  shape-ends (notified s) h e = absurd (ground arith)
  shape-ends (unblocked_finished s) h e = (h, refl)
  shape-ends (over c s) h e = (h, refl)
  shape-ends (continued k s) h e = (h, refl)

  -- For an operation that is fresh when it is awaited, and an implementation with the laws of
  -- `Lawful`, in every world that the actions lead to: once `resume` has returned, the awaiter has
  -- not slept through it. If it has yet to arrive, or has finished, the operation's state is what
  -- `on_resume` made; a suspended coroutine's handle was passed to its destination; a thread has
  -- left `cv.wait`, with its flag set.
  pub no_missed_wakeup :
      (caller : Option ℕ) (s : S) {w : World S}
      → Fresh s
      → Reach I m (start I m caller s) w
      → w.resumer ≡ returned
      → Woken I Fresh m w.awaiter w
  no_missed_wakeup caller s h r =
      every_shape (λ w. w.resumer ≡ returned → Woken I Fresh m w.awaiter w) shape-Woken caller s h r

  -- For a fresh operation and a lawful implementation, in every world that the actions lead to,
  -- `to_destination` was called at most once, and then with the handle of the awaiting coroutine.
  pub sent_once :
      (caller : Option ℕ) (s : S) {w : World S}
      → Fresh s
      → Reach I m (start I m caller s) w
      → SentOnce I m w
  sent_once caller s h r = every_shape (SentOnce I m) shape-SentOnce caller s h r

  -- For a fresh operation and a lawful implementation, in every world that the actions lead to,
  -- either the awaiter has finished and `resume` has returned, or one of them can act, and not by a
  -- spurious wakeup.
  pub no_deadlock :
      (caller : Option ℕ) (s : S) {w : World S}
      → Fresh s
      → Reach I m (start I m caller s) w
      → Moves I m w
  no_deadlock caller s h r = every_shape (Moves I m) shape-Moves caller s h r

  -- For a fresh operation and a lawful implementation, an awaiter finishes only after `on_resume`,
  -- and its interface can then be destroyed: it holds no handle and no lock.
  pub finished_lem :
      (caller : Option ℕ) (s : S) {w : World S}
      → Fresh s
      → Reach I m (start I m caller s) w
      → w.awaiter ≡ finished
      → Over I Fresh m w.interface.state × (destroy w.interface ≡ some w.interface)
  finished_lem caller s h r =
      every_shape
        (λ w.
          w.awaiter ≡ finished
          → Over I Fresh m w.interface.state × (destroy w.interface ≡ some w.interface))
        shape-ends caller s h r
