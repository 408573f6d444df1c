-- ===== src/Awaitable/Protocol/Invariant.antt =====
-- Every action that is taken leads from one shape of Shapes.antt to another.
use hermesconcurrencyengine.Common.{
  ℕ, true, Option, none, some, WhenSome, ◌+◌, arith, ◌≡◌, refl, sym, subst, ap, ◌∙◌,
}
use hermesconcurrencyengine.Awaitable.{
  Implementation, Lawful, make, await_ready, await_suspend, await_block, resume,
}
use hermesconcurrencyengine.Awaitable.Protocol.{
  World, Action, awaits, suspends, spurious, relocks, continues, resumes, completes, start,
  block_round, await_at, suspend_at, wake_at, relock_at, continue_at, resume_at, complete_at, step,
  Reach, here, then_step,
}
use hermesconcurrencyengine.Awaitable.Protocol.Shapes.{
  Shape, Fits, Over, Consistent, ConsistentBelow, rank, world_of, at_start, resumed_first,
  about_to_suspend, stored, taken, scheduled, blocked, stirred, unblocked, unblocked_stirred,
  notified, unblocked_finished, over, continued,
}

-- The actions that a spurious wakeup allows: itself, and the look at the flag after it.
abbrev pub cost : Action → ℕ
cost awaits = 0
cost suspends = 0
cost spurious = 2
cost relocks = 0
cost continues = 0
cost resumes = 0
cost completes = 0

module _ {S M : Type 0} (I : Implementation S M) (Fresh : S → Type 0) (m : M)
    (law : Lawful I Fresh) where
  pub ready-Over : {s : S} → Over I Fresh m s → I.on_ready s ≡ true
  ready-Over (s0, fresh, e) = ap I.on_ready e ∙ law.ready-resume m s0 fresh

  await-Consistent :
      (p : Shape S)
      → Fits I Fresh m p
      → WhenSome (ConsistentBelow I Fresh m (rank p + cost awaits)) (step I m (world_of p) awaits)
  unfolding step await_at await_ready
  await-Consistent (at_start c s) h =
      rw (await_ready, law.ready-fresh s h) (about_to_suspend c s, refl, h, omega arith)
  await-Consistent (resumed_first c s) h =
      rw (await_ready, ready-Over h) (over c s, refl, h, omega arith)
  await-Consistent (about_to_suspend c s) h = tt
  await-Consistent (stored k s) h = tt
  await-Consistent (taken k s) h = tt
  await-Consistent (scheduled k s) h = tt
  await-Consistent (blocked s) h = tt
  await-Consistent (stirred s) h = tt
  await-Consistent (unblocked s) h = tt
  await-Consistent (unblocked_stirred s) h = tt
  await-Consistent (notified s) h = tt
  await-Consistent (unblocked_finished s) h = tt
  await-Consistent (over c s) h = tt
  await-Consistent (continued k s) h = tt

  suspend-Consistent :
      (p : Shape S)
      → Fits I Fresh m p
      → WhenSome
          (ConsistentBelow I Fresh m (rank p + cost suspends))
          (step I m (world_of p) suspends)
  unfolding step suspend_at await_suspend await_block block_round
  suspend-Consistent (at_start c s) h = tt
  suspend-Consistent (resumed_first c s) h = tt
  suspend-Consistent (about_to_suspend none s) h =
      (blocked (I.on_suspend s), refl, law.suspend-Fresh s h, omega arith)
  suspend-Consistent (about_to_suspend (some k) s) h =
      (stored k (I.on_suspend s), refl, law.suspend-Fresh s h, omega arith)
  suspend-Consistent (stored k s) h = tt
  suspend-Consistent (taken k s) h = tt
  suspend-Consistent (scheduled k s) h = tt
  suspend-Consistent (blocked s) h = tt
  suspend-Consistent (stirred s) h = tt
  suspend-Consistent (unblocked s) h = tt
  suspend-Consistent (unblocked_stirred s) h = tt
  suspend-Consistent (notified s) h = tt
  suspend-Consistent (unblocked_finished s) h = tt
  suspend-Consistent (over c s) h = tt
  suspend-Consistent (continued k s) h = tt

  spurious-Consistent :
      (p : Shape S)
      → Fits I Fresh m p
      → WhenSome
          (ConsistentBelow I Fresh m (rank p + cost spurious))
          (step I m (world_of p) spurious)
  unfolding step wake_at
  spurious-Consistent (at_start c s) h = tt
  spurious-Consistent (resumed_first c s) h = tt
  spurious-Consistent (about_to_suspend c s) h = tt
  spurious-Consistent (stored k s) h = tt
  spurious-Consistent (taken k s) h = tt
  spurious-Consistent (scheduled k s) h = tt
  spurious-Consistent (blocked s) h = (stirred s, refl, h, omega arith)
  spurious-Consistent (stirred s) h = tt
  spurious-Consistent (unblocked s) h = (unblocked_stirred s, refl, h, omega arith)
  spurious-Consistent (unblocked_stirred s) h = tt
  spurious-Consistent (notified s) h = tt
  spurious-Consistent (unblocked_finished s) h = tt
  spurious-Consistent (over c s) h = tt
  spurious-Consistent (continued k s) h = tt

  relock-Consistent :
      (p : Shape S)
      → Fits I Fresh m p
      → WhenSome (ConsistentBelow I Fresh m (rank p + cost relocks)) (step I m (world_of p) relocks)
  unfolding step relock_at block_round
  relock-Consistent (at_start c s) h = tt
  relock-Consistent (resumed_first c s) h = tt
  relock-Consistent (about_to_suspend c s) h = tt
  relock-Consistent (stored k s) h = tt
  relock-Consistent (taken k s) h = tt
  relock-Consistent (scheduled k s) h = tt
  relock-Consistent (blocked s) h = tt
  relock-Consistent (stirred s) h = (blocked s, refl, h, omega arith)
  relock-Consistent (unblocked s) h = tt
  relock-Consistent (unblocked_stirred s) h = (unblocked_finished s, refl, h, omega arith)
  relock-Consistent (notified s) h = (over none s, refl, h, omega arith)
  relock-Consistent (unblocked_finished s) h = tt
  relock-Consistent (over c s) h = tt
  relock-Consistent (continued k s) h = tt

  continue-Consistent :
      (p : Shape S)
      → Fits I Fresh m p
      → WhenSome
          (ConsistentBelow I Fresh m (rank p + cost continues))
          (step I m (world_of p) continues)
  unfolding step continue_at
  continue-Consistent (at_start c s) h = tt
  continue-Consistent (resumed_first c s) h = tt
  continue-Consistent (about_to_suspend c s) h = tt
  continue-Consistent (stored k s) h = tt
  continue-Consistent (taken k s) h = tt
  continue-Consistent (scheduled k s) h = (continued k s, refl, h, omega arith)
  continue-Consistent (blocked s) h = tt
  continue-Consistent (stirred s) h = tt
  continue-Consistent (unblocked s) h = tt
  continue-Consistent (unblocked_stirred s) h = tt
  continue-Consistent (notified s) h = tt
  continue-Consistent (unblocked_finished s) h = tt
  continue-Consistent (over c s) h = tt
  continue-Consistent (continued k s) h = tt

  resume-Consistent :
      (p : Shape S)
      → Fits I Fresh m p
      → WhenSome (ConsistentBelow I Fresh m (rank p + cost resumes)) (step I m (world_of p) resumes)
  unfolding step resume_at resume
  resume-Consistent (at_start c s) h =
      (resumed_first c (I.on_resume m s), refl, (s, h, refl), omega arith)
  resume-Consistent (resumed_first c s) h = tt
  resume-Consistent (about_to_suspend c s) h = tt
  resume-Consistent (stored k s) h = (taken k (I.on_resume m s), refl, (s, h, refl), omega arith)
  resume-Consistent (taken k s) h = tt
  resume-Consistent (scheduled k s) h = tt
  resume-Consistent (blocked s) h = (unblocked (I.on_resume m s), refl, (s, h, refl), omega arith)
  resume-Consistent (stirred s) h =
      (unblocked_stirred (I.on_resume m s), refl, (s, h, refl), omega arith)
  resume-Consistent (unblocked s) h = tt
  resume-Consistent (unblocked_stirred s) h = tt
  resume-Consistent (notified s) h = tt
  resume-Consistent (unblocked_finished s) h = tt
  resume-Consistent (over c s) h = tt
  resume-Consistent (continued k s) h = tt

  complete-Consistent :
      (p : Shape S)
      → Fits I Fresh m p
      → WhenSome
          (ConsistentBelow I Fresh m (rank p + cost completes))
          (step I m (world_of p) completes)
  unfolding step complete_at
  complete-Consistent (at_start c s) h = tt
  complete-Consistent (resumed_first c s) h = tt
  complete-Consistent (about_to_suspend c s) h = tt
  complete-Consistent (stored k s) h = tt
  complete-Consistent (taken k s) h = (scheduled k s, refl, h, omega arith)
  complete-Consistent (scheduled k s) h = tt
  complete-Consistent (blocked s) h = tt
  complete-Consistent (stirred s) h = tt
  complete-Consistent (unblocked s) h = (notified s, refl, h, omega arith)
  complete-Consistent (unblocked_stirred s) h = (notified s, refl, h, omega arith)
  complete-Consistent (notified s) h = tt
  complete-Consistent (unblocked_finished s) h = (over none s, refl, h, omega arith)
  complete-Consistent (over c s) h = tt
  complete-Consistent (continued k s) h = tt

  pub step-Consistent :
      (a : Action) (p : Shape S)
      → Fits I Fresh m p
      → WhenSome (ConsistentBelow I Fresh m (rank p + cost a)) (step I m (world_of p) a)
  step-Consistent awaits p h = await-Consistent p h
  step-Consistent suspends p h = suspend-Consistent p h
  step-Consistent spurious p h = spurious-Consistent p h
  step-Consistent relocks p h = relock-Consistent p h
  step-Consistent continues p h = continue-Consistent p h
  step-Consistent resumes p h = resume-Consistent p h
  step-Consistent completes p h = complete-Consistent p h

  forget :
      {n : ℕ} {o : Option (World S)} {w : World S}
      → WhenSome (ConsistentBelow I Fresh m n) o
      → o ≡ some w
      → ConsistentBelow I Fresh m n w
  forget c e = subst (WhenSome (ConsistentBelow I Fresh m _)) e c

  next-Consistent :
      {w : World S} (a : Action) (p : Shape S)
      → Fits I Fresh m p
      → step I m (world_of p) a ≡ some w
      → ConsistentBelow I Fresh m (rank p + cost a) w
  next-Consistent a p fits e = forget (step-Consistent a p fits) e

  act-Consistent :
      {w next : World S} (a : Action)
      → Consistent I Fresh m w
      → step I m w a ≡ some next
      → Consistent I Fresh m next
  act-Consistent a (p, same, fits) e =
      let (q, same_next, fits_next, low) =
        next-Consistent a p fits (ap (λ v. step I m v a) (sym same) ∙ e) in
      (q, same_next, fits_next)

  Reach-Consistent :
      {first w : World S} → Reach I m first w → Consistent I Fresh m first → Consistent I Fresh m w
  Reach-Consistent (here w) c = c
  Reach-Consistent (then_step first w a next r e) c = act-Consistent a (Reach-Consistent r c) e

  -- Every reachable world of an operation that is not ready when it is awaited has one of the shapes.
  pub consistent :
      (caller : Option ℕ) (s : S) {w : World S}
      → Fresh s
      → Reach I m (start I m caller s) w
      → Consistent I Fresh m w
  unfolding start make
  consistent caller s h r = Reach-Consistent r (at_start caller s, refl, h)
