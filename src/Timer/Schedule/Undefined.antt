-- ===== src/Timer/Schedule/Undefined.antt =====
-- The busy wait of `run()` of inc/timer.hpp, whose loop reads the front of the timers after another
-- thread may have cancelled the last one.
use hermesconcurrencyengine.Common.{ℕ, ◌≡◌, ◌≢◌, refl, ap, ◌∙◌, Bool, true, false, some, [], ◌∷◌}
use hermesconcurrencyengine.Timer.{Timer, Thresholds, Cancelled, cancel}
use hermesconcurrencyengine.Timer.Cancel.{cancel_first}
use hermesconcurrencyengine.Timer.Schedule.{
  World, polls, Action, undefined_read, notified, cancelled_by, cancels, runs, step, run,
  run_thread,
}

notified-polls : (waiting : Bool) (timeout : ℕ) → notified waiting (polls timeout) ≡ polls timeout
notified-polls true timeout = refl
notified-polls false timeout = refl

module _ (algorithm : ℕ → ℕ → ℕ) (h : Thresholds) where
  step-cancels :
      (w : World) (sid : ℕ) (c : Cancelled)
      → cancel 1 w.service sid ≡ some c
      → step algorithm h w (cancels sid) ≡ some (cancelled_by algorithm h w c)
  unfolding step
  step-cancels w sid c e = rw (step, e) refl

  run-two :
      (w v : World) (a b : Action)
      → step algorithm h w a ≡ some v
      → run algorithm h w (a ∷ b ∷ []) ≡ run algorithm h v (b ∷ [])
  unfolding run
  run-two w v a b e = rw (run, e) refl

  -- If the thread spins for a timeout at a running service with one timer, whose sid is set, then a
  -- `cancel` of that timer and the next look of the thread at the timers end in a read of the front
  -- of no timers.
  pub cancelled_while_polling :
      (w : World) (t : Timer) (timeout : ℕ)
      → w.service.running ≡ true
      → w.service.timers ≡ t ∷ []
      → t.sid ≢ 0
      → w.phase ≡ polls timeout
      → (v : World) × (run algorithm h w (cancels t.sid ∷ runs ∷ []) ≡ some v)
        × (v.phase ≡ undefined_read)
  unfolding run step run_thread
  cancelled_while_polling w t timeout on single set spinning =
      let c : Cancelled = record {
        next = record w.service { waiting = false; timers = [] };
        result = true;
        resumed = t.awt ∷ [];
      } in
      let first = step-cancels w t.sid c (cancel_first 0 w.service t [] on single set) in
      let v = cancelled_by algorithm h w c in
      let still : v.phase ≡ polls timeout =
        ap (notified w.service.waiting) spinning ∙ notified-polls w.service.waiting timeout in
      (
        record v { phase = undefined_read },
        run-two w v (cancels t.sid) runs first ∙ ap (λ p. some (run_thread algorithm h p v)) still,
        refl,
      )
