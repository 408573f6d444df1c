-- ===== src/Timer/Schedule/Accounts.antt =====
-- Where each timer is, over every run of Schedule.antt.
use hermesconcurrencyengine.Common.{
  ℕ, zero, suc, ◌+◌, ◌≤◌, ◌≡◌, refl, sym, subst, ap, ◌∙◌, ◌⊎◌, inl, inr, Bool, true, false,
  Bool-cases, Option, none, some, Option-cases, List, List-cases, [], ◌∷◌, ◌++◌, All, WhenSome,
  arith, leb, ◌==◌, is_same, if◌then◌else◌, append-nil,
}
use hermesconcurrencyengine.Common
use hermesconcurrencyengine.Timer.{Timer, Thresholds, start, cancel, destroy, awaitables}
use hermesconcurrencyengine.Timer.Order.{IsSorted, count, start_lem, count-append}
use hermesconcurrencyengine.Timer.Schedule.{
  Phase, World, Action, unlaunched, at_top, firing, polls, asleep_until, asleep, undefined_read,
  exited, starts, cancels, passes, runs, wakes, stops, destroys, launch, notified, start_world,
  cancelled_by, destroy_after, step, run,
}
use hermesconcurrencyengine.Timer.Schedule.Phases.{
  in_flight, Heard, Due, Accounts, in_flight-wake, wake-Heard, in_flight-notified, notified-Heard,
  in_flight-start, start-Heard, Due-later, count-start, count-awaitables, IsSorted-tail,
  cancel-cases,
}
use hermesconcurrencyengine.Timer.Schedule.RunThread.{thread-Accounts}

abbrev pub IsAwake : Phase → Type 0
IsAwake unlaunched = Unit {0}
IsAwake at_top = Unit {0}
IsAwake (firing ts) = Unit {0}
IsAwake (polls t) = Unit {0}
IsAwake (asleep_until t) = ⊥
IsAwake asleep = ⊥
IsAwake undefined_read = Unit {0}
IsAwake exited = Unit {0}

abbrev start_phase : Bool → Bool → Phase → Phase
start_phase running waiting p = if running then notified waiting p else launch p

start_phase-IsAwake :
    (running waiting : Bool) (p : Phase) → Heard p waiting → IsAwake (start_phase running waiting p)
start_phase-IsAwake true true unlaunched v = tt
start_phase-IsAwake true true at_top v = tt
start_phase-IsAwake true true (firing ts) v = tt
start_phase-IsAwake true true (polls t) v = tt
start_phase-IsAwake true true (asleep_until t) v = tt
start_phase-IsAwake true true asleep v = tt
start_phase-IsAwake true true undefined_read v = tt
start_phase-IsAwake true true exited v = tt
start_phase-IsAwake true false unlaunched v = tt
start_phase-IsAwake true false at_top v = tt
start_phase-IsAwake true false (firing ts) v = tt
start_phase-IsAwake true false (polls t) v = tt
start_phase-IsAwake true false (asleep_until t) v = absurd (ground arith)
start_phase-IsAwake true false asleep v = absurd (ground arith)
start_phase-IsAwake true false undefined_read v = tt
start_phase-IsAwake true false exited v = tt
start_phase-IsAwake false waiting unlaunched v = tt
start_phase-IsAwake false waiting at_top v = tt
start_phase-IsAwake false waiting (firing ts) v = tt
start_phase-IsAwake false waiting (polls t) v = tt
start_phase-IsAwake false waiting (asleep_until t) v = tt
start_phase-IsAwake false waiting asleep v = tt
start_phase-IsAwake false waiting undefined_read v = tt
start_phase-IsAwake false waiting exited v = tt

module _ (algorithm : ℕ → ℕ → ℕ) (h : Thresholds) where
  start-Accounts :
      (w : World) (t : Timer) → Accounts w → WhenSome Accounts (step algorithm h w (starts t))
  unfolding step start
  start-Accounts w t v =
      let same = in_flight-start w.service.running w.service.waiting w.phase in
      let (ordered, listed) = start_lem w.service t 0 in
      record {
        counted = λ a. omega (arith, v.counted a, count-start w.service t a, ap (count a) same);
        sorted = ordered;
        due = subst (Due w.now) (sym same) v.due;
        not_early = v.not_early;
        heard = start-Heard w.service.running w.service.waiting w.phase v.heard;
      }

  -- An end by `cancel` or the destructor, of timers that stood in the list.
  cancelled_by-Accounts :
      (w : World) (ts : List Timer)
      → IsSorted ts
      → (gone : List Timer) → w.service.timers ≡ gone ++ ts
      → (running : Bool) → Accounts w
      → Accounts (
          cancelled_by algorithm h w (record {
            next = record { running = running; waiting = false; timers = ts };
            result = true;
            resumed = awaitables gone;
          }))
  cancelled_by-Accounts w ts ordered gone parts running v =
      let same = in_flight-notified w.service.waiting w.phase in
      record {
        counted = λ a. omega (
          arith,
          v.counted a,
          ap (count a) parts,
          count-append a gone ts,
          ap (count a) same,
          count-awaitables a gone,
          Common.count-append a (awaitables gone) w.cancelled,
        );
        sorted = ordered;
        due = subst (Due w.now) (sym same) v.due;
        not_early = v.not_early;
        heard = notified-Heard w.service.waiting w.phase v.heard;
      }

  cancel-Accounts :
      (w : World) (sid : ℕ) → Accounts w → WhenSome Accounts (step algorithm h w (cancels sid))
  unfolding step awaitables
  cancel-Accounts w sid v = elim (Option-cases (cancel 1 w.service sid)) [
    | inl hangs ↦ rw (step, hangs) tt
    | inr (c, ends) ↦
        rw (step, ends)
          (elim (cancel-cases w.service sid c ends) [
            | inl kept ↦ subst (λ c. Accounts (cancelled_by algorithm h w c)) (sym kept) v
            | inr (t, ts, more, removed) ↦
                subst (λ c. Accounts (cancelled_by algorithm h w c)) (sym removed)
                  (cancelled_by-Accounts w ts (IsSorted-tail t ts (subst IsSorted more v.sorted))
                    (t ∷ []) more w.service.running v)
          ])
  ]

  destroy-Accounts : (p : Phase) (w : World) → Accounts w → Accounts (destroy_after algorithm h p w)
  unfolding destroy
  destroy-Accounts exited w v =
      cancelled_by-Accounts w [] tt w.service.timers (sym (append-nil w.service.timers)) false v
  destroy-Accounts unlaunched w v =
      cancelled_by-Accounts w [] tt w.service.timers (sym (append-nil w.service.timers)) false v
  destroy-Accounts at_top w v = v
  destroy-Accounts (firing ts) w v = v
  destroy-Accounts (polls t) w v = v
  destroy-Accounts (asleep_until t) w v = v
  destroy-Accounts asleep w v = v
  destroy-Accounts undefined_read w v = v

  step-Accounts : (w : World) (a : Action) → Accounts w → WhenSome Accounts (step algorithm h w a)
  unfolding step
  step-Accounts w (starts t) v = start-Accounts w t v
  step-Accounts w (cancels sid) v = cancel-Accounts w sid v
  step-Accounts w (passes ticks) v = record {
    counted = v.counted;
    sorted = v.sorted;
    due = Due-later w.now ticks (in_flight w.phase) v.due;
    not_early = Due-later w.now ticks w.fired v.not_early;
    heard = v.heard;
  }
  step-Accounts w runs v = thread-Accounts algorithm h w.phase w refl v
  step-Accounts w wakes v = record {
    counted = λ a. omega (arith, v.counted a, ap (count a) (in_flight-wake w.phase));
    sorted = v.sorted;
    due = subst (Due w.now) (sym (in_flight-wake w.phase)) v.due;
    not_early = v.not_early;
    heard = wake-Heard w.phase w.service.waiting;
  }
  step-Accounts w stops v =
      let same = in_flight-notified w.service.waiting w.phase in
      record {
        counted = λ a. omega (arith, v.counted a, ap (count a) same);
        sorted = v.sorted;
        due = subst (Due w.now) (sym same) v.due;
        not_early = v.not_early;
        heard = notified-Heard w.service.waiting w.phase v.heard;
      }
  step-Accounts w destroys v = destroy-Accounts w.phase w v

  run_after-Accounts :
      (o : Option World) (rest : List Action)
      → WhenSome Accounts o
      → ((w : World) → Accounts w → WhenSome Accounts (run algorithm h w rest))
      → WhenSome Accounts (elim o [ none ↦ none | some next ↦ run algorithm h next rest ])
  run_after-Accounts none rest v again = tt
  run_after-Accounts (some w) rest v again = again w v

  run-Accounts :
      (acts : List Action) (w : World) → Accounts w → WhenSome Accounts (run algorithm h w acts)
  unfolding run
  run-Accounts [] w v = v
  run-Accounts (a ∷ rest) w v =
      run_after-Accounts (step algorithm h w a) rest (step-Accounts w a v)
        (λ u. run-Accounts rest u)

  -- In every run from a new service of threads that start and cancel timers, pass time, run the
  -- timer thread, or destroy the service, in which no call hangs: each started awaitable is in the
  -- list, with the thread that is about to resume it, or resumed, together as often as it was
  -- started; the list is in the order of the timeouts; no timer has fired, nor is about to, before
  -- its timeout; and a thread that sleeps has set `waiting_`.
  pub all_accounted :
      (acts : List Action) (now : ℕ) (w : World)
      → run algorithm h (start_world now) acts ≡ some w
      → Accounts w
  unfolding start_world
  all_accounted acts now w e = subst (WhenSome Accounts) e (
      run-Accounts acts (start_world now)
        (record { counted = λ a. refl; sorted = tt; due = tt; not_early = tt; heard = tt }))

  -- After any such run a `start_` leaves the thread of `run()` awake.
  pub start_wakes :
      (acts : List Action) (now : ℕ) (w v : World) (t : Timer)
      → run algorithm h (start_world now) acts ≡ some w
      → step algorithm h w (starts t) ≡ some v
      → IsAwake v.phase
  unfolding step
  start_wakes acts now w v t reached started =
      let accounts = all_accounted acts now w reached in
      let next = start_phase w.service.running w.service.waiting w.phase in
      let went : v.phase ≡ next = ground (arith, started) in
      subst IsAwake (sym went)
        (start_phase-IsAwake w.service.running w.service.waiting w.phase accounts.heard)

  -- No timer is left, and the awaitable of each was resumed as often as it was started.
  abbrev pub AllResumed : ℕ → World → Type 0
  AllResumed a v =
      (v.service.timers ≡ []) × (count a v.fired + Common.count a v.cancelled ≡ count a v.started)

  destroy_after-AllResumed :
      (a : ℕ) (w : World)
      → w.phase ≡ exited
      → Accounts w
      → AllResumed a (destroy_after algorithm h exited w)
  unfolding destroy
  destroy_after-AllResumed a w ended v =
      let end = destroy_after algorithm h exited w in
      let counted = (destroy-Accounts exited w v).counted a in
      let landed : in_flight end.phase ≡ [] =
        in_flight-notified w.service.waiting w.phase ∙ ap in_flight ended in
      (refl, omega (arith, counted, ap (count a) landed))

  -- After any such run, if the thread has returned, the end of the destructor leaves no timer, and
  -- every awaitable was resumed as often as it was started.
  pub destroyed_all :
      (acts : List Action) (now : ℕ) (w v : World) (a : ℕ)
      → run algorithm h (start_world now) acts ≡ some w
      → w.phase ≡ exited
      → step algorithm h w destroys ≡ some v
      → (v.service.timers ≡ []) × (count a v.fired + Common.count a v.cancelled ≡ count a v.started)
  unfolding step
  destroyed_all acts now w v a reached ended destroyed =
      let all = destroy_after-AllResumed a w ended (all_accounted acts now w reached) in
      subst (WhenSome (AllResumed a))
        (ap (λ p. some (destroy_after algorithm h p w)) (sym ended) ∙ destroyed) all
