-- ===== src/Timer/Schedule/RunThread.antt =====
-- The steps of the thread of `run()` in Schedule.antt keep the accounts of Phases.antt.
use hermesconcurrencyengine.Common.{
  ℕ, ◌≡◌, refl, sym, subst, ap, ◌∙◌, inl, inr, true, Bool-cases, List, List-cases, [], ◌∷◌, ◌++◌,
  arith, leb,
}
use hermesconcurrencyengine.Timer.{
  Timer, Service, Thresholds, Round, stopped, fires, spins, sleeps_until, sleeps, round,
  first_round, take_due, wake_time, below_busy_wait_threshold,
}
use hermesconcurrencyengine.Timer.Order.{IsSorted, count, take_due_lem, count-append}
use hermesconcurrencyengine.Timer.Schedule.{
  Phase, World, unlaunched, at_top, firing, polls, asleep_until, asleep, undefined_read, exited,
  after_round, poll, run_thread,
}
use hermesconcurrencyengine.Timer.Schedule.Phases.{in_flight, Heard, Due, Accounts}

-- What a round took from the timers, and what it left.
abbrev Took : ℕ → Service → Round → Type 0
Took now s stopped = Unit {0}
Took now s (fires due next) = (due ++ next.timers ≡ s.timers) × Due now due × IsSorted next.timers
Took now s (spins timeout) = Unit {0}
Took now s (sleeps_until t next) = (next.timers ≡ s.timers) × (next.waiting ≡ true)
Took now s (sleeps next) = (next.timers ≡ s.timers) × (next.waiting ≡ true)

module _ (algorithm : ℕ → ℕ → ℕ) (h : Thresholds) where
  first_round-Took :
      (now : ℕ) (s : Service) (t : Timer) (ts : List Timer)
      → s.timers ≡ t ∷ ts
      → IsSorted s.timers
      → Took now s (first_round algorithm h now s t ts)
  unfolding first_round
  first_round-Took now s t ts more v = elim (Bool-cases (leb t.timeout now)) [
    | inl ready ↦
        let batch = take_due now (t ∷ ts) in
        let went : first_round algorithm h now s t ts
            ≡ fires batch.timed_out (record s { timers = batch.rest }) =
          ground (arith, ready) in
        let taken = take_due_lem now (t ∷ ts) (subst IsSorted more v) in
        subst (Took now s) (sym went) (taken.0 ∙ sym more, taken.1, taken.3)
    | inr early ↦ elim (Bool-cases (below_busy_wait_threshold h now t.timeout)) [
      | inl near ↦
          let went : first_round algorithm h now s t ts ≡ spins t.timeout =
            ground (arith, early, near) in
          subst (Took now s) (sym went) tt
      | inr far ↦
          let went : first_round algorithm h now s t ts
              ≡ sleeps_until (wake_time algorithm now t.timeout) (record s { waiting = true }) =
            ground (arith, early, far) in
          subst (Took now s) (sym went) (refl, refl)
    ]
  ]

  round-Took : (now : ℕ) (s : Service) → IsSorted s.timers → Took now s (round algorithm h now s)
  unfolding round first_round below_busy_wait_threshold
  round-Took now s v = elim (Bool-cases s.running) [
    | inl on ↦ elim (List-cases s.timers) [
      | inl empty ↦
          let went : round algorithm h now s ≡ sleeps (record s { waiting = true }) =
            ground (arith, on, empty) in
          subst (Took now s) (sym went) (refl, refl)
      | inr (t, ts, more) ↦
          let went : round algorithm h now s ≡ first_round algorithm h now s t ts =
            ground (arith, on, more) in
          subst (Took now s) (sym went) (first_round-Took now s t ts more v)
    ]
    | inr off ↦
        let went : round algorithm h now s ≡ stopped = ground (arith, off) in
        subst (Took now s) (sym went) tt
  ]

  -- The same accounts, in a phase with no timer in flight.
  idle-Accounts :
      (w : World) (s : Service) (p : Phase)
      → in_flight w.phase ≡ []
      → s.timers ≡ w.service.timers
      → in_flight p ≡ []
      → Heard p s.waiting
      → Accounts w
      → Accounts (record w { service = s; phase = p })
  idle-Accounts w s p none_before same none_after heard v = record {
    counted = λ a.
        omega (
          arith,
          v.counted a,
          ap (count a) none_before,
          ap (count a) same,
          ap (count a) none_after,
        );
    sorted = subst IsSorted (sym same) v.sorted;
    due = subst (Due w.now) (sym none_after) tt;
    not_early = v.not_early;
    heard = heard;
  }

  round-Accounts :
      (w : World) (r : Round)
      → in_flight w.phase ≡ []
      → Took w.now w.service r
      → Accounts w
      → Accounts (after_round algorithm h w r)
  round-Accounts w stopped e took v = idle-Accounts w w.service exited e refl refl tt v
  round-Accounts w (fires due next) e (parts, all_due, sorted) v = record {
    counted = λ a.
        omega
          (arith, v.counted a, ap (count a) e, ap (count a) parts, count-append a due next.timers);
    sorted = sorted;
    due = all_due;
    not_early = v.not_early;
    heard = tt;
  }
  round-Accounts w (spins timeout) e took v =
      idle-Accounts w w.service (polls timeout) e refl refl tt v
  round-Accounts w (sleeps_until t next) e (same, waits) v =
      idle-Accounts w next (asleep_until t) e same refl waits v
  round-Accounts w (sleeps next) e (same, waits) v = idle-Accounts w next asleep e same refl waits v

  poll-Accounts :
      (w : World) (ts : List Timer)
      → in_flight w.phase ≡ []
      → Accounts w
      → Accounts (poll algorithm h w ts)
  poll-Accounts w [] e v = idle-Accounts w w.service undefined_read e refl refl tt v
  poll-Accounts w (t ∷ ts) e v = elim (Bool-cases (below_busy_wait_threshold h w.now t.timeout)) [
    | inl near ↦ rw near (idle-Accounts w w.service (polls t.timeout) e refl refl tt v)
    | inr far ↦ rw far (idle-Accounts w w.service at_top e refl refl tt v)
  ]

  pub thread-Accounts :
      (p : Phase) (w : World) → w.phase ≡ p → Accounts w → Accounts (run_thread algorithm h p w)
  unfolding run_thread
  thread-Accounts unlaunched w e v = v
  thread-Accounts at_top w e v =
      round-Accounts w (round algorithm h w.now w.service) (ap in_flight e)
        (round-Took w.now w.service v.sorted) v
  thread-Accounts (firing []) w e v =
      idle-Accounts w w.service at_top (ap in_flight e) refl refl tt v
  thread-Accounts (firing (t ∷ ts)) w e v =
      let ready = subst (Due w.now) (ap in_flight e) v.due in
      record {
        counted = λ a. omega (arith, v.counted a, ap (λ p. count a (in_flight p)) e);
        sorted = v.sorted;
        due = ready.1;
        not_early = (ready.0, v.not_early);
        heard = tt;
      }
  thread-Accounts (polls timeout) w e v = poll-Accounts w w.service.timers (ap in_flight e) v
  thread-Accounts (asleep_until t) w e v = v
  thread-Accounts asleep w e v = v
  thread-Accounts undefined_read w e v = v
  thread-Accounts exited w e v = v
