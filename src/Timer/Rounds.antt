-- ===== src/Timer/Rounds.antt =====
-- One round of the thread of inc/timer.hpp, on every branch.
use hermesconcurrencyengine.Common.{
  ℕ, suc, ◌<◌, ◌≤◌, ◌≡◌, inl, inr, refl, sym, ◌∙◌, subst, true, false, List, [], ◌∷◌, ◌++◌, All,
  arith, leb, Bool-cases, List-cases,
}
use hermesconcurrencyengine.Timer.{
  Timer, Service, Thresholds, default_timeout_algorithm, below_busy_wait_threshold, wake_time,
  Round, stopped, fires, spins, sleeps_until, sleeps, round, first_round, take_due,
}
use hermesconcurrencyengine.Timer.Order.{IsSorted, All-weaken, take_due_lem}
use hermesconcurrencyengine.Timer.Sleep.{wake_time_lem}

-- What each outcome of a round at `now` promises: the due timers fire, and no others; the thread
-- spins or sleeps only while none is due; and it sleeps for some time, past no timeout, and with
-- `waiting_` set, so that a `start` or `cancel` notifies it.
abbrev pub Promises : ℕ → Service → Round → Type 0
Promises now s stopped = s.running ≡ false
Promises now s (fires due next) =
    (due ++ next.timers ≡ s.timers)
    × All (λ (t : Timer). t.timeout ≤ now) due
    × All (λ (t : Timer). now < t.timeout) next.timers
Promises now s (spins timeout) = All (λ (t : Timer). now < t.timeout) s.timers
Promises now s (sleeps_until wake next) =
    (now < wake)
    × All (λ (t : Timer). wake ≤ t.timeout) s.timers
    × (next.timers ≡ s.timers)
    × (next.waiting ≡ true)
Promises now s (sleeps next) = (s.timers ≡ []) × (next.timers ≡ []) × (next.waiting ≡ true)

first_round-Promises :
    (h : Thresholds) (now : ℕ) (s : Service) (t : Timer) (ts : List Timer)
    → 0 < h.early_wakeup
    → h.busy_wait ≤ h.early_wakeup
    → s.timers ≡ t ∷ ts
    → IsSorted (t ∷ ts)
    → Promises now s (first_round (default_timeout_algorithm h) h now s t ts)
unfolding first_round below_busy_wait_threshold
first_round-Promises h now s t ts e b first v = elim (Bool-cases (leb t.timeout now)) [
  | inl due ↦
      let batch = take_due now (t ∷ ts) in
      let went : first_round (default_timeout_algorithm h) h now s t ts
          ≡ fires batch.timed_out (record s { timers = batch.rest }) =
        ground (arith, due) in
      let taken = take_due_lem now (t ∷ ts) v in
      subst (Promises now s) (sym went) (taken.0 ∙ sym first, taken.1, taken.2)
  | inr early ↦
      let ahead : now < t.timeout = ground (arith, early) in
      let wake = wake_time (default_timeout_algorithm h) now t.timeout in
      elim (Bool-cases (below_busy_wait_threshold h now t.timeout)) [
        | inl near ↦
            let went : first_round (default_timeout_algorithm h) h now s t ts ≡ spins t.timeout =
              ground (arith, early, near) in
            subst (Promises now s) (sym went) (
              subst (All (λ (u : Timer). now < u.timeout)) (sym first)
                (ahead, All-weaken (suc now) t.timeout ts ahead v.0))
        | inr far ↦
            let went : first_round (default_timeout_algorithm h) h now s t ts
                ≡ sleeps_until wake (record s { waiting = true }) =
              ground (arith, early, far) in
            let sleep = wake_time_lem h now t.timeout e b (ground (arith, far, ahead)) in
            subst (Promises now s) (sym went) (
              sleep.0,
              subst (All (λ (u : Timer). wake ≤ u.timeout)) (sym first)
                  (sleep.1, All-weaken wake t.timeout ts sleep.1 v.0),
              refl,
              refl,
            )
      ]
]

-- With the default algorithm, an early wakeup that is positive and no shorter than the busy wait,
-- and timers in order, a round of `run()` at `now` fires exactly the timers that are due; it spins
-- or sleeps until a time only if none is due, sleeps for some time and past no timeout, and sleeps
-- without a limit only if there is no timer; and whenever it sleeps `waiting_` is set.
pub round_lem :
    (h : Thresholds) (now : ℕ) (s : Service)
    → 0 < h.early_wakeup
    → h.busy_wait ≤ h.early_wakeup
    → IsSorted s.timers
    → Promises now s (round (default_timeout_algorithm h) h now s)
unfolding round
round_lem h now s e b v = elim (Bool-cases s.running) [
  | inr off ↦
      let went : round (default_timeout_algorithm h) h now s ≡ stopped = ground (arith, off) in
      subst (Promises now s) (sym went) off
  | inl on ↦ elim (List-cases s.timers) [
    | inl none_left ↦
        let went : round (default_timeout_algorithm h) h now s
            ≡ sleeps (record s { waiting = true }) =
          ground (arith, on, none_left) in
        subst (Promises now s) (sym went) (none_left, none_left, refl)
    | inr (t, ts, first) ↦
        let went : round (default_timeout_algorithm h) h now s
            ≡ first_round (default_timeout_algorithm h) h now s t ts =
          ground (arith, on, first) in
        subst (Promises now s) (sym went)
          (first_round-Promises h now s t ts e b first (subst IsSorted first v))
  ]
]
