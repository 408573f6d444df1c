-- ===== src/Timer/Sleep.antt =====
-- How long the thread of inc/timer.hpp sleeps with the algorithm of src/timer.cpp.
use hermesconcurrencyengine.Common.{
  ℕ, zero, suc, ◌+◌, ◌<◌, ◌≤◌, inl, inr, arith, ltb, if◌then◌else◌, Bool-cases,
}
use hermesconcurrencyengine.Timer.{Thresholds, default_timeout_algorithm, wake_time}

-- Where the first timeout is out of the busy-wait window, the thread sleeps for some time, and not
-- past the window's start, if that lies after a short wakeup.
pub wake_time_lem :
    (h : Thresholds) (now timeout : ℕ)
    → 0 < h.early_wakeup
    → h.busy_wait ≤ h.early_wakeup
    → now + h.busy_wait < timeout
    → let wake = wake_time (default_timeout_algorithm h) now timeout in
      (now < wake) × (wake ≤ timeout)
unfolding wake_time default_timeout_algorithm
wake_time_lem h now timeout e b w = ground arith

-- The thread that wakes exactly when it asked to, until the timeout is in the busy-wait window; at
-- most `fuel` times. `none` if it still sleeps then.
abbrev pub wakes : ℕ → Thresholds → ℕ → ℕ → ℕ
wakes zero h now timeout = now
wakes (suc fuel) h now timeout =
    let wake = wake_time (default_timeout_algorithm h) now timeout in
    let later = wakes fuel h wake timeout in if ltb (now + h.busy_wait) timeout then later else now

-- If the early wakeup is positive and no shorter than the busy wait, a thread that wakes exactly
-- when the default algorithm asks for it comes into the busy-wait window of a timeout without
-- passing it, within as many wakeups as there are ticks to the timeout.
pub wakes_lem :
    (fuel : ℕ) (h : Thresholds) (now timeout : ℕ)
    → 0 < h.early_wakeup
    → h.busy_wait ≤ h.early_wakeup
    → now ≤ timeout
    → timeout ≤ now + fuel
    → let after = wakes fuel h now timeout in (after ≤ timeout) × (timeout ≤ after + h.busy_wait)
wakes_lem zero h now timeout e b le f = omega arith
wakes_lem (suc fuel) h now timeout e b le f = elim (Bool-cases (ltb (now + h.busy_wait) timeout)) [
  | inl w ↦
      let step = wake_time_lem h now timeout e b (ground (arith, w)) in
      let wake = wake_time (default_timeout_algorithm h) now timeout in
      ground (arith, w, wakes_lem fuel h wake timeout e b step.1 (omega (arith, step.0)))
  | inr w ↦ ground (arith, w)
]
