-- ===== src/SynchronizedList/Tests.antt =====
-- Schedules of threads at a list of inc/synchronized_list.hpp.
use hermesconcurrencyengine.Common.{ℕ, ◌≡◌, List, [], ◌∷◌}
use hermesconcurrencyengine.SynchronizedList.Schedule.{
  returned, asleep, Action, push_back, push_front, closes, calls, turn, notifies, run, start,
}
use hermesconcurrencyengine.SynchronizedList.Wakeups.{NoLostWakeup, no_lost_wakeup}
use hermesconcurrencyengine.SynchronizedList.Order.{Deque, run-Deque}
use hermesconcurrencyengine.SynchronizedList.LostWakeup.{after, lost_wakeup}

-- The popper sleeps, is woken, and returns a value; then the list is closed.
abbrev schedule : List (Action ℕ)
schedule =
    calls 0 ∷ turn 0 ∷ push_back 5 ∷ push_front 6 ∷ notifies 0 ∷ turn 0 ∷ closes ∷ push_back 7 ∷ []

no_lost_wakeup_example : NoLostWakeup (run (start (returned ∷ [])) schedule)
no_lost_wakeup_example = no_lost_wakeup schedule

run-Deque_example :
    let w = run (start (returned ∷ returned ∷ [])) schedule in Deque w.history w.shared.list
run-Deque_example = run-Deque (returned ∷ returned ∷ []) schedule

lost_wakeup_example :
    ((after {A = ℕ} 5 6).shared.list ≡ 6 ∷ [])
    × ((run (after {A = ℕ} 5 6) (push_back 7 ∷ closes ∷ [])).poppers ≡ returned ∷ asleep ∷ [])
lost_wakeup_example = lost_wakeup 5 6 (push_back 7 ∷ closes ∷ []) (tt, (tt, tt))
