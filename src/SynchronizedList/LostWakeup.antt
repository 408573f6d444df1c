-- ===== src/SynchronizedList/LostWakeup.antt =====
-- Two threads that pop from one `synchronized_list` of inc/synchronized_list.hpp, with one
-- flag `waiting_` for both.
use hermesconcurrencyengine.Common.{◌≡◌, refl, false, List, [], ◌∷◌, All, arith}
use hermesconcurrencyengine.SynchronizedList.{emplace_back, emplace_front, close, pop_round}
use hermesconcurrencyengine.SynchronizedList.Schedule.{
  World, looks, asleep, returned, Action, push_back, push_front, closes, calls, turn, notifies,
  notifies_all, spurious, step, run, start,
}

module _ {A : Type 0} where
  -- Both fall asleep; a value is pushed, and one of them is woken and returns it; another is pushed.
  abbrev pub both_sleep : A → A → List (Action A)
  both_sleep x y = turn 0 ∷ turn 1 ∷ push_back x ∷ notifies 0 ∷ turn 0 ∷ push_back y ∷ []

  abbrev pub after : A → A → World A
  after x y = run (start (looks ∷ looks ∷ [])) (both_sleep x y)

  -- What other threads do: they push, close, and deliver their notifications.
  abbrev pub ByOthers : Action A → Type 0
  ByOthers (push_back a) = Unit {0}
  ByOthers (push_front a) = Unit {0}
  ByOthers closes = Unit {0}
  ByOthers (notifies i) = Unit {0}
  ByOthers notifies_all = Unit {0}
  ByOthers (calls i) = ⊥
  ByOthers (turn i) = ⊥
  ByOthers (spurious i) = ⊥

  record IsStuck (w : World A) : Type 0 where
    unset : w.shared.waiting ≡ false
    no_one : w.ones ≡ 0
    no_all : w.alls ≡ 0
    sleeper : w.poppers ≡ returned ∷ asleep ∷ []

  step-IsStuck : (w : World A) (a : Action A) → ByOthers a → IsStuck w → IsStuck (step w a)
  unfolding step emplace_back emplace_front close
  step-IsStuck w (push_back a) o v = ground arith
  step-IsStuck w (push_front a) o v = ground arith
  step-IsStuck w closes o v = ground arith
  step-IsStuck w (notifies i) o v = ground arith
  step-IsStuck w notifies_all o v = ground arith
  step-IsStuck w (calls i) o v = absurd o
  step-IsStuck w (turn i) o v = absurd o
  step-IsStuck w (spurious i) o v = absurd o

  run-IsStuck :
      (acts : List (Action A)) (w : World A) → All ByOthers acts → IsStuck w → IsStuck (run w acts)
  unfolding run
  run-IsStuck [] w o v = v
  run-IsStuck (a ∷ acts) w o v = run-IsStuck acts (step w a) o.1 (step-IsStuck w a o.0 v)

  after-IsStuck : (x y : A) → IsStuck (after x y)
  unfolding run step start emplace_back pop_round
  after-IsStuck x y = record { unset = refl; no_one = refl; no_all = refl; sleeper = refl }

  -- With two popping threads asleep, a push wakes one of them, which returns, and a second value is
  -- pushed: then that value is in the list, and after any further pushes, closings and
  -- notifications by other threads the second thread is still asleep.
  pub lost_wakeup :
      (x y : A) (acts : List (Action A))
      → All ByOthers acts
      → ((after x y).shared.list ≡ y ∷ [])
        × ((run (after x y) acts).poppers ≡ returned ∷ asleep ∷ [])
  unfolding run step start emplace_back pop_round
  lost_wakeup x y acts o = (refl, (run-IsStuck acts (after x y) o (after-IsStuck x y)).sleeper)
