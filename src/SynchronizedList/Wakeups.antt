-- ===== src/SynchronizedList/Wakeups.antt =====
-- One thread that pops from a `synchronized_list` of inc/synchronized_list.hpp, as a worker of
-- inc/blocking.hpp does, and the notifications for it.
use hermesconcurrencyengine.Common.{
  ℕ, zero, suc, ◌+◌, ◌<◌, ◌≡◌, ◌⊎◌, true, false, List, [], ◌∷◌, arith,
}
use hermesconcurrencyengine.SynchronizedList.{
  SynchronizedList, close, emplace_back, emplace_front, pop_round,
}
use hermesconcurrencyengine.SynchronizedList.Schedule.{
  World, Popper, looks, asleep, returned, Action, push_back, push_front, closes, calls, turn,
  notifies, notifies_all, spurious, step, run, start,
}

-- There is one popper; and if it sleeps, a notification is on its way, or the list is empty and open
-- and whoever changes that will notify.
abbrev pub Watched : {A : Type 0} → SynchronizedList A → ℕ → List Popper → Type 0
Watched s n [] = ⊥
Watched s n (asleep ∷ []) = (0 < n) ⊎ ((s.waiting ≡ true) × (s.list ≡ []) × (s.is_closed ≡ false))
Watched s n (looks ∷ []) = Unit {0}
Watched s n (returned ∷ []) = Unit {0}
Watched s n (p ∷ q ∷ ps) = ⊥

abbrev pub NoLostWakeup : {A : Type 0} → World A → Type 0
NoLostWakeup w = Watched w.shared (w.ones + w.alls) w.poppers

module _ {A : Type 0} where
  step-NoLostWakeup : (w : World A) (a : Action A) → NoLostWakeup w → NoLostWakeup (step w a)
  unfolding step emplace_back emplace_front close pop_round
  step-NoLostWakeup w (push_back a) v = ground arith
  step-NoLostWakeup w (push_front a) v = ground arith
  step-NoLostWakeup w closes v = ground arith
  step-NoLostWakeup w (calls zero) v = ground arith
  step-NoLostWakeup w (calls (suc i)) v = ground arith
  step-NoLostWakeup w (turn zero) v = ground arith
  step-NoLostWakeup w (turn (suc i)) v = ground arith
  step-NoLostWakeup w (notifies zero) v = ground arith
  step-NoLostWakeup w (notifies (suc i)) v = ground arith
  step-NoLostWakeup w notifies_all v = ground arith
  step-NoLostWakeup w (spurious zero) v = ground arith
  step-NoLostWakeup w (spurious (suc i)) v = ground arith

  run-NoLostWakeup :
      (acts : List (Action A)) (w : World A) → NoLostWakeup w → NoLostWakeup (run w acts)
  unfolding run
  run-NoLostWakeup [] w v = v
  run-NoLostWakeup (a ∷ acts) w v = run-NoLostWakeup acts (step w a) (step-NoLostWakeup w a v)

  -- With one popping thread, in every schedule from a new list: if the thread sleeps, a
  -- notification is still to come, or the list is empty and open with `waiting_` set.
  pub no_lost_wakeup : (acts : List (Action A)) → NoLostWakeup (run (start (returned ∷ [])) acts)
  unfolding start
  no_lost_wakeup acts = run-NoLostWakeup acts (start (returned ∷ [])) tt
