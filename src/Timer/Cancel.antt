-- ===== src/Timer/Cancel.antt =====
-- `cancel` of inc/timer.hpp, whose loop looks at the first timer in every round.
use hermesconcurrencyengine.Common.{
  ℕ, zero, suc, ◌≡◌, ◌≢◌, refl, true, false, none, some, List, [], ◌∷◌, arith,
}
use hermesconcurrencyengine.Timer.{Timer, Service, cancel, cancel_loop, is_running, has_sid}

-- At a running service, `cancel` of the first timer, whose sid is set, ends in its first round; it
-- removes that timer, clears `waiting_`, and resumes its awaitable.
pub cancel_first :
    (rounds : ℕ) (s : Service) (t : Timer) (ts : List Timer)
    → s.running ≡ true
    → s.timers ≡ t ∷ ts
    → t.sid ≢ 0
    → cancel (suc rounds) s t.sid
      ≡ some (record {
        next = record s { waiting = false; timers = ts };
        result = true;
        resumed = t.awt ∷ [];
      })
unfolding cancel cancel_loop
cancel_first rounds s t ts r e h = ground arith

cancel_loop-none :
    (rounds : ℕ) (s : Service) (sid : ℕ) (t : Timer) (ts : List Timer)
    → t.sid ≢ sid
    → cancel_loop rounds s sid (t ∷ ts) ≡ none
unfolding cancel_loop
cancel_loop-none zero s sid t ts h = refl
cancel_loop-none (suc rounds) s sid t ts h = ground (arith, cancel_loop-none rounds s sid t ts h)

-- At a running service, `cancel` of a sid that is set and is not that of the first timer has not
-- ended after any number of rounds; and `running` answers whether one of the other timers has the
-- sid.
pub cancel_hangs :
    (rounds : ℕ) (s : Service) (sid : ℕ) (t : Timer) (ts : List Timer)
    → s.running ≡ true
    → s.timers ≡ t ∷ ts
    → sid ≢ 0
    → t.sid ≢ sid
    → (cancel rounds s sid ≡ none) × (is_running s sid ≡ has_sid sid ts)
unfolding cancel is_running has_sid
cancel_hangs rounds s sid t ts r e h n = ground (arith, cancel_loop-none rounds s sid t ts n)
