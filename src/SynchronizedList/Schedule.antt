-- ===== src/SynchronizedList/Schedule.antt =====
-- Threads at one `synchronized_list` of inc/synchronized_list.hpp: the locked parts of its methods,
-- and the notifications that come after them, in any order.
use hermesconcurrencyengine.Common.{
  ℕ, zero, suc, ◌+◌, ◌-◌, Bool, true, false, List, [], ◌∷◌, set, if◌then◌else◌, ◌==◌, not, ◌||◌,
}
use hermesconcurrencyengine.SynchronizedList.{
  SynchronizedList, nobody, one, everybody, Locked, popped, refused, waits, make, close,
  emplace_back, emplace_front, pop_round,
}

-- A thread that calls `pop`: about to look at the list, asleep in `cv_.wait`, or returned.
pub data Popper : Type 0 where
  looks asleep returned : Popper

-- A value that a push let in at the back or the front, or that `pop` returned.
pub data Passed (A : Type 0) : Type 0 where
  back : A → Passed A
  front : A → Passed A
  popped_value : A → Passed A

pub record World (A : Type 0) : Type 0 where
  pub shared : SynchronizedList A
  -- calls of `notify_one` and `notify_all` that are still to come
  pub ones : ℕ
  pub alls : ℕ
  pub poppers : List Popper
  -- the values that got in and out so far, the last one first
  pub history : List (Passed A)

pub data Action (A : Type 0) : Type 0 where
  push_back : A → Action A
  push_front : A → Action A
  closes : Action A
  -- a popper calls `pop`, or looks at the list and returns or falls asleep
  calls : ℕ → Action A
  turn : ℕ → Action A
  -- a pending `notify_one` wakes this popper; it is lost only if no popper is asleep
  notifies : ℕ → Action A
  notifies_all : Action A
  -- `cv_.wait` may return with no notification
  spurious : ℕ → Action A

abbrev wake : Popper → Popper
wake asleep = looks
wake looks = looks
wake returned = returned

abbrev pub asleep_at : ℕ → List Popper → Bool
asleep_at i [] = false
asleep_at zero (asleep ∷ ps) = true
asleep_at zero (looks ∷ ps) = false
asleep_at zero (returned ∷ ps) = false
asleep_at (suc i) (p ∷ ps) = asleep_at i ps

abbrev pub any_asleep : List Popper → Bool
any_asleep [] = false
any_asleep (asleep ∷ ps) = true
any_asleep (looks ∷ ps) = any_asleep ps
any_asleep (returned ∷ ps) = any_asleep ps

abbrev wake_all : List Popper → List Popper
wake_all [] = []
wake_all (p ∷ ps) = wake p ∷ wake_all ps

-- The popper with this number, if there is one, wakes.
abbrev wake_at : ℕ → List Popper → List Popper
wake_at i [] = []
wake_at zero (p ∷ ps) = wake p ∷ ps
wake_at (suc i) (p ∷ ps) = p ∷ wake_at i ps

-- A call of `pop` by a popper whose last call has returned.
abbrev call : Popper → Popper
call returned = looks
call looks = looks
call asleep = asleep

abbrev call_at : ℕ → List Popper → List Popper
call_at i [] = []
call_at zero (p ∷ ps) = call p ∷ ps
call_at (suc i) (p ∷ ps) = p ∷ call_at i ps

abbrev pub looks_at : ℕ → List Popper → Bool
looks_at i [] = false
looks_at zero (looks ∷ ps) = true
looks_at zero (asleep ∷ ps) = false
looks_at zero (returned ∷ ps) = false
looks_at (suc i) (p ∷ ps) = looks_at i ps

module _ {A : Type 0} where
  -- The state after a locked part, with its notification pending.
  abbrev pend : World A → Locked A → World A
  pend w l = elim l.notify [
    | nobody ↦ record w { shared = l.next }
    | one ↦ record w { shared = l.next; ones = w.ones + 1 }
    | everybody ↦ record w { shared = l.next; alls = w.alls + 1 }
  ]

  abbrev look : World A → ℕ → World A
  look w i = elim (pop_round w.shared) [
    | popped a s ↦ record w {
      shared = s;
      poppers = set w.poppers i returned;
      history = popped_value a ∷ w.history;
    }
    | refused ↦ record w { poppers = set w.poppers i returned }
    | waits s ↦ record w { shared = s; poppers = set w.poppers i asleep }
  ]

  unfoldable pub step : World A → Action A → World A
  step w (push_back a) =
      let l = emplace_back w.shared a in
      record (pend w l) { history = if l.result then back a ∷ w.history else w.history }
  step w (push_front a) =
      let l = emplace_front w.shared a in
      record (pend w l) { history = if l.result then front a ∷ w.history else w.history }
  step w closes = pend w (close w.shared)
  step w (calls i) = record w { poppers = call_at i w.poppers }
  step w (turn i) = if looks_at i w.poppers then look w i else w
  step w (notifies i) =
      if w.ones == 0 || not (asleep_at i w.poppers || not (any_asleep w.poppers))
      then w
      else record w { ones = w.ones - 1; poppers = wake_at i w.poppers }
  step w notifies_all =
      if w.alls == 0 then w else record w { alls = w.alls - 1; poppers = wake_all w.poppers }
  step w (spurious i) = record w { poppers = wake_at i w.poppers }

  unfoldable pub run : World A → List (Action A) → World A
  run w [] = w
  run w (a ∷ rest) = run (step w a) rest

  -- A new list, and threads none of which is in `pop`.
  unfoldable pub start : List Popper → World A
  unfolding make
  start ps = record { shared = make; ones = 0; alls = 0; poppers = ps; history = [] }
