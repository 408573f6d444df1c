-- ===== src/Spinlock.antt =====
-- inc/atomic.hpp: `spinlock` and `lockfree`, and the threads that use a spinlock. A thread is a number,
-- and one `test_and_set` or `clear` of the atomic flag is one step.
pub mod Exclusion
mod Tests
use hermesconcurrencyengine.Common.{ℕ, Bool, true, false, List, [], ◌∷◌, if◌then◌else◌, ◌==◌, not}

-- A thread is in no call and does not hold the lock, is in the loop of `lock`, or holds the lock.
pub data Position : Type 0 where
  outside : Position
  spins : Position
  inside : Position

-- `flag` is `lock_`.
pub record Spinlock : Type 0 where
  pub flag : Bool
  pub position : ℕ → Position

-- What a call returns, with the flag after it.
pub record Tested : Type 0 where
  pub result : Bool
  pub flag : Bool

unfoldable pub test_and_set : Bool → Tested
test_and_set flag = record { result = flag; flag = true }

unfoldable pub try_lock : Bool → Tested
unfolding test_and_set
try_lock flag = record { result = not (test_and_set flag).result; flag = (test_and_set flag).flag }

-- `lockfree::try_lock`
unfoldable pub try_lockfree : Bool → Tested
try_lockfree flag = record { result = true; flag = flag }

-- The constructor, with threads that have not called.
unfoldable pub make : Spinlock
make = record { flag = false; position = λ i. outside }

abbrev pub update : (ℕ → Position) → ℕ → Position → ℕ → Position
update f i p j = if i == j then p else f j

-- A call of `lock`, one round of its loop, `try_lock`, and `unlock`.
pub data Call : Type 0 where
  lock : ℕ → Call
  lock_round : ℕ → Call
  tries : ℕ → Call
  unlock : ℕ → Call

abbrev enter : Spinlock → ℕ → Tested → Spinlock
enter s i t = record {
  flag = t.flag;
  position = if t.result then update s.position i inside else s.position;
}

abbrev lock_from : Position → ℕ → Spinlock → Spinlock
lock_from outside i s = record s { position = update s.position i spins }
lock_from spins i s = s
lock_from inside i s = s

-- The loop goes round while `test_and_set` returns true.
abbrev round_from : Position → ℕ → Spinlock → Spinlock
round_from outside i s = s
round_from spins i s =
    let t = test_and_set s.flag in enter s i (record { result = not t.result; flag = t.flag })
round_from inside i s = s

abbrev try_from : Position → ℕ → Spinlock → Spinlock
try_from outside i s = enter s i (try_lock s.flag)
try_from spins i s = s
try_from inside i s = s

abbrev unlock_from : Position → ℕ → Spinlock → Spinlock
unlock_from outside i s = s
unlock_from spins i s = s
unlock_from inside i s = record { flag = false; position = update s.position i outside }

-- A call that the thread cannot make where it is changes nothing here: a thread unlocks only what it
-- has locked, and does not lock it twice.
unfoldable pub step : Spinlock → Call → Spinlock
unfolding test_and_set try_lock
step s (lock i) = lock_from (s.position i) i s
step s (lock_round i) = round_from (s.position i) i s
step s (tries i) = try_from (s.position i) i s
step s (unlock i) = unlock_from (s.position i) i s

unfoldable pub run : Spinlock → List Call → Spinlock
run s [] = s
run s (c ∷ rest) = run (step s c) rest
