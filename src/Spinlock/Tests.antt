-- ===== src/Spinlock/Tests.antt =====
-- Runs of the spinlock of inc/atomic.hpp.
use hermesconcurrencyengine.Common.{true, false, List, [], ◌∷◌, ◌≡◌, refl}
use hermesconcurrencyengine.Spinlock.{make, Call, lock, lock_round, tries, step, run, try_lockfree}
use hermesconcurrencyengine.Spinlock.Exclusion.{IsExclusive, mutual_exclusion}

-- Thread 1 holds the lock, 2 spins, and 3 has failed to take it.
abbrev contended : List Call
contended = lock 1 ∷ lock_round 1 ∷ lock 2 ∷ lock_round 2 ∷ tries 3 ∷ []

contended_flag : (run make contended).flag ≡ true
unfolding run step make
contended_flag = refl

-- `lockfree` lets everyone in.
lockfree_twice : (try_lockfree (try_lockfree false).flag).result ≡ true
unfolding try_lockfree
lockfree_twice = refl

mutual_exclusion_example : IsExclusive (run make contended)
mutual_exclusion_example = mutual_exclusion contended
