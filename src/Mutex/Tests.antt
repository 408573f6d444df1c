-- ===== src/Mutex/Tests.antt =====
-- A mutex of inc/mutex.hpp that task 1 holds and task 2 waits for.
use hermesconcurrencyengine.Common.{true, false, none, some, [], ◌∷◌, ◌≡◌, refl}
use hermesconcurrencyengine.Mutex.{Mutex, try_lock, unlock}
use hermesconcurrencyengine.Mutex.UniqueLock
use hermesconcurrencyengine.Mutex.UniqueLock.{Mutexes, write, adopts, destroy, released}

abbrev held : Mutex
held = record { acquired = true; blocked_queue = 2 ∷ [] }

abbrev given_up : Mutex
given_up = record { acquired = false; blocked_queue = [] }

-- `unlock` resumes task 2 and leaves the mutex free.
given_to_none :
    (unlock held ≡ some (record { next = given_up; resumed = some 2 }))
    × ((try_lock given_up).result ≡ true)
unfolding unlock try_lock
given_to_none = (refl, refl)

-- Task 1 unlocks by its `unique_lock`, task 2 takes the mutex, and the destructor unlocks it again.
abbrev taken : Mutexes
taken a = record { acquired = true; blocked_queue = [] }

second_unlock :
    destroy (adopts 0) taken
    ≡ released (adopts 0) (write taken 0 (record { acquired = false; blocked_queue = [] })) none
unfolding destroy adopts UniqueLock.unlock unlock
second_unlock = refl
