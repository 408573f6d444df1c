-- ===== src/Mutex/Ownership.antt =====
-- Who may believe to hold the mutex of inc/mutex.hpp.
use hermesconcurrencyengine.Common.{ℕ, true, false, none, some, [], ◌≡◌, arith}
use hermesconcurrencyengine.Mutex.{Mutex, try_lock, lock_, unlock}

-- A free mutex that nobody waits for is taken by `lock_`; until it is unlocked every `try_lock` and
-- `lock_` fails; and `unlock` leaves it as it was.
pub unlock-lock :
    (m : Mutex) (task other : ℕ)
    → m.acquired ≡ false
    → m.blocked_queue ≡ []
    → let taken = lock_ task m in
      (taken.result ≡ true)
      × ((try_lock taken.next).result ≡ false)
      × ((lock_ other taken.next).result ≡ false)
      × (unlock taken.next ≡ some (record { next = m; resumed = none }))
unfolding try_lock lock_ unlock
unlock-lock m task other free alone = ground (arith, free, alone)
