-- ===== src/Mutex/UniqueLock.antt =====
-- inc/mutex.hpp: `hce::unique_lock<hce::mutex>`. A mutex is named by its address in `mutexes`, and the awaitable
-- that `lock` returns by the number of its task.
use hermesconcurrencyengine.Common.{
  ℕ, Bool, true, false, Option, none, some, [], ◌≡◌, if◌then◌else◌, ◌==◌, arith,
}
use hermesconcurrencyengine.Mutex
use hermesconcurrencyengine.Mutex.{Mutex, Locked, Unlocked}

pub record UniqueLock : Type 0 where
  pub lk : Option ℕ
  pub acquired : Bool

abbrev pub Mutexes : Type 0
Mutexes = ℕ → Mutex

abbrev pub write : Mutexes → ℕ → Mutex → Mutexes
write ms a m b = if a == b then m else ms b

-- A call on the mutex: `none` where `lk_` is null.
pub record Called : Type 0 where
  pub lock : UniqueLock
  pub mutexes : Mutexes
  pub result : Bool

-- How `unlock` and the destructor end: `already_unlocked_exception`, which terminates the process where
-- the destructor is left by it; a null `lk_`; or the mutexes, and the task that is resumed.
pub data Released : Type 0 where
  already_unlocked_exception : Released
  null_mutex : Released
  released : UniqueLock → Mutexes → Option ℕ → Released
  terminates : Released

-- The constructors from `std::defer_lock_t` and `std::adopt_lock_t`.
unfoldable pub defers : ℕ → UniqueLock
defers a = record { lk = some a; acquired = false }

unfoldable pub adopts : ℕ → UniqueLock
adopts a = record { lk = some a; acquired = true }

abbrev lock_at : Option ℕ → ℕ → UniqueLock → Mutexes → Option Called
lock_at none task u ms = none
lock_at (some a) task u ms =
    let l = Mutex.lock_ task (ms a) in
    some (record {
      lock = record u { acquired = true };
      mutexes = write ms a l.next;
      result = l.result;
    })

-- `lock`, and `on_ready` of the awaitable that it returns.
unfoldable pub lock : ℕ → UniqueLock → Mutexes → Option Called
lock task u ms = lock_at u.lk task u ms

abbrev try_lock_at : Option ℕ → UniqueLock → Mutexes → Option Called
try_lock_at none u ms = none
try_lock_at (some a) u ms =
    let l = Mutex.try_lock (ms a) in
    some (record { lock = u; mutexes = write ms a l.next; result = l.result })

unfoldable pub try_lock : UniqueLock → Mutexes → Option Called
try_lock u ms = try_lock_at u.lk u ms

abbrev unlocked : Option Unlocked → ℕ → UniqueLock → Mutexes → Released
unlocked none a u ms = already_unlocked_exception
unlocked (some x) a u ms = released u (write ms a x.next) x.resumed

abbrev unlock_at : Option ℕ → UniqueLock → Mutexes → Released
unlock_at none u ms = null_mutex
unlock_at (some a) u ms = unlocked (Mutex.unlock (ms a)) a u ms

unfoldable pub unlock : UniqueLock → Mutexes → Released
unlock u ms = unlock_at u.lk u ms

-- `release`, which returns the pointer.
unfoldable pub release : UniqueLock → UniqueLock
release u = record { lk = none; acquired = false }

unfoldable pub owns_lock : UniqueLock → Bool
owns_lock u = u.acquired

abbrev leave_destructor : Released → Released
leave_destructor already_unlocked_exception = terminates
leave_destructor null_mutex = null_mutex
leave_destructor (released u ms t) = released u ms t
leave_destructor terminates = terminates

-- The destructor.
unfoldable pub destroy : UniqueLock → Mutexes → Released
unfolding unlock
destroy u ms = if u.acquired then leave_destructor (unlock u ms) else released u ms none

-- `make`, once it has the mutex: a lock that adopts it.
unfoldable pub make : ℕ → ℕ → Mutexes → Option Called
unfolding adopts
make task a ms =
    let l = Mutex.lock_ task (ms a) in
    some (record { lock = adopts a; mutexes = write ms a l.next; result = l.result })

-- If a lock that owns a held mutex which nobody waits for unlocks it, then the lock still says that it
-- owns the mutex: if nobody has locked it since, the destructor terminates the process, and if another
-- task has, the destructor unlocks the mutex of that task.
pub destroy-unlock :
    (u : UniqueLock) (ms : Mutexes) (a task : ℕ)
    → u.lk ≡ some a
    → u.acquired ≡ true
    → ms a ≡ record { acquired = true; blocked_queue = [] }
    → let free = write ms a (record { acquired = false; blocked_queue = [] }) in
      let taken = write free a (Mutex.lock_ task (free a)).next in
      (unlock u ms ≡ released u free none)
      × (owns_lock u ≡ true)
      × (destroy u free ≡ terminates)
      × ((Mutex.lock_ task (free a)).result ≡ true)
      × (destroy u taken
          ≡ released u (write taken a (record { acquired = false; blocked_queue = [] })) none)
unfolding unlock destroy owns_lock Mutex.lock_ Mutex.unlock
destroy-unlock u ms a task e o h = ground (arith, e, o, h)

-- A `try_lock` that takes the mutex leaves the lock without it, so that its destructor does not unlock.
pub destroy-try_lock :
    (ms : Mutexes) (a : ℕ)
    → (ms a).acquired ≡ false
    → let taken = write ms a (record (ms a) { acquired = true }) in
      (try_lock (defers a) ms ≡ some (record { lock = defers a; mutexes = taken; result = true }))
      × (destroy (defers a) taken ≡ released (defers a) taken none)
unfolding try_lock destroy defers Mutex.try_lock
destroy-try_lock ms a e = ground (arith, e)
