-- ===== src/Mutex.antt =====
-- inc/mutex.hpp: `hce::mutex`, with the awaitables that wait for it, each named by the number of its
-- task. The header is not part of `hce.hpp`, and names `mce::spinlock` and `std:deque`, so it does not
-- compile as it stands; the model is of what it says.
pub mod Ownership
pub mod UniqueLock
mod Tests
use hermesconcurrencyengine.Common.{ℕ, Bool, true, false, Option, none, some, List, [], ◌∷◌, ◌++◌}

pub record Mutex : Type 0 where
  pub acquired : Bool
  pub blocked_queue : List ℕ

pub record Locked : Type 0 where
  pub result : Bool
  pub next : Mutex

-- The mutex, and the task whose awaitable is resumed.
pub record Unlocked : Type 0 where
  pub next : Mutex
  pub resumed : Option ℕ

unfoldable pub try_lock : Mutex → Locked
try_lock m = elim m.acquired [
  | true ↦ record { result = false; next = m }
  | false ↦ record { result = true; next = record m { acquired = true } }
]

-- `lock_`, which `acquire::on_ready` returns: where it is false, the task is suspended.
unfoldable pub lock_ : ℕ → Mutex → Locked
lock_ task m = elim m.acquired [
  | true ↦ record {
    result = false;
    next = record m { blocked_queue = m.blocked_queue ++ task ∷ [] };
  }
  | false ↦ record { result = true; next = record m { acquired = true } }
]

-- `unlock`: `none` where it throws `already_unlocked_exception`.
unfoldable pub unlock : Mutex → Option Unlocked
unlock m = elim m.acquired [
  | false ↦ none
  | true ↦ elim m.blocked_queue [
    | [] ↦ some (record { next = record m { acquired = false }; resumed = none })
    | w ∷ ws ↦
        some (record { next = record { acquired = false; blocked_queue = ws }; resumed = some w })
  ]
]
