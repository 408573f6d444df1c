-- ===== src/Blocking.antt =====
-- inc/blocking.hpp: `blocking::service`, which hands out threads for blocking calls and keeps some of
-- them for reuse. A worker is a value of any type; the one that a new thread would be is an argument.
pub mod Workers
pub mod Calls
mod Tests
use hermesconcurrencyengine.Common.{
  ℕ, zero, suc, ◌+◌, Bool, true, false, Option, none, some, List, [], ◌∷◌, add_size, decrement,
}
use hermesconcurrencyengine.CircularBuffer
use hermesconcurrencyengine.CircularBuffer.{CircularBuffer}

pub record Service (W : Type 0) : Type 0 where
  pub worker_active_count : ℕ
  pub worker_cache : CircularBuffer W

-- The worker handed out, or `none` where the front of the cache was raw memory.
pub record Checkout (W : Type 0) : Type 0 where
  pub next : Service W
  pub worker : Option W

-- The workers whose threads a call joins and destroys.
pub record Checkin (W : Type 0) : Type 0 where
  pub next : Service W
  pub discarded : List W

module _ {W : Type 0} where
  pub make : ℕ → Service W
  make cache_size = record {
    worker_active_count = 0;
    worker_cache = CircularBuffer.make cache_size;
  }

  -- `worker_count()`
  pub worker_count : Service W → ℕ
  worker_count s = add_size s.worker_active_count s.worker_cache.used

  unfoldable pub checkout_worker : Service W → W → Checkout W
  checkout_worker s new_worker = elim (CircularBuffer.is_empty s.worker_cache) [
    | true ↦ record {
      next = record s { worker_active_count = add_size s.worker_active_count 1 };
      worker = some new_worker;
    }
    | false ↦ record {
      next = record {
        worker_active_count = add_size s.worker_active_count 1;
        worker_cache = CircularBuffer.pop s.worker_cache;
      };
      worker = CircularBuffer.front s.worker_cache;
    }
  ]

  unfoldable pub checkin_worker : Service W → W → Checkin W
  checkin_worker s w = elim (CircularBuffer.is_full s.worker_cache) [
    | true ↦ record {
      next = record s { worker_active_count = decrement s.worker_active_count };
      discarded = w ∷ [];
    }
    | false ↦ record {
      next = record {
        worker_active_count = decrement s.worker_active_count;
        worker_cache = CircularBuffer.emplace s.worker_cache w;
      };
      discarded = [];
    }
  ]

  -- The loop of `clear_worker_cache`, for the `used()` rounds that it makes.
  pub clear_loop : ℕ → CircularBuffer W → CircularBuffer W
  clear_loop zero b = b
  clear_loop (suc rounds) b = clear_loop rounds (CircularBuffer.pop b)

  pub clear_worker_cache : Service W → Service W
  clear_worker_cache s = record s { worker_cache = clear_loop s.worker_cache.used s.worker_cache }
