-- ===== src/SynchronizedList.antt =====
-- inc/synchronized_list.hpp: `synchronized_list<T>`, a queue between system threads. Each function is
-- the part of a method that runs under `lk_`; the notification that a method makes after it has let
-- go of the lock is returned. Schedule interleaves these parts for several threads.
pub mod Schedule
pub mod Wakeups
pub mod Order
pub mod LostWakeup
mod Tests
use hermesconcurrencyengine.Common.{
  ℕ, Bool, true, false, Option, none, some, List, [], ◌∷◌, ◌++◌, length, if◌then◌else◌, is_empty,
}

pub record SynchronizedList (A : Type 0) : Type 0 where
  pub is_closed : Bool
  pub waiting : Bool
  pub list : List A

-- `cv_.notify_one()`, `cv_.notify_all()`, or neither.
pub data Notify : Type 0 where
  nobody one everybody : Notify

-- What a method's locked part leaves: the state, what it returns, and the notification to come.
pub record Locked (A : Type 0) : Type 0 where
  pub next : SynchronizedList A
  pub result : Bool
  pub notify : Notify

-- One round of the loop in `pop`: a value, `false`, or a wait on `cv_`.
pub data Round (A : Type 0) : Type 0 where
  popped : A → SynchronizedList A → Round A
  refused : Round A
  waits : SynchronizedList A → Round A

module _ {A : Type 0} where
  pub make : SynchronizedList A
  make = record { is_closed = false; waiting = false; list = [] }

  pub size : SynchronizedList A → ℕ
  size s = length s.list

  pub close : SynchronizedList A → Locked A
  close s = elim s.is_closed [
    | true ↦ record { next = s; result = true; notify = nobody }
    | false ↦ record {
      next = record s { is_closed = true; waiting = false };
      result = true;
      notify = if s.waiting then everybody else nobody;
    }
  ]

  pub emplace_back : SynchronizedList A → A → Locked A
  emplace_back s a = elim s.is_closed [
    | true ↦ record { next = s; result = false; notify = nobody }
    | false ↦ record {
      next = record s { list = s.list ++ a ∷ []; waiting = false };
      result = true;
      notify = if s.waiting then one else nobody;
    }
  ]

  pub emplace_front : SynchronizedList A → A → Locked A
  emplace_front s a = elim s.is_closed [
    | true ↦ record { next = s; result = false; notify = nobody }
    | false ↦ record {
      next = record s { list = a ∷ s.list; waiting = false };
      result = true;
      notify = if s.waiting then one else nobody;
    }
  ]

  pub pop_round : SynchronizedList A → Round A
  pop_round s = elim s.list [
    | [] ↦ if s.is_closed then refused else waits (record s { waiting = true })
    | a ∷ rest ↦ popped a (record s { list = rest })
  ]
