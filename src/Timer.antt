-- ===== src/Timer.antt =====
-- inc/timer.hpp and src/timer.cpp: `timer::service`, which resumes awaitables at their timeouts. A time
-- point is the count of its clock's ticks, and a duration a count of ticks; where the code compares
-- the difference of two time points with a duration, the earlier point stands on the other side here,
-- which is the same as long as the clock's 64 bits hold them. A `sid` is a number, and 0 one that is
-- not set. The
-- children are about the order of the timers, `cancel`, and the rounds of `run()`.
pub mod Order
pub mod Sleep
pub mod Cancel
pub mod Rounds
pub mod Schedule
mod Tests
use hermesconcurrencyengine.Common.{
  ℕ, zero, suc, ◌+◌, ◌-◌, Bool, true, false, Option, none, some, List, [], ◌∷◌, ◌++◌, if◌then◌else◌,
  ltb, leb, ◌==◌,
}

pub record Timer : Type 0 where
  pub sid : ℕ
  pub timeout : ℕ
  pub awt : ℕ

pub record Service : Type 0 where
  pub running : Bool
  pub waiting : Bool
  pub timers : List Timer

-- `timers_.sort(...)` of a list: stable, by timeout.
unfoldable pub insert : Timer → List Timer → List Timer
insert t [] = t ∷ []
insert t (u ∷ us) = elim (leb t.timeout u.timeout) [ true ↦ t ∷ u ∷ us | false ↦ u ∷ insert t us ]

unfoldable pub sort : List Timer → List Timer
sort [] = []
sort (t ∷ ts) = insert t (sort ts)

-- `start_`, under the lock. The thread of `run` is launched where `running_` was not set.
unfoldable pub start : Service → Timer → Service
start s t = record { running = true; waiting = false; timers = sort (s.timers ++ t ∷ []) }

-- `running(sid)`
pub has_sid : ℕ → List Timer → Bool
has_sid sid [] = false
has_sid sid (t ∷ ts) = if sid == t.sid then true else has_sid sid ts

pub is_running : Service → ℕ → Bool
is_running s sid = if s.running then has_sid sid s.timers else false

-- What `cancel` leaves: the service, its result, and the awaitables that it resumes.
pub record Cancelled : Type 0 where
  pub next : Service
  pub result : Bool
  pub resumed : List ℕ

-- The loop of `cancel`, of at most `rounds` rounds: its body does not move `it`. `none` if the loop
-- has not ended.
unfoldable pub cancel_loop : ℕ → Service → ℕ → List Timer → Option Cancelled
cancel_loop rounds s sid [] = some (record { next = s; result = false; resumed = [] })
cancel_loop zero s sid (t ∷ ts) = none
cancel_loop (suc rounds) s sid (t ∷ ts) = elim (t.sid == sid) [
  | true ↦ some (record {
    next = record s { waiting = false; timers = ts };
    result = true;
    resumed = t.awt ∷ [];
  })
  | false ↦ cancel_loop rounds s sid (t ∷ ts)
]

unfoldable pub cancel : ℕ → Service → ℕ → Option Cancelled
cancel rounds s sid =
    let refused : Option Cancelled = some (record { next = s; result = false; resumed = [] }) in
    let searched = cancel_loop rounds s sid s.timers in
    if sid == 0 then refused else (if s.running then searched else refused)

-- The timers that are due, from the front, and the rest.
pub record Batch : Type 0 where
  pub timed_out : List Timer
  pub rest : List Timer

unfoldable pub take_due : ℕ → List Timer → Batch
take_due now [] = record { timed_out = []; rest = [] }
take_due now (t ∷ ts) =
    let batch = take_due now ts in
    elim (leb t.timeout now) [
      | true ↦ record { timed_out = t ∷ batch.timed_out; rest = batch.rest }
      | false ↦ record { timed_out = []; rest = t ∷ ts }
    ]

-- The thresholds of the configuration.
pub record Thresholds : Type 0 where
  pub busy_wait : ℕ
  pub early_wakeup : ℕ
  pub early_wakeup_long : ℕ

-- `default_timeout_algorithm`, for a timeout that has not passed.
unfoldable pub default_timeout_algorithm : Thresholds → ℕ → ℕ → ℕ
default_timeout_algorithm h now requested =
    if ltb (now + h.early_wakeup_long) requested
    then requested - h.early_wakeup_long
    else (if ltb requested (now + h.early_wakeup)
        then requested - h.busy_wait
        else now + h.early_wakeup)

-- `below_busy_wait_threshold`
unfoldable pub below_busy_wait_threshold : Thresholds → ℕ → ℕ → Bool
below_busy_wait_threshold h now timeout =
    if ltb now timeout then leb timeout (now + h.busy_wait) else false

-- One round of the loop in `run`: it resumes the due timers, spins for the first timeout, sleeps until
-- a time or a notification, or sleeps until a notification.
pub data Round : Type 0 where
  stopped : Round
  fires : List Timer → Service → Round
  spins : ℕ → Round
  sleeps_until : ℕ → Service → Round
  sleeps : Service → Round

-- The sleep until `timeout_algorithm_` says, and at most until the first timeout.
unfoldable pub wake_time : (ℕ → ℕ → ℕ) → ℕ → ℕ → ℕ
wake_time algorithm now timeout =
    if ltb (algorithm now timeout) timeout then algorithm now timeout else timeout

unfoldable pub first_round : (ℕ → ℕ → ℕ) → Thresholds → ℕ → Service → Timer → List Timer → Round
first_round algorithm h now s t ts = elim (leb t.timeout now) [
  | true ↦
      let batch = take_due now (t ∷ ts) in fires batch.timed_out (record s { timers = batch.rest })
  | false ↦ elim (below_busy_wait_threshold h now t.timeout) [
    | true ↦ spins t.timeout
    | false ↦ sleeps_until (wake_time algorithm now t.timeout) (record s { waiting = true })
  ]
]

unfoldable pub round : (ℕ → ℕ → ℕ) → Thresholds → ℕ → Service → Round
round algorithm h now s = elim s.running [
  | false ↦ stopped
  | true ↦ elim s.timers [
    | [] ↦ sleeps (record s { waiting = true })
    | t ∷ ts ↦ first_round algorithm h now s t ts
  ]
]

unfoldable pub awaitables : List Timer → List ℕ
awaitables [] = []
awaitables (t ∷ ts) = t.awt ∷ awaitables ts

-- The end of the service's destructor: the timers left are cancelled, in order.
unfoldable pub destroy : Service → Cancelled
destroy s = record {
  next = record { running = false; waiting = false; timers = [] };
  result = true;
  resumed = awaitables s.timers;
}
