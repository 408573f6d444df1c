-- ===== src/ThreadPool.antt =====
-- inc/threadpool.hpp and src/threadpool.cpp: the workers of `threadpool::service`, and `lightest`, the
-- default choice of one of them. A call of `lightest` asks each scheduler for its `scheduled_count()`
-- at most once, so `count i` stands for what scheduler `i` answers in that call.
pub mod Lightest
pub mod Workers
pub mod Placement
mod Tests
use hermesconcurrencyengine.Common.{
  ℕ, zero, suc, ◌+◌, ◌-◌, Bool, true, false, List, [], ◌∷◌, not, ◌&&◌, ltb, ◌==◌, if◌then◌else◌,
}

-- The locals of `lightest`: the loops' index, and the best scheduler so far with its workload.
pub record Search : Type 0 where
  pub index : ℕ
  pub lightest_scheduler : ℕ
  pub lightest_workload : ℕ

-- `iterate_workloads` with `rounds` indices left before its limit.
pub iterate_workloads : (ℕ → ℕ) → ℕ → Search → Search
iterate_workloads count zero s = s
iterate_workloads count (suc rounds) s = elim (count s.index == 0) [
  | true ↦ record { index = s.index; lightest_scheduler = s.index; lightest_workload = 0 }
  | false ↦ elim (ltb (count s.index) s.lightest_workload) [
    | true ↦ iterate_workloads count rounds (record {
      index = s.index + 1;
      lightest_scheduler = s.index;
      lightest_workload = count s.index;
    })
    | false ↦ iterate_workloads count rounds (record s { index = s.index + 1 })
  ]
]

-- The second loop, over the indices before the start, unless a scheduler without work was found.
abbrev pub go_round : (ℕ → ℕ) → ℕ → Search → Search
go_round count starting_index s = elim (s.lightest_workload == 0) [
  | true ↦ s
  | false ↦ iterate_workloads count starting_index (record s { index = 0 })
]

-- `lightest()` of a pool of `worker_count` schedulers, from the index where this call starts.
pub lightest : (ℕ → ℕ) → ℕ → ℕ → ℕ
lightest count worker_count starting_index =
    elim (not (count starting_index == 0) && ltb 1 worker_count) [
      | true ↦
          (go_round count starting_index (
            iterate_workloads count (worker_count - (starting_index + 1)) (record {
              index = starting_index + 1;
              lightest_scheduler = starting_index;
              lightest_workload = count starting_index;
            }))).lightest_scheduler
      | false ↦ starting_index
    ]

-- The thread's start index for its next call.
pub rotate : ℕ → ℕ → ℕ
rotate worker_count start = if ltb start (worker_count - 1) then start + 1 else 0

pub record Service (S : Type 0) : Type 0 where
  pub schedulers : List S
  -- whose lifecycles were handed to `scheduler::lifecycle::service`, in order
  pub registered : List S

-- The configured count, else that of the CPUs, else 1.
pub worker_count : ℕ → ℕ → ℕ
worker_count configured hardware =
    if configured == 0 then (if hardware == 0 then 1 else hardware) else configured

-- The schedulers that the constructor makes for the indices from `i`.
pub workers : {S : Type 0} → (ℕ → S) → ℕ → ℕ → List S
workers make i zero = []
workers make i (suc n) = make i ∷ workers make (i + 1) n

-- The constructor: the global scheduler, and `make i` for each further worker `i`.
pub construct : {S : Type 0} → S → (ℕ → S) → ℕ → ℕ → Service S
construct global make configured hardware =
    let others = workers make 1 (worker_count configured hardware - 1) in
    record { schedulers = global ∷ others; registered = others }
