-- ===== src/ThreadPool/Tests.antt =====
-- The choice of src/threadpool.cpp, and the workers of inc/threadpool.hpp, at a pool of three.
use hermesconcurrencyengine.Common.{
  ℕ, zero, suc, ◌+◌, ◌<◌, ◌≤◌, ◌≡◌, ◌≢◌, refl, arith, none, some, [], ◌∷◌, is_same, if◌then◌else◌,
  ◌==◌,
}
use mathlib.Core.Option
use hermesconcurrencyengine.ThreadPool.{lightest, iterate_workloads, rotate}
use hermesconcurrencyengine.ThreadPool.Placement.{Pool, schedule, schedule-IsPlaced}
use hermesconcurrencyengine.Scheduler
use hermesconcurrencyengine.Scheduler.{Scheduler, halted, make, scheduled_count}
use hermesconcurrencyengine.Scheduler.Tasks.Joined.{queued}

-- The workloads 4, 2 and 3, and 3 for any further scheduler.
abbrev workload : ℕ → ℕ
workload zero = 4
workload (suc zero) = 2
workload (suc (suc i)) = 3

lightest-second : lightest workload 3 2 ≡ 1
unfolding lightest iterate_workloads
lightest-second = refl

-- Three new schedulers, of which the first has two coroutines, and a thread of none of them.
abbrev pool : Pool
pool = record {
  worker_count = 3;
  scheduler = λ i. if i == 0 then record make { coroutine_queue = 5 ∷ 6 ∷ [] } else make;
  here = none;
  start = 0;
}

never_halted : (i : ℕ) → i < 3 → (pool.scheduler i).state ≢ halted
unfolding make
never_halted zero l e = cc
never_halted (suc i) l e = ground (arith, e)

schedule-IsPlaced_example :
    (i : ℕ) × (i < 3)
    × ((j : ℕ) → j < 3 → scheduled_count (pool.scheduler i) ≤ scheduled_count (pool.scheduler j))
    × ((q : Pool) × (schedule 9 pool ≡ some q)
        × ((g : ℕ) → queued g (q.scheduler i) ≡ is_same g 9 + queued g (pool.scheduler i))
        × ((j : ℕ) → j ≢ i → q.scheduler j ≡ pool.scheduler j)
        × (q.start ≡ 1))
schedule-IsPlaced_example = schedule-IsPlaced 9 pool (omega arith) never_halted

placed_second :
    (Option.map (λ (q : Pool). (q.scheduler 1).coroutine_queue) (schedule 9 pool)) ≡ some (9 ∷ [])
unfolding schedule lightest iterate_workloads make scheduled_count Scheduler.schedule
    Scheduler.coroutines_notify rotate
placed_second = refl
