-- ===== src/ThreadPool/Placement.antt =====
-- `hce::threadpool::schedule` of inc/threadpool.hpp, and `scheduler::get` and `hce::schedule` of
-- inc/scheduler.hpp: which scheduler gets a coroutine. A pool's schedulers are named by their indices, of
-- which 0 is the global one.
use hermesconcurrencyengine.Common.{
  ℕ, ◌+◌, ◌≤◌, ◌<◌, ◌%◌, Bool, true, false, Option, none, some, ◌≡◌, ◌≢◌, refl, ap, ◌∙◌,
  if◌then◌else◌, ◌==◌, is_same, arith, inl, inr, Bool-cases,
}
use hermesconcurrencyengine.Scheduler
use hermesconcurrencyengine.Scheduler.{Scheduler, halted, scheduled_count}
use hermesconcurrencyengine.Scheduler.Tasks.Joined.{
  queued, accepted, accepts, queued-local, queued-remote,
}
use hermesconcurrencyengine.ThreadPool.{lightest, rotate}
use hermesconcurrencyengine.ThreadPool.Lightest.{lightest_lem, rotate-eq}

-- `here` is the index of the scheduler that the calling thread is in `run()` of, and `start` its
-- `tl_rotatable_start_index`.
pub record Pool : Type 0 where
  pub worker_count : ℕ
  pub scheduler : ℕ → Scheduler
  pub here : Option ℕ
  pub start : ℕ

abbrev pub write : (ℕ → Scheduler) → ℕ → Scheduler → ℕ → Scheduler
write f i s j = if i == j then s else f j

abbrev is_here : Option ℕ → ℕ → Bool
is_here none i = false
is_here (some k) i = k == i

abbrev placed : ℕ → Option Scheduler → Pool → Option Pool
placed i none p = none
placed i (some s) p = some (record p { scheduler = write p.scheduler i s })

-- `schedule_` of the scheduler at this index: `none` is `scheduler_halted_exception`.
unfoldable pub schedule_at : ℕ → ℕ → Pool → Option Pool
schedule_at i h p = elim (is_here p.here i) [
  | true ↦ placed i (some (Scheduler.schedule_local (p.scheduler i) h)) p
  | false ↦ placed i (Scheduler.schedule (p.scheduler i) h) p
]

-- `threadpool::schedule`, by `lightest()`, while no other thread changes the workloads.
unfoldable pub schedule : ℕ → Pool → Option Pool
unfolding schedule_at
schedule h p =
    schedule_at (lightest (λ i. scheduled_count (p.scheduler i)) p.worker_count p.start) h
      (record p { start = rotate p.worker_count p.start })

-- `scheduler::get`: the scheduler of the calling thread, or the global one.
unfoldable pub get : Pool → ℕ
get p = elim p.here [ some i ↦ i | none ↦ 0 ]

-- `hce::schedule`
unfoldable pub schedule_here : ℕ → Pool → Option Pool
unfolding schedule_at get
schedule_here h p = schedule_at (get p) h p

-- The pool after `schedule_` of the scheduler `i` accepted the handle.
abbrev pub IsPlaced : ℕ → ℕ → Pool → Pool → Type 0
IsPlaced i h p q =
    ((g : ℕ) → queued g (q.scheduler i) ≡ is_same g h + queued g (p.scheduler i))
    × ((j : ℕ) → j ≢ i → q.scheduler j ≡ p.scheduler j)
    × (q.start ≡ p.start)

write-IsPlaced :
    (i h : ℕ) (p : Pool) (s : Scheduler)
    → ((g : ℕ) → queued g s ≡ is_same g h + queued g (p.scheduler i))
    → IsPlaced i h p (record p { scheduler = write p.scheduler i s })
write-IsPlaced i h p s k = (λ g. let e = k g in ground (arith, e), λ j n. ground (arith, n), refl)

schedule_at-IsPlaced :
    (i h : ℕ) (p : Pool)
    → (p.scheduler i).state ≢ halted
    → (q : Pool) × (schedule_at i h p ≡ some q) × IsPlaced i h p q
unfolding schedule_at
schedule_at-IsPlaced i h p n = elim (Bool-cases (is_here p.here i)) [
  | inl e ↦ (
    record p { scheduler = write p.scheduler i (Scheduler.schedule_local (p.scheduler i) h) },
    rw (e, schedule_at) refl,
    write-IsPlaced i h p (Scheduler.schedule_local (p.scheduler i) h)
        (λ g. queued-local g h (p.scheduler i)),
  )
  | inr e ↦ (
    record p { scheduler = write p.scheduler i (accepted (p.scheduler i) h) },
    rw (e, schedule_at) (ap (λ o. placed i o p) (accepts (p.scheduler i) h n)),
    write-IsPlaced i h p (accepted (p.scheduler i) h) (λ g. queued-remote g h (p.scheduler i)),
  )
]

-- If no scheduler of the pool is halted, and no other thread changes the workloads meanwhile, then
-- `threadpool::schedule` puts the handle at a scheduler of the pool whose workload is no larger
-- than that of any other, once, and changes no other; and the thread's next search starts at the
-- next index.
pub schedule-IsPlaced :
    (h : ℕ) (p : Pool)
    → p.start < p.worker_count
    → ((i : ℕ) → i < p.worker_count → (p.scheduler i).state ≢ halted)
    → (i : ℕ) × (i < p.worker_count)
      × ((j : ℕ)
          → j < p.worker_count
          → scheduled_count (p.scheduler i) ≤ scheduled_count (p.scheduler j))
      × ((q : Pool) × (schedule h p ≡ some q)
          × ((g : ℕ) → queued g (q.scheduler i) ≡ is_same g h + queued g (p.scheduler i))
          × ((j : ℕ) → j ≢ i → q.scheduler j ≡ p.scheduler j)
          × (q.start ≡ (p.start + 1) % p.worker_count))
unfolding schedule
schedule-IsPlaced h p l n =
    let count = λ (i : ℕ). scheduled_count (p.scheduler i) in
    let i = lightest count p.worker_count p.start in
    let best =
      λ (j : ℕ) (g : j < p.worker_count). lightest_lem count p.worker_count p.start j l g in
    let inside = (best p.start l).0 in
    let (q, e, (has, others, start)) =
      schedule_at-IsPlaced i h (record p { start = rotate p.worker_count p.start }) (n i inside) in
    (
      i,
      inside,
      λ j g. (best j g).1,
      (q, e, has, others, start ∙ rotate-eq p.worker_count p.start l),
    )
