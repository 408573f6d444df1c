-- ===== src/ThreadPool/Workers.antt =====
-- The workers that the constructor of inc/threadpool.hpp makes.
use hermesconcurrencyengine.Common.{
  ℕ, zero, suc, ◌+◌, ◌-◌, ◌<◌, ◌≡◌, refl, ap, subst, ◌∷◌, length, get_elem?, some, arith,
}
use hermesconcurrencyengine.ThreadPool.{construct, workers, worker_count}

worker_count-positive : (configured hardware : ℕ) → 0 < worker_count configured hardware
unfolding worker_count
worker_count-positive configured hardware = ground arith

module _ {S : Type 0} where
  length-workers : (make : ℕ → S) (i n : ℕ) → length (workers make i n) ≡ n
  unfolding workers
  length-workers make i zero = refl
  length-workers make i (suc n) = ap suc (length-workers make (i + 1) n)

  get_elem?-workers :
      (make : ℕ → S) (i n j : ℕ) → j < n → get_elem? (workers make i n) j ≡ some (make (i + j))
  unfolding workers
  get_elem?-workers make i zero j h = elim h [ ]
  get_elem?-workers make i (suc n) zero h = ap (λ k. some (make k)) (omega arith)
  get_elem?-workers make i (suc n) (suc j) h =
      subst (λ k. get_elem? (workers make (i + 1) n) j ≡ some (make k)) (omega arith)
        (get_elem?-workers make (i + 1) n j (omega arith))

  own_scheduler :
      (global : S) (make : ℕ → S) (n i : ℕ)
      → 0 < i
      → i < n
      → get_elem? (global ∷ workers make 1 (n - 1)) i ≡ some (make i)
  own_scheduler global make n zero p h = absurd (omega arith)
  own_scheduler global make n (suc i) p h =
      subst (λ k. get_elem? (workers make 1 (n - 1)) i ≡ some (make k)) (omega arith)
        (get_elem?-workers make 1 (n - 1) i (omega arith))

  -- The constructor makes `worker_count` schedulers, at least one; the first is the global one, and
  -- the others are those whose lifecycles are registered.
  pub pool_lem :
      (global : S) (make : ℕ → S) (configured hardware : ℕ)
      → let s = construct global make configured hardware in
        (length s.schedulers ≡ worker_count configured hardware)
        × (0 < worker_count configured hardware)
        × (s.schedulers ≡ global ∷ s.registered)
  unfolding construct
  pool_lem global make configured hardware =
      let positive = worker_count-positive configured hardware in
      (omega (arith, length-workers make 1 (worker_count configured hardware - 1)), positive, refl)

  -- Every index but the first has the scheduler that was made for it.
  pub own_scheduler_lem :
      (global : S) (make : ℕ → S) (configured hardware i : ℕ)
      → 0 < i
      → i < worker_count configured hardware
      → get_elem? (construct global make configured hardware).schedulers i ≡ some (make i)
  unfolding construct
  own_scheduler_lem global make configured hardware i p h =
      own_scheduler global make (worker_count configured hardware) i p h
