-- ===== src/Timer/Order.antt =====
-- The order of the timers of inc/timer.hpp, and those that are due.
use hermesconcurrencyengine.Common.{
  ℕ, suc, ◌+◌, ◌<◌, ◌≤◌, ◌≡◌, inl, inr, refl, List, [], ◌∷◌, ◌++◌, All, arith, leb, if◌then◌else◌,
  ◌==◌, Bool-cases,
}
use hermesconcurrencyengine.Timer.{Timer, Service, insert, sort, start, take_due}

-- In the order of the timeouts.
abbrev pub IsSorted : List Timer → Type 0
IsSorted [] = Unit {0}
IsSorted (t ∷ ts) = All (λ (u : Timer). t.timeout ≤ u.timeout) ts × IsSorted ts

-- How often a timer with this awaitable is listed.
abbrev pub count : ℕ → List Timer → ℕ
count a [] = 0
count a (t ∷ ts) = (if t.awt == a then 1 else 0) + count a ts

insert-All :
    (n : ℕ) (t : Timer) (ts : List Timer)
    → n ≤ t.timeout
    → All (λ (u : Timer). n ≤ u.timeout) ts
    → All (λ (u : Timer). n ≤ u.timeout) (insert t ts)
unfolding insert
insert-All n t [] h v = (h, tt)
insert-All n t (u ∷ us) h v = ground (arith, insert-All n t us h v.1)

pub All-weaken :
    (m n : ℕ) (ts : List Timer)
    → m ≤ n
    → All (λ (u : Timer). n ≤ u.timeout) ts
    → All (λ (u : Timer). m ≤ u.timeout) ts
All-weaken m n [] h v = tt
All-weaken m n (t ∷ ts) h v = (omega (arith, v.0), All-weaken m n ts h v.1)

insert-IsSorted : (t : Timer) (ts : List Timer) → IsSorted ts → IsSorted (insert t ts)
unfolding insert
insert-IsSorted t [] v = (tt, tt)
insert-IsSorted t (u ∷ us) v = elim (Bool-cases (leb t.timeout u.timeout)) [
  | inl e ↦ ground (arith, e, v, All-weaken t.timeout u.timeout us)
  | inr e ↦
      ground (arith, e, insert-IsSorted t us v.1, insert-All u.timeout t us (ground (arith, e)) v.0)
]

sort-IsSorted : (ts : List Timer) → IsSorted (sort ts)
unfolding sort
sort-IsSorted [] = tt
sort-IsSorted (t ∷ ts) = insert-IsSorted t (sort ts) (sort-IsSorted ts)

count-insert : (a : ℕ) (t : Timer) (ts : List Timer) → count a (insert t ts) ≡ count a (t ∷ ts)
unfolding insert
count-insert a t [] = refl
count-insert a t (u ∷ us) = elim (Bool-cases (leb t.timeout u.timeout)) [
  | inl e ↦ ground (arith, e)
  | inr e ↦ ground (arith, e, count-insert a t us)
]

count-sort : (a : ℕ) (ts : List Timer) → count a (sort ts) ≡ count a ts
unfolding sort
count-sort a [] = refl
count-sort a (t ∷ ts) = omega (arith, count-insert a t (sort ts), count-sort a ts)

pub count-append : (a : ℕ) (ts us : List Timer) → count a (ts ++ us) ≡ count a ts + count a us
count-append a [] us = omega arith
count-append a (t ∷ ts) us = omega (arith, count-append a ts us)

-- After `start` the timers are in the order of their timeouts, and each awaitable is listed as
-- often as before, the new one once more.
pub start_lem :
    (s : Service) (t : Timer) (a : ℕ)
    → IsSorted (start s t).timers
      × (count a (start s t).timers ≡ count a s.timers + count a (t ∷ []))
unfolding start
start_lem s t a = (
  sort-IsSorted (s.timers ++ t ∷ []),
  omega (arith, count-sort a (s.timers ++ t ∷ []), count-append a s.timers (t ∷ [])),
)

-- Of timers in order, those taken and those left make up the list; those taken are due at `now`,
-- those left are not, and they are in order.
pub take_due_lem :
    (now : ℕ) (ts : List Timer)
    → IsSorted ts
    → let batch = take_due now ts in
      (batch.timed_out ++ batch.rest ≡ ts)
      × All (λ (t : Timer). t.timeout ≤ now) batch.timed_out
      × All (λ (t : Timer). now < t.timeout) batch.rest
      × IsSorted batch.rest
unfolding take_due
take_due_lem now [] v = (refl, tt, tt, tt)
take_due_lem now (t ∷ ts) v = elim (Bool-cases (leb t.timeout now)) [
  | inl e ↦ ground (arith, e, take_due_lem now ts v.1)
  | inr e ↦ ground (arith, e, v, All-weaken (suc now) t.timeout ts)
]
