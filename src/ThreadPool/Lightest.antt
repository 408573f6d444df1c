-- ===== src/ThreadPool/Lightest.antt =====
-- The choice that `lightest` of src/threadpool.cpp makes, and where its search starts.
use hermesconcurrencyengine.Common.{
  ℕ, zero, suc, ◌+◌, ◌-◌, ◌%◌, ◌<◌, ◌≤◌, ◌≡◌, refl, ap, arith, ltb, ◌==◌, not, ◌&&◌, Bool-cases,
  inl, inr, sym, ◌∙◌,
}
use native.Mathlib.Nat.{mod-eq_of_lt, mod_self, mod-add-mod, mod-lt}
use hermesconcurrencyengine.ThreadPool.{Search, iterate_workloads, go_round, lightest, rotate}

-- After a loop over the `rounds` indices from `s.index`, of which `j` may be one.
record Found (count : ℕ → ℕ) (n j rounds : ℕ) (s r : Search) : Type 0 where
  in_pool : r.lightest_scheduler < n
  own : r.lightest_workload ≡ count r.lightest_scheduler
  no_worse : r.lightest_workload ≤ s.lightest_workload
  least : s.index ≤ j → j < s.index + rounds → r.lightest_workload ≤ count j

module _ (count : ℕ → ℕ) (n j : ℕ) where
  abbrev better : Search → Search
  better s = record {
    index = s.index + 1;
    lightest_scheduler = s.index;
    lightest_workload = count s.index;
  }

  iterate_workloads-Found :
      (rounds : ℕ) (s : Search)
      → s.index + rounds ≤ n
      → s.lightest_scheduler < n
      → s.lightest_workload ≡ count s.lightest_scheduler
      → Found count n j rounds s (iterate_workloads count rounds s)
  unfolding iterate_workloads
  iterate_workloads-Found zero s h l e = record {
    in_pool = l;
    own = e;
    no_worse = omega arith;
    least = λ a b. omega arith;
  }
  iterate_workloads-Found (suc rounds) s h l e =
      let again = iterate_workloads-Found rounds in
      elim (Bool-cases (count s.index == 0)) [
        | inl z ↦ ground (arith, ap count {x = s.index} {y = j})
        | inr z ↦ elim (Bool-cases (ltb (count s.index) s.lightest_workload)) [
          | inl b ↦ ground (
            arith,
            ap count {x = s.index} {y = j},
            again (better s) (omega arith) (omega arith) refl,
          )
          | inr b ↦ ground (
            arith,
            ap count {x = s.index} {y = j},
            again (record s { index = s.index + 1 }) (omega arith) l e,
          )
        ]
      ]

abbrev first : (ℕ → ℕ) → ℕ → Search
first count start = record {
  index = start + 1;
  lightest_scheduler = start;
  lightest_workload = count start;
}

-- Both loops, the first of them to the end of the pool.
pass :
    (count : ℕ → ℕ) (n j start rounds : ℕ) (s : Search)
    → s.index + rounds ≡ n
    → s.index ≡ start + 1
    → j < n
    → s.lightest_scheduler ≡ start
    → s.lightest_workload ≡ count s.lightest_scheduler
    → let r = go_round count start (iterate_workloads count rounds s) in
      (r.lightest_scheduler < n) × (count r.lightest_scheduler ≤ count j)
pass count n j start rounds s total next g own work =
    let r = iterate_workloads count rounds s in
    let one = iterate_workloads-Found count n j rounds s (omega arith) (omega arith) work in
    let two =
      iterate_workloads-Found count n j start (record r { index = 0 }) (omega arith) one.in_pool
        one.own in
    ground (arith, one, two, ap count {x = start} {y = j}, ap count own)

-- From a start index in the pool, `lightest` returns a scheduler of the pool, and no scheduler of
-- the pool answers with a smaller workload in that call.
pub lightest_lem :
    (count : ℕ → ℕ) (n start j : ℕ)
    → start < n
    → j < n
    → (lightest count n start < n) × (count (lightest count n start) ≤ count j)
unfolding lightest
lightest_lem count n start j h g = elim (Bool-cases (not (count start == 0) && ltb 1 n)) [
  | inl b ↦ ground (
    arith,
    ap count {x = start} {y = j},
    pass count n j start (n - (start + 1)) (first count start) (omega arith) (omega arith)
        (omega arith) (omega arith) refl,
  )
  | inr b ↦ ground (arith, ap count {x = start} {y = j})
]

abbrev pub rotations : ℕ → ℕ → ℕ → ℕ
rotations n zero start = start
rotations n (suc k) start = rotations n k (rotate n start)

pub rotate-eq : (n start : ℕ) → start < n → rotate n start ≡ (start + 1) % n
unfolding rotate
rotate-eq n start h = elim (Bool-cases (ltb start (n - 1))) [
  | inl b ↦ ground (arith, mod-eq_of_lt {n = start + 1} {m = n})
  | inr b ↦ ground (arith, mod_self n, ap (λ x. x % n) {x = start + 1} {y = n})
]

-- From a start index in a pool of `n`, the start index after `k` calls is `start + k` modulo `n`.
pub rotations_lem : (n k start : ℕ) → start < n → rotations n k start ≡ (start + k) % n
rotations_lem n zero start h =
    sym (ap (λ x. x % n) {x = start + 0} {y = start} (omega arith) ∙ mod-eq_of_lt h)
rotations_lem n (suc k) start h =
    rotations_lem n k (rotate n start)
      (omega (arith, rotate-eq n start h, mod-lt (start + 1) {m = n}))
    ∙ ap (λ x. (x + k) % n) (rotate-eq n start h)
    ∙ mod-add-mod (start + 1) n k
    ∙ ap (λ x. x % n) {x = start + 1 + k} {y = start + suc k} (omega arith)
