-- ===== src/Blocking/Workers.antt =====
-- The workers of inc/blocking.hpp, and their count.
use hermesconcurrencyengine.Common.{
  ◌+◌, ◌<◌, ◌^◌, ◌≡◌, refl, sym, subst, some, List, [], ◌∷◌, ◌++◌, length, arith, if◌then◌else◌,
  ltb, is_empty, inl, inr, Bool-cases, List-cases, length-append,
}
use hermesconcurrencyengine.CircularBuffer
use hermesconcurrencyengine.CircularBuffer.{CircularBuffer}
use hermesconcurrencyengine.CircularBuffer.Refine.{
  Holds, used-length, observers_lem, emplace-Holds, front-pop,
}
use hermesconcurrencyengine.Blocking.{
  Service, worker_count, checkout_worker, checkin_worker, clear_loop, clear_worker_cache,
}

module _ {W : Type 0} where
  abbrev pub first_or : W → List W → W
  first_or w [] = w
  first_or w (x ∷ xs) = x

  abbrev pub rest : List W → List W
  rest [] = []
  rest (x ∷ xs) = xs

  -- The workers that there are, active or cached, are too few for the counts to wrap.
  abbrev pub Few : Service W → List W → Type 0
  Few s xs = s.worker_active_count + length xs + 1 < 2 ^ 64

  -- If the worker cache holds `xs`, and the workers are too few for the counts to wrap,
  -- `checkout_worker_` hands out the first of `xs`, or a new worker where there is none; the cache
  -- then holds the rest, and `worker_count()` grows by one exactly if the worker is new.
  pub checkout_worker_lem :
      (s : Service W) (xs : List W) (w : W)
      → Holds s.worker_cache xs
      → Few s xs
      → let c = checkout_worker s w in
        (c.worker ≡ some (first_or w xs))
        × Holds c.next.worker_cache (rest xs)
        × (worker_count c.next ≡ worker_count s + (if is_empty xs then 1 else 0))
  unfolding checkout_worker worker_count
  checkout_worker_lem s xs w h few = elim (List-cases xs) [
    | inl e ↦ ground (arith, e, h, used-length h, observers_lem h)
    | inr (x, ys, e) ↦
        let held : Holds s.worker_cache (x ∷ ys) = subst (Holds s.worker_cache) e h in
        let popped = front-pop x ys held in
        ground (arith, e, used-length h, observers_lem h, popped, used-length popped.1)
  ]

  -- If the worker cache holds `xs`, some worker is active, and the workers are too few for the
  -- counts to wrap, `checkin_worker_` puts the worker at the end of the cache where that has room,
  -- and discards it where not; and `worker_count()` falls by the count of workers discarded.
  pub checkin_worker_lem :
      (s : Service W) (xs : List W) (w : W)
      → Holds s.worker_cache xs
      → Few s xs
      → 0 < s.worker_active_count
      → let c = checkin_worker s w in
        Holds c.next.worker_cache (if ltb (length xs) s.worker_cache.size then xs ++ w ∷ [] else xs)
        × (c.discarded ≡ (if ltb (length xs) s.worker_cache.size then [] else w ∷ []))
        × (worker_count c.next + length c.discarded ≡ worker_count s)
  unfolding checkin_worker worker_count
  checkin_worker_lem s xs w h few active = elim (Bool-cases (ltb (length xs) s.worker_cache.size)) [
    | inl room ↦
        let grown = emplace-Holds w h (ground (arith, room)) in
        ground (
          arith,
          room,
          h,
          used-length h,
          observers_lem h,
          grown,
          used-length grown,
          length-append xs (w ∷ []),
        )
    | inr full ↦ ground (arith, full, h, used-length h, observers_lem h)
  ]

  clear_loop-Holds :
      (xs : List W) (b : CircularBuffer W) → Holds b xs → Holds (clear_loop (length xs) b) []
  unfolding clear_loop
  clear_loop-Holds [] b h = h
  clear_loop-Holds (x ∷ xs) b h = clear_loop-Holds xs (CircularBuffer.pop b) (front-pop x xs h).1

  -- If the cache holds any workers, `clear_worker_cache` leaves it without any, and the active ones as
  -- they are.
  pub clear_worker_cache_lem :
      (s : Service W) (xs : List W)
      → Holds s.worker_cache xs
      → Holds (clear_worker_cache s).worker_cache []
        × ((clear_worker_cache s).worker_active_count ≡ s.worker_active_count)
  unfolding clear_worker_cache
  clear_worker_cache_lem s xs h = (
    subst (λ n. Holds (clear_loop n s.worker_cache) []) (sym (used-length h))
        (clear_loop-Holds xs s.worker_cache h),
    refl,
  )
