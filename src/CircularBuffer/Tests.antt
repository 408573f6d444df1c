-- ===== src/CircularBuffer/Tests.antt =====
-- Runs of the circular buffer of inc/circular_buffer.hpp, and its theorems at a buffer that goes round
-- its end.
use hermesconcurrencyengine.Common.{ℕ, ◌≡◌, refl, none, some, [], ◌∷◌, arith}
use hermesconcurrencyengine.CircularBuffer.{CircularBuffer, make, front, emplace, pop}
use hermesconcurrencyengine.CircularBuffer.Refine.{Holds}

-- 8 and then 9, with the back gone round.
abbrev wrapped : CircularBuffer ℕ
wrapped = record {
  size = 3;
  used = 2;
  back_idx = 1;
  front_idx = 2;
  slots = some 9 ∷ none ∷ some 8 ∷ [];
}

wrapped-reached : emplace (pop (emplace (pop (emplace (emplace (make 3) 6) 7)) 8)) 9 ≡ wrapped
unfolding make emplace pop
wrapped-reached = refl

wrapped-Holds : Holds wrapped (8 ∷ 9 ∷ [])
wrapped-Holds = record {
  small = omega arith;
  block = refl;
  used_in = omega arith;
  front_in = omega arith;
  back_at = refl;
  contents = refl;
}

wrapped-front : front wrapped ≡ some 8
unfolding front
wrapped-front = refl
