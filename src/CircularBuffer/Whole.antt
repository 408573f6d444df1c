-- ===== src/CircularBuffer/Whole.antt =====
-- A whole circular buffer of inc/circular_buffer.hpp: moved, and destroyed.
use hermesconcurrencyengine.Common.{
  ◌≡◌, refl, sym, subst, ap₂, some, List, [], ◌∷◌, map, arith, length,
}
use hermesconcurrencyengine.CircularBuffer.{
  CircularBuffer, swap_, move_construct, destroy_loop, destroy,
}
use hermesconcurrencyengine.CircularBuffer.Refine.{
  Holds, front-Holds, pop-Holds, make-Holds, used-length,
}

module _ {A : Type 0} where
  -- A move assignment exchanges what two buffers hold, and a move construction leaves the other
  -- buffer empty.
  pub move-Holds :
      {b rhs : CircularBuffer A} {xs ys : List A}
      → Holds b xs
      → Holds rhs ys
      → (Holds (swap_ b rhs).next ys × Holds (swap_ b rhs).rhs xs)
        × (Holds (move_construct rhs).next ys × Holds (move_construct rhs).rhs [])
  unfolding swap_ move_construct
  move-Holds h g = ((g, h), (g, make-Holds 0 (omega arith)))

  destroy_loop-Holds :
      (xs : List A) {b : CircularBuffer A}
      → Holds b xs
      → let r = destroy_loop (length xs) b in (r.destructed ≡ map some xs) × Holds r.left []
  unfolding destroy_loop
  destroy_loop-Holds [] h = (refl, h)
  destroy_loop-Holds (x ∷ xs) h =
      let (rest, left) = destroy_loop-Holds xs (pop-Holds x xs h) in
      (ap₂ ◌∷◌ (front-Holds x xs h) rest, left)

  -- The destructor destructs exactly the elements that the buffer holds, in order.
  pub destroy-Holds :
      {b : CircularBuffer A} (xs : List A)
      → Holds b xs
      → ((destroy b).destructed ≡ map some xs) × Holds (destroy b).left []
  unfolding destroy
  destroy-Holds {b} xs h =
      subst (λ n. let r = destroy_loop n b in (r.destructed ≡ map some xs) × Holds r.left [])
        (sym (used-length h)) (destroy_loop-Holds xs h)
