-- ===== src/Channel/Buffered/Size.antt =====
-- The size of a buffered channel of inc/channel.hpp.
use hermesconcurrencyengine.Common.{ℕ, suc, ◌≡◌, refl, false, WhenSome, arith, if◌then◌else◌, ◌==◌}
use hermesconcurrencyengine.CircularBuffer
use hermesconcurrencyengine.CircularBuffer.Refine
use hermesconcurrencyengine.Channel.{Op, Effect, send, recv, try_send, try_recv, close, Reply}
use hermesconcurrencyengine.Channel.Buffered.{Buffered, make, step, serve_receiver, take_front}

pub size-make : (A : Type 0) (n : ℕ) → (make {A = A} (suc n)).buf.size ≡ suc n
unfolding make
size-make A n = ground (arith, CircularBuffer.Refine.size-make A (suc n))

pub new_fields :
    (A : Type 0) (n : ℕ) → ((make {A = A} n).buf.used ≡ 0) × ((make {A = A} n).closed_flag ≡ false)
unfolding make
new_fields A n = (CircularBuffer.Refine.used-make A (if n == 0 then 1 else n), refl)

module _ {A : Type 0} where
  size-take_front :
      (b : Buffered A) (reply : Reply) → (take_front b reply).next.buf.size ≡ b.buf.size
  unfolding take_front
  size-take_front b reply =
      grind (arith, CircularBuffer.Refine.size-emplace, CircularBuffer.Refine.size-pop)

  size-serve_receiver :
      (b : Buffered A) (reply : Reply) → (serve_receiver b reply).next.buf.size ≡ b.buf.size
  unfolding serve_receiver
  size-serve_receiver b reply = grind (arith, CircularBuffer.Refine.size-pop)

  -- No operation changes the size of the buffer.
  pub size-step :
      (b : Buffered A) (op : Op A)
      → WhenSome (λ (e : Effect (Buffered A) A). e.next.buf.size ≡ b.buf.size) (step b op)
  unfolding step
  size-step b (send task a) = grind (arith, size-serve_receiver, CircularBuffer.Refine.size-emplace)
  size-step b (recv task) = grind (arith, size-take_front)
  size-step b (try_send a) = grind (arith, CircularBuffer.Refine.size-emplace)
  size-step b try_recv = grind (arith, size-take_front)
  size-step b close = grind arith
