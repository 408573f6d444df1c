-- ===== src/Channel/Histories.antt =====
-- Every sequence of operations on a new buffered or unlimited channel of inc/channel.hpp.
use hermesconcurrencyengine.Common.{
  All, ℕ, ◌≡◌, ◌<◌, ◌≤◌, ◌^◌, refl, ap, some, List, [], ◌∷◌, ◌++◌, arith, length, if◌then◌else◌,
  ◌==◌, false,
}
use hermesconcurrencyengine.CircularBuffer.Refine.{to_list, to_list-Holds}
use hermesconcurrencyengine.Channel.{Op}
use hermesconcurrencyengine.Channel.Run.{Trace, run, run_new}
use hermesconcurrencyengine.Channel.Unlimited
use hermesconcurrencyengine.Channel.Unlimited.{Unlimited}
use hermesconcurrencyengine.Channel.Unlimited.Laws as UnlimitedLaws
use hermesconcurrencyengine.Channel.Buffered
use hermesconcurrencyengine.Channel.Buffered.{Buffered}
use hermesconcurrencyengine.Channel.Buffered.Refine.{make-Implements}
use hermesconcurrencyengine.Channel.Delivery.{unlimited_fifo, buffered_fifo, NotTrySend, IsGood}

All-safe : {A : Type 0} (ops : List (Op A)) → All (λ op. Unit {0}) ops
All-safe [] = tt
All-safe (op ∷ ops) = (tt, All-safe ops)

abbrev capacity : ℕ → ℕ
capacity sz = if sz == 0 then 1 else sz

make-IsGood : (A : Type 0) (sz : ℕ) → sz < 2 ^ 64 → IsGood {A = A} (capacity sz) (Buffered.make sz)
make-IsGood A sz h = (
  record { cap = capacity sz; is_closed = false; items = []; senders = []; receivers = [] },
  refl,
  make-Implements sz h,
  ground arith,
)

module _ {A : Type 0} where
  -- Every sequence of operations on a new unlimited channel is defined and leaves a valid channel,
  -- and the values that got in are, in order, those that were handed out and then those in its
  -- queue.
  pub unlimited_history :
      (ops : List (Op A))
      → (t : Trace (Unlimited A) A) × (run (λ u op. some (Unlimited.step u op)) Unlimited.make ops
          ≡ some t)
        × UnlimitedLaws.IsValid t.final
        × (t.accepted ≡ t.delivered ++ t.final.queue)
  unlimited_history ops =
      run_new (unlimited_fifo A) ops Unlimited.make UnlimitedLaws.queue-make
        UnlimitedLaws.make-IsValid (All-safe ops)

  -- On a new buffered channel of a size below 2^64, a sequence of operations other than `try_send`
  -- is defined; the values that got in are, in order, those that were handed out and then those in
  -- the buffer; and the buffer holds at most its size (1 for a size of 0).
  pub buffered_history :
      (sz : ℕ) (ops : List (Op A))
      → sz < 2 ^ 64
      → All NotTrySend ops
      → (t : Trace (Buffered A) A) × (run Buffered.step (Buffered.make sz) ops ≡ some t)
        × (t.accepted ≡ t.delivered ++ to_list t.final.buf)
        × (length (to_list t.final.buf) ≤ capacity sz)
  unfolding make-IsGood
  buffered_history sz ops h safe =
      let g = make-IsGood A sz h in
      let (t, ran, (q, same, i, v), moved) =
        run_new (buffered_fifo A (capacity sz)) ops (Buffered.make sz) (to_list-Holds g.2.buffer) g
          safe in
      (t, ran, moved, omega (arith, ap length (to_list-Holds i.buffer), v.bounded, same))
