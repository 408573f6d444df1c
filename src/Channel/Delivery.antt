-- ===== src/Channel/Delivery.antt =====
-- First in, first out for the buffered and unlimited channels of inc/channel.hpp: the laws of
-- `Fifo`, and what they say of every sequence of operations on a new channel.
use hermesconcurrencyengine.Common.{
  ℕ, ◌≡◌, ◌≢◌, refl, ◌∙◌, Option, none, some, ◌++◌, WhenSome, arith,
}
use hermesconcurrencyengine.CircularBuffer.Refine.{to_list, to_list-Holds}
use hermesconcurrencyengine.Channel.{Op, send, recv, try_send, try_recv, close, Effect}
use hermesconcurrencyengine.Channel.Log.{accepted, delivered}
use hermesconcurrencyengine.Channel.Run.{Fifo}
use hermesconcurrencyengine.Channel.Unlimited
use hermesconcurrencyengine.Channel.Unlimited.{Unlimited}
use hermesconcurrencyengine.Channel.Unlimited.Laws as UnlimitedLaws
use hermesconcurrencyengine.Channel.Bounded
use hermesconcurrencyengine.Channel.Bounded.{Bounded}
use hermesconcurrencyengine.Channel.Bounded.Laws.{Keeps, step-Keeps}
use hermesconcurrencyengine.Channel.Buffered
use hermesconcurrencyengine.Channel.Buffered.{Buffered}
use hermesconcurrencyengine.Channel.Buffered.Refine.{
  Implements, SameEffect, SameOutcome, step-SameOutcome,
}

module _ {A : Type 0} where
  -- A `try_send`, which may be undefined at a buffered channel.
  abbrev pub NotTrySend : Op A → Type 0
  NotTrySend (try_send a) = ⊥
  NotTrySend (send task a) = Unit {0}
  NotTrySend (recv task) = Unit {0}
  NotTrySend try_recv = Unit {0}
  NotTrySend close = Unit {0}

module _ (A : Type 0) where
  abbrev pub unlimited_fifo : Fifo (Unlimited A) A
  unlimited_fifo = record {
    step = λ u op. some (Unlimited.step u op);
    stored = λ u. u.queue;
    IsGood = λ u. UnlimitedLaws.IsValid u;
    Safe = λ op. Unit {0};
    keeps = λ u op v safe. (
      Unlimited.step u op,
      refl,
      UnlimitedLaws.step-IsValid u op v,
      UnlimitedLaws.unlimited_queue u op,
    );
  }

module _ {A : Type 0} where
  -- A buffered channel that implements a valid queue of `cap` values.
  abbrev pub IsGood : ℕ → Buffered A → Type 0
  IsGood cap b = (q : Bounded A) × (q.cap ≡ cap) × Implements b q × Bounded.IsValid q

  step-defined : (q : Bounded A) (op : Op A) → NotTrySend op → Bounded.step q op ≢ none
  unfolding Bounded.step
  step-defined q (send task a) h = ground arith
  step-defined q (recv task) h = ground arith
  step-defined q (try_send a) h = absurd h
  step-defined q try_recv h = ground arith
  step-defined q close h = ground arith

  abbrev Kept : ℕ → Buffered A → Op A → Effect (Buffered A) A → Type 0
  Kept cap b op e =
      IsGood cap e.next × (to_list b.buf ++ accepted op e ≡ delivered e ++ to_list e.next.buf)

  -- The laws of the queue, carried over to the code.
  carry_over :
      (b : Buffered A) (q : Bounded A) (op : Op A) (e : Effect (Buffered A) A)
      (f : Effect (Bounded A) A)
      → Implements b q
      → SameEffect e f
      → Keeps q op f
      → Kept q.cap b op e
  carry_over b q op e f i s k = (
    (f.next, k.same_cap, s.next, k.valid),
    ground (arith, to_list-Holds i.buffer, to_list-Holds s.next.buffer, k.moved, s),
  )

  Keeps-of :
      (b : Buffered A) (q : Bounded A) (op : Op A) (o : Option (Effect (Buffered A) A))
      (p : Option (Effect (Bounded A) A))
      → Implements b q
      → SameOutcome o p
      → WhenSome (Keeps q op) p
      → p ≢ none
      → (e : Effect (Buffered A) A) × (o ≡ some e) × Kept q.cap b op e
  Keeps-of b q op o none i s k d = absurd (d refl)
  Keeps-of b q op none (some f) i s k d = elim s [ ]
  Keeps-of b q op (some e) (some f) i s k d = (e, refl, carry_over b q op e f i s k)

  pub keeps_step :
      (n : ℕ) (b : Buffered A) (op : Op A)
      → IsGood n b
      → NotTrySend op
      → (e : Effect (Buffered A) A) × (Buffered.step b op ≡ some e)
        × IsGood n e.next
        × (to_list b.buf ++ accepted op e ≡ delivered e ++ to_list e.next.buf)
  keeps_step n b op (q, same, i, v) safe =
      let (e, stepped, ((q', same', i', v'), moved)) =
        Keeps-of b q op (Buffered.step b op) (Bounded.step q op) i (step-SameOutcome b q op i v)
          (step-Keeps q op v) (step-defined q op safe) in
      (e, stepped, (q', same' ∙ same, i', v'), moved)

module _ (A : Type 0) (cap : ℕ) where
  abbrev pub buffered_fifo : Fifo (Buffered A) A
  buffered_fifo = record {
    step = Buffered.step;
    stored = λ b. to_list b.buf;
    IsGood = IsGood cap;
    Safe = NotTrySend;
    keeps = keeps_step cap;
  }
