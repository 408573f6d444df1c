-- ===== src/Channel/Context.antt =====
-- inc/channel.hpp: `hce::chan<T>`, the handle that hides which implementation it holds.
use hermesconcurrencyengine.Common.{
  zero, suc, ◌<◌, ◌^◌, ◌≡◌, refl, Bool, false, Option, none, some, ℤ, pos, negsuc, to_int, length,
  arith, WhenSome,
}
use hermesconcurrencyengine.Channel.{Op, Effect}
use hermesconcurrencyengine.Channel.Unbuffered
use hermesconcurrencyengine.Channel.Unbuffered.{Unbuffered}
use hermesconcurrencyengine.Channel.Unlimited
use hermesconcurrencyengine.Channel.Unlimited.{Unlimited}
use hermesconcurrencyengine.Channel.Buffered
use hermesconcurrencyengine.Channel.Buffered.{Buffered}
use hermesconcurrencyengine.Channel.Buffered.Size.{size-make, size-step, new_fields}

-- `context_`: the implementation behind the shared pointer.
pub data Context (A : Type 0) : Type 0 where
  unbuffered : Unbuffered A → Context A
  unlimited : Unlimited A → Context A
  buffered : Buffered A → Context A

-- An effect on an implementation, as one on the handle.
abbrev lift : {S A : Type 0} → (S → Context A) → Option (Effect S A) → Option (Effect (Context A) A)
lift f none = none
lift f (some e) =
    some (record { next = f e.next; reply = e.reply; written = e.written; resumed = e.resumed })

module _ {A : Type 0} where
  -- `construct(sz)`
  pub construct : ℤ → Context A
  construct (pos zero) = unbuffered Unbuffered.make
  construct (pos (suc n)) = buffered (Buffered.make (suc n))
  construct (negsuc n) = unlimited Unlimited.make

  pub size : Context A → ℤ
  size (unbuffered u) = pos 0
  size (unlimited u) = negsuc 0
  size (buffered b) = to_int b.buf.size

  pub used : Context A → ℤ
  used (unbuffered u) = pos 0
  used (unlimited u) = to_int (length u.queue)
  used (buffered b) = to_int b.buf.used

  pub closed : Context A → Bool
  closed (unbuffered u) = u.closed_flag
  closed (unlimited u) = u.closed_flag
  closed (buffered b) = b.closed_flag

  pub step : Context A → Op A → Option (Effect (Context A) A)
  step (unbuffered u) op = lift unbuffered (Unbuffered.step u op)
  step (unlimited u) op = lift unlimited (some (Unlimited.step u op))
  step (buffered b) op = lift buffered (Buffered.step b op)

-- The numbers that an `int` holds, and the size that a channel of such a size reports: -1 for every
-- negative one.
abbrev pub IsInt : ℤ → Type 0
IsInt (pos n) = n < 2 ^ 31
IsInt (negsuc n) = n < 2 ^ 31

abbrev pub reported : ℤ → ℤ
reported (pos n) = pos n
reported (negsuc n) = negsuc 0

-- For every `int`, a channel constructed with it is open and empty, and reports it as its size, or
-- -1 if it is negative.
pub construct_lem :
    (A : Type 0) (sz : ℤ)
    → IsInt sz
    → (size (construct {A = A} sz) ≡ reported sz)
      × (used (construct {A = A} sz) ≡ pos 0)
      × (closed (construct {A = A} sz) ≡ false)
unfolding construct size used closed
construct_lem A (pos zero) h = ground (arith, Unbuffered.make-open A)
construct_lem A (pos (suc n)) h = ground (arith, size-make A n, new_fields A (suc n))
construct_lem A (negsuc n) h = ground (arith, Unlimited.make-open A)

size-lift_unbuffered :
    {A : Type 0} (o : Option (Effect (Unbuffered A) A))
    → WhenSome (λ (e : Effect (Context A) A). size e.next ≡ pos 0) (lift unbuffered o)
unfolding size
size-lift_unbuffered none = tt
size-lift_unbuffered (some e) = refl

-- No operation changes the size that a channel reports.
pub size-step-Context :
    {A : Type 0} (c : Context A) (op : Op A)
    → WhenSome (λ (e : Effect (Context A) A). size e.next ≡ size c) (step c op)
unfolding step size
size-step-Context (unbuffered u) op = size-lift_unbuffered (Unbuffered.step u op)
size-step-Context (unlimited u) op = refl
size-step-Context (buffered b) op = ground (arith, size-step b op)
