-- ===== src/Channel/Buffered/Waiting.antt =====
-- Who waits at a buffered channel of inc/channel.hpp, and what becomes of a send at a closed one.
use hermesconcurrencyengine.Common.{
  ℕ, ◌≡◌, true, Option, none, some, List, [], ◌∷◌, ◌++◌, WhenSome, arith,
}
use hermesconcurrencyengine.Channel.{Op, send, recv, try_send, try_recv, close, Effect, suspended}
use hermesconcurrencyengine.Channel.Log.{
  resumed_senders, resumed_receivers, suspended_sender, suspended_receiver, tasks,
}
use hermesconcurrencyengine.Channel.Bounded
use hermesconcurrencyengine.Channel.Bounded.{Bounded}
use hermesconcurrencyengine.Channel.Bounded.Laws.{Queues, Stranded, step-Queues}
use hermesconcurrencyengine.Channel.Buffered.{Buffered, step, take_front}
use hermesconcurrencyengine.Channel.Buffered.Refine.{
  Implements, SameOutcome, step-SameOutcome, tests_lem,
}

module _ {A : Type 0} where
  -- What a step does to the two queues of parked awaitables.
  pub record Parked (b : Buffered A) (op : Op A) (e : Effect (Buffered A) A) : Type 0 where
    pub senders :
        tasks b.parked_send ++ suspended_sender op e.reply
        ≡ resumed_senders e.resumed ++ tasks e.next.parked_send
    pub receivers :
        b.parked_recv ++ suspended_receiver op e.reply
        ≡ resumed_receivers e.resumed ++ e.next.parked_recv

  carry_over :
      (b : Buffered A) (q : Bounded A) (op : Op A) (o : Option (Effect (Buffered A) A))
      (p : Option (Effect (Bounded A) A))
      → Implements b q
      → SameOutcome o p
      → WhenSome (Queues q op) p
      → WhenSome (Parked b op) o
  carry_over b q op none p i s w = tt
  carry_over b q op (some e) none i s w = elim s [ ]
  carry_over b q op (some e) (some f) i s w = ground (arith, i, s, s.next, w)

  -- A send at a closed channel.
  abbrev pub SendClosed : Buffered A → Op A → Type 0
  SendClosed b (send task a) = b.closed_flag ≡ true
  SendClosed b (recv task) = ⊥
  SendClosed b (try_send a) = ⊥
  SendClosed b try_recv = ⊥
  SendClosed b close = ⊥

  not-Stranded :
      (b : Buffered A) (q : Bounded A) (op : Op A)
      → Implements b q
      → ¬ SendClosed b op
      → ¬ Stranded q op
  not-Stranded b q (send task a) i h s = h (rw i.flag s)
  not-Stranded b q (recv task) i h s = s
  not-Stranded b q (try_send a) i h s = s
  not-Stranded b q try_recv i h s = s
  not-Stranded b q close i h s = s

  -- If a buffered channel stands for a valid bounded queue, an operation that is no send at a
  -- closed channel keeps the order of the waiting tasks: those that waited, and then the one that
  -- it suspends, are those that it resumes and then those that still wait, for senders and for
  -- receivers.
  pub buffered_waiting :
      (b : Buffered A) (q : Bounded A) (op : Op A)
      → Implements b q
      → Bounded.IsValid q
      → ¬ SendClosed b op
      → WhenSome (Parked b op) (step b op)
  buffered_waiting b q op i v h =
      carry_over b q op (step b op) (Bounded.step q op) i (step-SameOutcome b q op i v)
        (step-Queues q op (not-Stranded b q op i h))

  -- At a closed buffered channel that stands for a valid bounded queue, a send suspends its task,
  -- and changes nothing and resumes nobody; and every operation there that is defined resumes
  -- nobody and leaves the channel closed.
  pub stranded_send :
      (b : Buffered A) (q : Bounded A) (task : ℕ) (a : A) (op : Op A)
      → Implements b q
      → Bounded.IsValid q
      → b.closed_flag ≡ true
      → (step b (send task a)
          ≡ some (record { next = b; reply = suspended; written = none; resumed = [] }))
        × WhenSome
            (λ (e : Effect (Buffered A) A). (e.resumed ≡ []) × (e.next.closed_flag ≡ true))
            (step b op)
  unfolding step take_front
  stranded_send b q task a (send task' a') i v c = ground (arith, i, v)
  stranded_send b q task a op i v c = ground (arith, i, v)

  -- At a buffered channel that stands for a valid bounded queue and has a parked receive,
  -- `try_send` is undefined.
  pub try_send_undefined :
      (b : Buffered A) (q : Bounded A) (a : A) (r : ℕ) (rs : List ℕ)
      → Implements b q
      → Bounded.IsValid q
      → b.parked_recv ≡ r ∷ rs
      → step b (try_send a) ≡ none
  unfolding step
  try_send_undefined b q a r rs i v waits = ground (arith, i, v, tests_lem b q i v)
