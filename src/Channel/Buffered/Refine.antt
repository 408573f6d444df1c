-- ===== src/Channel/Buffered/Refine.antt =====
-- The buffered channel of inc/channel.hpp, over its circular buffer, and the bounded queue of
-- Channel/Bounded.
use hermesconcurrencyengine.Common.{
  ℕ, ◌<◌, ◌≤◌, ◌≡◌, ◌^◌, inl, inr, refl, subst, true, false, Option, none, some, List, [], ◌∷◌,
  ◌++◌, arith, length, List-cases, ltb, not, is_empty, ◌==◌, if◌then◌else◌,
}
use hermesconcurrencyengine.CircularBuffer
use hermesconcurrencyengine.CircularBuffer.Refine.{
  Holds, make-Holds, observers_lem, emplace-Holds, front-Holds, pop-Holds, size-emplace, size-pop,
  size-make,
}
use hermesconcurrencyengine.Channel.{
  Op, send, recv, try_send, try_recv, close, Effect, Reply, ready, tried, success,
}
use hermesconcurrencyengine.Channel.Bounded
use hermesconcurrencyengine.Channel.Bounded.{Bounded, IsValid}
use hermesconcurrencyengine.Channel.Buffered.{Buffered, make, step, serve_receiver, take_front}

module _ {A : Type 0} where
  -- The state of the code that stands for a bounded queue.
  pub record Implements (b : Buffered A) (q : Bounded A) : Type 0 where
    pub buffer : Holds b.buf q.items
    pub capacity : b.buf.size ≡ q.cap
    pub flag : b.closed_flag ≡ q.is_closed
    pub send_queue : b.parked_send ≡ q.senders
    pub recv_queue : b.parked_recv ≡ q.receivers

  -- Equal replies, values and resumptions, and states that correspond again.
  pub record SameEffect (e : Effect (Buffered A) A) (f : Effect (Bounded A) A) : Type 0 where
    pub same_reply : e.reply ≡ f.reply
    pub same_written : e.written ≡ f.written
    pub same_resumed : e.resumed ≡ f.resumed
    pub next : Implements e.next f.next

  abbrev pub SameOutcome : Option (Effect (Buffered A) A) → Option (Effect (Bounded A) A) → Type 0
  SameOutcome none none = Unit {0}
  SameOutcome (some e) (some f) = SameEffect e f
  SameOutcome none (some f) = ⊥
  SameOutcome (some e) none = ⊥

  pub make-Implements :
      (sz : ℕ)
      → sz < 2 ^ 64
      → Implements (make sz) (record {
        cap = if sz == 0 then 1 else sz;
        is_closed = false;
        items = [];
        senders = [];
        receivers = [];
      })
  unfolding make
  make-Implements sz h = record {
    buffer = make-Holds (if sz == 0 then 1 else sz) (ground arith);
    capacity = size-make A (if sz == 0 then 1 else sz);
    flag = refl;
    send_queue = refl;
    recv_queue = refl;
  }

  take_front-SameEffect :
      (b : Buffered A) (q : Bounded A) (a : A) (rest : List A) (reply : Reply)
      → Implements b q
      → q.items ≡ a ∷ rest
      → length q.items ≤ q.cap
      → SameEffect (take_front b reply) (Bounded.hand_out q a rest reply)
  unfolding take_front Bounded.hand_out
  take_front-SameEffect b q a rest reply i e bound = elim (List-cases q.senders) [
    | inl none_waits ↦
        ground (arith, i, held, front-Holds a rest held, pop-Holds a rest held, size-pop b.buf)
    | inr (w, ws, waits) ↦ ground (
      arith,
      i,
      front-Holds a rest held,
      pop-Holds a rest held,
      size-pop b.buf,
      emplace-Holds {b = CircularBuffer.pop b.buf} {xs = rest} w.source (pop-Holds a rest held),
      size-emplace (CircularBuffer.pop b.buf) w.source,
    )
  ]
    where
      held : Holds b.buf (a ∷ rest)
      held = subst (Holds b.buf) e i.buffer

  put-SameEffect :
      (b : Buffered A) (q : Bounded A) (a : A) (reply : Reply)
      → Implements b q
      → IsValid q
      → length q.items < q.cap
      → SameEffect
          (serve_receiver (record b { buf = CircularBuffer.emplace b.buf a }) reply)
          (Bounded.put q a reply)
  unfolding serve_receiver Bounded.put
  put-SameEffect b q a reply i v room = elim (List-cases q.receivers) [
    | inl none_waits ↦ ground (arith, i, grown, size-emplace b.buf a)
    | inr (r, rs, waits) ↦ ground (
      arith,
      i,
      v.empty_recv,
      passed waits,
      size-emplace b.buf a,
      size-pop (CircularBuffer.emplace b.buf a),
    )
  ]
    where
      grown : Holds (CircularBuffer.emplace b.buf a) (q.items ++ a ∷ [])
      grown = emplace-Holds a i.buffer (omega (arith, i.capacity))

      passed :
          {r : ℕ} {rs : List ℕ}
          → q.receivers ≡ r ∷ rs
          → (q.items ≡ [])
            × (CircularBuffer.front (CircularBuffer.emplace b.buf a) ≡ some a)
            × Holds (CircularBuffer.pop (CircularBuffer.emplace b.buf a)) []
      passed waits = elim v.empty_recv [
        | inl e ↦
            let one : Holds (CircularBuffer.emplace b.buf a) (a ∷ []) =
              subst (λ l. Holds (CircularBuffer.emplace b.buf a) (l ++ a ∷ [])) e grown in
            (e, front-Holds a [] one, pop-Holds a [] one)
        | inr e ↦ cc
      ]

  -- The tests of the code are those of the queue.
  pub tests_lem :
      (b : Buffered A) (q : Bounded A)
      → Implements b q
      → IsValid q
      → (CircularBuffer.is_full b.buf ≡ not (ltb (length q.items) q.cap))
        × (CircularBuffer.is_empty b.buf ≡ is_empty q.items)
  tests_lem b q i v = elim (List-cases q.items) [
    | inl e ↦ ground (arith, observers_lem i.buffer, i.capacity, v.bounded)
    | inr (a, rest, e) ↦ ground (arith, observers_lem i.buffer, i.capacity, v.bounded)
  ]

  -- If a buffered channel stands for a valid bounded queue, then every operation gives the reply,
  -- the value and the resumptions that it gives at the queue, and leaves a channel that stands for
  -- the queue's next state; or it is undefined at both.
  pub step-SameOutcome :
      (b : Buffered A) (q : Bounded A) (op : Op A)
      → Implements b q
      → IsValid q
      → SameOutcome (step b op) (Bounded.step q op)
  unfolding step Bounded.step Bounded.put
  step-SameOutcome b q (send task a) i v =
      ground (arith, i, tests_lem b q i v, put-SameEffect b q a (ready true) i v)
  step-SameOutcome b q (recv task) i v = elim (List-cases q.items) [
    | inl e ↦ ground (arith, i, tests_lem b q i v)
    | inr (a, rest, e) ↦
        ground
          (arith, i, tests_lem b q i v, take_front-SameEffect b q a rest (ready true) i e v.bounded)
  ]
  step-SameOutcome b q (try_send a) i v = ground (
    arith,
    i,
    tests_lem b q i v,
    emplace-Holds {b = b.buf} {xs = q.items} a i.buffer,
    size-emplace b.buf a,
  )
  step-SameOutcome b q try_recv i v = elim (List-cases q.items) [
    | inl e ↦ ground (arith, i, tests_lem b q i v)
    | inr (a, rest, e) ↦ ground (
      arith,
      i,
      tests_lem b q i v,
      take_front-SameEffect b q a rest (tried success) i e v.bounded,
    )
  ]
  step-SameOutcome b q close i v = ground (arith, i)
