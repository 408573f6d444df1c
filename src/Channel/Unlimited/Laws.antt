-- ===== src/Channel/Unlimited/Laws.antt =====
-- What the unlimited channel of inc/channel.hpp keeps, moves and resumes.
use hermesconcurrencyengine.Common.{◌≡◌, ◌⊎◌, refl, true, none, [], ◌∷◌, ◌++◌, append-nil, arith}
use hermesconcurrencyengine.Channel.{
  Op, send, recv, try_send, try_recv, close, Effect, Reply, ready, tried, success,
}
use hermesconcurrencyengine.Channel.Log.{
  accepted, delivered, taken, given, resumed_senders, resumed_receivers, suspended_sender,
  suspended_receiver, closed_reply, taken-fail_receivers, given-fail_receivers,
  senders-fail_receivers, receivers-fail_receivers,
}
use hermesconcurrencyengine.Channel.Unlimited.{Unlimited, make, step, serve_receiver}

module _ {A : Type 0} where
  -- A receive parks only at an empty queue of an open channel.
  pub record IsValid (u : Unlimited A) : Type 0 where
    pub drained : (u.queue ≡ []) ⊎ (u.parked_recv ≡ [])
    pub open_recv : u.closed_flag ≡ true → u.parked_recv ≡ []

  pub step-IsValid : (u : Unlimited A) (op : Op A) → IsValid u → IsValid (step u op).next
  unfolding step serve_receiver
  step-IsValid u (send task a) v = ground arith
  step-IsValid u op v = ground arith

  -- What the end of a send does, wherever the queue has a value.
  record Served (u : Unlimited A) (reply : Reply) (e : Effect (Unlimited A) A) : Type 0 where
    replied : e.reply ≡ reply
    own : e.written ≡ none
    none_taken : taken e.resumed ≡ []
    queue : given e.resumed ++ e.next.queue ≡ u.queue
    senders : resumed_senders e.resumed ≡ []
    receivers : resumed_receivers e.resumed ++ e.next.parked_recv ≡ u.parked_recv
    flag : e.next.closed_flag ≡ u.closed_flag

  abbrev sent : Unlimited A → A → Unlimited A
  sent u a = record u { queue = u.queue ++ a ∷ [] }

  serve_receiver_lem : (u : Unlimited A) (reply : Reply) → Served u reply (serve_receiver u reply)
  unfolding serve_receiver
  serve_receiver_lem u reply = ground arith

  -- The queue is first in, first out: what it held and what a step lets in are, in order, what the
  -- step hands out and what it leaves.
  pub unlimited_queue :
      (u : Unlimited A) (op : Op A)
      → u.queue ++ accepted op (step u op) ≡ delivered (step u op) ++ (step u op).next.queue
  unfolding step
  unlimited_queue u (send task a) =
      ground (arith, serve_receiver_lem (sent u a) (ready true), append-nil u.queue)
  unlimited_queue u (recv task) = ground (arith, append-nil u.queue)
  unlimited_queue u (try_send a) =
      ground (arith, serve_receiver_lem (sent u a) (tried success), append-nil u.queue)
  unlimited_queue u try_recv = ground (arith, append-nil u.queue)
  unlimited_queue u close = ground (
    arith,
    append-nil u.queue,
    taken-fail_receivers A u.parked_recv,
    given-fail_receivers A u.parked_recv,
  )

  -- Every operation keeps the order of the waiting receivers: those that waited, and then the one
  -- that it suspends, are those that it resumes and then those that still wait; and it neither
  -- suspends nor resumes a sender.
  pub unlimited_waiting :
      (u : Unlimited A) (op : Op A)
      → let e = step u op in
        (u.parked_recv ++ suspended_receiver op e.reply
          ≡ resumed_receivers e.resumed ++ e.next.parked_recv)
        × (suspended_sender op e.reply ≡ [])
        × (resumed_senders e.resumed ≡ [])
  unfolding step
  unlimited_waiting u (send task a) =
      ground (arith, serve_receiver_lem (sent u a) (ready true), append-nil u.parked_recv)
  unlimited_waiting u (recv task) = ground (arith, append-nil u.parked_recv)
  unlimited_waiting u (try_send a) =
      ground (arith, serve_receiver_lem (sent u a) (tried success), append-nil u.parked_recv)
  unlimited_waiting u try_recv = ground (arith, append-nil u.parked_recv)
  unlimited_waiting u close = ground (
    arith,
    append-nil u.parked_recv,
    senders-fail_receivers A u.parked_recv,
    receivers-fail_receivers A u.parked_recv,
  )

  -- At a closed unlimited channel every operation lets no value in, resumes nobody, and leaves the
  -- channel closed.
  pub unlimited_closed :
      (u : Unlimited A) (op : Op A)
      → u.closed_flag ≡ true
      → let e = step u op in (accepted op e ≡ []) × (e.resumed ≡ []) × (e.next.closed_flag ≡ true)
  unfolding step
  unlimited_closed u (send task a) h = ground arith
  unlimited_closed u op h = ground arith

  -- If its queue is empty as well, it changes nothing and answers at once that the channel is closed.
  unlimited_drained :
      (u : Unlimited A) (op : Op A)
      → u.closed_flag ≡ true
      → u.queue ≡ []
      → step u op ≡ record { next = u; reply = closed_reply op; written = none; resumed = [] }
  unfolding step
  unlimited_drained u (send task a) h e = ground arith
  unlimited_drained u op h e = ground arith

  pub make-IsValid : IsValid (make {A = A})
  unfolding make
  make-IsValid = ground arith

pub queue-make : {A : Type 0} → (make {A = A}).queue ≡ []
unfolding make
queue-make = refl
