-- ===== src/Channel/Unbuffered/Laws.antt =====
-- What the unbuffered channel of inc/channel.hpp keeps, moves and resumes.
use hermesconcurrencyengine.Common.{
  ◌≡◌, ◌≢◌, ◌⊎◌, refl, true, none, some, [], ◌++◌, append-nil, WhenSome, arith,
}
use hermesconcurrencyengine.Channel.{Op, send, recv, try_send, try_recv, close, Effect}
use hermesconcurrencyengine.Channel.Log.{
  resumed_senders, resumed_receivers, suspended_sender, suspended_receiver, tasks, closed_reply,
  senders-fail, receivers-fail, tasks-snoc,
}
use hermesconcurrencyengine.Channel.Unbuffered.{Unbuffered, make, step}

module _ {A : Type 0} where
  -- Two sides never wait for one another, and nobody waits at a closed channel.
  pub record IsValid (u : Unbuffered A) : Type 0 where
    pub one_side : (u.parked_send ≡ []) ⊎ (u.parked_recv ≡ [])
    pub open_send : u.closed_flag ≡ true → u.parked_send ≡ []
    pub open_recv : u.closed_flag ≡ true → u.parked_recv ≡ []

  pub step-IsValid :
      (u : Unbuffered A) (op : Op A)
      → IsValid u
      → WhenSome (λ (e : Effect (Unbuffered A) A). IsValid e.next) (step u op)
  unfolding step
  step-IsValid u (send task a) v = ground arith
  step-IsValid u op v = ground arith

  -- An operation other than `try_recv` keeps the order of the waiting tasks: those that waited, and
  -- then the one that it suspends, are those that it resumes and then those that still wait, for
  -- senders and for receivers.
  pub unbuffered_waiting :
      (u : Unbuffered A) (op : Op A)
      → op ≢ try_recv
      → WhenSome
          (λ (e : Effect (Unbuffered A) A).
            (tasks u.parked_send ++ suspended_sender op e.reply
              ≡ resumed_senders e.resumed ++ tasks e.next.parked_send)
            × (u.parked_recv ++ suspended_receiver op e.reply
                ≡ resumed_receivers e.resumed ++ e.next.parked_recv))
          (step u op)
  unfolding step
  unbuffered_waiting u (send task a) h = ground (
    arith,
    tasks-snoc u.parked_send (record { task = task; source = a }),
    append-nil (tasks u.parked_send),
    append-nil u.parked_recv,
  )
  unbuffered_waiting u (recv task) h =
      ground (arith, append-nil (tasks u.parked_send), append-nil u.parked_recv)
  unbuffered_waiting u (try_send a) h =
      ground (arith, append-nil (tasks u.parked_send), append-nil u.parked_recv)
  unbuffered_waiting u try_recv h = absurd (h refl)
  unbuffered_waiting u close h = ground (
    arith,
    senders-fail u.parked_send u.parked_recv,
    receivers-fail u.parked_send u.parked_recv,
    append-nil (tasks u.parked_send),
    append-nil u.parked_recv,
  )

  -- At a closed unbuffered channel every operation answers at once that it is closed, moves no
  -- value, resumes nobody, and changes nothing.
  pub unbuffered_closed :
      (u : Unbuffered A) (op : Op A)
      → u.closed_flag ≡ true
      → step u op
        ≡ some (record { next = u; reply = closed_reply op; written = none; resumed = [] })
  unfolding step
  unbuffered_closed u (send task a) h = ground arith
  unbuffered_closed u op h = ground arith

  pub make-IsValid : IsValid (make {A = A})
  unfolding make
  make-IsValid = ground arith
