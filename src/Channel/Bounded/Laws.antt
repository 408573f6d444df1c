-- ===== src/Channel/Bounded/Laws.antt =====
-- The laws of the bounded queue that the buffered channel of inc/channel.hpp implements.
use hermesconcurrencyengine.Common.{
  ℕ, ◌≡◌, inl, inr, refl, sym, subst, true, some, List, [], ◌∷◌, ◌++◌, append-nil, arith,
  length-append, List-cases, WhenSome,
}
use hermesconcurrencyengine.Channel.{
  Op, send, recv, try_send, try_recv, close, Effect, Reply, ready, tried, success,
}
use hermesconcurrencyengine.Channel.Log.{
  accepted, delivered, own_sent, resumed_senders, resumed_receivers, suspended_sender,
  suspended_receiver, tasks, taken-fail, given-fail, senders-fail, receivers-fail, tasks-snoc,
}
use hermesconcurrencyengine.Channel.Bounded.{Bounded, IsValid, step, put, hand_out}

module _ {A : Type 0} where
  -- What is kept, and moved, by a step `e` of `q` on `op`.
  pub record Keeps (q : Bounded A) (op : Op A) (e : Effect (Bounded A) A) : Type 0 where
    pub valid : IsValid e.next
    pub same_cap : e.next.cap ≡ q.cap
    pub moved : q.items ++ accepted op e ≡ delivered e ++ e.next.items

  recv-eq :
      (q : Bounded A) (task : ℕ) (a : A) (rest : List A)
      → q.items ≡ a ∷ rest
      → step q (recv task) ≡ some (hand_out q a rest (ready true))
  unfolding step hand_out
  recv-eq q task a rest e = rw (e, step)

  try_recv-eq :
      (q : Bounded A) (a : A) (rest : List A)
      → q.items ≡ a ∷ rest
      → step q try_recv ≡ some (hand_out q a rest (tried success))
  unfolding step hand_out
  try_recv-eq q a rest e = rw (e, step)

  hand_out-Keeps :
      (q : Bounded A) (op : Op A) (a : A) (rest : List A) (reply : Reply)
      → own_sent op reply ≡ []
      → q.items ≡ a ∷ rest
      → IsValid q
      → Keeps q op (hand_out q a rest reply)
  unfolding hand_out
  hand_out-Keeps q op a rest reply own e v = elim (List-cases q.senders) [
    | inl none_waits ↦ ground (arith, append-nil rest)
    | inr (w, ws, waits) ↦ ground (arith, length-append rest (w.source ∷ []))
  ]

  pub step-Keeps : (q : Bounded A) (op : Op A) → IsValid q → WhenSome (Keeps q op) (step q op)
  unfolding step put
  step-Keeps q (send task a) v = ground (arith, length-append q.items (a ∷ []), append-nil q.items)
  step-Keeps q (recv task) v = elim (List-cases q.items) [
    | inl e ↦ ground arith
    | inr (a, rest, e) ↦
        subst (WhenSome (Keeps q (recv task))) (sym (recv-eq q task a rest e))
          (hand_out-Keeps q (recv task) a rest (ready true) refl e v)
  ]
  step-Keeps q (try_send a) v = ground (arith, length-append q.items (a ∷ []), append-nil q.items)
  step-Keeps q try_recv v = elim (List-cases q.items) [
    | inl e ↦ ground arith
    | inr (a, rest, e) ↦
        subst (WhenSome (Keeps q try_recv)) (sym (try_recv-eq q a rest e))
          (hand_out-Keeps q try_recv a rest (tried success) refl e v)
  ]
  step-Keeps q close v = ground (
    arith,
    append-nil q.items,
    taken-fail q.senders q.receivers,
    given-fail q.senders q.receivers,
  )

  -- A send at a closed channel, whose task no queue holds.
  abbrev pub Stranded : Bounded A → Op A → Type 0
  Stranded q (send task a) = q.is_closed ≡ true
  Stranded q (recv task) = ⊥
  Stranded q (try_send a) = ⊥
  Stranded q try_recv = ⊥
  Stranded q close = ⊥

  -- What a step does to the tasks that wait.
  pub record Queues (q : Bounded A) (op : Op A) (e : Effect (Bounded A) A) : Type 0 where
    pub senders :
        tasks q.senders ++ suspended_sender op e.reply
        ≡ resumed_senders e.resumed ++ tasks e.next.senders
    pub receivers :
        q.receivers ++ suspended_receiver op e.reply
        ≡ resumed_receivers e.resumed ++ e.next.receivers

  pub step-Queues :
      (q : Bounded A) (op : Op A) → ¬ Stranded q op → WhenSome (Queues q op) (step q op)
  unfolding step put hand_out
  step-Queues q (send task a) h = ground (
    arith,
    tasks-snoc q.senders (record { task = task; source = a }),
    append-nil (tasks q.senders),
    append-nil q.receivers,
  )
  step-Queues q (recv task) h = ground (arith, append-nil (tasks q.senders), append-nil q.receivers)
  step-Queues q (try_send a) h =
      ground (arith, append-nil (tasks q.senders), append-nil q.receivers)
  step-Queues q try_recv h = ground (arith, append-nil (tasks q.senders), append-nil q.receivers)
  step-Queues q close h = ground (
    arith,
    senders-fail q.senders q.receivers,
    receivers-fail q.senders q.receivers,
    append-nil (tasks q.senders),
    append-nil q.receivers,
  )
