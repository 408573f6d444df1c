-- ===== src/Channel/Unbuffered/Histories.antt =====
-- Every sequence of operations on a new unbuffered channel of inc/channel.hpp.
use hermesconcurrencyengine.Common.{
  ◌+◌, ◌≡◌, ◌≢◌, inl, inr, refl, sym, subst, ap, ◌∙◌, true, false, Option, none, some, List, [],
  ◌∷◌, ◌++◌, append_assoc, append-nil, All, WhenSome, arith,
}
use hermesconcurrencyengine.Channel.{
  Op, send, recv, try_send, try_recv, close, finished, Effect, fail_senders, fail_receivers,
}
use hermesconcurrencyengine.Channel.Log.{delivered, closed_reply, given-fail}
use hermesconcurrencyengine.Channel.Unbuffered.{Unbuffered, make, step}
use hermesconcurrencyengine.Channel.Unbuffered.Laws.{
  IsValid, step-IsValid, make-IsValid, unbuffered_closed,
}
use hermesconcurrencyengine.Channel.Unbuffered.History.{
  taken_in, failures, sources, NotTryRecv, History, extend, run, new_history, Accounted, IsKept,
  failures-fail, sources-snoc, length-sources,
}

module _ {A : Type 0} where
  -- At an open channel, the parked values and the value taken in are those handed out and those parked.
  abbrev Moves : Unbuffered A → Op A → Effect (Unbuffered A) A → Type 0
  Moves u op e =
      (sources u.parked_send ++ taken_in op e.reply ≡ delivered e ++ sources e.next.parked_send)
      × (failures e.resumed ≡ 0)
      × (e.next.closed_flag ≡ false)
      × (e.next.front_resumed ≡ false)

  abbrev IsMove : Op A → Type 0
  IsMove (send task a) = Unit {0}
  IsMove (recv task) = Unit {0}
  IsMove (try_send a) = Unit {0}
  IsMove try_recv = ⊥
  IsMove close = ⊥

  step-Moves :
      (u : Unbuffered A) (op : Op A)
      → IsMove op
      → IsValid u
      → u.closed_flag ≡ false
      → u.front_resumed ≡ false
      → WhenSome (Moves u op) (step u op) × (step u op ≢ none)
  unfolding step
  step-Moves u (send task a) m v o f = (
    ground (
      arith,
      o,
      f,
      v.one_side,
      sources-snoc u.parked_send (record { task = task; source = a }),
      append-nil (sources u.parked_send),
    ),
    ground (arith, o, f),
  )
  step-Moves u (recv task) m v o f =
      (ground (arith, o, f, append-nil (sources u.parked_send)), ground (arith, o, f))
  step-Moves u (try_send a) m v o f =
      (ground (arith, o, f, v.one_side, append-nil (sources u.parked_send)), ground (arith, o, f))
  step-Moves u try_recv m v o f = absurd m
  step-Moves u close m v o f = absurd m

  abbrev closing : Unbuffered A → Effect (Unbuffered A) A
  closing u = record {
    next = record u { closed_flag = true; parked_send = []; parked_recv = [] };
    reply = finished;
    written = none;
    resumed = fail_senders u.parked_send ++ fail_receivers u.parked_recv;
  }

  step-close :
      (u : Unbuffered A)
      → u.closed_flag ≡ false
      → u.front_resumed ≡ false
      → step u close ≡ some (closing u)
  unfolding step
  step-close u o f = ground (arith, o, f)

  defined :
      {P : Effect (Unbuffered A) A → Type 0} (o : Option (Effect (Unbuffered A) A))
      → WhenSome P o
      → o ≢ none
      → (e : Effect (Unbuffered A) A) × (o ≡ some e) × P e
  defined none p d = absurd (d refl)
  defined (some e) p d = (e, refl, p)

  -- A step is defined, and keeps what is kept.
  abbrev Extends : History A → Op A → Type 0
  Extends h op =
      (e : Effect (Unbuffered A) A) × (step h.channel op ≡ some e) × IsKept (extend h op e)

  next-IsValid :
      (u : Unbuffered A) (op : Op A) {e : Effect (Unbuffered A) A}
      → IsValid u
      → step u op ≡ some e
      → IsValid e.next
  next-IsValid u op v e =
      subst (WhenSome (λ (x : Effect (Unbuffered A) A). IsValid x.next)) e (step-IsValid u op v)

  moves-Extends :
      (h : History A) (op : Op A)
      → IsMove op
      → IsKept h
      → h.channel.closed_flag ≡ false
      → h.failed ≡ 0
      → h.taken ≡ h.handed_out ++ sources h.channel.parked_send
      → Extends h op
  moves-Extends h op m k o none_failed sum =
      let (moved, some_step) = step-Moves h.channel op m k.valid o k.unused in
      let (e, stepped, (passed, no_failure, unclosed, unused)) =
        defined {P = Moves h.channel op} (step h.channel op) moved some_step in
      (
        e,
        stepped,
        record {
          valid = next-IsValid h.channel op k.valid stepped;
          unused = unused;
          accounted = inl (
            unclosed,
            omega (arith, none_failed, no_failure),
            ap (λ l. l ++ taken_in op e.reply) sum
                ∙ append_assoc h.handed_out (sources h.channel.parked_send) (taken_in op e.reply)
                ∙ ap (λ l. h.handed_out ++ l) passed
                ∙ sym (append_assoc h.handed_out (delivered e) (sources e.next.parked_send)),
          );
        },
      )

  close-Extends :
      (h : History A)
      → IsKept h
      → h.channel.closed_flag ≡ false
      → h.failed ≡ 0
      → h.taken ≡ h.handed_out ++ sources h.channel.parked_send
      → Extends h close
  close-Extends h k o none_failed sum =
      let u = h.channel in
      let stepped = step-close u o k.unused in
      let given_none : delivered (closing u) ≡ [] = given-fail u.parked_send u.parked_recv in
      (
        closing u,
        stepped,
        record {
          valid = next-IsValid u close k.valid stepped;
          unused = k.unused;
          accounted = inr (
            refl,
            sources u.parked_send,
            omega (
              arith,
              none_failed,
              length-sources u.parked_send,
              failures-fail u.parked_send u.parked_recv,
            ),
            append-nil h.taken
                ∙ sum
                ∙ ap (λ l. l ++ sources u.parked_send)
                    (sym (ap (λ l. h.handed_out ++ l) given_none ∙ append-nil h.handed_out)),
          );
        },
      )

  taken_in-closed : (op : Op A) → taken_in op (closed_reply op) ≡ []
  taken_in-closed (send task a) = refl
  taken_in-closed (recv task) = refl
  taken_in-closed (try_send a) = refl
  taken_in-closed try_recv = refl
  taken_in-closed close = refl

  idle-Accounted :
      (h : History A) (op : Op A)
      → Accounted h
      → Accounted (record h {
        taken = h.taken ++ taken_in op (closed_reply op);
        handed_out = h.handed_out ++ [];
        failed = h.failed + 0;
      })
  idle-Accounted h op v =
      let same : h.failed + 0 ≡ h.failed = omega arith in
      rw (taken_in-closed op, append-nil h.taken, append-nil h.handed_out, same) v

  closed-Extends :
      (h : History A) (op : Op A) → IsKept h → h.channel.closed_flag ≡ true → Extends h op
  closed-Extends h op k c =
      let stepped = unbuffered_closed h.channel op c in
      (
        record { next = h.channel; reply = closed_reply op; written = none; resumed = [] },
        stepped,
        record { valid = k.valid; unused = k.unused; accounted = idle-Accounted h op k.accounted },
      )

  open-Extends :
      (h : History A) (op : Op A)
      → NotTryRecv op
      → IsKept h
      → h.channel.closed_flag ≡ false
      → h.failed ≡ 0
      → h.taken ≡ h.handed_out ++ sources h.channel.parked_send
      → Extends h op
  open-Extends h (send task a) n k o f s = moves-Extends h (send task a) tt k o f s
  open-Extends h (recv task) n k o f s = moves-Extends h (recv task) tt k o f s
  open-Extends h (try_send a) n k o f s = moves-Extends h (try_send a) tt k o f s
  open-Extends h try_recv n k o f s = absurd n
  open-Extends h close n k o f s = close-Extends h k o f s

  step-Extends : (h : History A) (op : Op A) → NotTryRecv op → IsKept h → Extends h op
  step-Extends h op n k = elim k.accounted [
    | inl (o, none_failed, sum) ↦ open-Extends h op n k o none_failed sum
    | inr (c, rest, few, sum) ↦ closed-Extends h op k c
  ]

  run-IsKept :
      (ops : List (Op A)) (h : History A)
      → All NotTryRecv ops
      → IsKept h
      → (end : History A) × (run h ops ≡ some end) × IsKept end
  unfolding run
  run-IsKept [] h n k = (h, refl, k)
  run-IsKept (op ∷ ops) h n k =
      let (e, stepped, k') = step-Extends h op n.0 k in
      let (end, ran, k'') = run-IsKept ops (extend h op e) n.1 k' in
      (end, ap (λ o. elim o [ none ↦ none | some x ↦ run (extend h op x) ops ]) stepped ∙ ran, k'')

  -- On a new unbuffered channel, a sequence of operations other than `try_recv` is defined and
  -- leaves a valid channel. While it is open, the values that sends have passed to it, at once or
  -- by waiting, are, in order, those that receives got and then those of the sends that wait; and
  -- once it is closed, they are those that receives got and then one for each send that `close`
  -- made fail.
  pub unbuffered_history :
      (ops : List (Op A))
      → All NotTryRecv ops
      → (h : History A) × (run new_history ops ≡ some h) × IsKept h
  unfolding new_history make
  unbuffered_history ops n =
      run-IsKept ops new_history n
        (record { valid = make-IsValid; unused = refl; accounted = inl (refl, refl, refl) })
