-- ===== src/Channel/Bounded.antt =====
-- What the buffered channel of inc/channel.hpp promises: a first-in first-out queue of at most `cap`
-- values, with the tasks that wait at it. Channel/Buffered/Refine is about the code and this queue.
pub mod Laws
use hermesconcurrencyengine.Common.{
  ℕ, ◌<◌, ◌≤◌, ◌≡◌, ◌⊎◌, Bool, true, false, Option, none, some, List, [], ◌∷◌, ◌++◌, length, ltb,
}
use hermesconcurrencyengine.Channel.{
  Sender, Op, send, recv, try_send, try_recv, close, Reply, ready, suspended, tried, finished,
  closed, failure, success, Effect, on_resume_send, on_resume_recv, fail_senders, fail_receivers,
}

pub record Bounded (A : Type 0) : Type 0 where
  pub cap : ℕ
  pub is_closed : Bool
  pub items : List A
  pub senders : List (Sender A)
  pub receivers : List ℕ

-- Receivers wait only at an empty queue, senders only at a full one, and nobody at a closed channel.
pub record IsValid {A : Type 0} (q : Bounded A) : Type 0 where
  pub some_room : 0 < q.cap
  pub bounded : length q.items ≤ q.cap
  pub empty_recv : (q.items ≡ []) ⊎ (q.receivers ≡ [])
  pub full_send : (length q.items ≡ q.cap) ⊎ (q.senders ≡ [])
  pub open_send : q.is_closed ≡ true → q.senders ≡ []
  pub open_recv : q.is_closed ≡ true → q.receivers ≡ []

module _ {A : Type 0} where
  abbrev pub unchanged : Bounded A → Reply → Effect (Bounded A) A
  unchanged q reply = record { next = q; reply = reply; written = none; resumed = [] }

  -- A value goes straight to the first receiver, if one waits, and else to the end of the queue.
  unfoldable pub put : Bounded A → A → Reply → Effect (Bounded A) A
  put q a reply = elim q.receivers [
    | [] ↦ unchanged (record q { items = q.items ++ a ∷ [] }) reply
    | r ∷ rs ↦ record (unchanged (record q { receivers = rs }) reply) {
      resumed = on_resume_recv r (some a) ∷ [];
    }
  ]

  -- The rest of the queue after its first value `a` is handed out: the first sender moves up.
  unfoldable pub hand_out : Bounded A → A → List A → Reply → Effect (Bounded A) A
  hand_out q a rest reply = elim q.senders [
    | [] ↦ record (unchanged (record q { items = rest }) reply) { written = some a }
    | w ∷ ws ↦ record {
      next = record q { items = rest ++ w.source ∷ []; senders = ws };
      reply = reply;
      written = some a;
      resumed = on_resume_send w true ∷ [];
    }
  ]

  unfoldable pub step : Bounded A → Op A → Option (Effect (Bounded A) A)
  step q (send task a) = elim q.is_closed [
    | true ↦ some (unchanged q suspended)
    | false ↦ elim (ltb (length q.items) q.cap) [
      | true ↦ some (put q a (ready true))
      | false ↦ some (
          unchanged (record q { senders = q.senders ++ record { task = task; source = a } ∷ [] })
            suspended)
    ]
  ]
  step q (recv task) = elim q.items [
    | [] ↦ elim q.is_closed [
      | true ↦ some (unchanged q (ready false))
      | false ↦ some (unchanged (record q { receivers = q.receivers ++ task ∷ [] }) suspended)
    ]
    | a ∷ rest ↦ some (hand_out q a rest (ready true))
  ]
  step q (try_send a) = elim q.is_closed [
    | true ↦ some (unchanged q (tried closed))
    | false ↦ elim (ltb (length q.items) q.cap) [
      | true ↦ elim q.receivers [ [] ↦ some (put q a (tried success)) | r ∷ rs ↦ none ]
      | false ↦ some (unchanged q (tried failure))
    ]
  ]
  step q try_recv = elim q.items [
    | [] ↦ elim q.is_closed [
      | true ↦ some (unchanged q (tried closed))
      | false ↦ some (unchanged q (tried failure))
    ]
    | a ∷ rest ↦ some (hand_out q a rest (tried success))
  ]
  step q close = elim q.is_closed [
    | true ↦ some (unchanged q finished)
    | false ↦ some (record {
      next = record q { is_closed = true; senders = []; receivers = [] };
      reply = finished;
      written = none;
      resumed = fail_senders q.senders ++ fail_receivers q.receivers;
    })
  ]
