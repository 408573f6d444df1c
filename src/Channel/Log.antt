-- ===== src/Channel/Log.antt =====
-- What a step of a channel of inc/channel.hpp moves, and whom it resumes.
use hermesconcurrencyengine.Common.{
  ℕ, ◌≡◌, refl, ap, true, false, List, [], ◌∷◌, ◌++◌, map, option_to_list,
}
use hermesconcurrencyengine.Channel.{
  Sender, Op, send, recv, try_send, try_recv, close, Reply, ready, suspended, tried, finished,
  closed, success, Event, sender_resumed, receiver_resumed, Effect, fail_senders, fail_receivers,
}

module _ {A : Type 0} where
  -- The value that the caller itself got into the channel.
  abbrev pub own_sent : Op A → Reply → List A
  own_sent (send task a) (ready true) = a ∷ []
  own_sent (send task a) _ = []
  own_sent (try_send a) (tried success) = a ∷ []
  own_sent (try_send a) _ = []
  own_sent (recv task) _ = []
  own_sent try_recv _ = []
  own_sent close _ = []

  -- The values of the parked sends that were resumed, and those that parked receives got.
  abbrev pub taken : List (Event A) → List A
  taken [] = []
  taken (sender_resumed task m ∷ es) = option_to_list m ++ taken es
  taken (receiver_resumed task m ∷ es) = taken es

  abbrev pub given : List (Event A) → List A
  given [] = []
  given (sender_resumed task m ∷ es) = given es
  given (receiver_resumed task m ∷ es) = option_to_list m ++ given es

  -- The tasks whose parked send, or parked receive, was resumed.
  abbrev pub resumed_senders : List (Event A) → List ℕ
  resumed_senders [] = []
  resumed_senders (sender_resumed task m ∷ es) = task ∷ resumed_senders es
  resumed_senders (receiver_resumed task m ∷ es) = resumed_senders es

  abbrev pub resumed_receivers : List (Event A) → List ℕ
  resumed_receivers [] = []
  resumed_receivers (sender_resumed task m ∷ es) = resumed_receivers es
  resumed_receivers (receiver_resumed task m ∷ es) = task ∷ resumed_receivers es

  -- The task that the operation suspends in a send, or in a receive.
  abbrev pub suspended_sender : Op A → Reply → List ℕ
  suspended_sender (send task a) suspended = task ∷ []
  suspended_sender (send task a) _ = []
  suspended_sender (recv task) _ = []
  suspended_sender (try_send a) _ = []
  suspended_sender try_recv _ = []
  suspended_sender close _ = []

  abbrev pub suspended_receiver : Op A → Reply → List ℕ
  suspended_receiver (recv task) suspended = task ∷ []
  suspended_receiver (recv task) _ = []
  suspended_receiver (send task a) _ = []
  suspended_receiver (try_send a) _ = []
  suspended_receiver try_recv _ = []
  suspended_receiver close _ = []

  -- The reply of a closed channel that holds nothing.
  abbrev pub closed_reply : Op A → Reply
  closed_reply (send task a) = ready false
  closed_reply (recv task) = ready false
  closed_reply (try_send a) = tried closed
  closed_reply try_recv = tried closed
  closed_reply close = finished

  abbrev pub tasks : List (Sender A) → List ℕ
  tasks = map (λ w. w.task)

  -- The values that a step lets into the channel, and those that it hands out, in order.
  abbrev pub accepted : {S : Type 0} → Op A → Effect S A → List A
  accepted op e = own_sent op e.reply ++ taken e.resumed

  abbrev pub delivered : {S : Type 0} → Effect S A → List A
  delivered e = option_to_list e.written ++ given e.resumed

-- A close resumes every parked task, in the order in which they parked, and moves nothing.
module _ (A : Type 0) where
  pub taken-fail_receivers : (rs : List ℕ) → taken {A = A} (fail_receivers rs) ≡ []
  unfolding fail_receivers
  taken-fail_receivers [] = refl
  taken-fail_receivers (r ∷ rs) = taken-fail_receivers rs

  pub given-fail_receivers : (rs : List ℕ) → given {A = A} (fail_receivers rs) ≡ []
  unfolding fail_receivers
  given-fail_receivers [] = refl
  given-fail_receivers (r ∷ rs) = given-fail_receivers rs

  pub senders-fail_receivers : (rs : List ℕ) → resumed_senders {A = A} (fail_receivers rs) ≡ []
  unfolding fail_receivers
  senders-fail_receivers [] = refl
  senders-fail_receivers (r ∷ rs) = senders-fail_receivers rs

  pub receivers-fail_receivers : (rs : List ℕ) → resumed_receivers {A = A} (fail_receivers rs) ≡ rs
  unfolding fail_receivers
  receivers-fail_receivers [] = refl
  receivers-fail_receivers (r ∷ rs) = ap (λ l. r ∷ l) (receivers-fail_receivers rs)

module _ {A : Type 0} where
  pub taken-fail :
      (ws : List (Sender A)) (rs : List ℕ) → taken (fail_senders ws ++ fail_receivers rs) ≡ []
  unfolding fail_senders
  taken-fail [] rs = taken-fail_receivers A rs
  taken-fail (w ∷ ws) rs = taken-fail ws rs

  pub given-fail :
      (ws : List (Sender A)) (rs : List ℕ) → given (fail_senders ws ++ fail_receivers rs) ≡ []
  unfolding fail_senders
  given-fail [] rs = given-fail_receivers A rs
  given-fail (w ∷ ws) rs = given-fail ws rs

  pub senders-fail :
      (ws : List (Sender A)) (rs : List ℕ)
      → resumed_senders (fail_senders ws ++ fail_receivers rs) ≡ tasks ws
  unfolding fail_senders
  senders-fail [] rs = senders-fail_receivers A rs
  senders-fail (w ∷ ws) rs = ap (λ l. w.task ∷ l) (senders-fail ws rs)

  pub receivers-fail :
      (ws : List (Sender A)) (rs : List ℕ)
      → resumed_receivers (fail_senders ws ++ fail_receivers rs) ≡ rs
  unfolding fail_senders
  receivers-fail [] rs = receivers-fail_receivers A rs
  receivers-fail (w ∷ ws) rs = receivers-fail ws rs

  pub tasks-snoc :
      (ws : List (Sender A)) (w : Sender A) → tasks (ws ++ w ∷ []) ≡ tasks ws ++ w.task ∷ []
  tasks-snoc [] w = refl
  tasks-snoc (v ∷ ws) w = ap (λ l. v.task ∷ l) (tasks-snoc ws w)

-- The facts of a close that the laws of the implementations use.
pub ruleset close_laws = (taken-fail, given-fail, senders-fail, receivers-fail)
