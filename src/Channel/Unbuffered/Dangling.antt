-- ===== src/Channel/Unbuffered/Dangling.antt =====
-- What `try_recv` leaves behind in `parked_send_` of the unbuffered channel of inc/channel.hpp.
use hermesconcurrencyengine.Common.{◌≡◌, true, false, Option, none, some, List, [], ◌∷◌}
use hermesconcurrencyengine.Channel.{Op, send, recv, try_send, try_recv, close, Sender}
use hermesconcurrencyengine.Channel.Unbuffered.{Unbuffered, step}

module _ {A : Type 0} where
  abbrev pub IsSend : Op A → Type 0
  IsSend (send task a) = Unit {0}
  IsSend (try_send a) = Unit {0}
  IsSend (recv task) = ⊥
  IsSend try_recv = ⊥
  IsSend close = ⊥

  abbrev pub TakesSend : Op A → Type 0
  TakesSend (send task a) = ⊥
  TakesSend (try_send a) = ⊥
  TakesSend (recv task) = Unit {0}
  TakesSend try_recv = Unit {0}
  TakesSend close = Unit {0}

  -- The channel after operations, if all of them are defined.
  unfoldable pub after_all : Unbuffered A → List (Op A) → Option (Unbuffered A)
  after_all u [] = some u
  after_all u (op ∷ ops) = elim (step u op) [ none ↦ none | some e ↦ after_all e.next ops ]

  -- The first parked send was resumed, and is parked still.
  abbrev Dangles : Unbuffered A → Type 0
  Dangles u =
      (u.closed_flag ≡ false)
      × (u.front_resumed ≡ true)
      × (w : Sender A) × (ws : List (Sender A)) × (u.parked_send ≡ w ∷ ws)
