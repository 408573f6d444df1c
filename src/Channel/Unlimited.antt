-- ===== src/Channel/Unlimited.antt =====
-- inc/channel.hpp: `channel::unlimited<T>`, whose queue has no bound.
pub mod Laws
use hermesconcurrencyengine.Common.{
  ℕ, ◌≡◌, refl, Bool, true, false, Option, none, some, List, [], ◌∷◌, ◌++◌,
}
use hermesconcurrencyengine.Channel.{
  Op, send, recv, try_send, try_recv, close, Reply, ready, suspended, tried, finished, closed,
  failure, success, Event, Effect, on_resume_recv, fail_receivers,
}

pub record Unlimited (A : Type 0) : Type 0 where
  pub closed_flag : Bool
  pub queue : List A
  pub parked_recv : List ℕ

module _ {A : Type 0} where
  unfoldable pub make : Unlimited A
  make = record { closed_flag = false; queue = []; parked_recv = [] }

  abbrev idle : Unlimited A → Effect (Unlimited A) A
  idle u = record { next = u; reply = finished; written = none; resumed = [] }

  unfoldable pub close_channel : Unlimited A → Effect (Unlimited A) A
  close_channel u = elim u.closed_flag [
    | true ↦ idle u
    | false ↦ record (idle u) {
      next = record u { closed_flag = true; parked_recv = [] };
      resumed = fail_receivers u.parked_recv;
    }
  ]

  -- The end of a send: `list_recv` moves the front of the queue to the first parked receiver. The
  -- value that was sent is in the queue, so it is not empty here.
  unfoldable pub serve_receiver : Unlimited A → Reply → Effect (Unlimited A) A
  serve_receiver u reply = elim u.parked_recv [
    | [] ↦ record (idle u) { reply = reply }
    | r ∷ rs ↦ elim u.queue [
      | [] ↦ record (idle u) { reply = reply }
      | a ∷ rest ↦ record {
        next = record u { queue = rest; parked_recv = rs };
        reply = reply;
        written = none;
        resumed = on_resume_recv r (some a) ∷ [];
      }
    ]
  ]

  -- `send_interface::on_ready`
  unfoldable pub send_on_ready : Unlimited A → A → Effect (Unlimited A) A
  send_on_ready u a = elim u.closed_flag [
    | true ↦ record (idle u) { reply = ready false }
    | false ↦ serve_receiver (record u { queue = u.queue ++ a ∷ [] }) (ready true)
  ]

  -- `recv_interface::on_ready`
  unfoldable pub recv_on_ready : Unlimited A → ℕ → Effect (Unlimited A) A
  recv_on_ready u task = elim u.queue [
    | [] ↦ elim u.closed_flag [
      | true ↦ record (idle u) { reply = ready false }
      | false ↦ record (idle u) {
        next = record u { parked_recv = u.parked_recv ++ task ∷ [] };
        reply = suspended;
      }
    ]
    | a ∷ rest ↦ record (idle u) {
      next = record u { queue = rest };
      reply = ready true;
      written = some a;
    }
  ]

  pub try_send_value : Unlimited A → A → Effect (Unlimited A) A
  try_send_value u a = elim u.closed_flag [
    | true ↦ record (idle u) { reply = tried closed }
    | false ↦ serve_receiver (record u { queue = u.queue ++ a ∷ [] }) (tried success)
  ]

  pub try_recv_value : Unlimited A → Effect (Unlimited A) A
  try_recv_value u = elim u.queue [
    | [] ↦ elim u.closed_flag [
      | true ↦ record (idle u) { reply = tried closed }
      | false ↦ record (idle u) { reply = tried failure }
    ]
    | a ∷ rest ↦ record (idle u) {
      next = record u { queue = rest };
      reply = tried success;
      written = some a;
    }
  ]

  pub step : Unlimited A → Op A → Effect (Unlimited A) A
  unfolding send_on_ready recv_on_ready try_send_value try_recv_value close_channel
  step u (send task a) = send_on_ready u a
  step u (recv task) = recv_on_ready u task
  step u (try_send a) = try_send_value u a
  step u try_recv = try_recv_value u
  step u close = close_channel u

pub make-open : (A : Type 0) → ((make {A = A}).closed_flag ≡ false) × ((make {A = A}).queue ≡ [])
unfolding make
make-open A = (refl, refl)
