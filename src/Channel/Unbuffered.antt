-- ===== src/Channel/Unbuffered.antt =====
-- inc/channel.hpp: `channel::unbuffered<T>`, which hands a value from one task straight to another.
pub mod Laws
pub mod History
pub mod Histories
pub mod Dangling
use hermesconcurrencyengine.Common.{
  ℕ, ◌≡◌, refl, Bool, true, false, Option, none, some, List, [], ◌∷◌, ◌++◌,
}
use hermesconcurrencyengine.Channel.{
  Sender, Op, send, recv, try_send, try_recv, close, ready, suspended, tried, finished, closed,
  failure, success, Effect, on_resume_send, on_resume_recv, fail_senders, fail_receivers,
}

-- `front_resumed` is whether `try_recv` has resumed the first of `parked_send_`, which it leaves there.
-- The task that waited may then have destroyed the awaitable, so a later use of it is undefined.
pub record Unbuffered (A : Type 0) : Type 0 where
  pub closed_flag : Bool
  pub parked_send : List (Sender A)
  pub parked_recv : List ℕ
  pub front_resumed : Bool

module _ {A : Type 0} where
  pub make : Unbuffered A
  make = record { closed_flag = false; parked_send = []; parked_recv = []; front_resumed = false }

  -- A step that changes nothing and moves nothing.
  abbrev idle : Unbuffered A → Effect (Unbuffered A) A
  idle u = record { next = u; reply = finished; written = none; resumed = [] }

  -- What follows on the use of the first of `parked_send_`.
  abbrev with_front : Unbuffered A → Effect (Unbuffered A) A → Option (Effect (Unbuffered A) A)
  with_front u e = elim u.front_resumed [ true ↦ none | false ↦ some e ]

  pub close_channel : Unbuffered A → Option (Effect (Unbuffered A) A)
  close_channel u = elim u.closed_flag [
    | true ↦ some (idle u)
    | false ↦ with_front u (record {
      next = record u { closed_flag = true; parked_send = []; parked_recv = [] };
      reply = finished;
      written = none;
      resumed = fail_senders u.parked_send ++ fail_receivers u.parked_recv;
    })
  ]

  -- `send_interface::on_ready`
  pub send_on_ready : Unbuffered A → ℕ → A → Option (Effect (Unbuffered A) A)
  send_on_ready u task a = elim u.closed_flag [
    | true ↦ some (record (idle u) { reply = ready false })
    | false ↦ elim u.parked_recv [
      | r ∷ rest ↦ some (record {
        next = record u { parked_recv = rest };
        reply = ready true;
        written = none;
        resumed = on_resume_recv r (some a) ∷ [];
      })
      | [] ↦ some (record (idle u) {
        next = record u { parked_send = u.parked_send ++ record { task = task; source = a } ∷ [] };
        reply = suspended;
      })
    ]
  ]

  -- `recv_interface::on_ready`
  pub recv_on_ready : Unbuffered A → ℕ → Option (Effect (Unbuffered A) A)
  recv_on_ready u task = elim u.closed_flag [
    | true ↦ some (record (idle u) { reply = ready false })
    | false ↦ elim u.parked_send [
      | w ∷ rest ↦ with_front u (record {
        next = record u { parked_send = rest };
        reply = ready true;
        written = some w.source;
        resumed = on_resume_send w true ∷ [];
      })
      | [] ↦ some (record (idle u) {
        next = record u { parked_recv = u.parked_recv ++ task ∷ [] };
        reply = suspended;
      })
    ]
  ]

  pub try_send_value : Unbuffered A → A → Option (Effect (Unbuffered A) A)
  try_send_value u a = elim u.closed_flag [
    | true ↦ some (record (idle u) { reply = tried closed })
    | false ↦ elim u.parked_recv [
      | r ∷ rest ↦ some (record {
        next = record u { parked_recv = rest };
        reply = tried success;
        written = none;
        resumed = on_resume_recv r (some a) ∷ [];
      })
      | [] ↦ some (record (idle u) { reply = tried failure })
    ]
  ]

  -- The parked send that is resumed stays in `parked_send_`.
  pub try_recv_value : Unbuffered A → Option (Effect (Unbuffered A) A)
  try_recv_value u = elim u.closed_flag [
    | true ↦ some (record (idle u) { reply = tried closed })
    | false ↦ elim u.parked_send [
      | w ∷ rest ↦ with_front u (record {
        next = record u { front_resumed = true };
        reply = tried success;
        written = some w.source;
        resumed = on_resume_send w true ∷ [];
      })
      | [] ↦ some (record (idle u) { reply = tried failure })
    ]
  ]

  -- `none` is undefined behaviour.
  pub step : Unbuffered A → Op A → Option (Effect (Unbuffered A) A)
  unfolding send_on_ready recv_on_ready try_send_value try_recv_value close_channel
  step u (send task a) = send_on_ready u task a
  step u (recv task) = recv_on_ready u task
  step u (try_send a) = try_send_value u a
  step u try_recv = try_recv_value u
  step u close = close_channel u

pub make-open : (A : Type 0) → (make {A = A}).closed_flag ≡ false
unfolding make
make-open A = refl
