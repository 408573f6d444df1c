-- ===== src/Channel/Buffered.antt =====
-- inc/channel.hpp: `channel::buffered<T>`, over the circular buffer of inc/circular_buffer.hpp.
pub mod Refine
pub mod Waiting
pub mod Size
use hermesconcurrencyengine.Common.{
  ℕ, Bool, true, false, Option, none, some, List, [], ◌∷◌, ◌++◌, ◌==◌, if◌then◌else◌,
}
use hermesconcurrencyengine.CircularBuffer
use hermesconcurrencyengine.CircularBuffer.{CircularBuffer}
use hermesconcurrencyengine.Channel.{
  Sender, Op, send, recv, try_send, try_recv, close, Reply, ready, suspended, tried, finished,
  closed, failure, success, Effect, on_resume_send, on_resume_recv, fail_senders, fail_receivers,
}

pub record Buffered (A : Type 0) : Type 0 where
  pub closed_flag : Bool
  pub buf : CircularBuffer A
  pub parked_send : List (Sender A)
  pub parked_recv : List ℕ

module _ {A : Type 0} where
  -- The constructor, at a size that is not negative: 0 is taken as 1.
  pub make : ℕ → Buffered A
  make sz = record {
    closed_flag = false;
    buf = CircularBuffer.make (if sz == 0 then 1 else sz);
    parked_send = [];
    parked_recv = [];
  }

  abbrev idle : Buffered A → Effect (Buffered A) A
  idle b = record { next = b; reply = finished; written = none; resumed = [] }

  pub close_channel : Buffered A → Effect (Buffered A) A
  close_channel b = elim b.closed_flag [
    | true ↦ idle b
    | false ↦ record (idle b) {
      next = record b { closed_flag = true; parked_send = []; parked_recv = [] };
      resumed = fail_senders b.parked_send ++ fail_receivers b.parked_recv;
    }
  ]

  -- `circular_buffer_recv` at the first parked receiver, after a send.
  pub serve_receiver : Buffered A → Reply → Effect (Buffered A) A
  serve_receiver b reply = elim b.parked_recv [
    | [] ↦ record (idle b) { reply = reply }
    | r ∷ rs ↦ record {
      next = record b { buf = CircularBuffer.pop b.buf; parked_recv = rs };
      reply = reply;
      written = none;
      resumed = on_resume_recv r (CircularBuffer.front b.buf) ∷ [];
    }
  ]

  -- The front of the buffer is moved out, and the first parked send puts its value into the buffer.
  pub take_front : Buffered A → Reply → Effect (Buffered A) A
  take_front b reply = elim b.parked_send [
    | [] ↦ record {
      next = record b { buf = CircularBuffer.pop b.buf };
      reply = reply;
      written = CircularBuffer.front b.buf;
      resumed = [];
    }
    | w ∷ ws ↦ record {
      next = record b {
        buf = CircularBuffer.emplace (CircularBuffer.pop b.buf) w.source;
        parked_send = ws;
      };
      reply = reply;
      written = CircularBuffer.front b.buf;
      resumed = on_resume_send w true ∷ [];
    }
  ]

  -- `send_interface::on_ready`. At a closed channel it returns false, and nothing is parked: the
  -- task is suspended, and no queue of the channel knows of it.
  pub send_on_ready : Buffered A → ℕ → A → Effect (Buffered A) A
  send_on_ready b task a = elim b.closed_flag [
    | true ↦ record (idle b) { reply = suspended }
    | false ↦ elim (CircularBuffer.is_full b.buf) [
      | true ↦ record (idle b) {
        next = record b { parked_send = b.parked_send ++ record { task = task; source = a } ∷ [] };
        reply = suspended;
      }
      | false ↦ serve_receiver (record b { buf = CircularBuffer.emplace b.buf a }) (ready true)
    ]
  ]

  -- `recv_interface::on_ready`
  pub recv_on_ready : Buffered A → ℕ → Effect (Buffered A) A
  recv_on_ready b task = elim (CircularBuffer.is_empty b.buf) [
    | true ↦ elim b.closed_flag [
      | true ↦ record (idle b) { reply = ready false }
      | false ↦ record (idle b) {
        next = record b { parked_recv = b.parked_recv ++ task ∷ [] };
        reply = suspended;
      }
    ]
    | false ↦ take_front b (ready true)
  ]

  -- `none` is undefined behaviour: `try_send_` resumes a parked receive with the address of `buf_`,
  -- which `on_resume` of the receive then reads, and calls through, as a `transfer`.
  pub try_send_value : Buffered A → A → Option (Effect (Buffered A) A)
  try_send_value b a = elim b.closed_flag [
    | true ↦ some (record (idle b) { reply = tried closed })
    | false ↦ elim (CircularBuffer.is_full b.buf) [
      | true ↦ some (record (idle b) { reply = tried failure })
      | false ↦ elim b.parked_recv [
        | [] ↦ some (record (idle b) {
          next = record b { buf = CircularBuffer.emplace b.buf a };
          reply = tried success;
        })
        | r ∷ rs ↦ none
      ]
    ]
  ]

  pub try_recv_value : Buffered A → Effect (Buffered A) A
  try_recv_value b = elim (CircularBuffer.is_empty b.buf) [
    | true ↦ elim b.closed_flag [
      | true ↦ record (idle b) { reply = tried closed }
      | false ↦ record (idle b) { reply = tried failure }
    ]
    | false ↦ take_front b (tried success)
  ]

  pub step : Buffered A → Op A → Option (Effect (Buffered A) A)
  unfolding send_on_ready recv_on_ready try_send_value try_recv_value close_channel
  step b (send task a) = some (send_on_ready b task a)
  step b (recv task) = some (recv_on_ready b task)
  step b (try_send a) = try_send_value b a
  step b try_recv = some (try_recv_value b)
  step b close = some (close_channel b)
