-- ===== src/Channel.antt =====
-- inc/channel.hpp: what the channel implementations share. A task that awaits an operation has a
-- number; a parked send carries the value that its `transfer` points to. An operation runs under the
-- channel's lock, so it is one step: `send` and `recv` are `await_ready()` of their awaitables, which
-- calls `on_ready()`, and the others are the methods of these names.
pub mod Log
pub mod Run
pub mod Unbuffered
pub mod Unlimited
pub mod Bounded
pub mod Buffered
pub mod Delivery
pub mod Histories
pub mod Context
mod Tests
use hermesconcurrencyengine.Common.{ℕ, Bool, true, false, Option, none, some, List, [], ◌∷◌}

-- `enum result`
pub data Result : Type 0 where
  closed failure success : Result

-- `base_send_interface` with the `transfer` that it holds.
pub record Sender (A : Type 0) : Type 0 where
  pub task : ℕ
  pub source : A

-- The methods of `channel::interface<T>` that change a channel.
pub data Op (A : Type 0) : Type 0 where
  send : ℕ → A → Op A
  recv : ℕ → Op A
  try_send : A → Op A
  try_recv : Op A
  close : Op A

-- What the caller learns: `await_ready()` was true and `get_result()` is the flag, or it was false;
-- the result of a `try_` method; nothing.
pub data Reply : Type 0 where
  ready : Bool → Reply
  suspended : Reply
  tried : Result → Reply
  finished : Reply

-- A `resume(m)` of a parked awaitable, with the value that its `on_resume` moves. It moves none, and
-- leaves `success` false, where `m` is null.
pub data Event (A : Type 0) : Type 0 where
  sender_resumed : ℕ → Option A → Event A
  receiver_resumed : ℕ → Option A → Event A

pub record Effect (S A : Type 0) : Type 0 where
  pub next : S
  pub reply : Reply
  pub written : Option A
  pub resumed : List (Event A)

module _ {A : Type 0} where
  -- `base_send_interface::on_resume`, with what `tx` sends if `m` is no null pointer.
  abbrev pub on_resume_send : Sender A → Bool → Event A
  on_resume_send w true = sender_resumed w.task (some w.source)
  on_resume_send w false = sender_resumed w.task none

  -- `base_recv_interface::on_resume`, with what the `transfer` behind `m` sends, if `m` is not null.
  abbrev pub on_resume_recv : ℕ → Option A → Event A
  on_resume_recv task m = receiver_resumed task m

  -- `while(parked_send_.size()) { parked_send_.front()->resume(nullptr); parked_send_.pop(); }`
  pub fail_senders : List (Sender A) → List (Event A)
  fail_senders [] = []
  fail_senders (w ∷ ws) = on_resume_send w false ∷ fail_senders ws

  unfoldable pub fail_receivers : List ℕ → List (Event A)
  fail_receivers [] = []
  fail_receivers (r ∷ rs) = on_resume_recv r none ∷ fail_receivers rs
