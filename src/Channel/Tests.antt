-- ===== src/Channel/Tests.antt =====
-- Runs of the channels of inc/channel.hpp, and their theorems at concrete channels.
use hermesconcurrencyengine.Common.{
  ℕ, ◌≤◌, ◌≡◌, refl, Bool, true, false, none, some, List, [], ◌∷◌, ◌++◌, length, arith, WhenSome,
}
use hermesconcurrencyengine.CircularBuffer
use hermesconcurrencyengine.CircularBuffer.Refine.{Holds, to_list}
use hermesconcurrencyengine.Channel.{Op, send, recv, try_recv, close, Effect, suspended}
use hermesconcurrencyengine.Channel.Run.{Trace, run}
use hermesconcurrencyengine.Channel.Unbuffered
use hermesconcurrencyengine.Channel.Unbuffered.{Unbuffered}
use hermesconcurrencyengine.Channel.Unbuffered.History.{
  History, IsKept, new_history, run as run_history,
}
use hermesconcurrencyengine.Channel.Unbuffered.Histories.{unbuffered_history}
use hermesconcurrencyengine.Channel.Unlimited
use hermesconcurrencyengine.Channel.Unlimited.{Unlimited}
use hermesconcurrencyengine.Channel.Unlimited.Laws.{unlimited_waiting, unlimited_closed}
use hermesconcurrencyengine.Channel.Unlimited.Laws as UnlimitedLaws
use hermesconcurrencyengine.Channel.Bounded
use hermesconcurrencyengine.Channel.Bounded.{Bounded}
use hermesconcurrencyengine.Channel.Buffered
use hermesconcurrencyengine.Channel.Buffered.{Buffered}
use hermesconcurrencyengine.Channel.Buffered.Refine.{Implements, SameOutcome, step-SameOutcome}
use hermesconcurrencyengine.Channel.Buffered.Waiting.{Parked, buffered_waiting, stranded_send}
use hermesconcurrencyengine.Channel.Histories.{unlimited_history, buffered_history}

-- Task 1 sends twice the size, and tasks 2 and 3 receive.
abbrev script : List (Op ℕ)
script = send 1 10 ∷ send 1 20 ∷ send 1 30 ∷ recv 2 ∷ recv 3 ∷ try_recv ∷ recv 2 ∷ close ∷ []

unlimited_history_example :
    (t : Trace (Unlimited ℕ) ℕ) × (run (λ u op. some (Unlimited.step u op)) Unlimited.make script
      ≡ some t)
    × UnlimitedLaws.IsValid t.final
    × (t.accepted ≡ t.delivered ++ t.final.queue)
unlimited_history_example = unlimited_history script

buffered_history_example :
    (t : Trace (Buffered ℕ) ℕ) × (run Buffered.step (Buffered.make 2) script ≡ some t)
    × (t.accepted ≡ t.delivered ++ to_list t.final.buf)
    × (length (to_list t.final.buf) ≤ 2)
buffered_history_example =
    buffered_history 2 script (omega arith) (tt, (tt, (tt, (tt, (tt, (tt, (tt, (tt, tt))))))))

-- A sender with the value 7 waits.
abbrev sender_waits : Unbuffered ℕ
sender_waits = record {
  closed_flag = false;
  parked_send = record { task = 1; source = 7 } ∷ [];
  parked_recv = [];
  front_resumed = false;
}

-- Task 1 sends three values, of which tasks 2 and 3 receive two.
abbrev unbuffered_script : List (Op ℕ)
unbuffered_script = send 1 10 ∷ send 1 20 ∷ send 1 30 ∷ recv 2 ∷ recv 3 ∷ close ∷ recv 2 ∷ []

unbuffered_history_example :
    (h : History ℕ) × (run_history new_history unbuffered_script ≡ some h) × IsKept h
unbuffered_history_example =
    unbuffered_history unbuffered_script (tt, (tt, (tt, (tt, (tt, (tt, (tt, tt)))))))

abbrev receiver_waits : Unlimited ℕ
receiver_waits = record { closed_flag = false; queue = []; parked_recv = 2 ∷ [] }

-- Two slots, both used, and a sender that waits; and the queue that the code implements.
abbrev full_buffer : CircularBuffer.CircularBuffer ℕ
full_buffer = record {
  size = 2;
  used = 2;
  back_idx = 1;
  front_idx = 1;
  slots = some 9 ∷ some 8 ∷ [];
}

full_buffer-Holds : Holds full_buffer (8 ∷ 9 ∷ [])
full_buffer-Holds = record {
  small = omega arith;
  block = refl;
  used_in = omega arith;
  front_in = omega arith;
  back_at = refl;
  contents = refl;
}

abbrev full_channel : Buffered ℕ
full_channel = record {
  closed_flag = false;
  buf = full_buffer;
  parked_send = record { task = 1; source = 7 } ∷ [];
  parked_recv = [];
}

abbrev full_queue : Bounded ℕ
full_queue = record {
  cap = 2;
  is_closed = false;
  items = 8 ∷ 9 ∷ [];
  senders = record { task = 1; source = 7 } ∷ [];
  receivers = [];
}

full_channel-Implements : Implements full_channel full_queue
full_channel-Implements = record {
  buffer = full_buffer-Holds;
  capacity = refl;
  flag = refl;
  send_queue = refl;
  recv_queue = refl;
}

full_queue-IsValid : Bounded.IsValid full_queue
full_queue-IsValid = ground arith

step-SameOutcome_example :
    SameOutcome (Buffered.step full_channel (recv 2)) (Bounded.step full_queue (recv 2))
step-SameOutcome_example =
    step-SameOutcome full_channel full_queue (recv 2) full_channel-Implements full_queue-IsValid

buffered_waiting_example :
    WhenSome (Parked full_channel (recv 2)) (Buffered.step full_channel (recv 2))
buffered_waiting_example =
    buffered_waiting full_channel full_queue (recv 2) full_channel-Implements full_queue-IsValid
      (λ s. s)

abbrev emptied : CircularBuffer.CircularBuffer ℕ
emptied = record { size = 1; used = 0; back_idx = 0; front_idx = 0; slots = none ∷ [] }

emptied-Holds : Holds emptied []
emptied-Holds = record {
  small = omega arith;
  block = refl;
  used_in = omega arith;
  front_in = omega arith;
  back_at = refl;
  contents = refl;
}

-- A buffered channel that is closed, and one at which task 2 waits to receive.
abbrev channel_with : Bool → List ℕ → Buffered ℕ
channel_with c rs = record { closed_flag = c; buf = emptied; parked_send = []; parked_recv = rs }

abbrev queue_with : Bool → List ℕ → Bounded ℕ
queue_with c rs = record { cap = 1; is_closed = c; items = []; senders = []; receivers = rs }

with-Implements : (c : Bool) (rs : List ℕ) → Implements (channel_with c rs) (queue_with c rs)
with-Implements c rs = record {
  buffer = emptied-Holds;
  capacity = refl;
  flag = refl;
  send_queue = refl;
  recv_queue = refl;
}

closed-IsValid : Bounded.IsValid (queue_with true [])
closed-IsValid = ground arith

receiver-IsValid : Bounded.IsValid (queue_with false (2 ∷ []))
receiver-IsValid = ground arith

stranded_send_example :
    (Buffered.step (channel_with true []) (send 1 3)
      ≡ some
          (record { next = channel_with true []; reply = suspended; written = none; resumed = [] }))
    × WhenSome
        (λ (e : Effect (Buffered ℕ) ℕ). (e.resumed ≡ []) × (e.next.closed_flag ≡ true))
        (Buffered.step (channel_with true []) (recv 2))
stranded_send_example =
    stranded_send (channel_with true []) (queue_with true []) 1 3 (recv 2) (with-Implements true [])
      closed-IsValid refl
