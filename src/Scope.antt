-- ===== src/Scope.antt =====
-- inc/scope.hpp: `hce::scope`, which passes awaitables through an unlimited channel to one coroutine,
-- `root_awaiter_`, that awaits them one after another. An awaitable is named by the number of its
-- implementation. The root awaiter is task 0 of the channel, and the only one that receives.
pub mod Order
pub mod Awaiting
mod Tests
use hermesconcurrencyengine.Common.{ℕ, Bool, true, false, Option, none, some, List, [], ◌∷◌, ◌++◌}
use hermesconcurrencyengine.Channel.{
  Reply, ready, suspended, tried, finished, Event, sender_resumed, receiver_resumed, Effect,
}
use hermesconcurrencyengine.Channel.Unlimited
use hermesconcurrencyengine.Channel.Unlimited.{
  Unlimited, send_on_ready, recv_on_ready, close_channel,
}

-- Where `root_awaiter_` is: about to receive; suspended in `recv`; in the `co_await` of an awaitable; or
-- past its `co_return`, when `await()` returns.
pub data Root : Type 0 where
  receives : Root
  parked : Root
  awaits : ℕ → Root
  ended : Root

-- `added` and `awaited` are the awaitables that were sent, and those whose `co_await` has returned.
pub record Scope : Type 0 where
  pub root_ch : Unlimited ℕ
  pub root : Root
  pub added : List ℕ
  pub awaited : List ℕ

pub record Added : Type 0 where
  pub result : Bool
  pub next : Scope

-- What a `resume` of the parked `recv` leaves `root_awaiter_` at.
abbrev pub resumed_at : List (Event ℕ) → Root → Root
resumed_at [] r = r
resumed_at (receiver_resumed task (some i) ∷ rest) r = awaits i
resumed_at (receiver_resumed task none ∷ rest) r = ended
resumed_at (sender_resumed task value ∷ rest) r = r

abbrev effect : Scope → Effect (Unlimited ℕ) ℕ → Scope
effect s e = record s { root_ch = e.next; root = resumed_at e.resumed s.root }

-- `root_ch_->send(awt.release())`
unfoldable pub send_released : Scope → ℕ → Scope
unfolding send_on_ready
send_released s i = record (effect s (send_on_ready s.root_ch i)) { added = s.added ++ i ∷ [] }

-- `add_`, called in a coroutine or not. Nobody awaits the `awt` that `send` returns, so its destructor
-- calls `wait()`: in a coroutine that is `std::terminate`, which is `none`, and else the send is done
-- there, which never blocks.
unfoldable pub add_ : Bool → Scope → List ℕ → Option Scope
unfolding send_released
add_ in_coroutine s [] = some s
add_ true s (i ∷ rest) = none
add_ false s (i ∷ rest) = add_ false (send_released s i) rest

abbrev pub added_to : Option Scope → Option Added
added_to none = none
added_to (some s) = some (record { result = true; next = s })

-- `add`
unfoldable pub add : Bool → Scope → List ℕ → Option Added
unfolding add_
add in_coroutine s awts = elim s.root_ch.closed_flag [
  | false ↦ added_to (add_ in_coroutine s awts)
  | true ↦ some (record { result = false; next = s })
]

unfoldable pub empty_scope : Scope
unfolding Unlimited.make
empty_scope = record { root_ch = Unlimited.make; root = receives; added = []; awaited = [] }

-- The constructor.
unfoldable pub make : Bool → List ℕ → Option Scope
unfolding add_ empty_scope
make in_coroutine awts = add_ in_coroutine empty_scope awts

-- `await`, and the destructor, as far as the wait for the root awaiter.
unfoldable pub await : Scope → Scope
unfolding close_channel
await s = elim s.root_ch.closed_flag [ false ↦ effect s (close_channel s.root_ch) | true ↦ s ]

-- `co_await awaiters->recv(i)`: it returns at once, with a value or not, or parks.
abbrev pub after_recv : Reply → Option ℕ → Root
after_recv (ready true) (some i) = awaits i
after_recv (ready true) none = ended
after_recv (ready false) value = ended
after_recv suspended value = parked
after_recv (tried r) value = ended
after_recv finished value = ended

-- `root_awaiter_` goes on where it can; `co_await hce::awt<void>(i)` returns once `i` is complete.
unfoldable pub run_root_at : Root → Scope → Scope
unfolding recv_on_ready
run_root_at receives s =
    let e = recv_on_ready s.root_ch 0 in
    record s { root_ch = e.next; root = after_recv e.reply e.written }
run_root_at parked s = s
run_root_at (awaits i) s = record s { root = receives; awaited = s.awaited ++ i ∷ [] }
run_root_at ended s = s

-- `adds` is a call of `add` in a coroutine or not, with its awaitables.
pub data Action : Type 0 where
  adds : Bool → List ℕ → Action
  runs_root : Action
  calls_await : Action

abbrev pub scope_of : Option Added → Option Scope
scope_of none = none
scope_of (some a) = some a.next

unfoldable pub step : Scope → Action → Option Scope
step s (adds in_coroutine awts) = scope_of (add in_coroutine s awts)
step s runs_root = some (run_root_at s.root s)
step s calls_await = some (await s)

-- The actions, unless one of them terminates the process.
unfoldable pub run : Scope → List Action → Option Scope
run s [] = some s
run s (a ∷ rest) = elim (step s a) [ none ↦ none | some t ↦ run t rest ]

-- The same from the constructor.
unfoldable pub run_new : Bool → List ℕ → List Action → Option Scope
run_new in_coroutine awts acts = elim (make in_coroutine awts) [ none ↦ none | some s ↦ run s acts ]
