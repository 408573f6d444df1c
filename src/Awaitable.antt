-- ===== src/Awaitable.antt =====
-- inc/coroutine.hpp: `awaitable::interface` and `awaitable::lockable`, the part of an awaitable that
-- every blocking operation shares, and `detail::coroutine::this_thread`, on which a thread that is no
-- coroutine blocks. What an operation adds to it is an `Implementation`.
pub mod Protocol
pub mod Implementations
pub mod Results
pub mod Wrapper
mod Tests
use hermesconcurrencyengine.Common.{ℕ, Bool, true, false, Option, none, some, not, ◌≡◌}

-- `await::policy` and `resume::policy`
pub data AwaitPolicy : Type 0 where
  adopt : AwaitPolicy
  defer : AwaitPolicy

pub data ResumePolicy : Type 0 where
  adopts : ResumePolicy
  lock : ResumePolicy
  no_lock : ResumePolicy

-- The pure virtual functions of `interface`; `M` is what `resume` is passed.
pub record Implementation (S M : Type 0) : Type 0 where
  pub on_ready : S → Bool
  pub on_suspend : S → S
  pub on_resume : M → S → S

-- What the implementations of `inc/` promise, with `Fresh` the states before `resume`: a fresh operation
-- is not ready and stays fresh when it suspends, and one that was resumed is ready.
pub record Lawful {S M : Type 0} (I : Implementation S M) (Fresh : S → Type 0) : Type 0 where
  pub ready-fresh : (s : S) → Fresh s → I.on_ready s ≡ false
  pub suspend-Fresh : (s : S) → Fresh s → Fresh (I.on_suspend s)
  pub ready-resume : (m : M) (s : S) → Fresh s → I.on_ready (I.on_resume m s) ≡ true

-- `tt` is whether `tt_` is set, and `locked` the flag `locked_`, so whether the lock is held.
pub record Interface (S : Type 0) : Type 0 where
  pub state : S
  pub awaited : Bool
  pub tt : Bool
  pub handle : Option ℕ
  pub locked : Bool
  pub await_policy : AwaitPolicy
  pub resume_policy : ResumePolicy

-- What `await_ready` returns: the coroutine or thread goes on, or it suspends.
pub record Ready (S : Type 0) : Type 0 where
  pub result : Bool
  pub next : Interface S

-- What `resume` has left to do once the lock is released.
pub data Wakes : Type 0 where
  to_destination : ℕ → Wakes
  unblock : Wakes
  not_blocked : Wakes

pub record Resumed (S : Type 0) : Type 0 where
  pub wakes : Wakes
  pub next : Interface S

module _ {S : Type 0} where
  abbrev pub acquire : Interface S → Interface S
  acquire a = record a { locked = true }

  abbrev pub unlock : Interface S → Interface S
  unlock a = record a { locked = false }

  -- The constructor of `lockable`.
  unfoldable pub make : AwaitPolicy → ResumePolicy → S → Interface S
  make ap rp s = record {
    state = s;
    awaited = false;
    tt = false;
    handle = none;
    locked = elim ap [ adopt ↦ true | defer ↦ false ];
    await_policy = ap;
    resume_policy = rp;
  }

  -- The destructors of `lockable` and `interface`: `none` where the process terminates.
  unfoldable pub destroy : Interface S → Option (Interface S)
  destroy a = elim a.handle [ some h ↦ none | none ↦ some (unlock a) ]

  abbrev unlock_unless_no_lock : ResumePolicy → Interface S → Interface S
  unlock_unless_no_lock adopts a = unlock a
  unlock_unless_no_lock lock a = unlock a
  unlock_unless_no_lock no_lock a = a

  abbrev lock_to_await : AwaitPolicy → Interface S → Interface S
  lock_to_await adopt a = a
  lock_to_await defer a = acquire a

  abbrev lock_to_resume : ResumePolicy → Interface S → Interface S
  lock_to_resume adopts a = a
  lock_to_resume lock a = acquire a
  lock_to_resume no_lock a = a

module _ {S M : Type 0} (I : Implementation S M) where
  unfoldable pub await_ready : Interface S → Ready S
  await_ready a =
      let asked = record (lock_to_await a.await_policy a) { awaited = true } in
      elim (I.on_ready a.state) [
        | true ↦ record { result = true; next = unlock asked }
        | false ↦ record { result = false; next = asked }
      ]

  -- `await_suspend` of a coroutine, which gives its handle up, to the end of the call.
  unfoldable pub await_suspend : ℕ → Interface S → Interface S
  await_suspend h a = unlock (record a { state = I.on_suspend a.state; handle = some h })

  -- `await_suspend` of a thread, as far as the loop of `block_`.
  unfoldable pub await_block : Interface S → Interface S
  await_block a = record a { state = I.on_suspend a.state; tt = true }

  abbrev resume_tt : Bool → Interface S → Resumed S
  resume_tt true a = record {
    wakes = unblock;
    next = unlock_unless_no_lock a.resume_policy (record a { tt = false });
  }
  resume_tt false a = record { wakes = not_blocked; next = unlock_unless_no_lock a.resume_policy a }

  abbrev resume_handle : Option ℕ → Interface S → Resumed S
  resume_handle (some h) a = record {
    wakes = to_destination h;
    next = unlock_unless_no_lock a.resume_policy (record a { handle = none });
  }
  resume_handle none a = resume_tt a.tt a

  unfoldable pub resume : M → Interface S → Resumed S
  resume m a =
      let held = lock_to_resume a.resume_policy a in
      resume_handle held.handle (record held { state = I.on_resume m held.state })
