-- ===== src/Scheduler/Tasks.antt =====
-- inc/scheduler.hpp and inc/coroutine.hpp: `scheduler::schedule` of a `co<T>`, from the joiner that it
-- installs in the promise, over `co_return`, to the cleanup handlers that run when the frame is
-- destroyed. A frame is named by its handle, and a joiner by the order in which they are made.
pub mod Joined
pub mod Lost
use hermesconcurrencyengine.Common.{
  ℕ, suc, Bool, true, false, Option, none, some, List, [], ◌∷◌, if◌then◌else◌, ◌==◌,
}
use hermesconcurrencyengine.Scheduler
use hermesconcurrencyengine.Scheduler.{Scheduler}
use hermesconcurrencyengine.Awaitable
use hermesconcurrencyengine.Awaitable.{Interface, defer, lock}
use hermesconcurrencyengine.Awaitable.Implementations.{Reschedule}
use hermesconcurrencyengine.Awaitable.Implementations.Joining
use hermesconcurrencyengine.Awaitable.Implementations.Joining.{Joiner}
use hermesconcurrencyengine.Awaitable.Results.{unawaited}
use hermesconcurrencyengine.Awaitable.Wrapper.{Wait, wait}
use hermesconcurrencyengine.Coroutine.Cleanup.{install}

-- A frame whose coroutine is suspended or done, with the `result` and the `cleanup_list_` of its promise.
pub record Frame (T : Type 0) : Type 0 where
  pub done : Bool
  pub result : Option T
  pub cleanup_list : List ℕ

pub record Tasks (T : Type 0) : Type 0 where
  pub scheduler : Scheduler
  pub frame : ℕ → Frame T
  pub joiners : ℕ

-- What a cleanup handler passes to the `resume` of its joiner.
pub record Passed (T : Type 0) : Type 0 where
  pub joiner : ℕ
  pub message : Option (Option T)

pub record Destroyed (T : Type 0) : Type 0 where
  pub passed : List (Passed T)
  pub next : Tasks T

-- How `schedule` ends: it throws, after the handlers of a frame that it destroys; it returns the awaitable
-- of this joiner; or `schedule_` throws, and then the destructor of the awaitable waits.
pub data Outcome (T : Type 0) : Type 0 where
  null_coroutine_exception : Outcome T
  done_coroutine_exception : List (Passed T) → Outcome T
  returns : ℕ → Outcome T
  unwinds : Wait (Reschedule (Joiner T)) → Outcome T

pub record Scheduled (T : Type 0) : Type 0 where
  pub outcome : Outcome T
  pub next : Tasks T

module _ {T : Type 0} where
  abbrev pub update : (ℕ → Frame T) → ℕ → Frame T → ℕ → Frame T
  update f h x g = if h == g then x else f g

  -- `return_value`, and the final suspension after it.
  unfoldable pub co_return : ℕ → T → Tasks T → Tasks T
  co_return h v s = record s {
    frame = update s.frame h (record (s.frame h) { done = true; result = some v });
  }

  -- `unhandled_exception`, and the final suspension after it: the promise keeps the exception, which no
  -- handler of a joiner reads.
  unfoldable pub unhandled_exception : ℕ → Tasks T → Tasks T
  unhandled_exception h s = record s {
    frame = update s.frame h (record (s.frame h) { done = true });
  }

  -- `co<T>::promise_type::cleanup` with the handlers of joiners. The first of them moves the result out.
  unfoldable pub cleanup : Bool → Option T → List ℕ → List (Passed T)
  cleanup done result [] = []
  cleanup done result (j ∷ js) =
      record { joiner = j; message = Joining.cleanup done result }
      ∷ cleanup done (if done then none else result) js

  -- `destroy_` of a coroutine object that holds the handle.
  unfoldable pub destroy : ℕ → Tasks T → Destroyed T
  unfolding cleanup
  destroy h s =
      let f = s.frame h in
      record {
        passed = cleanup f.done f.result f.cleanup_list;
        next = record s {
          frame = update s.frame h (record f { result = none; cleanup_list = [] });
        };
      }

  -- `new joiner<T>(co)`, which `schedule` makes an awaitable of.
  unfoldable pub make_joiner : Interface (Reschedule (Joiner T))
  unfolding Joining.make
  make_joiner = Awaitable.make defer lock (unawaited Joining.make)

  unfoldable pub install_joiner : ℕ → Tasks T → Tasks T
  unfolding install
  install_joiner h s =
      let f = s.frame h in
      record s {
        frame = update s.frame h (record f { cleanup_list = install f.cleanup_list s.joiners });
        joiners = suc s.joiners;
      }

  abbrev remote_result : Bool → ℕ → Option Scheduler → Tasks T → Scheduled T
  remote_result is_in j (some scheduler) s = record {
    outcome = returns j;
    next = record s { scheduler = scheduler };
  }
  remote_result is_in j none s = record {
    outcome =
        unwinds (wait (Joining.implementation none) is_in (record { impl = some make_joiner }));
    next = s;
  }

  abbrev schedule_at : Bool → Bool → ℕ → ℕ → Tasks T → Scheduled T
  schedule_at true is_in h j s = record {
    outcome = returns j;
    next = record s { scheduler = Scheduler.schedule_local s.scheduler h };
  }
  schedule_at false is_in h j s = remote_result is_in j (Scheduler.schedule s.scheduler h) s

  abbrev schedule_valid : Bool → Bool → Bool → ℕ → Tasks T → Scheduled T
  schedule_valid true is_local is_in h s =
      let d = destroy h s in record { outcome = done_coroutine_exception d.passed; next = d.next }
  schedule_valid false is_local is_in h s =
      schedule_at is_local is_in h s.joiners (install_joiner h s)

  -- `is_local` is whether the calling thread is in `run()` of this scheduler, and `is_in` is
  -- `coroutine::in()` on it.
  unfoldable pub schedule : Bool → Bool → Option ℕ → Tasks T → Scheduled T
  unfolding destroy install_joiner make_joiner
  schedule is_local is_in none s = record { outcome = null_coroutine_exception; next = s }
  schedule is_local is_in (some h) s = schedule_valid (s.frame h).done is_local is_in h s
