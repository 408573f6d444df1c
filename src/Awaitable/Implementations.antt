-- ===== src/Awaitable/Implementations.antt =====
-- The operations that complete awaitables by one `resume`: the timers of inc/timer.hpp, the joiners of
-- inc/scheduler.hpp, and the calls of inc/blocking.hpp. Each is `defer` and `lock`, and so is awaited
-- and resumed as in Protocol.antt. `on_suspend` is the one of `scheduler::reschedule`.
pub mod Timers
pub mod Joining
pub mod Calls
use hermesconcurrencyengine.Common.{
  ℕ, Bool, true, false, Option, none, some, ◌≡◌, refl, ap, ◌∙◌, ◌⊎◌, inr,
}
use hermesconcurrencyengine.Awaitable.{Implementation, Lawful}

-- `reschedule`: what the interface keeps, and the scheduler that a resumed coroutine goes back to.
-- `tl_this_scheduler` is the scheduler of the thread that awaits.
pub record Reschedule (S : Type 0) : Type 0 where
  pub inner : S
  pub destination : Option ℕ

module _ {S : Type 0} where
  unfoldable pub on_suspend : Option ℕ → Reschedule S → Reschedule S
  on_suspend (some scheduler) r = record r { destination = some scheduler }
  on_suspend none r = r

  -- `to_destination`: the scheduler whose `schedule_` gets the handle; `none` is a null pointer.
  unfoldable pub to_destination : Reschedule S → Option ℕ
  to_destination r = r.destination

  -- A fresh operation whose destination, if it has one, is the scheduler of the thread that awaits.
  abbrev pub FreshAt : S → Option ℕ → Reschedule S → Type 0
  FreshAt made scheduler r =
      (r.inner ≡ made) × ((r.destination ≡ none) ⊎ (r.destination ≡ scheduler))

  unfoldable pub reschedule :
      {M : Type 0} → (S → Bool) → (M → S → S) → Option ℕ → Implementation (Reschedule S) M
  unfolding on_suspend
  reschedule ready resumed tl_this_scheduler = record {
    on_ready = λ r. ready r.inner;
    on_suspend = on_suspend tl_this_scheduler;
    on_resume = λ m r. record r { inner = resumed m r.inner };
  }

module _ {S M : Type 0} where
  pub reschedule-Lawful :
      (ready : S → Bool) (resumed : M → S → S) (scheduler : Option ℕ) (made : S)
      → ready made ≡ false
      → ((m : M) → ready (resumed m made) ≡ true)
      → Lawful (reschedule ready resumed scheduler) (FreshAt made scheduler)
  unfolding reschedule on_suspend
  reschedule-Lawful ready resumed none made h g = record {
    ready-fresh = λ s (e, d). ap ready e ∙ h;
    suspend-Fresh = λ s f. f;
    ready-resume = λ m s (e, d). ap (λ x. ready (resumed m x)) e ∙ g m;
  }
  reschedule-Lawful ready resumed (some scheduler) made h g = record {
    ready-fresh = λ s (e, d). ap ready e ∙ h;
    suspend-Fresh = λ s (e, d). (e, inr refl);
    ready-resume = λ m s (e, d). ap (λ x. ready (resumed m x)) e ∙ g m;
  }
