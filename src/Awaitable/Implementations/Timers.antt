-- ===== src/Awaitable/Implementations/Timers.antt =====
-- inc/timer.hpp: `timer::service::awaitable`.
use hermesconcurrencyengine.Common.{ℕ, Bool, true, false, Option, none, some, refl}
use hermesconcurrencyengine.Awaitable.{Implementation, Lawful}
use hermesconcurrencyengine.Awaitable.Implementations.{
  Reschedule, FreshAt, reschedule, reschedule-Lawful,
}

pub record TimerAwaitable : Type 0 where
  pub ready : Bool
  pub result : Bool

unfoldable pub make : TimerAwaitable
make = record { ready = false; result = false }

unfoldable pub on_resume : Bool → TimerAwaitable → TimerAwaitable
on_resume m a = record { ready = true; result = m }

-- The destructor: `none` where the process terminates.
unfoldable pub destroy : TimerAwaitable → Option TimerAwaitable
destroy a = elim a.ready [ true ↦ some a | false ↦ none ]

unfoldable pub implementation : Option ℕ → Implementation (Reschedule TimerAwaitable) Bool
unfolding on_resume
implementation = reschedule (λ a. a.ready) on_resume

pub implementation-Lawful :
    (scheduler : Option ℕ) → Lawful (implementation scheduler) (FreshAt make scheduler)
unfolding make implementation on_resume
implementation-Lawful scheduler = reschedule-Lawful _ _ scheduler make refl (λ m. refl)
