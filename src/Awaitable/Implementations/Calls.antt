-- ===== src/Awaitable/Implementations/Calls.antt =====
-- inc/blocking.hpp: `blocking::detail::async_partial<T>`, which `resume` always passes a value, and
-- `sync_partial<T>`, which holds its value from the start and is never resumed.
use hermesconcurrencyengine.Common.{ℕ, Bool, true, false, Option, none, some, refl}
use hermesconcurrencyengine.Awaitable.{Implementation, Lawful}
use hermesconcurrencyengine.Awaitable.Implementations.{
  Reschedule, FreshAt, reschedule, reschedule-Lawful,
}

pub record AsyncPartial (T : Type 0) : Type 0 where
  pub ready : Bool
  pub t : Option T

module _ {T : Type 0} where
  unfoldable pub make : AsyncPartial T
  make = record { ready = false; t = none }

  unfoldable pub on_resume : T → AsyncPartial T → AsyncPartial T
  on_resume m a = record { ready = true; t = some m }

  unfoldable pub get_result : AsyncPartial T → Option T
  get_result a = a.t

  unfoldable pub implementation : Option ℕ → Implementation (Reschedule (AsyncPartial T)) T
  unfolding on_resume
  implementation = reschedule (λ a. a.ready) on_resume

  pub implementation-Lawful :
      (scheduler : Option ℕ) → Lawful (implementation scheduler) (FreshAt make scheduler)
  unfolding make implementation on_resume
  implementation-Lawful scheduler = reschedule-Lawful _ _ scheduler make refl (λ m. refl)

pub record SyncPartial (T : Type 0) : Type 0 where
  pub value : T

module _ {T : Type 0} where
  unfoldable pub get_sync_result : SyncPartial T → T
  get_sync_result a = a.value

  unfoldable pub sync_implementation : Option ℕ → Implementation (Reschedule (SyncPartial T)) T
  sync_implementation = reschedule (λ a. true) (λ m a. a)
