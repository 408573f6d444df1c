-- ===== src/Awaitable/Implementations/Joining.antt =====
-- inc/scheduler.hpp: `detail::scheduler::joiner<T>`. `resume` is passed the promise's result, or `nullptr`
-- (`none`); the promise's own pointer may hold no value.
use hermesconcurrencyengine.Common.{ℕ, Bool, true, false, Option, none, some, ◌≡◌, refl}
use hermesconcurrencyengine.Awaitable.{Implementation, Lawful}
use hermesconcurrencyengine.Awaitable.Implementations.{
  Reschedule, FreshAt, reschedule, reschedule-Lawful,
}

pub record Joiner (T : Type 0) : Type 0 where
  pub ready : Bool
  pub t : Option T

module _ {T : Type 0} where
  unfoldable pub make : Joiner T
  make = record { ready = false; t = none }

  unfoldable pub on_resume : Option (Option T) → Joiner T → Joiner T
  on_resume (some result) j = record { ready = true; t = result }
  on_resume none j = record j { ready = true }

  -- `none` where `awaitable_destroyed_without_joining_result` is thrown.
  unfoldable pub get_result : Joiner T → Option T
  get_result j = j.t

  -- `joiner<T>::cleanup`: what it passes to `resume`.
  unfoldable pub cleanup : Bool → Option T → Option (Option T)
  cleanup done result = elim done [ true ↦ some result | false ↦ none ]

  -- A joiner has no `on_suspend` of its own; the scheduler's is that of `reschedule`.
  unfoldable pub implementation :
      Option ℕ → Implementation (Reschedule (Joiner T)) (Option (Option T))
  unfolding on_resume
  implementation = reschedule (λ j. j.ready) on_resume

module _ {T : Type 0} where
  on_resume-ready : (m : Option (Option T)) (j : Joiner T) → (on_resume m j).ready ≡ true
  unfolding on_resume
  on_resume-ready none j = refl
  on_resume-ready (some result) j = refl

  pub implementation-Lawful :
      (scheduler : Option ℕ) → Lawful (implementation {T = T} scheduler) (FreshAt make scheduler)
  unfolding make implementation
  implementation-Lawful scheduler =
      reschedule-Lawful _ _ scheduler make refl (λ m. on_resume-ready m make)
