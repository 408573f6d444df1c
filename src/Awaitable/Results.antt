-- ===== src/Awaitable/Results.antt =====
-- What the awaitables of inc/timer.hpp, inc/scheduler.hpp and inc/blocking.hpp return to the coroutine or
-- thread that awaits them, whatever the order of Protocol.antt.
use hermesconcurrencyengine.Common.{
  ℕ, Bool, true, false, Option, none, some, ◌≡◌, refl, sym, ap, ◌∙◌, if◌then◌else◌, subst, inl,
}
use hermesconcurrencyengine.Awaitable.{Lawful}
use hermesconcurrencyengine.Awaitable.Protocol.{World, start, Reach, finished}
use hermesconcurrencyengine.Awaitable.Protocol.Shapes.{Over}
use hermesconcurrencyengine.Awaitable.Protocol.Wakeups.{finished_lem}
use hermesconcurrencyengine.Awaitable.Implementations.{Reschedule, FreshAt, reschedule}
use hermesconcurrencyengine.Awaitable.Implementations.Timers
use hermesconcurrencyengine.Awaitable.Implementations.Timers.{TimerAwaitable}
use hermesconcurrencyengine.Awaitable.Implementations.Joining
use hermesconcurrencyengine.Awaitable.Implementations.Joining.{Joiner}
use hermesconcurrencyengine.Awaitable.Implementations.Calls
use hermesconcurrencyengine.Awaitable.Implementations.Calls.{AsyncPartial}

-- An awaitable before it is awaited, with no destination yet.
abbrev pub unawaited : {S : Type 0} → S → Reschedule S
unawaited s = record { inner = s; destination = none }

module _ {S M : Type 0} (ready : S → Bool) (resumed : M → S → S) where
  inner-Over :
      (scheduler : Option ℕ) (made : S) (m : M) {r : Reschedule S}
      → Over (reschedule ready resumed scheduler) (FreshAt made scheduler) m r
      → r.inner ≡ resumed m made
  unfolding reschedule
  inner-Over scheduler made m (r0, (same, d), e) = ap (λ r. r.inner) e ∙ ap (resumed m) same

  finished-inner :
      (scheduler : Option ℕ) (made : S)
      → Lawful (reschedule ready resumed scheduler) (FreshAt made scheduler)
      → (caller : Option ℕ) (m : M) {w : World (Reschedule S)}
      → Reach
          (reschedule ready resumed scheduler)
          m
          (start (reschedule ready resumed scheduler) m caller (unawaited made))
          w
      → w.awaiter ≡ finished
      → w.interface.state.inner ≡ resumed m made
  finished-inner scheduler made law caller m r e =
      let (over, same) =
        finished_lem _ (FreshAt made scheduler) m law caller (unawaited made) (refl, inl refl) r
          e in
      inner-Over scheduler made m over

-- A timer's awaitable, once awaited, returns whether `resume` was passed `(void*)1`, and its
-- destructor does not terminate the process.
pub timer_result :
    (caller scheduler : Option ℕ) (m : Bool) {w : World (Reschedule TimerAwaitable)}
    → Reach
        (Timers.implementation scheduler)
        m
        (start (Timers.implementation scheduler) m caller (unawaited Timers.make))
        w
    → w.awaiter ≡ finished
    → (w.interface.state.inner.result ≡ m)
      × (Timers.destroy w.interface.state.inner ≡ some w.interface.state.inner)
unfolding Timers.implementation Timers.destroy Timers.on_resume
timer_result caller scheduler m r e =
    let over =
      finished-inner _ _ scheduler Timers.make (Timers.implementation-Lawful scheduler) caller m r
        e in
    subst (λ a. (a.result ≡ m) × (Timers.destroy a ≡ some a)) (sym over) (refl, refl)

module _ {T : Type 0} where
  joiner-inner :
      (caller scheduler : Option ℕ) (m : Option (Option T)) {w : World (Reschedule (Joiner T))}
      → Reach
          (Joining.implementation scheduler)
          m
          (start (Joining.implementation scheduler) m caller (unawaited Joining.make))
          w
      → w.awaiter ≡ finished
      → w.interface.state.inner ≡ Joining.on_resume m Joining.make
  unfolding Joining.implementation
  joiner-inner caller scheduler m r e =
      finished-inner _ _ scheduler Joining.make (Joining.implementation-Lawful scheduler) caller m r
        e

  get_result-cleanup :
      (done : Bool) (result : Option T)
      → Joining.get_result (Joining.on_resume (Joining.cleanup done result) Joining.make)
        ≡ (if done then result else none)
  unfolding Joining.get_result Joining.on_resume Joining.cleanup Joining.make
  get_result-cleanup true result = refl
  get_result-cleanup false result = refl

  -- A joiner that the cleanup handler of a coroutine resumes, and whose await has finished, returns
  -- the coroutine's result if the coroutine was done, and has none (it throws) if the coroutine was
  -- destroyed before.
  pub joined_result :
      (caller scheduler : Option ℕ) (done : Bool) (result : Option T)
      {w : World (Reschedule (Joiner T))}
      → Reach
          (Joining.implementation scheduler)
          (Joining.cleanup done result)
          (start
            (Joining.implementation scheduler)
            (Joining.cleanup done result)
            caller
            (unawaited Joining.make))
          w
      → w.awaiter ≡ finished
      → Joining.get_result w.interface.state.inner ≡ (if done then result else none)
  joined_result caller scheduler done result r e =
      ap Joining.get_result (joiner-inner caller scheduler (Joining.cleanup done result) r e)
      ∙ get_result-cleanup done result

  -- An asynchronous call, once awaited, returns the value that its `resume` was passed.
  pub call_result :
      (caller scheduler : Option ℕ) (value : T) {w : World (Reschedule (AsyncPartial T))}
      → Reach
          (Calls.implementation scheduler)
          value
          (start (Calls.implementation scheduler) value caller (unawaited Calls.make))
          w
      → w.awaiter ≡ finished
      → Calls.get_result w.interface.state.inner ≡ some value
  unfolding Calls.implementation Calls.get_result Calls.on_resume
  call_result caller scheduler value r e =
      ap (λ a. a.t)
        (finished-inner _ _ scheduler Calls.make (Calls.implementation-Lawful scheduler) caller
          value r e)
