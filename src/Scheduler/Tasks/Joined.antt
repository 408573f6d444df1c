-- ===== src/Scheduler/Tasks/Joined.antt =====
-- What comes of a coroutine that `schedule` of inc/scheduler.hpp accepts.
use hermesconcurrencyengine.Common.{
  ℕ, ◌+◌, Bool, true, false, Option, none, some, List, [], ◌∷◌, ◌++◌, ◌≡◌, ◌≢◌, refl, ◌∙◌, ◌⊎◌, inl,
  inr, count, count-append, is_same, arith, subst, if◌then◌else◌,
}
use hermesconcurrencyengine.Scheduler
use hermesconcurrencyengine.Scheduler.{Scheduler, State, executing, suspended, halted}
use hermesconcurrencyengine.Scheduler.Tasks.{
  Tasks, Passed, returns, Scheduled, co_return, unhandled_exception, cleanup, destroy,
  install_joiner, schedule_at, schedule,
}
use hermesconcurrencyengine.Awaitable.Protocol.{World, start, Reach, finished}
use hermesconcurrencyengine.Awaitable.Implementations.{Reschedule}
use hermesconcurrencyengine.Awaitable.Implementations.Joining
use hermesconcurrencyengine.Awaitable.Implementations.Joining.{Joiner}
use hermesconcurrencyengine.Awaitable.Results.{unawaited, joined_result}
use hermesconcurrencyengine.Coroutine.Cleanup.{install}

-- How a coroutine ends: it returns a value, an exception leaves it, or it is destroyed before.
pub data Ending (T : Type 0) : Type 0 where
  returns_value : T → Ending T
  throws : Ending T
  unfinished : Ending T

-- The times that a scheduler has a handle.
abbrev pub queued : ℕ → Scheduler → ℕ
queued g s = count g s.coroutine_queue + count g s.local_queue

pub queued-local :
    (g h : ℕ) (s : Scheduler) → queued g (Scheduler.schedule_local s h) ≡ is_same g h + queued g s
unfolding Scheduler.schedule_local
queued-local g h s = omega (arith, count-append g s.local_queue (h ∷ []))

-- `schedule_` from another thread, at a scheduler that is not halted.
abbrev pub accepted : Scheduler → ℕ → Scheduler
accepted s h =
    Scheduler.coroutines_notify (record s { coroutine_queue = s.coroutine_queue ++ h ∷ [] })

pub accepts :
    (s : Scheduler) (h : ℕ) → s.state ≢ halted → Scheduler.schedule s h ≡ some (accepted s h)
unfolding Scheduler.schedule
accepts s h e = ground (arith, e)

pub queued-remote : (g h : ℕ) (s : Scheduler) → queued g (accepted s h) ≡ is_same g h + queued g s
unfolding Scheduler.coroutines_notify
queued-remote g h s = ground (arith, count-append g s.coroutine_queue (h ∷ []))

-- The promise has the new joiner's handler before the older ones, no other frame changes, and the
-- scheduler has the handle once more.
abbrev pub Accepts : {T : Type 0} → ℕ → Tasks T → Scheduled T → Type 0
Accepts h s r =
    (r.outcome ≡ returns s.joiners)
    × ((r.next.frame h).cleanup_list ≡ s.joiners ∷ (s.frame h).cleanup_list)
    × ((r.next.frame h).done ≡ false)
    × ((r.next.frame h).result ≡ (s.frame h).result)
    × ((g : ℕ) → g ≢ h → r.next.frame g ≡ s.frame g)
    × ((g : ℕ) → queued g r.next.scheduler ≡ is_same g h + queued g s.scheduler)

module _ {T : Type 0} where
  remote-Accepts :
      (is_in : Bool) (h : ℕ) (s : Tasks T)
      → (s.frame h).done ≡ false
      → s.scheduler.state ≢ halted
      → Accepts h s (schedule_at false is_in h s.joiners (install_joiner h s))
  unfolding install_joiner install
  remote-Accepts is_in h s e n = rw (accepts s.scheduler h n) (
    refl,
    ground arith,
    ground (arith, e),
    ground arith,
    λ g ne. ground (arith, ne),
    λ g. queued-remote g h s.scheduler,
  )

  local-Accepts :
      (is_in : Bool) (h : ℕ) (s : Tasks T)
      → (s.frame h).done ≡ false
      → Accepts h s (schedule_at true is_in h s.joiners (install_joiner h s))
  unfolding install_joiner install
  local-Accepts is_in h s e = (
    refl,
    ground arith,
    ground (arith, e),
    ground arith,
    λ g ne. ground (arith, ne),
    λ g. queued-local g h s.scheduler,
  )

  -- A coroutine that is not done, and that a coroutine of this scheduler schedules, or any thread
  -- while the scheduler is not halted, is accepted: `schedule` returns a new joiner, whose handler
  -- comes before those of older joiners, and the scheduler has the handle once more than before, and
  -- every other handle as often.
  pub schedule-Accepts :
      (is_local is_in : Bool) (h : ℕ) (s : Tasks T)
      → (s.frame h).done ≡ false
      → (is_local ≡ true) ⊎ (s.scheduler.state ≢ halted)
      → Accepts h s (schedule is_local is_in (some h) s)
  unfolding schedule
  schedule-Accepts true is_in h s e w = rw (e, schedule) (local-Accepts is_in h s e)
  schedule-Accepts false is_in h s e (inl w) = cc
  schedule-Accepts false is_in h s e (inr w) = rw (e, schedule) (remote-Accepts is_in h s e w)

  abbrev pub went : Ending T → ℕ → Tasks T → Tasks T
  went (returns_value v) h s = co_return h v s
  went throws h s = unhandled_exception h s
  went unfinished h s = s

  -- The value that there is to join with.
  abbrev pub value_of : Ending T → Option T
  value_of (returns_value v) = some v
  value_of throws = none
  value_of unfinished = none

  abbrev is_done : Ending T → Bool
  is_done (returns_value v) = true
  is_done throws = true
  is_done unfinished = false

  first_passed :
      (o : Ending T) (h j : ℕ) (js : List ℕ) (s : Tasks T)
      → (s.frame h).done ≡ false
      → (s.frame h).result ≡ none
      → (s.frame h).cleanup_list ≡ j ∷ js
      → {x : Passed T} {rest : List (Passed T)} → (destroy h (went o h s)).passed ≡ x ∷ rest
      → (x.joiner ≡ j) × (x.message ≡ Joining.cleanup (is_done o) (value_of o))
  unfolding destroy co_return unhandled_exception cleanup Joining.cleanup
  first_passed (returns_value v) h j js s e n l p = ground (arith, e, l, p)
  first_passed throws h j js s e n l p = ground (arith, e, n, l, p)
  first_passed unfinished h j js s e n l p = ground (arith, e, n, l, p)

  ending-result : (o : Ending T) → (if is_done o then value_of o else none) ≡ value_of o
  ending-result (returns_value v) = refl
  ending-result throws = refl
  ending-result unfinished = refl

  message-result :
      (o : Ending T) (caller scheduler : Option ℕ) {m : Option (Option T)}
      {w : World (Reschedule (Joiner T))}
      → m ≡ Joining.cleanup (is_done o) (value_of o)
      → Reach
          (Joining.implementation scheduler)
          m
          (start (Joining.implementation scheduler) m caller (unawaited Joining.make))
          w
      → w.awaiter ≡ finished
      → Joining.get_result w.interface.state.inner ≡ value_of o
  message-result o caller scheduler {w} e r f =
      joined_result caller scheduler (is_done o) (value_of o)
        (subst
          (λ m.
            Reach (Joining.implementation scheduler) m
              (start (Joining.implementation scheduler) m caller (unawaited Joining.make)) w)
          e r)
        f
      ∙ ending-result o

  -- If `schedule` accepts a coroutine that is not done and has no result yet, and the coroutine
  -- then returns a value, throws, or does neither, and is destroyed, then the handler that is
  -- called first is that of the new joiner; and the awaiter of that joiner, once its await has
  -- finished, gets the value if one was returned, and else none (`get_result` throws), whatever the
  -- order of the await and of the handler's `resume`.
  pub joined_value :
      (is_local is_in : Bool) (h : ℕ) (s : Tasks T) (o : Ending T) (caller scheduler : Option ℕ)
      {x : Passed T} {rest : List (Passed T)} {w : World (Reschedule (Joiner T))}
      → (s.frame h).done ≡ false
      → (s.frame h).result ≡ none
      → (is_local ≡ true) ⊎ (s.scheduler.state ≢ halted)
      → (destroy h (went o h (schedule is_local is_in (some h) s).next)).passed ≡ x ∷ rest
      → Reach
          (Joining.implementation scheduler)
          x.message
          (start (Joining.implementation scheduler) x.message caller (unawaited Joining.make))
          w
      → w.awaiter ≡ finished
      → (x.joiner ≡ s.joiners) × (Joining.get_result w.interface.state.inner ≡ value_of o)
  joined_value is_local is_in h s o caller scheduler e n a p r f =
      let (outcome, list, left, empty, others, kept) = schedule-Accepts is_local is_in h s e a in
      let (same, message) =
        first_passed o h s.joiners (s.frame h).cleanup_list
          (schedule is_local is_in (some h) s).next left (empty ∙ n) list p in
      (same, message-result o caller scheduler message r f)
