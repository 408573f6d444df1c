-- ===== src/Awaitable/Wrapper.antt =====
-- inc/coroutine.hpp: `hce::awaitable`, which owns an interface and waits for it in its destructor, and
-- `hce::yield`; with `scheduler::migrater` of inc/scheduler.hpp. `is_in` is `coroutine::in()`, and
-- `is_in_scheduler` is `scheduler::in()`.
use hermesconcurrencyengine.Common.{
  ℕ, Bool, true, false, Bool-cases, Option, none, some, List, [], ◌∷◌, ◌++◌, ◌&&◌, not, ◌≡◌, refl,
  ap, inl, inr,
}
use hermesconcurrencyengine.Awaitable.{Implementation, Interface, await_ready, await_block}

pub record Awaitable (S : Type 0) : Type 0 where
  pub impl : Option (Interface S)

-- What `wait` comes to: it does nothing; the process terminates, because a coroutine did not
-- `co_await`; the operation was ready; or the thread blocks in the loop of `block_`.
pub data Wait (S : Type 0) : Type 0 where
  nothing : Wait S
  terminates : Wait S
  returns : Awaitable S → Wait S
  blocks : Awaitable S → Wait S

module _ {S : Type 0} where
  unfoldable pub is_valid : Awaitable S → Bool
  is_valid a = elim a.impl [ some i ↦ true | none ↦ false ]

  -- `release`: the interface, and an awaitable with none.
  unfoldable pub release : Awaitable S → Awaitable S
  release a = record { impl = none }

module _ {S M : Type 0} (I : Implementation S M) where
  abbrev wait_result : Bool → Interface S → Wait S
  wait_result true i = returns (record { impl = some i })
  wait_result false i = blocks (record { impl = some (await_block I i) })

  abbrev wait_awaited : Bool → Bool → Interface S → Wait S
  wait_awaited true is_in i = nothing
  wait_awaited false true i = terminates
  wait_awaited false false i = let r = await_ready I i in wait_result r.result r.next

  abbrev wait_impl : Bool → Option (Interface S) → Wait S
  wait_impl is_in none = nothing
  wait_impl is_in (some i) = wait_awaited i.awaited is_in i

  -- `wait`, which is also the destructor.
  unfoldable pub wait : Bool → Awaitable S → Wait S
  wait is_in a = wait_impl is_in a.impl

  -- What a `wait` of a thread leaves, once it is over.
  abbrev pub waited : Awaitable S → Wait S → Awaitable S
  waited a nothing = a
  waited a terminates = a
  waited a (returns b) = b
  waited a (blocks b) = b

  await_ready-awaited : (i : Interface S) → (await_ready I i).next.awaited ≡ true
  unfolding await_ready
  await_ready-awaited i = elim (Bool-cases (I.on_ready i.state)) [
    | inl e ↦ rw (await_ready, e) refl
    | inr e ↦ rw (await_ready, e) refl
  ]

  wait-result :
      (result : Bool) (i : Interface S) (a : Awaitable S) (is_in : Bool)
      → i.awaited ≡ true
      → wait is_in (waited a (wait_result result i)) ≡ nothing
  unfolding wait await_block
  wait-result true i a is_in e = ap (λ f. wait_awaited f is_in i) e
  wait-result false i a is_in e = ap (λ f. wait_awaited f is_in (await_block I i)) e

  wait-flag :
      (flag : Bool) (i : Interface S) (is_in : Bool)
      → i.awaited ≡ flag
      → wait is_in (waited (record { impl = some i }) (wait_awaited flag false i)) ≡ nothing
  unfolding wait
  wait-flag true i is_in e = ap (λ f. wait_awaited f is_in i) e
  wait-flag false i is_in e =
      wait-result (await_ready I i).result (await_ready I i).next (record { impl = some i }) is_in
        (await_ready-awaited i)

  wait-impl :
      (o : Option (Interface S)) (is_in : Bool)
      → wait is_in (waited (record { impl = o }) (wait_impl false o)) ≡ nothing
  unfolding wait
  wait-impl none is_in = refl
  wait-impl (some i) is_in = wait-flag i.awaited i is_in refl

  -- Once a thread has waited for an awaitable, another `wait`, as in its destructor, does nothing,
  -- in a coroutine or not.
  pub wait-waited :
      (a : Awaitable S) (is_in : Bool) → wait is_in (waited a (wait false a)) ≡ nothing
  unfolding wait
  wait-waited a is_in = wait-impl a.impl is_in

-- `yield<T>`
pub record Yield (T : Type 0) : Type 0 where
  pub awaited : Bool
  pub t : T

module _ {T : Type 0} where
  unfoldable pub yield_of : T → Yield T
  yield_of t = record { awaited = false; t = t }

  -- `await_ready`, which always suspends.
  unfoldable pub yield_ready : Yield T → Yield T
  yield_ready y = record y { awaited = true }

  -- `await_resume`
  unfoldable pub yield_resume : Yield T → T
  yield_resume y = y.t

  -- The destructor: `none` where the process terminates.
  unfoldable pub yield_destroy : Bool → Yield T → Option (Yield T)
  yield_destroy is_in y = elim (is_in && not y.awaited) [ true ↦ none | false ↦ some y ]

  -- `operator T`: `none` where the process terminates.
  unfoldable pub yield_value : Bool → Yield T → Option T
  unfolding yield_resume
  yield_value is_in y = elim is_in [ true ↦ none | false ↦ some (yield_resume y) ]

-- `migrater`, with the handles that the destination was passed to schedule.
pub record Migration : Type 0 where
  pub ready : Bool
  pub scheduled : List ℕ

-- `await_ready` of a coroutine with this handle, and `await_suspend` where it is false.
unfoldable pub migrate : Bool → ℕ → List ℕ → Migration
migrate is_in_scheduler h scheduled = elim is_in_scheduler [
  | true ↦ record { ready = false; scheduled = scheduled ++ h ∷ [] }
  | false ↦ record { ready = true; scheduled = scheduled }
]
