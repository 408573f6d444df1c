-- ===== src/Scope/Tests.antt =====
-- A scope of inc/scope.hpp with two awaitables.
use hermesconcurrencyengine.Common.{
  true, false, none, some, List, [], ◌∷◌, ◌++◌, ◌≡◌, ◌⊎◌, inl, refl,
}
use hermesconcurrencyengine.Channel.Unlimited
use hermesconcurrencyengine.Scope.{
  Scope, Action, adds, runs_root, calls_await, make, empty_scope, run, run_new, step, add, add_,
}
use hermesconcurrencyengine.Scope.Order.{current}
use hermesconcurrencyengine.Scope.Awaiting.{IsDrained, await_ends}

abbrev actions : List Action
actions = runs_root ∷ adds false (5 ∷ []) ∷ calls_await ∷ adds false (6 ∷ []) ∷ []

await_ends_example :
    (s : Scope) × (run_new false (4 ∷ []) actions ≡ some s)
    × (s.awaited ++ (current s.root ++ s.root_ch.queue) ≡ s.added)
    × ((s.root_ch.closed_flag ≡ false) ⊎ IsDrained s)
await_ends_example = await_ends false (4 ∷ []) actions (inl refl) (tt, (refl, (tt, (refl, tt))))

-- In a coroutine the first awaitable terminates the process.
terminates : run_new true [] (adds true (5 ∷ []) ∷ []) ≡ none
unfolding run_new run step make empty_scope add add_ Unlimited.make
terminates = refl
