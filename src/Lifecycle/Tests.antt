-- ===== src/Lifecycle/Tests.antt =====
-- Runs of the lifecycle of inc/lifecycle.hpp.
use hermesconcurrencyengine.Common.{ℕ, some, List, [], ◌∷◌, ◌≡◌, refl, arith, count}
use hermesconcurrencyengine.Lifecycle.{
  reference, cannot_register_cache_without_lifecycle, start, get, Action, initializes, destroys,
  gets, exits, find, step, run,
}
use hermesconcurrencyengine.Lifecycle.Caches.{IsRegistered, one_owner}
use hermesconcurrencyengine.Lifecycle.Live.{Serves, get-live}
use hermesconcurrencyengine.Lifecycle.Stale.{stale_cache}

-- Thread 7 asks too early; then 7 and 8 have a cache each, and 8 ends.
abbrev two_threads : List (Action ℕ)
two_threads = gets 7 ∷ initializes 4 ∷ gets 7 ∷ gets 8 ∷ exits 8 ∷ []

two_threads_caches : (run (start 0) two_threads).caches ≡ some ((7, 1) ∷ [])
unfolding start run step find
two_threads_caches = refl

two_threads_freed : (run (start 0) two_threads).freed ≡ 2 ∷ 0 ∷ []
unfolding start run step find
two_threads_freed = refl

early : (get 7 (start {C = ℕ} 0)).reply ≡ cannot_register_cache_without_lifecycle
unfolding get start
early = refl

one_owner_example : IsRegistered (run (start 0) two_threads)
one_owner_example = one_owner 0 two_threads

get-live_example : Serves 9 (get 9 (run (start 0) two_threads))
get-live_example =
    get-live 0 two_threads 9 ((7, 1) ∷ []) (tt, (tt, (tt, (tt, (tt, tt))))) two_threads_caches

stale_cache_example :
    let p = run (run (start 0) two_threads) (destroys ∷ initializes 5 ∷ gets 8 ∷ []) in
    ((get 7 p).reply ≡ reference 1) × ((get 7 p).next ≡ p) × (count 1 p.freed ≡ 1)
unfolding run find
stale_cache_example =
    stale_cache 7 1 0 two_threads (initializes 5 ∷ gets 8 ∷ []) ((7, 1) ∷ []) two_threads_caches
      refl (tt, (omega arith, tt))
