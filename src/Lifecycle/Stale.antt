-- ===== src/Lifecycle/Stale.antt =====
-- What a thread of inc/lifecycle.hpp keeps of a lifecycle that was destroyed.
use hermesconcurrencyengine.Common.{
  ℕ, ◌≤◌, count, count-append, Option, none, some, List, [], ◌∷◌, ◌≡◌, ◌≢◌, refl, ◌∙◌, All, arith,
}
use hermesconcurrencyengine.Lifecycle.{
  MemoryCaches, all_caches, Process, reference, find, insert_cache, erase_cache, update, erase_from,
  exit_from, get_from, destroy_caches, register, insert_result, start, destroy, construct, get,
  exit, Action, initializes, destroys, gets, exits, step, run,
}
use hermesconcurrencyengine.Lifecycle.Caches.{IsRegistered, one_owner, run-IsRegistered}
use hermesconcurrencyengine.Lifecycle.Live.{find-count}

-- An action of another thread, or of the lifecycle.
abbrev pub IsNotOf : {C : Type 0} → ℕ → Action C → Type 0
IsNotOf t (initializes c) = Unit {0}
IsNotOf t destroys = Unit {0}
IsNotOf t (gets u) = u ≢ t
IsNotOf t (exits u) = u ≢ t

-- The pointer of this thread is kept, and nothing that was destroyed is gone from the list.
abbrev KeepsOf : {C : Type 0} → ℕ → ℕ → Process C → Process C → Type 0
KeepsOf t cache p q = (q.scoped t ≡ p.scoped t) × (count cache p.freed ≤ count cache q.freed)

module _ {C : Type 0} (t cache : ℕ) where
  initialize-Keeps :
      (c : C) (p : Process C) (o : Option MemoryCaches)
      → p.caches ≡ o
      → KeepsOf t cache p (step p (initializes c))
  unfolding step
  initialize-Keeps c p none e = rw (e, step) (refl, omega arith)
  initialize-Keeps c p (some m) e = rw (e, step) (refl, omega arith)

  destroy_caches-Keeps :
      (o : Option MemoryCaches) (p : Process C) → KeepsOf t cache p (destroy_caches o p)
  destroy_caches-Keeps none p = (refl, omega arith)
  destroy_caches-Keeps (some m) p = (refl, omega (arith, count-append cache (all_caches m) p.freed))

  insert-Keeps :
      (o : Option MemoryCaches) (u : ℕ) (p : Process C)
      → u ≢ t
      → KeepsOf t cache p (insert_result o u p).next
  insert-Keeps none u p n = (refl, ground arith)
  insert-Keeps (some m) u p n = (ground (arith, n), omega arith)

  register-Keeps :
      (o : Option MemoryCaches) (u : ℕ) (p : Process C)
      → u ≢ t
      → KeepsOf t cache p (register o u p).next
  register-Keeps none u p n = (refl, ground arith)
  register-Keeps (some m) u p n = insert-Keeps (insert_cache u p.made m) u p n

  get_from-Keeps :
      (o : Option ℕ) (u : ℕ) (p : Process C) → u ≢ t → KeepsOf t cache p (get_from o u p).next
  unfolding construct
  get_from-Keeps none u p n = register-Keeps p.caches u p n
  get_from-Keeps (some a) u p n = (refl, omega arith)

  erase_from-Keeps :
      (o : Option MemoryCaches) (u : ℕ) (p : Process C)
      → u ≢ t
      → KeepsOf t cache p (record (erase_from o u p) { scoped = update p.scoped u none })
  erase_from-Keeps none u p n = (ground (arith, n), omega arith)
  erase_from-Keeps (some m) u p n =
      (ground (arith, n), omega (arith, count-append cache (erase_cache u m).freed p.freed))

  exit_from-Keeps :
      (o : Option ℕ) (u : ℕ) (p : Process C) → u ≢ t → KeepsOf t cache p (exit_from o u p)
  exit_from-Keeps none u p n = (refl, omega arith)
  exit_from-Keeps (some a) u p n = erase_from-Keeps p.caches u p n

  step-Keeps : (p : Process C) (a : Action C) → IsNotOf t a → KeepsOf t cache p (step p a)
  unfolding step destroy get exit
  step-Keeps p (initializes c) n = initialize-Keeps c p p.caches refl
  step-Keeps p destroys n = destroy_caches-Keeps p.caches p
  step-Keeps p (gets u) n = get_from-Keeps (p.scoped u) u p n
  step-Keeps p (exits u) n = exit_from-Keeps (p.scoped u) u p n

  run-Keeps :
      (p : Process C) (actions : List (Action C))
      → All (IsNotOf t) actions
      → KeepsOf t cache p (run p actions)
  unfolding run
  run-Keeps p [] n = (refl, omega arith)
  run-Keeps p (a ∷ rest) n =
      let one = step-Keeps p a n.0 in
      let more = run-Keeps (step p a) rest n.1 in (more.0 ∙ one.0, omega arith)

  destroyed :
      (p : Process C) (m : MemoryCaches)
      → p.caches ≡ some m
      → find t m ≡ some cache
      → 1 ≤ count cache (destroy p).freed
  unfolding destroy
  destroyed p m e f =
      rw (e, destroy)
        (omega (arith, count-append cache (all_caches m) p.freed, find-count t cache m f))

  freed_once : (p : Process C) → IsRegistered p → 1 ≤ count cache p.freed → count cache p.freed ≡ 1
  freed_once p r h = let l = r.once cache in ground (arith, l)

  -- If a thread has a cache in the map, and the lifecycle is destroyed, then whatever other threads
  -- do and whichever lifecycles are initialized and destroyed after that, `get` in the thread
  -- returns the same cache, which has been destroyed.
  pub stale_cache :
      (c : C) (before after : List (Action C)) (m : MemoryCaches)
      → (run (start c) before).caches ≡ some m
      → find t m ≡ some cache
      → All (IsNotOf t) after
      → let p = run (run (start c) before) (destroys ∷ after) in
        ((get t p).reply ≡ reference cache) × ((get t p).next ≡ p) × (count cache p.freed ≡ 1)
  unfolding get run step
  stale_cache c before after m e f n =
      let p0 = run (start c) before in
      let r0 = one_owner c before in
      let keeps = run-Keeps (destroy p0) after n in
      let p = run (destroy p0) after in
      let r = run-IsRegistered p0 (destroys ∷ after) r0 in
      let own : p0.scoped t ≡ some cache = let h = r0.owned t cache in h (rw e f) in
      let kept : p.scoped t ≡ some cache = keeps.0 ∙ (destroy_caches-Keeps p0.caches p0).0 ∙ own in
      (rw kept refl, rw kept refl, freed_once p r (omega (arith, destroyed p0 m e f)))
