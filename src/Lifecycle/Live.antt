-- ===== src/Lifecycle/Live.antt =====
-- What `cache::get` of inc/memory.hpp returns while the lifecycle of inc/lifecycle.hpp exists.
use hermesconcurrencyengine.Common.{
  ℕ, ◌<◌, count, Option, none, some, List, [], ◌∷◌, ◌≡◌, ◌≢◌, refl, sym, All, arith, subst,
}
use hermesconcurrencyengine.Lifecycle.{
  MemoryCaches, all_caches, Process, Got, reference, cache_already_registered, find, update,
  erase_from, exit_from, get_from, start, get, exit, Action, initializes, destroys, gets, exits,
  step, run,
}
use hermesconcurrencyengine.Lifecycle.Caches.{
  map_of, Distinct, IsRegistered, Constructs, get-Constructs, start-IsRegistered, step-IsRegistered,
  find-erase, one_owner,
}

-- Each pointer is to the cache that the map has for the thread.
abbrev pub IsLive : {C : Type 0} → Process C → Type 0
IsLive p = (t cache : ℕ) → p.scoped t ≡ some cache → find t (map_of p.caches) ≡ some cache

-- The lifecycle is not destroyed.
abbrev pub Keeps : {C : Type 0} → Action C → Type 0
Keeps (initializes c) = Unit {0}
Keeps destroys = ⊥
Keeps (gets t) = Unit {0}
Keeps (exits t) = Unit {0}

module _ {C : Type 0} where
  initialize-IsLive :
      (c : C) (p : Process C) (o : Option MemoryCaches)
      → p.caches ≡ o
      → IsLive p
      → IsLive (step p (initializes c))
  unfolding step find
  initialize-IsLive c p none e l =
      rw (e, step) (λ t cache q. let h = l t cache in ground (arith, e, q, h))
  initialize-IsLive c p (some m) e l =
      rw (e, step) (λ t cache q. let h = l t cache in ground (arith, e, q, h))

  Constructs-IsLive :
      (o : Option MemoryCaches) (t : ℕ) (p : Process C) (g : Got C)
      → p.caches ≡ o
      → IsLive p
      → Constructs t p o g
      → IsLive g.next
  unfolding find
  Constructs-IsLive none t p g e l (reply, next) = subst IsLive (sym next) l
  Constructs-IsLive (some m) t p g e l (reply, next) =
      subst IsLive (sym next) (λ u cache q. let h = l u cache in ground (arith, e, q, h))

  get_from-IsLive :
      (o : Option ℕ) (t : ℕ) (p : Process C)
      → p.scoped t ≡ o
      → IsRegistered p
      → IsLive p
      → IsLive (get_from o t p).next
  unfolding get
  get_from-IsLive (some cache) t p e r l = l
  get_from-IsLive none t p e r l =
      subst (λ o. IsLive (get_from o t p).next) e
        (Constructs-IsLive p.caches t p (get t p) refl l (get-Constructs t p e r))

  erase_from-IsLive :
      (o : Option MemoryCaches) (t : ℕ) (p : Process C)
      → p.caches ≡ o
      → IsRegistered p
      → IsLive p
      → IsLive (record (erase_from o t p) { scoped = update p.scoped t none })
  unfolding find
  erase_from-IsLive none t p e r l = λ u cache q. let h = l u cache in ground (arith, e, q, h)
  erase_from-IsLive (some m) t p e r l =
      let d = subst (λ o. Distinct (map_of o)) e r.distinct in
      λ u cache q. let h = l u cache in ground (arith, e, q, h, find-erase t u m d)

  exit_from-IsLive :
      (o : Option ℕ) (t : ℕ) (p : Process C) → IsRegistered p → IsLive p → IsLive (exit_from o t p)
  exit_from-IsLive none t p r l = l
  exit_from-IsLive (some cache) t p r l = erase_from-IsLive p.caches t p refl r l

  step-IsLive :
      (p : Process C) (a : Action C) → Keeps a → IsRegistered p → IsLive p → IsLive (step p a)
  unfolding step get exit
  step-IsLive p (initializes c) k r l = initialize-IsLive c p p.caches refl l
  step-IsLive p destroys k r l = absurd k
  step-IsLive p (gets t) k r l = get_from-IsLive (p.scoped t) t p refl r l
  step-IsLive p (exits t) k r l = exit_from-IsLive (p.scoped t) t p r l

  run-IsLive :
      (p : Process C) (actions : List (Action C))
      → All Keeps actions
      → IsRegistered p
      → IsLive p
      → IsLive (run p actions)
  unfolding run
  run-IsLive p [] k r l = l
  run-IsLive p (a ∷ rest) k r l =
      run-IsLive (step p a) rest k.1 (step-IsRegistered p a r) (step-IsLive p a k.0 r l)

pub find-count :
    (t cache : ℕ) (m : MemoryCaches) → find t m ≡ some cache → 0 < count cache (all_caches m)
unfolding find
find-count t cache [] e = cc
find-count t cache ((k, a) ∷ rest) e = ground (arith, find-count t cache rest)

pub not-freed :
    {C : Type 0} (t cache : ℕ) (p : Process C)
    → IsRegistered p
    → find t (map_of p.caches) ≡ some cache
    → count cache p.freed ≡ 0
not-freed t cache p r e =
    let h = r.once cache in ground (arith, h, find-count t cache (map_of p.caches) e)

-- What `get` leaves for a thread in a process with a lifecycle.
abbrev pub Serves : {C : Type 0} → ℕ → Got C → Type 0
Serves t g =
    (cache : ℕ) × (g.reply ≡ reference cache)
    × (find t (map_of g.next.caches) ≡ some cache)
    × (count cache g.next.freed ≡ 0)

module _ {C : Type 0} where
  get_from-Serves :
      (o : Option ℕ) (t : ℕ) (p : Process C) (m : MemoryCaches)
      → p.scoped t ≡ o
      → p.caches ≡ some m
      → IsRegistered p
      → IsLive p
      → IsRegistered (get_from o t p).next
      → Serves t (get_from o t p)
  unfolding get find
  get_from-Serves (some cache) t p m e i r l s =
      (cache, refl, l t cache e, not-freed t cache p r (l t cache e))
  get_from-Serves none t p m e i r l s =
      let g = get_from none t p in
      let made : Constructs t p (some m) g =
        subst (λ x. Constructs t p x g) i
          (subst (λ o. Constructs t p p.caches (get_from o t p)) e (get-Constructs t p e r)) in
      let entry : find t (map_of g.next.caches) ≡ some p.made = rw made.1 (ground arith) in
      (p.made, made.0, entry, not-freed t p.made g.next s entry)

  -- In every run of a process in which the lifecycle is not destroyed, `get` in any thread, while
  -- there is a lifecycle, returns the cache that the map then has for the thread, which was not
  -- destroyed.
  pub get-live :
      (c : C) (actions : List (Action C)) (t : ℕ) (m : MemoryCaches)
      → All Keeps actions
      → (run (start c) actions).caches ≡ some m
      → Serves t (get t (run (start c) actions))
  unfolding get start find step
  get-live c actions t m k e =
      let p = run (start c) actions in
      let r = one_owner c actions in
      let l = run-IsLive (start c) actions k (start-IsRegistered c) (λ u cache q. cc) in
      get_from-Serves (p.scoped t) t p m refl e r l (step-IsRegistered p (gets t) r)

  Constructs-ne :
      (o : Option MemoryCaches) (t : ℕ) (p : Process C) (g : Got C)
      → Constructs t p o g
      → g.reply ≢ cache_already_registered
  Constructs-ne none t p g (reply, next) q = cc
  Constructs-ne (some m) t p g (reply, next) q = cc

  get_from-ne :
      (o : Option ℕ) (t : ℕ) (p : Process C)
      → p.scoped t ≡ o
      → IsRegistered p
      → (get_from o t p).reply ≢ cache_already_registered
  unfolding get
  get_from-ne (some cache) t p e r = λ q. cc
  get_from-ne none t p e r =
      Constructs-ne p.caches t p (get_from none t p)
        (subst (λ o. Constructs t p p.caches (get_from o t p)) e (get-Constructs t p e r))

  -- In no run of a process does `get` throw `cache_already_registered`.
  pub never_registered_twice :
      (c : C) (actions : List (Action C)) (t : ℕ)
      → (get t (run (start c) actions)).reply ≢ cache_already_registered
  unfolding get
  never_registered_twice c actions t =
      let p = run (start c) actions in get_from-ne (p.scoped t) t p refl (one_owner c actions)
