-- ===== src/Lifecycle/Caches.antt =====
-- Each cache of inc/lifecycle.hpp has one owner, and each thread's pointer is to its own entry.
use hermesconcurrencyengine.Common.{
  ℕ, suc, ◌+◌, Option, none, some, List, [], ◌∷◌, ◌≡◌, refl, sym, if◌then◌else◌, ◌==◌, ltb, count,
  count-append, arith, Bool-cases, Option-cases, inl, inr, subst,
}
use hermesconcurrencyengine.Lifecycle.{
  MemoryCaches, Process, Got, reference, cannot_register_cache_without_lifecycle, find,
  insert_cache, erase_cache, all_caches, update, destroy_caches, register, erase_from, exit_from,
  get_from, start, destroy, construct, get, exit, Action, initializes, destroys, gets, exits, step,
  run,
}

abbrev pub map_of : Option MemoryCaches → MemoryCaches
map_of none = []
map_of (some m) = m

-- No thread has two entries.
abbrev pub Distinct : MemoryCaches → Type 0
Distinct [] = Unit {0}
Distinct ((k, cache) ∷ rest) = (find k rest ≡ none) × Distinct rest

abbrev pub was_made : ℕ → ℕ → ℕ
was_made cache made = if ltb cache made then 1 else 0

-- Each entry is that of the pointer of its thread; and each cache that was made is in the map or was
-- destroyed, and only once.
pub record IsRegistered {C : Type 0} (p : Process C) : Type 0 where
  pub distinct : Distinct (map_of p.caches)
  pub owned : (t cache : ℕ) → find t (map_of p.caches) ≡ some cache → p.scoped t ≡ some cache
  pub once :
      (cache : ℕ)
      → count cache p.freed + count cache (all_caches (map_of p.caches)) ≡ was_made cache p.made

pub find-erase :
    (k u : ℕ) (m : MemoryCaches)
    → Distinct m
    → find u (erase_cache k m).rest ≡ (if k == u then none else find u m)
unfolding find erase_cache
find-erase k u [] d = ground arith
find-erase k u ((j, cache) ∷ rest) d = ground (arith, find-erase k u rest d.1, d.0)

Distinct-erase : (k : ℕ) (m : MemoryCaches) → Distinct m → Distinct (erase_cache k m).rest
unfolding erase_cache
Distinct-erase k [] d = tt
Distinct-erase k ((j, cache) ∷ rest) d = elim (Bool-cases (j == k)) [
  | inl e ↦ rw e d.1
  | inr e ↦ rw e (ground (arith, find-erase k j rest d.1, d.0), Distinct-erase k rest d.1)
]

count-erase :
    (a k : ℕ) (m : MemoryCaches)
    → count a (erase_cache k m).freed + count a (all_caches (erase_cache k m).rest)
      ≡ count a (all_caches m)
unfolding erase_cache
count-erase a k [] = refl
count-erase a k ((j, cache) ∷ rest) = ground (arith, count-erase a k rest)

module _ {C : Type 0} where
  pub start-IsRegistered : (c : C) → IsRegistered (start c)
  unfolding start find
  start-IsRegistered c = record {
    distinct = tt;
    owned = λ t cache e. cc;
    once = λ cache. ground arith;
  }

  initialize-IsRegistered :
      (c : C) (p : Process C) (o : Option MemoryCaches)
      → p.caches ≡ o
      → IsRegistered p
      → IsRegistered (step p (initializes c))
  unfolding step find
  initialize-IsRegistered c p none e r =
      rw (e, step)
        (record {
          distinct = tt;
          owned = λ t cache q. cc;
          once = λ cache. let h = r.once cache in ground (arith, e, h);
        })
  initialize-IsRegistered c p (some m) e r = rw (e, step) r

  destroy_caches-IsRegistered :
      (o : Option MemoryCaches) (p : Process C)
      → p.caches ≡ o
      → IsRegistered p
      → IsRegistered (destroy_caches o p)
  unfolding find
  destroy_caches-IsRegistered none p e r = r
  destroy_caches-IsRegistered (some m) p e r = record {
    distinct = tt;
    owned = λ t cache q. cc;
    once = λ cache.
        let h = r.once cache in ground (arith, e, h, count-append cache (all_caches m) p.freed);
  }

  destroy-IsRegistered : (p : Process C) → IsRegistered p → IsRegistered (destroy p)
  unfolding destroy
  destroy-IsRegistered p r = destroy_caches-IsRegistered p.caches p refl r

  discard-IsRegistered :
      (p : Process C)
      → IsRegistered p
      → IsRegistered (record p { made = suc p.made; freed = p.made ∷ p.freed })
  discard-IsRegistered p r = record {
    distinct = r.distinct;
    owned = r.owned;
    once = λ cache. let h = r.once cache in ground (arith, h);
  }

  insert-IsRegistered :
      (t : ℕ) (m : MemoryCaches) (p : Process C)
      → p.caches ≡ some m
      → find t m ≡ none
      → IsRegistered p
      → IsRegistered (record p {
        caches = some ((t, p.made) ∷ m);
        scoped = update p.scoped t (some p.made);
        made = suc p.made;
      })
  unfolding find
  insert-IsRegistered t m p e f r = record {
    distinct = (f, subst (λ o. Distinct (map_of o)) e r.distinct);
    owned = λ u cache q. let h = r.owned u cache in ground (arith, e, h);
    once = λ cache. let h = r.once cache in ground (arith, e, h);
  }

  -- A thread with no pointer has no entry.
  pub unregistered :
      (t : ℕ) (p : Process C) (m : MemoryCaches)
      → p.caches ≡ some m
      → p.scoped t ≡ none
      → IsRegistered p
      → find t m ≡ none
  unregistered t p m e n r = elim (Option-cases (find t m)) [
    | inl absent ↦ absent
    | inr (cache, present) ↦ let h = r.owned t cache in ground (arith, e, n, present, h)
  ]

  -- The outcome of `scoped_cache`'s constructor in a thread with no pointer.
  abbrev pub Constructs : ℕ → Process C → Option MemoryCaches → Got C → Type 0
  Constructs t p none g =
      (g.reply ≡ cannot_register_cache_without_lifecycle)
      × (g.next ≡ record p { made = suc p.made; freed = p.made ∷ p.freed })
  Constructs t p (some m) g =
      (g.reply ≡ reference p.made)
      × (g.next ≡ record p {
        caches = some ((t, p.made) ∷ m);
        scoped = update p.scoped t (some p.made);
        made = suc p.made;
      })

  register-Constructs :
      (o : Option MemoryCaches) (t : ℕ) (p : Process C)
      → p.caches ≡ o
      → p.scoped t ≡ none
      → IsRegistered p
      → Constructs t p o (register o t p)
  unfolding insert_cache
  register-Constructs none t p e n r = (refl, refl)
  register-Constructs (some m) t p e n r = rw (unregistered t p m e n r, insert_cache) (refl, refl)

  pub get-Constructs :
      (t : ℕ) (p : Process C)
      → p.scoped t ≡ none
      → IsRegistered p
      → Constructs t p p.caches (get t p)
  unfolding get construct
  get-Constructs t p n r = rw (n, get) (register-Constructs p.caches t p refl n r)

  Constructs-IsRegistered :
      (o : Option MemoryCaches) (t : ℕ) (p : Process C) (g : Got C)
      → p.caches ≡ o
      → p.scoped t ≡ none
      → IsRegistered p
      → Constructs t p o g
      → IsRegistered g.next
  Constructs-IsRegistered none t p g e n r (reply, next) =
      subst IsRegistered (sym next) (discard-IsRegistered p r)
  Constructs-IsRegistered (some m) t p g e n r (reply, next) =
      subst IsRegistered (sym next) (insert-IsRegistered t m p e (unregistered t p m e n r) r)

  get_from-IsRegistered :
      (o : Option ℕ) (t : ℕ) (p : Process C)
      → p.scoped t ≡ o
      → IsRegistered p
      → IsRegistered (get_from o t p).next
  unfolding construct
  get_from-IsRegistered (some cache) t p e r = r
  get_from-IsRegistered none t p e r =
      Constructs-IsRegistered p.caches t p (register p.caches t p) refl e r
        (register-Constructs p.caches t p refl e r)

  erase_from-IsRegistered :
      (o : Option MemoryCaches) (t : ℕ) (p : Process C)
      → p.caches ≡ o
      → IsRegistered p
      → IsRegistered (record (erase_from o t p) { scoped = update p.scoped t none })
  unfolding find
  erase_from-IsRegistered none t p e r = record {
    distinct = r.distinct;
    owned = λ u cache q. ground (arith, e);
    once = r.once;
  }
  erase_from-IsRegistered (some m) t p e r =
      let d : Distinct m = subst (λ o. Distinct (map_of o)) e r.distinct in
      record {
        distinct = Distinct-erase t m d;
        owned = λ u cache q. let h = r.owned u cache in ground (arith, e, h, find-erase t u m d);
        once = λ cache.
            let h = r.once cache in
            ground (
              arith,
              e,
              h,
              count-erase cache t m,
              count-append cache (erase_cache t m).freed p.freed,
            );
      }

  exit_from-IsRegistered :
      (o : Option ℕ) (t : ℕ) (p : Process C) → IsRegistered p → IsRegistered (exit_from o t p)
  exit_from-IsRegistered none t p r = r
  exit_from-IsRegistered (some cache) t p r = erase_from-IsRegistered p.caches t p refl r

  pub step-IsRegistered : (p : Process C) (a : Action C) → IsRegistered p → IsRegistered (step p a)
  unfolding step get exit
  step-IsRegistered p (initializes c) r = initialize-IsRegistered c p p.caches refl r
  step-IsRegistered p destroys r = destroy-IsRegistered p r
  step-IsRegistered p (gets t) r = get_from-IsRegistered (p.scoped t) t p refl r
  step-IsRegistered p (exits t) r = exit_from-IsRegistered (p.scoped t) t p r

  pub run-IsRegistered :
      (p : Process C) (actions : List (Action C)) → IsRegistered p → IsRegistered (run p actions)
  unfolding run
  run-IsRegistered p [] r = r
  run-IsRegistered p (a ∷ rest) r = run-IsRegistered (step p a) rest (step-IsRegistered p a r)

  -- In every run of a process, each entry of the map is that of its thread's pointer, and no thread
  -- has two; and each cache that was made is in the map or was destroyed, and only once.
  pub one_owner : (c : C) (actions : List (Action C)) → IsRegistered (run (start c) actions)
  one_owner c actions = run-IsRegistered (start c) actions (start-IsRegistered c)
