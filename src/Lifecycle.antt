-- ===== src/Lifecycle.antt =====
-- inc/lifecycle.hpp and src/memory.cpp: the lifecycle object of the process, and its map of the memory
-- caches of threads. A thread is a number, and so is a cache, in the order in which they are made.
pub mod Caches
pub mod Live
pub mod Config
pub mod Stale
mod Tests
use hermesconcurrencyengine.Common.{
  ℕ, zero, suc, Bool, true, false, Option, none, some, List, [], ◌∷◌, ◌++◌, if◌then◌else◌, ◌==◌,
}

-- `memory_caches_`
abbrev pub MemoryCaches : Type 0
MemoryCaches = List (ℕ × ℕ)

-- The map without a thread's cache, and the cache that this destroys.
pub record Erased : Type 0 where
  pub rest : MemoryCaches
  pub freed : List ℕ

-- What `cache::get` returns or throws.
pub data Reply : Type 0 where
  reference : ℕ → Reply
  cache_already_registered : Reply
  cannot_register_cache_without_lifecycle : Reply

-- `config` is the global configuration; `caches` the map of the lifecycle that `instance_` points to,
-- if there is one; `scoped` the pointer in each thread's `scoped_cache`, if that is constructed.
pub record Process (C : Type 0) : Type 0 where
  pub caches : Option MemoryCaches
  pub config : C
  pub scoped : ℕ → Option ℕ
  pub made : ℕ
  pub freed : List ℕ

pub record Got (C : Type 0) : Type 0 where
  pub reply : Reply
  pub next : Process C

unfoldable pub find : ℕ → MemoryCaches → Option ℕ
find key [] = none
find key ((k, cache) ∷ rest) = if k == key then some cache else find key rest

-- `insert_cache_`: `none` where it throws.
unfoldable pub insert_cache : ℕ → ℕ → MemoryCaches → Option MemoryCaches
insert_cache key cache caches = elim (find key caches) [
  | some other ↦ none
  | none ↦ some ((key, cache) ∷ caches)
]

-- `erase_cache_`
unfoldable pub erase_cache : ℕ → MemoryCaches → Erased
erase_cache key [] = record { rest = []; freed = [] }
erase_cache key ((k, cache) ∷ rest) =
    let later = erase_cache key rest in
    if k == key
    then record { rest = rest; freed = cache ∷ [] }
    else record { rest = (k, cache) ∷ later.rest; freed = later.freed }

abbrev pub all_caches : MemoryCaches → List ℕ
all_caches [] = []
all_caches ((k, cache) ∷ rest) = cache ∷ all_caches rest

abbrev pub update : (ℕ → Option ℕ) → ℕ → Option ℕ → ℕ → Option ℕ
update f t o u = if t == u then o else f u

module _ {C : Type 0} where
  -- A process before any lifecycle, with the default configuration.
  unfoldable pub start : C → Process C
  start c = record { caches = none; config = c; scoped = λ t. none; made = 0; freed = [] }

  -- `initialize`: `none` where the process terminates, because there is a lifecycle.
  unfoldable pub initialize : C → Process C → Option (Process C)
  initialize c p = elim p.caches [
    | some m ↦ none
    | none ↦ some (record p { caches = some []; config = c })
  ]

  abbrev destroy_caches : Option MemoryCaches → Process C → Process C
  destroy_caches none p = p
  destroy_caches (some m) p = record p { caches = none; freed = all_caches m ++ p.freed }

  -- The destructor, which destroys the map; a `scoped_cache` keeps its pointer.
  unfoldable pub destroy : Process C → Process C
  destroy p = destroy_caches p.caches p

  -- A cache that was made and is destroyed again by the exception.
  abbrev discard : Process C → Process C
  discard p = record p { made = suc p.made; freed = p.made ∷ p.freed }

  abbrev insert_result : Option MemoryCaches → ℕ → Process C → Got C
  insert_result none t p = record { reply = cache_already_registered; next = discard p }
  insert_result (some m) t p = record {
    reply = reference p.made;
    next = record p {
      caches = some m;
      scoped = update p.scoped t (some p.made);
      made = suc p.made;
    };
  }

  abbrev register : Option MemoryCaches → ℕ → Process C → Got C
  register none t p = record { reply = cannot_register_cache_without_lifecycle; next = discard p }
  register (some m) t p = insert_result (insert_cache t p.made m) t p

  -- The constructor of `scoped_cache`.
  unfoldable pub construct : ℕ → Process C → Got C
  unfolding insert_cache
  construct t p = register p.caches t p

  abbrev get_from : Option ℕ → ℕ → Process C → Got C
  get_from (some cache) t p = record { reply = reference cache; next = p }
  get_from none t p = construct t p

  -- `cache::get`
  unfoldable pub get : ℕ → Process C → Got C
  unfolding construct
  get t p = get_from (p.scoped t) t p

  abbrev erase_from : Option MemoryCaches → ℕ → Process C → Process C
  erase_from none t p = p
  erase_from (some m) t p =
      let e = erase_cache t m in record p { caches = some e.rest; freed = e.freed ++ p.freed }

  abbrev exit_from : Option ℕ → ℕ → Process C → Process C
  exit_from none t p = p
  exit_from (some cache) t p = record (erase_from p.caches t p) { scoped = update p.scoped t none }

  -- The end of a thread: the destructor of its `scoped_cache`, if that was constructed.
  unfoldable pub exit : ℕ → Process C → Process C
  unfolding erase_cache
  exit t p = exit_from (p.scoped t) t p

pub data Action (C : Type 0) : Type 0 where
  initializes : C → Action C
  destroys : Action C
  gets : ℕ → Action C
  exits : ℕ → Action C

module _ {C : Type 0} where
  -- A process that terminates is left as it was.
  unfoldable pub step : Process C → Action C → Process C
  unfolding initialize destroy get exit
  step p (initializes c) = elim (initialize c p) [ none ↦ p | some q ↦ q ]
  step p destroys = destroy p
  step p (gets t) = (get t p).next
  step p (exits t) = exit t p

  unfoldable pub run : Process C → List (Action C) → Process C
  run p [] = p
  run p (a ∷ rest) = run (step p a) rest
