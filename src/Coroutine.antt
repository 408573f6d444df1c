-- ===== src/Coroutine.antt =====
-- inc/coroutine.hpp: `hce::coroutine`, the owner of a coroutine's frame. An object is named by its
-- address, a number below the length of `coroutines`, and a frame by its handle.
pub mod Ownership
pub mod Resuming
pub mod Cleanup
mod Tests
use hermesconcurrencyengine.Common.{
  ℕ, zero, suc, Bool, true, false, Option, none, some, List, [], ◌∷◌, ◌++◌, get_elem?, set, length,
  option_to_list, if◌then◌else◌, ltb, ◌&&◌,
}

-- `released` are the handles that `release` returned, and `destroyed` those whose frame `destroy_`
-- destroyed.
pub record Objects : Type 0 where
  pub coroutines : List (Option ℕ)
  pub released : List ℕ
  pub destroyed : List ℕ

-- `handle_` of the object at this address; an address with no object has none.
unfoldable pub handle_at : List (Option ℕ) → ℕ → Option ℕ
handle_at [] a = none
handle_at (h ∷ hs) zero = h
handle_at (h ∷ hs) (suc a) = handle_at hs a

-- `operator bool`
unfoldable pub is_valid : Objects → ℕ → Bool
is_valid o a = elim (handle_at o.coroutines a) [ some h ↦ true | none ↦ false ]

-- The constructors, from a handle or from none.
unfoldable pub construct : Option ℕ → Objects → Objects
construct h o = record o { coroutines = o.coroutines ++ h ∷ [] }

unfoldable pub release : ℕ → Objects → Objects
release a o = record o {
  coroutines = set o.coroutines a none;
  released = option_to_list (handle_at o.coroutines a) ++ o.released;
}

unfoldable pub destroy_ : ℕ → Objects → Objects
destroy_ a o = record o { destroyed = option_to_list (handle_at o.coroutines a) ++ o.destroyed }

-- `reset()`, which is also the destructor, and `reset(h)`.
unfoldable pub reset : ℕ → Objects → Objects
unfolding destroy_
reset a o = record (destroy_ a o) { coroutines = set o.coroutines a none }

unfoldable pub reset_to : ℕ → ℕ → Objects → Objects
unfolding destroy_
reset_to a h o = record (destroy_ a o) { coroutines = set o.coroutines a (some h) }

-- `swap`, which is also `operator=(coroutine&&)`.
unfoldable pub swap : ℕ → ℕ → Objects → Objects
swap a b o =
    let h = handle_at o.coroutines a in
    let g = handle_at o.coroutines b in record o { coroutines = set (set o.coroutines a g) b h }

-- `coroutine(coroutine&&)`: an empty object, and then `swap`.
unfoldable pub move_construct : ℕ → Objects → Objects
unfolding construct swap
move_construct b o = swap (length o.coroutines) b (construct none o)
