-- ===== src/CircularBuffer.antt =====
-- inc/circular_buffer.hpp: `circular_buffer<T>`, a queue in a block of `size_` slots that is
-- allocated once. A slot is `none` while no T is constructed in it. The buffer checks nothing: the
-- caller sees to it that `emplace` has room and that `front` and `pop` have an element, and C++
-- leaves `% 0` of an empty block undefined. Refine
-- has those duties as hypotheses.
mod Window
pub mod Refine
pub mod Whole
mod Tests
use hermesconcurrencyengine.Common.{
  ℕ, zero, suc, ◌%◌, ◌-◌, ◌+◌, ◌^◌, Bool, Option, none, some, List, [], ◌∷◌, ◌==◌, add_size,
  decrement, get_elem?, set, replicate,
}

pub record CircularBuffer (A : Type 0) : Type 0 where
  pub size : ℕ
  pub used : ℕ
  pub back_idx : ℕ
  pub front_idx : ℕ
  pub slots : List (Option A)

-- The constructor: `size_t` limits the argument, and `0` allocates nothing.
pub make : {A : Type 0} → ℕ → CircularBuffer A
make sz = record { size = sz; used = 0; back_idx = 0; front_idx = 0; slots = replicate sz none }

module _ {A : Type 0} where
  pub remaining : CircularBuffer A → ℕ
  remaining b = (b.size + 2 ^ 64 - b.used) % 2 ^ 64

  pub is_empty : CircularBuffer A → Bool
  is_empty b = 0 == b.used

  pub is_full : CircularBuffer A → Bool
  is_full b = b.size == b.used

  -- The element that a read of `front()` finds: `none` if the slot is raw memory, or out of range.
  pub front : CircularBuffer A → Option A
  front b = elim (get_elem? b.slots b.front_idx) [ none ↦ none | some slot ↦ slot ]

  -- `push` is `emplace` with one argument.
  pub emplace : CircularBuffer A → A → CircularBuffer A
  emplace b a = record b {
    slots = set b.slots b.back_idx (some a);
    back_idx = add_size b.back_idx 1 % b.size;
    used = add_size b.used 1;
  }

  pub pop : CircularBuffer A → CircularBuffer A
  pop b = record b {
    slots = set b.slots b.front_idx none;
    front_idx = add_size b.front_idx 1 % b.size;
    used = decrement b.used;
  }

-- Two buffers after one is moved to the other.
pub record Moved (A : Type 0) : Type 0 where
  pub next : CircularBuffer A
  pub rhs : CircularBuffer A

-- What a destructor finds in the slots that it destructs, oldest first, and the buffer it leaves.
pub record Destroyed (A : Type 0) : Type 0 where
  pub destructed : List (Option A)
  pub left : CircularBuffer A

module _ {A : Type 0} where
  -- `swap_`, which is also `operator=(circular_buffer&&)`.
  unfoldable pub swap_ : CircularBuffer A → CircularBuffer A → Moved A
  swap_ b rhs = record {
    next = record {
      size = rhs.size;
      used = rhs.used;
      back_idx = rhs.back_idx;
      front_idx = rhs.front_idx;
      slots = rhs.slots;
    };
    rhs = record {
      size = b.size;
      used = b.used;
      back_idx = b.back_idx;
      front_idx = b.front_idx;
      slots = b.slots;
    };
  }

  -- `circular_buffer(circular_buffer&&)`: an empty buffer of no slots, and then `swap_`.
  unfoldable pub move_construct : CircularBuffer A → Moved A
  unfolding swap_ make
  move_construct rhs = swap_ (make 0) rhs

  -- `while(used()) { pop(); }`, for as many rounds as there are elements.
  unfoldable pub destroy_loop : ℕ → CircularBuffer A → Destroyed A
  unfolding front pop
  destroy_loop zero b = record { destructed = []; left = b }
  destroy_loop (suc rounds) b =
      let rest = destroy_loop rounds (pop b) in
      record { destructed = front b ∷ rest.destructed; left = rest.left }

  unfoldable pub destroy : CircularBuffer A → Destroyed A
  unfolding destroy_loop
  destroy b = destroy_loop b.used b
