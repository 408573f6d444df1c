-- ===== src/Allocator.antt =====
-- inc/alloc.hpp: `aligned_size`, `allocate`, and `pool_allocator`, which keeps freed blocks of one
-- element for its next calls. A block is named by its address.
pub mod Aligned
pub mod Pool
mod Tests
use hermesconcurrencyengine.Common.{
  ℕ, ◌+◌, ◌-◌, ◌*◌, ◌%◌, ◌^◌, Bool, true, false, Option, none, some, List, [], ◌∷◌, ◌++◌, length,
  is_empty, ltb, ◌==◌, ◌&&◌, ◌||◌, not,
}
use hermesconcurrencyengine.Memory.{bit_and}

-- `sizeof(T)` and `alignof(T)`
pub record Layout : Type 0 where
  pub size_of : ℕ
  pub align_of : ℕ

-- `((sizeof(T) * n) + alignof(T) - 1) & ~(alignof(T) - 1)`, in `size_t`.
unfoldable pub aligned_size : Layout → ℕ → ℕ
unfolding bit_and
aligned_size t n =
    bit_and 64 ((t.size_of * n + t.align_of + 2 ^ 64 - 1) % 2 ^ 64)
      ((2 ^ 64 + 2 ^ 64 - t.align_of) % 2 ^ 64)

-- The bytes that `allocate<T>(n)` asks `memory::allocate` for.
unfoldable pub requested : Layout → ℕ → ℕ
unfolding aligned_size
requested t n = aligned_size t n

-- `pool_`, its back first.
pub record PoolAllocator : Type 0 where
  pub block_limit : ℕ
  pub pool : List ℕ

-- The block, and the bytes that were asked for if it is a new one.
pub record Allocated : Type 0 where
  pub next : PoolAllocator
  pub block : ℕ
  pub bytes : Option ℕ

-- The blocks that went back to `memory::deallocate`.
pub record Deallocated : Type 0 where
  pub next : PoolAllocator
  pub freed : List ℕ

-- Two allocators, after one was moved to the other, and the blocks that neither has any more.
pub record Moved : Type 0 where
  pub next : PoolAllocator
  pub rhs : PoolAllocator
  pub lost : List ℕ

unfoldable pub make : ℕ → PoolAllocator
make block_limit = record { block_limit = block_limit; pool = [] }

-- The copy constructor, also from an allocator of another type.
unfoldable pub copy : PoolAllocator → PoolAllocator
copy rhs = record { block_limit = rhs.block_limit; pool = [] }

-- The copy assignment.
unfoldable pub assign : PoolAllocator → PoolAllocator → PoolAllocator
assign p rhs = record p { block_limit = rhs.block_limit }

-- The move constructor; `std::vector` leaves the vector that it moves empty.
unfoldable pub move_construct : PoolAllocator → Moved
move_construct rhs = record { next = rhs; rhs = record rhs { pool = [] }; lost = [] }

-- The move assignment: the vector frees its array of pointers, and not what they point to.
unfoldable pub move_assign : PoolAllocator → PoolAllocator → Moved
move_assign p rhs = record { next = rhs; rhs = record rhs { pool = [] }; lost = p.pool }

-- `hce::allocate<T>`, where `address` is that of the block: the memory cache throws `bad_alloc` for no
-- bytes, which is `none`.
abbrev from_memory : PoolAllocator → ℕ → ℕ → Option Allocated
from_memory p bytes address = elim (bytes == 0) [
  | true ↦ none
  | false ↦ some (record { next = p; block = address; bytes = some bytes })
]

-- `allocate(n)`, where `address` is that of the block if it is a new one.
unfoldable pub allocate : Layout → PoolAllocator → ℕ → ℕ → Option Allocated
allocate t p n address = elim (n == 1) [
  | true ↦ elim p.pool [
    | [] ↦ from_memory p (requested t ((t.size_of * n) % 2 ^ 64)) address
    | b ∷ bs ↦ some (record { next = record p { pool = bs }; block = b; bytes = none })
  ]
  | false ↦ from_memory p (requested t ((t.size_of * n) % 2 ^ 64)) address
]

-- `hce::deallocate`: `none` is the `bad_dealloc` that is thrown for a null pointer, which is 0.
abbrev to_memory : PoolAllocator → ℕ → Option Deallocated
to_memory p block = elim (block == 0) [
  | true ↦ none
  | false ↦ some (record { next = p; freed = block ∷ [] })
]

-- `deallocate(block, n)`: a null pointer may be pooled.
unfoldable pub deallocate : PoolAllocator → ℕ → ℕ → Option Deallocated
deallocate p block n = elim (n == 1 && ltb (length p.pool) p.block_limit) [
  | true ↦ some (record { next = record p { pool = block ∷ p.pool }; freed = [] })
  | false ↦ to_memory p block
]

abbrev pub has_null : List ℕ → Bool
has_null [] = false
has_null (b ∷ bs) = b == 0 || has_null bs

-- The destructor: the blocks that it gives back. `none` is `std::terminate`, for `bad_dealloc` leaves
-- a destructor.
unfoldable pub destroy : PoolAllocator → Option Deallocated
destroy p = elim (has_null p.pool) [
  | true ↦ none
  | false ↦ some (record { next = record p { pool = [] }; freed = p.pool })
]

unfoldable pub limit : PoolAllocator → ℕ
limit p = p.block_limit

unfoldable pub available : PoolAllocator → ℕ
available p = length p.pool

unfoldable pub is_full : PoolAllocator → Bool
is_full p = length p.pool == p.block_limit
