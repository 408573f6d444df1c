-- ===== src/Memory/FreeList.antt =====
-- One bucket of the cache of inc/memory.hpp. A block is what `malloc` returned: its address, the
-- bucket index that the cache wrote into its header, and the bytes behind the header. What `malloc`
-- returns for a new block is an argument, `none` for a null pointer. A free list is given from its back.
use hermesconcurrencyengine.Common.{
  ℕ, ◌+◌, ◌-◌, ◌%◌, ◌^◌, Bool, true, false, Option, none, some, List, [], ◌∷◌, if◌then◌else◌, leb,
  add_size, decrement,
}

pub record Block : Type 0 where
  pub address : ℕ
  pub index : ℕ
  pub size : ℕ

pub record Bucket : Type 0 where
  pub index : ℕ
  pub block : ℕ
  pub limit : ℕ
  pub free_count : ℕ
  pub free_list : List Block

-- A block handed out, the cache left, and whether the block is new.
pub record Allocated (S : Type 0) : Type 0 where
  pub next : S
  pub block : Block
  pub is_new : Bool

-- The cache left, and the blocks given back by `free`, in order.
pub record Freed (S : Type 0) : Type 0 where
  pub next : S
  pub freed : List Block

-- `malloc(sizeof(header) + size)`: the header has one byte, and the sum is a `size_t`.
abbrev pub malloc_size : ℕ → ℕ
malloc_size size = (1 + size) % 2 ^ 64

-- `allocate_header`; `none` is the write of the index through a null pointer, which is undefined.
abbrev pub allocate_header : ℕ → ℕ → Option ℕ → Option Block
allocate_header size index none = none
allocate_header size index (some address) =
    some (record { address = address; index = index; size = malloc_size size - 1 })

abbrev pub new_block : {S : Type 0} → S → Option Block → Option (Allocated S)
new_block next none = none
new_block next (some b) = some (record { next = next; block = b; is_new = true })

unfoldable pub allocate : Bucket → Option ℕ → Option (Allocated Bucket)
allocate k malloced = elim k.free_list [
  | [] ↦ new_block k (allocate_header k.block k.index malloced)
  | hdr ∷ rest ↦ some (record {
    next = record k { free_count = decrement k.free_count; free_list = rest };
    block = hdr;
    is_new = false;
  })
]

unfoldable pub deallocate : Bucket → Block → Freed Bucket
deallocate k hdr =
    if leb k.limit k.free_count then record { next = k; freed = hdr ∷ [] } else record {
      next = record k { free_count = add_size k.free_count 1; free_list = hdr ∷ k.free_list };
      freed = [];
    }

unfoldable pub clear : Bucket → Freed Bucket
clear k = record { next = record k { free_count = 0; free_list = [] }; freed = k.free_list }
