-- ===== src/Memory.antt =====
-- inc/memory.hpp and src/lifecycle.cpp: `memory::cache`, which keeps freed blocks in buckets of equal
-- blocks and hands them out again. Memory/FreeList has one bucket; the other children are
-- about the sizes of blocks, and the cache as a whole.
pub mod FreeList
pub mod Indexer
pub mod Reuse
pub mod Lifetime
mod Tests
use hermesconcurrencyengine.Common.{
  ℕ, zero, suc, ◌+◌, ◌-◌, ◌*◌, ◌/◌, ◌%◌, ◌^◌, Bool, true, false, Option, none, some, List, [], ◌∷◌,
  ◌++◌, length, get_elem?, set, if◌then◌else◌, ltb, leb, ◌==◌, add_size, decrement,
}
use hermesconcurrencyengine.Memory.FreeList
use hermesconcurrencyengine.Memory.FreeList.{
  Block, Bucket, Allocated, Freed, allocate_header, new_block,
}

-- `std::bit_width` and `&` on numbers of at most `bits` bits.
pub bit_width : ℕ → ℕ → ℕ
bit_width zero n = 0
bit_width (suc bits) n = if n == 0 then 0 else suc (bit_width bits (n / 2))

unfoldable pub bit_and : ℕ → ℕ → ℕ → ℕ
bit_and zero a b = 0
bit_and (suc bits) a b = (a % 2) * (b % 2) + 2 * bit_and bits (a / 2) (b / 2)

-- `info::indexer`: an `index_t` has 8 bits.
pub indexer : ℕ → ℕ
indexer size =
    let index = (bit_width 64 size + 2 ^ 64 - 1) % 2 ^ 8 in
    if bit_and 64 size (decrement size) == 0 then index else (index + 1) % 2 ^ 8

-- `info::impl`: the block size and the limit of the buckets from `i`.
pub record BucketInfo : Type 0 where
  pub block : ℕ
  pub limit : ℕ

pub bucket_info : ℕ → ℕ → BucketInfo
bucket_info byte_limit i =
    let size = 2 ^ i in
    record { block = size; limit = (if ltb size byte_limit then byte_limit else size) / size }

-- The constructor of `cache`, for the buckets from `i`.
pub make : (ℕ → BucketInfo) → ℕ → ℕ → List Bucket
make info i zero = []
make info i (suc n) =
    record {
      index = i;
      block = (info i).block;
      limit = (info i).limit;
      free_count = 0;
      free_list = [];
    }
    ∷ make info (i + 1) n

-- What `allocate` comes to: an exception, undefined behaviour where `malloc` returned a null pointer,
-- or a block.
pub data Outcome : Type 0 where
  bad_alloc : Outcome
  undefined : Outcome
  allocated : Allocated (List Bucket) → Outcome

abbrev pub outcome : Option (Allocated (List Bucket)) → Outcome
outcome none = undefined
outcome (some a) = allocated a

-- The bucket that was allocated from, in its place.
abbrev pub put_back : List Bucket → ℕ → Option (Allocated Bucket) → Option (Allocated (List Bucket))
put_back buckets i none = none
put_back buckets i (some a) =
    some (record { next = set buckets i a.next; block = a.block; is_new = a.is_new })

-- `cache::allocate`, where `malloced` is what `malloc` returns if it is called.
pub allocate : List Bucket → ℕ → Option ℕ → Outcome
allocate buckets size malloced =
    if size == 0
    then bad_alloc
    else outcome (elim (get_elem? buckets (indexer size)) [
      | some k ↦ put_back buckets (indexer size) (FreeList.allocate k malloced)
      | none ↦ new_block buckets (allocate_header size (indexer size) malloced)
    ])

-- `cache::deallocate` of a block, not of `nullptr`.
pub deallocate : List Bucket → Block → Freed (List Bucket)
deallocate buckets hdr = elim (get_elem? buckets hdr.index) [
  | some k ↦
      let f = FreeList.deallocate k hdr in
      record { next = set buckets hdr.index f.next; freed = f.freed }
  | none ↦ record { next = buckets; freed = hdr ∷ [] }
]

pub available : List Bucket → ℕ → ℕ
available buckets size = elim (get_elem? buckets (indexer size)) [
  | some k ↦ k.free_count
  | none ↦ 0
]

pub limit : List Bucket → ℕ → ℕ
limit buckets size = elim (get_elem? buckets (indexer size)) [ some k ↦ k.limit | none ↦ 0 ]

pub clear : List Bucket → Freed (List Bucket)
clear [] = record { next = []; freed = [] }
clear (k ∷ ks) =
    let f = FreeList.clear k in
    let rest = clear ks in record { next = f.next ∷ rest.next; freed = f.freed ++ rest.freed }
