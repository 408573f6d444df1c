-- ===== src/Memory/Tests.antt =====
-- The cache of inc/memory.hpp with three buckets.
use hermesconcurrencyengine.Common.{◌<◌, ◌≤◌, ◌≡◌, refl, false, none, some, List, [], ◌∷◌, arith}
use hermesconcurrencyengine.Memory
use hermesconcurrencyengine.Memory.{
  indexer, bit_width, bit_and, allocate, deallocate, make, bucket_info, clear, allocated,
}
use hermesconcurrencyengine.Memory.FreeList.{Block, Bucket, Allocated}
use hermesconcurrencyengine.Memory.Reuse.{AreBuckets, IsBlock, allocate_lem, reuse_lem}

indexer-at : (indexer 1 ≡ 0) × (indexer 5 ≡ 3) × (indexer 8 ≡ 3) × (indexer 9 ≡ 4)
unfolding indexer bit_width bit_and
indexer-at = (refl, refl, refl, refl)

-- The bucket of the blocks of four bytes keeps one.
abbrev cached : Block
cached = record { address = 64; index = 2; size = 4 }

abbrev buckets : List Bucket
buckets =
    record { index = 0; block = 1; limit = 8; free_count = 0; free_list = [] }
    ∷ record { index = 1; block = 2; limit = 4; free_count = 0; free_list = [] }
    ∷ record { index = 2; block = 4; limit = 2; free_count = 1; free_list = cached ∷ [] }
    ∷ []

buckets-AreBuckets : AreBuckets 0 buckets
buckets-AreBuckets = ground arith

allocate_lem_example :
    (a : Allocated (List Bucket)) × (allocate buckets 3 (some 128) ≡ allocated a)
    × AreBuckets 0 a.next
    × IsBlock a.next a.block
    × (3 ≤ a.block.size)
allocate_lem_example = allocate_lem buckets 3 128 buckets-AreBuckets (omega arith) (omega arith)

abbrev other : Block
other = record { address = 96; index = 2; size = 4 }

index-other : other.index ≡ indexer 3
unfolding indexer bit_width bit_and
index-other = refl

room-other : Memory.available buckets 3 < Memory.limit buckets 3
unfolding Memory.available Memory.limit indexer bit_width bit_and
room-other = omega arith

reuse_lem_example :
    allocate (deallocate buckets other).next 3 none
    ≡ allocated (record { next = buckets; block = other; is_new = false })
reuse_lem_example =
    reuse_lem buckets other 3 none buckets-AreBuckets (omega arith) index-other room-other
