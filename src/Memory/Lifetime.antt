-- ===== src/Memory/Lifetime.antt =====
-- The cache of inc/memory.hpp as its constructor makes it, and after `clear`.
use hermesconcurrencyengine.Common.{
  ℕ, zero, suc, ◌+◌, ◌/◌, ◌^◌, ◌<◌, ◌≤◌, ◌≡◌, refl, List, [], ◌∷◌, ◌++◌, length, arith, ltb,
  Bool-cases, inl, inr, ap,
}
use native.Mathlib.Nat.{pow-le-pow_right, div-eq-sub-div, div-le_self}
use hermesconcurrencyengine.Memory.{make, bucket_info, BucketInfo, clear}
use hermesconcurrencyengine.Memory.FreeList
use hermesconcurrencyengine.Memory.FreeList.{Block, Bucket}
use hermesconcurrencyengine.Memory.Indexer.{pow-positive}
use hermesconcurrencyengine.Memory.Reuse.{AreBuckets}

small_power : (i : ℕ) → i < 31 → 2 ^ i + 1 < 2 ^ 64
small_power i l =
    omega (arith, pow-le-pow_right {n = 2} (omega arith) {i = i} {j = 31} (omega arith))

quotient : (x m : ℕ) → 0 < m → m ≤ x → x < 2 ^ 64 → (0 < x / m) × (x / m < 2 ^ 64)
quotient x m p h l = (omega (arith, div-eq-sub-div p h), omega (arith, div-le_self x m))

bucket_info_lem :
    (byte_limit i : ℕ)
    → byte_limit < 2 ^ 64
    → i < 31
    → ((bucket_info byte_limit i).block ≡ 2 ^ i)
      × (0 < (bucket_info byte_limit i).limit)
      × ((bucket_info byte_limit i).limit < 2 ^ 64)
      × ((bucket_info byte_limit i).block + 1 < 2 ^ 64)
unfolding bucket_info
bucket_info_lem byte_limit i h l = elim (Bool-cases (ltb (2 ^ i) byte_limit)) [
  | inl e ↦ ground (
    arith,
    e,
    small_power i l,
    quotient byte_limit (2 ^ i) (pow-positive i) (ground (arith, e)) h,
  )
  | inr e ↦ ground (
    arith,
    e,
    small_power i l,
    quotient (2 ^ i) (2 ^ i) (pow-positive i) (omega arith) (omega (arith, small_power i l)),
  )
]

make-AreBuckets :
    (byte_limit i n : ℕ)
    → byte_limit < 2 ^ 64
    → i + n ≤ 31
    → AreBuckets i (make (bucket_info byte_limit) i n)
unfolding make
make-AreBuckets byte_limit i zero h l = tt
make-AreBuckets byte_limit i (suc n) h l =
    let info = bucket_info_lem byte_limit i h (omega arith) in
    (ground (arith, info), make-AreBuckets byte_limit (i + 1) n h (omega arith))

length-make : (info : ℕ → BucketInfo) (i n : ℕ) → length (make info i n) ≡ n
unfolding make
length-make info i zero = refl
length-make info i (suc n) = ap suc (length-make info (i + 1) n)

-- For a byte limit below 2^64 and at most 31 buckets, the constructor makes that many buckets, and
-- they are as they should be: bucket `i` has blocks of 2^i bytes, a limit of at least one block,
-- and keeps none.
pub make_lem :
    (byte_limit count : ℕ)
    → byte_limit < 2 ^ 64
    → count ≤ 31
    → AreBuckets 0 (make (bucket_info byte_limit) 0 count)
      × (length (make (bucket_info byte_limit) 0 count) ≡ count)
make_lem byte_limit count h l = (
  make-AreBuckets byte_limit 0 count h (omega arith),
  length-make (bucket_info byte_limit) 0 count,
)

-- Every block that the buckets keep, from the back of each.
abbrev pub kept : List Bucket → List Block
kept [] = []
kept (k ∷ ks) = k.free_list ++ kept ks

clear-AreBuckets :
    (buckets : List Bucket) (i : ℕ) → AreBuckets i buckets → AreBuckets i (clear buckets).next
unfolding clear FreeList.clear
clear-AreBuckets [] i v = tt
clear-AreBuckets (k ∷ ks) i v = (ground (arith, v.0), clear-AreBuckets ks (i + 1) v.1)

freed-clear : (buckets : List Bucket) → (clear buckets).freed ≡ kept buckets
unfolding clear FreeList.clear
freed-clear [] = refl
freed-clear (k ∷ ks) = ap (λ bs. k.free_list ++ bs) (freed-clear ks)

kept-clear : (buckets : List Bucket) → kept (clear buckets).next ≡ []
unfolding clear FreeList.clear
kept-clear [] = refl
kept-clear (k ∷ ks) = kept-clear ks

-- With the buckets as they should be, `clear` gives to `free` exactly the blocks that they keep, in
-- order, and leaves buckets as they should be that keep none.
pub clear_lem :
    (buckets : List Bucket)
    → AreBuckets 0 buckets
    → ((clear buckets).freed ≡ kept buckets)
      × (kept (clear buckets).next ≡ [])
      × AreBuckets 0 (clear buckets).next
clear_lem buckets v = (freed-clear buckets, kept-clear buckets, clear-AreBuckets buckets 0 v)
