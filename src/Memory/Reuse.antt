-- ===== src/Memory/Reuse.antt =====
-- What the cache of inc/memory.hpp keeps when it hands out a block and takes one back.
use hermesconcurrencyengine.Common.{
  ℕ, zero, suc, ◌+◌, ◌-◌, ◌^◌, Option, decrement, ◌<◌, ◌≤◌, ◌≡◌, ◌⊎◌, inl, inr, refl, sym, ap,
  subst, ◌∙◌, true, false, none, some, List, [], ◌∷◌, length, get_elem?, set, All, arith,
  List-cases, Option-cases, get_elem?-set_self,
}
use hermesconcurrencyengine.Memory.FreeList
use hermesconcurrencyengine.Memory.FreeList.{Block, Bucket, Allocated, Freed, malloc_size}
use hermesconcurrencyengine.Memory
use hermesconcurrencyengine.Memory.{
  indexer, allocate, deallocate, available, allocated, outcome, put_back,
}
use hermesconcurrencyengine.Memory.Indexer.{indexer_lem}

-- A block of bucket `i`.
abbrev pub Fits : ℕ → Block → Type 0
Fits i b = (b.index ≡ i) × (b.size ≡ 2 ^ i)

-- The bucket with index `i`.
pub record IsBucket (i : ℕ) (k : Bucket) : Type 0 where
  pub own_index : k.index ≡ i
  pub own_block : k.block ≡ 2 ^ i
  -- with the byte of its header
  pub header_fits : k.block + 1 < 2 ^ 64
  pub some_room : 0 < k.limit
  pub small : k.limit < 2 ^ 64
  pub counted : k.free_count ≡ length k.free_list
  pub bounded : k.free_count ≤ k.limit
  pub free : All (Fits i) k.free_list

-- The buckets from `i` on.
abbrev pub AreBuckets : ℕ → List Bucket → Type 0
AreBuckets i [] = Unit {0}
AreBuckets i (k ∷ ks) = IsBucket i k × AreBuckets (i + 1) ks

-- A block that the cache handed out.
abbrev pub IsBlock : List Bucket → Block → Type 0
IsBlock buckets b = (length buckets ≤ b.index) ⊎ Fits b.index b

allocate-IsBucket :
    (i : ℕ) (k : Bucket) (address : ℕ)
    → IsBucket i k
    → (a : Allocated Bucket) × (FreeList.allocate k (some address) ≡ some a)
      × IsBucket i a.next
      × Fits i a.block
unfolding FreeList.allocate
allocate-IsBucket i k address v = elim (List-cases k.free_list) [
  | inl e ↦ (
    record {
      next = k;
      block = record { address = address; index = k.index; size = malloc_size k.block - 1 };
      is_new = true;
    },
    ground (arith, e),
    v,
    ground (arith, v.own_index, v.own_block, v.header_fits),
  )
  | inr (b, bs, e) ↦ (
    record {
      next = record k { free_count = decrement k.free_count; free_list = bs };
      block = b;
      is_new = false;
    },
    ground (arith, e),
    ground (arith, v, e),
    ground (arith, v, e),
  )
]

deallocate-IsBucket :
    (i : ℕ) (k : Bucket) (b : Block)
    → IsBucket i k
    → Fits i b
    → IsBucket i (FreeList.deallocate k b).next
unfolding FreeList.deallocate
deallocate-IsBucket i k b v f = ground (arith, v, f)

some-injective : {A : Type 0} {a b : A} → some a ≡ some b → a ≡ b
some-injective {a = a} e = ap (λ o. elim o [ none ↦ a | some c ↦ c ]) e

in_range :
    (buckets : List Bucket) (j : ℕ) (k : Bucket) → get_elem? buckets j ≡ some k → j < length buckets
in_range [] j k e = ground (arith, e)
in_range (x ∷ xs) zero k e = omega arith
in_range (x ∷ xs) (suc j) k e = omega (arith, in_range xs j k e)

out_of_range : (buckets : List Bucket) (j : ℕ) → get_elem? buckets j ≡ none → length buckets ≤ j
out_of_range [] j e = omega arith
out_of_range (x ∷ xs) zero e = ground (arith, e)
out_of_range (x ∷ xs) (suc j) e = omega (arith, out_of_range xs j e)

get_elem?-AreBuckets :
    (buckets : List Bucket) (i j : ℕ) (k : Bucket)
    → AreBuckets i buckets
    → get_elem? buckets j ≡ some k
    → IsBucket (i + j) k
get_elem?-AreBuckets [] i j k v e = ground (arith, e)
get_elem?-AreBuckets (x ∷ xs) i zero k v e =
    subst (λ n. IsBucket n k) (omega arith) (subst (IsBucket i) (some-injective e) v.0)
get_elem?-AreBuckets (x ∷ xs) i (suc j) k v e =
    subst (λ n. IsBucket n k) (omega arith) (get_elem?-AreBuckets xs (i + 1) j k v.1 e)

set-AreBuckets :
    (buckets : List Bucket) (i j : ℕ) (k : Bucket)
    → AreBuckets i buckets
    → IsBucket (i + j) k
    → AreBuckets i (set buckets j k)
set-AreBuckets [] i j k v w = tt
set-AreBuckets (x ∷ xs) i zero k v w = (subst (λ n. IsBucket n k) (omega arith) w, v.1)
set-AreBuckets (x ∷ xs) i (suc j) k v w =
    (v.0, set-AreBuckets xs (i + 1) j k v.1 (subst (λ n. IsBucket n k) (omega arith) w))

set-same :
    (buckets : List Bucket) (j : ℕ) (k : Bucket)
    → get_elem? buckets j ≡ some k
    → set buckets j k ≡ buckets
set-same [] j k e = refl
set-same (x ∷ xs) zero k e = ap (λ y. y ∷ xs) (sym (some-injective e))
set-same (x ∷ xs) (suc j) k e = ap (λ ys. x ∷ ys) (set-same xs j k e)

set-set :
    (buckets : List Bucket) (j : ℕ) (k l : Bucket) → set (set buckets j k) j l ≡ set buckets j l
set-set [] j k l = refl
set-set (x ∷ xs) zero k l = refl
set-set (x ∷ xs) (suc j) k l = ap (λ ys. x ∷ ys) (set-set xs j k l)

bucket_at :
    (buckets : List Bucket) (j : ℕ) (k : Bucket)
    → AreBuckets 0 buckets
    → get_elem? buckets j ≡ some k
    → IsBucket j k
bucket_at buckets j k v e =
    subst (λ n. IsBucket n k) (omega arith) (get_elem?-AreBuckets buckets 0 j k v e)

put_at :
    (buckets : List Bucket) (j : ℕ) (k : Bucket)
    → AreBuckets 0 buckets
    → IsBucket j k
    → AreBuckets 0 (set buckets j k)
put_at buckets j k v w = set-AreBuckets buckets 0 j k v (subst (λ n. IsBucket n k) (omega arith) w)

bucket_reuse :
    (i : ℕ) (k : Bucket) (b : Block) (malloced : Option ℕ)
    → IsBucket i k
    → k.free_count < k.limit
    → FreeList.allocate (FreeList.deallocate k b).next malloced
      ≡ some (record { next = k; block = b; is_new = false })
unfolding FreeList.allocate FreeList.deallocate
bucket_reuse i k b malloced v room = ground (arith, v)

deallocate-some :
    (buckets : List Bucket) (b : Block) (k : Bucket)
    → get_elem? buckets b.index ≡ some k
    → deallocate buckets b ≡ record {
      next = set buckets b.index (FreeList.deallocate k b).next;
      freed = (FreeList.deallocate k b).freed;
    }
unfolding deallocate
deallocate-some buckets b k e = rw (e, deallocate) refl

allocate-some :
    (buckets : List Bucket) (size : ℕ) (malloced : Option ℕ) (k : Bucket)
    → 0 < size
    → get_elem? buckets (indexer size) ≡ some k
    → allocate buckets size malloced
      ≡ outcome (put_back buckets (indexer size) (FreeList.allocate k malloced))
unfolding allocate
allocate-some buckets size malloced k p e = ground (arith, e)

-- With the buckets as they should be, `allocate` of a size between 1 and 2^64 - 2 returns a block
-- that holds the size and may be given back, and leaves the buckets as they should be, if `malloc`
-- does not return a null pointer.
pub allocate_lem :
    (buckets : List Bucket) (size address : ℕ)
    → AreBuckets 0 buckets
    → 0 < size
    → size + 1 < 2 ^ 64
    → (a : Allocated (List Bucket)) × (allocate buckets size (some address) ≡ allocated a)
      × AreBuckets 0 a.next
      × IsBlock a.next a.block
      × (size ≤ a.block.size)
unfolding allocate
allocate_lem buckets size address v p h = elim (Option-cases (get_elem? buckets (indexer size))) [
  | inl e ↦ (
    record {
      next = buckets;
      block = record { address = address; index = indexer size; size = malloc_size size - 1 };
      is_new = true;
    },
    ground (arith, e, p),
    v,
    inl (out_of_range buckets (indexer size) e),
    omega (arith, h),
  )
  | inr (k, e) ↦
      let (a, given, kept, fits) =
        allocate-IsBucket (indexer size) k address (bucket_at buckets (indexer size) k v e) in
      (
        record { next = set buckets (indexer size) a.next; block = a.block; is_new = a.is_new },
        ground (arith, e, p, given),
        put_at buckets (indexer size) a.next v kept,
        ground (arith, fits),
        ground (arith, fits, indexer_lem size p (omega (arith, h))),
      )
]

-- With the buckets as they should be, and a block that may be given back, `deallocate` leaves the
-- buckets as they should be, and either gives nothing to `free`, or just that block and changes
-- nothing else.
pub deallocate_lem :
    (buckets : List Bucket) (b : Block)
    → AreBuckets 0 buckets
    → IsBlock buckets b
    → AreBuckets 0 (deallocate buckets b).next
      × (((deallocate buckets b).freed ≡ [])
          ⊎ (((deallocate buckets b).freed ≡ b ∷ []) × ((deallocate buckets b).next ≡ buckets)))
unfolding FreeList.deallocate deallocate
deallocate_lem buckets b v i = elim (Option-cases (get_elem? buckets b.index)) [
  | inl e ↦ ground (arith, e)
  | inr (k, e) ↦
      let fits : Fits b.index b = ground (arith, in_range buckets b.index k e) in
      let w = bucket_at buckets b.index k v e in
      rw (deallocate-some buckets b k e) (
        put_at buckets b.index (FreeList.deallocate k b).next v
            (deallocate-IsBucket b.index k b w fits),
        ground (arith, set-same buckets b.index k e),
      )
]

-- With the buckets as they should be, if the bucket of a size that is not 0 keeps less than its
-- limit, then a block of that bucket that is given back is the one that the next `allocate` of the
-- size returns, whatever `malloc` would return, and the buckets are then as they were.
pub reuse_lem :
    (buckets : List Bucket) (b : Block) (size : ℕ) (malloced : Option ℕ)
    → AreBuckets 0 buckets
    → 0 < size
    → b.index ≡ indexer size
    → available buckets size < Memory.limit buckets size
    → allocate (deallocate buckets b).next size malloced
      ≡ allocated (record { next = buckets; block = b; is_new = false })
unfolding available Memory.limit
reuse_lem buckets b size malloced v p e room = elim (Option-cases (get_elem? buckets b.index)) [
  | inl f ↦ absurd (ground (arith, e, f))
  | inr (k, f) ↦
      let w = bucket_at buckets b.index k v f in
      let fill = (FreeList.deallocate k b).next in
      let again = bucket_reuse b.index k b malloced w (ground (arith, e, f)) in
      let held = get_elem?-set_self buckets b.index fill (in_range buckets b.index k f) in
      rw (deallocate-some buckets b k f) (
        allocate-some (set buckets b.index fill) size malloced fill p
          (subst (λ j. get_elem? (set buckets b.index fill) j ≡ some fill) e held)
        ∙ rw (again, sym e, set-set buckets b.index fill k, set-same buckets b.index k f) refl)
]
