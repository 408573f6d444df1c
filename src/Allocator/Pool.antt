-- ===== src/Allocator/Pool.antt =====
-- The blocks of a `pool_allocator` of inc/alloc.hpp over a run of calls.
use hermesconcurrencyengine.Common.{
  ℕ, ◌+◌, ◌≤◌, ◌<◌, Option, none, some, List, [], ◌∷◌, ◌++◌, ◌≡◌, refl, false, ◌∙◌, length, is_same,
  count, count-append, append-nil, arith,
}
use hermesconcurrencyengine.Allocator.{
  Layout, PoolAllocator, Allocated, Deallocated, has_null, make, allocate, deallocate, move_assign,
  destroy,
}

pub data Call : Type 0 where
  -- `allocate(n)`, and the address of the block if it is a new one
  allocates : ℕ → ℕ → Call
  -- `deallocate(block, n)`
  deallocates : ℕ → ℕ → Call

-- An allocator, and the blocks that it took and gave so far.
pub record Ledger : Type 0 where
  pub allocator : PoolAllocator
  -- from `memory::allocate`, and back to `memory::deallocate`
  pub obtained : List ℕ
  pub freed : List ℕ
  -- to the callers of `allocate`, and back from those of `deallocate`
  pub handed_out : List ℕ
  pub returned : List ℕ

abbrev new_block : Option ℕ → ℕ → List ℕ
new_block none block = []
new_block (some bytes) block = block ∷ []

-- A call that throws leaves everything as it was.
abbrev after_allocate : Ledger → Option Allocated → Ledger
after_allocate l none = l
after_allocate l (some r) = record l {
  allocator = r.next;
  obtained = new_block r.bytes r.block ++ l.obtained;
  handed_out = r.block ∷ l.handed_out;
}

abbrev after_deallocate : Ledger → ℕ → Option Deallocated → Ledger
after_deallocate l block none = l
after_deallocate l block (some r) = record l {
  allocator = r.next;
  freed = r.freed ++ l.freed;
  returned = block ∷ l.returned;
}

unfoldable pub call : Layout → Ledger → Call → Ledger
call t l (allocates n address) = after_allocate l (allocate t l.allocator n address)
call t l (deallocates block n) = after_deallocate l block (deallocate l.allocator block n)

unfoldable pub calls : Layout → Ledger → List Call → Ledger
calls t l [] = l
calls t l (c ∷ rest) = calls t (call t l c) rest

unfoldable pub open_ledger : ℕ → Ledger
unfolding make
open_ledger block_limit = record {
  allocator = make block_limit;
  obtained = [];
  freed = [];
  handed_out = [];
  returned = [];
}

-- The pool is within its limit, and every block is accounted for.
pub record Balanced (block_limit : ℕ) (l : Ledger) : Type 0 where
  pub same_limit : l.allocator.block_limit ≡ block_limit
  pub within : length l.allocator.pool ≤ block_limit
  pub counted :
      (b : ℕ)
      → count b l.allocator.pool + count b l.handed_out + count b l.freed
        ≡ count b l.obtained + count b l.returned

-- What a call that returns does to the pool.
abbrev AllocatedFrom : PoolAllocator → Allocated → Type 0
AllocatedFrom p r =
    ((b : ℕ)
      → count b r.next.pool + is_same b r.block
        ≡ count b p.pool + count b (new_block r.bytes r.block))
    × (r.next.block_limit ≡ p.block_limit)
    × (length r.next.pool ≤ length p.pool)

abbrev DeallocatedTo : PoolAllocator → ℕ → Deallocated → Type 0
DeallocatedTo p block r =
    ((b : ℕ) → count b r.next.pool + count b r.freed ≡ count b p.pool + is_same b block)
    × (r.next.block_limit ≡ p.block_limit)
    × (length r.next.pool ≤ p.block_limit)

allocate-AllocatedFrom :
    (t : Layout) (p : PoolAllocator) (n address : ℕ) {r : Allocated}
    → allocate t p n address ≡ some r
    → AllocatedFrom p r
unfolding allocate
allocate-AllocatedFrom t p n address e =
    ((λ b. ground (arith, e)), ground (arith, e), ground (arith, e))

deallocate-DeallocatedTo :
    (p : PoolAllocator) (block n : ℕ) {r : Deallocated}
    → length p.pool ≤ p.block_limit
    → deallocate p block n ≡ some r
    → DeallocatedTo p block r
unfolding deallocate
deallocate-DeallocatedTo p block n within e =
    ((λ b. ground (arith, e)), ground (arith, e), ground (arith, e))

module _ (t : Layout) (block_limit : ℕ) where
  after_allocate-Balanced :
      (l : Ledger) (o : Option Allocated)
      → Balanced block_limit l
      → ((r : Allocated) → o ≡ some r → AllocatedFrom l.allocator r)
      → Balanced block_limit (after_allocate l o)
  after_allocate-Balanced l none v h = v
  after_allocate-Balanced l (some r) v h =
      let (counts, same, less) = h r refl in
      record {
        same_limit = same ∙ v.same_limit;
        within = omega (arith, less, v.within);
        counted = λ b.
            omega
              (arith, v.counted b, counts b, count-append b (new_block r.bytes r.block) l.obtained);
      }

  after_deallocate-Balanced :
      (l : Ledger) (block : ℕ) (o : Option Deallocated)
      → Balanced block_limit l
      → ((r : Deallocated) → o ≡ some r → DeallocatedTo l.allocator block r)
      → Balanced block_limit (after_deallocate l block o)
  after_deallocate-Balanced l block none v h = v
  after_deallocate-Balanced l block (some r) v h =
      let (counts, same, less) = h r refl in
      record {
        same_limit = same ∙ v.same_limit;
        within = omega (arith, less, v.same_limit);
        counted = λ b. omega (arith, v.counted b, counts b, count-append b r.freed l.freed);
      }

  call-Balanced :
      (l : Ledger) (c : Call) → Balanced block_limit l → Balanced block_limit (call t l c)
  unfolding call
  call-Balanced l (allocates n address) v =
      after_allocate-Balanced l (allocate t l.allocator n address) v
        (λ r e. allocate-AllocatedFrom t l.allocator n address e)
  call-Balanced l (deallocates block n) v =
      after_deallocate-Balanced l block (deallocate l.allocator block n) v (λ r e.
        deallocate-DeallocatedTo l.allocator block n (omega (arith, v.within, v.same_limit)) e)

  calls-Balanced :
      (cs : List Call) (l : Ledger) → Balanced block_limit l → Balanced block_limit (calls t l cs)
  unfolding calls
  calls-Balanced [] l v = v
  calls-Balanced (c ∷ rest) l v = calls-Balanced rest (call t l c) (call-Balanced l c v)

  -- After any calls of `allocate` and `deallocate` on a new allocator, also ones that throw, its
  -- pool has at most as many blocks as its limit, and every block is in the pool, was handed out,
  -- or was freed, together as often as it came from the memory cache or was given back.
  pub calls-open_ledger :
      (cs : List Call) → Balanced block_limit (calls t (open_ledger block_limit) cs)
  unfolding open_ledger make
  calls-open_ledger cs =
      calls-Balanced cs (open_ledger block_limit)
        (record { same_limit = refl; within = omega arith; counted = λ b. refl })

-- If the pool is below its limit, a block of one element that is given back is the next one handed
-- out, and the allocator is then as it was.
pub deallocate-allocate :
    (t : Layout) (p : PoolAllocator) (block address : ℕ)
    → length p.pool < p.block_limit
    → (d : Deallocated) × (deallocate p block 1 ≡ some d)
      × (allocate t d.next 1 address ≡ some (record { next = p; block = block; bytes = none }))
unfolding allocate deallocate
deallocate-allocate t p block address room =
    (record { next = record p { pool = block ∷ p.pool }; freed = [] }, ground arith, refl)

-- After a move assignment from an allocator that pools no null pointer, the two destructors give
-- back the blocks of `rhs`, and none of those that the target had in its pool before.
pub move_assign-leaks :
    (p rhs : PoolAllocator)
    → has_null rhs.pool ≡ false
    → let r = move_assign p rhs in
      (d : Deallocated) × (e : Deallocated) × (destroy r.next ≡ some d)
      × (destroy r.rhs ≡ some e)
      × (d.freed ++ e.freed ≡ rhs.pool)
unfolding move_assign destroy
move_assign-leaks p rhs h = (
  record { next = record rhs { pool = [] }; freed = rhs.pool },
  record { next = record rhs { pool = [] }; freed = [] },
  ground (arith, h),
  refl,
  append-nil rhs.pool,
)
