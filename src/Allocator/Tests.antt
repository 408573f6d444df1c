-- ===== src/Allocator/Tests.antt =====
-- The allocators of inc/alloc.hpp at concrete values.
use hermesconcurrencyengine.Common.{◌+◌, ◌*◌, ◌%◌, ◌≤◌, ◌<◌, ◌≡◌, refl, List, [], ◌∷◌, none, arith}
use hermesconcurrencyengine.Allocator.{Layout, make, aligned_size, requested, allocate, deallocate}
use hermesconcurrencyengine.Memory.{bit_and}
use hermesconcurrencyengine.Allocator.Aligned.{aligned_size_lem}
use hermesconcurrencyengine.Allocator.Pool.{
  Call, allocates, deallocates, Balanced, calls, open_ledger, calls-open_ledger,
}

-- 12 bytes, aligned to 8.
abbrev layout : Layout
layout = record { size_of = 12; align_of = 8 }

aligned_size_lem_example :
    (12 * 3 ≤ aligned_size layout 3)
    × (aligned_size layout 3 < 12 * 3 + 8)
    × (aligned_size layout 3 % 8 ≡ 0)
aligned_size_lem_example = aligned_size_lem layout 3 3 (omega arith) refl (omega arith)

-- A block comes from the memory cache, goes to the pool, and is handed out again.
abbrev history : List Call
history =
    allocates 1 100
    ∷ deallocates 100 1
    ∷ allocates 1 200
    ∷ deallocates 100 1
    ∷ allocates 0 300
    ∷ deallocates 0 2
    ∷ []

calls-open_ledger_example : Balanced 1 (calls layout (open_ledger 1) history)
calls-open_ledger_example = calls-open_ledger layout 1 history

-- No elements are `bad_alloc`, and a null pointer that does not go to the pool is `bad_dealloc`.
throws : (allocate layout (make 1) 0 100 ≡ none) × (deallocate (make 0) 0 1 ≡ none)
unfolding allocate deallocate make requested aligned_size bit_and
throws = (refl, refl)
