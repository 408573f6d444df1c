-- ===== src/Lib.antt =====
-- A model of the Hermes Concurrency Engine, a C++20 library of coroutines, schedulers and channels, and
-- theorems about what its parts do.
--
-- A scheduler is one thread that executes coroutines in batches; a threadpool holds several and picks
-- the one with the least work. Coroutines wait in awaitables, which channels and the timer service
-- park and resume: whatever waits goes through one protocol of an awaiter and a resumer at a lock. A
-- channel keeps its values in a circular buffer, a list, or nowhere. The threads
-- that execute blocking calls take their work from a synchronized list. All of them allocate from
-- per-thread memory caches.
--
-- Which file models which part, with paths from the repository's root:
--   CircularBuffer     inc/circular_buffer.hpp: a block of slots with two indices; Refine has the queue
--                      that it stands for, Window its used slots, and
--                      Whole its move and destructor.
--   LinkedList         inc/list.hpp: nodes in a store, with their pointers; Chain has the chains of them,
--                      Refine the values that they hold, Copy the copies and the destructor. The
--                      other files take it as a list.
--   Channel            inc/channel.hpp: what the implementations share. Unbuffered, Buffered and
--                      Unlimited have one each, with a function for each locked body of a method
--                      (`on_ready` of a send is `send_on_ready`, `try_send_` is `try_send_value`);
--                      Context has the handle `chan`. The unbuffered one has its own runs, in
--                      Unbuffered/History. Bounded is the queue that Buffered implements,
--                      Run has sequences of operations and the interface `Fifo` of the theorems on
--                      them, and Delivery fills it for the other two.
--   SynchronizedList   inc/synchronized_list.hpp: the locked part of each method; Schedule interleaves
--                      them with the notifications that come after the lock.
--   Scheduler          inc/scheduler.hpp: `run()` as a state machine, and `schedule_`, `suspend_`,
--                      `resume_`, `halt_`; Threads interleaves them; Lifecycle has the service that
--                      suspends and resumes every scheduler.
--                      Tasks has `schedule` of a `co<T>`, from the joiner that it installs to the
--                      cleanup handlers that pass its result on, and Throwing the `catch` of `run()`.
--   Coroutine          inc/coroutine.hpp: the objects that own the frames of coroutines (Ownership has
--                      them in any order); Resuming has `resume`, `in` and `local` with the
--                      thread-local pointer and exceptions, Cleanup the cleanup handlers.
--   Awaitable          inc/coroutine.hpp: `awaitable::interface` and `lockable`, with `await_ready`,
--                      `await_suspend` and `resume` as functions on the interface. Protocol interleaves
--                      one await with one `resume`; its Shapes are the states they go through, and Held
--                      has the thread that resumes hold the lock, as of channels (`no_lock`).
--                      Implementations has the `on_ready`, `on_suspend` and `on_resume` of timers,
--                      joiners and blocking calls (`Implementation`, with the laws `Lawful`), and
--                      `scheduler::reschedule`; Results says what they return. Wrapper has
--                      `hce::awaitable`, `yield` and `scheduler::migrater`.
--   Blocking           inc/blocking.hpp: the cache of worker threads, over a circular buffer; Calls has
--                      `block_` and its awaitables.
--   Timer              inc/timer.hpp and src/timer.cpp: the list of timers, `start`, `cancel`, one round
--                      of `run()`, and the default algorithm for its sleep; Schedule interleaves them.
--   Allocator          inc/alloc.hpp: `aligned_size` and `pool_allocator`; Pool has runs of its calls.
--   Scope              inc/scope.hpp: a scope and its root awaiter, over the unlimited channel.
--   Mutex              inc/mutex.hpp: `try_lock`, `lock_` and `unlock`; UniqueLock has `unique_lock`.
--   Spinlock           inc/atomic.hpp: the spinlock, with any number of threads that call it.
--   Identifier         inc/id.hpp: `sid` and `uid` objects and the bytes that they hold; Sharing has any
--                      run of calls, Unique those without copies, Refine the same calls on numbers
--                      that are never given twice, Pairs and Identity how the two compare.
--   Lifecycle          inc/lifecycle.hpp and src/memory.cpp: the lifecycle object and its map of the
--                      threads' memory caches, through any number of lifecycles; Config has the
--                      configuration and its defaults, of src/lifecycle.cpp.
--   Memory             inc/memory.hpp and src/lifecycle.cpp: the cache, with its buckets in FreeList and
--                      the function from sizes to buckets in Indexer.
--   ThreadPool         inc/threadpool.hpp and src/threadpool.cpp: the workers, and `lightest()`;
--                      Placement has `threadpool::schedule`, `scheduler::get` and `hce::schedule`.
--   Common             names of the libraries, lists and tests over native numbers, `size_t` arithmetic.
-- The Tests of each part are runs at concrete values.
--
-- State is passed explicitly. What runs under a lock is one step, and steps of several threads are
-- interleaved in any order. A coroutine or a task is a number, and resuming it is an event in the
-- result of a step. A raw pointer that a transfer moves through is the value that it moves; undefined
-- behaviour is `none`. `size_t` wraps at 2 ^ 64, an index of a bucket at 2 ^ 8, and `int` at 2 ^ 32;
-- other numbers are counts that stay small.
--
-- Fuel: the loop of `cancel` counts its rounds, since it need not end; `bit_width` and `&` go over the
-- 64 bits of a size; the loop of `cleanup` counts the handlers it calls, and those of the linked
-- list's copies and destructor the addresses or nodes they go over, with theorems that as many as there
-- are suffice; `wakes` of Timer/Sleep counts wakeups, and its theorem says how
-- many are enough.
--
-- Not modelled: condition_variable.hpp (which, like mutex.hpp, does not compile, and which
-- inc/hce.hpp leaves out), logging, threads and clocks, and the vendored loguru and googletest. Of
-- awaitables, those that are resumed more than once, and an `on_ready` that changes a channel or a
-- mutex, which their models have as events. Of lifecycle.hpp, the services, which are members that
-- other files model, and the priority of a thread. Of the timer service, its tick counts. Of alloc.hpp,
-- `allocator` and the functions that construct in place, which only forward.
pub mod Common
pub mod CircularBuffer
pub mod LinkedList
pub mod Channel
pub mod SynchronizedList
pub mod Scheduler
pub mod Coroutine
pub mod Awaitable
pub mod Blocking
pub mod Timer
pub mod Memory
pub mod Allocator
pub mod Scope
pub mod Mutex
pub mod ThreadPool
pub mod Spinlock
pub mod Lifecycle
pub mod Identifier
