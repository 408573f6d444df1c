-- ===== src/Lifecycle/Config.antt =====
-- `lifecycle::config` of inc/lifecycle.hpp, and its defaults in src/lifecycle.cpp, which src/config.cpp
-- hands out. Durations are in microseconds. The priority of the timer thread comes from the system, and
-- the algorithms and the indexer are those of ThreadPool, Timer and Memory.
use hermesconcurrencyengine.Common.{ℕ, ◌*◌, ◌^◌, ◌≤◌, ◌<◌, List, ℤ, negsuc, ◌≡◌, length, arith}
use hermesconcurrencyengine.Memory
use hermesconcurrencyengine.Memory.{bucket_info}
use hermesconcurrencyengine.Memory.FreeList.{Bucket}
use hermesconcurrencyengine.Memory.Reuse.{AreBuckets}
use hermesconcurrencyengine.Memory.Lifetime.{make_lem}
use hermesconcurrencyengine.Timer.{Thresholds, Service, default_timeout_algorithm, round}
use hermesconcurrencyengine.Timer.Order.{IsSorted}
use hermesconcurrencyengine.Timer.Rounds.{Promises, round_lem}

-- `info::impl`: a name is the field that it stands in.
pub record CacheInfo : Type 0 where
  pub bucket_count : ℕ
  pub byte_limit : ℕ

-- `hce::config::scheduler::config`
pub record SchedulerConfig : Type 0 where
  pub loglevel : ℤ
  pub reusable_coroutine_handle_limit : ℕ
  pub cache_info : CacheInfo

pub record MemoryConfig : Type 0 where
  pub system : CacheInfo
  pub global : CacheInfo
  pub scheduler : CacheInfo

pub record Config : Type 0 where
  pub loglevel : ℤ
  pub mem : MemoryConfig
  pub pool_allocator_default_block_limit : ℕ
  pub global_config : SchedulerConfig
  pub threadpool_count : ℕ
  pub worker_config : SchedulerConfig
  pub reusable_block_worker_cache_size : ℕ
  pub thresholds : Thresholds

-- What the build defines, of the macros that the defaults are made of.
pub record Defines : Type 0 where
  pub loglevel : ℤ
  pub bucket_count : ℕ
  pub system_byte_limit : ℕ
  pub global_byte_limit : ℕ
  pub scheduler_byte_limit : ℕ
  pub pool_allocator_block_limit : ℕ
  pub handle_default_limit : ℕ
  pub handle_global_limit : ℕ
  pub handle_threadpool_limit : ℕ
  pub block_worker_cache_size : ℕ
  pub threadpool_scheduler_count : ℕ
  pub busy_wait : ℕ
  pub early_wakeup : ℕ
  pub early_wakeup_long : ℕ

-- The values of the macros that the build leaves undefined, with pointers of 8 bytes. The size of the
-- cache of block workers has none, and is the build's.
unfoldable pub undefined : ℕ → Defines
undefined block_worker_cache_size = record {
  loglevel = negsuc 0;
  bucket_count = 13;
  system_byte_limit = 8 * 64;
  global_byte_limit = 8 * 2048;
  scheduler_byte_limit = 8 * 1024;
  pool_allocator_block_limit = 64;
  handle_default_limit = 64;
  handle_global_limit = 64;
  handle_threadpool_limit = 64;
  block_worker_cache_size = block_worker_cache_size;
  threadpool_scheduler_count = 0;
  busy_wait = 5000;
  early_wakeup = 10000;
  early_wakeup_long = 250000;
}

-- `memory::memory()`
unfoldable pub memory : Defines → MemoryConfig
memory d = record {
  system = record { bucket_count = d.bucket_count; byte_limit = d.system_byte_limit };
  global = record { bucket_count = d.bucket_count; byte_limit = d.global_byte_limit };
  scheduler = record { bucket_count = d.bucket_count; byte_limit = d.scheduler_byte_limit };
}

-- `hce::config::scheduler::config::config()`, which reads the process-wide memory configuration.
unfoldable pub scheduler_default : Defines → MemoryConfig → SchedulerConfig
scheduler_default d process = record {
  loglevel = d.loglevel;
  reusable_coroutine_handle_limit = d.handle_default_limit;
  cache_info = process.scheduler;
}

-- `scheduler::scheduler(m)` and `threadpool::threadpool(m)`, from the configuration that `config` makes.
unfoldable pub global_config : Defines → MemoryConfig → MemoryConfig → SchedulerConfig
unfolding scheduler_default
global_config d process m = record (scheduler_default d process) {
  loglevel = d.loglevel;
  reusable_coroutine_handle_limit = d.handle_global_limit;
  cache_info = m.global;
}

unfoldable pub worker_config : Defines → MemoryConfig → MemoryConfig → SchedulerConfig
unfolding scheduler_default
worker_config d process m = record (scheduler_default d process) {
  loglevel = d.loglevel;
  reusable_coroutine_handle_limit = d.handle_threadpool_limit;
  cache_info = m.scheduler;
}

-- `config()`, in a process with this memory configuration.
unfoldable pub config : Defines → MemoryConfig → Config
unfolding memory global_config worker_config
config d process = record {
  loglevel = d.loglevel;
  mem = memory d;
  pool_allocator_default_block_limit = d.pool_allocator_block_limit;
  global_config = global_config d process (memory d);
  threadpool_count = d.threadpool_scheduler_count;
  worker_config = worker_config d process (memory d);
  reusable_block_worker_cache_size = d.block_worker_cache_size;
  thresholds = record {
    busy_wait = d.busy_wait;
    early_wakeup = d.early_wakeup;
    early_wakeup_long = d.early_wakeup_long;
  };
}

-- The buckets of a cache made from an info.
unfoldable pub cache_buckets : CacheInfo → List Bucket
cache_buckets i = Memory.make (bucket_info i.byte_limit) 0 i.bucket_count

abbrev pub IsCache : CacheInfo → Type 0
IsCache i = AreBuckets 0 (cache_buckets i) × (length (cache_buckets i) ≡ i.bucket_count)

-- Sane values of the macros: at most 31 buckets, byte limits below 2^64, and an early wakeup that is
-- positive and no shorter than the busy wait.
pub record IsSane (d : Defines) : Type 0 where
  pub few : d.bucket_count ≤ 31
  pub system : d.system_byte_limit < 2 ^ 64
  pub global : d.global_byte_limit < 2 ^ 64
  pub scheduler : d.scheduler_byte_limit < 2 ^ 64
  pub wakes : 0 < d.early_wakeup
  pub waits : d.busy_wait ≤ d.early_wakeup

pub undefined-IsSane : (n : ℕ) → IsSane (undefined n)
unfolding undefined
undefined-IsSane n = omega arith

info-IsCache : (i : CacheInfo) → i.byte_limit < 2 ^ 64 → i.bucket_count ≤ 31 → IsCache i
unfolding cache_buckets
info-IsCache i h l = make_lem i.byte_limit i.bucket_count h l

-- With sane macros, the caches that the default configuration gives to system threads, to the global
-- scheduler and to the workers of the threadpool have buckets as they should be, as many as the
-- macro says; and a round of the timer thread with the configured thresholds does what it promises.
pub config_lem :
    (d : Defines) (process : MemoryConfig) (now : ℕ) (s : Service)
    → IsSane d
    → IsSorted s.timers
    → let c = config d process in
      IsCache c.mem.system
      × IsCache c.global_config.cache_info
      × IsCache c.worker_config.cache_info
      × Promises now s (round (default_timeout_algorithm c.thresholds) c.thresholds now s)
unfolding config
config_lem d process now s v o =
    let c = config d process in
    (
      info-IsCache c.mem.system v.system v.few,
      info-IsCache c.global_config.cache_info v.global v.few,
      info-IsCache c.worker_config.cache_info v.scheduler v.few,
      round_lem c.thresholds now s v.wakes v.waits o,
    )
