-- ===== src/Eviction.antt =====
-- 04_caching/01_eviction_policies_lru_lfu.py: the three caches, a module each, `run` over them, and sequences of calls.
pub mod Lru
pub mod Lfu
pub mod Fifo
pub mod Workload

-- A call of a cache.
pub data Call (K V : Type 0) : Type 0 where
  get_of : K → Call K V
  put_of : K → V → Call K V
