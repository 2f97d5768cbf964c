-- ===== src/Eviction/Workload.antt =====
-- `run`, over the operations of any of the caches.
mod Counts
use learn_system_design.Prelude.{
  ℕ, ◌+◌, Option, none, some, List, [], ◌∷◌, ◌>>=◌, ◌==◌, if◌then◌else◌,
}
use learn_system_design.Eviction.Lru.{LruCache}
use learn_system_design.Eviction.Lfu.{LfuCache}
use learn_system_design.Eviction.Fifo.{FifoCache}

-- What `run` uses of a cache.
pub record Cache (K V C : Type 0) : Type 0 where
  pub get : K → C → Option (Option V × C)
  pub put : K → V → C → Option C
  pub hits : C → ℕ
  pub misses : C → ℕ

module _ {K V : Type 0} (dec : Discrete K) where
  abbrev pub lru : Cache K V (LruCache K V)
  lru = record {
    get = learn_system_design.Eviction.Lru.lookup dec;
    put = learn_system_design.Eviction.Lru.store dec;
    hits = λ c. c.hits;
    misses = λ c. c.misses;
  }

  abbrev pub lfu : Cache K V (LfuCache K V)
  lfu = record {
    get = learn_system_design.Eviction.Lfu.lookup dec;
    put = learn_system_design.Eviction.Lfu.store dec;
    hits = λ c. c.hits;
    misses = λ c. c.misses;
  }

  abbrev pub fifo : Cache K V (FifoCache K V)
  fifo = record {
    get = λ k c. some (learn_system_design.Eviction.Fifo.lookup dec k c);
    put = learn_system_design.Eviction.Fifo.store dec;
    hits = λ c. c.hits;
    misses = λ c. c.misses;
  }

module _ {K V C : Type 0} (cache : Cache K V C) (load : K → V) where
  -- On a miss the value is loaded and cached.
  unfoldable pub fill : K → Option V → C → Option C
  fill key (some v) c = some c
  fill key none c = cache.put key (load key) c

  -- The loop of `run`.
  unfoldable pub run_all : List K → C → Option C
  unfolding fill
  run_all [] c = some c
  run_all (key ∷ workload) c = do (v, c1) ← cache.get key c; c2 ← fill key v c1; run_all workload c2

  -- The hit rate as a fraction; an empty workload divides by zero.
  unfoldable pub rate : C → Option (ℕ × ℕ)
  rate c =
      if cache.hits c + cache.misses c == 0
      then none
      else some (cache.hits c, cache.hits c + cache.misses c)

  -- `run`
  unfoldable pub run : List K → C → Option (ℕ × ℕ)
  unfolding run_all rate
  run workload c = run_all workload c >>= rate
