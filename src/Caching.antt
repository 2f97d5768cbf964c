-- ===== src/Caching.antt =====
-- 04_caching/02_caching_strategies.py: the database with its counters, the cache, and the four strategies.
-- Latencies are counted in half milliseconds. `simulate` and its random workload are not modelled.
pub mod Calls
pub mod Kept
pub mod Contents
mod Tests
use learn_system_design.Prelude.{ℕ, ◌+◌, Bool, true, false, Option, none, some, List, [], ◌∷◌}
use learn_system_design.Prelude.Dict.{Dict, get, put, remove}

-- The subclass.
pub data Strategy : Type 0 where
  cache_aside write_through write_back write_around : Strategy

abbrev pub db_latency : ℕ
db_latency = 20

abbrev pub cache_latency : ℕ
cache_latency = 1

module _ (K V : Type 0) where
  pub record SlowDb : Type 0 where
    pub rows : Dict K V
    pub reads : ℕ
    pub writes : ℕ

-- `dirty` is the field of `WriteBack`, and is empty in the others.
pub record Store (K V : Type 0) : Type 0 where
  pub db : SlowDb K V
  pub cache : Dict K V
  pub dirty : Dict K V
  pub latency : ℕ

-- `__init__`
unfoldable pub new_store : {K V : Type 0} → Store K V
new_store = record {
  db = record { rows = []; reads = 0; writes = 0 };
  cache = [];
  dirty = [];
  latency = 0;
}

module _ {K V : Type 0} (dec : Discrete K) where
  -- `SlowDB.read`
  unfoldable pub db_read : K → SlowDb K V → Option V × SlowDb K V
  db_read k db = (get dec k db.rows, record db { reads = db.reads + 1 })

  -- `SlowDB.write`
  unfoldable pub db_write : K → V → SlowDb K V → SlowDb K V
  db_write k v db = record db { rows = put dec k v db.rows; writes = db.writes + 1 }

  -- `if v is not None: self.cache.set(k, v)`
  unfoldable pub fill : K → Option V → Dict K V → Dict K V
  fill k none cache = cache
  fill k (some v) cache = put dec k v cache

  -- The rest of `read` after the cache has answered.
  unfoldable pub read_through : K → Option V → Store K V → Option V × Store K V
  unfolding db_read fill
  read_through k (some v) s = (some v, s)
  read_through k none s =
      let (v, db) = db_read k s.db in
      (v, record s { db = db; cache = fill k v s.cache; latency = s.latency + db_latency })

  -- `read`, of every strategy
  unfoldable pub read : K → Store K V → Option V × Store K V
  unfolding read_through
  read k s = read_through k (get dec k s.cache) (record s { latency = s.latency + cache_latency })

  -- `write`
  unfoldable pub write : Strategy → K → V → Store K V → Store K V
  unfolding db_write
  write cache_aside k v s = record s {
    db = db_write k v s.db;
    cache = remove dec k s.cache;
    latency = s.latency + (db_latency + cache_latency);
  }
  write write_through k v s = record s {
    db = db_write k v s.db;
    cache = put dec k v s.cache;
    latency = s.latency + (db_latency + cache_latency);
  }
  write write_back k v s = record s {
    cache = put dec k v s.cache;
    dirty = put dec k v s.dirty;
    latency = s.latency + cache_latency;
  }
  write write_around k v s = record s {
    db = db_write k v s.db;
    cache = remove dec k s.cache;
    latency = s.latency + db_latency;
  }

  -- `for k, v in self.dirty.items(): self.db.write(k, v)`
  unfoldable pub write_all : Dict K V → SlowDb K V → SlowDb K V
  unfolding db_write
  write_all [] db = db
  write_all ((k, v) ∷ items) db = write_all items (db_write k v db)

  -- `WriteBack.flush`
  unfoldable pub flush : Store K V → Store K V
  flush s = record s { db = write_all s.dirty s.db; dirty = [] }
