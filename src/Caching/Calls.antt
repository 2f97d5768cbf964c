-- ===== src/Caching/Calls.antt =====
-- The calls of a client of 04_caching/02_caching_strategies.py, and the map that they describe.
use learn_system_design.Prelude.{Option, some, List, [], ◌∷◌, ite}
use learn_system_design.Caching.{
  Strategy, cache_aside, write_through, write_back, write_around, Store, read, write, flush,
}

-- The calls of a client; only `WriteBack` has a `flush`.
pub data Op (K V : Type 0) : Type 0 where
  read_op : K → Op K V
  write_op : K → V → Op K V
  flush_op : Op K V

module _ {K V : Type 0} (dec : Discrete K) where
  unfoldable pub flush_if : Strategy → Store K V → Store K V
  flush_if write_back s = flush dec s
  flush_if cache_aside s = s
  flush_if write_through s = s
  flush_if write_around s = s

  unfoldable pub perform : Strategy → Op K V → Store K V → Store K V
  unfolding flush_if
  perform st (read_op k) s = (read dec k s).1
  perform st (write_op k v) s = write dec st k v s
  perform st flush_op s = flush_if st s

  unfoldable pub perform_all : Strategy → List (Op K V) → Store K V → Store K V
  perform_all st [] s = s
  perform_all st (op ∷ ops) s = perform_all st ops (perform st op s)

  abbrev pub assign : K → V → (K → Option V) → K → Option V
  assign k v m j = ite (dec k j) (some v) (m j)

  -- The last value written of every key.
  abbrev pub contents : List (Op K V) → (K → Option V) → K → Option V
  contents [] m = m
  contents (read_op k ∷ ops) m = contents ops m
  contents (write_op k v ∷ ops) m = contents ops (assign k v m)
  contents (flush_op ∷ ops) m = contents ops m
