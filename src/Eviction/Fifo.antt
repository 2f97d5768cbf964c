-- ===== src/Eviction/Fifo.antt =====
-- `FIFOCache`. `put` returns `none` where Python would raise a KeyError: `popitem` on an empty dict.
pub mod Queue
mod Tests
use learn_system_design.Prelude.{
  ℕ, ◌+◌, Bool, not, ◌&&◌, Option, none, some, List, [], ◌∷◌, length, leb, if◌then◌else◌,
}
use learn_system_design.Prelude.Dict.{Dict, get, put, has}

pub record FifoCache (K V : Type 0) : Type 0 where
  pub capacity : ℕ
  pub contents : Dict K V
  pub hits : ℕ
  pub misses : ℕ

-- `FIFOCache(capacity)`
unfoldable pub new_fifo : {K V : Type 0} → ℕ → FifoCache K V
new_fifo capacity = record { capacity = capacity; contents = []; hits = 0; misses = 0 }

module _ {K V : Type 0} where
  -- `self.data.popitem(last=False)`
  unfoldable pub pop_first : Dict K V → Option (Dict K V)
  pop_first [] = none
  pop_first (entry ∷ d) = some d

  unfoldable pub counted : Option V → FifoCache K V → Option V × FifoCache K V
  counted (some v) c = (some v, record c { hits = c.hits + 1 })
  counted none c = (none, record c { misses = c.misses + 1 })

module _ {K V : Type 0} (dec : Discrete K) where
  -- `FIFOCache.get`
  unfoldable pub lookup : K → FifoCache K V → Option V × FifoCache K V
  unfolding counted
  lookup key c = counted (get dec key c.contents) c

  unfoldable pub put_in : K → V → Option (Dict K V) → FifoCache K V → Option (FifoCache K V)
  put_in key value none c = none
  put_in key value (some d) c = some (record c { contents = put dec key value d })

  -- `FIFOCache.put`
  unfoldable pub store : K → V → FifoCache K V → Option (FifoCache K V)
  unfolding put_in pop_first
  store key value c =
      put_in key value
        (if not (has dec key c.contents) && leb c.capacity (length c.contents)
          then pop_first c.contents
          else some c.contents)
        c
