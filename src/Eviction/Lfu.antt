-- ===== src/Eviction/Lfu.antt =====
-- `LFUCache`. A bucket is a dict without values, and the buckets are a function of the frequency, which is
-- what a `defaultdict` is to its reader. A method returns `none` where Python would raise a KeyError.
pub mod Sound
pub mod Steps
pub mod Evicts
pub mod Runs
mod Tests
use learn_system_design.Prelude.{
  ℕ, ◌+◌, Bool, true, false, ◌&&◌, Option, none, some, List, [], ◌∷◌, length, leb, ◌==◌,
  if◌then◌else◌,
}
use learn_system_design.Prelude.Dict.{Dict, get, put, remove}
use learn_system_design.Prelude.Maps.{update}

pub record LfuCache (K V : Type 0) : Type 0 where
  pub capacity : ℕ
  pub values : Dict K V
  pub freq : Dict K ℕ
  pub buckets : ℕ → Dict K (Unit {0})
  pub min_freq : ℕ
  pub hits : ℕ
  pub misses : ℕ

-- `LFUCache(capacity)`
unfoldable pub new_lfu : {K V : Type 0} → ℕ → LfuCache K V
new_lfu capacity = record {
  capacity = capacity;
  values = [];
  freq = [];
  buckets = λ f. [];
  min_freq = 0;
  hits = 0;
  misses = 0;
}

abbrev pub is_empty : {A : Type 0} → List A → Bool
is_empty [] = true
is_empty (x ∷ l) = false

module _ {K V : Type 0} (dec : Discrete K) where
  -- `_touch`, after `self.buckets[f]` is looked up for the key
  unfoldable pub touch_in : Option (Unit {0}) → ℕ → K → LfuCache K V → Option (LfuCache K V)
  unfolding update
  touch_in none f key c = none
  touch_in (some u) f key c =
      let rest = remove dec key (c.buckets f) in
      let emptied = update c.buckets f rest in
      some (record c {
        freq = put dec key (f + 1) c.freq;
        buckets = update emptied (f + 1) (put dec key u (emptied (f + 1)));
        min_freq = if is_empty rest && (c.min_freq == f) then c.min_freq + 1 else c.min_freq;
      })

  unfoldable pub touch_at : Option ℕ → K → LfuCache K V → Option (LfuCache K V)
  unfolding touch_in
  touch_at none key c = none
  touch_at (some f) key c = touch_in (get dec key (c.buckets f)) f key c

  -- `LFUCache._touch`
  unfoldable pub touch : K → LfuCache K V → Option (LfuCache K V)
  unfolding touch_at
  touch key c = touch_at (get dec key c.freq) key c

  unfoldable pub answer : K → Option (LfuCache K V) → Option (Option V × LfuCache K V)
  answer key none = none
  answer key (some c) = some (get dec key c.values, c)

  unfoldable pub lookup_at : Option V → K → LfuCache K V → Option (Option V × LfuCache K V)
  unfolding answer touch
  lookup_at none key c = some (none, record c { misses = c.misses + 1 })
  lookup_at (some value) key c = answer key (touch key (record c { hits = c.hits + 1 }))

  -- `LFUCache.get`
  unfoldable pub lookup : K → LfuCache K V → Option (Option V × LfuCache K V)
  unfolding lookup_at
  lookup key c = lookup_at (get dec key c.values) key c

  -- `del self.values[evict], self.freq[evict]`
  unfoldable pub delete : Option V → Option ℕ → K → LfuCache K V → Option (LfuCache K V)
  delete none f key c = none
  delete (some v) none key c = none
  delete (some v) (some f) key c =
      some (record c { values = remove dec key c.values; freq = remove dec key c.freq })

  -- The eviction of `put`, from the bucket of the least frequency.
  unfoldable pub evict : Dict K (Unit {0}) → LfuCache K V → Option (LfuCache K V)
  unfolding delete update
  evict [] c = none
  evict ((key, u) ∷ rest) c =
      delete (get dec key c.values) (get dec key c.freq) key
        (record c { buckets = update c.buckets c.min_freq rest })

  unfoldable pub insert : K → V → Option (LfuCache K V) → Option (LfuCache K V)
  unfolding update
  insert key value none = none
  insert key value (some c) = some (record c {
    values = put dec key value c.values;
    freq = put dec key 1 c.freq;
    buckets = update c.buckets 1 (put dec key tt (c.buckets 1));
    min_freq = 1;
  })

  unfoldable pub store_at : Option V → K → V → LfuCache K V → Option (LfuCache K V)
  unfolding touch evict insert
  store_at (some old) key value c = touch key (record c { values = put dec key value c.values })
  store_at none key value c =
      insert key value
        (if leb c.capacity (length c.values) then evict (c.buckets c.min_freq) c else some c)

  -- `LFUCache.put`
  unfoldable pub store : K → V → LfuCache K V → Option (LfuCache K V)
  unfolding store_at
  store key value c = store_at (get dec key c.values) key value c
