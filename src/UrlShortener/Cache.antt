-- ===== src/UrlShortener/Cache.antt =====
-- `LRUCache` of 11_case_studies/01_url_shortener.py, over the ordered dict that it keeps.
use learn_system_design.Prelude.{
  ℕ, ◌+◌, Option, none, some, [], ◌∷◌, ◌++◌, ltb, if◌then◌else◌, length,
}
use learn_system_design.Prelude.Dict.{Dict, get, put, remove}

pub record LruCache (K V : Type 0) : Type 0 where
  pub capacity : ℕ
  pub entries : Dict K V
  pub hits : ℕ
  pub misses : ℕ

-- `popitem(last=False)`
unfoldable pub pop_first : {K V : Type 0} → Dict K V → Dict K V
pop_first [] = []
pop_first (e ∷ d) = d

module _ {K V : Type 0} (dec : Discrete K) where
  -- `move_to_end`
  unfoldable pub move_to_end : K → Dict K V → Dict K V
  move_to_end k d = elim (get dec k d) [ none ↦ d | some v ↦ remove dec k d ++ (k, v) ∷ [] ]

  -- `LRUCache.get`
  unfoldable pub lookup : K → LruCache K V → Option V × LruCache K V
  unfolding move_to_end
  lookup k c = elim (get dec k c.entries) [
    | none ↦ (none, record c { misses = c.misses + 1 })
    | some v ↦ (some v, record c { entries = move_to_end k c.entries; hits = c.hits + 1 })
  ]

  -- `LRUCache.put`
  unfoldable pub store : K → V → LruCache K V → LruCache K V
  unfolding move_to_end pop_first
  store k v c =
      let d = move_to_end k (put dec k v c.entries) in
      record c { entries = if ltb c.capacity (length d) then pop_first d else d }
