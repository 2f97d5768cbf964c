-- ===== src/LsmTree/Table.antt =====
-- `SSTable` of 05_databases/03_indexes_btree_vs_lsm.py. A value is `none` for the tombstone. `sorted`
-- sorts items by key: the keys of a dict are distinct, so it never compares two values.
pub mod Lookup
use learn_system_design.Prelude.{
  ℕ, zero, suc, ◌+◌, Bool, true, false, ◌&&◌, Option, none, some, List, [], ◌∷◌, ◌==◌, ltb,
  if◌then◌else◌, length, get_elem?,
}
use learn_system_design.Prelude.Dict.{Dict}
use learn_system_design.LsmTree.Bloom.{BloomFilter, bloom_filter, add_all}

module _ {V : Type 0} where
  unfoldable pub insert : ℕ → V → Dict ℕ V → Dict ℕ V
  insert key value [] = (key, value) ∷ []
  insert key value ((k, v) ∷ items) =
      let rest = insert key value items in
      if ltb k key then (k, v) ∷ rest else (key, value) ∷ (k, v) ∷ items

  -- `sorted(d.items())`
  unfoldable pub sorted : Dict ℕ V → Dict ℕ V
  sorted [] = []
  sorted ((k, v) ∷ items) = insert k v (sorted items)

  -- `[k for k, _ in items]` and `[v for _, v in items]`
  unfoldable pub keys_of : Dict ℕ V → List ℕ
  keys_of [] = []
  keys_of ((k, v) ∷ items) = k ∷ keys_of items

  unfoldable pub values_of : Dict ℕ V → List V
  values_of [] = []
  values_of ((k, v) ∷ items) = v ∷ values_of items

-- `bisect.bisect_left` on ascending keys: how many stand before the key.
unfoldable pub bisect_left : List ℕ → ℕ → ℕ
bisect_left [] key = 0
bisect_left (k ∷ keys) key = let rest = bisect_left keys key in if ltb k key then suc rest else 0

unfoldable pub is_key : Option ℕ → ℕ → Bool
is_key none key = false
is_key (some k) key = k == key

pub record SsTable (V : Type 0) : Type 0 where
  pub keys : List ℕ
  pub values : List (Option V)
  pub bloom : BloomFilter

module _ {V : Type 0} (digest : ℕ → ℕ → ℕ) where
  -- `SSTable(items)`
  unfoldable pub table : Dict ℕ (Option V) → SsTable V
  table items = record {
    keys = keys_of items;
    values = values_of items;
    bloom = add_all digest (keys_of items) (bloom_filter 2048 3);
  }

-- `SSTable.get`: the value, or `none` for the answer `False, None`
unfoldable pub read : {V : Type 0} → SsTable V → ℕ → Option (Option V)
unfolding is_key
read t key =
    let i = bisect_left t.keys key in
    if ltb i (length t.keys) && is_key (get_elem? t.keys i) key then get_elem? t.values i else none
