-- ===== src/LsmTree.antt =====
-- `LSMTree` of 05_databases/03_indexes_btree_vs_lsm.py: a write-ahead log, a table in memory, and
-- sorted tables with Bloom filters that are merged. Keys are numbers (strings in the source), in their
-- order. `describe` and the SQLite part of the lesson are not modelled.
pub mod Bloom
pub mod Table
pub mod Merging
pub mod Refinement
pub mod Recovery
mod Tests
use learn_system_design.Prelude.{
  ℕ, zero, suc, ◌+◌, Bool, true, false, Option, none, some, List, [], ◌∷◌, ◌++◌, leb, if◌then◌else◌,
  length, ite, ℕ_discrete,
}
use learn_system_design.Prelude.Dict.{Dict, get, put}
use Bloom.{might_contain}
use Table.{SsTable, sorted, table, read, keys_of, values_of}

pub record Stats : Type 0 where
  pub sstables_checked : ℕ
  pub bloom_skips : ℕ

pub record LsmTree (V : Type 0) : Type 0 where
  pub wal : List (ℕ × Option V)
  pub memtable : Dict ℕ (Option V)
  pub sstables : List (SsTable V)
  pub memtable_limit : ℕ
  pub compact_after : ℕ
  pub stats : Stats

module _ {V : Type 0} where
  -- `LSMTree(memtable_limit, compact_after)`
  unfoldable pub init : ℕ → ℕ → LsmTree V
  init memtable_limit compact_after = record {
    wal = [];
    memtable = [];
    sstables = [];
    memtable_limit = memtable_limit;
    compact_after = compact_after;
    stats = record { sstables_checked = 0; bloom_skips = 0 };
  }

  -- `zip(keys, values)`
  unfoldable pub zip : List ℕ → List (Option V) → List (ℕ × Option V)
  zip [] values = []
  zip (k ∷ keys) [] = []
  zip (k ∷ keys) (v ∷ values) = (k, v) ∷ zip keys values

  -- `d.update(items)`
  unfoldable pub update : List (ℕ × Option V) → Dict ℕ (Option V) → Dict ℕ (Option V)
  update [] d = d
  update ((k, v) ∷ items) d = update items (put ℕ_discrete k v d)

  -- The loop of `_compact` over the tables, oldest first.
  unfoldable pub merge : List (SsTable V) → Dict ℕ (Option V) → Dict ℕ (Option V)
  merge [] merged = merged
  merge (t ∷ tables) merged = merge tables (update (zip t.keys t.values) merged)

  -- `((k, v) for k, v in merged.items() if v is not TOMBSTONE)`
  unfoldable pub live : Dict ℕ (Option V) → Dict ℕ (Option V)
  live [] = []
  live ((k, none) ∷ items) = live items
  live ((k, some v) ∷ items) = (k, some v) ∷ live items

  -- `reversed`
  unfoldable pub reversed : List (SsTable V) → List (SsTable V)
  reversed [] = []
  reversed (t ∷ tables) = reversed tables ++ t ∷ []

  -- `None if v is TOMBSTONE else v`, of a value that is found
  unfoldable pub found : Option (Option V) → Option V
  found none = none
  found (some v) = v

module _ {V : Type 0} (digest : ℕ → ℕ → ℕ) where
  -- `_compact`
  unfoldable pub compact : LsmTree V → LsmTree V
  compact s = record s { sstables = table digest (sorted (live (merge s.sstables []))) ∷ [] }

  -- `_flush`
  unfoldable pub flush : LsmTree V → LsmTree V
  flush s =
      let s' = record s {
        sstables = s.sstables ++ table digest (sorted s.memtable) ∷ [];
        memtable = [];
        wal = [];
      } in
      if leb s.compact_after (length s'.sstables) then compact s' else s'

  unfoldable pub write : ℕ → Option V → LsmTree V → LsmTree V
  write key value s =
      let s' = record s {
        wal = s.wal ++ (key, value) ∷ [];
        memtable = put ℕ_discrete key value s.memtable;
      } in
      if leb s.memtable_limit (length s'.memtable) then flush s' else s'

  -- `delete`
  unfoldable pub delete : ℕ → LsmTree V → LsmTree V
  delete key s = write key none s

  -- The loop of `get` over the tables, newest first, with the statistics.
  unfoldable pub search : List (SsTable V) → ℕ → Stats → Option (Option V) × Stats
  search [] key stats = (none, stats)
  search (t ∷ tables) key stats =
      let skipped = search tables key (record stats { bloom_skips = stats.bloom_skips + 1 }) in
      let checked = record stats { sstables_checked = stats.sstables_checked + 1 } in
      let missed = search tables key checked in
      if might_contain digest t.bloom key
      then elim (read t key) [ none ↦ missed | some v ↦ (some v, checked) ]
      else skipped

  -- `get`: the value and the tree with its statistics after it
  unfoldable pub lookup : ℕ → LsmTree V → Option V × LsmTree V
  lookup key s = elim (get ℕ_discrete key s.memtable) [
    | none ↦
        (let (answer, stats) = search (reversed s.sstables) key s.stats in
          (found answer, record s { stats = stats }))
    | some v ↦ (v, s)
  ]
