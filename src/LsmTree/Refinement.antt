-- ===== src/LsmTree/Refinement.antt =====
-- An LSM-tree is a map: what `get` returns after any operations.
use learn_system_design.Prelude.{
  ℕ, ◌≡◌, refl, Option, none, some, List, [], ◌∷◌, ◌++◌, length, leb, ite, ℕ_discrete, arith,
  Bool-cases, Option-cases, inl, inr, ap, sym, ◌∙◌,
}
use learn_system_design.Prelude.Dict.{Dict, get, put, get-put}
use learn_system_design.LsmTree.Table.{sorted, SsTable, table, read}
use learn_system_design.LsmTree.Table.Lookup.{AreUnique, get-sorted, sorted-Ascending}
use learn_system_design.LsmTree.Merging.{
  or_else, AreSound, AreSound-append, table-IsSound, first, get-merge, search-first, put-AreUnique,
  merge-AreUnique, live-AreUnique, found-live, read-table, or_else-none,
}
use learn_system_design.LsmTree.{
  LsmTree, init, merge, live, found, reversed, compact, flush, write, delete, lookup,
}

-- The calls that a client makes.
pub data Op (V : Type 0) : Type 0 where
  put_op : ℕ → V → Op V
  delete_op : ℕ → Op V
  get_op : ℕ → Op V

module _ {V : Type 0} (digest : ℕ → ℕ → ℕ) where
  unfoldable pub perform : Op V → LsmTree V → LsmTree V
  perform (put_op key value) s = write digest key (some value) s
  perform (delete_op key) s = delete digest key s
  perform (get_op key) s = (lookup digest key s).1

  unfoldable pub perform_all : List (Op V) → LsmTree V → LsmTree V
  perform_all [] s = s
  perform_all (op ∷ ops) s = perform_all ops (perform op s)

module _ {V : Type 0} where
  abbrev assign : ℕ → Option V → (ℕ → Option V) → ℕ → Option V
  assign key v m j = ite (ℕ_discrete key j) v (m j)

  -- The map that the calls describe: the last value of a key that was not deleted since.
  abbrev pub contents : List (Op V) → (ℕ → Option V) → ℕ → Option V
  contents [] m = m
  contents (put_op key value ∷ ops) m = contents ops (assign key (some value) m)
  contents (delete_op key ∷ ops) m = contents ops (assign key none m)
  contents (get_op key ∷ ops) m = contents ops m

  -- What a tree holds for a key: a tombstone is a value here.
  abbrev held : LsmTree V → ℕ → Option (Option V)
  held s key = or_else (get ℕ_discrete key s.memtable) (first (reversed s.sstables) key)

module _ {V : Type 0} (digest : ℕ → ℕ → ℕ) where
  -- The tree is well formed and holds the map.
  record Holds (s : LsmTree V) (m : ℕ → Option V) : Type 0 where
    sound : AreSound digest s.sstables
    unique : AreUnique s.memtable
    shows : (key : ℕ) → found (held s key) ≡ m key

  AreSound-reversed :
      (tables : List (SsTable V)) → AreSound digest tables → AreSound digest (reversed tables)
  unfolding reversed
  AreSound-reversed [] s = tt
  AreSound-reversed (t ∷ tables) (st, s) =
      AreSound-append digest (reversed tables) t (AreSound-reversed tables s) st

  reversed-append :
      (xs : List (SsTable V)) (t : SsTable V) → reversed (xs ++ t ∷ []) ≡ t ∷ reversed xs
  unfolding reversed
  reversed-append [] t = refl
  reversed-append (x ∷ xs) t = ap (λ l. l ++ x ∷ []) (reversed-append xs t)

  first-table :
      (items : Dict ℕ (Option V)) (key : ℕ)
      → AreUnique items
      → read (table digest (sorted items)) key ≡ get ℕ_discrete key items
  first-table items key u =
      read-table digest (sorted items) key (sorted-Ascending items u) ∙ get-sorted items u key

  -- The table that `_compact` makes.
  abbrev compacted : List (SsTable V) → SsTable V
  compacted tables = table digest (sorted (live (merge tables [])))

  merged_unique : (tables : List (SsTable V)) → AreUnique (merge tables [])
  merged_unique tables = merge-AreUnique tables [] tt

  compacted-found :
      (tables : List (SsTable V)) (key : ℕ)
      → AreSound digest tables
      → found (read (compacted tables) key) ≡ found (first (reversed tables) key)
  compacted-found tables key s =
      let u = merged_unique tables in
      ap found (first-table (live (merge tables [])) key (live-AreUnique (merge tables []) u))
      ∙ found-live key (merge tables []) u
      ∙ ap found (
          get-merge digest tables [] key s
          ∙ unfold get in or_else-none (first (reversed tables) key))

  compact-Holds :
      (s : LsmTree V) (m : ℕ → Option V)
      → Holds (record s { memtable = [] }) m
      → Holds (compact digest (record s { memtable = [] })) m
  unfolding compact get reversed
  compact-Holds s m h =
      let merged = merge s.sstables [] in
      let u = live-AreUnique merged (merged_unique s.sstables) in
      record {
        sound =
            (table-IsSound digest (sorted (live merged)) (sorted-Ascending (live merged) u), tt);
        unique = tt;
        shows = λ key.
            ap found (or_else-none (read (compacted s.sstables) key))
            ∙ compacted-found s.sstables key h.sound
            ∙ h.shows key;
      }

  flushed-Holds :
      (s : LsmTree V) (m : ℕ → Option V)
      → Holds s m
      → Holds
          (record s {
            wal = [];
            memtable = [];
            sstables = s.sstables ++ table digest (sorted s.memtable) ∷ [];
          })
          m
  unfolding get
  flushed-Holds s m h =
      let t = table digest (sorted s.memtable) in
      record {
        sound =
            AreSound-append digest s.sstables t h.sound
              (table-IsSound digest (sorted s.memtable) (sorted-Ascending s.memtable h.unique));
        unique = tt;
        shows = λ key.
            ap (λ l. found (first l key)) (reversed-append s.sstables t)
            ∙ ap (λ r. found (or_else r (first (reversed s.sstables) key)))
                (first-table s.memtable key h.unique)
            ∙ h.shows key;
      }

  flush-Holds : (s : LsmTree V) (m : ℕ → Option V) → Holds s m → Holds (flush digest s) m
  unfolding flush
  flush-Holds s m h =
      let flushed = flushed-Holds s m h in
      let tables = s.sstables ++ table digest (sorted s.memtable) ∷ [] in
      elim (Bool-cases (leb s.compact_after (length tables))) [
        | inl e ↦ rw e (compact-Holds (record s { wal = []; sstables = tables }) m flushed)
        | inr e ↦ rw e flushed
      ]

  write-Holds :
      (s : LsmTree V) (m : ℕ → Option V) (key : ℕ) (v : Option V)
      → Holds s m
      → Holds (write digest key v s) (assign key v m)
  unfolding write
  write-Holds s m key v h =
      let d = put ℕ_discrete key v s.memtable in
      let s' : LsmTree V = record s { wal = s.wal ++ (key, v) ∷ []; memtable = d } in
      let h' : Holds s' (assign key v m) = record {
        sound = h.sound;
        unique = put-AreUnique key v s.memtable h.unique;
        shows = λ j.
            let now = get-put ℕ_discrete key j v s.memtable in
            let old = h.shows j in unfold found in rw now (ground (arith, old));
      } in
      elim (Bool-cases (leb s.memtable_limit (length d))) [
        | inl e ↦ rw e (flush-Holds s' (assign key v m) h')
        | inr e ↦ rw e h'
      ]

  lookup-Holds :
      (s : LsmTree V) (m : ℕ → Option V) (key : ℕ)
      → Holds s m
      → ((lookup digest key s).0 ≡ m key) × Holds (lookup digest key s).1 m
  unfolding lookup
  lookup-Holds s m key h =
      let old = h.shows key in
      elim (Option-cases (get ℕ_discrete key s.memtable)) [
        | inl e ↦
            rw (lookup, e)
              (
                ap found (
                      search-first digest (reversed s.sstables) key s.stats
                        (AreSound-reversed s.sstables h.sound))
                    ∙ unfold found in
                      (ap (λ r. found (or_else r (first (reversed s.sstables) key))) (sym e) ∙ old),
                record { sound = h.sound; unique = h.unique; shows = h.shows },
              )
        | inr (v, e) ↦
            rw (lookup, e)
              (
                (unfold found in
                    ap (λ r. found (or_else r (first (reversed s.sstables) key))) (sym e) ∙ old),
                h,
              )
      ]

  perform_all-Holds :
      (ops : List (Op V)) (s : LsmTree V) (m : ℕ → Option V)
      → Holds s m
      → Holds (perform_all digest ops s) (contents ops m)
  unfolding perform_all perform delete
  perform_all-Holds [] s m h = h
  perform_all-Holds (put_op key value ∷ ops) s m h =
      perform_all-Holds ops (write digest key (some value) s) (assign key (some value) m)
        (write-Holds s m key (some value) h)
  perform_all-Holds (delete_op key ∷ ops) s m h =
      perform_all-Holds ops (write digest key none s) (assign key none m)
        (write-Holds s m key none h)
  perform_all-Holds (get_op key ∷ ops) s m h =
      perform_all-Holds ops (lookup digest key s).1 m (lookup-Holds s m key h).1

  -- Whatever the digests, the limit of the table in memory and the number of tables that are merged:
  -- after any puts, deletes and gets on a new tree, `get` returns for every key the last value put,
  -- if it was not deleted since, and nothing otherwise.
  pub lookup-contents :
      (memtable_limit compact_after : ℕ) (ops : List (Op V)) (key : ℕ)
      → (lookup digest key (perform_all digest ops (init memtable_limit compact_after))).0
        ≡ contents ops (λ k. none) key
  lookup-contents memtable_limit compact_after ops key =
      (lookup-Holds (perform_all digest ops (init memtable_limit compact_after))
        (contents ops (λ k. none)) key
        (perform_all-Holds ops (init memtable_limit compact_after) (λ k. none)
          (unfold init get reversed found in
            record { sound = tt; unique = tt; shows = λ k. refl }))).0
