-- ===== src/LsmTree/Recovery.antt =====
-- The write-ahead log of an LSM-tree against its table in memory.
use learn_system_design.Prelude.{
  ℕ, ◌≡◌, refl, Option, none, some, List, [], ◌∷◌, ◌++◌, length, leb, ℕ_discrete, Bool-cases,
  Option-cases, inl, inr, ap, ◌∙◌,
}
use learn_system_design.Prelude.Dict.{Dict, get, put}
use learn_system_design.LsmTree.Table.{sorted, table}
use learn_system_design.LsmTree.{LsmTree, init, update, compact, flush, write, delete, lookup}
use learn_system_design.LsmTree.Refinement.{Op, put_op, delete_op, get_op, perform, perform_all}

module _ {V : Type 0} where
  update-append :
      (items : List (ℕ × Option V)) (k : ℕ) (v : Option V) (d : Dict ℕ (Option V))
      → update (items ++ (k, v) ∷ []) d ≡ put ℕ_discrete k v (update items d)
  unfolding update
  update-append [] k v d = refl
  update-append ((j, w) ∷ items) k v d = update-append items k v (put ℕ_discrete j w d)

module _ {V : Type 0} (digest : ℕ → ℕ → ℕ) where
  -- A replay of the log gives the table in memory.
  abbrev Replays : LsmTree V → Type 0
  Replays s = update s.wal [] ≡ s.memtable

  flush-Replays : (s : LsmTree V) → Replays (flush digest s)
  unfolding flush compact update
  flush-Replays s =
      elim (Bool-cases
        (leb s.compact_after (length (s.sstables ++ table digest (sorted s.memtable) ∷ [])))) [
          | inl e ↦ rw e refl
          | inr e ↦ rw e refl
        ]

  write-Replays :
      (key : ℕ) (v : Option V) (s : LsmTree V) → Replays s → Replays (write digest key v s)
  unfolding write
  write-Replays key v s h =
      let s' : LsmTree V = record s {
        wal = s.wal ++ (key, v) ∷ [];
        memtable = put ℕ_discrete key v s.memtable;
      } in
      elim (Bool-cases (leb s.memtable_limit (length (put ℕ_discrete key v s.memtable)))) [
        | inl e ↦ rw e (flush-Replays s')
        | inr e ↦ rw e (update-append s.wal key v [] ∙ ap (put ℕ_discrete key v) h)
      ]

  lookup-Replays : (key : ℕ) (s : LsmTree V) → Replays s → Replays (lookup digest key s).1
  unfolding lookup
  lookup-Replays key s h = elim (Option-cases (get ℕ_discrete key s.memtable)) [
    | inl e ↦ rw (lookup, e) h
    | inr (v, e) ↦ rw (lookup, e) h
  ]

  perform_all-Replays :
      (ops : List (Op V)) (s : LsmTree V) → Replays s → Replays (perform_all digest ops s)
  unfolding perform_all perform delete
  perform_all-Replays [] s h = h
  perform_all-Replays (put_op key value ∷ ops) s h =
      perform_all-Replays ops (write digest key (some value) s) (write-Replays key (some value) s h)
  perform_all-Replays (delete_op key ∷ ops) s h =
      perform_all-Replays ops (write digest key none s) (write-Replays key none s h)
  perform_all-Replays (get_op key ∷ ops) s h =
      perform_all-Replays ops (lookup digest key s).1 (lookup-Replays key s h)

  -- After any puts, deletes and gets on a new tree, a replay of the write-ahead log, as a dict that
  -- takes its entries in order, gives the table in memory, in its insertion order too.
  pub wal_recovers :
      (memtable_limit compact_after : ℕ) (ops : List (Op V))
      → update (perform_all digest ops (init memtable_limit compact_after)).wal []
        ≡ (perform_all digest ops (init memtable_limit compact_after)).memtable
  wal_recovers memtable_limit compact_after ops =
      perform_all-Replays ops (init memtable_limit compact_after) (unfold init update in refl)
