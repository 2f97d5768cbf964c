-- ===== src/Caching/Contents.antt =====
-- Every strategy reads what was last written, and a flush leaves it all in the database.
use learn_system_design.Prelude.{
  ◌+◌, ◌≡◌, refl, Option, none, List, [], ◌∷◌, arith, ap, ◌∙◌, length,
}
use learn_system_design.Prelude.Dict.{Dict, get}
use learn_system_design.Prelude.Dict.Unique.{put_all, get-put_all, or_else}
use learn_system_design.Caching.{
  Strategy, cache_aside, write_through, write_back, write_around, SlowDb, Store, new_store,
  db_write, read, write, write_all, flush,
}
use learn_system_design.Caching.Calls.{
  Op, read_op, write_op, flush_op, flush_if, perform, perform_all, assign, contents,
}
use learn_system_design.Caching.Kept.{IsClean, Holds, settled, read-Holds, write-Holds}

module _ {K V : Type 0} (dec : Discrete K) where
  write_all-rows :
      (items : Dict K V) (db : SlowDb K V)
      → (write_all dec items db).rows ≡ put_all dec items db.rows
  unfolding write_all put_all
  write_all-rows [] db = refl
  write_all-rows ((k, v) ∷ items) db = write_all-rows items (db_write dec k v db)

  write_all-writes :
      (items : Dict K V) (db : SlowDb K V)
      → (write_all dec items db).writes ≡ db.writes + length items
  unfolding write_all
  write_all-writes [] db = omega arith
  write_all-writes ((k, v) ∷ items) db = omega (arith, write_all-writes items (db_write dec k v db))

  flush-Holds :
      (s : Store K V) (m : K → Option V)
      → Holds dec write_back s m
      → Holds dec write_back (flush dec s) m
  unfolding flush
  flush-Holds s m h =
      let stored = λ (j : K).
        ap (get dec j) (write_all-rows s.dirty s.db)
        ∙ get-put_all dec s.dirty s.db.rows j h.unique
        ∙ h.late j in
      record {
        hit = h.hit;
        miss = λ j p. stored j;
        late = λ j. unfold get in stored j;
        unique = tt;
        clean = tt;
      }

  flush_if-Holds :
      (st : Strategy) (s : Store K V) (m : K → Option V)
      → Holds dec st s m
      → Holds dec st (flush_if dec st s) m
  unfolding flush_if
  flush_if-Holds write_back s m h = flush-Holds s m h
  flush_if-Holds cache_aside s m h = h
  flush_if-Holds write_through s m h = h
  flush_if-Holds write_around s m h = h

  clean_flushed :
      (s : Store K V) (m : K → Option V) (k : K)
      → ((j : K) → or_else (get dec j s.dirty) (get dec j s.db.rows) ≡ m j)
      → s.dirty ≡ []
      → (get dec k s.db.rows ≡ m k) × (s.db.writes ≡ s.db.writes + length s.dirty)
  clean_flushed s m k late e =
      let none_dirty = ap length e in (settled dec s m late e k, omega arith)

  flushed :
      (st : Strategy) (s : Store K V) (m : K → Option V) (k : K)
      → Holds dec st s m
      → (get dec k (flush_if dec st s).db.rows ≡ m k)
        × ((flush_if dec st s).db.writes ≡ s.db.writes + length s.dirty)
  unfolding flush_if
  flushed cache_aside s m k h = clean_flushed s m k h.late h.clean
  flushed write_through s m k h = clean_flushed s m k h.late h.clean
  flushed write_around s m k h = clean_flushed s m k h.late h.clean
  flushed write_back s m k h = (
    unfold flush in
        ap (get dec k) (write_all-rows s.dirty s.db)
        ∙ get-put_all dec s.dirty s.db.rows k h.unique
        ∙ h.late k,
    unfold flush in write_all-writes s.dirty s.db,
  )

  perform_all-Holds :
      (st : Strategy) (ops : List (Op K V)) (s : Store K V) (m : K → Option V)
      → Holds dec st s m
      → Holds dec st (perform_all dec st ops s) (contents dec ops m)
  unfolding perform_all perform
  perform_all-Holds st [] s m h = h
  perform_all-Holds st (read_op k ∷ ops) s m h =
      perform_all-Holds st ops (read dec k s).1 m (read-Holds dec st s m k h).1
  perform_all-Holds st (write_op k v ∷ ops) s m h =
      perform_all-Holds st ops (write dec st k v s) (assign dec k v m)
        (write-Holds dec st s m k v h)
  perform_all-Holds st (flush_op ∷ ops) s m h =
      perform_all-Holds st ops (flush_if dec st s) m (flush_if-Holds st s m h)

  new-Holds : (st : Strategy) → Holds {V = V} dec st new_store (λ k. none)
  unfolding new_store
  new-Holds st = record {
    hit = λ k v e. unfold get in ground arith;
    miss = λ k e. unfold get in refl;
    late = λ k. unfold get in refl;
    unique = tt;
    clean = empty st;
  }
    where
      empty : (st : Strategy) → IsClean {V = V} dec st []
      empty cache_aside = refl
      empty write_through = refl
      empty write_back = tt
      empty write_around = refl

  -- After any calls on a new store, a read under each of the strategies returns what was last written
  -- of the key, and nothing if it never was.
  pub read-contents :
      (st : Strategy) (ops : List (Op K V)) (k : K)
      → (read dec k (perform_all dec st ops new_store)).0 ≡ contents dec ops (λ j. none) k
  read-contents st ops k =
      (read-Holds dec st (perform_all dec st ops new_store) (contents dec ops (λ j. none)) k
        (perform_all-Holds st ops new_store (λ j. none) (new-Holds st))).0

  -- After any calls on a new store and a flush, which only `WriteBack` needs, the database itself has
  -- what was last written of every key, and the flush has made one write for each dirty key.
  pub flush-contents :
      (st : Strategy) (ops : List (Op K V)) (k : K)
      → (get dec k (flush_if dec st (perform_all dec st ops new_store)).db.rows
          ≡ contents dec ops (λ j. none) k)
        × ((flush_if dec st (perform_all dec st ops new_store)).db.writes
            ≡ (perform_all dec st ops new_store).db.writes
              + length (perform_all dec st ops new_store).dirty)
  flush-contents st ops k =
      flushed st (perform_all dec st ops new_store) (contents dec ops (λ j. none)) k
        (perform_all-Holds st ops new_store (λ j. none) (new-Holds st))
