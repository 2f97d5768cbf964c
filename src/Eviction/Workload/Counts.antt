-- ===== src/Eviction/Workload/Counts.antt =====
-- The denominator of the hit rate.
use learn_system_design.Prelude.{
  ℕ, suc, ◌+◌, ◌≡◌, Option, none, some, List, [], ◌∷◌, length, arith, Option-cases, inl, inr, ap,
  sym, ◌∙◌,
}
use learn_system_design.Prelude.Dict.{Dict, get, has}
use learn_system_design.Prelude.{leb, not, ◌&&◌, if◌then◌else◌}
use learn_system_design.Eviction.Fifo.{FifoCache, counted, lookup, put_in, store, pop_first}
use learn_system_design.Eviction.Workload.{Cache, fill, run_all, fifo}

module _ {K V C : Type 0} (cache : Cache K V C) where
  -- A `get` is counted, as a hit or as a miss, and a `put` is not.
  record Counts : Type 0 where
    get_counted :
        (k : K) (c d : C) (v : Option V)
        → cache.get k c ≡ some (v, d)
        → cache.hits d + cache.misses d ≡ suc (cache.hits c + cache.misses c)
    put_uncounted :
        (k : K) (v : V) (c d : C)
        → cache.put k v c ≡ some d
        → cache.hits d + cache.misses d ≡ cache.hits c + cache.misses c

  some_total :
      (c d : C) → some c ≡ some d → cache.hits d + cache.misses d ≡ cache.hits c + cache.misses c
  some_total c d e = ap (from c) (sym e)
    where
      from : C → Option C → ℕ
      from c none = 0
      from c (some b) = cache.hits b + cache.misses b

  fill_uncounted :
      (load : K → V) (laws : Counts) (k : K) (v : Option V) (c d : C)
      → fill cache load k v c ≡ some d
      → cache.hits d + cache.misses d ≡ cache.hits c + cache.misses c
  unfolding fill
  fill_uncounted load laws k (some v) c d e = some_total c d e
  fill_uncounted load laws k none c d e = laws.put_uncounted k (load k) c d e

  -- If no call raises in a workload, the hits and misses grow by as many as it has keys.
  run_all-counts :
      (load : K → V) (laws : Counts) (workload : List K) (c d : C)
      → run_all cache load workload c ≡ some d
      → cache.hits d + cache.misses d ≡ length workload + (cache.hits c + cache.misses c)
  unfolding run_all
  run_all-counts load laws [] c d e = omega (arith, some_total c d e)
  run_all-counts load laws (k ∷ workload) c d e = elim (Option-cases (cache.get k c)) [
    | inl raised ↦ (let wrong : none ≡ some d = rw raised at e in ground arith)
    | inr ((v, c1), got) ↦
        (let after = rw got at e in
          elim (Option-cases (fill cache load k v c1)) [
            | inl raised ↦ (let wrong : none ≡ some d = rw raised at after in ground arith)
            | inr (c2, filled) ↦
                (let last = rw filled at after in
                  omega (
                    arith,
                    run_all-counts load laws workload c2 d last,
                    fill_uncounted load laws k v c1 c2 filled,
                    laws.get_counted k c c1 v got,
                  ))
          ])
  ]

module _ {K V : Type 0} (dec : Discrete K) where
  counted_once :
      (o : Option V) (c : FifoCache K V)
      → (counted o c).1.hits + (counted o c).1.misses ≡ suc (c.hits + c.misses)
  unfolding counted
  counted_once none c = omega arith
  counted_once (some v) c = omega arith

  put_in_uncounted :
      (k : K) (v : V) (entries : Option (Dict K V)) (c d : FifoCache K V)
      → put_in dec k v entries c ≡ some d
      → d.hits + d.misses ≡ c.hits + c.misses
  unfolding put_in
  put_in_uncounted k v none c d e = ground arith
  put_in_uncounted k v (some entries) c d e = some_total (fifo dec) _ d e

  fifo-Counts : Counts (fifo {K = K} {V = V} dec)
  unfolding lookup store
  fifo-Counts = record {
    get_counted = λ k c d v e.
        some_total (fifo dec) (lookup dec k c).1 d (ap (λ o. drop_answer o) e)
        ∙ counted_once (get dec k c.contents) c;
    put_uncounted = λ k v c d e.
        put_in_uncounted k v
          (if not (has dec k c.contents) && leb c.capacity (length c.contents)
            then pop_first c.contents
            else some c.contents)
          c d e;
  }
    where
      drop_answer : Option (Option V × FifoCache K V) → Option (FifoCache K V)
      drop_answer none = none
      drop_answer (some (v, c)) = some c
