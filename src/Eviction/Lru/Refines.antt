-- ===== src/Eviction/Lru/Refines.antt =====
-- Runs of a cache's operations against a list of entries, the most recent first.
use learn_system_design.Eviction.{Call, get_of, put_of}
use learn_system_design.Prelude.{
  ℕ, zero, suc, ◌<◌, ◌≡◌, refl, false, Option, none, some, List, [], ◌∷◌, ◌++◌, length, ◌==◌, ◌>>=◌,
  arith, ap, ◌∙◌, length-append,
}
use learn_system_design.Prelude.Dict.{Dict, get}
use learn_system_design.Prelude.Maps.{update}
use learn_system_design.Prelude.Distinct.{is_in, is_in-append, AreDistinct, length-AreDistinct}
use learn_system_design.Eviction.Lru.{
  head, tail, LruCache, new_cache, lookup, store, walk, keys_mru_to_lru,
}
use learn_system_design.Eviction.Lru.Links.{Links, AreDistinct-middle}
use learn_system_design.Eviction.Lru.Shows.{addresses, entries, Held, Shows}
use learn_system_design.Eviction.Lru.Uses.{used, lookup-Shows}
use learn_system_design.Eviction.Lru.Stores.{stored, store-Shows}

abbrev pub keys : {K V : Type 0} → Dict K V → List (Option K)
keys [] = []
keys ((k, v) ∷ e) = some k ∷ keys e

tail_apart : (a : ℕ) (xs : List ℕ) → AreDistinct (xs ++ a ∷ []) → is_in a xs ≡ false
tail_apart a xs d =
    let (out, rest) = AreDistinct-middle xs a [] d in ground (arith, out, is_in-append a xs [])

module _ {K V : Type 0} (dec : Discrete K) where
  -- The calls in a row, and what each returns; a `put` returns `None`.
  unfoldable pub run : List (Call K V) → LruCache K V → Option (List (Option V) × LruCache K V)
  unfolding lookup store
  run [] c = some ([], c)
  run (get_of k ∷ calls) c = do
    (v, c1) ← lookup dec k c
    (rest, c2) ← run calls c1
    some (v ∷ rest, c2)
  run (put_of k v ∷ calls) c = do
    c1 ← store dec k v c
    (rest, c2) ← run calls c1
    some (none ∷ rest, c2)

  -- The same calls on the entries.
  unfoldable pub entries_after : ℕ → List (Call K V) → Dict K V → Dict K V
  entries_after capacity [] e = e
  entries_after capacity (get_of k ∷ calls) e =
      entries_after capacity calls (used dec (get dec k e) k e)
  entries_after capacity (put_of k v ∷ calls) e =
      entries_after capacity calls (stored dec (get dec k e) capacity k v e)

  -- What they return.
  unfoldable pub answers : ℕ → List (Call K V) → Dict K V → List (Option V)
  answers capacity [] e = []
  answers capacity (get_of k ∷ calls) e =
      get dec k e ∷ answers capacity calls (used dec (get dec k e) k e)
  answers capacity (put_of k v ∷ calls) e =
      none ∷ answers capacity calls (stored dec (get dec k e) capacity k v e)

  new_cache-Shows : (capacity : ℕ) → Shows dec (new_cache {K = K} {V = V} capacity) []
  unfolding new_cache update get
  new_cache-Shows capacity = record {
    links = (refl, refl, tt);
    distinct = (refl, (refl, tt));
    below = (omega arith, (omega arith, tt));
    held = tt;
    known = λ k. refl;
    unique = tt;
    nodes_unique = tt;
    size = refl;
  }

  run-Shows :
      (n : ℕ) (calls : List (Call K V)) (c : LruCache K V) (cells : List (ℕ × K × V))
      → Shows dec c cells
      → c.capacity ≡ suc n
      → (d : LruCache K V) × (after : List (ℕ × K × V)) × (run calls c
          ≡ some (answers (suc n) calls (entries cells), d))
        × Shows dec d after
        × (entries after ≡ entries_after (suc n) calls (entries cells))
  unfolding run answers entries_after
  run-Shows n [] c cells s cap_is = (c, cells, refl, s, refl)
  run-Shows n (get_of k ∷ calls) c cells s cap_is =
      let (c1, after, looked, shows, same, kept) = lookup-Shows dec k c cells s in
      let (d, last, ran, end, ends) = run-Shows n calls c1 after shows (kept ∙ cap_is) in
      (d, last, rw (looked, ran, same) refl, end, ends ∙ ap (entries_after (suc n) calls) same)
  run-Shows n (put_of k v ∷ calls) c cells s cap_is =
      let (c1, after, made, shows, same, kept) = store-Shows dec n k v c cells s cap_is in
      let (d, last, ran, end, ends) = run-Shows n calls c1 after shows (kept ∙ cap_is) in
      (d, last, rw (made, ran, same) refl, end, ends ∙ ap (entries_after (suc n) calls) same)

  walk-Held :
      (c : LruCache K V) (a fuel : ℕ) (cells : List (ℕ × K × V))
      → Links c.next c.prev a (addresses cells ++ tail ∷ [])
      → is_in tail (addresses cells) ≡ false
      → Held c.key_of c.value_of cells
      → length cells < fuel
      → walk fuel (c.next a) c ≡ keys (entries cells)
  unfolding walk
  walk-Held c a zero cells l out h enough = ground (arith, enough)
  walk-Held c a (suc fuel) [] l out h enough = rw l.0 refl
  walk-Held c a (suc fuel) ((x, k, v) ∷ cells) l out h enough =
      let other : (x == tail) ≡ false = ground (arith, out) in
      rw
        (
          l.0,
          other,
          h.0,
          walk-Held c x fuel cells l.2 (ground (arith, out)) h.2 (omega (arith, enough)),
        )
        refl

  length-addresses : (cells : List (ℕ × K × V)) → length (addresses cells) ≡ length cells
  length-addresses [] = refl
  length-addresses ((a, k, v) ∷ cells) = ap suc (length-addresses cells)

  -- `LRUCache` with room for a key refines a list of entries, the most recent first: from an empty cache no call raises, `get` and `put` return what the list gives, and `keys_mru_to_lru` ends with the list's keys.
  pub run-entries :
      (n : ℕ) (calls : List (Call K V))
      → (d : LruCache K V) × (run calls (new_cache (suc n)) ≡ some (answers (suc n) calls [], d))
        × (keys_mru_to_lru d ≡ keys (entries_after (suc n) calls []))
  unfolding keys_mru_to_lru new_cache
  run-entries n calls =
      let (d, after, ran, s, same) =
        run-Shows n calls (new_cache (suc n)) [] (new_cache-Shows (suc n)) refl in
      let room =
        length-AreDistinct d.allocated (addresses after ++ tail ∷ []) s.distinct.1 s.below.1 in
      (
        d,
        ran,
        walk-Held d head d.allocated after s.links (tail_apart tail (addresses after) s.distinct.1)
              s.held
              (omega
                (arith, room, length-append (addresses after) (tail ∷ []), length-addresses after))
            ∙ ap keys same,
      )
