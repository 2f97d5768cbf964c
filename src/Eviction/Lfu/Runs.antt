-- ===== src/Eviction/Lfu/Runs.antt =====
-- Runs of a least-frequently-used cache's operations.
use learn_system_design.Prelude.Dict.Sizes.{length-put_new, length-put_old, found_there}
use learn_system_design.Eviction.{Call, get_of, put_of}
use learn_system_design.Prelude.{
  ℕ, suc, ◌+◌, ◌-◌, ◌≤◌, ◌≡◌, refl, true, Option, none, some, List, [], ◌∷◌, length, leb, ◌>>=◌,
  ite, arith, Bool-cases, inl, inr, ap, sym, ◌∙◌,
}
use learn_system_design.Prelude.Dict.{get, put, get-put, get-remove}
use learn_system_design.Prelude.Dict.Unique.{put-AreUnique}
use learn_system_design.Eviction.Lfu.{
  LfuCache, new_lfu, answer, lookup_at, lookup, insert, store_at, store,
}
use learn_system_design.Eviction.Lfu.Sound.{is_some, IsSound}
use learn_system_design.Eviction.Lfu.Steps.{touched, touch-IsSound}
use learn_system_design.Eviction.Lfu.Evicts.{
  some_of, evicted, evict-least, inserted, inserted-IsSound,
}

module _ {K V : Type 0} (dec : Discrete K) where
  -- The calls in a row, and what each returns; a `put` returns `None`.
  unfoldable pub run : List (Call K V) → LfuCache K V → Option (List (Option V) × LfuCache K V)
  unfolding lookup store
  run [] c = some ([], c)
  run (get_of k ∷ calls) c = do
    (v, c1) ← lookup dec k c
    (rest, c2) ← run calls c1
    some (v ∷ rest, c2)
  run (put_of k v ∷ calls) c = do
    c1 ← store dec k v c
    (rest, c2) ← run calls c1
    some (none ∷ rest, c2)

  -- Sound, and not over a capacity.
  pub record IsKept (n : ℕ) (c : LfuCache K V) : Type 0 where
    pub sound : IsSound dec c
    pub room : c.capacity ≡ suc n
    pub fits : length c.values ≤ suc n

  frequency :
      (c : LfuCache K V) (k : K) (v : V)
      → IsSound dec c
      → get dec k c.values ≡ some v
      → (f : ℕ) × (get dec k c.freq ≡ some f)
  frequency c k v s e = some_of (get dec k c.freq) (sym (s.places.known k) ∙ ap is_some e)

  counted-IsSound :
      (c : LfuCache K V) (hits misses : ℕ)
      → IsSound dec c
      → IsSound dec (record c { hits = hits; misses = misses })
  counted-IsSound c hits misses s = record {
    places = record {
      placed = s.places.placed;
      known = s.places.known;
      positive = s.places.positive;
      bucket_unique = s.places.bucket_unique;
      unique = s.places.unique;
    };
    least = s.least;
    there = s.there;
  }

  valued-IsSound :
      (c : LfuCache K V) (k : K) (old v : V)
      → IsSound dec c
      → get dec k c.values ≡ some old
      → IsSound dec (record c { values = put dec k v c.values })
  valued-IsSound c k old v s e = record {
    places = record {
      placed = s.places.placed;
      known = λ j. ground (arith, e, s.places.known j, get-put dec k j v c.values);
      positive = s.places.positive;
      bucket_unique = s.places.bucket_unique;
      unique = put-AreUnique dec k v c.values s.places.unique;
    };
    least = s.least;
    there = λ j w h. s.there k old e;
  }

  lookup_at-IsKept :
      (at : Option V) (n : ℕ) (k : K) (c : LfuCache K V)
      → IsKept n c
      → get dec k c.values ≡ at
      → (d : LfuCache K V) × (lookup_at dec at k c ≡ some (at, d)) × IsKept n d
  unfolding lookup_at answer
  lookup_at-IsKept none n k c s e = (
    record c { misses = c.misses + 1 },
    refl,
    record {
      sound = counted-IsSound c c.hits (c.misses + 1) s.sound;
      room = s.room;
      fits = s.fits;
    },
  )
  lookup_at-IsKept (some v) n k c s e =
      let (f, known) = frequency c k v s.sound e in
      let c1 = record c { hits = c.hits + 1 } in
      let (done, sound) =
        touch-IsSound dec c1 k f (counted-IsSound c (c.hits + 1) c.misses s.sound) known in
      (
        touched dec c1 k f,
        ap (answer dec k) done ∙ ap (λ o. some (o, touched dec c1 k f)) e,
        record { sound = sound; room = s.room; fits = s.fits },
      )

  store_at-IsKept :
      (at : Option V) (n : ℕ) (k : K) (v : V) (c : LfuCache K V)
      → IsKept n c
      → get dec k c.values ≡ at
      → (d : LfuCache K V) × (store_at dec at k v c ≡ some d) × IsKept n d
  unfolding store_at insert
  store_at-IsKept (some old) n k v c s e =
      let (f, known) = frequency c k old s.sound e in
      let c1 = record c { values = put dec k v c.values } in
      let (done, sound) = touch-IsSound dec c1 k f (valued-IsSound c k old v s.sound e) known in
      (
        touched dec c1 k f,
        done,
        record {
          sound = sound;
          room = s.room;
          fits =
              omega
                (arith, s.fits, length-put_old dec k v c.values (found_there dec c.values k old e));
        },
      )
  store_at-IsKept none n k v c s e = elim (Bool-cases (leb c.capacity (length c.values))) [
    | inl full ↦
        (let (victim, rest, gone, placed, low, less) =
            evict-least dec (length c.values - 1) c s.sound (ground (arith, full, s.room)) in
          let c1 = evicted dec c victim rest in
          let absent : get dec k c1.values ≡ none =
            ground (arith, e, get-remove dec victim k c.values) in
          (
            inserted dec c1 k v,
            rw (full, gone) refl,
            record {
              sound = inserted-IsSound dec c1 k v placed absent;
              room = s.room;
              fits = omega (arith, s.fits, less, length-put_new dec k v c1.values absent);
            },
          ))
    | inr free ↦ (
      inserted dec c k v,
      rw free refl,
      record {
        sound = inserted-IsSound dec c k v s.sound.places e;
        room = s.room;
        fits = ground (arith, free, s.room, length-put_new dec k v c.values e);
      },
    )
  ]

  pub new_lfu-IsKept : (n : ℕ) → IsKept n (new_lfu (suc n))
  unfolding new_lfu get
  new_lfu-IsKept n = record {
    sound = record {
      places = record {
        placed = λ k f. refl;
        known = λ k. refl;
        positive = λ k f e. ground (arith, e);
        bucket_unique = λ f. tt;
        unique = tt;
      };
      least = λ k f e. ground (arith, e);
      there = λ k v e. ground (arith, e);
    };
    room = refl;
    fits = omega arith;
  }

  run_from-IsKept :
      (n : ℕ) (calls : List (Call K V)) (c : LfuCache K V)
      → IsKept n c
      → (returned : List (Option V)) × (d : LfuCache K V) × (run calls c ≡ some (returned, d))
        × IsKept n d
  unfolding run lookup store
  run_from-IsKept n [] c s = ([], c, refl, s)
  run_from-IsKept n (get_of k ∷ calls) c s =
      let (c1, looked, kept) = lookup_at-IsKept (get dec k c.values) n k c s refl in
      let (rest, d, ran, end) = run_from-IsKept n calls c1 kept in
      (get dec k c.values ∷ rest, d, rw (looked, ran) refl, end)
  run_from-IsKept n (put_of k v ∷ calls) c s =
      let (c1, made, kept) = store_at-IsKept (get dec k c.values) n k v c s refl in
      let (rest, d, ran, end) = run_from-IsKept n calls c1 kept in
      (none ∷ rest, d, rw (made, ran) refl, end)

  -- No calls on a new least-frequently-used cache with room for a key raise, and they leave it within its capacity and sound: each key with a frequency has a value, has at least frequency 1, and is in the bucket of its frequency and in no other; `min_freq` is not above any key's frequency, and while there are keys its bucket is not empty.
  pub run-IsKept :
      (n : ℕ) (calls : List (Call K V))
      → (returned : List (Option V)) × (d : LfuCache K V) × (run calls (new_lfu (suc n))
          ≡ some (returned, d))
        × IsKept n d
  run-IsKept n calls = run_from-IsKept n calls (new_lfu (suc n)) (new_lfu-IsKept n)

  -- A put of a new key into a full least-frequently-used cache that is sound, with room for a key, evicts a key that no other key has a lower frequency than: it does not raise, and the values are then those of the others and the new one.
  pub store-least :
      (n : ℕ) (k : K) (v : V) (c : LfuCache K V)
      → IsKept n c
      → length c.values ≡ suc n
      → get dec k c.values ≡ none
      → (victim : K) × (f : ℕ) × (d : LfuCache K V) × (get dec victim c.freq ≡ some f)
        × ((j : K) (g : ℕ) → get dec j c.freq ≡ some g → f ≤ g)
        × (store dec k v c ≡ some d)
        × ((j : K)
            → get dec j d.values
              ≡ ite (dec k j) (some v) (ite (dec victim j) none (get dec j c.values)))
  unfolding store store_at insert
  store-least n k v c s whole absent =
      let full : leb c.capacity (length c.values) ≡ true = ground (arith, s.room, whole) in
      let (victim, rest, gone, placed, low, less) = evict-least dec n c s.sound whole in
      let c1 = evicted dec c victim rest in
      (
        victim,
        c.min_freq,
        inserted dec c1 k v,
        low,
        s.sound.least,
        rw (absent, full, gone) refl,
        λ j.
            get-put dec k j v c1.values
            ∙ ap (ite (dec k j) (some v)) (get-remove dec victim j c.values),
      )
