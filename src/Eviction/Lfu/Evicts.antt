-- ===== src/Eviction/Lfu/Evicts.antt =====
-- Evictions and insertions.
use learn_system_design.Prelude.Maps.{update_all}
use learn_system_design.Prelude.Dict.Sizes.{length-remove}
use learn_system_design.Prelude.{
  ℕ, suc, ◌≡◌, refl, true, false, Option, none, some, [], ◌∷◌, length, ite, if_pos, if_neg, arith,
  ap, sym, ◌∙◌, subst,
}
use learn_system_design.Prelude.Dict.{Dict, get, put, remove, get-put, get-remove}
use learn_system_design.Prelude.Dict.Unique.{AreUnique, put-AreUnique, remove-AreUnique}
use learn_system_design.Prelude.Maps.{update}
use learn_system_design.Eviction.Lfu.{LfuCache, is_empty, delete, evict}
use learn_system_design.Eviction.Lfu.Sound.{is_some, here, IsPlaced, IsSound, get-is_empty}

pub some_of : {A : Type 0} (o : Option A) → is_some o ≡ true → (a : A) × (o ≡ some a)
some_of none e = ground (arith, e)
some_of (some a) e = (a, refl)

here_only : (f : ℕ) (o : Option ℕ) → here f o ≡ some tt → o ≡ some f
here_only f none e = ground (arith, e)
here_only f (some g) e = ground (arith, e)

filled_with :
    {K : Type 0} (d : Dict K (Unit {0}))
    → is_empty d ≡ false
    → (k : K) × (rest : Dict K (Unit {0})) × (d ≡ (k, tt) ∷ rest)
filled_with [] e = ground (arith, e)
filled_with ((k, u) ∷ rest) e = (k, rest, refl)

module _ {K V : Type 0} (dec : Discrete K) where
  first_known :
      (d : Dict K V) (m : ℕ) → length d ≡ suc m → (k : K) × (v : V) × (get dec k d ≡ some v)
  unfolding get
  first_known [] m h = ground (arith, h)
  first_known ((k, v) ∷ d) m h = (k, v, if_pos (dec k k) refl (some v) (get dec k d))

module _ {K : Type 0} (dec : Discrete K) where
  -- A dict without its first key.
  get-rest :
      (victim k : K) (u : Unit {0}) (rest : Dict K (Unit {0}))
      → AreUnique dec ((victim, u) ∷ rest)
      → get dec k rest ≡ ite (dec victim k) none (get dec k ((victim, u) ∷ rest))
  unfolding get
  get-rest victim k u rest (absent, unique) = elim (dec victim k) [
    | yes p ↦
        subst (λ i. get dec i rest ≡ none) p absent
        ∙ sym (if_pos (dec victim k) p none (ite (dec victim k) (some u) (get dec k rest)))
    | no p ↦ sym (
        if_neg (dec victim k) p none (ite (dec victim k) (some u) (get dec k rest))
        ∙ if_neg (dec victim k) p (some u) (get dec k rest))
  ]

module _ {K V : Type 0} (dec : Discrete K) where
  -- The cache without this key of the least frequency.
  abbrev pub evicted : LfuCache K V → K → Dict K (Unit {0}) → LfuCache K V
  evicted c victim rest = record c {
    values = remove dec victim c.values;
    freq = remove dec victim c.freq;
    buckets = update c.buckets c.min_freq rest;
  }

  evicted-placed :
      (c : LfuCache K V) (victim k : K) (rest : Dict K (Unit {0})) (f : ℕ)
      → IsPlaced dec c
      → c.buckets c.min_freq ≡ (victim, tt) ∷ rest
      → get dec victim c.freq ≡ some c.min_freq
      → get dec k (update c.buckets c.min_freq rest f)
        ≡ here f (get dec k (remove dec victim c.freq))
  unfolding update
  evicted-placed c victim k rest f s whole e =
      let left =
        get-rest dec victim k tt rest (subst (AreUnique dec) whole (s.bucket_unique c.min_freq)) in
      let before : get dec k ((victim, tt) ∷ rest) ≡ here c.min_freq (get dec k c.freq) =
        sym (ap (get dec k) whole) ∙ s.placed k c.min_freq in
      elim (dec victim k) [
        | yes p ↦
            (let mine : get dec k c.freq ≡ some c.min_freq =
                subst (λ i. get dec i c.freq ≡ some c.min_freq) p e in
              let gone : get dec k rest ≡ none =
                left ∙ if_pos (dec victim k) p none (get dec k ((victim, tt) ∷ rest)) in
              ground (
                arith,
                gone,
                mine,
                s.placed k f,
                get-remove dec victim k c.freq ∙ if_pos (dec victim k) p none (get dec k c.freq),
              ))
        | no p ↦
            (let stays : get dec k rest ≡ here c.min_freq (get dec k c.freq) =
                left ∙ if_neg (dec victim k) p none (get dec k ((victim, tt) ∷ rest)) ∙ before in
              ground (
                arith,
                stays,
                s.placed k f,
                get-remove dec victim k c.freq ∙ if_neg (dec victim k) p none (get dec k c.freq),
              ))
      ]

  evicted-IsPlaced :
      (c : LfuCache K V) (victim : K) (rest : Dict K (Unit {0}))
      → IsPlaced dec c
      → c.buckets c.min_freq ≡ (victim, tt) ∷ rest
      → get dec victim c.freq ≡ some c.min_freq
      → IsPlaced dec (evicted c victim rest)
  evicted-IsPlaced c victim rest s whole e = record {
    placed = λ k f. evicted-placed c victim k rest f s whole e;
    known = λ k. ap is_some (get-remove dec victim k c.values) ∙ elim (dec victim k) [
      | yes p ↦
          ap is_some (if_pos (dec victim k) p none (get dec k c.values))
          ∙ sym (
              ap is_some
                (get-remove dec victim k c.freq ∙ if_pos (dec victim k) p none (get dec k c.freq)))
      | no p ↦
          ap is_some (if_neg (dec victim k) p none (get dec k c.values))
          ∙ s.known k
          ∙ sym (
              ap is_some
                (get-remove dec victim k c.freq ∙ if_neg (dec victim k) p none (get dec k c.freq)))
    ];
    positive = λ k f h. ground (arith, h, get-remove dec victim k c.freq, s.positive k f);
    bucket_unique =
        update_all (AreUnique dec) c.buckets c.min_freq rest s.bucket_unique
          (subst (AreUnique dec) whole (s.bucket_unique c.min_freq)).1;
    unique = remove-AreUnique dec victim c.values s.unique;
  }

  pub evict-least :
      (m : ℕ) (c : LfuCache K V)
      → IsSound dec c
      → length c.values ≡ suc m
      → (victim : K) × (rest : Dict K (Unit {0})) × (evict dec (c.buckets c.min_freq) c
          ≡ some (evicted c victim rest))
        × IsPlaced dec (evicted c victim rest)
        × (get dec victim c.freq ≡ some c.min_freq)
        × (length (remove dec victim c.values) ≡ m)
  unfolding evict delete
  evict-least m c s h =
      let (k, v, known) = first_known dec c.values m h in
      let (victim, rest, whole) = filled_with (c.buckets c.min_freq) (s.there k v known) in
      let at : get dec victim (c.buckets c.min_freq) ≡ some tt =
        ap (get dec victim) whole
        ∙ (unfold get in if_pos (dec victim victim) refl (some tt) (get dec victim rest)) in
      let e =
        here_only c.min_freq (get dec victim c.freq)
          (sym (s.places.placed victim c.min_freq) ∙ at) in
      let (w, held) = some_of (get dec victim c.values) (s.places.known victim ∙ ap is_some e) in
      (
        victim,
        rest,
        ap (λ b. evict dec b c) whole ∙ rw (held, e) refl,
        evicted-IsPlaced c victim rest s.places whole e,
        e,
        omega (arith, h, length-remove dec victim c.values w s.places.unique held),
      )

  -- The cache with a new key.
  abbrev pub inserted : LfuCache K V → K → V → LfuCache K V
  inserted c key value = record c {
    values = put dec key value c.values;
    freq = put dec key 1 c.freq;
    buckets = update c.buckets 1 (put dec key tt (c.buckets 1));
    min_freq = 1;
  }

  inserted-placed :
      (c : LfuCache K V) (key k : K) (f : ℕ)
      → IsPlaced dec c
      → get dec key c.freq ≡ none
      → get dec k (update c.buckets 1 (put dec key tt (c.buckets 1)) f)
        ≡ here f (get dec k (put dec key 1 c.freq))
  unfolding update
  inserted-placed c key k f s e = elim (dec key k) [
    | yes p ↦
        (let mine : get dec k c.freq ≡ none = subst (λ i. get dec i c.freq ≡ none) p e in
          ground (
            arith,
            mine,
            s.placed k f,
            get-put dec key k 1 c.freq ∙ if_pos (dec key k) p (some 1) (get dec k c.freq),
            get-put dec key k tt (c.buckets 1)
                ∙ if_pos (dec key k) p (some tt) (get dec k (c.buckets 1)),
          ))
    | no p ↦ ground (
      arith,
      s.placed k f,
      get-put dec key k 1 c.freq ∙ if_neg (dec key k) p (some 1) (get dec k c.freq),
      get-put dec key k tt (c.buckets 1) ∙ if_neg (dec key k) p (some tt) (get dec k (c.buckets 1)),
    )
  ]

  pub inserted-IsSound :
      (c : LfuCache K V) (key : K) (value : V)
      → IsPlaced dec c
      → get dec key c.values ≡ none
      → IsSound dec (inserted c key value)
  inserted-IsSound c key value s absent =
      let e : get dec key c.freq ≡ none = ground (arith, s.known key, absent) in
      let full = get-is_empty dec key (update c.buckets 1 (put dec key tt (c.buckets 1)) 1) (
        inserted-placed c key key 1 s e
        ∙ ap (here 1) (
            get-put dec key key 1 c.freq
            ∙ if_pos (dec key key) refl (some 1) (get dec key c.freq))) in
      record {
        places = record {
          placed = λ k f. inserted-placed c key k f s e;
          known = λ k.
              ground
                (arith, s.known k, get-put dec key k value c.values, get-put dec key k 1 c.freq);
          positive = λ k f h. ground (arith, h, get-put dec key k 1 c.freq, s.positive k f);
          bucket_unique =
              update_all (AreUnique dec) c.buckets 1 (put dec key tt (c.buckets 1)) s.bucket_unique
                (put-AreUnique dec key tt (c.buckets 1) (s.bucket_unique 1));
          unique = put-AreUnique dec key value c.values s.unique;
        };
        least = λ k f h. ground (arith, h, get-put dec key k 1 c.freq, s.positive k f);
        there = λ k v h. full;
      }
