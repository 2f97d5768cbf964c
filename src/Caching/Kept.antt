-- ===== src/Caching/Kept.antt =====
-- What reads and writes keep under every strategy of 04_caching/02_caching_strategies.py.
use learn_system_design.Prelude.{
  ℕ, ◌≡◌, refl, Option, none, some, [], ite, if_pos, if_neg, arith, ap, sym, ◌∙◌, subst, inl, inr,
  ◌⊎◌,
}
use learn_system_design.Prelude.Dict.{Dict, get, put, remove, get-put, get-remove}
use learn_system_design.Prelude.Dict.Unique.{AreUnique, put-AreUnique, or_else}
use learn_system_design.Caching.{
  Strategy, cache_aside, write_through, write_back, write_around, Store, db_write, fill,
  read_through, read, write,
}
use learn_system_design.Caching.Calls.{assign}

module _ {K V : Type 0} (dec : Discrete K) where
  -- Nothing is dirty but under `WriteBack`.
  abbrev pub IsClean : Strategy → Dict K V → Type 0
  IsClean write_back d = Unit
  IsClean cache_aside d = d ≡ []
  IsClean write_through d = d ≡ []
  IsClean write_around d = d ≡ []

  pub record Holds (st : Strategy) (s : Store K V) (m : K → Option V) : Type 0 where
    pub hit : (k : K) (v : V) → get dec k s.cache ≡ some v → m k ≡ some v
    pub miss : (k : K) → get dec k s.cache ≡ none → get dec k s.db.rows ≡ m k
    pub late : (k : K) → or_else (get dec k s.dirty) (get dec k s.db.rows) ≡ m k
    pub unique : AreUnique dec s.dirty
    pub clean : IsClean st s.dirty

  pub fill-hit :
      (k j : K) (o : Option V) (v : V) (cache : Dict K V)
      → get dec j (fill dec k o cache) ≡ some v
      → ((k ≡ j) × (o ≡ some v)) ⊎ (get dec j cache ≡ some v)
  unfolding fill
  fill-hit k j none v cache h = inr h
  fill-hit k j (some w) v cache h = elim (dec k j) [
    | yes same ↦
        inl (
          same,
          sym (get-put dec k j w cache ∙ if_pos (dec k j) same (some w) (get dec j cache)) ∙ h,
        )
    | no other ↦
        inr (sym (get-put dec k j w cache ∙ if_neg (dec k j) other (some w) (get dec j cache)) ∙ h)
  ]

  pub fill-miss :
      (k j : K) (o : Option V) (cache : Dict K V)
      → get dec j (fill dec k o cache) ≡ none
      → get dec j cache ≡ none
  unfolding fill
  fill-miss k j none cache h = h
  fill-miss k j (some w) cache h = elim (dec k j) [
    | yes same ↦
        (let e =
            sym (get-put dec k j w cache ∙ if_pos (dec k j) same (some w) (get dec j cache)) ∙ h in
          ground arith)
    | no other ↦
        sym (get-put dec k j w cache ∙ if_neg (dec k j) other (some w) (get dec j cache)) ∙ h
  ]

  pub read_through-Holds :
      (st : Strategy) (s : Store K V) (m : K → Option V) (k : K) (o : Option V)
      → Holds st s m
      → get dec k s.cache ≡ o
      → ((read_through dec k o s).0 ≡ m k) × Holds st (read_through dec k o s).1 m
  unfolding read_through
  read_through-Holds st s m k (some v) h e = (sym (h.hit k v e), h)
  read_through-Holds st s m k none h e = (
    h.miss k e,
    record {
      hit = λ j v p. elim (fill-hit k j (get dec k s.db.rows) v s.cache p) [
        | inl (same, found) ↦ subst (λ x. m x ≡ some v) same (sym (h.miss k e) ∙ found)
        | inr old ↦ h.hit j v old
      ];
      miss = λ j p. h.miss j (fill-miss k j (get dec k s.db.rows) s.cache p);
      late = h.late;
      unique = h.unique;
      clean = h.clean;
    },
  )

  pub read-Holds :
      (st : Strategy) (s : Store K V) (m : K → Option V) (k : K)
      → Holds st s m
      → ((read dec k s).0 ≡ m k) × Holds st (read dec k s).1 m
  unfolding read
  read-Holds st s m k h =
      read_through-Holds st _ m k (get dec k s.cache)
        (record { hit = h.hit; miss = h.miss; late = h.late; unique = h.unique; clean = h.clean })
        refl

  -- With nothing dirty the database has the contents dec.
  pub settled :
      (s : Store K V) (m : K → Option V)
      → ((k : K) → or_else (get dec k s.dirty) (get dec k s.db.rows) ≡ m k)
      → s.dirty ≡ []
      → (k : K) → get dec k s.db.rows ≡ m k
  settled s m late e k =
      let empty : or_else (get dec k []) (get dec k s.db.rows) ≡ get dec k s.db.rows =
        unfold get in refl in
      sym empty ∙ ap (λ d. or_else (get dec k d) (get dec k s.db.rows)) (sym e) ∙ late k

  pub put-assign :
      (k j : K) (v : V) (d : Dict K V) (m : K → Option V)
      → get dec j d ≡ m j
      → get dec j (put dec k v d) ≡ assign dec k v m j
  put-assign k j v d m h = get-put dec k j v d ∙ ap (ite (dec k j) (some v)) h

  -- A hit of a cache that a key was put in, or removed from, is a hit of the new contents dec.
  pub put-hit :
      (k j : K) (v w : V) (cache : Dict K V) (m : K → Option V)
      → (get dec j cache ≡ some w → m j ≡ some w)
      → get dec j (put dec k v cache) ≡ some w
      → assign dec k v m j ≡ some w
  put-hit k j v w cache m h p = elim (dec k j) [
    | yes same ↦
        if_pos (dec k j) same (some v) (m j)
        ∙ sym (get-put dec k j v cache ∙ if_pos (dec k j) same (some v) (get dec j cache))
        ∙ p
    | no other ↦
        if_neg (dec k j) other (some v) (m j)
        ∙ h (sym (get-put dec k j v cache ∙ if_neg (dec k j) other (some v) (get dec j cache)) ∙ p)
  ]

  pub remove-hit :
      (k j : K) (v w : V) (cache : Dict K V) (m : K → Option V)
      → (get dec j cache ≡ some w → m j ≡ some w)
      → get dec j (remove dec k cache) ≡ some w
      → assign dec k v m j ≡ some w
  remove-hit k j v w cache m h p = elim (dec k j) [
    | yes same ↦
        (let e =
            sym (get-remove dec k j cache ∙ if_pos (dec k j) same none (get dec j cache)) ∙ p in
          ground arith)
    | no other ↦
        if_neg (dec k j) other (some v) (m j)
        ∙ h (sym (get-remove dec k j cache ∙ if_neg (dec k j) other none (get dec j cache)) ∙ p)
  ]

  pub put-miss :
      (k j : K) (v : V) (cache : Dict K V)
      → get dec j (put dec k v cache) ≡ none
      → ¬ (k ≡ j) × (get dec j cache ≡ none)
  put-miss k j v cache p = elim (dec k j) [
    | yes same ↦
        (let e =
            sym (get-put dec k j v cache ∙ if_pos (dec k j) same (some v) (get dec j cache)) ∙ p in
          ground arith)
    | no other ↦ (
      other,
      sym (get-put dec k j v cache ∙ if_neg (dec k j) other (some v) (get dec j cache)) ∙ p,
    )
  ]

  -- What the strategies that write the database keep, whatever they do to the cache.
  pub written-Holds :
      (st : Strategy) (s : Store K V) (m : K → Option V) (k : K) (v : V) (cache : Dict K V)
      (latency : ℕ)
      → Holds st s m
      → s.dirty ≡ []
      → ((j : K) (w : V) → get dec j cache ≡ some w → assign dec k v m j ≡ some w)
      → Holds st
          (record s { db = db_write dec k v s.db; cache = cache; latency = latency })
          (assign dec k v m)
  unfolding db_write
  written-Holds st s m k v cache latency h e hit =
      let stored = λ (j : K). put-assign k j v s.db.rows m (settled s m h.late e j) in
      record {
        hit = hit;
        miss = λ j p. stored j;
        late = λ j.
            ap (λ d. or_else (get dec j d) (get dec j (put dec k v s.db.rows))) e
            ∙ unfold get in stored j;
        unique = h.unique;
        clean = h.clean;
      }

  pub write-Holds :
      (st : Strategy) (s : Store K V) (m : K → Option V) (k : K) (v : V)
      → Holds st s m
      → Holds st (write dec st k v s) (assign dec k v m)
  unfolding write
  write-Holds cache_aside s m k v h =
      written-Holds cache_aside s m k v (remove dec k s.cache) _ h h.clean
        (λ j w. remove-hit k j v w s.cache m (h.hit j w))
  write-Holds write_through s m k v h =
      written-Holds write_through s m k v (put dec k v s.cache) _ h h.clean
        (λ j w. put-hit k j v w s.cache m (h.hit j w))
  write-Holds write_around s m k v h =
      written-Holds write_around s m k v (remove dec k s.cache) _ h h.clean
        (λ j w. remove-hit k j v w s.cache m (h.hit j w))
  write-Holds write_back s m k v h = record {
    hit = λ j w. put-hit k j v w s.cache m (h.hit j w);
    miss = λ j p.
        let (other, absent) = put-miss k j v s.cache p in
        h.miss j absent ∙ sym (if_neg (dec k j) other (some v) (m j));
    late = λ j.
        ap (λ o. or_else o (get dec j s.db.rows)) (get-put dec k j v s.dirty) ∙ elim (dec k j) [
          | yes same ↦
              ap (λ o. or_else o (get dec j s.db.rows))
                (if_pos (dec k j) same (some v) (get dec j s.dirty))
              ∙ sym (if_pos (dec k j) same (some v) (m j))
          | no other ↦
              ap (λ o. or_else o (get dec j s.db.rows))
                (if_neg (dec k j) other (some v) (get dec j s.dirty))
              ∙ h.late j
              ∙ sym (if_neg (dec k j) other (some v) (m j))
        ];
    unique = put-AreUnique dec k v s.dirty h.unique;
    clean = tt;
  }
