-- ===== src/UrlShortener/Resolve.antt =====
-- A short link resolves to the database's answer, whatever the cache holds.
use learn_system_design.Prelude.{
  ◌+◌, ◌-◌, ◌≤◌, ◌<◌, ◌≡◌, refl, Option, none, some, [], ◌∷◌, ◌++◌, ltb, length, if_pos, if_neg,
  arith, Bool-cases, Option-cases, inl, inr, ◌⊎◌, ap, sym, ◌∙◌, subst, length-append,
}
use learn_system_design.Prelude.Dict.{Dict, get, put, remove, get-put}
use learn_system_design.UrlShortener.Cache.{LruCache, pop_first, move_to_end, lookup, store}
use learn_system_design.UrlShortener.Server.{
  Code, World, Answer, not_found, redirect, save, from_db, from_cache, resolve,
}

module _ {U : Type 0} (dec : Discrete Code) where
  -- Each entry of the cache is the database's.
  abbrev pub Agrees : Dict Code U → Dict Code U → Type 0
  Agrees db [] = Unit
  Agrees db ((k, v) ∷ d) = (get dec k db ≡ some v) × Agrees db d

  -- The cache agrees with the database and has room for what it holds.
  pub record IsValid (w : World U) : Type 0 where
    pub agrees : Agrees w.db w.cache.entries
    pub bounded : length w.cache.entries ≤ w.cache.capacity

  Agrees-get :
      (db d : Dict Code U) (k : Code) (v : U)
      → Agrees db d
      → get dec k d ≡ some v
      → get dec k db ≡ some v
  unfolding get
  Agrees-get db [] k v a h = ground arith
  Agrees-get db ((j, w) ∷ d) k v (e, a) h = elim (dec j k) [
    | yes same ↦
        subst (λ x. get dec x db ≡ some w) same e
        ∙ sym (if_pos (dec j k) same (some w) (get dec k d))
        ∙ h
    | no other ↦ Agrees-get db d k v a (sym (if_neg (dec j k) other (some w) (get dec k d)) ∙ h)
  ]

  Agrees-remove : (db d : Dict Code U) (k : Code) → Agrees db d → Agrees db (remove dec k d)
  unfolding remove
  Agrees-remove db [] k a = tt
  Agrees-remove db ((j, w) ∷ d) k (e, a) = elim (dec j k) [
    | yes same ↦
        rw (if_pos (dec j k) same (remove dec k d) ((j, w) ∷ remove dec k d))
          (Agrees-remove db d k a)
    | no other ↦
        rw (if_neg (dec j k) other (remove dec k d) ((j, w) ∷ remove dec k d))
          (e, Agrees-remove db d k a)
  ]

  Agrees-append :
      (db d : Dict Code U) (k : Code) (v : U)
      → Agrees db d
      → get dec k db ≡ some v
      → Agrees db (d ++ (k, v) ∷ [])
  Agrees-append db [] k v a h = (h, tt)
  Agrees-append db ((j, w) ∷ d) k v (e, a) h = (e, Agrees-append db d k v a h)

  Agrees-put :
      (db d : Dict Code U) (k : Code) (v : U)
      → Agrees db d
      → get dec k db ≡ some v
      → Agrees db (put dec k v d)
  unfolding put
  Agrees-put db [] k v a h = (h, tt)
  Agrees-put db ((j, w) ∷ d) k v (e, a) h = elim (dec j k) [
    | yes same ↦
        rw (if_pos (dec j k) same ((j, v) ∷ d) ((j, w) ∷ put dec k v d))
          (subst (λ x. get dec x db ≡ some v) (sym same) h, a)
    | no other ↦
        rw (if_neg (dec j k) other ((j, v) ∷ d) ((j, w) ∷ put dec k v d))
          (e, Agrees-put db d k v a h)
  ]

  Agrees-pop_first : (db d : Dict Code U) → Agrees db d → Agrees db (pop_first d)
  unfolding pop_first
  Agrees-pop_first db [] a = tt
  Agrees-pop_first db ((k, v) ∷ d) (e, a) = a

  -- A new code is not in the cache.
  Agrees-save :
      (db d : Dict Code U) (k : Code) (v : U)
      → get dec k db ≡ none
      → Agrees db d
      → Agrees (put dec k v db) d
  Agrees-save db [] k v new a = tt
  Agrees-save db ((j, w) ∷ d) k v new (e, a) = (
    get-put dec k j v db ∙ elim (dec k j) [
      | yes same ↦ absurd (let clash = sym new ∙ ap (λ x. get dec x db) same ∙ e in ground arith)
      | no other ↦ if_neg (dec k j) other (some v) (get dec j db) ∙ e
    ],
    Agrees-save db d k v new a,
  )

  length-remove_le : (d : Dict Code U) (k : Code) → length (remove dec k d) ≤ length d
  unfolding remove
  length-remove_le [] k = omega arith
  length-remove_le ((j, w) ∷ d) k = ground (arith, length-remove_le d k)

  length-remove :
      (d : Dict Code U) (k : Code) (v : U)
      → get dec k d ≡ some v
      → length (remove dec k d) < length d
  unfolding remove get
  length-remove [] k v h = ground arith
  length-remove ((j, w) ∷ d) k v h = ground (arith, length-remove_le d k, length-remove d k v)

  length-put : (d : Dict Code U) (k : Code) (v : U) → length (put dec k v d) ≤ length d + 1
  unfolding put
  length-put [] k v = omega arith
  length-put ((j, w) ∷ d) k v = ground (arith, length-put d k v)

  Agrees-move_to_end :
      (db d : Dict Code U) (k : Code) → Agrees db d → Agrees db (move_to_end dec k d)
  unfolding move_to_end
  Agrees-move_to_end db d k a = elim (Option-cases (get dec k d)) [
    | inl e ↦ rw (e, move_to_end) a
    | inr (v, e) ↦
        rw (e, move_to_end)
          (Agrees-append db (remove dec k d) k v (Agrees-remove db d k a) (Agrees-get db d k v a e))
  ]

  length-move_to_end : (d : Dict Code U) (k : Code) → length (move_to_end dec k d) ≤ length d
  unfolding move_to_end
  length-move_to_end d k = elim (Option-cases (get dec k d)) [
    | inl e ↦ rw (e, move_to_end) (omega arith)
    | inr (v, e) ↦
        rw (e, move_to_end)
          (omega (arith, length-append (remove dec k d) ((k, v) ∷ []), length-remove d k v e))
  ]

  length-pop_first : (d : Dict Code U) → length (pop_first d) ≡ length d - 1
  unfolding pop_first
  length-pop_first [] = refl
  length-pop_first (e ∷ d) = omega arith

  -- A cache that agrees with a database, within its capacity.
  abbrev IsCache : Dict Code U → LruCache Code U → Type 0
  IsCache db c = Agrees db c.entries × (length c.entries ≤ c.capacity)

  store-IsCache :
      (db : Dict Code U) (c : LruCache Code U) (k : Code) (v : U)
      → IsCache db c
      → get dec k db ≡ some v
      → IsCache db (store dec k v c)
  unfolding store
  store-IsCache db c k v (a, b) h =
      let d = move_to_end dec k (put dec k v c.entries) in
      let a' = Agrees-move_to_end db (put dec k v c.entries) k (Agrees-put db c.entries k v a h) in
      let grown = length-put c.entries k v in
      let moved = length-move_to_end (put dec k v c.entries) k in
      elim (Bool-cases (ltb c.capacity (length d))) [
        | inl e ↦ rw e (Agrees-pop_first db d a', omega (arith, length-pop_first d))
        | inr e ↦ rw e (a', ground arith)
      ]

  -- What a hit returns is the database's, and the cache stays one.
  lookup-IsCache :
      (db : Dict Code U) (c : LruCache Code U) (k : Code)
      → IsCache db c
      → IsCache db (lookup dec k c).1
        × (((lookup dec k c).0 ≡ none) ⊎ ((lookup dec k c).0 ≡ get dec k db))
  unfolding lookup
  lookup-IsCache db c k (a, b) = elim (Option-cases (get dec k c.entries)) [
    | inl e ↦ rw (e, lookup) ((a, b), inl refl)
    | inr (v, e) ↦
        rw (e, lookup)
          (
            (Agrees-move_to_end db c.entries k a, omega (arith, length-move_to_end c.entries k)),
            inr (sym (Agrees-get db c.entries k v a e)),
          )
  ]

  -- What the database answers for a code.
  abbrev pub answer : Option U → Answer U
  answer none = not_found
  answer (some url) = redirect url

  abbrev Resolved : Code → World U → Answer U × World U → Type 0
  Resolved code w r = (r.0 ≡ answer (get dec code w.db)) × IsValid r.1

  from_db-Resolved :
      (code : Code) (w : World U) (o : Option U)
      → IsValid w
      → get dec code w.db ≡ o
      → Resolved code w (from_db dec code w o)
  unfolding from_db
  from_db-Resolved code w none v e = (ap answer (sym e), v)
  from_db-Resolved code w (some url) v e =
      let stored = store-IsCache w.db w.cache code url (v.agrees, v.bounded) e in
      (ap answer (sym e), record { agrees = stored.0; bounded = stored.1 })

  from_cache-Resolved :
      (code : Code) (w : World U) (o : Option U)
      → IsValid w
      → (o ≡ none) ⊎ (o ≡ get dec code w.db)
      → Resolved code w (from_cache dec code w o)
  unfolding from_cache
  from_cache-Resolved code w none v h = from_db-Resolved code w (get dec code w.db) v refl
  from_cache-Resolved code w (some url) v (inl miss) = ground arith
  from_cache-Resolved code w (some url) v (inr hit) = (ap answer hit, v)

  -- From a valid world a code resolves to what the database has for it, be it cached or not, and the
  -- world after it is valid: its cache agrees with the database and is within its capacity.
  pub resolve-IsValid :
      (code : Code) (w : World U)
      → IsValid w
      → ((resolve dec code w).0 ≡ answer (get dec code w.db)) × IsValid (resolve dec code w).1
  unfolding resolve
  resolve-IsValid code w v =
      let looked = lookup-IsCache w.db w.cache code (v.agrees, v.bounded) in
      let c = (lookup dec code w.cache).1 in
      from_cache-Resolved code (record w { cache = c }) (lookup dec code w.cache).0
        (record { agrees = looked.0.0; bounded = looked.0.1 }) looked.1

  pub save-IsValid :
      (code : Code) (url : U) (w : World U)
      → get dec code w.db ≡ none
      → IsValid w
      → IsValid (save dec code url w)
  unfolding save
  save-IsValid code url w new v = record {
    agrees = Agrees-save w.db w.cache.entries code url new v.agrees;
    bounded = v.bounded;
  }
