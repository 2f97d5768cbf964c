-- ===== src/Eviction/Fifo/Queue.antt =====
-- The entries of a first-in-first-out cache are a queue.
use learn_system_design.Prelude.Dict.Sizes.{length-put_old}
use learn_system_design.Prelude.{
  ℕ, suc, ◌≤◌, ◌≡◌, refl, Bool, true, false, ◌&&◌, not, some, [], ◌∷◌, ◌++◌, length, leb,
  if◌then◌else◌, if_pos, if_neg, arith, ap, sym, ◌∙◌, subst, length-append,
}
use learn_system_design.Prelude.Dict.{Dict, put, has}
use learn_system_design.Eviction.Fifo.{FifoCache, pop_first, put_in, store}

module _ {K V : Type 0} where
  -- The queue without its first entry.
  abbrev pub later : Dict K V → Dict K V
  later [] = []
  later (entry ∷ d) = d

module _ {K V : Type 0} (dec : Discrete K) where
  put_new : (k : K) (v : V) (d : Dict K V) → has dec k d ≡ false → put dec k v d ≡ d ++ (k, v) ∷ []
  unfolding has put
  put_new k v [] e = refl
  put_new k v ((j, w) ∷ d) e = elim (dec j k) [
    | yes same ↦
        (let wrong : true ≡ false = sym (if_pos (dec j k) same true (has dec k d)) ∙ e in
          ground arith)
    | no other ↦
        if_neg (dec j k) other ((j, v) ∷ d) ((j, w) ∷ put dec k v d)
        ∙ ap (λ (l : Dict K V). (j, w) ∷ l)
            (put_new k v d (sym (if_neg (dec j k) other true (has dec k d)) ∙ e))
  ]

  has-later : (k : K) (d : Dict K V) → has dec k d ≡ false → has dec k (later d) ≡ false
  unfolding has
  has-later k [] e = e
  has-later k ((j, w) ∷ d) e = elim (dec j k) [
    | yes same ↦
        (let wrong : true ≡ false = sym (if_pos (dec j k) same true (has dec k d)) ∙ e in
          ground arith)
    | no other ↦ sym (if_neg (dec j k) other true (has dec k d)) ∙ e
  ]

  -- The entries after a put of a key, by whether the cache has it and whether it is full.
  abbrev pub queued : Bool → Bool → K → V → Dict K V → Dict K V
  queued true full k v d = put dec k v d
  queued false true k v d = later d ++ (k, v) ∷ []
  queued false false k v d = d ++ (k, v) ∷ []

  store_as :
      (known full : Bool) (n : ℕ) (k : K) (v : V) (c : FifoCache K V)
      → c.capacity ≡ suc n
      → length c.contents ≤ suc n
      → has dec k c.contents ≡ known
      → leb c.capacity (length c.contents) ≡ full
      → (put_in dec k v (if not known && full then pop_first c.contents else some c.contents) c
          ≡ some (record c { contents = queued known full k v c.contents }))
        × (length (queued known full k v c.contents) ≤ suc n)
  unfolding put_in pop_first
  store_as true full n k v c room fits e f =
      (refl, omega (arith, fits, length-put_old dec k v c.contents e))
  store_as false false n k v c room fits e f = (
    ap (λ d. some (record c { contents = d })) (put_new k v c.contents e),
    ground (arith, room, f, length-append c.contents ((k, v) ∷ [])),
  )
  store_as false true n k v c room fits e f = full_case n k v c room fits e f c.contents refl
    where
      full_case :
          (n : ℕ) (k : K) (v : V) (c : FifoCache K V)
          → c.capacity ≡ suc n
          → length c.contents ≤ suc n
          → has dec k c.contents ≡ false
          → leb c.capacity (length c.contents) ≡ true
          → (d : Dict K V) → c.contents ≡ d
          → (put_in dec k v (pop_first c.contents) c
              ≡ some (record c { contents = later c.contents ++ (k, v) ∷ [] }))
            × (length (later c.contents ++ (k, v) ∷ []) ≤ suc n)
      full_case n k v c room fits e f [] same =
          (let wrong = ap length same in ground (arith, room, f))
      full_case n k v c room fits e f (entry ∷ d) same = (
        rw same (
            ap (λ t. some (record c { contents = t }))
              (put_new k v d (has-later k (entry ∷ d) (subst (λ t. has dec k t ≡ false) same e)))),
        rw same (omega (arith, fits, ap length same, length-append d ((k, v) ∷ []))),
      )

  -- A put into a first-in-first-out cache with room for a key, and not over its capacity, never raises: a key that is there keeps its place, a new key comes last, and only if the cache is full does the first entry go; the cache is again not over its capacity.
  pub store-queued :
      (n : ℕ) (k : K) (v : V) (c : FifoCache K V)
      → c.capacity ≡ suc n
      → length c.contents ≤ suc n
      → (store dec k v c
          ≡ some (record c {
            contents =
                queued (has dec k c.contents) (leb c.capacity (length c.contents)) k v c.contents;
          }))
        × (length
              (queued (has dec k c.contents) (leb c.capacity (length c.contents)) k v c.contents)
            ≤ suc n)
  unfolding store
  store-queued n k v c room fits =
      store_as (has dec k c.contents) (leb c.capacity (length c.contents)) n k v c room fits refl
        refl
