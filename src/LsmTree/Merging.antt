-- ===== src/LsmTree/Merging.antt =====
-- What tables hold together: the newest of several, and the merge of all of them.
use learn_system_design.Prelude.{
  ℕ, ◌+◌, ◌≡◌, refl, true, false, Option, none, some, List, [], ◌∷◌, ◌++◌, ℕ_discrete, arith,
  Bool-cases, Option-cases, inl, inr, if_pos, if_neg, ap, sym, ◌∙◌, subst,
}
use learn_system_design.Prelude.Dict.{Dict, get, put, get-put}
use learn_system_design.LsmTree.Bloom.{might_contain, add_all, bloom_filter, BloomFilter, add}
use learn_system_design.LsmTree.Bloom.Members.{add_all-keep, add-might_contain}
use learn_system_design.LsmTree.Table.{keys_of, values_of, SsTable, table, read}
use learn_system_design.LsmTree.Table.Lookup.{
  Ascending, AreUnique, Ascending-none, value_at-get, get-cons_none,
}
use learn_system_design.LsmTree.{zip, update, merge, live, found, reversed, search, Stats}

module _ {V : Type 0} where
  abbrev pub or_else : Option V → Option V → Option V
  or_else none b = b
  or_else (some a) b = some a

  pub or_else_assoc : (a b c : Option V) → or_else (or_else a b) c ≡ or_else a (or_else b c)
  or_else_assoc none b c = refl
  or_else_assoc (some a) b c = refl

module _ {V : Type 0} where
  zip-items : (items : Dict ℕ (Option V)) → zip (keys_of items) (values_of items) ≡ items
  unfolding zip keys_of values_of
  zip-items [] = refl
  zip-items ((k, v) ∷ items) = ap (λ rest. (k, v) ∷ rest) (zip-items items)

  get-update :
      (lo : ℕ) (items d : Dict ℕ (Option V)) (j : ℕ)
      → Ascending lo items
      → get ℕ_discrete j (update items d) ≡ or_else (get ℕ_discrete j items) (get ℕ_discrete j d)
  unfolding update get
  get-update lo [] d j a = refl
  get-update lo ((k, v) ∷ items) d j (le, a) =
      let ih = get-update (k + 1) items (put ℕ_discrete k v d) j a in
      let past = Ascending-none (k + 1) j items a in
      let stored = get-put ℕ_discrete k j v d in rw (ih, stored) (ground (arith, past))

  -- What a table answers a merge and a search with.
  module _ (digest : ℕ → ℕ → ℕ) where
    abbrev pub IsSound : SsTable V → Type 0
    IsSound t =
        ((key : ℕ) → might_contain digest t.bloom key ≡ false → read t key ≡ none)
        × ((j : ℕ) (d : Dict ℕ (Option V))
            → get ℕ_discrete j (update (zip t.keys t.values) d)
              ≡ or_else (read t j) (get ℕ_discrete j d))

    pub read-table :
        (items : Dict ℕ (Option V)) (key : ℕ)
        → Ascending 0 items
        → read (table digest items) key ≡ get ℕ_discrete key items
    unfolding read table
    read-table items key a = value_at-get 0 items key a

    might_contain-table :
        (items : Dict ℕ (Option V)) (b : BloomFilter) (key : ℕ)
        → might_contain digest (add_all digest (keys_of items) b) key ≡ false
        → get ℕ_discrete key items ≡ none
    unfolding get keys_of add_all
    might_contain-table [] b key h = refl
    might_contain-table ((k, v) ∷ items) b key h = elim (ℕ_discrete k key) [
      | yes same ↦ absurd (
          let e = add_all-keep digest (keys_of items) (add digest k b) key (
            subst (λ x. might_contain digest (add digest k b) x ≡ true) same
              (add-might_contain digest b k)) in
          ground arith)
      | no other ↦
          if_neg (ℕ_discrete k key) other (some v) (get ℕ_discrete key items)
          ∙ might_contain-table items (add digest k b) key h
    ]

    pub table-IsSound :
        (items : Dict ℕ (Option V)) → Ascending 0 items → IsSound (table digest items)
    table-IsSound items a =
        let zipped : zip (table digest items).keys (table digest items).values ≡ items =
          unfold table in zip-items items in
        (
          (λ key h.
              read-table items key a
              ∙ might_contain-table items (bloom_filter 2048 3) key (unfold table in h)),
          (λ j d.
              ap (λ z. get ℕ_discrete j (update z d)) zipped
              ∙ get-update 0 items d j a
              ∙ ap (λ r. or_else r (get ℕ_discrete j d)) (sym (read-table items j a))),
        )

    abbrev pub AreSound : List (SsTable V) → Type 0
    AreSound [] = Unit
    AreSound (t ∷ tables) = IsSound t × AreSound tables

    pub AreSound-append :
        (tables : List (SsTable V)) (t : SsTable V)
        → AreSound tables
        → IsSound t
        → AreSound (tables ++ t ∷ [])
    AreSound-append [] t s h = (h, tt)
    AreSound-append (x ∷ tables) t (hx, s) h = (hx, AreSound-append tables t s h)

  -- The first answer of tables, newest first.
  abbrev pub first : List (SsTable V) → ℕ → Option (Option V)
  first [] key = none
  first (t ∷ tables) key = or_else (read t key) (first tables key)

  pub first-append :
      (xs ys : List (SsTable V)) (key : ℕ)
      → first (xs ++ ys) key ≡ or_else (first xs key) (first ys key)
  first-append [] ys key = refl
  first-append (x ∷ xs) ys key =
      ap (or_else (read x key)) (first-append xs ys key)
      ∙ sym (or_else_assoc (read x key) (first xs key) (first ys key))

  pub or_else-none : (a : Option (Option V)) → or_else a none ≡ a
  or_else-none none = refl
  or_else-none (some a) = refl

  module _ (digest : ℕ → ℕ → ℕ) where
    -- The newest value wins a merge.
    pub get-merge :
        (tables : List (SsTable V)) (d : Dict ℕ (Option V)) (j : ℕ)
        → AreSound digest tables
        → get ℕ_discrete j (merge tables d)
          ≡ or_else (first (reversed tables) j) (get ℕ_discrete j d)
    unfolding merge reversed
    get-merge [] d j s = refl
    get-merge (t ∷ tables) d j (st, s) =
        get-merge tables (update (zip t.keys t.values) d) j s
        ∙ ap (or_else (first (reversed tables) j)) (st.1 j d)
        ∙ sym (or_else_assoc (first (reversed tables) j) (read t j) (get ℕ_discrete j d))
        ∙ ap (λ r. or_else r (get ℕ_discrete j d))
            (ap (or_else (first (reversed tables) j)) (sym (or_else-none (read t j)))
              ∙ sym (first-append (reversed tables) (t ∷ []) j))

    -- The filters change no answer of a search.
    pub search-first :
        (tables : List (SsTable V)) (key : ℕ) (stats : Stats)
        → AreSound digest tables
        → (search digest tables key stats).0 ≡ first tables key
    unfolding search
    search-first [] key stats s = refl
    search-first (t ∷ tables) key stats (st, s) =
        elim (Bool-cases (might_contain digest t.bloom key)) [
          | inl e ↦ elim (Option-cases (read t key)) [
            | inl f ↦
                rw (e, f)
                  (search-first tables key
                    (record stats { sstables_checked = stats.sstables_checked + 1 }) s)
            | inr (v, f) ↦ rw (e, f) refl
          ]
          | inr e ↦
              rw (e, st.0 key e)
                (search-first tables key (record stats { bloom_skips = stats.bloom_skips + 1 }) s)
        ]

  pub put-AreUnique :
      (k : ℕ) (v : Option V) (d : Dict ℕ (Option V))
      → AreUnique d
      → AreUnique (put ℕ_discrete k v d)
  unfolding put
  put-AreUnique k v [] u = (unfold get in refl, tt)
  put-AreUnique k v ((j, w) ∷ d) (absent, u) = elim (ℕ_discrete j k) [
    | yes same ↦
        rw (if_pos (ℕ_discrete j k) same ((j, v) ∷ d) ((j, w) ∷ put ℕ_discrete k v d)) (absent, u)
    | no other ↦ rw (if_neg (ℕ_discrete j k) other ((j, v) ∷ d) ((j, w) ∷ put ℕ_discrete k v d)) (
      get-put ℕ_discrete k j v d
          ∙ if_neg (ℕ_discrete k j) (λ e. other (sym e)) (some v) (get ℕ_discrete j d)
          ∙ absent,
      put-AreUnique k v d u,
    )
  ]

  update-AreUnique :
      (items : List (ℕ × Option V)) (d : Dict ℕ (Option V))
      → AreUnique d
      → AreUnique (update items d)
  unfolding update
  update-AreUnique [] d u = u
  update-AreUnique ((k, v) ∷ items) d u =
      update-AreUnique items (put ℕ_discrete k v d) (put-AreUnique k v d u)

  pub merge-AreUnique :
      (tables : List (SsTable V)) (d : Dict ℕ (Option V)) → AreUnique d → AreUnique (merge tables d)
  unfolding merge
  merge-AreUnique [] d u = u
  merge-AreUnique (t ∷ tables) d u =
      merge-AreUnique tables (update (zip t.keys t.values) d)
        (update-AreUnique (zip t.keys t.values) d u)

  live-none :
      (key : ℕ) (items : Dict ℕ (Option V))
      → get ℕ_discrete key items ≡ none
      → get ℕ_discrete key (live items) ≡ none
  unfolding live get
  live-none key [] h = h
  live-none key ((k, none) ∷ items) h =
      let (other, absent) = get-cons_none key k none items h in live-none key items absent
  live-none key ((k, some v) ∷ items) h =
      let (other, absent) = get-cons_none key k (some v) items h in
      if_neg (ℕ_discrete k key) other (some (some v)) (get ℕ_discrete key (live items))
      ∙ live-none key items absent

  pub live-AreUnique : (items : Dict ℕ (Option V)) → AreUnique items → AreUnique (live items)
  unfolding live
  live-AreUnique [] u = tt
  live-AreUnique ((k, none) ∷ items) (absent, u) = live-AreUnique items u
  live-AreUnique ((k, some v) ∷ items) (absent, u) =
      (live-none k items absent, live-AreUnique items u)

  -- Dropping the tombstones shows no key differently.
  pub found-live :
      (key : ℕ) (items : Dict ℕ (Option V))
      → AreUnique items
      → found (get ℕ_discrete key (live items)) ≡ found (get ℕ_discrete key items)
  unfolding live found get
  found-live key [] u = refl
  found-live key ((k, none) ∷ items) (absent, u) =
      let ih = found-live key items u in
      let gone = live-none k items absent in ground (arith, ih, gone)
  found-live key ((k, some v) ∷ items) (absent, u) =
      let ih = found-live key items u in ground (arith, ih)
