-- ===== src/Eviction/Lru/Stores.antt =====
-- Insertions and stores, and what they do to the entries.
use learn_system_design.Prelude.Maps.{update_here}
use learn_system_design.Prelude.Dict.Sizes.{length-put_new}
use learn_system_design.Prelude.{
  ℕ, suc, ◌+◌, ◌-◌, ◌≡◌, refl, Bool, true, false, Option, none, some, List, [], ◌∷◌, ◌++◌, length,
  leb, if◌then◌else◌, ite, arith, ap, sym, ◌∙◌,
}
use learn_system_design.Prelude.Dict.{Dict, get, put, remove, get-put}
use learn_system_design.Prelude.Dict.Unique.{put-AreUnique}
use learn_system_design.Prelude.Maps.{update}
use learn_system_design.Prelude.Distinct.{is_in, is_in-append, AreDistinct, AllBelow}
use learn_system_design.Eviction.Lru.{head, tail, LruCache, evict, insert, store_at, store}
use learn_system_design.Eviction.Lru.Links.{push_front-Links}
use learn_system_design.Eviction.Lru.Shows.{addresses, entries, Held-update, Shows}
use learn_system_design.Eviction.Lru.Uses.{entries_absent, locate, refreshed}
use learn_system_design.Eviction.Lru.Evicts.{drop_last, evict-Shows}

is_in-AllBelow : (n : ℕ) (xs : List ℕ) → AllBelow n xs → is_in n xs ≡ false
is_in-AllBelow n [] a = refl
is_in-AllBelow n (x ∷ xs) (p, a) = ground (arith, is_in-AllBelow n xs a)

AllBelow-suc : (n : ℕ) (xs : List ℕ) → AllBelow n xs → AllBelow (n + 1) xs
AllBelow-suc n [] a = tt
AllBelow-suc n (x ∷ xs) (p, a) = (omega arith, AllBelow-suc n xs a)

-- The cells are above the sentinels' links, so the address is not one of them.
is_in-cells : (a : ℕ) (xs : List ℕ) → is_in a (head ∷ xs ++ tail ∷ []) ≡ false → is_in a xs ≡ false
is_in-cells a xs out = ground (arith, out, is_in-append a xs (tail ∷ []))

AreDistinct-second :
    (h x : ℕ) (ys : List ℕ)
    → is_in x (h ∷ ys) ≡ false
    → AreDistinct (h ∷ ys)
    → AreDistinct (h ∷ x ∷ ys)
AreDistinct-second h x ys new (out, d) = (ground (arith, new, out), (ground (arith, new), d))

module _ {K V : Type 0} (dec : Discrete K) where
  -- The entries after a store of a key that has this value before, in a cache of this capacity.
  abbrev pub stored : Option V → ℕ → K → V → Dict K V → Dict K V
  stored (some old) capacity k v e = (k, v) ∷ remove dec k e
  stored none capacity k v e = (k, v) ∷ (if leb capacity (length e) then drop_last e else e)

  pub insert-Shows :
      (k : K) (v : V) (c : LruCache K V) (cells : List (ℕ × K × V))
      → Shows dec c cells
      → get dec k c.nodes ≡ none
      → (d : LruCache K V) × (insert dec k v (some c) ≡ some d)
        × Shows dec d ((c.allocated, k, v) ∷ cells)
        × (d.capacity ≡ c.capacity)
  unfolding insert
  insert-Shows k v c cells s absent =
      let x = c.allocated in
      let fresh = is_in-AllBelow x (head ∷ addresses cells ++ tail ∷ []) s.below in
      let c1 = record c {
        key_of = update c.key_of x (some k);
        value_of = update c.value_of x (some v);
        nodes = put dec k x c.nodes;
        allocated = x + 1;
      } in
      let (nx, pv, pushed, l) = push_front-Links c1 (addresses cells) x s.links s.distinct fresh in
      (
        record c1 { next = nx; prev = pv },
        pushed,
        record {
          links = l;
          distinct = AreDistinct-second head x (addresses cells ++ tail ∷ []) fresh s.distinct;
          below = (
            omega (arith, s.below.0),
            (omega arith, AllBelow-suc x (addresses cells ++ tail ∷ []) s.below.1),
          );
          held = (
            update_here c.key_of x (some k),
            update_here c.value_of x (some v),
            (Held-update c.key_of c.value_of x (some k) (some v) cells
                (is_in-cells x (addresses cells) fresh) s.held).0,
          );
          known = λ j. get-put dec k j x c.nodes ∙ ap (ite (dec k j) (some x)) (s.known j);
          unique = (entries_absent dec k cells (sym (s.known k) ∙ absent), s.unique);
          nodes_unique = put-AreUnique dec k x c.nodes s.nodes_unique;
          size = length-put_new dec k x c.nodes absent ∙ ap suc s.size;
        },
        refl,
      )

  length-entries : (cells : List (ℕ × K × V)) → length (entries cells) ≡ length cells
  length-entries [] = refl
  length-entries ((a, k, v) ∷ cells) = ap suc (length-entries cells)

  room-Shows :
      (full : Bool) (n : ℕ) (new : K) (c : LruCache K V) (cells : List (ℕ × K × V))
      → Shows dec c cells
      → c.capacity ≡ suc n
      → leb c.capacity (length c.nodes) ≡ full
      → get dec new c.nodes ≡ none
      → (d : LruCache K V) × (after : List (ℕ × K × V)) × ((if full
            then evict dec (c.prev tail) c
            else some c)
          ≡ some d)
        × Shows dec d after
        × (entries after ≡ (if full then drop_last (entries cells) else entries cells))
        × (d.capacity ≡ c.capacity)
        × (get dec new d.nodes ≡ none)
  room-Shows false n new c cells s cap e absent = (c, cells, refl, s, refl, refl, absent)
  room-Shows true n new c cells s cap e absent =
      let one : length c.nodes ≡ suc (length c.nodes - 1) = ground (arith, cap, e) in
      evict-Shows dec (length c.nodes - 1) c cells new s (sym s.size ∙ one) absent

  store_at-Shows :
      (at : Option ℕ) (n : ℕ) (k : K) (v : V) (c : LruCache K V) (cells : List (ℕ × K × V))
      → Shows dec c cells
      → c.capacity ≡ suc n
      → get dec k c.nodes ≡ at
      → (d : LruCache K V) × (after : List (ℕ × K × V)) × (store_at dec at k v c ≡ some d)
        × Shows dec d after
        × (entries after ≡ stored (get dec k (entries cells)) (suc n) k v (entries cells))
        × (d.capacity ≡ c.capacity)
  unfolding store_at
  store_at-Shows none n k v c cells s cap e =
      let full = leb c.capacity (length c.nodes) in
      let (c1, left, made, shows, room, same, absent) = room-Shows full n k c cells s cap refl e in
      let (d, inserted, after, kept) = insert-Shows k v c1 left shows absent in
      let known : get dec k (entries cells) ≡ none =
        entries_absent dec k cells (sym (s.known k) ∙ e) in
      let test : full ≡ leb (suc n) (length (entries cells)) =
        ap (λ m. leb m (length c.nodes)) cap
        ∙ ap (leb (suc n)) (s.size ∙ sym (length-entries cells)) in
      (
        d,
        (c1.allocated, k, v) ∷ left,
        ap (insert dec k v) made ∙ inserted,
        after,
        ap (λ (t : Dict K V). (k, v) ∷ t)
              (room
                ∙ ap (λ (b : Bool). if b then drop_last (entries cells) else entries cells) test)
            ∙ sym (ap (λ o. stored o (suc n) k v (entries cells)) known),
        kept ∙ same,
      )
  store_at-Shows (some x) n k v c cells s cap e =
      let p = locate dec c cells k x s e in
      let vf = update c.value_of x (some v) in
      let (nx, pv, moved, shows) =
        refreshed dec c cells k x v vf c.hits s p (update_here c.value_of x (some v))
          (Held-update c.key_of c.value_of x (some k) (some v) (p.xs ++ p.ys) p.apart
            p.rest_held).1 in
      (
        record c { value_of = vf; next = nx; prev = pv },
        (x, k, v) ∷ p.xs ++ p.ys,
        moved,
        shows,
        ap (λ (t : Dict K V). (k, v) ∷ t) p.rest
            ∙ sym (ap (λ o. stored o (suc n) k v (entries cells)) p.found),
        refl,
      )

  pub store-Shows :
      (n : ℕ) (k : K) (v : V) (c : LruCache K V) (cells : List (ℕ × K × V))
      → Shows dec c cells
      → c.capacity ≡ suc n
      → (d : LruCache K V) × (after : List (ℕ × K × V)) × (store dec k v c ≡ some d)
        × Shows dec d after
        × (entries after ≡ stored (get dec k (entries cells)) (suc n) k v (entries cells))
        × (d.capacity ≡ c.capacity)
  unfolding store
  store-Shows n k v c cells s cap = store_at-Shows (get dec k c.nodes) n k v c cells s cap refl
