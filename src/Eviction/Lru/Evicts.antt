-- ===== src/Eviction/Lru/Evicts.antt =====
-- Evictions, insertions, and stores.
use learn_system_design.Prelude.Dict.Sizes.{length-remove}
use learn_system_design.Prelude.{
  ℕ, zero, suc, ◌≡◌, ◌≢◌, refl, none, some, List, [], ◌∷◌, ◌++◌, length, ite, if_pos, if_neg, arith,
  ap, sym, ◌∙◌, subst, length-append,
}
use learn_system_design.Prelude.Dict.{get, remove, get-remove}
use learn_system_design.Prelude.Dict.Unique.{AreUnique, remove-AreUnique}
use learn_system_design.Prelude.Distinct.{AreDistinct, AllBelow}
use learn_system_design.Eviction.Lru.{
  head, tail, LruCache, delete_found, delete, then_delete, evict,
}
use learn_system_design.Eviction.Lru.Links.{Links, AreDistinct-middle, unlink-Links, prev-tail}
use learn_system_design.Eviction.Lru.Shows.{
  addresses, entries, Held, entries-append, Held-split, address, Shows, address_absent,
}
use learn_system_design.Eviction.Lru.Steps.{around, AllBelow-middle}

module _ {A : Type 0} where
  abbrev pub drop_last : List A → List A
  drop_last [] = []
  drop_last (x ∷ []) = []
  drop_last (x ∷ y ∷ l) = x ∷ drop_last (y ∷ l)

  last_split :
      (n : ℕ) (l : List A) → length l ≡ suc n → (x : A) × (xs : List A) × (l ≡ xs ++ x ∷ [])
  last_split n [] h = ground (arith, h)
  last_split n (x ∷ []) h = (x, [], refl)
  last_split zero (x ∷ y ∷ l) h = ground (arith, h)
  last_split (suc n) (x ∷ y ∷ l) h =
      let (z, zs, e) = last_split n (y ∷ l) (omega (arith, h)) in
      (z, x ∷ zs, ap (λ (t : List A). x ∷ t) e)

  drop_last-append : (xs : List A) (x : A) → drop_last (xs ++ x ∷ []) ≡ xs
  drop_last-append [] x = refl
  drop_last-append (y ∷ []) x = refl
  drop_last-append (y ∷ z ∷ l) x = ap (λ (t : List A). y ∷ t) (drop_last-append (z ∷ l) x)

module _ {K V : Type 0} (dec : Discrete K) where
  get_prefix :
      (j : K) (xs ys : List (ℕ × K × V))
      → get dec j (entries (xs ++ ys)) ≡ none
      → get dec j (entries xs) ≡ none
  unfolding get
  get_prefix j [] ys e = refl
  get_prefix j ((a, i, w) ∷ xs) ys e = elim (dec i j) [
    | yes same ↦
        (let wrong : some w ≡ none =
            sym (if_pos (dec i j) same (some w) (get dec j (entries (xs ++ ys)))) ∙ e in
          ground arith)
    | no other ↦
        if_neg (dec i j) other (some w) (get dec j (entries xs))
        ∙ get_prefix j xs ys
            (sym (if_neg (dec i j) other (some w) (get dec j (entries (xs ++ ys)))) ∙ e)
  ]

  -- The key of the last cell is there, and nowhere before.
  last_cell :
      (xs : List (ℕ × K × V)) (x : ℕ) (k : K) (v : V)
      → AreUnique dec (entries (xs ++ (x, k, v) ∷ []))
      → (address dec k (xs ++ (x, k, v) ∷ []) ≡ some x)
        × ((j : K) → address dec j xs ≡ ite (dec k j) none (address dec j (xs ++ (x, k, v) ∷ [])))
        × AreUnique dec (entries xs)
  last_cell [] x k v u = (
    if_pos (dec k k) refl (some x) none,
    λ j. elim (dec k j) [
      | yes p ↦ sym (if_pos (dec k j) p none (ite (dec k j) (some x) none))
      | no p ↦
          sym (
            if_neg (dec k j) p none (ite (dec k j) (some x) none)
            ∙ if_neg (dec k j) p (some x) none)
    ],
    tt,
  )
  last_cell ((a, i, w) ∷ xs) x k v (absent, u) =
      let all = xs ++ (x, k, v) ∷ [] in
      let (here, others, unique) = last_cell xs x k v u in
      let ne : i ≢ k = λ e.
        let gone : address dec k all ≡ none =
          address_absent dec k all (subst (λ l. get dec l (entries all) ≡ none) e absent) in
        let wrong : some x ≡ none = sym here ∙ gone in ground arith in
      (
        if_neg (dec i k) ne (some a) (address dec k all) ∙ here,
        λ j. elim (dec i j) [
          | yes p ↦
              if_pos (dec i j) p (some a) (address dec j xs)
              ∙ sym (
                  if_neg (dec k j) (λ q. ne (p ∙ sym q)) none
                    (ite (dec i j) (some a) (address dec j all))
                  ∙ if_pos (dec i j) p (some a) (address dec j all))
          | no p ↦
              if_neg (dec i j) p (some a) (address dec j xs)
              ∙ others j
              ∙ ap (ite (dec k j) none) (sym (if_neg (dec i j) p (some a) (address dec j all)))
        ],
        (get_prefix i xs ((x, k, v) ∷ []) absent, unique),
      )

  pub evict-Shows :
      (n : ℕ) (c : LruCache K V) (cells : List (ℕ × K × V)) (new : K)
      → Shows dec c cells
      → length cells ≡ suc n
      → get dec new c.nodes ≡ none
      → (d : LruCache K V) × (after : List (ℕ × K × V)) × (evict dec (c.prev tail) c ≡ some d)
        × Shows dec d after
        × (entries after ≡ drop_last (entries cells))
        × (d.capacity ≡ c.capacity)
        × (get dec new d.nodes ≡ none)
  unfolding evict then_delete delete delete_found
  evict-Shows n c cells new s h absent =
      let ((x, k, v), xs, whole) = last_split n cells h in
      let (here, others, unique) =
        last_cell xs x k v (subst (λ t. AreUnique dec (entries t)) whole s.unique) in
      let before = around dec xs [] x k v in
      let l =
        subst (λ t. Links c.next c.prev head t) before
          (subst (λ t. Links c.next c.prev head (addresses t ++ tail ∷ [])) whole s.links) in
      let d =
        subst (λ t. AreDistinct (head ∷ t)) before
          (subst (λ t. AreDistinct (head ∷ addresses t ++ tail ∷ [])) whole s.distinct) in
      let b =
        subst (λ t. AllBelow c.allocated (head ∷ t)) before
          (subst (λ t. AllBelow c.allocated (head ∷ addresses t ++ tail ∷ [])) whole s.below) in
      let held = subst (Held c.key_of c.value_of) whole s.held in
      let (left, right) = Held-split c.key_of c.value_of xs ((x, k, v) ∷ []) held in
      let (nx, pv, unlinked, l2) = unlink-Links c (addresses xs) [] x l d in
      let c1 = record c { next = nx; prev = pv } in
      let found : get dec k c.nodes ≡ some x = s.known k ∙ ap (address dec k) whole ∙ here in
      let done = record c1 { nodes = remove dec k c.nodes } in
      (
        done,
        xs,
        rw (prev-tail c (addresses xs) head x l, unlinked, right.0, found) refl,
        record {
          links = l2;
          distinct = (AreDistinct-middle (head ∷ addresses xs) x (tail ∷ []) d).1;
          below = (b.0, (AllBelow-middle c.allocated (addresses xs) x (tail ∷ []) b.1).1);
          held = left;
          known = λ j.
              get-remove dec k j c.nodes
              ∙ ap (ite (dec k j) none) (s.known j ∙ ap (address dec j) whole)
              ∙ sym (others j);
          unique = unique;
          nodes_unique = remove-AreUnique dec k c.nodes s.nodes_unique;
          size = omega (
            arith,
            s.size,
            length-remove dec k c.nodes x s.nodes_unique found,
            ap length whole,
            length-append xs ((x, k, v) ∷ []),
          );
        },
        sym (
            ap (λ t. drop_last (entries t)) whole
            ∙ ap drop_last (entries-append xs ((x, k, v) ∷ []))
            ∙ drop_last-append (entries xs) (k, v)),
        refl,
        get-remove dec k new c.nodes ∙ ap (ite (dec k new) none) absent ∙ elim (dec k new) [
          | yes p ↦ if_pos (dec k new) p none none
          | no p ↦ if_neg (dec k new) p none none
        ],
      )
