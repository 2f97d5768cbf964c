-- ===== src/Eviction/Lru/Uses.antt =====
-- Lookups, and stores of keys that the cache has.
use learn_system_design.Prelude.{
  ℕ, suc, ◌+◌, ◌≡◌, refl, false, Option, none, some, List, [], ◌∷◌, ◌++◌, length, ite, if_pos,
  if_neg, arith, ap, sym, ◌∙◌, subst, length-append,
}
use learn_system_design.Prelude.Dict.{Dict, get, remove, get-remove}
use learn_system_design.Prelude.Dict.Unique.{AreUnique, remove-AreUnique}
use learn_system_design.Prelude.Distinct.{is_in, is_in-append, AreDistinct, AllBelow}
use learn_system_design.Eviction.Lru.{
  head, tail, LruCache, move_to_front, answer, lookup_at, lookup,
}
use learn_system_design.Eviction.Lru.Links.{Links, AreDistinct-middle}
use learn_system_design.Eviction.Lru.Shows.{
  addresses, entries, Held, addresses-append, Held-append, Held-split, address, Shows, split_at,
}
use learn_system_design.Eviction.Lru.Steps.{move_to_front-Shows}

distinct_cells : (xs ys : List ℕ) → AreDistinct (xs ++ ys) → AreDistinct xs
distinct_cells [] ys d = tt
distinct_cells (x ∷ xs) ys (out, d) =
    (ground (arith, out, is_in-append x xs ys), distinct_cells xs ys d)

module _ {K V : Type 0} (dec : Discrete K) where
  -- The entries after a lookup that finds this: the key comes first.
  abbrev pub used : Option V → K → Dict K V → Dict K V
  used none k e = e
  used (some v) k e = (k, v) ∷ remove dec k e

  pub entries_absent :
      (k : K) (cells : List (ℕ × K × V))
      → address dec k cells ≡ none
      → get dec k (entries cells) ≡ none
  unfolding get
  entries_absent k [] e = refl
  entries_absent k ((a, j, v) ∷ cells) e = elim (dec j k) [
    | yes same ↦
        (let wrong : some a ≡ none =
            sym (if_pos (dec j k) same (some a) (address dec k cells)) ∙ e in
          ground arith)
    | no other ↦
        if_neg (dec j k) other (some v) (get dec k (entries cells))
        ∙ entries_absent k cells (sym (if_neg (dec j k) other (some a) (address dec k cells)) ∙ e)
  ]

  -- The parts of a cache that shows a cell of a key.
  pub record Parts (c : LruCache K V) (cells : List (ℕ × K × V)) (k : K) (x : ℕ) : Type 0 where
    pub value : V
    pub xs : List (ℕ × K × V)
    pub ys : List (ℕ × K × V)
    pub whole : cells ≡ xs ++ (x, k, value) ∷ ys
    pub found : get dec k (entries cells) ≡ some value
    pub rest : entries (xs ++ ys) ≡ remove dec k (entries cells)
    pub key_held : c.key_of x ≡ some k
    pub value_held : c.value_of x ≡ some value
    pub rest_held : Held c.key_of c.value_of (xs ++ ys)
    pub apart : is_in x (addresses (xs ++ ys)) ≡ false
    pub known : (j : K) → get dec j c.nodes ≡ ite (dec k j) (some x) (address dec j (xs ++ ys))
    pub absent : get dec k (entries (xs ++ ys)) ≡ none
    pub unique : AreUnique dec (entries (xs ++ ys))
    pub size : length c.nodes ≡ suc (length (xs ++ ys))

  pub locate :
      (c : LruCache K V) (cells : List (ℕ × K × V)) (k : K) (x : ℕ)
      → Shows dec c cells
      → get dec k c.nodes ≡ some x
      → Parts c cells k x
  locate c cells k x s e =
      let at : address dec k cells ≡ some x = sym (s.known k) ∙ e in
      let (v, xs, ys, whole, found, rest, others) = split_at dec k x cells at s.unique in
      let held = subst (Held c.key_of c.value_of) whole s.held in
      let (left, right) = Held-split c.key_of c.value_of xs ((x, k, v) ∷ ys) held in
      let different = distinct_cells (addresses cells) (tail ∷ []) s.distinct.1 in
      let spread : addresses cells ≡ addresses xs ++ x ∷ addresses ys =
        ap addresses whole ∙ addresses-append xs ((x, k, v) ∷ ys) in
      let (apart, _) =
        AreDistinct-middle (addresses xs) x (addresses ys) (subst AreDistinct spread different) in
      record {
        value = v;
        xs = xs;
        ys = ys;
        whole = whole;
        found = found;
        rest = rest;
        key_held = right.0;
        value_held = right.1;
        rest_held = Held-append c.key_of c.value_of xs ys left right.2;
        apart = ap (is_in x) (addresses-append xs ys) ∙ apart;
        known = λ j. elim (dec k j) [
          | yes p ↦
              s.known j
              ∙ subst (λ i. address dec i cells ≡ some x) p at
              ∙ sym (if_pos (dec k j) p (some x) (address dec j (xs ++ ys)))
          | no p ↦
              s.known j
              ∙ sym (if_neg (dec k j) p none (address dec j cells))
              ∙ sym (others j)
              ∙ sym (if_neg (dec k j) p (some x) (address dec j (xs ++ ys)))
        ];
        absent =
            ap (get dec k) rest
            ∙ get-remove dec k k (entries cells)
            ∙ if_pos (dec k k) refl none (get dec k (entries cells));
        unique = subst (AreUnique dec) (sym rest) (remove-AreUnique dec k (entries cells) s.unique);
        size = omega (
          arith,
          s.size,
          ap length whole,
          length-append xs ((x, k, v) ∷ ys),
          length-append xs ys,
        );
      }

  -- A key that the cache has comes first, with the value that its node has by now.
  pub refreshed :
      (c : LruCache K V) (cells : List (ℕ × K × V)) (k : K) (x : ℕ) (v : V) (vf : ℕ → Option V)
      (hits : ℕ)
      → Shows dec c cells
      → (p : Parts c cells k x) → vf x ≡ some v
      → Held c.key_of vf (p.xs ++ p.ys)
      → (nx : ℕ → Option ℕ) × (pv : ℕ → Option ℕ) × (move_to_front x
            (record c { value_of = vf; hits = hits })
          ≡ some (record c { value_of = vf; hits = hits; next = nx; prev = pv }))
        × Shows dec
            (record c { value_of = vf; hits = hits; next = nx; prev = pv })
            ((x, k, v) ∷ p.xs ++ p.ys)
  refreshed c cells k x v vf hits s p value held =
      move_to_front-Shows dec (record c { value_of = vf; hits = hits }) p.xs p.ys x k p.value v
        (subst (λ t. Links c.next c.prev head (addresses t ++ tail ∷ [])) p.whole s.links)
        (subst (λ t. AreDistinct (head ∷ addresses t ++ tail ∷ [])) p.whole s.distinct)
        (subst (λ t. AllBelow c.allocated (head ∷ addresses t ++ tail ∷ [])) p.whole s.below)
        (p.key_held, value, held) p.known (p.absent, p.unique) s.nodes_unique p.size

  lookup_at-Shows :
      (at : Option ℕ) (k : K) (c : LruCache K V) (cells : List (ℕ × K × V))
      → Shows dec c cells
      → get dec k c.nodes ≡ at
      → (d : LruCache K V) × (after : List (ℕ × K × V)) × (lookup_at at c
          ≡ some (get dec k (entries cells), d))
        × Shows dec d after
        × (entries after ≡ used (get dec k (entries cells)) k (entries cells))
        × (d.capacity ≡ c.capacity)
  unfolding lookup_at answer
  lookup_at-Shows none k c cells s e =
      let gone = entries_absent k cells (sym (s.known k) ∙ e) in
      (
        record c { misses = c.misses + 1 },
        cells,
        rw gone refl,
        record {
          links = s.links;
          distinct = s.distinct;
          below = s.below;
          held = s.held;
          known = s.known;
          unique = s.unique;
          nodes_unique = s.nodes_unique;
          size = s.size;
        },
        sym (ap (λ o. used o k (entries cells)) gone),
        refl,
      )
  lookup_at-Shows (some x) k c cells s e =
      let p = locate c cells k x s e in
      let (nx, pv, moved, shows) =
        refreshed c cells k x p.value c.value_of (c.hits + 1) s p p.value_held p.rest_held in
      let d = record c { hits = c.hits + 1; next = nx; prev = pv } in
      (
        d,
        (x, k, p.value) ∷ p.xs ++ p.ys,
        ap (answer x) moved ∙ ap (λ o. some (o, d)) (p.value_held ∙ sym p.found),
        shows,
        ap (λ (t : Dict K V). (k, p.value) ∷ t) p.rest
            ∙ sym (ap (λ o. used o k (entries cells)) p.found),
        refl,
      )

  pub lookup-Shows :
      (k : K) (c : LruCache K V) (cells : List (ℕ × K × V))
      → Shows dec c cells
      → (d : LruCache K V) × (after : List (ℕ × K × V)) × (lookup dec k c
          ≡ some (get dec k (entries cells), d))
        × Shows dec d after
        × (entries after ≡ used (get dec k (entries cells)) k (entries cells))
        × (d.capacity ≡ c.capacity)
  unfolding lookup
  lookup-Shows k c cells s = lookup_at-Shows (get dec k c.nodes) k c cells s refl
