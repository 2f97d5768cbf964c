-- ===== src/Eviction/Lru/Shows.antt =====
-- What a cache's nodes stand for: addresses, keys and values, from the most recent on.
use learn_system_design.Prelude.Maps.{update_there}
use learn_system_design.Prelude.Dict.Sizes.{remove_absent}
use learn_system_design.Prelude.{
  ℕ, ◌≡◌, refl, false, Option, none, some, List, [], ◌∷◌, ◌++◌, length, ◌==◌, ite, if_pos, if_neg,
  arith, ap, sym, ◌∙◌, subst,
}
use learn_system_design.Prelude.Dict.{Dict, get, remove}
use learn_system_design.Prelude.Dict.Unique.{AreUnique}
use learn_system_design.Prelude.Maps.{update}
use learn_system_design.Prelude.Distinct.{is_in, AreDistinct, AllBelow}
use learn_system_design.Eviction.Lru.{head, tail, LruCache}
use learn_system_design.Eviction.Lru.Links.{Links}

module _ {K V : Type 0} where
  abbrev pub addresses : List (ℕ × K × V) → List ℕ
  addresses [] = []
  addresses ((a, k, v) ∷ cells) = a ∷ addresses cells

  abbrev pub entries : List (ℕ × K × V) → Dict K V
  entries [] = []
  entries ((a, k, v) ∷ cells) = (k, v) ∷ entries cells

  -- The nodes at the addresses have the keys and the values.
  abbrev pub Held : (ℕ → Option K) → (ℕ → Option V) → List (ℕ × K × V) → Type 0
  Held key_of value_of [] = Unit
  Held key_of value_of ((a, k, v) ∷ cells) =
      (key_of a ≡ some k) × (value_of a ≡ some v) × Held key_of value_of cells

  pub addresses-append :
      (xs ys : List (ℕ × K × V)) → addresses (xs ++ ys) ≡ addresses xs ++ addresses ys
  addresses-append [] ys = refl
  addresses-append ((a, k, v) ∷ xs) ys = ap (λ (l : List ℕ). a ∷ l) (addresses-append xs ys)

  pub entries-append : (xs ys : List (ℕ × K × V)) → entries (xs ++ ys) ≡ entries xs ++ entries ys
  entries-append [] ys = refl
  entries-append ((a, k, v) ∷ xs) ys = ap (λ (l : Dict K V). (k, v) ∷ l) (entries-append xs ys)

  pub Held-append :
      (kf : ℕ → Option K) (vf : ℕ → Option V) (xs ys : List (ℕ × K × V))
      → Held kf vf xs
      → Held kf vf ys
      → Held kf vf (xs ++ ys)
  Held-append kf vf [] ys h g = g
  Held-append kf vf ((a, k, v) ∷ xs) ys (p, q, h) g = (p, q, Held-append kf vf xs ys h g)

  pub Held-split :
      (kf : ℕ → Option K) (vf : ℕ → Option V) (xs ys : List (ℕ × K × V))
      → Held kf vf (xs ++ ys)
      → Held kf vf xs × Held kf vf ys
  Held-split kf vf [] ys h = (tt, h)
  Held-split kf vf ((a, k, v) ∷ xs) ys (p, q, h) =
      let (l, r) = Held-split kf vf xs ys h in ((p, q, l), r)

  pub Held-update :
      (kf : ℕ → Option K) (vf : ℕ → Option V) (x : ℕ) (k : Option K) (v : Option V)
      (cells : List (ℕ × K × V))
      → is_in x (addresses cells) ≡ false
      → Held kf vf cells
      → Held (update kf x k) (update vf x v) cells × Held kf (update vf x v) cells
  Held-update kf vf x k v [] out h = (tt, tt)
  Held-update kf vf x k v ((a, j, w) ∷ cells) out (p, q, h) =
      let (l, r) = Held-update kf vf x k v cells (ground (arith, out)) h in
      let other : (x == a) ≡ false = ground (arith, out) in
      (
        (update_there kf x k a other ∙ p, update_there vf x v a other ∙ q, l),
        (p, update_there vf x v a other ∙ q, r),
      )

module _ {K V : Type 0} (dec : Discrete K) where
  -- The first address of a key.
  abbrev pub address : K → List (ℕ × K × V) → Option ℕ
  address k [] = none
  address k ((a, j, v) ∷ cells) = ite (dec j k) (some a) (address k cells)

  pub record Shows (c : LruCache K V) (cells : List (ℕ × K × V)) : Type 0 where
    pub links : Links c.next c.prev head (addresses cells ++ tail ∷ [])
    pub distinct : AreDistinct (head ∷ addresses cells ++ tail ∷ [])
    pub below : AllBelow c.allocated (head ∷ addresses cells ++ tail ∷ [])
    pub held : Held c.key_of c.value_of cells
    pub known : (k : K) → get dec k c.nodes ≡ address k cells
    pub unique : AreUnique dec (entries cells)
    pub nodes_unique : AreUnique dec c.nodes
    pub size : length c.nodes ≡ length cells

  pub address_absent :
      (k : K) (cells : List (ℕ × K × V)) → get dec k (entries cells) ≡ none → address k cells ≡ none
  unfolding get
  address_absent k [] e = refl
  address_absent k ((a, j, v) ∷ cells) e = elim (dec j k) [
    | yes same ↦
        (let wrong : some v ≡ none =
            sym (if_pos (dec j k) same (some v) (get dec k (entries cells))) ∙ e in
          ground arith)
    | no other ↦
        if_neg (dec j k) other (some a) (address k cells)
        ∙ address_absent k cells
            (sym (if_neg (dec j k) other (some v) (get dec k (entries cells))) ∙ e)
  ]

  -- A known key splits the cells where it stands, and without it they are the entries without the key.
  pub split_at :
      (k : K) (x : ℕ) (cells : List (ℕ × K × V))
      → address k cells ≡ some x
      → AreUnique dec (entries cells)
      → (v : V) × (xs : List (ℕ × K × V)) × (ys : List (ℕ × K × V)) × (cells ≡ xs ++ (x, k, v) ∷ ys)
        × (get dec k (entries cells) ≡ some v)
        × (entries (xs ++ ys) ≡ remove dec k (entries cells))
        × ((j : K) → address j (xs ++ ys) ≡ ite (dec k j) none (address j cells))
  unfolding get remove
  split_at k x [] e u = ground arith
  split_at k x ((a, j, w) ∷ cells) e (absent, u) = elim (dec j k) [
    | yes same ↦
        (let found : some a ≡ some x = sym (if_pos (dec j k) same (some a) (address k cells)) ∙ e in
          let here : a ≡ x = ground arith in
          let gone : get dec k (entries cells) ≡ none =
            subst (λ i. get dec i (entries cells) ≡ none) same absent in
          (
            w,
            [],
            cells,
            ap (λ b. (b, j, w) ∷ cells) here ∙ ap (λ i. (x, i, w) ∷ cells) same,
            if_pos (dec j k) same (some w) (get dec k (entries cells)),
            sym (
                if_pos (dec j k) same (remove dec k (entries cells))
                  ((j, w) ∷ remove dec k (entries cells))
                ∙ remove_absent dec k (entries cells) gone),
            λ i. elim (dec k i) [
              | yes p ↦
                  address_absent i cells (subst (λ l. get dec l (entries cells) ≡ none) p gone)
                  ∙ sym (if_pos (dec k i) p none (ite (dec j i) (some a) (address i cells)))
              | no p ↦ sym (
                  if_neg (dec k i) p none (ite (dec j i) (some a) (address i cells))
                  ∙ if_neg (dec j i) (λ q. p (sym same ∙ q)) (some a) (address i cells))
            ],
          ))
    | no other ↦
        (let (v, xs, ys, whole, found, rest, others) =
            split_at k x cells (sym (if_neg (dec j k) other (some a) (address k cells)) ∙ e) u in
          (
            v,
            (a, j, w) ∷ xs,
            ys,
            ap (λ (l : List (ℕ × K × V)). (a, j, w) ∷ l) whole,
            if_neg (dec j k) other (some w) (get dec k (entries cells)) ∙ found,
            ap (λ (l : Dict K V). (j, w) ∷ l) rest
                ∙ sym (
                    if_neg (dec j k) other (remove dec k (entries cells))
                      ((j, w) ∷ remove dec k (entries cells))),
            λ i. elim (dec j i) [
              | yes p ↦
                  if_pos (dec j i) p (some a) (address i (xs ++ ys))
                  ∙ sym (
                      if_neg (dec k i) (λ q. other (p ∙ sym q)) none
                        (ite (dec j i) (some a) (address i cells))
                      ∙ if_pos (dec j i) p (some a) (address i cells))
              | no p ↦
                  if_neg (dec j i) p (some a) (address i (xs ++ ys))
                  ∙ others i
                  ∙ ap (ite (dec k i) none) (sym (if_neg (dec j i) p (some a) (address i cells)))
            ],
          ))
  ]
