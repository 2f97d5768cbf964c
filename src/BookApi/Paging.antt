-- ===== src/BookApi/Paging.antt =====
-- Sorted ids, cut into pages.
use learn_system_design.Prelude.{
  ℕ, zero, suc, ◌≤◌, ◌<◌, ◌≡◌, refl, true, false, none, some, List, [], ◌∷◌, take, drop, length,
  ltb, ◌==◌, if◌then◌else◌, arith, Bool-cases, inl, inr, ap, sym, ◌∙◌, ℕ_discrete, if_pos, if_neg,
}
use learn_system_design.Prelude.Dict.{Dict, get}
use learn_system_design.Prelude.Dict.Unique.{AreUnique}
use learn_system_design.BookApi.{Book, ids_above, insert, sorted, last_of}

-- The numbers strictly increase, from above this one on.
abbrev pub AreAbove : ℕ → List ℕ → Type 0
AreAbove lo [] = Unit
AreAbove lo (x ∷ xs) = (lo < x) × AreAbove x xs

abbrev pub above : ℕ → List ℕ → List ℕ
above lo [] = []
above lo (x ∷ xs) = let rest = above lo xs in if ltb lo x then x ∷ rest else rest

abbrev pub IsAbsent : ℕ → List ℕ → Type 0
IsAbsent x [] = Unit
IsAbsent x (y ∷ ys) = ((x == y) ≡ false) × IsAbsent x ys

above_lower_bound : (lo lo' : ℕ) (xs : List ℕ) → lo' ≤ lo → AreAbove lo xs → AreAbove lo' xs
above_lower_bound lo lo' [] h a = tt
above_lower_bound lo lo' (x ∷ xs) h (p, a) = (omega (arith, h, p), a)

insert-AreAbove :
    (lo x : ℕ) (xs : List ℕ) → lo < x → IsAbsent x xs → AreAbove lo xs → AreAbove lo (insert x xs)
unfolding insert
insert-AreAbove lo x [] h out a = (h, tt)
insert-AreAbove lo x (y ∷ ys) h (ne, out) (p, a) = elim (Bool-cases (ltb y x)) [
  | inl e ↦ rw e (p, insert-AreAbove y x ys (ground (arith, e)) out a)
  | inr e ↦ rw e (h, (ground (arith, e, ne), a))
]

insert-IsAbsent :
    (z x : ℕ) (xs : List ℕ) → (z == x) ≡ false → IsAbsent z xs → IsAbsent z (insert x xs)
unfolding insert
insert-IsAbsent z x [] h a = (h, tt)
insert-IsAbsent z x (y ∷ ys) h (p, a) = elim (Bool-cases (ltb y x)) [
  | inl e ↦ rw e (p, insert-IsAbsent z x ys h a)
  | inr e ↦ rw e (h, (p, a))
]

sorted-IsAbsent : (z : ℕ) (xs : List ℕ) → IsAbsent z xs → IsAbsent z (sorted xs)
unfolding sorted
sorted-IsAbsent z [] a = tt
sorted-IsAbsent z (x ∷ xs) (p, a) = insert-IsAbsent z x (sorted xs) p (sorted-IsAbsent z xs a)

above-insert :
    (lo x : ℕ) (xs : List ℕ)
    → above lo (insert x xs) ≡ (if ltb lo x then insert x (above lo xs) else above lo xs)
unfolding insert
above-insert lo x [] = refl
above-insert lo x (y ∷ ys) =
    let ih = above-insert lo x ys in
    elim (Bool-cases (ltb y x)) [
      | inl e ↦ (elim (Bool-cases (ltb lo y)) [
        | inl f ↦
            (let g : ltb lo x ≡ true = ground (arith, e, f) in
              let here : (if ltb lo x then insert x (above lo ys) else above lo ys)
                  ≡ insert x (above lo ys) =
                rw g refl in
              rw (e, f, g, e) (ap (λ (l : List ℕ). y ∷ l) (ih ∙ here)))
        | inr f ↦ rw (e, f) ih
      ])
      | inr e ↦ (elim (Bool-cases (ltb lo x)) [
        | inl f ↦ (let g : ltb lo y ≡ true = ground (arith, e, f) in rw (e, f, g, e) refl)
        | inr f ↦ rw (e, f) refl
      ])
    ]

-- The ids above a bound are the sorted ids above it, also when an earlier bound has cut them.
above-sorted : (lo : ℕ) (xs : List ℕ) → above lo (sorted xs) ≡ sorted (above lo xs)
unfolding sorted
above-sorted lo [] = refl
above-sorted lo (x ∷ xs) = elim (Bool-cases (ltb lo x)) [
  | inl e ↦
      (let here : (if ltb lo x then insert x (above lo (sorted xs)) else above lo (sorted xs))
            ≡ insert x (above lo (sorted xs)) =
          rw e refl in
        rw e (above-insert lo x (sorted xs) ∙ here ∙ ap (insert x) (above-sorted lo xs)))
  | inr e ↦
      (let here : (if ltb lo x then insert x (above lo (sorted xs)) else above lo (sorted xs))
            ≡ above lo (sorted xs) =
          rw e refl in
        rw e (above-insert lo x (sorted xs) ∙ here ∙ above-sorted lo xs))
]

above_all : (lo hi : ℕ) (xs : List ℕ) → hi ≤ lo → AreAbove lo xs → above hi xs ≡ xs
above_all lo hi [] h a = refl
above_all lo hi (x ∷ xs) h (p, a) =
    let e : ltb hi x ≡ true = ground (arith, h, p) in
    rw e (ap (λ (l : List ℕ). x ∷ l) (above_all x hi xs (omega (arith, h, p)) a))

-- A page that is full ends in the id from which the next page starts.
pub above_last :
    (n lo : ℕ) (xs : List ℕ)
    → AreAbove lo xs
    → length (take (suc n) xs) ≡ suc n
    → (l : ℕ) × (last_of (take (suc n) xs) ≡ some l) × (lo < l) × (above l xs ≡ drop (suc n) xs)
unfolding last_of
above_last n lo [] a full = ground (arith, full)
above_last zero lo (x ∷ xs) (p, a) full =
    let e : ltb x x ≡ false = ground arith in (x, refl, p, rw e (above_all x x xs (omega arith) a))
above_last (suc n) lo (x ∷ []) (p, a) full = ground (arith, full)
above_last (suc n) lo (x ∷ y ∷ xs) (p, a) full =
    let (l, e, q, r) = above_last n x (y ∷ xs) a (omega (arith, full)) in
    let f : ltb l x ≡ false = ground (arith, q) in (l, e, omega (arith, p, q), rw f r)

module _ {T : Type 0} where
  ids_above-above :
      (lo hi : ℕ) (books : Dict ℕ (Book T))
      → lo ≤ hi
      → ids_above hi books ≡ above hi (ids_above lo books)
  unfolding ids_above
  ids_above-above lo hi [] h = refl
  ids_above-above lo hi ((i, book) ∷ books) h =
      let rest = ids_above-above lo hi books h in
      elim (Bool-cases (ltb hi i)) [
        | inl e ↦
            (let f : ltb lo i ≡ true = ground (arith, e, h) in
              rw (f, e) (ap (λ (l : List ℕ). i ∷ l) rest))
        | inr e ↦ (elim (Bool-cases (ltb lo i)) [ inl f ↦ rw (f, e) rest | inr f ↦ rw (f, e) rest ])
      ]

  -- The ids above a cursor, in order.
  abbrev pub ids_from : ℕ → Dict ℕ (Book T) → List ℕ
  ids_from lo books = sorted (ids_above lo books)

  pub ids_from-above :
      (lo hi : ℕ) (books : Dict ℕ (Book T))
      → lo ≤ hi
      → ids_from hi books ≡ above hi (ids_from lo books)
  ids_from-above lo hi books h =
      ap sorted (ids_above-above lo hi books h) ∙ sym (above-sorted hi (ids_above lo books))

  ids_above-IsAbsent :
      (i lo : ℕ) (books : Dict ℕ (Book T))
      → get ℕ_discrete i books ≡ none
      → IsAbsent i (ids_above lo books)
  unfolding get ids_above
  ids_above-IsAbsent i lo [] h = tt
  ids_above-IsAbsent i lo ((j, book) ∷ books) h = elim (ℕ_discrete j i) [
    | yes same ↦
        (let found = sym (if_pos (ℕ_discrete j i) same (some book) (get ℕ_discrete i books)) ∙ h in
          ground arith)
    | no other ↦
        (let rest =
            ids_above-IsAbsent i lo books
              (sym (if_neg (ℕ_discrete j i) other (some book) (get ℕ_discrete i books)) ∙ h) in
          elim (Bool-cases (ltb lo j)) [
            | inl e ↦ rw e (ground (arith, other), rest)
            | inr e ↦ rw e rest
          ])
  ]

  pub ids_from-AreAbove :
      (lo : ℕ) (books : Dict ℕ (Book T))
      → AreUnique ℕ_discrete books
      → AreAbove lo (ids_from lo books)
  unfolding sorted ids_above
  ids_from-AreAbove lo [] u = tt
  ids_from-AreAbove lo ((i, book) ∷ books) (absent, u) = elim (Bool-cases (ltb lo i)) [
    | inl e ↦ rw e (
        insert-AreAbove lo i (ids_from lo books) (ground (arith, e))
          (sorted-IsAbsent i (ids_above lo books) (ids_above-IsAbsent i lo books absent))
          (ids_from-AreAbove lo books u))
    | inr e ↦ rw e (ids_from-AreAbove lo books u)
  ]
