-- ===== src/Prelude/Distinct.antt =====
-- Lists of different numbers: two that together are longer than the numbers below a bound have one in common.
use learn_system_design.Prelude.{
  ℕ, zero, suc, ◌+◌, ◌≤◌, ◌<◌, ◌≡◌, ◌≢◌, refl, Bool, true, false, ◌||◌, List, [], ◌∷◌, ◌++◌, ◌==◌,
  length, get_or, take, arith, Bool-cases, inl, inr, ◌⊎◌, sym, subst, length-append, leb,
}
use learn_system_design.Prelude.Pigeonhole.{pigeonhole}

abbrev pub is_in : ℕ → List ℕ → Bool
is_in x [] = false
is_in x (y ∷ ys) = let rest = is_in x ys in x == y || rest

-- No number occurs twice.
abbrev pub AreDistinct : List ℕ → Type 0
AreDistinct [] = Unit
AreDistinct (x ∷ xs) = (is_in x xs ≡ false) × AreDistinct xs

abbrev pub AllBelow : ℕ → List ℕ → Type 0
AllBelow n [] = Unit
AllBelow n (x ∷ xs) = (x < n) × AllBelow n xs

is_in-get_or : (xs : List ℕ) (i : ℕ) → i < length xs → is_in (get_or xs i 0) xs ≡ true
is_in-get_or [] i h = ground (arith, h)
is_in-get_or (x ∷ xs) zero h = ground arith
is_in-get_or (x ∷ xs) (suc i) h =
    let rest = is_in-get_or xs i (omega (arith, h)) in ground (arith, rest)

get_or-AllBelow : (n : ℕ) (xs : List ℕ) (i : ℕ) → i < length xs → AllBelow n xs → get_or xs i 0 < n
get_or-AllBelow n [] i h a = ground (arith, h)
get_or-AllBelow n (x ∷ xs) zero h (p, a) = p
get_or-AllBelow n (x ∷ xs) (suc i) h (p, a) = get_or-AllBelow n xs i (omega (arith, h)) a

get_or-AreDistinct :
    (xs : List ℕ) (i j : ℕ) → i < j → j < length xs → AreDistinct xs → get_or xs i 0 ≢ get_or xs j 0
get_or-AreDistinct [] i j p h d e = ground (arith, h)
get_or-AreDistinct (x ∷ xs) i zero p h d e = ground (arith, p)
get_or-AreDistinct (x ∷ xs) zero (suc j) p h (out, d) e =
    let found = is_in-get_or xs j (omega (arith, h)) in
    let wrong : is_in x xs ≡ true = subst (λ y. is_in y xs ≡ true) (sym e) found in ground arith
get_or-AreDistinct (x ∷ xs) (suc i) (suc j) p h (out, d) e =
    get_or-AreDistinct xs i j (omega (arith, p)) (omega (arith, h)) d e

pub length-AreDistinct : (n : ℕ) (xs : List ℕ) → AreDistinct xs → AllBelow n xs → length xs ≤ n
length-AreDistinct n xs d a = elim (Bool-cases (leb (length xs) n)) [
  | inl e ↦ ground (arith, e)
  | inr e ↦
      (let more : n < length xs = ground (arith, e) in
        let (i, j, p, q, same) =
          pigeonhole n (λ i. get_or xs i 0)
            (λ i h. get_or-AllBelow n xs i (omega (arith, h, more)) a) in
        absurd (get_or-AreDistinct xs i j p (omega (arith, q, more)) d same))
]

pub is_in-append : (x : ℕ) (xs ys : List ℕ) → is_in x (xs ++ ys) ≡ (is_in x xs || is_in x ys)
is_in-append x [] ys = refl
is_in-append x (y ∷ xs) ys = ground (arith, is_in-append x xs ys)

AllBelow-append : (n : ℕ) (xs ys : List ℕ) → AllBelow n xs → AllBelow n ys → AllBelow n (xs ++ ys)
AllBelow-append n [] ys a b = b
AllBelow-append n (x ∷ xs) ys (p, a) b = (p, AllBelow-append n xs ys a b)

common_or_distinct :
    (xs ys : List ℕ)
    → AreDistinct xs
    → AreDistinct ys
    → ((i : ℕ) × (is_in i xs ≡ true) × (is_in i ys ≡ true)) ⊎ AreDistinct (xs ++ ys)
common_or_distinct [] ys d e = inr e
common_or_distinct (x ∷ xs) ys (out, d) e = elim (Bool-cases (is_in x ys)) [
  | inl i ↦ inl (x, ground arith, i)
  | inr i ↦ (elim (common_or_distinct xs ys d e) [
    | inl (j, p, q) ↦ inl (j, ground (arith, p), q)
    | inr f ↦ inr (ground (arith, is_in-append x xs ys, out, i), f)
  ])
]

pub overlap :
    (n : ℕ) (xs ys : List ℕ)
    → AreDistinct xs
    → AreDistinct ys
    → AllBelow n xs
    → AllBelow n ys
    → n < length xs + length ys
    → (i : ℕ) × (is_in i xs ≡ true) × (is_in i ys ≡ true)
overlap n xs ys d e a b h = elim (common_or_distinct xs ys d e) [
  | inl common ↦ common
  | inr f ↦ absurd (
      omega (
        arith,
        length-AreDistinct n (xs ++ ys) f (AllBelow-append n xs ys a b),
        length-append xs ys,
        h,
      ))
]

-- The start of such a list is such a list.
pub take-AreDistinct :
    (m n : ℕ) (xs : List ℕ)
    → AreDistinct xs
    → AllBelow n xs
    → AreDistinct (take m xs) × AllBelow n (take m xs)
take-AreDistinct zero n xs d a = (tt, tt)
take-AreDistinct (suc m) n [] d a = (tt, tt)
take-AreDistinct (suc m) n (x ∷ xs) (out, d) (p, a) =
    let (e, b) = take-AreDistinct m n xs d a in ((not_taken m x xs out, e), (p, b))
  where
    not_taken : (m x : ℕ) (xs : List ℕ) → is_in x xs ≡ false → is_in x (take m xs) ≡ false
    not_taken zero x xs h = refl
    not_taken (suc m) x [] h = refl
    not_taken (suc m) x (y ∷ ys) h =
        let rest = not_taken m x ys (ground (arith, h)) in ground (arith, h, rest)
