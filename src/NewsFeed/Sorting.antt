-- ===== src/NewsFeed/Sorting.antt =====
-- The largest posts of lists in which the newest post stands somewhere.
use learn_system_design.Prelude.{
  ℕ, zero, suc, ◌-◌, ◌≤◌, ◌<◌, ◌≡◌, refl, true, false, List, [], ◌∷◌, ◌++◌, ltb, take, drop, length,
  arith, Bool-cases, inl, inr, ap, ◌∙◌, length-append,
}
use learn_system_design.NewsFeed.{insert_down, sort_down, last_n}

-- All the numbers are below this one.
abbrev pub AllBelow : ℕ → List ℕ → Type 0
AllBelow p [] = Unit
AllBelow p (x ∷ xs) = (x < p) × AllBelow p xs

pub AllBelow-append :
    (p : ℕ) (xs ys : List ℕ) → AllBelow p xs → AllBelow p ys → AllBelow p (xs ++ ys)
AllBelow-append p [] ys a b = b
AllBelow-append p (x ∷ xs) ys (h, a) b = (h, AllBelow-append p xs ys a b)

pub AllBelow-take : (p n : ℕ) (xs : List ℕ) → AllBelow p xs → AllBelow p (take n xs)
AllBelow-take p zero xs a = tt
AllBelow-take p (suc n) [] a = tt
AllBelow-take p (suc n) (x ∷ xs) (h, a) = (h, AllBelow-take p n xs a)

AllBelow-drop : (p n : ℕ) (xs : List ℕ) → AllBelow p xs → AllBelow p (drop n xs)
AllBelow-drop p zero xs a = a
AllBelow-drop p (suc n) [] a = tt
AllBelow-drop p (suc n) (x ∷ xs) (h, a) = AllBelow-drop p n xs a

pub AllBelow-last_n : (p n : ℕ) (xs : List ℕ) → AllBelow p xs → AllBelow p (last_n n xs)
unfolding last_n
AllBelow-last_n p n xs a = AllBelow-drop p (length xs - n) xs a

pub AllBelow-suc : (p : ℕ) (xs : List ℕ) → AllBelow p xs → AllBelow (suc p) xs
AllBelow-suc p [] a = tt
AllBelow-suc p (x ∷ xs) (h, a) = (omega (arith, h), AllBelow-suc p xs a)

AllBelow-insert_down :
    (p x : ℕ) (xs : List ℕ) → x < p → AllBelow p xs → AllBelow p (insert_down x xs)
unfolding insert_down
AllBelow-insert_down p x [] h a = (h, tt)
AllBelow-insert_down p x (y ∷ ys) h (b, a) = elim (Bool-cases (ltb x y)) [
  | inl e ↦ rw e (b, AllBelow-insert_down p x ys h a)
  | inr e ↦ rw e (h, (b, a))
]

AllBelow-sort_down : (p : ℕ) (xs : List ℕ) → AllBelow p xs → AllBelow p (sort_down xs)
unfolding sort_down
AllBelow-sort_down p [] a = tt
AllBelow-sort_down p (x ∷ xs) (h, a) =
    AllBelow-insert_down p x (sort_down xs) h (AllBelow-sort_down p xs a)

insert_down_largest : (p : ℕ) (xs : List ℕ) → AllBelow p xs → insert_down p xs ≡ p ∷ xs
unfolding insert_down
insert_down_largest p [] a = refl
insert_down_largest p (x ∷ xs) (h, a) = let e : ltb p x ≡ false = ground (arith, h) in rw e refl

insert_down_after : (p x : ℕ) (xs : List ℕ) → x < p → insert_down x (p ∷ xs) ≡ p ∷ insert_down x xs
unfolding insert_down
insert_down_after p x xs h = let e : ltb x p ≡ true = ground (arith, h) in rw e refl

pub sort_down_largest :
    (p : ℕ) (xs ys : List ℕ)
    → AllBelow p xs
    → AllBelow p ys
    → sort_down (xs ++ p ∷ ys) ≡ p ∷ sort_down (xs ++ ys)
unfolding sort_down
sort_down_largest p [] ys a b = insert_down_largest p (sort_down ys) (AllBelow-sort_down p ys b)
sort_down_largest p (x ∷ xs) ys (h, a) b =
    ap (insert_down x) (sort_down_largest p xs ys a b)
    ∙ insert_down_after p x (sort_down (xs ++ ys)) h

drop-append : (n : ℕ) (xs ys : List ℕ) → n ≤ length xs → drop n (xs ++ ys) ≡ drop n xs ++ ys
drop-append zero xs ys h = refl
drop-append (suc n) [] ys h = ground (arith, h)
drop-append (suc n) (x ∷ xs) ys h = drop-append n xs ys (omega (arith, h))

pub last_n-append : (k p : ℕ) (xs : List ℕ) → last_n (suc k) (xs ++ p ∷ []) ≡ last_n k xs ++ p ∷ []
unfolding last_n
last_n-append k p xs =
    let e : length (xs ++ p ∷ []) - suc k ≡ length xs - k =
      omega (arith, length-append xs (p ∷ [])) in
    ap (λ n. drop n (xs ++ p ∷ [])) e ∙ drop-append (length xs - k) xs (p ∷ []) (omega arith)

pub last_n_nil : (k : ℕ) → last_n k [] ≡ []
unfolding last_n
last_n_nil k = let e : 0 - k ≡ 0 = omega arith in ap (λ n. drop n []) e

take_shorter : (n : ℕ) (xs : List ℕ) → take n (take (suc n) xs) ≡ take n xs
take_shorter zero xs = refl
take_shorter (suc n) [] = refl
take_shorter (suc n) (x ∷ xs) = ap (λ (l : List ℕ). x ∷ l) (take_shorter n xs)

pub take_twice : (n p : ℕ) (xs : List ℕ) → take n (p ∷ take n xs) ≡ take n (p ∷ xs)
take_twice zero p xs = refl
take_twice (suc n) p xs = ap (λ (l : List ℕ). p ∷ l) (take_shorter n xs)
