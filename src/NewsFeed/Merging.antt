-- ===== src/NewsFeed/Merging.antt =====
-- The newest posts, merged from a feed and from lists of authors' posts.
use learn_system_design.Prelude.{
  ℕ, suc, ◌≡◌, refl, Bool, true, false, List, [], ◌∷◌, ◌++◌, ◌==◌, if◌then◌else◌, length, arith,
  Bool-cases, inl, inr, ap, sym, ◌∙◌, subst, append_assoc,
}
use learn_system_design.Prelude.Maps.{update}
use learn_system_design.NewsFeed.{is_in, last_n}
use learn_system_design.NewsFeed.Network.{AreDistinct}
use learn_system_design.NewsFeed.Sorting.{
  AllBelow, AllBelow-append, AllBelow-last_n, AllBelow-suc, last_n-append, last_n_nil,
}

-- A history is the list of the posts' authors, the newest first; its newest post's id is its length. These are
-- the posts by authors of a kind, the newest first.
abbrev pub posts_by : (ℕ → Bool) → List ℕ → List ℕ
posts_by kind [] = []
posts_by kind (a ∷ h) = let rest = posts_by kind h in if kind a then suc (length h) ∷ rest else rest

-- An author's posts, the newest last.
abbrev pub posts_of : ℕ → List ℕ → List ℕ
posts_of a [] = []
posts_of a (b ∷ h) = let rest = posts_of a h in if b == a then rest ++ suc (length h) ∷ [] else rest

-- The last posts of some authors, so many of each.
abbrev pub pulled : (ℕ → ℕ) → List ℕ → List ℕ → List ℕ
pulled k h [] = []
pulled k h (a ∷ authors) = last_n (k a) (posts_of a h) ++ pulled k h authors

pub posts_by-AllBelow : (kind : ℕ → Bool) (h : List ℕ) → AllBelow (suc (length h)) (posts_by kind h)
posts_by-AllBelow kind [] = tt
posts_by-AllBelow kind (a ∷ h) =
    let rest = AllBelow-suc (suc (length h)) (posts_by kind h) (posts_by-AllBelow kind h) in
    elim (Bool-cases (kind a)) [ inl e ↦ rw e (omega arith, rest) | inr e ↦ rw e rest ]

posts_of-AllBelow : (a : ℕ) (h : List ℕ) → AllBelow (suc (length h)) (posts_of a h)
posts_of-AllBelow a [] = tt
posts_of-AllBelow a (b ∷ h) =
    let rest = AllBelow-suc (suc (length h)) (posts_of a h) (posts_of-AllBelow a h) in
    elim (Bool-cases (b == a)) [
      | inl e ↦ rw e (
          AllBelow-append (suc (suc (length h))) (posts_of a h) (suc (length h) ∷ []) rest
            (omega arith, tt))
      | inr e ↦ rw e rest
    ]

pub pulled-AllBelow :
    (k : ℕ → ℕ) (h authors : List ℕ) → AllBelow (suc (length h)) (pulled k h authors)
pulled-AllBelow k h [] = tt
pulled-AllBelow k h (a ∷ authors) =
    AllBelow-append (suc (length h)) (last_n (k a) (posts_of a h)) (pulled k h authors)
      (AllBelow-last_n (suc (length h)) (k a) (posts_of a h) (posts_of-AllBelow a h))
      (pulled-AllBelow k h authors)

pub pulled_nil : (k : ℕ → ℕ) (authors : List ℕ) → pulled k [] authors ≡ []
pulled_nil k [] = refl
pulled_nil k (a ∷ authors) =
    ap (λ (l : List ℕ). l ++ pulled k [] authors) (last_n_nil (k a)) ∙ pulled_nil k authors

-- A post by none of the authors changes nothing, and neither do their bounds.
pub pulled_other :
    (k : ℕ → ℕ) (b m : ℕ) (h authors : List ℕ)
    → is_in b authors ≡ false
    → (pulled k (b ∷ h) authors ≡ pulled k h authors)
      × (pulled (update k b m) h authors ≡ pulled k h authors)
unfolding is_in update
pulled_other k b m h [] out = (refl, refl)
pulled_other k b m h (a ∷ authors) out =
    let other : (b == a) ≡ false = ground (arith, out) in
    let (x, y) = pulled_other k b m h authors (ground (arith, out)) in
    rw other (
      ap (λ (l : List ℕ). last_n (k a) (posts_of a h) ++ l) x,
      ap (λ (l : List ℕ). last_n (k a) (posts_of a h) ++ l) y,
    )

-- A post by one of the authors stands among what is pulled, and the rest is what is pulled without it.
pub pulled_new :
    (k : ℕ → ℕ) (b m : ℕ) (h authors : List ℕ)
    → k b ≡ suc m
    → AreDistinct authors
    → is_in b authors ≡ true
    → (l : List ℕ) × (r : List ℕ) × (pulled k (b ∷ h) authors ≡ l ++ suc (length h) ∷ r)
      × (pulled (update k b m) h authors ≡ l ++ r)
unfolding is_in
pulled_new k b m h [] e d i = ground arith
pulled_new k b m h (a ∷ authors) e (out, d) i = elim (Bool-cases (b == a)) [
  | inl here ↦
      (let same : b ≡ a = ground arith in
        let (x, y) =
          pulled_other k b m h authors (subst (λ c. is_in c authors ≡ false) (sym same) out) in
        let old = last_n m (posts_of a h) in
        let bound : k a ≡ suc m = subst (λ c. k c ≡ suc m) same e in
        let less : update k b m a ≡ m = unfold update in rw here refl in
        (
          old,
          pulled k h authors,
          rw (here, bound)
              (ap (λ (l : List ℕ). l ++ pulled k (b ∷ h) authors)
                  (last_n-append m (suc (length h)) (posts_of a h))
                ∙ append_assoc old (suc (length h) ∷ []) (pulled k (b ∷ h) authors)
                ∙ ap (λ (l : List ℕ). old ++ suc (length h) ∷ l) x),
          ap (λ n. last_n n (posts_of a h) ++ pulled (update k b m) h authors) less
              ∙ ap (λ (l : List ℕ). old ++ l) y,
        ))
  | inr there ↦
      (let (l, r, x, y) = pulled_new k b m h authors e d (ground (arith, i, there)) in
        let first = last_n (k a) (posts_of a h) in
        let same : update k b m a ≡ k a = unfold update in rw there refl in
        (
          first ++ l,
          r,
          rw there
              (ap (λ (t : List ℕ). first ++ t) x ∙ sym (append_assoc first l (suc (length h) ∷ r))),
          ap (λ n. last_n n (posts_of a h) ++ pulled (update k b m) h authors) same
              ∙ ap (λ (t : List ℕ). first ++ t) y
              ∙ sym (append_assoc first l r),
        ))
]
