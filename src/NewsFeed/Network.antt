-- ===== src/NewsFeed/Network.antt =====
-- The network that the constructor builds.
use learn_system_design.Prelude.{
  ℕ, zero, suc, ◌≡◌, refl, true, false, ◌||◌, List, [], ◌∷◌, ◌==◌, if◌then◌else◌, arith, Bool-cases,
  inl, inr, sym, subst,
}
use learn_system_design.Prelude.Maps.{update}
use learn_system_design.NewsFeed.{
  SocialNetwork, is_in, add, follow, follow_all, join_all, social_network,
}

abbrev pub AreDistinct : List ℕ → Type 0
AreDistinct [] = Unit
AreDistinct (x ∷ xs) = (is_in x xs ≡ false) × AreDistinct xs

-- Who follows whom is told alike on both sides, no one twice, and nothing is posted.
pub record IsFresh (net : SocialNetwork) : Type 0 where
  pub followers : (a : ℕ) → AreDistinct (net.followers a)
  pub following : (u : ℕ) → AreDistinct (net.following u)
  pub both_sides : (u a : ℕ) → is_in u (net.followers a) ≡ is_in a (net.following u)
  pub posts : (a : ℕ) → net.posts_by_author a ≡ []
  pub next : net.next_post_id ≡ 0

is_in-add : (x y : ℕ) (xs : List ℕ) → is_in x (add y xs) ≡ (x == y || is_in x xs)
unfolding add is_in
is_in-add x y xs = elim (Bool-cases (is_in y xs)) [
  | inl e ↦ (elim (Bool-cases (x == y)) [
    | inl f ↦
        (let same : x ≡ y = ground arith in
          rw e (ground (arith, subst (λ z. is_in z xs ≡ true) (sym same) e, f)))
    | inr f ↦ rw (e, f) refl
  ])
  | inr e ↦ rw e refl
]

add-AreDistinct : (x : ℕ) (xs : List ℕ) → AreDistinct xs → AreDistinct (add x xs)
unfolding add
add-AreDistinct x xs d = elim (Bool-cases (is_in x xs)) [ inl e ↦ rw e d | inr e ↦ rw e (e, d) ]

update-AreDistinct :
    (sets : ℕ → List ℕ) (k x j : ℕ)
    → ((i : ℕ) → AreDistinct (sets i))
    → AreDistinct (update sets k (add x (sets k)) j)
unfolding update
update-AreDistinct sets k x j d = elim (Bool-cases (k == j)) [
  | inl e ↦ rw e (add-AreDistinct x (sets k) (d k))
  | inr e ↦ rw e (d j)
]

is_in-update :
    (sets : ℕ → List ℕ) (k x j y : ℕ)
    → is_in y (update sets k (add x (sets k)) j)
      ≡ (if k == j then (y == x || is_in y (sets j)) else is_in y (sets j))
unfolding update
is_in-update sets k x j y = elim (Bool-cases (k == j)) [
  | inl e ↦
      (let same : k ≡ j = ground arith in
        rw e (
          subst (λ i. is_in y (add x (sets i)) ≡ (y == x || is_in y (sets j))) (sym same)
            (is_in-add y x (sets j))))
  | inr e ↦ rw e refl
]

follow-IsFresh :
    (user author : ℕ) (net : SocialNetwork) → IsFresh net → IsFresh (follow user author net)
unfolding follow
follow-IsFresh user author net m = elim (Bool-cases (author == user)) [
  | inl e ↦ rw e m
  | inr e ↦ rw e (record {
    followers = λ a. update-AreDistinct net.followers author user a m.followers;
    following = λ u. update-AreDistinct net.following user author u m.following;
    both_sides = λ u a. ground (
      arith,
      is_in-update net.followers author user a u,
      is_in-update net.following user author u a,
      m.both_sides u a,
    );
    posts = m.posts;
    next = m.next;
  })
]

follow_all-IsFresh :
    (user : ℕ) (authors : List ℕ) (net : SocialNetwork)
    → IsFresh net
    → IsFresh (follow_all user authors net)
unfolding follow_all
follow_all-IsFresh user [] net m = m
follow_all-IsFresh user (author ∷ authors) net m =
    follow_all-IsFresh user authors (follow user author net) (follow-IsFresh user author net m)

join_all-IsFresh :
    (choices : ℕ → List ℕ) (user n : ℕ) (net : SocialNetwork)
    → IsFresh net
    → IsFresh (join_all choices user n net)
unfolding join_all
join_all-IsFresh choices user zero net m = m
join_all-IsFresh choices user (suc n) net m =
    join_all-IsFresh choices (suc user) n (follow_all user (choices user) net)
      (follow_all-IsFresh user (choices user) net m)

pub social_network-IsFresh :
    (n_users : ℕ) (choices : ℕ → List ℕ) → IsFresh (social_network n_users choices)
unfolding social_network is_in
social_network-IsFresh n_users choices = join_all-IsFresh choices 0 n_users _ (record {
  followers = λ a. tt;
  following = λ u. tt;
  both_sides = λ u a. refl;
  posts = λ a. refl;
  next = refl;
})
