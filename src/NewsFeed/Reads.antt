-- ===== src/NewsFeed/Reads.antt =====
-- What `read_feed` returns, of each of the three classes.
use learn_system_design.Prelude.{
  ℕ, ◌≤◌, ◌≡◌, refl, Bool, true, false, ◌&&◌, List, [], ◌∷◌, ◌++◌, leb, ◌==◌, if◌then◌else◌, take,
  length, arith, Bool-cases, inl, inr, ap, sym, ◌∙◌,
}
use learn_system_design.NewsFeed.{
  feed_size, SocialNetwork, is_in, social_network, Strategy, pull, push, hybrid, Feed, is_celebrity,
  last_n, recent, sort_down, nlargest, celebrities, read_feed, post_all,
}
use learn_system_design.NewsFeed.Network.{AreDistinct, IsFresh, social_network-IsFresh}
use learn_system_design.NewsFeed.Merging.{posts_by, posts_of, pulled}
use learn_system_design.NewsFeed.Timeline.{merged, pushed, Shows, post_all-Shows}

recent-pulled :
    (posts : ℕ → List ℕ) (h authors : List ℕ)
    → ((a : ℕ) → posts a ≡ posts_of a h)
    → recent posts authors ≡ pulled (λ a. feed_size) h authors
unfolding recent
recent-pulled posts h [] same = refl
recent-pulled posts h (a ∷ authors) same =
    ap (λ (l : List ℕ). last_n feed_size l ++ recent posts authors) (same a)
    ∙ ap (λ (l : List ℕ). last_n feed_size (posts_of a h) ++ l) (recent-pulled posts h authors same)

posts_by_same :
    (kind other : ℕ → Bool) (h : List ℕ)
    → ((a : ℕ) → kind a ≡ other a)
    → posts_by kind h ≡ posts_by other h
posts_by_same kind other [] same = refl
posts_by_same kind other (a ∷ h) same = rw (same a, posts_by_same kind other h same) refl

module _ (threshold : ℕ) (net : SocialNetwork) where
  is_in-celebrities :
      (a : ℕ) (authors : List ℕ)
      → is_in a (celebrities threshold net authors)
        ≡ (is_in a authors && is_celebrity threshold net a)
  unfolding is_in celebrities
  is_in-celebrities a [] = refl
  is_in-celebrities a (b ∷ authors) =
      let rest = is_in-celebrities a authors in
      elim (Bool-cases (a == b)) [
        | inl e ↦
            (let same : a ≡ b = ground arith in
              elim (Bool-cases (is_celebrity threshold net b)) [
                | inl f ↦
                    (let g : is_celebrity threshold net a ≡ true =
                        ap (is_celebrity threshold net) same ∙ f in
                      rw (f, g) (ground (arith, e)))
                | inr f ↦
                    (let g : is_celebrity threshold net a ≡ false =
                        ap (is_celebrity threshold net) same ∙ f in
                      rw (f, g) (rest ∙ ground (arith, g)))
              ])
        | inr e ↦ (elim (Bool-cases (is_celebrity threshold net b)) [
          | inl f ↦ rw (f, e) rest
          | inr f ↦ rw (f, e) rest
        ])
      ]

  celebrities-AreDistinct :
      (authors : List ℕ) → AreDistinct authors → AreDistinct (celebrities threshold net authors)
  unfolding celebrities
  celebrities-AreDistinct [] d = tt
  celebrities-AreDistinct (b ∷ authors) (out, d) =
      elim (Bool-cases (is_celebrity threshold net b)) [
        | inl f ↦
            rw f
              (ground (arith, out, is_in-celebrities b authors), celebrities-AreDistinct authors d)
        | inr f ↦ rw f (celebrities-AreDistinct authors d)
      ]

  celebrities_same :
      (after : SocialNetwork) (authors : List ℕ)
      → after.followers ≡ net.followers
      → celebrities threshold after authors ≡ celebrities threshold net authors
  unfolding celebrities is_celebrity
  celebrities_same after [] e = refl
  celebrities_same after (b ∷ authors) e =
      let here : leb threshold (length (after.followers b))
          ≡ leb threshold (length (net.followers b)) =
        ap (λ (fs : ℕ → List ℕ). leb threshold (length (fs b))) e in
      ap (λ (l : List ℕ). if leb threshold (length (after.followers b)) then b ∷ l else l)
        (celebrities_same after authors e)
      ∙ ap
          (λ x.
            if x then b ∷ celebrities threshold net authors else celebrities threshold net authors)
          here

-- The newest posts of those that a user follows, the newest first, by a history of authors.
abbrev pub timeline : SocialNetwork → ℕ → List ℕ → List ℕ
timeline net user h = take feed_size (posts_by (λ a. is_in a (net.following user)) h)

module _ (net : SocialNetwork) (fresh : IsFresh net) (user : ℕ) (h : List ℕ) where
  feed_size_le : (a : ℕ) → feed_size ≤ feed_size
  feed_size_le a = omega arith

  no_kind : (l : List ℕ) → take feed_size (posts_by (λ a. false) l) ≡ []
  no_kind [] = refl
  no_kind (a ∷ l) = no_kind l

  pull-timeline :
      (after : SocialNetwork) (f : Feed)
      → Shows pull net h after f
      → (read_feed pull after user f).0 ≡ timeline net user h
  unfolding read_feed nlargest
  pull-timeline after f s =
      ap (λ (g : ℕ → List ℕ). take feed_size (sort_down (recent after.posts_by_author (g user))))
        s.following
      ∙ ap (λ l. take feed_size (sort_down l))
          (recent-pulled after.posts_by_author h (net.following user) s.posts)
      ∙ ap
          (λ (l : List ℕ).
            take feed_size (sort_down (l ++ pulled (λ a. feed_size) h (net.following user))))
          (sym (no_kind h))
      ∙ merged h feed_size feed_size (λ a. feed_size) (λ a. false) (net.following user)
          (omega arith) feed_size_le (fresh.following user) (λ a e. ground arith)

  push-timeline :
      (after : SocialNetwork) (f : Feed)
      → Shows push net h after f
      → (read_feed push after user f).0 ≡ timeline net user h
  unfolding read_feed
  push-timeline after f s =
      s.feeds user
      ∙ ap (take feed_size) (
          posts_by_same (λ a. is_in user (net.followers a)) (λ a. is_in a (net.following user)) h
            (λ a. fresh.both_sides user a))

  hybrid-timeline :
      (threshold : ℕ) (after : SocialNetwork) (f : Feed)
      → Shows (hybrid threshold) net h after f
      → (read_feed (hybrid threshold) after user f).0 ≡ timeline net user h
  unfolding read_feed nlargest is_celebrity
  hybrid-timeline threshold after f s =
      let mine = net.following user in
      let celebs = celebrities threshold net mine in
      let same_celebs : celebrities threshold after (after.following user) ≡ celebs =
        celebrities_same threshold net after (after.following user) s.followers
        ∙ ap (λ (g : ℕ → List ℕ). celebrities threshold net (g user)) s.following in
      ap (λ l. take feed_size (sort_down (f.feeds user ++ recent after.posts_by_author l)))
        same_celebs
      ∙ ap (λ (l : List ℕ). take feed_size (sort_down (l ++ recent after.posts_by_author celebs)))
          (s.feeds user)
      ∙ ap
          (λ l. take feed_size (
            sort_down
              (take feed_size (posts_by (pushed (hybrid threshold) net.followers user) h) ++ l)))
          (recent-pulled after.posts_by_author h celebs s.posts)
      ∙ merged h feed_size feed_size (λ a. feed_size) (pushed (hybrid threshold) net.followers user)
          celebs (omega arith) feed_size_le
          (celebrities-AreDistinct threshold net mine (fresh.following user))
          (λ a e. ground (arith, e, is_in-celebrities threshold net a mine))
      ∙ ap (take feed_size) (
          posts_by_same _ (λ a. is_in a mine) h
            (λ a. ground (arith, is_in-celebrities threshold net a mine, fresh.both_sides user a)))

-- On the network that the constructor builds, whatever it chooses, and after any posts: the pull feed, the
-- push feed and the hybrid feed with any threshold each show a user the newest posts of those that
-- the user follows, as many as a feed holds, the newest first.
pub read_feed-timeline :
    (strategy : Strategy) (n_users : ℕ) (choices : ℕ → List ℕ) (h : List ℕ) (user : ℕ)
    → let net = social_network n_users choices in
      (read_feed strategy (post_all strategy h net).0 user (post_all strategy h net).1).0
      ≡ timeline net user h
read_feed-timeline pull n_users choices h user =
    let net = social_network n_users choices in
    let fresh = social_network-IsFresh n_users choices in
    pull-timeline net fresh user h _ _ (post_all-Shows pull net h fresh)
read_feed-timeline push n_users choices h user =
    let net = social_network n_users choices in
    let fresh = social_network-IsFresh n_users choices in
    push-timeline net fresh user h _ _ (post_all-Shows push net h fresh)
read_feed-timeline (hybrid threshold) n_users choices h user =
    let net = social_network n_users choices in
    let fresh = social_network-IsFresh n_users choices in
    hybrid-timeline net fresh user h threshold _ _ (post_all-Shows (hybrid threshold) net h fresh)
