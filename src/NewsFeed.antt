-- ===== src/NewsFeed.antt =====
-- 11_case_studies/02_news_feed.py: the network and the three feeds, each with its counters. Users and authors
-- are numbers, and a set is a list that holds no element twice.
pub mod Network
pub mod Sorting
pub mod Merging
pub mod Timeline
pub mod Reads
mod Tests
use learn_system_design.Prelude.{
  ℕ, zero, suc, ◌+◌, ◌-◌, Bool, true, false, not, ◌||◌, List, [], ◌∷◌, ◌++◌, leb, ltb, ◌==◌,
  if◌then◌else◌, take, drop, length,
}
use learn_system_design.Prelude.Maps.{update}

abbrev pub feed_size : ℕ
feed_size = 50

pub record SocialNetwork : Type 0 where
  pub followers : ℕ → List ℕ
  pub following : ℕ → List ℕ
  pub posts_by_author : ℕ → List ℕ
  pub next_post_id : ℕ

-- `x in xs`
unfoldable pub is_in : ℕ → List ℕ → Bool
is_in x [] = false
is_in x (y ∷ ys) = let rest = is_in x ys in x == y || rest

-- `xs.add(x)`
unfoldable pub add : ℕ → List ℕ → List ℕ
unfolding is_in
add x xs = if is_in x xs then xs else x ∷ xs

-- A round of the loop over a user's choices.
unfoldable pub follow : ℕ → ℕ → SocialNetwork → SocialNetwork
unfolding add update
follow user author net = if author == user then net else record net {
  followers = update net.followers author (add user (net.followers author));
  following = update net.following user (add author (net.following user));
}

-- `for author in set(...)`; to add an author twice is to add it once.
unfoldable pub follow_all : ℕ → List ℕ → SocialNetwork → SocialNetwork
follow_all user [] net = net
follow_all user (author ∷ authors) net = follow_all user authors (follow user author net)

-- `for user in range(n_users)`, from a user on, with what the generator chooses for each user.
unfoldable pub join_all : (ℕ → List ℕ) → ℕ → ℕ → SocialNetwork → SocialNetwork
join_all choices user zero net = net
join_all choices user (suc n) net =
    join_all choices (suc user) n (follow_all user (choices user) net)

-- `SocialNetwork(n_users, rng)`
unfoldable pub social_network : ℕ → (ℕ → List ℕ) → SocialNetwork
social_network n_users choices = join_all choices 0 n_users (record {
  followers = λ a. [];
  following = λ u. [];
  posts_by_author = λ a. [];
  next_post_id = 0;
})

-- `SocialNetwork.new_post`
unfoldable pub new_post : ℕ → SocialNetwork → SocialNetwork × ℕ
unfolding update
new_post author net = (
  record net {
    posts_by_author =
        update net.posts_by_author author
          (net.posts_by_author author ++ (net.next_post_id + 1) ∷ []);
    next_post_id = net.next_post_id + 1;
  },
  net.next_post_id + 1,
)

-- `PullFeed` and `HybridFeed` with a threshold are the classes of that name, and `feeds` is empty in
-- the first.
pub data Strategy : Type 0 where
  pull push : Strategy
  hybrid : ℕ → Strategy

pub record Feed : Type 0 where
  pub feeds : ℕ → List ℕ
  pub write_ops : ℕ
  pub read_ops : ℕ

unfoldable pub new_feed : Feed
new_feed = record { feeds = λ u. []; write_ops = 0; read_ops = 0 }

-- `appendleft` of a `deque` with `maxlen`
unfoldable pub append_left : ℕ → List ℕ → List ℕ
append_left p feed = take feed_size (p ∷ feed)

-- `for follower in ...`
unfoldable pub fan_out : ℕ → List ℕ → Feed → Feed
unfolding append_left update
fan_out post_id [] f = f
fan_out post_id (follower ∷ followers) f = fan_out post_id followers (record f {
  feeds = update f.feeds follower (append_left post_id (f.feeds follower));
  write_ops = f.write_ops + 1;
})

-- `HybridFeed.is_celebrity`
unfoldable pub is_celebrity : ℕ → SocialNetwork → ℕ → Bool
is_celebrity threshold net author = leb threshold (length (net.followers author))

-- `on_post`, of each class
unfoldable pub on_post : Strategy → SocialNetwork → ℕ → ℕ → Feed → Feed
unfolding fan_out is_celebrity
on_post pull net author post_id f = record f { write_ops = f.write_ops + 1 }
on_post push net author post_id f =
    fan_out post_id (net.followers author) (record f { write_ops = f.write_ops + 1 })
on_post (hybrid threshold) net author post_id f =
    if is_celebrity threshold net author
    then record f { write_ops = f.write_ops + 1 }
    else fan_out post_id (net.followers author) (record f { write_ops = f.write_ops + 1 })

-- `posts[-n:]`
unfoldable pub last_n : ℕ → List ℕ → List ℕ
last_n n posts = drop (length posts - n) posts

-- The posts of some authors, the last ones of each.
unfoldable pub recent : (ℕ → List ℕ) → List ℕ → List ℕ
unfolding last_n
recent posts [] = []
recent posts (author ∷ authors) = last_n feed_size (posts author) ++ recent posts authors

-- `sorted(..., reverse=True)`, which `heapq.nlargest` is documented to be the start of.
unfoldable pub insert_down : ℕ → List ℕ → List ℕ
insert_down x [] = x ∷ []
insert_down x (y ∷ ys) = let rest = insert_down x ys in if ltb x y then y ∷ rest else x ∷ y ∷ ys

unfoldable pub sort_down : List ℕ → List ℕ
unfolding insert_down
sort_down [] = []
sort_down (x ∷ xs) = insert_down x (sort_down xs)

-- `heapq.nlargest`
unfoldable pub nlargest : ℕ → List ℕ → List ℕ
unfolding sort_down
nlargest n xs = take n (sort_down xs)

-- `[a for a in ... if self.is_celebrity(a)]`
unfoldable pub celebrities : ℕ → SocialNetwork → List ℕ → List ℕ
unfolding is_celebrity
celebrities threshold net [] = []
celebrities threshold net (author ∷ authors) =
    let rest = celebrities threshold net authors in
    if is_celebrity threshold net author then author ∷ rest else rest

-- `read_feed`, of each class
unfoldable pub read_feed : Strategy → SocialNetwork → ℕ → Feed → List ℕ × Feed
unfolding nlargest recent celebrities
read_feed pull net user f = (
  nlargest feed_size (recent net.posts_by_author (net.following user)),
  record f { read_ops = f.read_ops + length (net.following user) },
)
read_feed push net user f = (f.feeds user, record f { read_ops = f.read_ops + 1 })
read_feed (hybrid threshold) net user f =
    let celebs = celebrities threshold net (net.following user) in
    (
      nlargest feed_size (f.feeds user ++ recent net.posts_by_author celebs),
      record f { read_ops = f.read_ops + (1 + length celebs) },
    )

-- The loop of the demo over the authors, the newest post first.
unfoldable pub post_all : Strategy → List ℕ → SocialNetwork → SocialNetwork × Feed
unfolding new_feed
post_all strategy [] net = (net, new_feed)
post_all strategy (author ∷ earlier) net =
    let (before, f) = post_all strategy earlier net in
    let (after, post_id) = new_post author before in
    (after, on_post strategy after author post_id f)
