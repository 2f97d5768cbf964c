-- ===== src/NewsFeed/Timeline.antt =====
-- What the three feeds show.
use learn_system_design.Prelude.{
  ℕ, zero, suc, ◌+◌, ◌-◌, ◌≤◌, ◌≡◌, refl, Bool, true, false, not, ◌&&◌, ◌||◌, List, [], ◌∷◌, ◌++◌,
  leb, ◌==◌, if◌then◌else◌, take, length, arith, Bool-cases, inl, inr, ap, sym, ◌∙◌, subst,
  append_assoc,
}
use learn_system_design.Prelude.Maps.{update}
use learn_system_design.NewsFeed.{
  feed_size, SocialNetwork, is_in, new_post, Strategy, pull, push, hybrid, Feed, new_feed,
  append_left, fan_out, is_celebrity, on_post, sort_down, post_all,
}
use learn_system_design.NewsFeed.Network.{AreDistinct, IsFresh}
use learn_system_design.NewsFeed.Sorting.{
  AllBelow, AllBelow-append, AllBelow-take, sort_down_largest, take_twice,
}
use learn_system_design.NewsFeed.Merging.{
  posts_by, posts_of, pulled, posts_by-AllBelow, pulled-AllBelow, pulled_nil, pulled_other,
  pulled_new,
}

split_below : (p : ℕ) (xs ys : List ℕ) → AllBelow p (xs ++ ys) → AllBelow p xs × AllBelow p ys
split_below p [] ys a = (tt, a)
split_below p (x ∷ xs) ys (h, a) = let (b, c) = split_below p xs ys a in ((h, b), c)

-- The newest posts of a feed, cut off late enough, and of authors, each cut off late enough, are the newest of all.
pub merged :
    (h : List ℕ) (n k0 : ℕ) (k : ℕ → ℕ) (kind : ℕ → Bool) (authors : List ℕ)
    → n ≤ k0
    → ((a : ℕ) → n ≤ k a)
    → AreDistinct authors
    → ((a : ℕ) → kind a ≡ true → is_in a authors ≡ false)
    → take n (sort_down (take k0 (posts_by kind h) ++ pulled k h authors))
      ≡ take n (posts_by (λ a. kind a || is_in a authors) h)
merged [] n zero k kind authors le les d apart =
    ap (λ l. take n (sort_down l)) (pulled_nil k authors) ∙ (unfold sort_down in refl)
merged [] n (suc k0) k kind authors le les d apart =
    ap (λ l. take n (sort_down l)) (pulled_nil k authors) ∙ (unfold sort_down in refl)
merged (b ∷ h) zero k0 k kind authors le les d apart = refl
merged (b ∷ h) (suc n) zero k kind authors le les d apart = ground (arith, le)
merged (b ∷ h) (suc n) (suc k0) k kind authors le les d apart =
    let p = suc (length h) in
    let feed = posts_by kind h in
    let all = posts_by (λ a. kind a || is_in a authors) h in
    elim (Bool-cases (kind b)) [
      | inl e ↦
          (let out = apart b e in
            let (same, _) = pulled_other k b n h authors out in
            let below =
              AllBelow-append p (take k0 feed) (pulled k h authors)
                (AllBelow-take p k0 feed (posts_by-AllBelow kind h))
                (pulled-AllBelow k h authors) in
            rw e (
              ap (λ l. take (suc n) (sort_down (p ∷ take k0 feed ++ l))) same
              ∙ ap (take (suc n))
                  (sort_down_largest p [] (take k0 feed ++ pulled k h authors) tt below)
              ∙ ap (λ (l : List ℕ). p ∷ l)
                  (merged h n k0 k kind authors (omega (arith, le)) (λ a. omega (arith, les a)) d
                    apart)))
      | inr e ↦ (elim (Bool-cases (is_in b authors)) [
        | inl i ↦
            (let bound : k b ≡ suc (k b - 1) = omega (arith, les b) in
              let (l, r, x, y) = pulled_new k b (k b - 1) h authors bound d i in
              let first = take (suc k0) feed in
              let less = subst (AllBelow p) y (pulled-AllBelow (update k b (k b - 1)) h authors) in
              let (bl, br) = split_below p l r less in
              let bf =
                AllBelow-append p first l (AllBelow-take p (suc k0) feed (posts_by-AllBelow kind h))
                  bl in
              let les' : (a : ℕ) → n ≤ update k b (k b - 1) a =
                λ a. unfold update in ground (arith, les a, les b) in
              rw (e, i)
                (ap (λ t. take (suc n) (sort_down (first ++ t))) x
                  ∙ ap (λ t. take (suc n) (sort_down t)) (sym (append_assoc first l (p ∷ r)))
                  ∙ ap (take (suc n)) (sort_down_largest p (first ++ l) r bf br)
                  ∙ ap (λ t. p ∷ take n (sort_down t))
                      (append_assoc first l r ∙ ap (λ (t : List ℕ). first ++ t) (sym y))
                  ∙ ap (λ (t : List ℕ). p ∷ t)
                      (merged h n (suc k0) (update k b (k b - 1)) kind authors (omega (arith, le))
                        les' d apart)))
        | inr i ↦
            (let (same, _) = pulled_other k b n h authors i in
              rw (e, i)
                (ap (λ t. take (suc n) (sort_down (take (suc k0) feed ++ t))) same
                  ∙ merged h (suc n) (suc k0) k kind authors le les d apart))
      ])
    ]

-- Who gets a post by an author into the feed of a user.
abbrev pub pushed : Strategy → (ℕ → List ℕ) → ℕ → ℕ → Bool
pushed pull followers user a = false
pushed push followers user a = is_in user (followers a)
pushed (hybrid threshold) followers user a =
    is_in user (followers a) && not (leb threshold (length (followers a)))

fan_out_feeds :
    (p : ℕ) (followers : List ℕ) (f : Feed) (user : ℕ)
    → AreDistinct followers
    → (fan_out p followers f).feeds user
      ≡ (if is_in user followers then append_left p (f.feeds user) else f.feeds user)
unfolding fan_out is_in
fan_out_feeds p [] f user d = refl
fan_out_feeds p (u ∷ followers) f user (out, d) =
    let more : Feed = record f {
      feeds = update f.feeds u (append_left p (f.feeds u));
      write_ops = f.write_ops + 1;
    } in
    let rest = fan_out_feeds p followers more user d in
    elim (Bool-cases (user == u)) [
      | inl e ↦
          (let same : u ≡ user = ground arith in
            let absent : is_in user followers ≡ false =
              subst (λ v. is_in v followers ≡ false) same out in
            let here : more.feeds user ≡ append_left p (f.feeds user) =
              unfold update in ground (arith, same) in
            let none_more : (if is_in user followers
                  then append_left p (more.feeds user)
                  else more.feeds user)
                ≡ more.feeds user =
              rw absent refl in
            rw e (rest ∙ none_more ∙ here))
      | inr e ↦
          (let there : more.feeds user ≡ f.feeds user = unfold update in ground (arith, e) in
            rw e (rest ∙ ap (λ x. if is_in user followers then append_left p x else x) there))
    ]

on_post_feeds :
    (strategy : Strategy) (net : SocialNetwork) (author p : ℕ) (f : Feed) (user : ℕ)
    → AreDistinct (net.followers author)
    → (on_post strategy net author p f).feeds user ≡ (
        if pushed strategy net.followers user author
        then append_left p (f.feeds user)
        else f.feeds user)
unfolding on_post is_celebrity
on_post_feeds pull net author p f user d = refl
on_post_feeds push net author p f user d = fan_out_feeds p (net.followers author) _ user d
on_post_feeds (hybrid threshold) net author p f user d =
    let rest =
      fan_out_feeds p (net.followers author) (record f { write_ops = f.write_ops + 1 }) user d in
    elim (Bool-cases (leb threshold (length (net.followers author)))) [
      | inl e ↦ ground (arith, e)
      | inr e ↦ ground (arith, e, rest)
    ]

-- The network and the feeds after a history.
pub record Shows (strategy : Strategy) (net : SocialNetwork) (h : List ℕ) (after : SocialNetwork)
    (f : Feed) : Type 0 where
  pub followers : after.followers ≡ net.followers
  pub following : after.following ≡ net.following
  pub next : after.next_post_id ≡ length h
  pub posts : (a : ℕ) → after.posts_by_author a ≡ posts_of a h
  pub feeds : (u : ℕ) → f.feeds u ≡ take feed_size (posts_by (pushed strategy net.followers u) h)

append_left_when :
    (b : Bool) (p : ℕ) (feed : List ℕ)
    → (if b then append_left p (take feed_size feed) else take feed_size feed)
      ≡ take feed_size (if b then p ∷ feed else feed)
unfolding append_left
append_left_when true p feed = take_twice feed_size p feed
append_left_when false p feed = refl

post-Shows :
    (strategy : Strategy) (net : SocialNetwork) (author : ℕ) (h : List ℕ) (before : SocialNetwork)
    (f : Feed)
    → ((a : ℕ) → AreDistinct (net.followers a))
    → Shows strategy net h before f
    → Shows strategy net
        (author ∷ h)
        (new_post author before).0
        (on_post strategy (new_post author before).0 author (new_post author before).1 f)
unfolding new_post
post-Shows strategy net author h before f d s = record {
  followers = s.followers;
  following = s.following;
  next = omega (arith, s.next);
  posts = λ a. elim (Bool-cases (author == a)) [
    | inl e ↦
        (let same : author ≡ a = ground arith in
          unfold update in
          rw e (
            ap (λ (l : List ℕ). l ++ (before.next_post_id + 1) ∷ [])
              (ap before.posts_by_author same ∙ s.posts a)
            ∙ ap (λ n. posts_of a h ++ n ∷ []) (omega (arith, s.next))))
    | inr e ↦ unfold update in rw e (s.posts a)
  ];
  feeds = λ u.
      let p = before.next_post_id + 1 in
      let id : p ≡ suc (length h) = omega (arith, s.next) in
      on_post_feeds strategy (new_post author before).0 author p f u
        (subst (λ (g : ℕ → List ℕ). AreDistinct (g author)) (sym s.followers) (d author))
      ∙ ap
          (λ (g : ℕ → List ℕ).
            if pushed strategy g u author then append_left p (f.feeds u) else f.feeds u)
          s.followers
      ∙ ap (λ x. if pushed strategy net.followers u author then append_left p x else x) (s.feeds u)
      ∙ append_left_when (pushed strategy net.followers u author) p
          (posts_by (pushed strategy net.followers u) h)
      ∙ ap
          (λ n. take feed_size (
            if pushed strategy net.followers u author
            then n ∷ posts_by (pushed strategy net.followers u) h
            else posts_by (pushed strategy net.followers u) h))
          id;
}

pub post_all-Shows :
    (strategy : Strategy) (net : SocialNetwork) (h : List ℕ)
    → IsFresh net
    → Shows strategy net h (post_all strategy h net).0 (post_all strategy h net).1
unfolding post_all new_feed
post_all-Shows strategy net [] m = record {
  followers = refl;
  following = refl;
  next = m.next;
  posts = m.posts;
  feeds = λ u. refl;
}
post_all-Shows strategy net (author ∷ earlier) m =
    post-Shows strategy net author earlier (post_all strategy earlier net).0
      (post_all strategy earlier net).1 m.followers (post_all-Shows strategy net earlier m)
