-- ===== src/NewsFeed/Tests.antt =====
-- Three users, and the feeds of one of them.
use learn_system_design.Prelude.{ℕ, ◌≡◌, refl, List, [], ◌∷◌, ◌==◌, if◌then◌else◌}
use learn_system_design.Prelude.Maps.{update}
use learn_system_design.NewsFeed.{
  is_in, add, follow, follow_all, join_all, social_network, new_post, hybrid, push, new_feed,
  append_left, fan_out, is_celebrity, on_post, last_n, recent, insert_down, sort_down, nlargest,
  celebrities, read_feed, post_all, SocialNetwork,
}
use learn_system_design.NewsFeed.Reads.{timeline, read_feed-timeline}

-- Everybody follows user 0, and user 2 follows user 1.
abbrev choices : ℕ → List ℕ
choices u = if u == 2 then 0 ∷ 1 ∷ 0 ∷ [] else 0 ∷ []

abbrev posts : List ℕ
posts = 1 ∷ 0 ∷ 2 ∷ 0 ∷ 1 ∷ []

abbrev net : SocialNetwork
net = social_network 3 choices

two_ways :
    (read_feed (hybrid 2) (post_all (hybrid 2) posts net).0 2 (post_all (hybrid 2) posts net).1).0
    ≡ 5 ∷ 4 ∷ 2 ∷ 1 ∷ []
unfolding read_feed post_all social_network join_all follow_all follow add is_in new_post on_post
    is_celebrity fan_out append_left nlargest sort_down insert_down recent last_n celebrities
    new_feed update
two_ways = refl

push_costs : (post_all push posts net).1.write_ops ≡ 11
unfolding post_all social_network join_all follow_all follow add is_in new_post on_post fan_out
    append_left new_feed update
push_costs = refl

read_feed-timeline_example :
    (read_feed (hybrid 2) (post_all (hybrid 2) posts net).0 2 (post_all (hybrid 2) posts net).1).0
    ≡ timeline net 2 posts
read_feed-timeline_example = read_feed-timeline (hybrid 2) 3 choices posts 2
