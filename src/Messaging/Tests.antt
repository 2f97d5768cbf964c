-- ===== src/Messaging/Tests.antt =====
-- Runs of the queue, the topic and the log, and the theorems at them.
use learn_system_design.Prelude.{
  ℕ, ◌%◌, ◌≡◌, refl, some, List, [], ◌∷◌, ◌++◌, drop, ◌==◌, ℕ_discrete,
}
use learn_system_design.Prelude.Dict.{get, put}
use learn_system_design.Messaging.Queues.{run, run_loop, hand_to, or_empty, subscribe, publish}
use learn_system_design.Messaging.Log.{
  append_at, set_offsets, new_topic, poll_from, poll, seek, assign, assign_from, add_consumer,
  consumer_of, Action, produce_action, poll_action, seek_action, produce_to, produce, perform,
  perform_all,
}
use learn_system_design.Messaging.Reading.{offset_at, partition_at}
use learn_system_design.Messaging.Consumed.{received, received-drop}
use learn_system_design.Messaging.Keys.{keyed, sent, only_if, keyed-sent}

jobs_in_turn :
    (run {M = ℕ} ℕ_discrete (1 ∷ 2 ∷ []) (10 ∷ 11 ∷ 12 ∷ [])).received
    ≡ (1, 10 ∷ 12 ∷ []) ∷ (2, 11 ∷ []) ∷ []
unfolding run run_loop hand_to or_empty get put ℕ_discrete
jobs_in_turn = refl

all_subscribers :
    publish {M = ℕ} 5 (subscribe ℕ_discrete 2 (publish {M = ℕ} 4 (subscribe ℕ_discrete 1 [])))
    ≡ (1, 4 ∷ 5 ∷ []) ∷ (2, 5 ∷ []) ∷ []
unfolding publish subscribe put ℕ_discrete
all_subscribers = refl

consumers_of_three :
    assign {R = ℕ} {C = ℕ} (7 ∷ 8 ∷ []) (new_topic 3) ≡ some ((0, 7) ∷ (1, 8) ∷ (2, 7) ∷ [])
unfolding assign assign_from add_consumer consumer_of new_topic
consumers_of_three = refl

-- Group 1 reads partition 1 twice while group 2 seeks; keys 1 and 4 share the partition.
abbrev actions : List (Action ℕ ℕ)
actions =
    produce_action 1 100
    ∷ produce_action 4 101
    ∷ produce_action 2 102
    ∷ poll_action 1 1 1
    ∷ seek_action 2 1 9
    ∷ produce_action 1 103
    ∷ poll_action 1 1 5
    ∷ []

abbrev hash : ℕ → ℕ
hash key = key

read_all : received hash 1 1 actions (new_topic 3) ≡ (1, 100) ∷ (4, 101) ∷ (1, 103) ∷ []
unfolding perform_all perform produce produce_to append_at poll poll_from set_offsets seek new_topic
read_all = refl

received-drop_example :
    received hash 1 1 actions (new_topic 3)
      ++ drop
          (offset_at 1 1 (perform_all hash actions (new_topic 3)))
          (partition_at 1 (perform_all hash actions (new_topic 3)))
    ≡ drop
        (offset_at 1 1 (new_topic {R = ℕ × ℕ} 3))
        (partition_at 1 (perform_all hash actions (new_topic 3)))
received-drop_example = received-drop hash 1 1 actions (new_topic 3) (refl, tt)

keyed-sent_example :
    keyed ℕ_discrete 1 (partition_at 1 (perform_all hash actions (new_topic 3)))
    ≡ only_if (hash 1 % 3 == 1) (sent ℕ_discrete 1 actions)
keyed-sent_example = keyed-sent ℕ_discrete hash 2 actions 1 1
