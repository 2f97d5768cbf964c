-- ===== src/Chat/Tests.antt =====
-- A run of the chat service: a retry, a member who is away, and one who comes back.
use learn_system_design.Prelude.{ℕ, ◌≡◌, refl, List, [], ◌∷◌, ℕ_discrete}
use learn_system_design.Prelude.Dict.{Dict, get, put, remove}
use learn_system_design.Prelude.Maps.{update}
use learn_system_design.Chat.{
  chat_service, append, newer, after, receive, receive_at, receive_all, is_member, sync_chats, sync,
  connect, disconnect, push, push_to, deliver, deliver_all, is_seen, send_to, send,
}
use learn_system_design.Chat.Delivery.{ids_of, Increasing, AllStored}
use learn_system_design.Chat.Actions.{
  Action, connect_to, disconnect_from, send_text, perform, perform_all, inbox_in_order,
}

-- Users 1, 2 and 3 share chat 7.
abbrev chats : Dict ℕ (List ℕ)
chats = (7, 1 ∷ 2 ∷ 3 ∷ []) ∷ []

abbrev actions : List Action
actions =
    connect_to 1 1
    ∷ connect_to 2 2
    ∷ send_text 1 7 "hi" 100
    ∷ send_text 1 7 "hi" 100
    ∷ disconnect_from 2 2
    ∷ send_text 1 7 "there?" 101
    ∷ connect_to 1 2
    ∷ send_text 1 7 "ok" 102
    ∷ []

caught_up : ids_of 7 ((perform_all actions (chat_service chats)).clients 2).inbox ≡ 1 ∷ 2 ∷ 3 ∷ []
unfolding chat_service perform_all perform send append send_to deliver_all deliver push_to push
    receive_at receive_all receive update is_seen is_member sync_chats sync connect disconnect after
    newer get put remove ℕ_discrete
caught_up = refl

inbox_in_order_example :
    AllStored
      (perform_all actions (chat_service chats)).partitions
      ((perform_all actions (chat_service chats)).clients 2).inbox
    × Increasing 0
        (ids_of 7 ((perform_all actions (chat_service chats)).clients 2).inbox)
        (((perform_all actions (chat_service chats)).clients 2).cursor 7)
inbox_in_order_example = inbox_in_order chats actions 2 7
