-- ===== src/Chat.antt =====
-- 11_case_studies/03_chat_system.py: the message store, the clients, the gateways and the service, in one
-- state that they share. Users, chats, gateways and the clients' message ids are numbers, a user has
-- one client, and `connected` says which users a gateway's `connections` holds.
pub mod Delivery
pub mod Actions
mod Tests
use learn_system_design.Prelude.{
  ℕ, ◌+◌, Bool, true, false, not, ◌&&◌, ◌||◌, Option, none, some, List, [], ◌∷◌, ◌++◌, leb, ltb,
  ◌==◌, if◌then◌else◌, take, String, ℕ_discrete,
}
use learn_system_design.Prelude.Maps.{update}
use learn_system_design.Prelude.Dict.{Dict, get, put, remove}

pub record Message : Type 0 where
  pub id : ℕ
  pub chat : ℕ
  pub sender : ℕ
  pub text : String

-- `cursor` is a `defaultdict(int)`.
pub record Client : Type 0 where
  pub inbox : List Message
  pub cursor : ℕ → ℕ
  pub gateway : Option ℕ

-- `partitions` is a `defaultdict(list)`, `seen` is `seen_client_ids`, and `next_id` is what `ids` gives next.
pub record Service : Type 0 where
  pub partitions : ℕ → List Message
  pub seen : List (ℕ × ℕ)
  pub registry : Dict ℕ ℕ
  pub connected : ℕ → ℕ → Bool
  pub clients : ℕ → Client
  pub chats : Dict ℕ (List ℕ)
  pub next_id : ℕ
  pub push_notifications : List (ℕ × String)

-- `ChatService()` with the chats of the demo
unfoldable pub chat_service : Dict ℕ (List ℕ) → Service
chat_service chats = record {
  partitions = λ c. [];
  seen = [];
  registry = [];
  connected = λ g u. false;
  clients = λ u. record { inbox = []; cursor = λ c. 0; gateway = none };
  chats = chats;
  next_id = 1;
  push_notifications = [];
}

-- `MessageStore.append`
unfoldable pub append : ℕ → Message → Service → Service
unfolding update
append chat m s = record s { partitions = update s.partitions chat (s.partitions chat ++ m ∷ []) }

-- `[m for m in ... if m["id"] > last_id]`
unfoldable pub newer : ℕ → List Message → List Message
newer last_id [] = []
newer last_id (m ∷ ms) = let rest = newer last_id ms in if ltb last_id m.id then m ∷ rest else rest

-- `MessageStore.after`, with its limit of 50
unfoldable pub after : ℕ → ℕ → Service → List Message
unfolding newer
after chat last_id s = take 50 (newer last_id (s.partitions chat))

-- `Client.receive`
unfoldable pub receive : Message → Client → Client × Bool
unfolding update
receive m c =
    if leb m.id (c.cursor m.chat)
    then (c, false)
    else (record c { inbox = c.inbox ++ m ∷ []; cursor = update c.cursor m.chat m.id }, true)

-- A user's client receives a message.
unfoldable pub receive_at : ℕ → Message → Service → Service × Bool
unfolding update
receive_at user m s =
    let (c, done) = receive m (s.clients user) in
    (record s { clients = update s.clients user c }, done)

-- `for m in ...: client.receive(m)`
unfoldable pub receive_all : ℕ → List Message → Service → Service
receive_all user [] s = s
receive_all user (m ∷ ms) s = receive_all user ms (receive_at user m s).0

-- `user in members`
unfoldable pub is_member : ℕ → List ℕ → Bool
is_member user [] = false
is_member user (m ∷ members) = m == user || is_member user members

-- The loop of `sync` over the chats.
unfoldable pub sync_chats : Dict ℕ (List ℕ) → ℕ → Service → Service
sync_chats [] user s = s
sync_chats ((chat, members) ∷ chats) user s = sync_chats chats user (
    if is_member user members
    then receive_all user (after chat ((s.clients user).cursor chat) s) s
    else s)

-- `ChatService.sync`
unfoldable pub sync : ℕ → Service → Service
unfolding sync_chats
sync user s = sync_chats s.chats user s

-- `Gateway.connect`
unfoldable pub connect : ℕ → ℕ → Service → Service
unfolding update
connect g user s = sync user (record s {
  connected = update s.connected g (update (s.connected g) user true);
  clients = update s.clients user (record (s.clients user) { gateway = some g });
  registry = put ℕ_discrete user g s.registry;
})

-- `Gateway.disconnect`
unfoldable pub disconnect : ℕ → ℕ → Service → Service
unfolding update
disconnect g user s = record s {
  connected = update s.connected g (update (s.connected g) user false);
  clients = update s.clients user (record (s.clients user) { gateway = none });
  registry = remove ℕ_discrete user s.registry;
}

-- `Gateway.push`
unfoldable pub push : ℕ → ℕ → Message → Service → Service × Bool
push g user m s = if s.connected g user then receive_at user m s else (s, false)

-- `gw_name and self.gateways[gw_name].push(member, msg)`
unfoldable pub push_to : Option ℕ → ℕ → Message → Service → Service × Bool
unfolding push
push_to none user m s = (s, false)
push_to (some g) user m s = push g user m s

-- A member's turn in the loop of `send`.
unfoldable pub deliver : ℕ → Message → Service → Service
unfolding push_to
deliver member m s =
    if member == m.sender
    then s
    else (let (s', done) = push_to (get ℕ_discrete member s.registry) member m s in
        if done
        then s'
        else record s' { push_notifications = s'.push_notifications ++ (member, m.text) ∷ [] })

-- The loop of `send` over the members.
unfoldable pub deliver_all : List ℕ → Message → Service → Service
deliver_all [] m s = s
deliver_all (member ∷ members) m s = deliver_all members m (deliver member m s)

-- `(sender, client_msg_id) in seen_client_ids`
unfoldable pub is_seen : ℕ → ℕ → List (ℕ × ℕ) → Bool
is_seen sender id [] = false
is_seen sender id ((u, i) ∷ seen) = u == sender && i == id || is_seen sender id seen

pub data Status : Type 0 where
  ignored missing_chat sent : Status

-- The end of `send`, once the chat's members are looked up; without them the lookup raises a
-- `KeyError`, and what was stored stays.
unfoldable pub send_to : Option (List ℕ) → Message → Service → Service × Status
unfolding deliver_all
send_to none m s = (s, missing_chat)
send_to (some members) m s = (deliver_all members m s, sent)

-- `ChatService.send`
unfoldable pub send : ℕ → ℕ → String → ℕ → Service → Service × Status
unfolding is_seen append send_to
send sender chat text client_msg_id s =
    if is_seen sender client_msg_id s.seen
    then (s, ignored)
    else (let m : Message = record { id = s.next_id; chat = chat; sender = sender; text = text } in
        send_to (get ℕ_discrete chat s.chats) m (
          append chat m
            (record s { seen = (sender, client_msg_id) ∷ s.seen; next_id = s.next_id + 1 })))
