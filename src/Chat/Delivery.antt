-- ===== src/Chat/Delivery.antt =====
-- What the clients of the chat service receive.
use learn_system_design.Prelude.{
  ℕ, zero, suc, ◌≤◌, ◌<◌, ◌≡◌, Option, none, some, List, [], ◌∷◌, ◌++◌, leb, ltb, ◌==◌,
  if◌then◌else◌, take, ℕ_discrete, arith, Bool-cases, inl, inr, ◌⊎◌, sym, subst,
}
use learn_system_design.Prelude.Dict.{Dict, get}
use learn_system_design.Prelude.Maps.{update}
use learn_system_design.Chat.{
  Message, Client, Service, newer, after, receive, receive_at, receive_all, is_member, sync_chats,
  push, push_to, deliver, deliver_all, send_to,
}

abbrev pub IsIn : Message → List Message → Type 0
IsIn m [] = ⊥
IsIn m (x ∷ xs) = (m ≡ x) ⊎ IsIn m xs

-- The ids of a chat's messages, in order.
abbrev pub ids_of : ℕ → List Message → List ℕ
ids_of chat [] = []
ids_of chat (m ∷ ms) = let rest = ids_of chat ms in if m.chat == chat then m.id ∷ rest else rest

-- The numbers strictly increase, from above the first bound up to the second.
abbrev pub Increasing : ℕ → List ℕ → ℕ → Type 0
Increasing lo [] hi = lo ≤ hi
Increasing lo (x ∷ xs) hi = (lo < x) × Increasing x xs hi

-- Each message is stored in its chat's partition.
abbrev pub AllStored : (ℕ → List Message) → List Message → Type 0
AllStored parts [] = Unit
AllStored parts (m ∷ ms) = IsIn m (parts m.chat) × AllStored parts ms

-- A client has received stored messages, each chat's in the order of the ids, up to its cursor.
pub record HasReceived (parts : ℕ → List Message) (c : Client) : Type 0 where
  pub stored : AllStored parts c.inbox
  pub ordered : (chat : ℕ) → Increasing 0 (ids_of chat c.inbox) (c.cursor chat)

Increasing-append :
    (lo : ℕ) (xs : List ℕ) (hi x : ℕ)
    → Increasing lo xs hi
    → hi < x
    → Increasing lo (xs ++ x ∷ []) x
Increasing-append lo [] hi x h p = (omega arith, omega arith)
Increasing-append lo (y ∷ xs) hi x (q, h) p = (q, Increasing-append y xs hi x h p)

ids_of-append :
    (chat : ℕ) (ms : List Message) (m : Message)
    → ids_of chat (ms ++ m ∷ [])
      ≡ (if m.chat == chat then ids_of chat ms ++ m.id ∷ [] else ids_of chat ms)
ids_of-append chat [] m = ground arith
ids_of-append chat (x ∷ ms) m = ground (arith, ids_of-append chat ms m)

AllStored-append :
    (parts : ℕ → List Message) (ms : List Message) (m : Message)
    → AllStored parts ms
    → IsIn m (parts m.chat)
    → AllStored parts (ms ++ m ∷ [])
AllStored-append parts [] m s h = (h, tt)
AllStored-append parts (x ∷ ms) m (hx, s) h = (hx, AllStored-append parts ms m s h)

pub receive-HasReceived :
    (parts : ℕ → List Message) (c : Client) (m : Message)
    → HasReceived parts c
    → IsIn m (parts m.chat)
    → HasReceived parts (receive m c).0
unfolding receive update
receive-HasReceived parts c m h i = elim (Bool-cases (leb m.id (c.cursor m.chat))) [
  | inl e ↦ rw e h
  | inr e ↦ rw e (record {
    stored = AllStored-append parts c.inbox m h.stored i;
    ordered = λ chat. elim (Bool-cases (m.chat == chat)) [
      | inl here ↦
          (let same : m.chat ≡ chat = ground arith in
            let old =
              subst (λ x. Increasing 0 (ids_of chat c.inbox) (c.cursor x)) (sym same)
                (h.ordered chat) in
            rw (ids_of-append, here)
              (Increasing-append 0 (ids_of chat c.inbox) (c.cursor m.chat) m.id old (ground arith)))
      | inr there ↦ rw (ids_of-append, there) (h.ordered chat)
    ];
  })
]

-- The partitions are these, and every client has received from them.
pub record Keeps (parts : ℕ → List Message) (s : Service) : Type 0 where
  pub same : s.partitions ≡ parts
  pub clients : (u : ℕ) → HasReceived parts (s.clients u)

pub update-HasReceived :
    (parts : ℕ → List Message) (clients : ℕ → Client) (u : ℕ) (c : Client) (v : ℕ)
    → HasReceived parts c
    → HasReceived parts (clients v)
    → HasReceived parts (update clients u c v)
unfolding update
update-HasReceived parts clients u c v h k = elim (Bool-cases (u == v)) [
  | inl e ↦ rw e h
  | inr e ↦ rw e k
]

module _ (parts : ℕ → List Message) where
  receive_at-Keeps :
      (u : ℕ) (m : Message) (s : Service)
      → Keeps parts s
      → IsIn m (parts m.chat)
      → Keeps parts (receive_at u m s).0
  unfolding receive_at
  receive_at-Keeps u m s k i = record {
    same = k.same;
    clients = λ v.
        update-HasReceived parts s.clients u (receive m (s.clients u)).0 v
          (receive-HasReceived parts (s.clients u) m (k.clients u) i) (k.clients v);
  }

  receive_all-Keeps :
      (u : ℕ) (ms : List Message) (s : Service)
      → Keeps parts s
      → AllStored parts ms
      → Keeps parts (receive_all u ms s)
  unfolding receive_all
  receive_all-Keeps u [] s k a = k
  receive_all-Keeps u (m ∷ ms) s k (i, a) =
      receive_all-Keeps u ms (receive_at u m s).0 (receive_at-Keeps u m s k i) a

  AllStored-newer :
      (last_id : ℕ) (ms : List Message) → AllStored parts ms → AllStored parts (newer last_id ms)
  unfolding newer
  AllStored-newer last_id [] a = tt
  AllStored-newer last_id (m ∷ ms) (i, a) = elim (Bool-cases (ltb last_id m.id)) [
    | inl e ↦ rw e (i, AllStored-newer last_id ms a)
    | inr e ↦ rw e (AllStored-newer last_id ms a)
  ]

  AllStored-take : (n : ℕ) (ms : List Message) → AllStored parts ms → AllStored parts (take n ms)
  AllStored-take zero ms a = tt
  AllStored-take (suc n) [] a = tt
  AllStored-take (suc n) (m ∷ ms) (i, a) = (i, AllStored-take n ms a)

  -- Every partition holds messages of its chat alone.
  abbrev pub IsPlaced : Type 0
  IsPlaced = (chat : ℕ) → AllStored parts (parts chat)

  after-AllStored :
      (chat last_id : ℕ) (s : Service)
      → IsPlaced
      → Keeps parts s
      → AllStored parts (after chat last_id s)
  unfolding after
  after-AllStored chat last_id s placed k = AllStored-take 50 (newer last_id (s.partitions chat)) (
      AllStored-newer last_id (s.partitions chat)
        (subst (λ (p : ℕ → List Message). AllStored parts (p chat)) (sym k.same) (placed chat)))

  pub sync_chats-Keeps :
      (chats : Dict ℕ (List ℕ)) (u : ℕ) (s : Service)
      → IsPlaced
      → Keeps parts s
      → Keeps parts (sync_chats chats u s)
  unfolding sync_chats
  sync_chats-Keeps [] u s placed k = k
  sync_chats-Keeps ((chat, members) ∷ chats) u s placed k =
      sync_chats-Keeps chats u _ placed (elim (Bool-cases (is_member u members)) [
        | inl e ↦ rw e (
            receive_all-Keeps u (after chat ((s.clients u).cursor chat) s) s k
              (after-AllStored chat ((s.clients u).cursor chat) s placed k))
        | inr e ↦ rw e k
      ])

  push_to-Keeps :
      (g : Option ℕ) (u : ℕ) (m : Message) (s : Service)
      → Keeps parts s
      → IsIn m (parts m.chat)
      → Keeps parts (push_to g u m s).0
  unfolding push_to
  push_to-Keeps none u m s k i = k
  push_to-Keeps (some g) u m s k i = elim (Bool-cases (s.connected g u)) [
    | inl e ↦ rw (e, push) (receive_at-Keeps u m s k i)
    | inr e ↦ rw (e, push) k
  ]

  deliver-Keeps :
      (u : ℕ) (m : Message) (s : Service)
      → Keeps parts s
      → IsIn m (parts m.chat)
      → Keeps parts (deliver u m s)
  unfolding deliver
  deliver-Keeps u m s k i =
      let pushed = push_to-Keeps (get ℕ_discrete u s.registry) u m s k i in
      elim (Bool-cases (u == m.sender)) [
        | inl e ↦ rw e k
        | inr e ↦ (elim (Bool-cases (push_to (get ℕ_discrete u s.registry) u m s).1) [
          | inl f ↦ rw (e, f) pushed
          | inr f ↦ rw (e, f) (record { same = pushed.same; clients = pushed.clients })
        ])
      ]

  deliver_all-Keeps :
      (members : List ℕ) (m : Message) (s : Service)
      → Keeps parts s
      → IsIn m (parts m.chat)
      → Keeps parts (deliver_all members m s)
  unfolding deliver_all
  deliver_all-Keeps [] m s k i = k
  deliver_all-Keeps (u ∷ members) m s k i =
      deliver_all-Keeps members m (deliver u m s) (deliver-Keeps u m s k i) i

  pub send_to-Keeps :
      (members : Option (List ℕ)) (m : Message) (s : Service)
      → Keeps parts s
      → IsIn m (parts m.chat)
      → Keeps parts (send_to members m s).0
  unfolding send_to
  send_to-Keeps none m s k i = k
  send_to-Keeps (some members) m s k i = deliver_all-Keeps members m s k i
