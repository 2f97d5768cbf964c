-- ===== src/Chat/Actions.antt =====
-- Runs of the chat service.
use learn_system_design.Prelude.{
  ℕ, ◌≡◌, refl, true, Option, none, some, List, [], ◌∷◌, ◌++◌, ◌==◌, String, ℕ_discrete, arith,
  Bool-cases, inl, inr, sym, subst,
}
use learn_system_design.Prelude.Dict.{Dict, get}
use learn_system_design.Prelude.Maps.{update}
use learn_system_design.Chat.{
  Message, Client, Service, chat_service, append, sync, connect, disconnect, is_seen, send,
}
use learn_system_design.Chat.Delivery.{
  IsIn, ids_of, Increasing, AllStored, HasReceived, Keeps, IsPlaced, update-HasReceived,
  sync_chats-Keeps, send_to-Keeps,
}

-- What the demo does: a user connects to a gateway, disconnects, or sends a text to a chat with an id
-- of its own.
pub data Action : Type 0 where
  connect_to : ℕ → ℕ → Action
  disconnect_from : ℕ → ℕ → Action
  send_text : ℕ → ℕ → String → ℕ → Action

unfoldable pub perform : Action → Service → Service
perform (connect_to g user) s = connect g user s
perform (disconnect_from g user) s = disconnect g user s
perform (send_text sender chat text id) s = (send sender chat text id s).0

unfoldable pub perform_all : List Action → Service → Service
perform_all [] s = s
perform_all (a ∷ actions) s = perform_all actions (perform a s)

record IsValid (s : Service) : Type 0 where
  placed : IsPlaced s.partitions
  clients : (u : ℕ) → HasReceived s.partitions (s.clients u)

Keeps-IsValid :
    (parts : ℕ → List Message) (s : Service) → IsPlaced parts → Keeps parts s → IsValid s
Keeps-IsValid parts s placed k = record {
  placed = subst IsPlaced (sym k.same) placed;
  clients = λ u. subst (λ p. HasReceived p (s.clients u)) (sym k.same) (k.clients u);
}

gateway-HasReceived :
    (parts : ℕ → List Message) (c : Client) (g : Option ℕ)
    → HasReceived parts c
    → HasReceived parts (record c { gateway = g })
gateway-HasReceived parts c g h = record { stored = h.stored; ordered = h.ordered }

connect-IsValid : (g u : ℕ) (s : Service) → IsValid s → IsValid (connect g u s)
unfolding connect sync
connect-IsValid g u s v = Keeps-IsValid s.partitions _ v.placed (
    sync_chats-Keeps s.partitions s.chats u _ v.placed (record {
      same = refl;
      clients = λ w.
          update-HasReceived s.partitions s.clients u (record (s.clients u) { gateway = some g }) w
            (gateway-HasReceived s.partitions (s.clients u) (some g) (v.clients u)) (v.clients w);
    }))

disconnect-IsValid : (g u : ℕ) (s : Service) → IsValid s → IsValid (disconnect g u s)
unfolding disconnect
disconnect-IsValid g u s v = record {
  placed = v.placed;
  clients = λ w.
      update-HasReceived s.partitions s.clients u (record (s.clients u) { gateway = none }) w
        (gateway-HasReceived s.partitions (s.clients u) none (v.clients u)) (v.clients w);
}

-- A partition has grown by a message.
abbrev grown : (ℕ → List Message) → Message → ℕ → List Message
grown parts m = update parts m.chat (parts m.chat ++ m ∷ [])

IsIn-append : (x m : Message) (ms : List Message) → IsIn x ms → IsIn x (ms ++ m ∷ [])
IsIn-append x m [] i = absurd i
IsIn-append x m (y ∷ ms) (inl e) = inl e
IsIn-append x m (y ∷ ms) (inr i) = inr (IsIn-append x m ms i)

IsIn-append_self : (m : Message) (ms : List Message) → IsIn m (ms ++ m ∷ [])
IsIn-append_self m [] = inl refl
IsIn-append_self m (y ∷ ms) = inr (IsIn-append_self m ms)

IsIn-grown :
    (parts : ℕ → List Message) (x m : Message) (chat : ℕ)
    → IsIn x (parts chat)
    → IsIn x (grown parts m chat)
unfolding update
IsIn-grown parts x m chat i = elim (Bool-cases (m.chat == chat)) [
  | inl e ↦
      (let same : m.chat ≡ chat = ground arith in
        rw e (subst (λ c. IsIn x (parts c ++ m ∷ [])) (sym same) (IsIn-append x m (parts chat) i)))
  | inr e ↦ rw e i
]

IsIn-grown_self : (parts : ℕ → List Message) (m : Message) → IsIn m (grown parts m m.chat)
unfolding update
IsIn-grown_self parts m =
    let e : (m.chat == m.chat) ≡ true = ground arith in rw e (IsIn-append_self m (parts m.chat))

AllStored-grown :
    (parts : ℕ → List Message) (m : Message) (ms : List Message)
    → AllStored parts ms
    → AllStored (grown parts m) ms
AllStored-grown parts m [] a = tt
AllStored-grown parts m (x ∷ ms) (i, a) =
    (IsIn-grown parts x m x.chat i, AllStored-grown parts m ms a)

AllStored-append_self :
    (parts : ℕ → List Message) (m : Message) (ms : List Message)
    → AllStored parts ms
    → AllStored (grown parts m) (ms ++ m ∷ [])
AllStored-append_self parts m [] a = (IsIn-grown_self parts m, tt)
AllStored-append_self parts m (x ∷ ms) (i, a) =
    (IsIn-grown parts x m x.chat i, AllStored-append_self parts m ms a)

grown-IsPlaced :
    (parts : ℕ → List Message) (m : Message) → IsPlaced parts → IsPlaced (grown parts m)
grown-IsPlaced parts m placed chat = elim (Bool-cases (m.chat == chat)) [
  | inl e ↦
      (let here : grown parts m chat ≡ parts m.chat ++ m ∷ [] = unfold update in rw e refl in
        subst (AllStored (grown parts m)) (sym here)
          (AllStored-append_self parts m (parts m.chat) (placed m.chat)))
  | inr e ↦
      (let there : grown parts m chat ≡ parts chat = unfold update in rw e refl in
        subst (AllStored (grown parts m)) (sym there)
          (AllStored-grown parts m (parts chat) (placed chat)))
]

send-IsValid :
    (sender chat : ℕ) (text : String) (id : ℕ) (s : Service)
    → IsValid s
    → IsValid (send sender chat text id s).0
unfolding send append
send-IsValid sender chat text id s v =
    let m : Message = record { id = s.next_id; chat = chat; sender = sender; text = text } in
    let kept : (u : ℕ) → HasReceived (grown s.partitions m) (s.clients u) = λ u. record {
      stored = AllStored-grown s.partitions m (s.clients u).inbox (v.clients u).stored;
      ordered = (v.clients u).ordered;
    } in
    elim (Bool-cases (is_seen sender id s.seen)) [
      | inl e ↦ rw e v
      | inr e ↦ rw e (
          Keeps-IsValid (grown s.partitions m) _ (grown-IsPlaced s.partitions m v.placed) (
            send_to-Keeps (grown s.partitions m) (get ℕ_discrete chat s.chats) m _
              (record { same = refl; clients = kept }) (IsIn-grown_self s.partitions m)))
    ]

perform_all-IsValid :
    (actions : List Action) (s : Service) → IsValid s → IsValid (perform_all actions s)
unfolding perform_all perform
perform_all-IsValid [] s v = v
perform_all-IsValid (connect_to g u ∷ actions) s v =
    perform_all-IsValid actions (connect g u s) (connect-IsValid g u s v)
perform_all-IsValid (disconnect_from g u ∷ actions) s v =
    perform_all-IsValid actions (disconnect g u s) (disconnect-IsValid g u s v)
perform_all-IsValid (send_text u chat text id ∷ actions) s v =
    perform_all-IsValid actions (send u chat text id s).0 (send-IsValid u chat text id s v)

-- However users connect, disconnect and send, with retries or not: every message in a user's inbox is
-- stored in its chat's partition, and a chat's messages stand there in the order of their ids, none of
-- them twice and none above the user's cursor.
pub inbox_in_order :
    (chats : Dict ℕ (List ℕ)) (actions : List Action) (user chat : ℕ)
    → AllStored
        (perform_all actions (chat_service chats)).partitions
        ((perform_all actions (chat_service chats)).clients user).inbox
      × Increasing 0
          (ids_of chat ((perform_all actions (chat_service chats)).clients user).inbox)
          (((perform_all actions (chat_service chats)).clients user).cursor chat)
inbox_in_order chats actions user chat =
    let start : IsValid (chat_service chats) =
      unfold chat_service in
      record {
        placed = λ c. tt;
        clients = λ u. record { stored = tt; ordered = λ c. omega arith };
      } in
    let v = perform_all-IsValid actions (chat_service chats) start in
    ((v.clients user).stored, (v.clients user).ordered chat)
