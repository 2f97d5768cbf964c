-- ===== src/Clocks/Lamport.antt =====
-- `LamportNode` of 06_distributed_systems/02_clocks_ordering_crdts.py, and nodes that send each other their clocks.
use learn_system_design.Prelude.{
  ℕ, zero, suc, ◌+◌, ◌≤◌, ◌<◌, ◌≡◌, refl, max, true, List, [], ◌∷◌, ◌++◌, drop, get_or, ◌==◌,
  if◌then◌else◌, arith, Bool-cases, ap, sym, ◌∙◌, subst, inl, inr,
}

-- `LamportNode.local_event`, from a clock to the new clock, which is its result too
unfoldable pub local_event : ℕ → ℕ
local_event clock = clock + 1

-- `LamportNode.send`
unfoldable pub send : ℕ → ℕ
unfolding local_event
send clock = local_event clock

-- `LamportNode.receive`
unfoldable pub receive : ℕ → ℕ → ℕ
receive msg_clock clock = max clock msg_clock + 1

-- What a node does. A node receives the clock that the event so many events ago returned.
pub data Event : Type 0 where
  local_at : ℕ → Event
  send_at : ℕ → Event
  receive_at : ℕ → ℕ → Event

-- The nodes' clocks, and what the events returned, the newest first.
pub record Nodes : Type 0 where
  pub clocks : ℕ → ℕ
  pub stamps : List ℕ

unfoldable pub node_of : Event → ℕ
node_of (local_at n) = n
node_of (send_at n) = n
node_of (receive_at n k) = n

-- The clock of the event's node after the event.
unfoldable pub stamp : Event → Nodes → ℕ
unfolding local_event send receive
stamp (local_at n) s = local_event (s.clocks n)
stamp (send_at n) s = send (s.clocks n)
stamp (receive_at n k) s = receive (get_or s.stamps k 0) (s.clocks n)

-- `self.clock = clock`
unfoldable pub set_clock : ℕ → ℕ → (ℕ → ℕ) → ℕ → ℕ
set_clock node clock clocks n = if node == n then clock else clocks n

unfoldable pub perform : Event → Nodes → Nodes
unfolding node_of stamp set_clock
perform e s = record {
  clocks = set_clock (node_of e) (stamp e s) s.clocks;
  stamps = stamp e s ∷ s.stamps;
}

-- The nodes after a history, the newest event first.
unfoldable pub perform_all : List Event → Nodes
unfolding perform
perform_all [] = record { clocks = λ n. 0; stamps = [] }
perform_all (e ∷ past) = perform e (perform_all past)

-- What the newest event of a history returned.
abbrev pub timestamp : List Event → ℕ
timestamp h = get_or (perform_all h).stamps 0 0

-- One history's newest event happened before another's: at one node, or as the send and the receive
-- of a message, or by way of a third event.
pub data Before : List Event → List Event → Type 0 where
  same_node :
      (e f : Event) (past mid later : List Event)
      → mid ≡ later ++ e ∷ past
      → node_of e ≡ node_of f
      → Before (e ∷ past) (f ∷ mid)
  message :
      (m n k : ℕ) (past mid : List Event)
      → drop k mid ≡ send_at m ∷ past
      → Before (send_at m ∷ past) (receive_at n k ∷ mid)
  by_way_of : {p q r : List Event} → Before p q → Before q r → Before p r

stamp_above : (e : Event) (s : Nodes) → s.clocks (node_of e) < stamp e s
unfolding stamp local_event send receive node_of
stamp_above (local_at n) s = omega arith
stamp_above (send_at n) s = omega arith
stamp_above (receive_at n k) s = omega arith

perform_up : (e : Event) (s : Nodes) (n : ℕ) → s.clocks n ≤ (perform e s).clocks n
unfolding perform set_clock
perform_up e s n = elim (Bool-cases (node_of e == n)) [
  | inl h ↦
      (let here : node_of e ≡ n = ground arith in
        let above = subst (λ m. s.clocks m < stamp e s) here (stamp_above e s) in
        rw h (omega (arith, above)))
  | inr h ↦ rw h (omega arith)
]

perform_all_up :
    (past later : List Event) (n : ℕ)
    → (perform_all past).clocks n ≤ (perform_all (later ++ past)).clocks n
unfolding perform_all
perform_all_up past [] n = omega arith
perform_all_up past (e ∷ later) n =
    let h = perform_all_up past later n in
    let u = perform_up e (perform_all (later ++ past)) n in omega (arith, h, u)

clock_of_newest :
    (e : Event) (past : List Event)
    → (perform_all (e ∷ past)).clocks (node_of e) ≡ timestamp (e ∷ past)
unfolding perform_all perform set_clock
clock_of_newest e past = let h : (node_of e == node_of e) ≡ true = ground arith in rw h refl

timestamp_above :
    (e : Event) (past : List Event) → (perform_all past).clocks (node_of e) < timestamp (e ∷ past)
unfolding perform_all perform
timestamp_above e past = stamp_above e (perform_all past)

stamps_of_drop : (k : ℕ) (h : List Event) → get_or (perform_all h).stamps k 0 ≡ timestamp (drop k h)
unfolding perform_all perform
stamps_of_drop zero h = refl
stamps_of_drop (suc k) [] = refl
stamps_of_drop (suc k) (e ∷ past) = stamps_of_drop k past

receive_above :
    (n k : ℕ) (past : List Event)
    → get_or (perform_all past).stamps k 0 < timestamp (receive_at n k ∷ past)
unfolding perform_all perform stamp receive
receive_above n k past = omega arith

-- If one event happened before another, its timestamp is less.
pub timestamp-Before : {p q : List Event} → Before p q → timestamp p < timestamp q
timestamp-Before (same_node e f past mid later h same) =
    let up = perform_all_up (e ∷ past) later (node_of e) in
    let up' =
      subst (λ x. (perform_all (e ∷ past)).clocks (node_of e) ≤ (perform_all x).clocks (node_of e))
        (sym h) up in
    let above =
      subst (λ n. (perform_all mid).clocks n < timestamp (f ∷ mid)) (sym same)
        (timestamp_above f mid) in
    let here = clock_of_newest e past in omega (arith, up', above, here)
timestamp-Before (message m n k past mid h) =
    let e : get_or (perform_all mid).stamps k 0 ≡ timestamp (send_at m ∷ past) =
      stamps_of_drop k mid ∙ ap timestamp h in
    let above = receive_above n k mid in omega (arith, e, above)
timestamp-Before (by_way_of a b) =
    let x = timestamp-Before a in let y = timestamp-Before b in omega (arith, x, y)
