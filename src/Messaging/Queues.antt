-- ===== src/Messaging/Queues.antt =====
-- `WorkQueue` and `PubSubTopic`.
use learn_system_design.Prelude.{Option, none, some, List, [], ◌∷◌, ◌++◌}
use learn_system_design.Prelude.Dict.{Dict, get, put}

module _ {M : Type 0} where
  -- `WorkQueue.publish`
  unfoldable pub publish_job : M → List M → List M
  publish_job msg messages = messages ++ msg ∷ []

  unfoldable pub or_empty : Option (List M) → List M
  or_empty none = []
  or_empty (some ms) = ms

module _ {C : Type 0} where
  -- `next(rr)` of the cycle over the consumers, with what is left of the present round; `none` is the
  -- `StopIteration` of a cycle over nothing.
  unfoldable pub next_consumer : List C → List C → Option (C × List C)
  next_consumer consumers (c ∷ round) = some (c, round)
  next_consumer [] [] = none
  next_consumer (c ∷ consumers) [] = some (c, consumers)

module _ {M C : Type 0} where
  -- `received[c].append(m)`, of a `defaultdict(list)`
  unfoldable pub hand_to : Discrete C → C → M → Dict C (List M) → Dict C (List M)
  unfolding or_empty
  hand_to dec c m received = put dec c (or_empty (get dec c received) ++ m ∷ []) received

-- What `run` has reached: the messages left, and what the consumers received.
pub record Run (M C : Type 0) : Type 0 where
  pub left : List M
  pub received : Dict C (List M)

module _ {M C : Type 0} (dec : Discrete C) where
  -- The loop of `WorkQueue.run`, from the present round on. It stops with messages left when `next` raises.
  unfoldable pub run_loop : List C → List C → List M → Dict C (List M) → Run M C
  unfolding next_consumer hand_to
  run_loop consumers round [] received = record { left = []; received = received }
  run_loop [] [] (m ∷ messages) received = record { left = m ∷ messages; received = received }
  run_loop (c ∷ consumers) [] (m ∷ messages) received =
      run_loop (c ∷ consumers) consumers messages (hand_to dec c m received)
  run_loop consumers (c ∷ round) (m ∷ messages) received =
      run_loop consumers round messages (hand_to dec c m received)

  -- `WorkQueue.run`
  unfoldable pub run : List C → List M → Run M C
  unfolding run_loop
  run consumers messages = run_loop consumers consumers messages []

-- `PubSubTopic.subscribe`: a new inbox, also for a name that is there.
unfoldable pub subscribe : {M C : Type 0} → Discrete C → C → Dict C (List M) → Dict C (List M)
subscribe dec name subscribers = put dec name [] subscribers

-- `PubSubTopic.publish`
unfoldable pub publish : {M C : Type 0} → M → Dict C (List M) → Dict C (List M)
publish msg [] = []
publish msg ((name, inbox) ∷ subscribers) = (name, inbox ++ msg ∷ []) ∷ publish msg subscribers
