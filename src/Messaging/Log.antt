-- ===== src/Messaging/Log.antt =====
-- `KafkaLikeTopic`. The hash of a key is a parameter; a topic keeps its number of partitions.
use learn_system_design.Prelude.{
  ℕ, zero, suc, ◌+◌, ◌%◌, Option, none, some, List, [], ◌∷◌, ◌++◌, take, drop, length, get_elem?,
  set, replicate, ◌==◌, if◌then◌else◌,
}

-- `offsets` is a `defaultdict`: every group has a list.
pub record Topic (R : Type 0) : Type 0 where
  pub partitions : List (List R)
  pub offsets : ℕ → List ℕ

-- `self.partitions[p].append(r)`
unfoldable pub append_at : {R : Type 0} → ℕ → R → List (List R) → List (List R)
append_at p r [] = []
append_at zero r (log ∷ logs) = (log ++ r ∷ []) ∷ logs
append_at (suc p) r (log ∷ logs) = log ∷ append_at p r logs

-- `self.offsets[group] = offsets`
unfoldable pub set_offsets : ℕ → List ℕ → (ℕ → List ℕ) → ℕ → List ℕ
set_offsets group mine offsets g = if group == g then mine else offsets g

module _ {R : Type 0} where
  -- `KafkaLikeTopic(n_partitions)`
  unfoldable pub new_topic : ℕ → Topic R
  new_topic n = record { partitions = replicate n []; offsets = λ g. replicate n 0 }

  -- The rest of `poll`, after the two lookups; `none` is an `IndexError`.
  unfoldable pub poll_from :
      Option ℕ → Option (List R) → ℕ → ℕ → ℕ → Topic R → Topic R × Option (List R)
  unfolding set_offsets
  poll_from none log group p max_records t = (t, none)
  poll_from (some start) none group p max_records t = (t, none)
  poll_from (some start) (some log) group p max_records t =
      let records = take max_records (drop start log) in
      (
        record t {
          offsets = set_offsets group (set (t.offsets group) p (start + length records)) t.offsets;
        },
        some records,
      )

  -- `KafkaLikeTopic.poll`
  unfoldable pub poll : ℕ → ℕ → ℕ → Topic R → Topic R × Option (List R)
  unfolding poll_from
  poll group p max_records t =
      poll_from (get_elem? (t.offsets group) p) (get_elem? t.partitions p) group p max_records t

  -- `KafkaLikeTopic.seek`; a partition out of range raises and changes nothing.
  unfoldable pub seek : ℕ → ℕ → ℕ → Topic R → Topic R
  unfolding set_offsets
  seek group p offset t = record t {
    offsets = set_offsets group (set (t.offsets group) p offset) t.offsets;
  }

-- The consumer of a partition, by `consumers[p % len(consumers)]`; the remainder by 0 raises.
unfoldable pub consumer_of : {C : Type 0} → List C → ℕ → Option C
consumer_of [] p = none
consumer_of (c ∷ consumers) p = get_elem? (c ∷ consumers) (p % length (c ∷ consumers))

unfoldable pub add_consumer :
    {C : Type 0} → ℕ → Option C → Option (List (ℕ × C)) → Option (List (ℕ × C))
add_consumer p (some c) (some rest) = some ((p, c) ∷ rest)
add_consumer p none rest = none
add_consumer p (some c) none = none

-- The partitions from this one on, as many as the list, with their consumers.
unfoldable pub assign_from : {R C : Type 0} → List C → ℕ → List (List R) → Option (List (ℕ × C))
unfolding consumer_of add_consumer
assign_from consumers p [] = some []
assign_from consumers p (log ∷ logs) =
    add_consumer p (consumer_of consumers p) (assign_from consumers (suc p) logs)

-- `KafkaLikeTopic.assign`
unfoldable pub assign : {R C : Type 0} → List C → Topic R → Option (List (ℕ × C))
unfolding assign_from
assign consumers t = assign_from consumers 0 t.partitions

-- What callers do with a topic.
pub data Action (K V : Type 0) : Type 0 where
  produce_action : K → V → Action K V
  poll_action : ℕ → ℕ → ℕ → Action K V
  seek_action : ℕ → ℕ → ℕ → Action K V

module _ {K V : Type 0} (hash : K → ℕ) where
  -- The rest of `produce`, after the number of partitions is known; 0 raises a `ZeroDivisionError`.
  unfoldable pub produce_to : ℕ → K → V → Topic (K × V) → Topic (K × V) × Option ℕ
  unfolding append_at
  produce_to zero key value t = (t, none)
  produce_to (suc n) key value t = (
    record t { partitions = append_at (hash key % suc n) (key, value) t.partitions },
    some (hash key % suc n),
  )

  -- `KafkaLikeTopic.produce`
  unfoldable pub produce : K → V → Topic (K × V) → Topic (K × V) × Option ℕ
  unfolding produce_to
  produce key value t = produce_to (length t.partitions) key value t

  unfoldable pub perform : Action K V → Topic (K × V) → Topic (K × V)
  perform (produce_action key value) t = (produce key value t).0
  perform (poll_action group p max_records) t = (poll group p max_records t).0
  perform (seek_action group p offset) t = seek group p offset t

  unfoldable pub perform_all : List (Action K V) → Topic (K × V) → Topic (K × V)
  perform_all [] t = t
  perform_all (a ∷ actions) t = perform_all actions (perform a t)
