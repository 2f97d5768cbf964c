-- ===== src/Quorum.antt =====
-- 06_distributed_systems/01_quorum_replication.py: `Replica` and `QuorumStore`. A replica is named by its place in the
-- list, and what `rng.sample` picks is a list of places that a call is given. Answers are compared by
-- their versions: two answers of one version are the same, since every put takes a new one.
pub mod Writes
pub mod Moves
pub mod Latest
pub mod Reads
mod Stale
mod Tests
use learn_system_design.Prelude.{
  ℕ, zero, suc, ◌+◌, Bool, true, false, ◌&&◌, Option, none, some, List, [], ◌∷◌, ◌++◌, take, length,
  leb, ltb, ◌==◌, if◌then◌else◌, get_elem?, set, replicate,
}
use learn_system_design.Prelude.Dict.{Dict, get, put}

-- A version and a value; `(0, None)` stands for a key that is not there.
abbrev pub Answer : Type 0 → Type 0
Answer V = ℕ × Option V

pub record Replica (K V : Type 0) : Type 0 where
  pub store : Dict K (Answer V)
  pub up : Bool

pub record QuorumStore (K V : Type 0) : Type 0 where
  pub replicas : List (Replica K V)
  pub n : ℕ
  pub r : ℕ
  pub w : ℕ
  pub version : ℕ
  pub read_repairs : ℕ

-- `QuorumStore(n, r, w, rng)`
unfoldable pub new_store : {K V : Type 0} → ℕ → ℕ → ℕ → QuorumStore K V
new_store n r w = record {
  replicas = replicate n (record { store = []; up = true });
  n = n;
  r = r;
  w = w;
  version = 0;
  read_repairs = 0;
}

unfoldable pub or_none : {V : Type 0} → Option (Answer V) → Answer V
or_none none = (0, none)
or_none (some a) = a

module _ {K V : Type 0} (dec : Discrete K) where
  -- `self.store.get(key, (0, None))`
  unfoldable pub stored : K → Replica K V → Answer V
  unfolding or_none
  stored key x = or_none (get dec key x.store)

  -- `Replica.write`
  unfoldable pub write : K → Answer V → Replica K V → Replica K V × Bool
  unfolding stored
  write key a x =
      if x.up
      then (
        if ltb (stored key x).0 a.0 then record x { store = put dec key a x.store } else x,
        true,
      )
      else (x, false)

  -- `Replica.read`
  unfoldable pub read : K → Replica K V → Option (Answer V)
  unfolding stored
  read key x = if x.up then some (stored key x) else none

  -- A write to the replica at a place.
  unfoldable pub write_at : ℕ → K → Answer V → List (Replica K V) → List (Replica K V) × Bool
  unfolding write
  write_at i key a [] = ([], false)
  write_at zero key a (x ∷ replicas) = let (x', done) = write key a x in (x' ∷ replicas, done)
  write_at (suc i) key a (x ∷ replicas) =
      let (replicas', done) = write_at i key a replicas in (x ∷ replicas', done)

  -- `sum(r.write(...) for r in targets)`
  unfoldable pub write_all : List ℕ → K → Answer V → List (Replica K V) → List (Replica K V) × ℕ
  unfolding write_at
  write_all [] key a replicas = (replicas, 0)
  write_all (i ∷ targets) key a replicas =
      let (replicas', done) = write_at i key a replicas in
      let (final, acks) = write_all targets key a replicas' in
      (final, (if done then 1 else 0) + acks)

-- `self.replicas[:]`, as the places from one on.
unfoldable pub places : ℕ → ℕ → List ℕ
places i zero = []
places i (suc n) = i ∷ places (suc i) n

-- The places that a put reaches: those of a sample, or all.
unfoldable pub targets_of : Option (List ℕ) → ℕ → List ℕ
unfolding places
targets_of none n = places 0 n
targets_of (some sample) n = sample

unfoldable pub is_up : {K V : Type 0} → List (Replica K V) → ℕ → Bool
is_up [] i = false
is_up (x ∷ replicas) zero = x.up
is_up (x ∷ replicas) (suc i) = is_up replicas i

-- `[r for r in ... if r.up]`
unfoldable pub only_up : {K V : Type 0} → List (Replica K V) → List ℕ → List ℕ
unfolding is_up
only_up replicas [] = []
only_up replicas (i ∷ places) =
    let rest = only_up replicas places in if is_up replicas i then i ∷ rest else rest

-- What `get` returns: an error text, a value, or a `ValueError` of `max` where no answer is asked for.
pub data Reply (V : Type 0) : Type 0 where
  not_enough : Reply V
  raised : Reply V
  value : Option V → Reply V

module _ {K V : Type 0} (dec : Discrete K) where
  -- `QuorumStore.put`
  unfoldable pub put_value : K → V → Option (List ℕ) → QuorumStore K V → QuorumStore K V × Bool
  unfolding write_all targets_of
  put_value key v reach s =
      let (replicas, acks) =
        write_all dec (targets_of reach s.n) key (s.version + 1, some v) s.replicas in
      (record s { replicas = replicas; version = s.version + 1 }, leb s.w acks)

  -- What is stored at a place.
  unfoldable pub stored_at : K → List (Replica K V) → ℕ → Answer V
  stored_at key [] i = (0, none)
  stored_at key (x ∷ replicas) zero = stored dec key x
  stored_at key (x ∷ replicas) (suc i) = stored_at key replicas i

  -- `max(a for _, a in answers)` from the second answer on, the first of the greatest.
  unfoldable pub newest_from : K → List (Replica K V) → Answer V → List ℕ → Answer V
  unfolding stored_at
  newest_from key replicas best [] = best
  newest_from key replicas best (i ∷ responders) =
      newest_from key replicas
        (if ltb best.0 (stored_at key replicas i).0 then stored_at key replicas i else best)
        responders

  -- A round of the repair, over the replicas as they were read and as they are by now.
  unfoldable pub repair_one :
      K → Answer V → List (Replica K V) → ℕ → QuorumStore K V → QuorumStore K V
  unfolding write_at stored_at
  repair_one key newest old i s =
      if ltb (stored_at key old i).0 newest.0
      then record s {
        replicas = (write_at dec i key newest s.replicas).0;
        read_repairs = s.read_repairs + 1;
      }
      else s

  -- `for r, a in answers`
  unfoldable pub repair :
      K → Answer V → List (Replica K V) → List ℕ → QuorumStore K V → QuorumStore K V
  unfolding repair_one
  repair key newest old [] s = s
  repair key newest old (i ∷ responders) s =
      repair key newest old responders (repair_one key newest old i s)

  -- `get`, from the answers of enough responders on
  unfoldable pub get_from : K → Bool → List ℕ → QuorumStore K V → QuorumStore K V × Reply V
  unfolding newest_from repair
  get_from key read_repair [] s = (s, raised)
  get_from key read_repair (i ∷ responders) s =
      let newest = newest_from key s.replicas (stored_at key s.replicas i) responders in
      (if read_repair then repair key newest s.replicas (i ∷ responders) s else s, value newest.1)

  -- `QuorumStore.get`
  unfoldable pub get_value : K → Bool → List ℕ → QuorumStore K V → QuorumStore K V × Reply V
  unfolding get_from only_up
  get_value key read_repair sample s =
      let responders = take s.r (only_up s.replicas sample) in
      if ltb (length responders) s.r then (s, not_enough) else get_from key read_repair responders s

-- `replicas[i].up = up`
unfoldable pub set_up : {K V : Type 0} → ℕ → Bool → List (Replica K V) → List (Replica K V)
set_up i up [] = []
set_up zero up (x ∷ replicas) = record x { up = up } ∷ replicas
set_up (suc i) up (x ∷ replicas) = x ∷ set_up i up replicas

-- What happens to a store: puts, gets, and replicas that go down and come up.
pub data Action (K V : Type 0) : Type 0 where
  put_action : K → V → Option (List ℕ) → Action K V
  get_action : K → Bool → List ℕ → Action K V
  up_action : ℕ → Bool → Action K V

module _ {K V : Type 0} (dec : Discrete K) where
  unfoldable pub perform : Action K V → QuorumStore K V → QuorumStore K V
  perform (put_action key v reach) s = (put_value dec key v reach s).0
  perform (get_action key read_repair sample) s = (get_value dec key read_repair sample s).0
  perform (up_action i up) s = record s { replicas = set_up i up s.replicas }

  unfoldable pub perform_all : List (Action K V) → QuorumStore K V → QuorumStore K V
  perform_all [] s = s
  perform_all (a ∷ actions) s = perform_all actions (perform a s)
