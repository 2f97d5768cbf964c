-- ===== src/Replication.antt =====
-- 05_databases/04_replication.py: `Replica` and `ReplicatedDB`. The leader's name is 0, the followers' 1, 2
-- and so on, and a follower's backlog in `pending` stands beside the follower. A millisecond is
-- 1000 units, and `uniform` and `randint` answer the generator's draws by their number.
pub mod Failover
pub mod Promotion
pub mod Lost
mod Tests
use learn_system_design.Prelude.{
  ℕ, zero, suc, ◌+◌, Bool, true, false, Option, none, some, List, [], ◌∷◌, ◌++◌, map, take, drop,
  length, ltb, if◌then◌else◌, min, max, ite,
}

pub data Mode : Type 0 where
  async sync semi : Mode

module _ (E : Type 0) where
  pub record Replica : Type 0 where
    pub name : ℕ
    pub log : List E
    pub alive : Bool

pub record Follower (E : Type 0) : Type 0 where
  pub replica : Replica E
  pub pending : List E

-- `draws` counts what was taken from `rng`.
pub record ReplicatedDb (E : Type 0) : Type 0 where
  pub mode : Mode
  pub leader : Replica E
  pub followers : List (Follower E)
  pub draws : ℕ
  pub latency : ℕ
  pub epoch : ℕ

module _ {E : Type 0} where
  -- `Replica(name)`
  unfoldable pub new_replica : ℕ → Replica E
  new_replica name = record { name = name; log = []; alive = true }

  -- Followers named from the first number on, with empty backlogs.
  unfoldable pub new_followers : ℕ → ℕ → List (Follower E)
  unfolding new_replica
  new_followers name zero = []
  new_followers name (suc n) =
      record { replica = new_replica name; pending = [] } ∷ new_followers (suc name) n

  -- `ReplicatedDB(mode, n_followers)`
  unfoldable pub new_db : Mode → ℕ → ReplicatedDb E
  unfolding new_replica new_followers
  new_db mode n_followers = record {
    mode = mode;
    leader = new_replica 0;
    followers = new_followers 1 n_followers;
    draws = 0;
    latency = 0;
    epoch = 1;
  }

  -- `Replica.apply`
  unfoldable pub apply : E → Replica E → Replica E
  apply entry r = record r { log = r.log ++ entry ∷ [] }

  -- `f.apply(entry)`
  unfoldable pub apply_at : E → Follower E → Follower E
  unfolding apply
  apply_at entry f = record f { replica = apply entry f.replica }

  -- `self.pending[f.name].append(entry)`
  unfoldable pub queue_at : E → Follower E → Follower E
  queue_at entry f = record f { pending = f.pending ++ entry ∷ [] }

  -- `write` on the followers, by mode
  unfoldable pub write_followers : Mode → E → List (Follower E) → List (Follower E)
  unfolding apply_at queue_at
  write_followers sync entry followers = map (apply_at entry) followers
  write_followers semi entry [] = []
  write_followers semi entry (f ∷ followers) = apply_at entry f ∷ map (queue_at entry) followers
  write_followers async entry followers = map (queue_at entry) followers

-- The last of the sorted numbers.
unfoldable pub slowest : List ℕ → Option ℕ
slowest [] = none
slowest (x ∷ xs) = some (max_of x xs)
  where
    max_of : ℕ → List ℕ → ℕ
    max_of m [] = m
    max_of m (x ∷ xs) = max_of (max m x) xs

-- The first of the sorted numbers.
unfoldable pub fastest : List ℕ → Option ℕ
fastest [] = none
fastest (x ∷ xs) = some (min_of x xs)
  where
    min_of : ℕ → List ℕ → ℕ
    min_of m [] = m
    min_of m (x ∷ xs) = min_of (min m x) xs

-- What `write` waits for, or `none` for an `IndexError`: no follower is there to wait for.
unfoldable pub wait : Mode → List ℕ → Option ℕ
unfolding slowest fastest
wait sync rtts = slowest rtts
wait semi rtts = fastest rtts
wait async rtts = some 0

-- A draw for each follower.
unfoldable pub draw_rtts : {E : Type 0} → (ℕ → ℕ) → ℕ → List (Follower E) → List ℕ
draw_rtts uniform k [] = []
draw_rtts uniform k (f ∷ followers) = uniform k ∷ draw_rtts uniform (suc k) followers

module _ {E : Type 0} where
  -- The rest of `write`, after the wait is known; `false` says that it raised.
  unfoldable pub acknowledge : Option ℕ → E → ReplicatedDb E → ReplicatedDb E × Bool
  unfolding write_followers
  acknowledge none entry db = (db, false)
  acknowledge (some ms) entry db = (
    record db {
      followers = write_followers db.mode entry db.followers;
      latency = db.latency + (1000 + ms);
    },
    true,
  )

  -- `ReplicatedDB.write`
  unfoldable pub write : (ℕ → ℕ) → E → ReplicatedDb E → ReplicatedDb E × Bool
  unfolding acknowledge wait draw_rtts apply
  write uniform entry db =
      acknowledge (wait db.mode (draw_rtts uniform db.draws db.followers)) entry
        (record db { leader = apply entry db.leader; draws = db.draws + length db.followers })

  -- `for e in batch: f.apply(e)`
  unfoldable pub apply_batch : List E → Replica E → Replica E
  unfolding apply
  apply_batch [] r = r
  apply_batch (e ∷ batch) r = apply_batch batch (apply e r)

  -- A follower's turn in `replicate_some`.
  unfoldable pub catch_up : ℕ → Follower E → Follower E
  unfolding apply_batch
  catch_up n f = record {
    replica = apply_batch (take n f.pending) f.replica;
    pending = drop n f.pending;
  }

  -- The loop of `replicate_some`.
  unfoldable pub catch_up_all : (ℕ → ℕ → ℕ → ℕ) → ℕ → List (Follower E) → List (Follower E)
  unfolding catch_up
  catch_up_all randint k [] = []
  catch_up_all randint k (f ∷ followers) =
      catch_up (randint k 0 3) f ∷ catch_up_all randint (suc k) followers

  -- `ReplicatedDB.replicate_some`
  unfoldable pub replicate_some : (ℕ → ℕ → ℕ → ℕ) → ReplicatedDb E → ReplicatedDb E
  unfolding catch_up_all
  replicate_some randint db = record db {
    followers = catch_up_all randint db.draws db.followers;
    draws = db.draws + length db.followers;
  }

  -- The longer of two logs' followers, the first of equals.
  unfoldable pub better : Follower E → Follower E → Follower E
  better best f = if ltb (length best.replica.log) (length f.replica.log) then f else best

  -- `max(followers, key=lambda f: len(f.log))` from the second follower on.
  unfoldable pub longest : Follower E → List (Follower E) → Follower E
  longest best [] = best
  longest best (f ∷ followers) = longest (better best f) followers

  unfoldable pub is_in : Discrete E → E → List E → Bool
  is_in dec e [] = false
  is_in dec e (x ∷ xs) = let rest = is_in dec e xs in ite (dec x e) true rest

  -- `[e for e in self.leader.log if e not in new_leader.log]`
  unfoldable pub missing : Discrete E → List E → List E → List E
  unfolding is_in
  missing dec [] log = []
  missing dec (e ∷ entries) log =
      let rest = missing dec entries log in if is_in dec e log then rest else e ∷ rest

  -- The end of `fail_leader_and_promote`, for the followers; `max` of none raises a `ValueError`.
  unfoldable pub promote :
      Discrete E
      → List (Follower E)
      → ReplicatedDb E
      → ReplicatedDb E × Option (Follower E × List E)
  unfolding longest missing
  promote dec [] db = (db, none)
  promote dec (f ∷ followers) db =
      let best = longest f followers in
      (record db { epoch = db.epoch + 1 }, some (best, missing dec db.leader.log best.replica.log))

  -- `ReplicatedDB.fail_leader_and_promote`
  unfoldable pub fail_leader_and_promote :
      Discrete E → ReplicatedDb E → ReplicatedDb E × Option (Follower E × List E)
  unfolding promote
  fail_leader_and_promote dec db =
      promote dec db.followers (record db { leader = record db.leader { alive = false } })
