-- ===== src/Sharding.antt =====
-- 05_databases/05_sharding_partitioning.py: the three sharders. `stable_hash` is an argument, nodes are numbers,
-- and the dict of a partition's node is the list of the nodes, by partition.
mod Moves
mod Tests
use learn_system_design.Prelude.{
  ℕ, zero, suc, ◌+◌, ◌-◌, ◌/◌, ◌%◌, Bool, ◌&&◌, Option, none, some, List, [], ◌∷◌, length,
  get_elem?, ltb, ◌==◌, ◌>>=◌, if◌then◌else◌,
}
use learn_system_design.Prelude.Maps.{update}
use learn_system_design.Prelude.Distinct.{is_in}
use learn_system_design.HashRing.{bisect_right}

-- `RangeSharding.shard_for`
unfoldable pub range_shard : List ℕ → ℕ → ℕ
unfolding bisect_right
range_shard boundaries key = bisect_right boundaries key

-- A hash modulo a number, where Python raises at 0.
unfoldable pub hash_mod : ℕ → ℕ → Option ℕ
hash_mod zero h = none
hash_mod (suc n) h = some (h % suc n)

-- `HashSharding.shard_for`
unfoldable pub hash_shard : {K : Type 0} → (K → ℕ) → ℕ → K → Option ℕ
unfolding hash_mod
hash_shard stable_hash n key = hash_mod n (stable_hash key)

pub record LogicalSharding : Type 0 where
  pub n_partitions : ℕ
  pub assignment : List ℕ

-- `{p: nodes[p % len(nodes)] for p in range(…)}`, for so many partitions from one on.
unfoldable pub assigned_from : List ℕ → ℕ → ℕ → Option (List ℕ)
assigned_from nodes p zero = some []
assigned_from nodes p (suc n) = do
  node ← get_elem? nodes (p % length nodes)
  rest ← assigned_from nodes (suc p) n
  some (node ∷ rest)

-- `LogicalPartitionSharding(n_partitions, nodes)`
unfoldable pub new_logical : ℕ → List ℕ → Option LogicalSharding
unfolding assigned_from
new_logical n_partitions nodes = do
  assignment ← assigned_from nodes 0 n_partitions
  some (record { n_partitions = n_partitions; assignment = assignment })

-- `partition_for`
unfoldable pub partition_for : {K : Type 0} → (K → ℕ) → K → LogicalSharding → Option ℕ
unfolding hash_mod
partition_for stable_hash key s = hash_mod s.n_partitions (stable_hash key)

-- `LogicalPartitionSharding.shard_for`
unfoldable pub logical_shard : {K : Type 0} → (K → ℕ) → K → LogicalSharding → Option ℕ
unfolding partition_for
logical_shard stable_hash key s = do p ← partition_for stable_hash key s; get_elem? s.assignment p

-- `len(set(…))`
unfoldable pub distinct : List ℕ → ℕ
distinct [] = 0
distinct (x ∷ xs) = let rest = distinct xs in if is_in x xs then rest else suc rest

-- `Counter(…)`
unfoldable pub counter : List ℕ → ℕ → ℕ
counter [] node = 0
counter (x ∷ xs) node = let rest = counter xs node in if x == node then suc rest else rest

-- The loop of `add_node`: the new nodes of the partitions, and how many moved.
unfoldable pub steal : ℕ → ℕ → ℕ → (ℕ → ℕ) → List ℕ → List ℕ × ℕ
unfolding update
steal node target moved counts [] = ([], moved)
steal node target moved counts (owner ∷ rest) =
    let takes = ltb moved target && ltb target (counts owner) in
    let (rest', moved') =
      steal node target (if takes then moved + 1 else moved)
        (if takes then update counts owner (counts owner - 1) else counts) rest in
    ((if takes then node else owner) ∷ rest', moved')

-- `LogicalPartitionSharding.add_node`
unfoldable pub add_node : ℕ → LogicalSharding → LogicalSharding × ℕ
unfolding distinct counter steal
add_node node s =
    let target = s.n_partitions / (distinct s.assignment + 1) in
    let (assignment, moved) = steal node target 0 (counter s.assignment) s.assignment in
    (record s { assignment = assignment }, moved)
