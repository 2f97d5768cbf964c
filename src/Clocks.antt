-- ===== src/Clocks.antt =====
-- 06_distributed_systems/02_clocks_ordering_crdts.py: vector clocks and the grow-only counter; the
-- Lamport clocks stand in Clocks.Lamport. Nodes
-- are any type with decidable equality. The set of keys `set(a) | set(b)` is the list of the keys of
-- the first dict and then of the second: nothing that is read of the results depends on its order.
pub mod Lamport
pub mod Vectors
pub mod Counters
pub mod Merges
mod Tests
use learn_system_design.Prelude.{
  ℕ, ◌+◌, max, Bool, true, false, ◌&&◌, Option, none, some, List, [], ◌∷◌, ◌++◌, leb, if◌then◌else◌,
}
use learn_system_design.Prelude.Dict.{Dict, get, put}

pub data Order : Type 0 where
  equal before after concurrent : Order

unfoldable pub or_zero : Option ℕ → ℕ
or_zero none = 0
or_zero (some n) = n

-- `sum(self.slots.values())`
unfoldable pub value : {N : Type 0} → Dict N ℕ → ℕ
value [] = 0
value ((k, n) ∷ slots) = n + value slots

unfoldable pub keys : {N : Type 0} → Dict N ℕ → List N
keys [] = []
keys ((k, n) ∷ d) = k ∷ keys d

module _ {N : Type 0} (dec : Discrete N) where
  -- `vc.get(k, 0)`
  unfoldable pub at : Dict N ℕ → N → ℕ
  unfolding or_zero
  at vc k = or_zero (get dec k vc)

  unfoldable pub vc_increment : Dict N ℕ → N → Dict N ℕ
  vc_increment vc node = put dec node (at vc node + 1) vc

  -- `{k: max(a.get(k, 0), b.get(k, 0)) for k in ...}`
  unfoldable pub collect : List N → Dict N ℕ → Dict N ℕ → Dict N ℕ → Dict N ℕ
  collect [] a b d = d
  collect (k ∷ ks) a b d = collect ks a b (put dec k (max (at a k) (at b k)) d)

  unfoldable pub vc_merge : Dict N ℕ → Dict N ℕ → Dict N ℕ
  unfolding collect
  vc_merge a b = collect (keys a ++ keys b) a b []

  -- `all(a.get(k, 0) <= b.get(k, 0) for k in keys)`
  unfoldable pub all_le : List N → Dict N ℕ → Dict N ℕ → Bool
  all_le [] a b = true
  all_le (k ∷ ks) a b = leb (at a k) (at b k) && all_le ks a b

  unfoldable pub vc_compare : Dict N ℕ → Dict N ℕ → Order
  vc_compare a b =
      let ks = keys a ++ keys b in
      let a_le_b = all_le ks a b in
      let b_le_a = all_le ks b a in
      if a_le_b && b_le_a
      then equal
      else if a_le_b
      then before
      else if b_le_a
      then after
      else concurrent

  -- `GCounter.increment` of a node
  unfoldable pub increment : N → ℕ → Dict N ℕ → Dict N ℕ
  increment node n slots = put dec node (at slots node + n) slots

  -- `GCounter.merge`: the loop over the other's slots
  unfoldable pub merge : Dict N ℕ → Dict N ℕ → Dict N ℕ
  merge [] slots = slots
  merge ((k, v) ∷ other) slots = merge other (put dec k (max (at slots k) v) slots)
