-- ===== src/HashRing.antt =====
-- 03_load_balancing/02_consistent_hashing.py: `ConsistentHashRing` and `ModuloHashing`. The md5 of a key is
-- `hash`, that of a server's vnode is `place`; `bisect` is counted on the list from its start, which
-- on a sorted list gives what the library's halving gives.
pub mod Clockwise
pub mod Moves
mod Tests
use learn_system_design.Prelude.{
  ℕ, zero, suc, ◌+◌, ◌*◌, ◌%◌, Bool, true, false, not, Option, none, some, List, [], ◌∷◌, ◌++◌,
  length, get_elem?, leb, ◌==◌, if◌then◌else◌, ite, ℕ_discrete,
}
use learn_system_design.Prelude.Dict.{Dict, get, put}

-- `bisect.bisect_right(ring, x)`
unfoldable pub bisect_right : List ℕ → ℕ → ℕ
bisect_right [] x = 0
bisect_right (p ∷ ring) x = let rest = bisect_right ring x in if leb p x then suc rest else 0

-- `bisect.insort(ring, pos)`
unfoldable pub insort : ℕ → List ℕ → List ℕ
insort pos [] = pos ∷ []
insort pos (p ∷ ring) = let rest = insort pos ring in if leb p pos then p ∷ rest else pos ∷ p ∷ ring

-- `owner` maps a vnode's position to its server.
pub record Ring (S : Type 0) : Type 0 where
  pub vnodes : ℕ
  pub ring : List ℕ
  pub owner : Dict ℕ S

-- `ConsistentHashRing(vnodes_per_server)`
unfoldable pub new_ring : {S : Type 0} → ℕ → Ring S
new_ring vnodes = record { vnodes = vnodes; ring = []; owner = [] }

-- A vnode is added.
unfoldable pub add_vnode : {S : Type 0} → ℕ → S → Ring S → Ring S
unfolding insort
add_vnode pos server r = record r {
  ring = insort pos r.ring;
  owner = put ℕ_discrete pos server r.owner;
}

-- The loop of `add_server`, from vnode i on.
unfoldable pub add_vnodes : {S : Type 0} → (S → ℕ → ℕ) → ℕ → ℕ → S → Ring S → Ring S
unfolding add_vnode
add_vnodes place zero i server r = r
add_vnodes place (suc n) i server r =
    add_vnodes place n (suc i) server (add_vnode (place server i) server r)

-- `ConsistentHashRing.add_server`
unfoldable pub add_server : {S : Type 0} → (S → ℕ → ℕ) → S → ℕ → Ring S → Ring S
unfolding add_vnodes
add_server place server weight r = add_vnodes place (r.vnodes * weight) 0 server r

module _ {S : Type 0} (dec : Discrete S) where
  -- `self.owner[p] != server`; every position has an owner, or this would raise a `KeyError`.
  unfoldable pub is_other : S → Option S → Bool
  is_other server none = false
  is_other server (some s) = ite (dec s server) false true

  -- `[p for p in self.ring if self.owner[p] != server]`
  unfoldable pub other_positions : S → Dict ℕ S → List ℕ → List ℕ
  unfolding is_other
  other_positions server owner [] = []
  other_positions server owner (p ∷ ring) =
      let rest = other_positions server owner ring in
      if is_other server (get ℕ_discrete p owner) then p ∷ rest else rest

  -- `{p: s for p, s in self.owner.items() if s != server}`
  unfoldable pub other_owners : S → Dict ℕ S → Dict ℕ S
  other_owners server [] = []
  other_owners server ((p, s) ∷ owner) =
      let rest = other_owners server owner in ite (dec s server) rest ((p, s) ∷ rest)

  -- `ConsistentHashRing.remove_server`
  unfoldable pub remove_server : S → Ring S → Ring S
  unfolding other_positions other_owners
  remove_server server r = record r {
    ring = other_positions server r.owner r.ring;
    owner = other_owners server r.owner;
  }

-- The position at an index of the ring.
unfoldable pub position_at : List ℕ → ℕ → Option ℕ
position_at ring idx = get_elem? ring (idx % length ring)

unfoldable pub owner_of : {S : Type 0} → Dict ℕ S → Option ℕ → Option S
owner_of owner none = none
owner_of owner (some p) = get ℕ_discrete p owner

-- `ConsistentHashRing.get_server`, or `none` on an empty ring, which raises.
unfoldable pub get_server : {S K : Type 0} → (K → ℕ) → K → Ring S → Option S
unfolding bisect_right position_at owner_of
get_server hash key r = owner_of r.owner (position_at r.ring (bisect_right r.ring (hash key)))

module _ {S : Type 0} (dec : Discrete S) where
  unfoldable pub is_in : S → List S → Bool
  is_in s [] = false
  is_in s (x ∷ result) = let rest = is_in s result in ite (dec x s) true rest

  -- A step of `get_replicas`: the server of a position joins the result, which is then complete or not.
  unfoldable pub with_server : Option S → ℕ → List S → List S × Bool
  unfolding is_in
  with_server none n result = (result, false)
  with_server (some server) n result =
      if is_in server result
      then (result, false)
      else (result ++ server ∷ [], length (result ++ server ∷ []) == n)

  -- The loop of `get_replicas`, for so many steps from an index on.
  unfoldable pub collect : ℕ → ℕ → ℕ → Ring S → List S → List S
  unfolding with_server owner_of position_at
  collect zero idx n r result = result
  collect (suc steps) idx n r result =
      let (result', complete) = with_server (owner_of r.owner (position_at r.ring idx)) n result in
      let more = collect steps (suc idx) n r result' in if complete then result' else more

  -- `ConsistentHashRing.get_replicas`
  unfoldable pub get_replicas : {K : Type 0} → (K → ℕ) → K → ℕ → Ring S → List S
  unfolding collect bisect_right
  get_replicas hash key n r = collect (length r.ring) (bisect_right r.ring (hash key)) n r []

-- `ModuloHashing.get_server`, or `none` without servers, where the remainder raises.
unfoldable pub modulo_server : {S K : Type 0} → (K → ℕ) → K → List S → Option S
modulo_server hash key [] = none
modulo_server hash key (s ∷ servers) = get_elem? (s ∷ servers) (hash key % length (s ∷ servers))
