-- ===== src/Eviction/Lru.antt =====
-- `_Node` and `LRUCache` with its doubly linked list. A node is an address, and the fields of all nodes are
-- functions of the address; the sentinels are the addresses 0 and 1, and a new node takes the address
-- `allocated`. A method returns `none` where Python would raise: at a field of `None`, or at the deletion of
-- a key that is not there.
pub mod Links
pub mod Shows
pub mod Steps
pub mod Uses
pub mod Evicts
pub mod Stores
pub mod Refines
mod Tests
use learn_system_design.Prelude.{
  ℕ, zero, suc, ◌+◌, Bool, true, false, Option, none, some, List, [], ◌∷◌, ◌++◌, length, leb, ◌==◌,
  if◌then◌else◌,
}
use learn_system_design.Prelude.Dict.{Dict, get, put, remove}
use learn_system_design.Prelude.Maps.{update}

abbrev pub head : ℕ
head = 0

abbrev pub tail : ℕ
tail = 1

pub record LruCache (K V : Type 0) : Type 0 where
  pub capacity : ℕ
  pub nodes : Dict K ℕ
  pub key_of : ℕ → Option K
  pub value_of : ℕ → Option V
  pub prev : ℕ → Option ℕ
  pub next : ℕ → Option ℕ
  pub allocated : ℕ
  pub hits : ℕ
  pub misses : ℕ

-- `LRUCache(capacity)`
unfoldable pub new_cache : {K V : Type 0} → ℕ → LruCache K V
unfolding update
new_cache capacity = record {
  capacity = capacity;
  nodes = [];
  key_of = λ a. none;
  value_of = λ a. none;
  prev = update (λ a. none) tail (some head);
  next = update (λ a. none) head (some tail);
  allocated = 2;
  hits = 0;
  misses = 0;
}

module _ {K V : Type 0} where
  -- `_unlink`, from the node's neighbours on
  unfoldable pub join : Option ℕ → Option ℕ → LruCache K V → Option (LruCache K V)
  unfolding update
  join none n c = none
  join (some p) none c = none
  join (some p) (some n) c =
      some (record c { next = update c.next p (some n); prev = update c.prev n (some p) })

  -- `LRUCache._unlink`
  unfoldable pub unlink : ℕ → LruCache K V → Option (LruCache K V)
  unfolding join
  unlink node c = join (c.prev node) (c.next node) c

  -- `_push_front`, from the head's neighbour on
  unfoldable pub push_before : Option ℕ → ℕ → LruCache K V → Option (LruCache K V)
  unfolding update
  push_before none node c = none
  push_before (some first) node c = some (record c {
    prev = update (update c.prev node (some head)) first (some node);
    next = update (update c.next node (some first)) head (some node);
  })

  -- `LRUCache._push_front`
  unfoldable pub push_front : ℕ → LruCache K V → Option (LruCache K V)
  unfolding push_before
  push_front node c = push_before (c.next head) node c

  unfoldable pub then_push : ℕ → Option (LruCache K V) → Option (LruCache K V)
  unfolding push_front
  then_push node none = none
  then_push node (some c) = push_front node c

  -- `self._unlink(node)` and `self._push_front(node)`
  unfoldable pub move_to_front : ℕ → LruCache K V → Option (LruCache K V)
  unfolding then_push unlink
  move_to_front node c = then_push node (unlink node c)

  unfoldable pub answer : ℕ → Option (LruCache K V) → Option (Option V × LruCache K V)
  answer node none = none
  answer node (some c) = some (c.value_of node, c)

  -- `get`, after the node is looked up
  unfoldable pub lookup_at : Option ℕ → LruCache K V → Option (Option V × LruCache K V)
  unfolding answer move_to_front
  lookup_at none c = some (none, record c { misses = c.misses + 1 })
  lookup_at (some node) c = answer node (move_to_front node (record c { hits = c.hits + 1 }))

module _ {K V : Type 0} (dec : Discrete K) where
  -- `LRUCache.get`
  unfoldable pub lookup : K → LruCache K V → Option (Option V × LruCache K V)
  unfolding lookup_at
  lookup key c = lookup_at (get dec key c.nodes) c

  unfoldable pub delete_found : Option ℕ → K → LruCache K V → Option (LruCache K V)
  delete_found none key c = none
  delete_found (some node) key c = some (record c { nodes = remove dec key c.nodes })

  -- `del self.map[lru.key]`
  unfoldable pub delete : Option K → LruCache K V → Option (LruCache K V)
  unfolding delete_found
  delete none c = none
  delete (some key) c = delete_found (get dec key c.nodes) key c

  unfoldable pub then_delete : ℕ → Option (LruCache K V) → Option (LruCache K V)
  unfolding delete
  then_delete node none = none
  then_delete node (some c) = delete (c.key_of node) c

  -- The eviction of `put`, of the node before the tail.
  unfoldable pub evict : Option ℕ → LruCache K V → Option (LruCache K V)
  unfolding then_delete unlink
  evict none c = none
  evict (some lru) c = then_delete lru (unlink lru c)

  -- `node = _Node(key, value)` and what follows
  unfoldable pub insert : K → V → Option (LruCache K V) → Option (LruCache K V)
  unfolding push_front update
  insert key value none = none
  insert key value (some c) = push_front c.allocated (record c {
    key_of = update c.key_of c.allocated (some key);
    value_of = update c.value_of c.allocated (some value);
    nodes = put dec key c.allocated c.nodes;
    allocated = c.allocated + 1;
  })

  -- `put`, after the node is looked up
  unfoldable pub store_at : Option ℕ → K → V → LruCache K V → Option (LruCache K V)
  unfolding move_to_front evict insert update
  store_at (some node) key value c =
      move_to_front node (record c { value_of = update c.value_of node (some value) })
  store_at none key value c =
      insert key value (if leb c.capacity (length c.nodes) then evict (c.prev tail) c else some c)

  -- `LRUCache.put`
  unfoldable pub store : K → V → LruCache K V → Option (LruCache K V)
  unfolding store_at
  store key value c = store_at (get dec key c.nodes) key value c

-- The loop of `keys_mru_to_lru`, for at most so many nodes.
unfoldable pub walk : {K V : Type 0} → ℕ → Option ℕ → LruCache K V → List (Option K)
walk zero n c = []
walk (suc fuel) none c = []
walk (suc fuel) (some n) c =
    let rest = walk fuel (c.next n) c in if n == tail then [] else c.key_of n ∷ rest

-- `LRUCache.keys_mru_to_lru`; there are fewer nodes than addresses.
unfoldable pub keys_mru_to_lru : {K V : Type 0} → LruCache K V → List (Option K)
unfolding walk
keys_mru_to_lru c = walk c.allocated (c.next head) c
