-- ===== src/Sharding/Moves.antt =====
-- What a new node takes over.
use learn_system_design.Prelude.{
  ℕ, zero, suc, ◌+◌, ◌-◌, ◌/◌, ◌≤◌, ◌≡◌, ◌⊎◌, inl, inr, refl, false, ◌&&◌, some, List, [], ◌∷◌,
  length, get_elem?, ltb, if◌then◌else◌, arith, Bool-cases, ap,
}
use learn_system_design.Prelude.Maps.{update}
use learn_system_design.Prelude.Distinct.{is_in}
use learn_system_design.Sharding.{LogicalSharding, distinct, counter, steal, add_node}

steal-moved :
    (node target moved : ℕ) (counts : ℕ → ℕ) (owners : List ℕ)
    → moved ≤ target
    → is_in node owners ≡ false
    → ((steal node target moved counts owners).1 ≤ target)
      × (length (steal node target moved counts owners).0 ≡ length owners)
      × (counter (steal node target moved counts owners).0 node + moved
          ≡ (steal node target moved counts owners).1)
unfolding steal counter
steal-moved node target moved counts [] h new = (h, refl, omega arith)
steal-moved node target moved counts (owner ∷ rest) h new =
    elim (Bool-cases (ltb moved target && ltb target (counts owner))) [
      | inl takes ↦
          (let (few, long, many) =
              steal-moved node target (moved + 1) (update counts owner (counts owner - 1)) rest
                (ground (arith, takes)) (ground (arith, new)) in
            rw takes (few, ap suc long, ground (arith, many)))
      | inr leaves ↦
          (let (few, long, many) =
              steal-moved node target moved counts rest h (ground (arith, new)) in
            rw leaves (few, ap suc long, ground (arith, many, new)))
    ]

steal-kept :
    (node target moved : ℕ) (counts : ℕ → ℕ) (owners : List ℕ) (p : ℕ)
    → (get_elem? (steal node target moved counts owners).0 p ≡ get_elem? owners p)
      ⊎ (get_elem? (steal node target moved counts owners).0 p ≡ some node)
unfolding steal
steal-kept node target moved counts [] p = inl refl
steal-kept node target moved counts (owner ∷ rest) zero =
    elim (Bool-cases (ltb moved target && ltb target (counts owner))) [
      | inl takes ↦ inr (rw takes refl)
      | inr leaves ↦ inl (rw leaves refl)
    ]
steal-kept node target moved counts (owner ∷ rest) (suc p) =
    let takes = ltb moved target && ltb target (counts owner) in
    steal-kept node target (if takes then moved + 1 else moved)
      (if takes then update counts owner (counts owner - 1) else counts) rest p

-- A node that no partition has takes over as many partitions as `add_node` returns, at most an even share of them; every other partition keeps its node, and none is lost.
pub add_node-moved :
    (node : ℕ) (s : LogicalSharding)
    → is_in node s.assignment ≡ false
    → ((add_node node s).1 ≤ s.n_partitions / (distinct s.assignment + 1))
      × (counter (add_node node s).0.assignment node ≡ (add_node node s).1)
      × (length (add_node node s).0.assignment ≡ length s.assignment)
      × ((p : ℕ)
          → (get_elem? (add_node node s).0.assignment p ≡ get_elem? s.assignment p)
            ⊎ (get_elem? (add_node node s).0.assignment p ≡ some node))
unfolding add_node
add_node-moved node s new =
    let target = s.n_partitions / (distinct s.assignment + 1) in
    let (few, long, many) =
      steal-moved node target 0 (counter s.assignment) s.assignment (omega arith) new in
    (few, omega (arith, many), long, steal-kept node target 0 (counter s.assignment) s.assignment)
