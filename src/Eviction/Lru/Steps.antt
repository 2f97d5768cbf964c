-- ===== src/Eviction/Lru/Steps.antt =====
-- What moving a node to the front does to the cells.
use learn_system_design.Prelude.{
  ℕ, ◌<◌, ◌≡◌, false, Option, some, List, [], ◌∷◌, ◌++◌, length, arith, ap, sym, ◌∙◌, subst,
  append_assoc,
}
use learn_system_design.Prelude.Dict.{get}
use learn_system_design.Prelude.Dict.Unique.{AreUnique}
use learn_system_design.Prelude.Distinct.{is_in, is_in-append, AreDistinct, AllBelow}
use learn_system_design.Eviction.Lru.{head, tail, LruCache, then_push, move_to_front}
use learn_system_design.Eviction.Lru.Links.{
  Links, AreDistinct-middle, unlink-Links, push_front-Links,
}
use learn_system_design.Eviction.Lru.Shows.{
  addresses, entries, Held, addresses-append, address, Shows,
}

pub AllBelow-middle :
    (n : ℕ) (xs : List ℕ) (x : ℕ) (ys : List ℕ)
    → AllBelow n (xs ++ x ∷ ys)
    → (x < n) × AllBelow n (xs ++ ys)
AllBelow-middle n [] x ys a = a
AllBelow-middle n (z ∷ xs) x ys (p, a) = let (q, b) = AllBelow-middle n xs x ys a in (q, (p, b))

-- A new front of such a list.
AreDistinct-front :
    (xs ys : List ℕ) (x : ℕ)
    → AreDistinct (head ∷ xs ++ x ∷ ys)
    → (is_in x (head ∷ xs ++ ys) ≡ false)
      × AreDistinct (head ∷ xs ++ ys)
      × AreDistinct (head ∷ x ∷ xs ++ ys)
AreDistinct-front xs ys x d =
    let (out, rest) = AreDistinct-middle (head ∷ xs) x ys d in
    let (apart, inner) = AreDistinct-middle xs x ys d.1 in
    let whole = d.0 in
    let both = is_in-append head xs (x ∷ ys) in
    (out, rest, (ground (arith, whole, both, is_in-append head xs ys), (apart, inner)))

module _ {K V : Type 0} (dec : Discrete K) where
  -- The parts of a list of addresses around a cell.
  pub around :
      (xs ys : List (ℕ × K × V)) (x : ℕ) (k : K) (v : V)
      → addresses (xs ++ (x, k, v) ∷ ys) ++ tail ∷ []
        ≡ addresses xs ++ x ∷ (addresses ys ++ tail ∷ [])
  around xs ys x k v =
      ap (λ (l : List ℕ). l ++ tail ∷ []) (addresses-append xs ((x, k, v) ∷ ys))
      ∙ append_assoc (addresses xs) (x ∷ addresses ys) (tail ∷ [])

  pub without :
      (xs ys : List (ℕ × K × V))
      → addresses xs ++ (addresses ys ++ tail ∷ []) ≡ addresses (xs ++ ys) ++ tail ∷ []
  without xs ys =
      sym (append_assoc (addresses xs) (addresses ys) (tail ∷ []))
      ∙ ap (λ (l : List ℕ). l ++ tail ∷ []) (sym (addresses-append xs ys))

  -- The node of a cell moves to the front, whatever value it has by now.
  pub move_to_front-Shows :
      (c : LruCache K V) (xs ys : List (ℕ × K × V)) (x : ℕ) (k : K) (old v : V)
      → Links c.next c.prev head (addresses (xs ++ (x, k, old) ∷ ys) ++ tail ∷ [])
      → AreDistinct (head ∷ addresses (xs ++ (x, k, old) ∷ ys) ++ tail ∷ [])
      → AllBelow c.allocated (head ∷ addresses (xs ++ (x, k, old) ∷ ys) ++ tail ∷ [])
      → Held c.key_of c.value_of ((x, k, v) ∷ xs ++ ys)
      → ((j : K) → get dec j c.nodes ≡ address dec j ((x, k, v) ∷ xs ++ ys))
      → AreUnique dec (entries ((x, k, v) ∷ xs ++ ys))
      → AreUnique dec c.nodes
      → length c.nodes ≡ length ((x, k, v) ∷ xs ++ ys)
      → (nx : ℕ → Option ℕ) × (pv : ℕ → Option ℕ) × (move_to_front x c
          ≡ some (record c { next = nx; prev = pv }))
        × Shows dec (record c { next = nx; prev = pv }) ((x, k, v) ∷ xs ++ ys)
  unfolding move_to_front then_push
  move_to_front-Shows c xs ys x k old v l d b held known unique nodes size =
      let before = around xs ys x k old in
      let after = without xs ys in
      let l1 = subst (λ t. Links c.next c.prev head t) before l in
      let d1 = subst (λ t. AreDistinct (head ∷ t)) before d in
      let b1 = subst (λ t. AllBelow c.allocated (head ∷ t)) before b in
      let (out, rest, front) = AreDistinct-front (addresses xs) (addresses ys ++ tail ∷ []) x d1 in
      let (low, lows) =
        AllBelow-middle c.allocated (addresses xs) x (addresses ys ++ tail ∷ []) b1.1 in
      let (nx, pv, unlinked, l2) = unlink-Links c (addresses xs) (addresses ys) x l1 d1 in
      let c1 = record c { next = nx; prev = pv } in
      let (nx2, pv2, pushed, l3) =
        push_front-Links c1 (addresses (xs ++ ys)) x (subst (λ t. Links nx pv head t) after l2)
          (subst (λ t. AreDistinct (head ∷ t)) after rest)
          (subst (λ t. is_in x (head ∷ t) ≡ false) after out) in
      (
        nx2,
        pv2,
        rw unlinked pushed,
        record {
          links = l3;
          distinct = subst (λ t. AreDistinct (head ∷ x ∷ t)) after front;
          below = (b1.0, (low, subst (AllBelow c.allocated) after lows));
          held = held;
          known = known;
          unique = unique;
          nodes_unique = nodes;
          size = size;
        },
      )
