-- ===== src/Messaging/Reading.antt =====
-- What a consumer group reads from a partition.
use learn_system_design.Prelude.{
  append-nil, ℕ, zero, suc, ◌+◌, ◌≡◌, refl, false, ◌&&◌, Option, none, some, List, [], ◌∷◌, ◌++◌,
  take, drop, length, get_elem?, set, get_or, ◌==◌, arith, Bool-cases, ap, sym, ◌∙◌, subst, inl,
  inr,
}
use learn_system_design.Messaging.Log.{Topic, append_at, set_offsets, poll_from, seek}

module _ {A : Type 0} where
  pub get_or-some : (xs : List A) (i : ℕ) (d x : A) → some x ≡ get_elem? xs i → get_or xs i d ≡ x
  get_or-some [] i d x h = ground arith
  get_or-some (y ∷ xs) zero d x h = ground arith
  get_or-some (y ∷ xs) (suc i) d x h = get_or-some xs i d x h

  get_or-set_self :
      (xs : List A) (i : ℕ) (d x v : A) → some x ≡ get_elem? xs i → get_or (set xs i v) i d ≡ v
  get_or-set_self [] i d x v h = ground arith
  get_or-set_self (y ∷ xs) zero d x v h = refl
  get_or-set_self (y ∷ xs) (suc i) d x v h = get_or-set_self xs i d x v h

  get_or-set_ne :
      (xs : List A) (i j : ℕ) (d v : A) → (i == j) ≡ false → get_or (set xs i v) j d ≡ get_or xs j d
  get_or-set_ne [] i j d v h = refl
  get_or-set_ne (x ∷ xs) zero zero d v h = ground arith
  get_or-set_ne (x ∷ xs) zero (suc j) d v h = refl
  get_or-set_ne (x ∷ xs) (suc i) zero d v h = refl
  get_or-set_ne (x ∷ xs) (suc i) (suc j) d v h = get_or-set_ne xs i j d v (ground arith)

set_offsets_self :
    (group : ℕ) (mine : List ℕ) (offsets : ℕ → List ℕ) → set_offsets group mine offsets group ≡ mine
unfolding set_offsets
set_offsets_self group mine offsets = ground arith

module _ {R : Type 0} where
  abbrev pub offset_at : ℕ → ℕ → Topic R → ℕ
  offset_at group p t = get_or (t.offsets group) p 0

  abbrev pub partition_at : ℕ → Topic R → List R
  partition_at p t = get_or t.partitions p []

  abbrev pub records_of : Option (List R) → List R
  records_of none = []
  records_of (some records) = records

  pub append_at_grows :
      (i : ℕ) (r : R) (logs : List (List R)) (p : ℕ)
      → (more : List R) × (get_or (append_at i r logs) p [] ≡ get_or logs p [] ++ more)
  unfolding append_at
  append_at_grows i r [] p = ([], refl)
  append_at_grows zero r (log ∷ logs) zero = (r ∷ [], refl)
  append_at_grows zero r (log ∷ logs) (suc p) = ([], sym (append-nil (get_or logs p [])))
  append_at_grows (suc i) r (log ∷ logs) zero = ([], sym (append-nil log))
  append_at_grows (suc i) r (log ∷ logs) (suc p) = append_at_grows i r logs p

  take_prefix :
      (m : ℕ) (xs more : List R) → take m xs ++ drop (length (take m xs)) (xs ++ more) ≡ xs ++ more
  take_prefix zero xs more = refl
  take_prefix (suc m) [] more = refl
  take_prefix (suc m) (x ∷ xs) more = ap (λ (l : List R). x ∷ l) (take_prefix m xs more)

  drop-suc : (n o : ℕ) (x : R) (xs : List R) → drop (suc o + n) (x ∷ xs) ≡ drop (o + n) xs
  drop-suc n o x xs = let e : suc o + n ≡ suc (o + n) = omega arith in ap (λ k. drop k (x ∷ xs)) e

  read_chunk :
      (m o : ℕ) (log more : List R)
      → take m (drop o log) ++ drop (o + length (take m (drop o log))) (log ++ more)
        ≡ drop o (log ++ more)
  read_chunk m zero log more =
      ap (λ k. take m log ++ drop k (log ++ more)) (omega arith) ∙ take_prefix m log more
  read_chunk zero (suc o) [] more =
      let e : suc o + 0 ≡ suc o = omega arith in ap (λ k. drop k more) e
  read_chunk (suc m) (suc o) [] more =
      let e : suc o + 0 ≡ suc o = omega arith in ap (λ k. drop k more) e
  read_chunk m (suc o) (x ∷ log) more =
      ap (λ l. take m (drop o log) ++ l) (drop-suc (length (take m (drop o log))) o x (log ++ more))
      ∙ read_chunk m o log more

  pub poll_from_reads :
      (start : Option ℕ) (found : Option (List R)) (group p m : ℕ) (t : Topic R) (more : List R)
      → start ≡ get_elem? (t.offsets group) p
      → found ≡ get_elem? t.partitions p
      → records_of (poll_from start found group p m t).1
          ++ drop
              (offset_at group p (poll_from start found group p m t).0)
              (partition_at p t ++ more)
        ≡ drop (offset_at group p t) (partition_at p t ++ more)
  unfolding poll_from
  poll_from_reads none found group p m t more a b = refl
  poll_from_reads (some start) none group p m t more a b = refl
  poll_from_reads (some start) (some log) group p m t more a b =
      let here = get_or-some t.partitions p [] log b in
      let before = get_or-some (t.offsets group) p 0 start a in
      let n = start + length (take m (drop start log)) in
      let after : get_or (set_offsets group (set (t.offsets group) p n) t.offsets group) p 0 ≡ n =
        ap (λ (l : List ℕ). get_or l p 0)
          (set_offsets_self group (set (t.offsets group) p n) t.offsets)
        ∙ get_or-set_self (t.offsets group) p 0 start n a in
      rw (here, before, after) (read_chunk m start log more)

  pub poll_from_elsewhere :
      (start : Option ℕ) (found : Option (List R)) (group p m : ℕ) (t : Topic R) (g q : ℕ)
      → (group == g && p == q) ≡ false
      → offset_at g q (poll_from start found group p m t).0 ≡ offset_at g q t
  unfolding poll_from set_offsets
  poll_from_elsewhere none found group p m t g q h = refl
  poll_from_elsewhere (some start) none group p m t g q h = refl
  poll_from_elsewhere (some start) (some log) group p m t g q h = elim (Bool-cases (group == g)) [
    | inl e ↦
        (let same : group ≡ g = ground arith in
          let other : (p == q) ≡ false = ground (arith, e, h) in
          rw e (
            subst
              (λ k.
                get_or (set (t.offsets group) p (start + length (take m (drop start log)))) q 0
                ≡ get_or (t.offsets k) q 0)
              same (get_or-set_ne (t.offsets group) p q 0 _ other)))
    | inr e ↦ rw e refl
  ]

  pub poll_from_keeps :
      (start : Option ℕ) (found : Option (List R)) (group p m : ℕ) (t : Topic R)
      → (poll_from start found group p m t).0.partitions ≡ t.partitions
  unfolding poll_from
  poll_from_keeps none found group p m t = refl
  poll_from_keeps (some start) none group p m t = refl
  poll_from_keeps (some start) (some log) group p m t = refl

  pub seek_elsewhere :
      (group p offset : ℕ) (t : Topic R) (g q : ℕ)
      → (group == g && p == q) ≡ false
      → offset_at g q (seek group p offset t) ≡ offset_at g q t
  unfolding seek set_offsets
  seek_elsewhere group p offset t g q h = elim (Bool-cases (group == g)) [
    | inl e ↦
        (let same : group ≡ g = ground arith in
          let other : (p == q) ≡ false = ground (arith, e, h) in
          rw e (
            subst (λ k. get_or (set (t.offsets group) p offset) q 0 ≡ get_or (t.offsets k) q 0) same
              (get_or-set_ne (t.offsets group) p q 0 offset other)))
    | inr e ↦ rw e refl
  ]
