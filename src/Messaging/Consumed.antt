-- ===== src/Messaging/Consumed.antt =====
-- What a consumer group has received from a partition, over a run.
use learn_system_design.Prelude.{
  append-nil, append_assoc, ℕ, zero, suc, ◌%◌, ◌≡◌, refl, false, ◌&&◌, List, [], ◌∷◌, ◌++◌, drop,
  length, get_elem?, get_or, ◌==◌, if◌then◌else◌, arith, Bool-cases, ap, sym, ◌∙◌, subst, inl, inr,
}
use learn_system_design.Messaging.Log.{
  Topic, poll, seek, Action, produce_action, poll_action, seek_action, produce_to, produce, perform,
  perform_all,
}
use learn_system_design.Messaging.Reading.{
  offset_at, partition_at, records_of, append_at_grows, poll_from_reads, poll_from_elsewhere,
  poll_from_keeps, seek_elsewhere,
}

module _ {K V : Type 0} (hash : K → ℕ) where
  -- What the polls of a partition by a group give, one after the other.
  abbrev pub received : ℕ → ℕ → List (Action K V) → Topic (K × V) → List (K × V)
  received g p [] t = []
  received g p (produce_action key value ∷ actions) t =
      received g p actions (produce hash key value t).0
  received g p (poll_action group q m ∷ actions) t =
      let rest = received g p actions (poll group q m t).0 in
      if group == g && q == p then records_of (poll group q m t).1 ++ rest else rest
  received g p (seek_action group q offset ∷ actions) t =
      received g p actions (seek group q offset t)

  -- The group does not seek in the partition.
  abbrev pub NeverSeeks : ℕ → ℕ → List (Action K V) → Type 0
  NeverSeeks g p [] = Unit
  NeverSeeks g p (produce_action key value ∷ actions) = NeverSeeks g p actions
  NeverSeeks g p (poll_action group q m ∷ actions) = NeverSeeks g p actions
  NeverSeeks g p (seek_action group q offset ∷ actions) =
      ((group == g && q == p) ≡ false) × NeverSeeks g p actions

  -- A partition has grown from one list to another.
  abbrev Grows : List (K × V) → List (K × V) → Type 0
  Grows old new = (more : List (K × V)) × (new ≡ old ++ more)

  grown_twice : (a b c : List (K × V)) → Grows a b → Grows b c → Grows a c
  grown_twice a b c (x, e) (y, f) =
      (x ++ y, f ∙ ap (λ (l : List (K × V)). l ++ y) e ∙ append_assoc a x y)

  produce_to-Grows :
      (n : ℕ) (key : K) (value : V) (t : Topic (K × V)) (p : ℕ)
      → Grows (partition_at p t) (partition_at p (produce_to hash n key value t).0)
  unfolding produce_to
  produce_to-Grows zero key value t p = ([], sym (append-nil (partition_at p t)))
  produce_to-Grows (suc n) key value t p =
      append_at_grows (hash key % suc n) (key, value) t.partitions p

  produce_to_offsets :
      (n : ℕ) (key : K) (value : V) (t : Topic (K × V))
      → (produce_to hash n key value t).0.offsets ≡ t.offsets
  unfolding produce_to
  produce_to_offsets zero key value t = refl
  produce_to_offsets (suc n) key value t = refl

  same_partition :
      (p : ℕ) (t s : Topic (K × V))
      → s.partitions ≡ t.partitions
      → Grows (partition_at p t) (partition_at p s)
  same_partition p t s e =
      ([], ap (λ (l : List (List (K × V))). get_or l p []) e ∙ sym (append-nil (partition_at p t)))

  perform_all-Grows :
      (actions : List (Action K V)) (t : Topic (K × V)) (p : ℕ)
      → Grows (partition_at p t) (partition_at p (perform_all hash actions t))
  unfolding perform_all perform
  perform_all-Grows [] t p = ([], sym (append-nil (partition_at p t)))
  perform_all-Grows (produce_action key value ∷ actions) t p =
      grown_twice (partition_at p t) (partition_at p (produce hash key value t).0) _
        (unfold produce in produce_to-Grows (length t.partitions) key value t p)
        (perform_all-Grows actions (produce hash key value t).0 p)
  perform_all-Grows (poll_action group q m ∷ actions) t p =
      grown_twice (partition_at p t) (partition_at p (poll group q m t).0) _
        (same_partition p t (poll group q m t).0 (unfold poll in poll_from_keeps _ _ group q m t))
        (perform_all-Grows actions (poll group q m t).0 p)
  perform_all-Grows (seek_action group q offset ∷ actions) t p =
      grown_twice (partition_at p t) (partition_at p (seek group q offset t)) _
        (same_partition p t (seek group q offset t) (unfold seek in refl))
        (perform_all-Grows actions (seek group q offset t) p)

  poll_reads :
      (group p m : ℕ) (t : Topic (K × V)) (log : List (K × V))
      → Grows (partition_at p t) log
      → records_of (poll group p m t).1 ++ drop (offset_at group p (poll group p m t).0) log
        ≡ drop (offset_at group p t) log
  unfolding poll
  poll_reads group p m t log (more, e) =
      subst
        (λ (l : List (K × V)).
          records_of (poll group p m t).1 ++ drop (offset_at group p (poll group p m t).0) l
          ≡ drop (offset_at group p t) l)
        (sym e)
        (poll_from_reads (get_elem? (t.offsets group) p) (get_elem? t.partitions p) group p m t more
          refl refl)

  poll_reads_at :
      (g p group q m : ℕ) (t : Topic (K × V)) (log : List (K × V))
      → group ≡ g
      → q ≡ p
      → Grows (partition_at p t) log
      → records_of (poll group q m t).1 ++ drop (offset_at g p (poll group q m t).0) log
        ≡ drop (offset_at g p t) log
  poll_reads_at g p group q m t log e f h =
      subst
        (λ a.
          records_of (poll a q m t).1 ++ drop (offset_at g p (poll a q m t).0) log
          ≡ drop (offset_at g p t) log)
        (sym e)
        (subst
          (λ b.
            records_of (poll g b m t).1 ++ drop (offset_at g p (poll g b m t).0) log
            ≡ drop (offset_at g p t) log)
          (sym f) (poll_reads g p m t log h))

  poll_elsewhere :
      (group q m : ℕ) (t : Topic (K × V)) (g p : ℕ)
      → (group == g && q == p) ≡ false
      → offset_at g p (poll group q m t).0 ≡ offset_at g p t
  unfolding poll
  poll_elsewhere group q m t g p h =
      poll_from_elsewhere (get_elem? (t.offsets group) q) (get_elem? t.partitions q) group q m t g p
        h

  produce_offset :
      (key : K) (value : V) (t : Topic (K × V)) (g p : ℕ)
      → offset_at g p (produce hash key value t).0 ≡ offset_at g p t
  unfolding produce
  produce_offset key value t g p =
      ap (λ (o : ℕ → List ℕ). get_or (o g) p 0)
        (produce_to_offsets (length t.partitions) key value t)

  pub poll_keeps :
      (group q m : ℕ) (t : Topic (K × V)) → (poll group q m t).0.partitions ≡ t.partitions
  unfolding poll
  poll_keeps group q m t =
      poll_from_keeps (get_elem? (t.offsets group) q) (get_elem? t.partitions q) group q m t

  -- From any state of the topic, while a group does not seek in a partition, whatever is produced and
  -- whatever others read or seek: what its polls of the partition give, followed by the part of the
  -- partition from its new offset on, is the part of the partition from its old offset on.
  pub received-drop :
      (g p : ℕ) (actions : List (Action K V)) (t : Topic (K × V))
      → NeverSeeks g p actions
      → received g p actions t
          ++ drop
              (offset_at g p (perform_all hash actions t))
              (partition_at p (perform_all hash actions t))
        ≡ drop (offset_at g p t) (partition_at p (perform_all hash actions t))
  unfolding perform_all perform
  received-drop g p [] t h = refl
  received-drop g p (produce_action key value ∷ actions) t h =
      received-drop g p actions (produce hash key value t).0 h
      ∙ ap (λ o. drop o (partition_at p (perform_all hash actions (produce hash key value t).0)))
          (produce_offset key value t g p)
  received-drop g p (poll_action group q m ∷ actions) t h =
      let s = (poll group q m t).0 in
      let log = partition_at p (perform_all hash actions s) in
      let rest = received-drop g p actions s h in
      elim (Bool-cases (group == g && q == p)) [
        | inl e ↦
            (let same : group ≡ g = ground arith in
              let here : q ≡ p = ground arith in
              rw e (
                append_assoc (records_of (poll group q m t).1) (received g p actions s) _
                ∙ ap (λ (l : List (K × V)). records_of (poll group q m t).1 ++ l) rest
                ∙ poll_reads_at g p group q m t log same here (
                    subst (λ (l : List (List (K × V))). Grows (get_or l p []) log)
                      (poll_keeps group q m t) (perform_all-Grows actions s p))))
        | inr e ↦ rw e (rest ∙ ap (λ o. drop o log) (poll_elsewhere group q m t g p e))
      ]
  received-drop g p (seek_action group q offset ∷ actions) t (other, h) =
      received-drop g p actions (seek group q offset t) h
      ∙ ap (λ o. drop o (partition_at p (perform_all hash actions (seek group q offset t))))
          (seek_elsewhere group q offset t g p other)
