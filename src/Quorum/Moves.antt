-- ===== src/Quorum/Moves.antt =====
-- What the operations of the store keep of the answers to a key.
use learn_system_design.Prelude.{
  ℕ, ◌+◌, ◌≤◌, ◌≡◌, ◌≢◌, Bool, true, false, some, List, [], ◌∷◌, length, ltb, if◌then◌else◌, take,
  arith, Bool-cases, inl, inr, ap, sym, subst,
}
use learn_system_design.Quorum.{
  Answer, Replica, QuorumStore, write_at, write_all, targets_of, only_up, put_value, stored_at,
  newest_from, repair_one, repair, get_from, get_value, set_up, Action, put_action, get_action,
  up_action, perform, perform_all,
}
use learn_system_design.Quorum.Writes.{stored_at-write_at, stored_at-set_up}

module _ {K V : Type 0} (k : K) where
  -- The actions put nothing under the key.
  abbrev pub NoPut : List (Action K V) → Type 0
  NoPut [] = Unit
  NoPut (put_action key v reach ∷ actions) = (key ≢ k) × NoPut actions
  NoPut (get_action key read_repair sample ∷ actions) = NoPut actions
  NoPut (up_action i up ∷ actions) = NoPut actions

module _ {K V : Type 0} (dec : Discrete K) (k : K) (P : Answer V → Type 0) where
  -- Every answer to the key has the property.
  abbrev pub Always : List (Replica K V) → Type 0
  Always replicas = (j : ℕ) → P (stored_at dec k replicas j)

  -- No answer's version falls, and the property is kept.
  pub record Moves (old new : List (Replica K V)) : Type 0 where
    pub up : (j : ℕ) → (stored_at dec k old j).0 ≤ (stored_at dec k new j).0
    pub keeps : Always old → Always new

  unmoved : (replicas : List (Replica K V)) → Moves replicas replicas
  unmoved replicas = record { up = λ j. omega arith; keeps = λ a. a }

  moved_twice : (a b c : List (Replica K V)) → Moves a b → Moves b c → Moves a c
  moved_twice a b c m n = record {
    up = λ j. omega (arith, m.up j, n.up j);
    keeps = λ h. n.keeps (m.keeps h);
  }

  write_at-Moves :
      (i : ℕ) (key : K) (a : Answer V) (replicas : List (Replica K V))
      → (key ≡ k → P a)
      → Moves replicas (write_at dec i key a replicas).0
  write_at-Moves i key a replicas h = record {
    up = λ j. elim (stored_at-write_at dec k i key a replicas j) [
      | inl e ↦ omega (arith, ap (λ (x : Answer V). x.0) e)
      | inr (same, e, p) ↦ omega (arith, ap (λ (x : Answer V). x.0) e, p)
    ];
    keeps = λ old j. elim (stored_at-write_at dec k i key a replicas j) [
      | inl e ↦ subst P (sym e) (old j)
      | inr (same, e, p) ↦ subst P (sym e) (h same)
    ];
  }

  pub write_all-Moves :
      (targets : List ℕ) (key : K) (a : Answer V) (replicas : List (Replica K V))
      → (key ≡ k → P a)
      → Moves replicas (write_all dec targets key a replicas).0
  unfolding write_all
  write_all-Moves [] key a replicas h = unmoved replicas
  write_all-Moves (i ∷ targets) key a replicas h =
      moved_twice replicas (write_at dec i key a replicas).0 _ (write_at-Moves i key a replicas h)
        (write_all-Moves targets key a (write_at dec i key a replicas).0 h)

  repair_one-Moves :
      (key : K) (newest : Answer V) (old : List (Replica K V)) (i : ℕ) (s : QuorumStore K V)
      → (key ≡ k → P newest)
      → Moves s.replicas (repair_one dec key newest old i s).replicas
  unfolding repair_one
  repair_one-Moves key newest old i s h =
      elim (Bool-cases (ltb (stored_at dec key old i).0 newest.0)) [
        | inl e ↦ rw e (write_at-Moves i key newest s.replicas h)
        | inr e ↦ rw e (unmoved s.replicas)
      ]

  repair-Moves :
      (key : K) (newest : Answer V) (old : List (Replica K V)) (responders : List ℕ)
      (s : QuorumStore K V)
      → (key ≡ k → P newest)
      → Moves s.replicas (repair dec key newest old responders s).replicas
  unfolding repair
  repair-Moves key newest old [] s h = unmoved s.replicas
  repair-Moves key newest old (i ∷ responders) s h =
      moved_twice s.replicas (repair_one dec key newest old i s).replicas _
        (repair_one-Moves key newest old i s h)
        (repair-Moves key newest old responders (repair_one dec key newest old i s) h)

  pub newest_from_keeps :
      (replicas : List (Replica K V)) (best : Answer V) (responders : List ℕ)
      → Always replicas
      → P best
      → P (newest_from dec k replicas best responders)
  unfolding newest_from
  newest_from_keeps replicas best [] a p = p
  newest_from_keeps replicas best (i ∷ responders) a p =
      newest_from_keeps replicas
        (if ltb best.0 (stored_at dec k replicas i).0 then stored_at dec k replicas i else best)
        responders a
        (elim (Bool-cases (ltb best.0 (stored_at dec k replicas i).0)) [
          | inl e ↦ rw e (a i)
          | inr e ↦ rw e p
        ])

  get_from-Moves :
      (key : K) (read_repair : Bool) (responders : List ℕ) (s : QuorumStore K V)
      → Always s.replicas
      → Moves s.replicas (get_from dec key read_repair responders s).0.replicas
  unfolding get_from
  get_from-Moves key read_repair [] s a = unmoved s.replicas
  get_from-Moves key false (i ∷ responders) s a = unmoved s.replicas
  get_from-Moves key true (i ∷ responders) s a =
      repair-Moves key (newest_from dec key s.replicas (stored_at dec key s.replicas i) responders)
        s.replicas (i ∷ responders) s
        (λ e.
          subst (λ x. P (newest_from dec x s.replicas (stored_at dec x s.replicas i) responders))
            (sym e)
            (newest_from_keeps s.replicas (stored_at dec k s.replicas i) responders a (a i)))

  pub get_value-Moves :
      (key : K) (read_repair : Bool) (sample : List ℕ) (s : QuorumStore K V)
      → Always s.replicas
      → Moves s.replicas (get_value dec key read_repair sample s).0.replicas
  unfolding get_value
  get_value-Moves key read_repair sample s a =
      let responders = take s.r (only_up s.replicas sample) in
      elim (Bool-cases (ltb (length responders) s.r)) [
        | inl e ↦ rw e (unmoved s.replicas)
        | inr e ↦ rw e (get_from-Moves key read_repair responders s a)
      ]

  pub set_up-Moves :
      (i : ℕ) (up : Bool) (replicas : List (Replica K V)) → Moves replicas (set_up i up replicas)
  set_up-Moves i up replicas = record {
    up = λ j. omega (arith, ap (λ (x : Answer V). x.0) (stored_at-set_up dec k i up replicas j));
    keeps = λ a j. subst P (sym (stored_at-set_up dec k i up replicas j)) (a j);
  }

  pub perform_all-Moves :
      (actions : List (Action K V)) (s : QuorumStore K V)
      → NoPut k actions
      → Always s.replicas
      → Moves s.replicas (perform_all dec actions s).replicas
  unfolding perform_all perform put_value
  perform_all-Moves [] s clear a = unmoved s.replicas
  perform_all-Moves (put_action key v reach ∷ actions) s (other, clear) a =
      let m =
        write_all-Moves (targets_of reach s.n) key (s.version + 1, some v) s.replicas
          (λ e. absurd (other e)) in
      moved_twice s.replicas _ _ m
        (perform_all-Moves actions (put_value dec key v reach s).0 clear (m.keeps a))
  perform_all-Moves (get_action key read_repair sample ∷ actions) s clear a =
      let m = get_value-Moves key read_repair sample s a in
      moved_twice s.replicas _ _ m
        (perform_all-Moves actions (get_value dec key read_repair sample s).0 clear (m.keeps a))
  perform_all-Moves (up_action i up ∷ actions) s clear a =
      let m = set_up-Moves i up s.replicas in
      moved_twice s.replicas _ _ m (
        perform_all-Moves actions (record s { replicas = set_up i up s.replicas }) clear
          (m.keeps a))
