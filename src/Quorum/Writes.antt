-- ===== src/Quorum/Writes.antt =====
-- What a write changes of what is stored under a key.
use learn_system_design.Prelude.{
  ℕ, zero, suc, ◌≤◌, ◌<◌, ◌≡◌, refl, Bool, true, some, List, [], ◌∷◌, ltb, arith, Bool-cases, inl,
  inr, ◌⊎◌, ap, sym, ◌∙◌, subst, if_pos, if_neg,
}
use learn_system_design.Prelude.Dict.{get, put, get-put, get-put_self}
use learn_system_design.Quorum.{
  Answer, Replica, or_none, stored, write, write_at, is_up, stored_at, set_up,
}

module _ {K V : Type 0} (dec : Discrete K) (k : K) where
  -- What is stored under the key is as before, or it is this answer to the key, with a greater version than before.
  abbrev pub Rises : K → Answer V → Answer V → Answer V → Type 0
  Rises key a before after = (after ≡ before) ⊎ ((key ≡ k) × (after ≡ a) × (before.0 < a.0))

  stored-write :
      (key : K) (a : Answer V) (x : Replica K V)
      → Rises key a (stored dec k x) (stored dec k (write dec key a x).0)
  unfolding write stored
  stored-write key a x = elim (Bool-cases x.up) [
    | inr e ↦ rw e (inl refl)
    | inl e ↦ (elim (Bool-cases (ltb (or_none (get dec key x.store)).0 a.0)) [
      | inr f ↦ rw (e, f) (inl refl)
      | inl f ↦ (elim (dec key k) [
        | yes same ↦
            (let now : get dec k (put dec key a x.store) ≡ some a =
                get-put dec key k a x.store
                ∙ if_pos (dec key k) same (some a) (get dec k x.store) in
              let less : (or_none (get dec k x.store)).0 < a.0 =
                subst (λ j. (or_none (get dec j x.store)).0 < a.0) same (ground (arith, f)) in
              rw (e, f) (inr (same, ap or_none now ∙ (unfold or_none in refl), less)))
        | no other ↦
            rw (e, f)
              (inl (
                ap or_none (
                  get-put dec key k a x.store
                  ∙ if_neg (dec key k) other (some a) (get dec k x.store))))
      ])
    ])
  ]

  pub stored_at-write_at :
      (i : ℕ) (key : K) (a : Answer V) (replicas : List (Replica K V)) (j : ℕ)
      → Rises key a
          (stored_at dec k replicas j)
          (stored_at dec k (write_at dec i key a replicas).0 j)
  unfolding stored_at write_at
  stored_at-write_at i key a [] j = inl refl
  stored_at-write_at zero key a (x ∷ replicas) zero = stored-write key a x
  stored_at-write_at zero key a (x ∷ replicas) (suc j) = inl refl
  stored_at-write_at (suc i) key a (x ∷ replicas) zero = inl refl
  stored_at-write_at (suc i) key a (x ∷ replicas) (suc j) = stored_at-write_at i key a replicas j

  write_up : (key : K) (a : Answer V) (x : Replica K V) → (write dec key a x).0.up ≡ x.up
  unfolding write
  write_up key a x = ground arith

  pub is_up-write_at :
      (i : ℕ) (key : K) (a : Answer V) (replicas : List (Replica K V)) (j : ℕ)
      → is_up (write_at dec i key a replicas).0 j ≡ is_up replicas j
  unfolding is_up write_at
  is_up-write_at i key a [] j = refl
  is_up-write_at zero key a (x ∷ replicas) zero = write_up key a x
  is_up-write_at zero key a (x ∷ replicas) (suc j) = refl
  is_up-write_at (suc i) key a (x ∷ replicas) zero = refl
  is_up-write_at (suc i) key a (x ∷ replicas) (suc j) = is_up-write_at i key a replicas j

  stored_le :
      (a : Answer V) (x : Replica K V) → x.up ≡ true → a.0 ≤ (stored dec k (write dec k a x).0).0
  unfolding write stored
  stored_le a x e = elim (Bool-cases (ltb (or_none (get dec k x.store)).0 a.0)) [
    | inl f ↦
        rw (e, f)
          (subst (λ o. a.0 ≤ (or_none o).0) (sym (get-put_self dec k a x.store))
            (unfold or_none in omega arith))
    | inr f ↦ rw (e, f) (ground (arith, f))
  ]

  -- A write is acknowledged by a replica that is up, which then has at least its version.
  pub acked-write_at :
      (i : ℕ) (a : Answer V) (replicas : List (Replica K V))
      → ((write_at dec i k a replicas).1 ≡ is_up replicas i)
        × (is_up replicas i ≡ true → a.0 ≤ (stored_at dec k (write_at dec i k a replicas).0 i).0)
  unfolding is_up write_at stored_at
  acked-write_at i a [] = (refl, λ e. ground arith)
  acked-write_at zero a (x ∷ replicas) = (unfold write in ground arith, λ e. stored_le a x e)
  acked-write_at (suc i) a (x ∷ replicas) = acked-write_at i a replicas

  pub stored_at-set_up :
      (i : ℕ) (up : Bool) (replicas : List (Replica K V)) (j : ℕ)
      → stored_at dec k (set_up i up replicas) j ≡ stored_at dec k replicas j
  unfolding stored_at set_up stored
  stored_at-set_up i up [] j = refl
  stored_at-set_up zero up (x ∷ replicas) zero = refl
  stored_at-set_up zero up (x ∷ replicas) (suc j) = refl
  stored_at-set_up (suc i) up (x ∷ replicas) zero = refl
  stored_at-set_up (suc i) up (x ∷ replicas) (suc j) = stored_at-set_up i up replicas j
