-- ===== src/Clocks/Counters.antt =====
-- Replicas of the grow-only counter converge, whatever the order and the number of the merges.
use learn_system_design.Prelude.{
  ℕ, ◌+◌, ◌≤◌, ◌≡◌, refl, max, none, some, List, [], ◌∷◌, arith, ite, ap, sym, ◌∙◌, if_pos, if_neg,
  inl, inr, ◌⊎◌, subst,
}
use learn_system_design.Prelude.Dict.{Dict, get, put, get-put, remove, get-remove}
use learn_system_design.Clocks.{or_zero, at, value, increment, merge}

module _ {N : Type 0} (dec : Discrete N) where
  -- No key occurs twice.
  abbrev pub AreUnique : Dict N ℕ → Type 0
  AreUnique [] = Unit
  AreUnique ((k, v) ∷ d) = (get dec k d ≡ none) × AreUnique d

  abbrev pub AllUnique : List (Dict N ℕ) → Type 0
  AllUnique [] = Unit
  AllUnique (d ∷ ds) = AreUnique d × AllUnique ds

  put-AreUnique : (k : N) (v : ℕ) (d : Dict N ℕ) → AreUnique d → AreUnique (put dec k v d)
  unfolding put
  put-AreUnique k v [] u = (unfold get in refl, tt)
  put-AreUnique k v ((j, w) ∷ d) (absent, u) = elim (dec j k) [
    | yes same ↦ rw (if_pos (dec j k) same ((j, v) ∷ d) ((j, w) ∷ put dec k v d)) (absent, u)
    | no other ↦ rw (if_neg (dec j k) other ((j, v) ∷ d) ((j, w) ∷ put dec k v d)) (
      get-put dec k j v d ∙ if_neg (dec k j) (λ e. other (sym e)) (some v) (get dec j d) ∙ absent,
      put-AreUnique k v d u,
    )
  ]

  merge-AreUnique : (other slots : Dict N ℕ) → AreUnique slots → AreUnique (merge dec other slots)
  unfolding merge
  merge-AreUnique [] slots u = u
  merge-AreUnique ((k, v) ∷ other) slots u =
      merge-AreUnique other (put dec k (max (at dec slots k) v) slots)
        (put-AreUnique k (max (at dec slots k) v) slots u)

  at-cons : (k j : N) (v : ℕ) (d : Dict N ℕ) → at dec ((k, v) ∷ d) j ≡ ite (dec k j) v (at dec d j)
  unfolding at get or_zero
  at-cons k j v d = ground arith

  pub at-put :
      (k j : N) (v : ℕ) (d : Dict N ℕ) → at dec (put dec k v d) j ≡ ite (dec k j) v (at dec d j)
  unfolding at or_zero
  at-put k j v d = rw (get-put dec k j v d) (ground arith)

  pub at-absent : (k : N) (d : Dict N ℕ) → get dec k d ≡ none → at dec d k ≡ 0
  unfolding at or_zero
  at-absent k d h = rw h refl

  at-remove : (k j : N) (d : Dict N ℕ) → at dec (remove dec k d) j ≡ ite (dec k j) 0 (at dec d j)
  unfolding at or_zero
  at-remove k j d = rw (get-remove dec k j d) (ground arith)

  -- A merge takes the greater count of every node.
  at-merge :
      (other slots : Dict N ℕ) (j : N)
      → AreUnique other
      → at dec (merge dec other slots) j ≡ max (at dec slots j) (at dec other j)
  unfolding merge
  at-merge [] slots j u = unfold at get or_zero in omega arith
  at-merge ((k, v) ∷ other) slots j (absent, u) =
      let ih = at-merge other (put dec k (max (at dec slots k) v) slots) j u in
      let now = at-put k j (max (at dec slots k) v) slots in
      let here = at-cons k j v other in
      let zero_there = at-absent k other absent in
      elim (dec k j) [
        | yes same ↦
            (let now' = now ∙ if_pos (dec k j) same (max (at dec slots k) v) (at dec slots j) in
              let here' = here ∙ if_pos (dec k j) same v (at dec other j) in
              let zero_here = subst (λ x. at dec other x ≡ 0) same zero_there in
              let moved = ap (at dec slots) same in omega arith)
        | no other_key ↦
            (let now' =
                now ∙ if_neg (dec k j) other_key (max (at dec slots k) v) (at dec slots j) in
              let here' = here ∙ if_neg (dec k j) other_key v (at dec other j) in omega arith)
      ]

  value-zero : (d : Dict N ℕ) → AreUnique d → ((k : N) → at dec d k ≡ 0) → value d ≡ 0
  unfolding value
  value-zero [] u h = refl
  value-zero ((k, n) ∷ d) (absent, u) h =
      let here = h k in
      let first = at-cons k k n d in
      let rest = value-zero d u (λ j.
        let there = h j in
        let c = at-cons k j n d in
        let z = at-absent k d absent in
        elim (dec k j) [
          | yes same ↦ subst (λ x. at dec d x ≡ 0) same z
          | no other ↦ sym (if_neg (dec k j) other n (at dec d j)) ∙ sym c ∙ there
        ]) in
      (let n_zero = sym (if_pos (dec k k) refl n (at dec d k)) ∙ sym first ∙ here in omega arith)

  value-remove :
      (k : N) (d : Dict N ℕ) → AreUnique d → value d ≡ at dec d k + value (remove dec k d)
  unfolding value remove
  value-remove k [] u = unfold at get or_zero in refl
  value-remove k ((j, n) ∷ d) (absent, u) =
      let ih = value-remove k d u in
      let c = at-cons j k n d in
      let z = at-absent j d absent in
      elim (dec j k) [
        | yes same ↦
            (let here = c ∙ if_pos (dec j k) same n (at dec d k) in
              let gone = subst (λ x. at dec d x ≡ 0) same z in
              rw (if_pos (dec j k) same (remove dec k d) ((j, n) ∷ remove dec k d)) (omega arith))
        | no other ↦
            (let here = c ∙ if_neg (dec j k) other n (at dec d k) in
              rw (if_neg (dec j k) other (remove dec k d) ((j, n) ∷ remove dec k d)) (omega arith))
      ]

  cons_value : (k : N) (n : ℕ) (d : Dict N ℕ) → value ((k, n) ∷ d) ≡ n + value d
  unfolding value
  cons_value k n d = refl

  remove-AreUnique : (k : N) (d : Dict N ℕ) → AreUnique d → AreUnique (remove dec k d)
  unfolding remove
  remove-AreUnique k [] u = tt
  remove-AreUnique k ((j, n) ∷ d) (absent, u) = elim (dec j k) [
    | yes same ↦
        rw (if_pos (dec j k) same (remove dec k d) ((j, n) ∷ remove dec k d))
          (remove-AreUnique k d u)
    | no other ↦ rw (if_neg (dec j k) other (remove dec k d) ((j, n) ∷ remove dec k d)) (
      get-remove dec k j d ∙ if_neg (dec k j) (λ e. other (sym e)) none (get dec j d) ∙ absent,
      remove-AreUnique k d u,
    )
  ]

  -- The value of a counter depends on its counts alone.
  value-same :
      (a b : Dict N ℕ)
      → AreUnique a
      → AreUnique b
      → ((k : N) → at dec a k ≡ at dec b k)
      → value a ≡ value b
  value-same [] b ua ub h =
      let empty = value-zero b ub (λ k. sym (h k) ∙ at-absent k [] (unfold get in refl)) in
      unfold value in sym empty
  value-same ((k, n) ∷ a) b (absent, ua) ub h =
      let z = at-absent k a absent in
      let first = sym (if_pos (dec k k) refl n (at dec a k)) ∙ sym (at-cons k k n a) ∙ h k in
      let rest = value-same a (remove dec k b) ua (remove-AreUnique k b ub) (λ j. elim (dec k j) [
        | yes same ↦
            subst (λ x. at dec a x ≡ 0) same z
            ∙ sym (at-remove k j b ∙ if_pos (dec k j) same 0 (at dec b j))
        | no other ↦
            sym (if_neg (dec k j) other n (at dec a j))
            ∙ sym (at-cons k j n a)
            ∙ h j
            ∙ sym (at-remove k j b ∙ if_neg (dec k j) other 0 (at dec b j))
      ]) in
      let split = value-remove k b ub in rw (cons_value k n a) (omega arith)

  -- The states of the list, merged into a counter in turn.
  abbrev pub merge_all : List (Dict N ℕ) → Dict N ℕ → Dict N ℕ
  merge_all [] slots = slots
  merge_all (d ∷ ds) slots = merge_all ds (merge dec d slots)

  merge_all-AreUnique :
      (ds : List (Dict N ℕ)) (slots : Dict N ℕ) → AreUnique slots → AreUnique (merge_all ds slots)
  merge_all-AreUnique [] slots u = u
  merge_all-AreUnique (d ∷ ds) slots u =
      merge_all-AreUnique ds (merge dec d slots) (merge-AreUnique d slots u)

  -- Is a state in the list, and is each state of one list in another.
  abbrev pub IsIn : Dict N ℕ → List (Dict N ℕ) → Type 0
  IsIn c [] = ⊥
  IsIn c (d ∷ ds) = (c ≡ d) ⊎ IsIn c ds

  abbrev pub AreIn : List (Dict N ℕ) → List (Dict N ℕ) → Type 0
  AreIn [] ds = Unit
  AreIn (c ∷ cs) ds = IsIn c ds × AreIn cs ds

  merge_all-keeps :
      (ds : List (Dict N ℕ)) (slots : Dict N ℕ) (k : N)
      → AllUnique ds
      → at dec slots k ≤ at dec (merge_all ds slots) k
  merge_all-keeps [] slots k u = omega arith
  merge_all-keeps (d ∷ ds) slots k (ud, u) =
      let ih = merge_all-keeps ds (merge dec d slots) k u in
      let step = at-merge d slots k ud in omega arith

  merge_all-takes :
      (c : Dict N ℕ) (ds : List (Dict N ℕ)) (slots : Dict N ℕ) (k : N)
      → AllUnique ds
      → IsIn c ds
      → at dec c k ≤ at dec (merge_all ds slots) k
  merge_all-takes c [] slots k u h = absurd h
  merge_all-takes c (d ∷ ds) slots k (ud, u) (inl e) =
      let kept = merge_all-keeps ds (merge dec d slots) k u in
      let step = at-merge d slots k ud in let same = ap (λ x. at dec x k) e in omega arith
  merge_all-takes c (d ∷ ds) slots k (ud, u) (inr h) =
      merge_all-takes c ds (merge dec d slots) k u h

  merge_all-within :
      (cs ds : List (Dict N ℕ)) (slots : Dict N ℕ) (k : N)
      → AllUnique cs
      → AllUnique ds
      → AreIn cs ds
      → at dec slots k ≤ at dec (merge_all ds []) k
      → at dec (merge_all cs slots) k ≤ at dec (merge_all ds []) k
  merge_all-within [] ds slots k uc ud h le = le
  merge_all-within (c ∷ cs) ds slots k (u, uc) ud (hc, h) le =
      let step = at-merge c slots k u in
      let taken = merge_all-takes c ds [] k ud hc in
      merge_all-within cs ds (merge dec c slots) k uc ud h (omega arith)

  -- Two new replicas that have merged the same states, each in its own order and any number of
  -- times, have the same value, if no state counts a node twice (a dict's keys are distinct).
  pub merge_all_converges :
      (cs ds : List (Dict N ℕ))
      → AllUnique cs
      → AllUnique ds
      → AreIn cs ds
      → AreIn ds cs
      → value (merge_all cs []) ≡ value (merge_all ds [])
  merge_all_converges cs ds uc ud h h' =
      value-same (merge_all cs []) (merge_all ds []) (merge_all-AreUnique cs [] tt)
        (merge_all-AreUnique ds [] tt)
        (λ k.
          let below = merge_all-within cs ds [] k uc ud h (merge_all-keeps ds [] k ud) in
          let above = merge_all-within ds cs [] k ud uc h' (merge_all-keeps cs [] k uc) in
          omega arith)

  value-put : (k : N) (v : ℕ) (d : Dict N ℕ) → value (put dec k v d) + at dec d k ≡ value d + v
  unfolding value put
  value-put k v [] = unfold at get or_zero in omega arith
  value-put k v ((j, n) ∷ d) =
      let ih = value-put k v d in
      let c = at-cons j k n d in
      elim (dec j k) [
        | yes same ↦
            (let here = c ∙ if_pos (dec j k) same n (at dec d k) in
              rw (if_pos (dec j k) same ((j, v) ∷ d) ((j, n) ∷ put dec k v d)) (omega arith))
        | no other ↦
            (let here = c ∙ if_neg (dec j k) other n (at dec d k) in
              rw (if_neg (dec j k) other ((j, v) ∷ d) ((j, n) ∷ put dec k v d)) (omega arith))
      ]

  -- An increment of a node by some number adds that number to the value.
  pub value-increment :
      (node : N) (n : ℕ) (slots : Dict N ℕ) → value (increment dec node n slots) ≡ value slots + n
  unfolding increment
  value-increment node n slots = let h = value-put node (at dec slots node + n) slots in omega arith
