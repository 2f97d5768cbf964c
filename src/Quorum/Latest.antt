-- ===== src/Quorum/Latest.antt =====
-- What a read returns after an acknowledged write.
use learn_system_design.Prelude.{
  ℕ, ◌≤◌, ◌≡◌, refl, true, false, List, [], ◌∷◌, length, ltb, ◌==◌, if◌then◌else◌, arith,
  Bool-cases, inl, inr, ap, sym, ◌∙◌, subst,
}
use learn_system_design.Quorum.{
  Answer, Replica, write_at, write_all, is_up, only_up, stored_at, newest_from,
}
use learn_system_design.Quorum.Writes.{is_up-write_at, acked-write_at}
use learn_system_design.Prelude.Distinct.{is_in, AreDistinct, AllBelow}
use learn_system_design.Quorum.Moves.{write_all-Moves}

-- Different places among so many.
pub record IsSample (n : ℕ) (sample : List ℕ) : Type 0 where
  pub distinct : AreDistinct sample
  pub below : AllBelow n sample

module _ {K V : Type 0} where
  not_up :
      (replicas : List (Replica K V)) (x : ℕ) (xs : List ℕ)
      → is_in x xs ≡ false
      → is_in x (only_up replicas xs) ≡ false
  unfolding only_up
  not_up replicas x [] h = refl
  not_up replicas x (y ∷ ys) h =
      let rest = not_up replicas x ys (ground (arith, h)) in
      elim (Bool-cases (is_up replicas y)) [
        | inl e ↦ rw e (ground (arith, h, rest))
        | inr e ↦ rw e rest
      ]

  pub only_up-IsSample :
      (n : ℕ) (replicas : List (Replica K V)) (xs : List ℕ)
      → IsSample n xs
      → IsSample n (only_up replicas xs)
  unfolding only_up
  only_up-IsSample n replicas [] s = s
  only_up-IsSample n replicas (x ∷ xs) s =
      let (out, d) = s.distinct in
      let (p, b) = s.below in
      let rest = only_up-IsSample n replicas xs (record { distinct = d; below = b }) in
      elim (Bool-cases (is_up replicas x)) [
        | inl e ↦ rw e (record {
          distinct = (not_up replicas x xs out, rest.distinct);
          below = (p, rest.below);
        })
        | inr e ↦ rw e rest
      ]

module _ {K V : Type 0} (dec : Discrete K) (k : K) where
  only_up-write_at :
      (i : ℕ) (a : Answer V) (replicas : List (Replica K V)) (xs : List ℕ)
      → only_up (write_at dec i k a replicas).0 xs ≡ only_up replicas xs
  unfolding only_up
  only_up-write_at i a replicas [] = refl
  only_up-write_at i a replicas (x ∷ xs) =
      rw (is_up-write_at dec k i k a replicas x, only_up-write_at i a replicas xs) refl

  -- As many acknowledge a write as are up, and they have at least its version.
  pub acked-write_all :
      (targets : List ℕ) (a : Answer V) (replicas : List (Replica K V))
      → ((write_all dec targets k a replicas).1 ≡ length (only_up replicas targets))
        × ((i : ℕ)
            → is_in i (only_up replicas targets) ≡ true
            → a.0 ≤ (stored_at dec k (write_all dec targets k a replicas).0 i).0)
  unfolding write_all only_up
  acked-write_all [] a replicas = (refl, λ i e. ground arith)
  acked-write_all (t ∷ targets) a replicas =
      let next = (write_at dec t k a replicas).0 in
      let (count, held) = acked-write_all targets a next in
      let same = only_up-write_at t a replicas targets in
      let (done, reached) = acked-write_at dec k t a replicas in
      let later = write_all-Moves dec k (λ x. Unit) targets k a next (λ e. tt) in
      elim (Bool-cases (is_up replicas t)) [
        | inl e ↦
            rw (e, done, e)
              (
                omega (arith, count, ap length same),
                λ i h. elim (Bool-cases (i == t)) [
                  | inl f ↦
                      (let here : i ≡ t = ground arith in
                        subst (λ j. a.0 ≤ (stored_at dec k (write_all dec targets k a next).0 j).0)
                          (sym here) (omega (arith, reached e, later.up t)))
                  | inr f ↦ held i (ap (is_in i) same ∙ ground (arith, h, f))
                ],
              )
        | inr e ↦
            rw (e, done, e)
              (omega (arith, count, ap length same), λ i h. held i (ap (is_in i) same ∙ h))
      ]

  pub newest_le :
      (replicas : List (Replica K V)) (best : Answer V) (responders : List ℕ)
      → (best.0 ≤ (newest_from dec k replicas best responders).0)
        × ((i : ℕ)
            → is_in i responders ≡ true
            → (stored_at dec k replicas i).0 ≤ (newest_from dec k replicas best responders).0)
  unfolding newest_from
  newest_le replicas best [] = (omega arith, λ i e. ground arith)
  newest_le replicas best (r ∷ responders) =
      let a = stored_at dec k replicas r in
      let better = if ltb best.0 a.0 then a else best in
      let (above, all) = newest_le replicas better responders in
      let b : best.0 ≤ better.0 = ground arith in
      let c : a.0 ≤ better.0 = ground arith in
      (
        omega (arith, above, b),
        λ i e. elim (Bool-cases (i == r)) [
          | inl f ↦
              (let here : i ≡ r = ground arith in
                subst
                  (λ j.
                    (stored_at dec k replicas j).0
                    ≤ (newest_from dec k replicas better responders).0)
                  (sym here) (omega (arith, above, c)))
          | inr f ↦ all i (ground (arith, e, f))
        ],
      )
