-- ===== src/Prelude/Pigeonhole.antt =====
-- Among more numbers than there are values, two have the same value.
use Prim.Native.Nat.{ℕ, zero, suc, ◌≤◌, ◌<◌}
use mathlib.Core.Path.{◌≡◌, ap, sym, ◌∙◌}
use mathlib.Core.Logic.{◌⊎◌, inl, inr, ite, if_pos, if_neg}
use native.Mathlib.Omega.{arith}
use native.Mathlib.Decide.{ℕ_discrete}

-- A value is among the first ones, or none of them is it.
find : (h : ℕ → ℕ) (v n : ℕ) → ((i : ℕ) × (i < n) × (h i ≡ v)) ⊎ ((i : ℕ) → i < n → ¬ (h i ≡ v))
find h v zero = inr (λ i p. absurd (omega arith))
find h v (suc n) = elim (ℕ_discrete (h n) v) [
  | yes e ↦ inl (n, omega arith, e)
  | no other ↦ elim (find h v n) [
    | inl (i, p, e) ↦ inl (i, omega arith, e)
    | inr none_below ↦ inr (λ i p. elim (ℕ_discrete i n) [
      | yes e ↦ λ f. other (sym (ap h e) ∙ f)
      | no below ↦ none_below i (omega arith)
    ])
  ]
]

-- The values with `m` swapped out for `v`.
abbrev without : (ℕ → ℕ) → ℕ → ℕ → ℕ → ℕ
without h m v i = ite (ℕ_discrete (h i) m) v (h i)

-- `without` is below the bound that `v` leaves, and keeps apart what `h` keeps apart.
without-lt : (h : ℕ → ℕ) (m v i : ℕ) → v < suc m → h i < suc m → ¬ (h i ≡ v) → without h m v i < m
without-lt h m v i a b ne = elim (ℕ_discrete (h i) m) [
  | yes e ↦ rw (if_pos (ℕ_discrete (h i) m) e v (h i)) (omega arith)
  | no other ↦ rw (if_neg (ℕ_discrete (h i) m) other v (h i)) (omega arith)
]

without-same :
    (h : ℕ → ℕ) (m v i j : ℕ)
    → ¬ (h i ≡ v)
    → ¬ (h j ≡ v)
    → without h m v i ≡ without h m v j
    → h i ≡ h j
without-same h m v i j ni nj e = elim (ℕ_discrete (h i) m) [
  | yes p ↦
      (let at_i = if_pos (ℕ_discrete (h i) m) p v (h i) in
        elim (ℕ_discrete (h j) m) [
          | yes q ↦ p ∙ sym q
          | no q ↦ absurd (nj (sym (if_neg (ℕ_discrete (h j) m) q v (h j)) ∙ sym e ∙ at_i))
        ])
  | no p ↦
      (let at_i = if_neg (ℕ_discrete (h i) m) p v (h i) in
        elim (ℕ_discrete (h j) m) [
          | yes q ↦ absurd (ni (sym at_i ∙ e ∙ if_pos (ℕ_discrete (h j) m) q v (h j)))
          | no q ↦ sym at_i ∙ e ∙ if_neg (ℕ_discrete (h j) m) q v (h j)
        ])
]

pub pigeonhole :
    (n : ℕ) (h : ℕ → ℕ)
    → ((i : ℕ) → i ≤ n → h i < n)
    → (i : ℕ) × (j : ℕ) × (i < j) × (j ≤ n) × (h i ≡ h j)
pigeonhole zero h below = absurd (let p = below 0 (omega arith) in omega arith)
pigeonhole (suc m) h below = elim (find h (h (suc m)) (suc m)) [
  | inl (i, p, e) ↦ (i, suc m, p, omega arith, e)
  | inr apart ↦
      (let v = h (suc m) in
        let (i, j, p, q, e) = pigeonhole m (without h m v) (λ i p.
          without-lt h m v i (below (suc m) (omega arith)) (below i (omega arith))
            (apart i (omega arith))) in
        (
          i,
          j,
          p,
          omega arith,
          without-same h m v i j (apart i (omega arith)) (apart j (omega arith)) e,
        ))
]
