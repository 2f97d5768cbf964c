-- ===== src/UrlShortener/Walks.antt =====
-- Cycle-walking: the steps of a bijection lead back into the range that they start from, and the
-- steps of its inverse undo them.
use learn_system_design.Prelude.{
  ℕ, zero, suc, ◌+◌, ◌-◌, ◌≤◌, ◌<◌, ◌≡◌, refl, true, false, some, leb, arith, dec_lt, ap, sym, ◌∙◌,
  subst,
}
use learn_system_design.Prelude.Pigeonhole.{pigeonhole}
use learn_system_design.UrlShortener.Scramble.{walk}

abbrev pub iterate : (ℕ → ℕ) → ℕ → ℕ → ℕ
iterate f zero x = x
iterate f (suc k) x = f (iterate f k x)

iterate_inner : (f : ℕ → ℕ) (k x : ℕ) → iterate f k (f x) ≡ f (iterate f k x)
iterate_inner f zero x = refl
iterate_inner f (suc k) x = ap f (iterate_inner f k x)

walk-done : (f : ℕ → ℕ) (bound fuel x : ℕ) → x < bound → walk f bound (suc fuel) x ≡ some x
unfolding walk
walk-done f bound fuel x h = let out : leb bound x ≡ false = ground arith in rw (out, walk) refl

walk-more :
    (f : ℕ → ℕ) (bound fuel x : ℕ) → bound ≤ x → walk f bound (suc fuel) x ≡ walk f bound fuel (f x)
unfolding walk
walk-more f bound fuel x h = let far : leb bound x ≡ true = ground arith in rw (far, walk) refl

-- A walk from `x` that some step takes below the bound stops at the first such step.
record StopsAt (f : ℕ → ℕ) (bound fuel x k : ℕ) : Type 0 where
  stops : walk f bound fuel x ≡ some (iterate f k x)
  below : iterate f k x < bound
  above : (j : ℕ) → j < k → bound ≤ iterate f j x

above_next :
    (f : ℕ → ℕ) (bound x k : ℕ)
    → bound ≤ x
    → ((j : ℕ) → j < k → bound ≤ iterate f j (f x))
    → (j : ℕ) → j < suc k
    → bound ≤ iterate f j x
above_next f bound x k h above zero p = h
above_next f bound x k h above (suc j) p =
    subst (λ y. bound ≤ y) (iterate_inner f j x) (above j (omega arith))

walk_stops :
    (f : ℕ → ℕ) (bound fuel x m : ℕ)
    → m < fuel
    → iterate f m x < bound
    → (k : ℕ) × (k ≤ m) × StopsAt f bound fuel x k
walk_stops f bound zero x m p h = absurd (omega arith)
walk_stops f bound (suc fuel) x zero p h = (
  0,
  omega arith,
  record { stops = walk-done f bound fuel x h; below = h; above = λ j q. absurd (omega arith) },
)
walk_stops f bound (suc fuel) x (suc m) p h = elim (dec_lt x bound) [
  | yes b ↦ (
    0,
    omega arith,
    record { stops = walk-done f bound fuel x b; below = b; above = λ j q. absurd (omega arith) },
  )
  | no n ↦
      (let far : bound ≤ x = omega arith in
        let (k, q, s) =
          walk_stops f bound fuel (f x) m (omega arith) (rw (iterate_inner f m x) h) in
        (
          suc k,
          omega arith,
          record {
            stops = walk-more f bound fuel x far ∙ s.stops ∙ ap some (iterate_inner f k x);
            below = subst (λ y. y < bound) (iterate_inner f k x) s.below;
            above = above_next f bound x k far s.above;
          },
        ))
]

module _ (f g : ℕ → ℕ) (size : ℕ) (f_below : (x : ℕ) → x < size → f x < size)
    (undo : (x : ℕ) → x < size → g (f x) ≡ x) where
  iterate_below : (k x : ℕ) → x < size → iterate f k x < size
  iterate_below zero x h = h
  iterate_below (suc k) x h = f_below (iterate f k x) (iterate_below k x h)

  -- Equal numbers of steps can be taken off the ends of two walks.
  iterate_cancel : (i d x : ℕ) → x < size → iterate f i x ≡ iterate f (d + i) x → x ≡ iterate f d x
  iterate_cancel zero d x h e =
      let shift : d + 0 ≡ d = omega arith in e ∙ ap (λ n. iterate f n x) shift
  iterate_cancel (suc i) d x h e = iterate_cancel i d x h (
      let next = iterate_below i x h in
      let far = iterate_below (d + i) x h in
      let shift : d + suc i ≡ suc (d + i) = omega arith in
      sym (undo (iterate f i x) next)
      ∙ ap g (e ∙ ap (λ n. iterate f n x) shift)
      ∙ undo (iterate f (d + i) x) far)

  -- The steps lead back to where they start from.
  returns : (x : ℕ) → x < size → (m : ℕ) × (m < size) × (iterate f (suc m) x ≡ x)
  returns x h =
      let (i, j, p, q, e) = pigeonhole size (λ i. iterate f i x) (λ i q. iterate_below i x h) in
      let d = j - i - 1 in
      let split : j ≡ suc d + i = omega arith in
      (d, omega arith, sym (iterate_cancel i (suc d) x h (e ∙ ap (λ n. iterate f n x) split)))

  -- The steps of the inverse undo a walk, and stop where it started from.
  walk_undone :
      (bound : ℕ) (k fuel x : ℕ)
      → x < size
      → x < bound
      → k < fuel
      → ((j : ℕ) → j < k → bound ≤ iterate f j (f x))
      → walk g bound fuel (g (iterate f k (f x))) ≡ some x
  walk_undone bound k zero x h b p above = absurd (omega arith)
  walk_undone bound zero (suc fuel) x h b p above = rw (undo x h) (walk-done g bound fuel x b)
  walk_undone bound (suc k) (suc fuel) x h b p above =
      let y = iterate f k (f x) in
      rw (undo y (iterate_below k (f x) (f_below x h))) (
        walk-more g bound fuel y (above k (omega arith))
        ∙ walk_undone bound k fuel x h b (omega arith) (λ j q. above j (omega arith)))

  -- A walk of `f` from a number below the bound ends below the bound, and the walk of its inverse
  -- from there ends at that number.
  pub walk_round :
      (bound x : ℕ)
      → x < size
      → x < bound
      → (y : ℕ) × (y < bound)
        × (walk f bound size (f x) ≡ some y)
        × (walk g bound size (g y) ≡ some x)
  walk_round bound x h b =
      let (m, p, back) = returns x h in
      let (k, q, s) =
        walk_stops f bound size (f x) m p
          (rw (iterate_inner f m x) (subst (λ y. y < bound) (sym back) b)) in
      (iterate f k (f x), s.below, s.stops, walk_undone bound k size x h b (omega arith) s.above)
