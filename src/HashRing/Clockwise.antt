-- ===== src/HashRing/Clockwise.antt =====
-- The first vnode clockwise from a key.
use learn_system_design.Prelude.{
  ℕ, suc, ◌%◌, ◌<◌, ◌≡◌, refl, true, false, Option, none, some, List, [], ◌∷◌, length, get_elem?,
  leb, if◌then◌else◌, arith, Bool-cases, Option-cases, ap, sym, ◌∙◌, inl, inr, ◌⊎◌, ℕ_discrete,
}
use native.Mathlib.Nat.{mod_self, mod-eq_of_lt}
use learn_system_design.Prelude.Dict.{Dict, get}
use learn_system_design.HashRing.{bisect_right, insort, is_other, other_positions, position_at}

-- The first position above a point, in the ring's order.
abbrev pub first_above : List ℕ → ℕ → Option ℕ
first_above [] x = none
first_above (p ∷ ring) x = let rest = first_above ring x in if leb p x then rest else some p

abbrev pub head_of : List ℕ → Option ℕ
head_of [] = none
head_of (p ∷ ring) = some p

abbrev pub or_else : Option ℕ → Option ℕ → Option ℕ
or_else none b = b
or_else (some p) b = some p

-- The first position above a point, or else the ring's first.
abbrev pub clockwise : List ℕ → ℕ → Option ℕ
clockwise ring x = or_else (first_above ring x) (head_of ring)

-- Either the search stops at an index of the ring, or it passes the ring's end.
bisect_right_stops :
    (ring : List ℕ) (x : ℕ)
    → ((q : ℕ) × (bisect_right ring x < length ring)
        × (get_elem? ring (bisect_right ring x) ≡ some q)
        × (first_above ring x ≡ some q))
      ⊎ ((bisect_right ring x ≡ length ring) × (first_above ring x ≡ none))
unfolding bisect_right
bisect_right_stops [] x = inr (refl, refl)
bisect_right_stops (p ∷ ring) x = elim (Bool-cases (leb p x)) [
  | inl e ↦ (elim (bisect_right_stops ring x) [
    | inl (q, h, g, o) ↦ rw e (inl (q, omega (arith, h), g, o))
    | inr (h, g) ↦ rw e (inr (ap suc h, g))
  ])
  | inr e ↦ rw e (inl (p, omega arith, refl, refl))
]

pub position_at-bisect_right :
    (ring : List ℕ) (x : ℕ) → position_at ring (bisect_right ring x) ≡ clockwise ring x
unfolding position_at
position_at-bisect_right [] x = refl
position_at-bisect_right (p ∷ ring) x = elim (bisect_right_stops (p ∷ ring) x) [
  | inl (q, h, g, o) ↦
      ap (get_elem? (p ∷ ring)) (mod-eq_of_lt h) ∙ g ∙ ap (λ f. or_else f (some p)) (sym o)
  | inr (h, g) ↦
      ap (λ i. get_elem? (p ∷ ring) (i % length (p ∷ ring))) h
      ∙ ap (get_elem? (p ∷ ring)) (mod_self (length (p ∷ ring)))
      ∙ ap (λ f. or_else f (some p)) (sym g)
]

-- Adding a position gives a key that position or leaves it the one it had.
module _ (pos : ℕ) where
  first_above-insort :
      (ring : List ℕ) (x : ℕ)
      → (first_above (insort pos ring) x ≡ some pos)
        ⊎ (first_above (insort pos ring) x ≡ first_above ring x)
  unfolding insort
  first_above-insort [] x = elim (Bool-cases (leb pos x)) [
    | inl e ↦ inr (rw e refl)
    | inr e ↦ inl (rw e refl)
  ]
  first_above-insort (p ∷ ring) x = elim (Bool-cases (leb p pos)) [
    | inl e ↦ (elim (Bool-cases (leb p x)) [
      | inl f ↦ rw (e, f) (first_above-insort ring x)
      | inr f ↦ inr (rw (e, f) refl)
    ])
    | inr e ↦ (elim (Bool-cases (leb pos x)) [
      | inl f ↦ inr (rw (e, f) refl)
      | inr f ↦ inl (rw (e, f) refl)
    ])
  ]

  head_of-insort :
      (ring : List ℕ)
      → (head_of (insort pos ring) ≡ some pos) ⊎ (head_of (insort pos ring) ≡ head_of ring)
  unfolding insort
  head_of-insort [] = inl refl
  head_of-insort (p ∷ ring) = elim (Bool-cases (leb p pos)) [
    | inl e ↦ inr (rw e refl)
    | inr e ↦ inl (rw e refl)
  ]

  or_else-cases :
      (a b a' b' : Option ℕ)
      → (a' ≡ some pos) ⊎ (a' ≡ a)
      → (b' ≡ some pos) ⊎ (b' ≡ b)
      → (or_else a' b' ≡ some pos) ⊎ (or_else a' b' ≡ or_else a b)
  or_else-cases a b a' b' (inl e) h = inl (ap (λ f. or_else f b') e)
  or_else-cases none b a' b' (inr e) (inl h) = inl (ap (λ f. or_else f b') e ∙ h)
  or_else-cases none b a' b' (inr e) (inr h) = inr (ap (λ f. or_else f b') e ∙ h)
  or_else-cases (some p) b a' b' (inr e) h = inr (ap (λ f. or_else f b') e)

  pub clockwise-insort :
      (ring : List ℕ) (x : ℕ)
      → (clockwise (insort pos ring) x ≡ some pos)
        ⊎ (clockwise (insort pos ring) x ≡ clockwise ring x)
  clockwise-insort ring x =
      or_else-cases (first_above ring x) (head_of ring) (first_above (insort pos ring) x)
        (head_of (insort pos ring)) (first_above-insort ring x) (head_of-insort ring)

first_above-below :
    (p : ℕ) (ring : List ℕ) (x : ℕ) → leb p x ≡ true → first_above (p ∷ ring) x ≡ first_above ring x
first_above-below p ring x e = rw e refl

first_above-above :
    (p : ℕ) (ring : List ℕ) (x : ℕ) → leb p x ≡ false → first_above (p ∷ ring) x ≡ some p
first_above-above p ring x e = rw e refl

-- Dropping other positions leaves a key the position that it had.
module _ {S : Type 0} (dec : Discrete S) (server : S) (owner : Dict ℕ S) where
  first_above-some :
      (ring : List ℕ) (x q : ℕ)
      → is_other dec server (get ℕ_discrete q owner) ≡ true
      → first_above ring x ≡ some q
      → first_above (other_positions dec server owner ring) x ≡ some q
  unfolding other_positions
  first_above-some [] x q k h = h
  first_above-some (p ∷ ring) x q k h = elim (Bool-cases (leb p x)) [
    | inl e ↦
        (let below : first_above ring x ≡ some q = sym (first_above-below p ring x e) ∙ h in
          let rest = first_above-some ring x q k below in
          elim (Bool-cases (is_other dec server (get ℕ_discrete p owner))) [
            | inl f ↦ rw (f, e) rest
            | inr f ↦ rw f rest
          ])
    | inr e ↦
        (let here : some p ≡ some q = sym (first_above-above p ring x e) ∙ h in
          let same : p ≡ q = ground arith in
          let kept : is_other dec server (get ℕ_discrete p owner) ≡ true =
            ap (λ j. is_other dec server (get ℕ_discrete j owner)) same ∙ k in
          rw (kept, e) here)
  ]

  first_above-none :
      (ring : List ℕ) (x : ℕ)
      → first_above ring x ≡ none
      → first_above (other_positions dec server owner ring) x ≡ none
  unfolding other_positions
  first_above-none [] x h = h
  first_above-none (p ∷ ring) x h = elim (Bool-cases (leb p x)) [
    | inl e ↦
        (let rest = first_above-none ring x (sym (first_above-below p ring x e) ∙ h) in
          elim (Bool-cases (is_other dec server (get ℕ_discrete p owner))) [
            | inl f ↦ rw (f, e) rest
            | inr f ↦ rw f rest
          ])
    | inr e ↦ (let wrong : some p ≡ none = sym (first_above-above p ring x e) ∙ h in ground arith)
  ]

  head_of-other :
      (ring : List ℕ) (q : ℕ)
      → is_other dec server (get ℕ_discrete q owner) ≡ true
      → head_of ring ≡ some q
      → head_of (other_positions dec server owner ring) ≡ some q
  unfolding other_positions
  head_of-other [] q k h = h
  head_of-other (p ∷ ring) q k h =
      let same : p ≡ q = ground arith in
      let kept : is_other dec server (get ℕ_discrete p owner) ≡ true =
        ap (λ j. is_other dec server (get ℕ_discrete j owner)) same ∙ k in
      rw kept h

  pub clockwise-other :
      (ring : List ℕ) (x q : ℕ)
      → is_other dec server (get ℕ_discrete q owner) ≡ true
      → clockwise ring x ≡ some q
      → clockwise (other_positions dec server owner ring) x ≡ some q
  clockwise-other ring x q k h = elim (Option-cases (first_above ring x)) [
    | inl e ↦
        (let first : head_of ring ≡ some q = sym (ap (λ f. or_else f (head_of ring)) e) ∙ h in
          ap (λ f. or_else f (head_of (other_positions dec server owner ring)))
            (first_above-none ring x e)
          ∙ head_of-other ring q k first)
    | inr (p, e) ↦
        (let here : some p ≡ some q = sym (ap (λ f. or_else f (head_of ring)) e) ∙ h in
          ap (λ f. or_else f (head_of (other_positions dec server owner ring)))
            (first_above-some ring x q k (e ∙ here)))
  ]
