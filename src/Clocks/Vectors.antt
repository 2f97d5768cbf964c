-- ===== src/Clocks/Vectors.antt =====
-- What the comparison and the merge of vector clocks mean.
use learn_system_design.Prelude.{
  ℕ, ◌≤◌, ◌≡◌, refl, true, false, none, some, List, [], ◌∷◌, ◌++◌, arith, Bool-cases, inl, inr, ◌⊎◌,
  if_neg, ◌∙◌, subst,
}
use learn_system_design.Prelude.Dict.{Dict, get}
use learn_system_design.Clocks.{
  Order, equal, before, after, concurrent, or_zero, keys, at, all_le, vc_compare,
}

module _ {N : Type 0} (dec : Discrete N) where
  -- The first clock is nowhere ahead of the second.
  abbrev pub AtMost : Dict N ℕ → Dict N ℕ → Type 0
  AtMost a b = (k : N) → at dec a k ≤ at dec b k

  -- What each answer of a comparison says.
  abbrev pub Means : Order → Dict N ℕ → Dict N ℕ → Type 0
  Means equal a b = AtMost a b × AtMost b a
  Means before a b = AtMost a b × ¬ AtMost b a
  Means after a b = ¬ AtMost a b × AtMost b a
  Means concurrent a b = ¬ AtMost a b × ¬ AtMost b a

  AtMost-all_le : (ks : List N) (a b : Dict N ℕ) → AtMost a b → all_le dec ks a b ≡ true
  unfolding all_le
  AtMost-all_le [] a b h = refl
  AtMost-all_le (k ∷ ks) a b h =
      let here = h k in let rest = AtMost-all_le ks a b h in ground (arith, here, rest)

  -- Where a clock counts a node, the node is one of its keys.
  all_le-at :
      (a d b : Dict N ℕ)
      → all_le dec (keys d) a b ≡ true
      → (k : N) → (at dec a k ≤ at dec b k) ⊎ (get dec k d ≡ none)
  unfolding all_le keys get
  all_le-at a [] b h k = inr refl
  all_le-at a ((j, n) ∷ d) b h k =
      let ih = all_le-at a d b (ground arith) k in
      let here : at dec a j ≤ at dec b j = ground arith in
      elim (dec j k) [
        | yes same ↦ inl (subst (λ x. at dec a x ≤ at dec b x) same here)
        | no other ↦ elim ih [
          | inl le ↦ inl le
          | inr absent ↦ inr (if_neg (dec j k) other (some n) (get dec k d) ∙ absent)
        ]
      ]

  all_le-AtMost : (a b : Dict N ℕ) → all_le dec (keys a) a b ≡ true → AtMost a b
  all_le-AtMost a b h k = elim (all_le-at a a b h k) [
    | inl le ↦ le
    | inr absent ↦ unfold at or_zero in rw absent (omega arith)
  ]

  all_le-left :
      (xs ys : List N) (a b : Dict N ℕ)
      → all_le dec (xs ++ ys) a b ≡ true
      → all_le dec xs a b ≡ true
  unfolding all_le
  all_le-left [] ys a b h = refl
  all_le-left (x ∷ xs) ys a b h =
      let ih = all_le-left xs ys a b (ground arith) in ground (arith, ih)

  all_le-right :
      (xs ys : List N) (a b : Dict N ℕ)
      → all_le dec (xs ++ ys) a b ≡ true
      → all_le dec ys a b ≡ true
  unfolding all_le
  all_le-right [] ys a b h = h
  all_le-right (x ∷ xs) ys a b h = all_le-right xs ys a b (ground arith)

  not_AtMost : (ks : List N) (a b : Dict N ℕ) → all_le dec ks a b ≡ false → ¬ AtMost a b
  not_AtMost ks a b h le = let e = AtMost-all_le ks a b le in ground arith

  -- A comparison answers that the clocks are equal, that the first is before the second, after it,
  -- or concurrent with it, exactly as the counts of all nodes are related, a missing count being 0.
  pub vc_compare-Means : (a b : Dict N ℕ) → Means (vc_compare dec a b) a b
  unfolding vc_compare
  vc_compare-Means a b =
      let ks = keys a ++ keys b in
      let below =
        λ (h : all_le dec ks a b ≡ true). all_le-AtMost a b (all_le-left (keys a) (keys b) a b h) in
      let above = λ (h : all_le dec ks b a ≡ true).
        all_le-AtMost b a (all_le-right (keys a) (keys b) b a h) in
      elim (Bool-cases (all_le dec ks a b)) [
        | inl e ↦ elim (Bool-cases (all_le dec ks b a)) [
          | inl f ↦ rw (e, f) (below e, above f)
          | inr f ↦ rw (e, f) (below e, not_AtMost ks b a f)
        ]
        | inr e ↦ elim (Bool-cases (all_le dec ks b a)) [
          | inl f ↦ rw (e, f) (not_AtMost ks a b e, above f)
          | inr f ↦ rw (e, f) (not_AtMost ks a b e, not_AtMost ks b a f)
        ]
      ]
