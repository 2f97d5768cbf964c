-- ===== src/Clocks/Merges.antt =====
-- What the merge of vector clocks counts.
use learn_system_design.Prelude.{
  ℕ, ◌≡◌, refl, max, none, some, List, [], ◌∷◌, ◌++◌, arith, ap, ◌∙◌, if_pos, if_neg, inl, inr, ◌⊎◌,
}
use learn_system_design.Prelude.Dict.{Dict, get, put}
use learn_system_design.Clocks.{at, keys, collect, vc_merge}
use learn_system_design.Clocks.Counters.{at-put, at-absent}

module _ {N : Type 0} (dec : Discrete N) (a b : Dict N ℕ) where
  -- The greater of the two counts of a node.
  abbrev greater : N → ℕ
  greater j = max (at dec a j) (at dec b j)

  collect-either :
      (ks : List N) (d : Dict N ℕ) (j : N)
      → (at dec (collect dec ks a b d) j ≡ greater j)
        ⊎ (at dec (collect dec ks a b d) j ≡ at dec d j)
  unfolding collect
  collect-either [] d j = inr refl
  collect-either (k ∷ ks) d j = elim (collect-either ks (put dec k (greater k) d) j) [
    | inl e ↦ inl e
    | inr e ↦ elim (dec k j) [
      | yes same ↦ inl (
          e
          ∙ at-put dec k j (greater k) d
          ∙ if_pos (dec k j) same (greater k) (at dec d j)
          ∙ ap greater same)
      | no other ↦
          inr (e ∙ at-put dec k j (greater k) d ∙ if_neg (dec k j) other (greater k) (at dec d j))
    ]
  ]

  collect-kept :
      (ks : List N) (d : Dict N ℕ) (j : N)
      → at dec d j ≡ greater j
      → at dec (collect dec ks a b d) j ≡ greater j
  collect-kept ks d j h = elim (collect-either ks d j) [ inl e ↦ e | inr e ↦ e ∙ h ]

  collect-append :
      (xs ys : List N) (d : Dict N ℕ)
      → collect dec (xs ++ ys) a b d ≡ collect dec ys a b (collect dec xs a b d)
  unfolding collect
  collect-append [] ys d = refl
  collect-append (x ∷ xs) ys d = collect-append xs ys (put dec x (greater x) d)

  collect-keys :
      (c d : Dict N ℕ) (j : N)
      → (at dec (collect dec (keys c) a b d) j ≡ greater j) ⊎ (get dec j c ≡ none)
  unfolding collect keys get
  collect-keys [] d j = inr refl
  collect-keys ((k, n) ∷ c) d j =
      let ih = collect-keys c (put dec k (greater k) d) j in
      elim (dec k j) [
        | yes same ↦ inl (
            collect-kept (keys c) (put dec k (greater k) d) j (
              at-put dec k j (greater k) d
              ∙ if_pos (dec k j) same (greater k) (at dec d j)
              ∙ ap greater same))
        | no other ↦ elim ih [
          | inl e ↦ inl e
          | inr absent ↦ inr (if_neg (dec k j) other (some n) (get dec j c) ∙ absent)
        ]
      ]

  -- The merge of two vector clocks counts for every node the greater of their counts, a missing
  -- count being 0.
  pub vc_merge_greatest : (j : N) → at dec (vc_merge dec a b) j ≡ max (at dec a j) (at dec b j)
  unfolding vc_merge
  vc_merge_greatest j =
      let split = ap (λ d. at dec d j) (collect-append (keys a) (keys b) []) in
      let first = collect dec (keys a) a b [] in
      split ∙ elim (collect-keys a [] j) [
        | inl e ↦ collect-kept (keys b) first j e
        | inr none_a ↦ elim (collect-keys b first j) [
          | inl e ↦ e
          | inr none_b ↦
              (let za = at-absent dec j a none_a in
                let zb = at-absent dec j b none_b in
                let start = at-absent dec j [] (unfold get in refl) in
                elim (collect-either (keys b) first j) [
                  | inl e ↦ e
                  | inr e ↦ elim (collect-either (keys a) [] j) [
                    | inl f ↦ e ∙ f
                    | inr f ↦ omega arith
                  ]
                ])
        ]
      ]
