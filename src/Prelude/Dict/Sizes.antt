-- ===== src/Prelude/Dict/Sizes.antt =====
-- How many keys a dict has after a change.
use learn_system_design.Prelude.{
  suc, ◌≡◌, refl, true, none, some, [], ◌∷◌, length, if_pos, if_neg, arith, ap, sym, ◌∙◌, subst,
}
use learn_system_design.Prelude.Dict.{Dict, get, put, remove, has}
use learn_system_design.Prelude.Dict.Unique.{AreUnique}

module _ {K V : Type 0} (dec : Discrete K) where
  pub remove_absent : (k : K) (d : Dict K V) → get dec k d ≡ none → remove dec k d ≡ d
  unfolding get remove
  remove_absent k [] e = refl
  remove_absent k ((j, v) ∷ d) e = elim (dec j k) [
    | yes same ↦
        (let wrong : some v ≡ none = sym (if_pos (dec j k) same (some v) (get dec k d)) ∙ e in
          ground arith)
    | no other ↦
        if_neg (dec j k) other (remove dec k d) ((j, v) ∷ remove dec k d)
        ∙ ap (λ (l : Dict K V). (j, v) ∷ l)
            (remove_absent k d (sym (if_neg (dec j k) other (some v) (get dec k d)) ∙ e))
  ]

  pub length-remove :
      (k : K) (d : Dict K V) (a : V)
      → AreUnique dec d
      → get dec k d ≡ some a
      → length d ≡ suc (length (remove dec k d))
  unfolding get remove
  length-remove k [] a u e = ground arith
  length-remove k ((j, b) ∷ d) a (absent, u) e = elim (dec j k) [
    | yes same ↦ ap suc (
        ap length (
          sym (
            if_pos (dec j k) same (remove dec k d) ((j, b) ∷ remove dec k d)
            ∙ remove_absent k d (subst (λ i. get dec i d ≡ none) same absent))))
    | no other ↦ ap suc (
        length-remove k d a u (sym (if_neg (dec j k) other (some b) (get dec k d)) ∙ e)
        ∙ ap length (sym (if_neg (dec j k) other (remove dec k d) ((j, b) ∷ remove dec k d))))
  ]

  pub length-put_new :
      (k : K) (a : V) (d : Dict K V) → get dec k d ≡ none → length (put dec k a d) ≡ suc (length d)
  unfolding get put
  length-put_new k a [] e = refl
  length-put_new k a ((j, b) ∷ d) e = elim (dec j k) [
    | yes same ↦
        (let wrong : some b ≡ none = sym (if_pos (dec j k) same (some b) (get dec k d)) ∙ e in
          ground arith)
    | no other ↦
        ap length (if_neg (dec j k) other ((j, a) ∷ d) ((j, b) ∷ put dec k a d))
        ∙ ap suc (length-put_new k a d (sym (if_neg (dec j k) other (some b) (get dec k d)) ∙ e))
  ]

  pub length-put_old :
      (k : K) (v : V) (d : Dict K V) → has dec k d ≡ true → length (put dec k v d) ≡ length d
  unfolding has put
  length-put_old k v [] e = ground arith
  length-put_old k v ((j, w) ∷ d) e = elim (dec j k) [
    | yes same ↦ ap length (if_pos (dec j k) same ((j, v) ∷ d) ((j, w) ∷ put dec k v d))
    | no other ↦
        ap length (if_neg (dec j k) other ((j, v) ∷ d) ((j, w) ∷ put dec k v d))
        ∙ ap suc (length-put_old k v d (sym (if_neg (dec j k) other true (has dec k d)) ∙ e))
  ]

  pub found_there : (d : Dict K V) (k : K) (v : V) → get dec k d ≡ some v → has dec k d ≡ true
  unfolding get has
  found_there [] k v e = ground (arith, e)
  found_there ((j, w) ∷ d) k v e = elim (dec j k) [
    | yes same ↦ if_pos (dec j k) same true (has dec k d)
    | no other ↦
        if_neg (dec j k) other true (has dec k d)
        ∙ found_there d k v (sym (if_neg (dec j k) other (some w) (get dec k d)) ∙ e)
  ]
