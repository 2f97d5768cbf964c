-- ===== src/Prelude/Dict/Unique.antt =====
-- A dict's keys are distinct, and what that gives.
use mathlib.Core.Path.{◌≡◌, refl, ap, sym, ◌∙◌, subst}
use mathlib.Core.Logic.{ite, if_pos, if_neg}
use mathlib.Core.List.{[], ◌∷◌}
use mathlib.Core.Option.{Option, none, some}
use learn_system_design.Prelude.Dict.{Dict, get, put, remove, get-put, get-remove}

abbrev pub or_else : {V : Type 0} → Option V → Option V → Option V
or_else none b = b
or_else (some a) b = some a

module _ {K V : Type 0} (dec : Discrete K) where
  -- No key occurs twice.
  abbrev pub AreUnique : Dict K V → Type 0
  AreUnique [] = Unit
  AreUnique ((k, v) ∷ d) = (get dec k d ≡ none) × AreUnique d

  pub put-AreUnique : (k : K) (v : V) (d : Dict K V) → AreUnique d → AreUnique (put dec k v d)
  unfolding put
  put-AreUnique k v [] u = (unfold get in refl, tt)
  put-AreUnique k v ((j, w) ∷ d) (absent, u) = elim (dec j k) [
    | yes same ↦ rw (if_pos (dec j k) same ((j, v) ∷ d) ((j, w) ∷ put dec k v d)) (absent, u)
    | no other ↦ rw (if_neg (dec j k) other ((j, v) ∷ d) ((j, w) ∷ put dec k v d)) (
      get-put dec k j v d ∙ if_neg (dec k j) (λ e. other (sym e)) (some v) (get dec j d) ∙ absent,
      put-AreUnique k v d u,
    )
  ]

  pub remove-AreUnique : (k : K) (d : Dict K V) → AreUnique d → AreUnique (remove dec k d)
  unfolding remove
  remove-AreUnique k [] u = tt
  remove-AreUnique k ((j, w) ∷ d) (absent, u) = elim (dec j k) [
    | yes same ↦
        rw (if_pos (dec j k) same (remove dec k d) ((j, w) ∷ remove dec k d))
          (remove-AreUnique k d u)
    | no other ↦ rw (if_neg (dec j k) other (remove dec k d) ((j, w) ∷ remove dec k d)) (
      get-remove dec k j d ∙ if_neg (dec k j) (λ e. other (sym e)) none (get dec j d) ∙ absent,
      remove-AreUnique k d u,
    )
  ]

  pub get-cons :
      (k j : K) (v : V) (d : Dict K V)
      → get dec j ((k, v) ∷ d) ≡ ite (dec k j) (some v) (get dec j d)
  unfolding get
  get-cons k j v d = refl

  -- `for k, v in items: d[k] = v`
  unfoldable pub put_all : Dict K V → Dict K V → Dict K V
  put_all [] d = d
  put_all ((k, v) ∷ items) d = put_all items (put dec k v d)

  pub get-put_all :
      (items d : Dict K V) (j : K)
      → AreUnique items
      → get dec j (put_all items d) ≡ or_else (get dec j items) (get dec j d)
  unfolding put_all get
  get-put_all [] d j u = refl
  get-put_all ((k, v) ∷ items) d j (absent, u) =
      get-put_all items (put dec k v d) j u
      ∙ ap (or_else (get dec j items)) (get-put dec k j v d)
      ∙ elim (dec k j) [
        | yes same ↦
            (let gone = subst (λ x. get dec x items ≡ none) same absent in
              rw
                (
                  if_pos (dec k j) same (some v) (get dec j d),
                  if_pos (dec k j) same (some v) (get dec j items),
                  gone,
                )
                refl)
        | no other ↦
            rw
              (
                if_neg (dec k j) other (some v) (get dec j d),
                if_neg (dec k j) other (some v) (get dec j items),
              )
              refl
      ]
