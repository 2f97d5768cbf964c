-- ===== src/Prelude/Dict.antt =====
-- Python's `dict` as an association list in insertion order, over keys with decidable equality:
-- an assignment to a present key keeps its place, a new key goes to the end.
pub mod Unique
pub mod Sizes
use mathlib.Core.Path.{◌≡◌, refl, ap, ◌∙◌}
use mathlib.Core.Logic.{ite, if_pos, if_neg}
use mathlib.Core.Bool.{Bool, true, false}
use mathlib.Core.List.{List, [], ◌∷◌}
use mathlib.Core.Option.{Option, none, some}
use native.Mathlib.Omega.{arith}

abbrev pub Dict {ℓ} : Type ℓ → Type ℓ → Type ℓ
Dict K V = List (K × V)

module _ {ℓ} {K V : Type ℓ} (dec : Discrete K) where
  -- `d.get(k)`
  unfoldable pub get : K → Dict K V → Option V
  get k [] = none
  get k ((j, v) ∷ d) = ite (dec j k) (some v) (get k d)

  -- `k in d`
  unfoldable pub has : K → Dict K V → Bool
  has k [] = false
  has k ((j, v) ∷ d) = ite (dec j k) true (has k d)

  -- `d[k] = v`
  unfoldable pub put : K → V → Dict K V → Dict K V
  put k v [] = (k, v) ∷ []
  put k v ((j, w) ∷ d) = let rest = put k v d in ite (dec j k) ((j, v) ∷ d) ((j, w) ∷ rest)

  -- `d.pop(k, None)`
  unfoldable pub remove : K → Dict K V → Dict K V
  remove k [] = []
  remove k ((j, w) ∷ d) = let rest = remove k d in ite (dec j k) rest ((j, w) ∷ rest)

  pub get-put :
      (k j : K) (v : V) (d : Dict K V) → get j (put k v d) ≡ ite (dec k j) (some v) (get j d)
  unfolding get put
  get-put k j v [] = refl
  get-put k j v ((i, w) ∷ d) = ground (arith, get-put k j v d)

  pub get-put_self : (k : K) (v : V) (d : Dict K V) → get k (put k v d) ≡ some v
  get-put_self k v d = ground (arith, get-put k k v d)

  pub get-remove : (k j : K) (d : Dict K V) → get j (remove k d) ≡ ite (dec k j) none (get j d)
  unfolding get remove
  get-remove k j [] = ground arith
  get-remove k j ((i, w) ∷ d) = ground (arith, get-remove k j d)

  pub has-put_self : (k : K) (v : V) (d : Dict K V) → has k (put k v d) ≡ true
  unfolding has put
  has-put_self k v [] = if_pos (dec k k) refl true false
  has-put_self k v ((i, w) ∷ d) = elim (dec i k) [
    | yes same ↦
        ap (has k) (if_pos (dec i k) same ((i, v) ∷ d) ((i, w) ∷ put k v d))
        ∙ if_pos (dec i k) same true (has k d)
    | no other ↦
        ap (has k) (if_neg (dec i k) other ((i, v) ∷ d) ((i, w) ∷ put k v d))
        ∙ if_neg (dec i k) other true (has k (put k v d))
        ∙ has-put_self k v d
  ]
