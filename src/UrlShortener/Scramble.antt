-- ===== src/UrlShortener/Scramble.antt =====
-- `_feistel`, `scramble` and their inverses of 11_case_studies/01_url_shortener.py. `digest key value` is
-- the number that `_round` reads from the keyed BLAKE2b digest, before the mask.
use learn_system_design.Prelude.{
  ℕ, zero, suc, ◌-◌, ◌*◌, ◌/◌, ◌^◌, true, false, Option, none, some, List, [], ◌∷◌, ◌++◌, leb,
  bit_and, bit_or,
}
use Prim.Native.Nat.{bit_xor}
use learn_system_design.UrlShortener.Base62.{space}

abbrev pub half_bits : ℕ
half_bits = 21

abbrev pub half_mask : ℕ
half_mask = 2 ^ half_bits - 1

-- `while x >= SPACE: x = step(x)`; `none` is that the fuel runs out
unfoldable pub walk : (ℕ → ℕ) → ℕ → ℕ → ℕ → Option ℕ
walk step bound zero x = none
walk step bound (suc fuel) x = elim (leb bound x) [
  | true ↦ walk step bound fuel (step x)
  | false ↦ some x
]

module _ (Key : Type 0) (digest : Key → ℕ → ℕ) where
  -- `_round`
  unfoldable pub round : ℕ → Key → ℕ
  round value key = bit_and (digest key value) half_mask

  -- The loop of `_feistel` over the keys.
  unfoldable pub rounds : List Key → ℕ → ℕ → ℕ × ℕ
  unfolding round
  rounds [] left right = (left, right)
  rounds (k ∷ keys) left right = rounds keys right (bit_xor left (round right k))

  -- `(left << HALF_BITS) | right`
  unfoldable pub joined : ℕ × ℕ → ℕ
  joined (left, right) = bit_or (left * 2 ^ half_bits) right

  unfoldable pub feistel : List Key → ℕ → ℕ
  unfolding rounds joined
  feistel keys n = joined (rounds keys (n / 2 ^ half_bits) (bit_and n half_mask))

  -- `reversed(keys)`
  unfoldable pub reversed_keys : List Key → List Key
  reversed_keys [] = []
  reversed_keys (k ∷ keys) = reversed_keys keys ++ k ∷ []

  -- The loop of `_feistel_inverse` over the reversed keys.
  unfoldable pub rounds_back : List Key → ℕ → ℕ → ℕ × ℕ
  unfolding round
  rounds_back [] left right = (left, right)
  rounds_back (k ∷ keys) left right = rounds_back keys (bit_xor right (round left k)) left

  unfoldable pub feistel_inverse : List Key → ℕ → ℕ
  unfolding rounds_back joined reversed_keys
  feistel_inverse keys n =
      joined (rounds_back (reversed_keys keys) (n / 2 ^ half_bits) (bit_and n half_mask))

  module _ (keys : List Key) where
    -- `scramble`: a walk can take as many steps as there are numbers of two halves.
    unfoldable pub scramble : ℕ → Option ℕ
    scramble n = walk (feistel keys) space (2 ^ (2 * half_bits)) (feistel keys n)

    unfoldable pub unscramble : ℕ → Option ℕ
    unscramble n = walk (feistel_inverse keys) space (2 ^ (2 * half_bits)) (feistel_inverse keys n)
