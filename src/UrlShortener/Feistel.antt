-- ===== src/UrlShortener/Feistel.antt =====
-- A Feistel network is undone by its rounds in reverse.
use learn_system_design.Prelude.{
  ℕ, ◌+◌, ◌*◌, ◌/◌, ◌%◌, ◌^◌, ◌<◌, ◌≡◌, refl, List, [], ◌∷◌, ◌++◌, arith, ap, ◌∙◌, bit_and,
}
use Prim.Native.Nat.{bit_xor}
use learn_system_design.Prelude.Bits.{or_shifted, and_mask}
use learn_system_design.Prelude.Xor.{xor_cancel, xor_bits}
use learn_system_design.UrlShortener.Scramble.{
  half_bits, half_mask, round, rounds, joined, feistel, reversed_keys, rounds_back, feistel_inverse,
}

module _ (Key : Type 0) (digest : Key → ℕ → ℕ) where
  -- Both halves have their bits.
  abbrev AreHalves : ℕ × ℕ → Type 0
  AreHalves p = (p.0 < 2 ^ half_bits) × (p.1 < 2 ^ half_bits)

  round_half : (value : ℕ) (k : Key) → round Key digest value k < 2 ^ half_bits
  unfolding round
  round_half value k = omega (arith, and_mask half_bits (digest k value))

  rounds-AreHalves :
      (keys : List Key) (left right : ℕ)
      → AreHalves (left, right)
      → AreHalves (rounds Key digest keys left right)
  unfolding rounds
  rounds-AreHalves [] left right h = h
  rounds-AreHalves (k ∷ keys) left right (l, r) =
      rounds-AreHalves keys right (bit_xor left (round Key digest right k))
        (r, xor_bits half_bits left (round Key digest right k) l (round_half right k))

  rounds_back-append :
      (xs ys : List Key) (left right : ℕ)
      → rounds_back Key digest (xs ++ ys) left right
        ≡ rounds_back Key digest ys
            (rounds_back Key digest xs left right).0
            (rounds_back Key digest xs left right).1
  unfolding rounds_back
  rounds_back-append [] ys left right = refl
  rounds_back-append (k ∷ xs) ys left right =
      rounds_back-append xs ys (bit_xor right (round Key digest left k)) left

  rounds_back-rounds :
      (keys : List Key) (left right : ℕ)
      → rounds_back Key digest
          (reversed_keys Key digest keys)
          (rounds Key digest keys left right).0
          (rounds Key digest keys left right).1
        ≡ (left, right)
  unfolding rounds reversed_keys
  rounds_back-rounds [] left right = unfold rounds_back in refl
  rounds_back-rounds (k ∷ keys) left right =
      let mixed = bit_xor left (round Key digest right k) in
      let ih = rounds_back-rounds keys right mixed in
      rounds_back-append (reversed_keys Key digest keys) (k ∷ [])
        (rounds Key digest keys right mixed).0 (rounds Key digest keys right mixed).1
      ∙ ap (λ p. rounds_back Key digest (k ∷ []) p.0 p.1) ih
      ∙ (unfold rounds_back in
          ap (λ (x : ℕ). (x, right)) (xor_cancel left (round Key digest right k)))

  joined-sum : (p : ℕ × ℕ) → AreHalves p → joined Key digest p ≡ p.0 * 2 ^ half_bits + p.1
  unfolding joined
  joined-sum (left, right) (l, r) = or_shifted half_bits left right r

  feistel-sum :
      (keys : List Key) (n : ℕ)
      → n < 2 ^ (2 * half_bits)
      → (p : ℕ × ℕ) × AreHalves p
        × (feistel Key digest keys n ≡ p.0 * 2 ^ half_bits + p.1)
        × (p ≡ rounds Key digest keys (n / 2 ^ half_bits) (n % 2 ^ half_bits))
  unfolding feistel
  feistel-sum keys n h =
      let p = rounds Key digest keys (n / 2 ^ half_bits) (n % 2 ^ half_bits) in
      let halves = rounds-AreHalves keys (n / 2 ^ half_bits) (n % 2 ^ half_bits) (omega arith) in
      (p, halves, rw (and_mask half_bits n) (joined-sum p halves), refl)

  pub feistel_below :
      (keys : List Key) (n : ℕ)
      → n < 2 ^ (2 * half_bits)
      → feistel Key digest keys n < 2 ^ (2 * half_bits)
  feistel_below keys n h = let (p, halves, sum, e) = feistel-sum keys n h in omega arith

  -- On numbers of two halves `_feistel_inverse` undoes `_feistel`.
  pub feistel_inverse-feistel :
      (keys : List Key) (n : ℕ)
      → n < 2 ^ (2 * half_bits)
      → feistel_inverse Key digest keys (feistel Key digest keys n) ≡ n
  unfolding feistel_inverse
  feistel_inverse-feistel keys n h =
      let (p, halves, sum, e) = feistel-sum keys n h in
      let m = feistel Key digest keys n in
      let high : m / 2 ^ half_bits ≡ p.0 = omega arith in
      let low : bit_and m half_mask ≡ p.1 = omega (arith, and_mask half_bits m) in
      let start : AreHalves (n / 2 ^ half_bits, n % 2 ^ half_bits) = omega arith in
      ap
        (λ (a : ℕ).
          joined Key digest
            (rounds_back Key digest (reversed_keys Key digest keys) a (bit_and m half_mask)))
        high
      ∙ ap
          (λ (b : ℕ).
            joined Key digest (rounds_back Key digest (reversed_keys Key digest keys) p.0 b))
          low
      ∙ ap
          (λ (q : ℕ × ℕ).
            joined Key digest (rounds_back Key digest (reversed_keys Key digest keys) q.0 q.1))
          e
      ∙ ap (joined Key digest) (rounds_back-rounds keys (n / 2 ^ half_bits) (n % 2 ^ half_bits))
      ∙ joined-sum (n / 2 ^ half_bits, n % 2 ^ half_bits) start
      ∙ omega arith
