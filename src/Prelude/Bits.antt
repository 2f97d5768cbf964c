-- ===== src/Prelude/Bits.antt =====
-- `|` and `&` on whole numbers, with the two laws that packed fields rest on.
use Prim.Native.Nat.{
  ℕ, zero, suc, ◌+◌, ◌-◌, ◌*◌, ◌/◌, ◌%◌, ◌^◌, ◌≤◌, ◌<◌, min, max, bit_and, bit_or, digits,
  bit_and-bitwise, bit_or-bitwise,
}
use mathlib.Core.Path.{◌≡◌, refl, ap, sym, ◌∙◌}
use native.Mathlib.Nat.{
  pow-suc, one-le-pow, mod-lt, div-add-mod, mul-add-mod_self_left, mod-eq_of_lt,
}
use native.Mathlib.Omega.{arith}

module _ (rest : ℕ → ℕ) (op : ℕ → ℕ → ℕ) where
  -- More fuel than the number has digits changes nothing.
  pub digits_enough : (n m a b : ℕ) → a ≤ n → a ≤ m → digits rest op n a b ≡ digits rest op m a b
  digits_enough zero zero a b p q = refl
  digits_enough zero (suc m) zero b p q = refl
  digits_enough zero (suc m) (suc a) b p q = absurd (omega arith)
  digits_enough (suc n) zero zero b p q = refl
  digits_enough (suc n) zero (suc a) b p q = absurd (omega arith)
  digits_enough (suc n) (suc m) zero b p q = refl
  digits_enough (suc n) (suc m) (suc a) b p q =
      omega (arith, digits_enough n m (suc a / 2) (b / 2) (omega arith) (omega arith))

zero-or : (b : ℕ) → bit_or 0 b ≡ b
zero-or b = bit_or-bitwise 0 b

or_step : (a b : ℕ) → bit_or a b ≡ bit_or (a / 2) (b / 2) * 2 + max (a % 2) (b % 2)
or_step zero b = omega (arith, zero-or b, zero-or (b / 2))
or_step (suc a) b = omega (
  arith,
  bit_or-bitwise (suc a) b,
  bit_or-bitwise (suc a / 2) (b / 2),
  digits_enough (λ b. b) max a (suc a / 2) (suc a / 2) (b / 2) (omega arith) (omega arith),
)

zero-and : (b : ℕ) → bit_and 0 b ≡ 0
zero-and b = bit_and-bitwise 0 b

and_step : (a b : ℕ) → bit_and a b ≡ bit_and (a / 2) (b / 2) * 2 + min (a % 2) (b % 2)
and_step zero b = omega (arith, zero-and b, zero-and (b / 2))
and_step (suc a) b = omega (
  arith,
  bit_and-bitwise (suc a) b,
  bit_and-bitwise (suc a / 2) (b / 2),
  digits_enough (λ b. 0) min a (suc a / 2) (suc a / 2) (b / 2) (omega arith) (omega arith),
)

or-zero_fuel : (n a : ℕ) → a ≤ n → bit_or a 0 ≡ a
or-zero_fuel zero a h = omega (arith, ap (λ (x : ℕ). bit_or x 0) (le-zero a h), zero-or 0)
  where
    le-zero : (a : ℕ) → a ≤ 0 → a ≡ 0
    le-zero a h = omega arith
or-zero_fuel (suc n) zero h = zero-or 0
or-zero_fuel (suc n) (suc a) h =
    omega (arith, or_step (suc a) 0, or-zero_fuel n (suc a / 2) (omega arith))

and-zero_fuel : (n a : ℕ) → a ≤ n → bit_and a 0 ≡ 0
and-zero_fuel n zero h = zero-and 0
and-zero_fuel zero (suc a) h = absurd (omega arith)
and-zero_fuel (suc n) (suc a) h =
    omega (arith, and_step (suc a) 0, and-zero_fuel n (suc a / 2) (omega arith))

half-double : (a q : ℕ) → a * (q * 2) / 2 ≡ a * q
half-double a q = omega arith

-- `(a << k) | b` is a sum where `b` has `k` bits.
pub or_shifted : (k a b : ℕ) → b < 2 ^ k → bit_or (a * 2 ^ k) b ≡ a * 2 ^ k + b
or_shifted zero a b h =
    let e : b ≡ 0 = omega arith in rw e (omega (arith, or-zero_fuel (a * 1) (a * 1) (omega arith)))
or_shifted (suc k) a b h =
    let h' = rw (pow-suc 2 k) at h in
    let ih = or_shifted k a (b / 2) (omega arith) in
    rw (pow-suc 2 k) (rw (or_step, half-double) (omega (arith, ih)))

mod-double : (a q : ℕ) → 0 < q → a / 2 % q * 2 + a % 2 ≡ a % (q * 2)
mod-double a q h =
    let y : ℕ = a / 2 % q * 2 + a % 2 in
    let d : ℕ = a / 2 / q in
    let r_lt = mod-lt (a / 2) h in
    let split : a ≡ q * 2 * d + y = omega (arith, div-add-mod (a / 2) q) in
    sym
      (ap (λ x. x % (q * 2)) split ∙ mul-add-mod_self_left (q * 2) d y ∙ mod-eq_of_lt (omega arith))

-- `a & ((1 << k) - 1)` keeps the lowest `k` bits.
pub and_mask : (k a : ℕ) → bit_and a (2 ^ k - 1) ≡ a % 2 ^ k
and_mask zero a = omega (arith, and-zero_fuel a a (omega arith))
and_mask (suc k) a =
    let q = 2 ^ k in
    let pos : 0 < q = one-le-pow k 2 (omega arith) in
    let half : (q * 2 - 1) / 2 ≡ q - 1 = omega arith in
    rw (pow-suc 2 k) (rw (and_step, half, and_mask k (a / 2)) (omega (arith, mod-double a q pos)))
