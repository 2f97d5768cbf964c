-- ===== src/Prelude/Xor.antt =====
-- `^` on whole numbers: what a round of a Feistel network rests on.
use Prim.Native.Nat.{
  ℕ, zero, suc, ◌+◌, ◌*◌, ◌/◌, ◌%◌, ◌^◌, ◌≤◌, ◌<◌, bit_xor, differ, bit_xor-bitwise,
}
use mathlib.Core.Path.{◌≡◌, refl, ap, ◌∙◌}
use native.Mathlib.Nat.{pow-suc}
use native.Mathlib.Omega.{arith}
use learn_system_design.Prelude.Bits.{digits_enough}

zero-xor : (b : ℕ) → bit_xor 0 b ≡ b
zero-xor b = bit_xor-bitwise 0 b

differ_digits : (x y : ℕ) → x < 2 → y < 2 → differ x y ≡ (x + y) % 2
differ_digits zero y h k = omega arith
differ_digits (suc zero) zero h k = omega arith
differ_digits (suc zero) (suc zero) h k = omega arith
differ_digits (suc zero) (suc (suc y)) h k = absurd (omega arith)
differ_digits (suc (suc x)) y h k = absurd (omega arith)

xor_step : (a b : ℕ) → bit_xor a b ≡ bit_xor (a / 2) (b / 2) * 2 + (a % 2 + b % 2) % 2
xor_step zero b = omega (arith, zero-xor b, zero-xor (b / 2))
xor_step (suc a) b = omega (
  arith,
  bit_xor-bitwise (suc a) b,
  bit_xor-bitwise (suc a / 2) (b / 2),
  differ_digits (suc a % 2) (b % 2) (omega arith) (omega arith),
  digits_enough (λ b. b) differ a (suc a / 2) (suc a / 2) (b / 2) (omega arith) (omega arith),
)

xor_cancel_fuel : (n a b : ℕ) → a + b ≤ n → bit_xor (bit_xor a b) b ≡ a
xor_cancel_fuel zero zero zero h = refl
xor_cancel_fuel zero zero (suc b) h = absurd (omega arith)
xor_cancel_fuel zero (suc a) b h = absurd (omega arith)
xor_cancel_fuel (suc n) a b h =
    let x = bit_xor a b in
    let step = xor_step a b in
    let half : x / 2 ≡ bit_xor (a / 2) (b / 2) = omega arith in
    let digit : x % 2 ≡ (a % 2 + b % 2) % 2 = omega arith in
    let ih = xor_cancel_fuel n (a / 2) (b / 2) (omega arith) in
    let again = xor_step x b ∙ ap (λ h. bit_xor h (b / 2) * 2 + (x % 2 + b % 2) % 2) half in
    omega arith

-- A number that is xored twice is gone.
pub xor_cancel : (a b : ℕ) → bit_xor (bit_xor a b) b ≡ a
xor_cancel a b = xor_cancel_fuel (a + b) a b (omega arith)

-- The xor of numbers of `k` bits has `k` bits.
pub xor_bits : (k a b : ℕ) → a < 2 ^ k → b < 2 ^ k → bit_xor a b < 2 ^ k
xor_bits zero zero zero p q = omega arith
xor_bits zero zero (suc b) p q = absurd (omega arith)
xor_bits zero (suc a) b p q = absurd (omega arith)
xor_bits (suc k) a b p q =
    let p' = rw (pow-suc 2 k) at p in
    let q' = rw (pow-suc 2 k) at q in
    let ih = xor_bits k (a / 2) (b / 2) (omega arith) (omega arith) in
    rw (pow-suc 2 k) (omega (arith, xor_step a b))
