-- ===== src/RateLimit/Numbers/Integers.antt =====
-- The integers are exact numbers.
use learn_system_design.Prelude.{ℕ, ◌+◌, ◌*◌, ◌≡◌, Bool, true, leb, arith, ap}
use learn_system_design.Prelude.Int.{
  ℤ, pos, negsuc, pos_part, neg_part, sub_ℕ, ◌+ℤ◌, ◌-ℤ◌, ltb_ℤ, +ℤ_parts, eq_of_parts, int_laws,
}
use learn_system_design.RateLimit.Numbers.{Numbers, IsExact}

unfoldable pub times_ℤ : ℤ → ℤ → ℤ
times_ℤ a b =
    sub_ℕ (pos_part a * pos_part b + neg_part a * neg_part b)
      (pos_part a * neg_part b + neg_part a * pos_part b)

abbrev pub leb_ℤ : ℤ → ℤ → Bool
leb_ℤ a b = leb (pos_part a + neg_part b) (pos_part b + neg_part a)

abbrev pub integers : Numbers ℤ
integers = record {
  nought = pos 0;
  one = pos 1;
  add = ◌+ℤ◌;
  sub = ◌-ℤ◌;
  mul = times_ℤ;
  le = leb_ℤ;
  lt = ltb_ℤ;
}

times_parts :
    (a b : ℤ)
    → pos_part (times_ℤ a b) + (pos_part a * neg_part b + neg_part a * pos_part b)
      ≡ neg_part (times_ℤ a b) + (pos_part a * pos_part b + neg_part a * neg_part b)
unfolding times_ℤ
times_parts a b = ground arith

-- Products of sums with the same balance.
balanced :
    (p q a b c d x : ℕ) → p + a + b ≡ q + c + d → p * x + a * x + b * x ≡ q * x + c * x + d * x
balanced p q a b c d x e = grind (arith, ap (λ (t : ℕ). t * x) e)

times-add : (a b c : ℤ) → times_ℤ (a +ℤ b) c ≡ times_ℤ a c +ℤ times_ℤ b c
times-add a b c =
    let sum = +ℤ_parts a b in
    let s = a +ℤ b in
    let p =
      balanced (pos_part s) (neg_part s) (neg_part a) (neg_part b) (pos_part a) (pos_part b)
        (pos_part c) sum in
    let q =
      balanced (pos_part s) (neg_part s) (neg_part a) (neg_part b) (pos_part a) (pos_part b)
        (neg_part c) sum in
    eq_of_parts (times_ℤ s c) (times_ℤ a c +ℤ times_ℤ b c) (
      omega (
        arith,
        p,
        q,
        times_parts s c,
        times_parts a c,
        times_parts b c,
        +ℤ_parts (times_ℤ a c) (times_ℤ b c),
      ))

times_sign :
    (a b : ℤ) → leb_ℤ (pos 0) a ≡ true → leb_ℤ (pos 0) b ≡ true → leb_ℤ (pos 0) (times_ℤ a b) ≡ true
unfolding times_ℤ
times_sign (pos a) (pos b) p q = ground arith
times_sign (pos a) (negsuc b) p q = ground arith
times_sign (negsuc a) b p q = ground arith

pub integers-IsExact : IsExact integers
integers-IsExact = record {
  add_assoc = λ a b c. omega int_laws;
  add_comm = λ a b. omega int_laws;
  add_nought = λ a. omega int_laws;
  sub_add = λ a b. omega int_laws;
  add_sub = λ a b. omega int_laws;
  mul_add = times-add;
  le_add = λ a b c. ground (arith, +ℤ_parts a c, +ℤ_parts b c);
  lt_le = λ a b. ground arith;
  le_refl = λ a. ground arith;
  le_trans = λ a b c p q. ground arith;
  le_total = λ a b p. ground arith;
  mul_sign = times_sign;
}
