-- ===== src/RateLimit/Numbers.antt =====
-- The numbers that the buckets of 08_reliability/01_rate_limiting.py compute with: any type with the operations
-- that the code calls, so floats that round are such a type too, and exact numbers are those with the laws.
pub mod Integers
use learn_system_design.Prelude.{
  ℕ, zero, suc, ◌≡◌, Bool, true, false, not, if◌then◌else◌, List, [], ◌∷◌, ap, sym, ◌∙◌,
}

pub record Numbers (N : Type 0) : Type 0 where
  pub nought : N
  pub one : N
  pub add : N → N → N
  pub sub : N → N → N
  pub mul : N → N → N
  pub le : N → N → Bool
  pub lt : N → N → Bool

module _ {N : Type 0} (n : Numbers N) where
  -- Python's `min(a, b)` and `max(a, b)`: the first, unless the second is less, or more.
  abbrev pub min_of : N → N → N
  min_of a b = if n.lt b a then b else a

  abbrev pub max_of : N → N → N
  max_of a b = if n.lt a b then b else a

  -- No operation rounds: the laws of an ordered ring.
  pub record IsExact : Type 0 where
    pub add_assoc : (a b c : N) → n.add (n.add a b) c ≡ n.add a (n.add b c)
    pub add_comm : (a b : N) → n.add a b ≡ n.add b a
    pub add_nought : (a : N) → n.add a n.nought ≡ a
    pub sub_add : (a b : N) → n.add (n.sub a b) b ≡ a
    pub add_sub : (a b : N) → n.sub (n.add a b) b ≡ a
    pub mul_add : (a b c : N) → n.mul (n.add a b) c ≡ n.add (n.mul a c) (n.mul b c)
    pub le_add : (a b c : N) → n.le (n.add a c) (n.add b c) ≡ n.le a b
    pub lt_le : (a b : N) → n.lt a b ≡ not (n.le b a)
    pub le_refl : (a : N) → n.le a a ≡ true
    pub le_trans : (a b c : N) → n.le a b ≡ true → n.le b c ≡ true → n.le a c ≡ true
    pub le_total : (a b : N) → n.le a b ≡ false → n.le b a ≡ true
    pub mul_sign :
        (a b : N)
        → n.le n.nought a ≡ true
        → n.le n.nought b ≡ true
        → n.le n.nought (n.mul a b) ≡ true

  -- So many ones.
  abbrev pub amount : ℕ → N
  amount zero = n.nought
  amount (suc k) = n.add n.one (amount k)

  -- The times never fall, from `now` on.
  abbrev pub AreAscending : N → List N → Type 0
  AreAscending now [] = Unit {0}
  AreAscending now (t ∷ times) = (n.le now t ≡ true) × AreAscending t times

-- The last time of the list, or `now`.
abbrev pub last_time : {N : Type 0} → N → List N → N
last_time now [] = now
last_time now (t ∷ times) = last_time t times
