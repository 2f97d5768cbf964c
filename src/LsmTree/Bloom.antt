-- ===== src/LsmTree/Bloom.antt =====
-- `BloomFilter` of 05_databases/03_indexes_btree_vs_lsm.py. The bits are a function on positions, and
-- `digest key i` is the number that `_positions` reads from bytes 4i to 4i + 3 of the SHA-256 of the key.
pub mod Members
use learn_system_design.Prelude.{
  ℕ, zero, suc, ◌+◌, ◌%◌, ◌≡◌, refl, Bool, true, false, ◌&&◌, List, [], ◌∷◌, ◌==◌, if◌then◌else◌,
  arith, ◌++◌,
}

pub record BloomFilter : Type 0 where
  pub bits : ℕ → Bool
  pub size : ℕ
  pub k : ℕ

-- `BloomFilter(size, k)`
unfoldable pub bloom_filter : ℕ → ℕ → BloomFilter
bloom_filter size k = record { bits = λ p. false; size = size; k = k }

-- `for p in ...: self.bits[p] = 1`
unfoldable pub set_bits : List ℕ → (ℕ → Bool) → ℕ → Bool
set_bits [] bits = bits
set_bits (p ∷ ps) bits = set_bits ps (λ q. if q == p then true else bits q)

-- `all(self.bits[p] for p in ...)`
unfoldable pub all_set : List ℕ → (ℕ → Bool) → Bool
all_set [] bits = true
all_set (p ∷ ps) bits = bits p && all_set ps bits

module _ (digest : ℕ → ℕ → ℕ) where
  -- The positions of the first `k` numbers of a digest.
  unfoldable pub positions_up_to : ℕ → ℕ → ℕ → List ℕ
  positions_up_to zero size key = []
  positions_up_to (suc i) size key = positions_up_to i size key ++ (digest key i % size) ∷ []

  -- `_positions`
  unfoldable pub positions : BloomFilter → ℕ → List ℕ
  positions b key = positions_up_to b.k b.size key

  unfoldable pub add : ℕ → BloomFilter → BloomFilter
  add key b = record b { bits = set_bits (positions b key) b.bits }

  unfoldable pub might_contain : BloomFilter → ℕ → Bool
  might_contain b key = all_set (positions b key) b.bits

  -- `for k in self.keys: self.bloom.add(k)`
  unfoldable pub add_all : List ℕ → BloomFilter → BloomFilter
  add_all [] b = b
  add_all (key ∷ keys) b = add_all keys (add key b)
