-- ===== src/LsmTree/Bloom/Members.antt =====
-- A Bloom filter answers for every key that was added to it.
use learn_system_design.Prelude.{
  ℕ, ◌≡◌, refl, Bool, true, List, [], ◌∷◌, ◌==◌, if◌then◌else◌, arith,
}
use learn_system_design.LsmTree.Bloom.{
  BloomFilter, set_bits, all_set, positions, add, might_contain, add_all,
}

set_bits-keep : (ps : List ℕ) (bits : ℕ → Bool) (q : ℕ) → bits q ≡ true → set_bits ps bits q ≡ true
unfolding set_bits
set_bits-keep [] bits q h = h
set_bits-keep (p ∷ ps) bits q h =
    set_bits-keep ps (λ r. if r == p then true else bits r) q (ground arith)

all_set-keep :
    (ps qs : List ℕ) (bits : ℕ → Bool)
    → all_set ps bits ≡ true
    → all_set ps (set_bits qs bits) ≡ true
unfolding all_set
all_set-keep [] qs bits h = refl
all_set-keep (p ∷ ps) qs bits h =
    let head : bits p ≡ true = ground arith in
    let tail : all_set ps bits ≡ true = ground arith in
    rw (set_bits-keep qs bits p head) (all_set-keep ps qs bits tail)

all_set-set_bits : (ps : List ℕ) (bits : ℕ → Bool) → all_set ps (set_bits ps bits) ≡ true
unfolding all_set set_bits
all_set-set_bits [] bits = refl
all_set-set_bits (p ∷ ps) bits =
    let bits' : ℕ → Bool = λ r. if r == p then true else bits r in
    rw (set_bits-keep ps bits' p (ground arith)) (all_set-set_bits ps bits')

module _ (digest : ℕ → ℕ → ℕ) where
  pub add_all-keep :
      (keys : List ℕ) (b : BloomFilter) (key : ℕ)
      → might_contain digest b key ≡ true
      → might_contain digest (add_all digest keys b) key ≡ true
  unfolding add_all
  add_all-keep [] b key h = h
  add_all-keep (k ∷ keys) b key h = add_all-keep keys (add digest k b) key (
      unfold might_contain add positions in
      all_set-keep (positions digest b key) (positions digest b k) b.bits h)

  pub add-might_contain :
      (b : BloomFilter) (key : ℕ) → might_contain digest (add digest key b) key ≡ true
  unfolding might_contain add positions
  add-might_contain b key = all_set-set_bits (positions digest b key) b.bits
