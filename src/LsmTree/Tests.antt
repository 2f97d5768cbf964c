-- ===== src/LsmTree/Tests.antt =====
-- An LSM-tree with small limits, and the theorems at it.
use learn_system_design.Prelude.{ℕ, ◌+◌, ◌*◌, ◌≡◌, refl, none, some, List, [], ◌∷◌, ℕ_discrete}
use learn_system_design.Prelude.Dict.{get, put}
use learn_system_design.LsmTree.{
  LsmTree, init, lookup, write, delete, flush, compact, merge, update, live, reversed, search,
  found, zip,
}
use learn_system_design.LsmTree.Bloom.{
  might_contain, add_all, add, set_bits, all_set, positions, positions_up_to, bloom_filter,
}
use learn_system_design.LsmTree.Table.{table, sorted, insert, read, keys_of, values_of, bisect_left}
use learn_system_design.LsmTree.Refinement.{
  Op, put_op, delete_op, get_op, perform, perform_all, contents, lookup-contents,
}
use learn_system_design.LsmTree.Recovery.{wal_recovers}

abbrev digest : ℕ → ℕ → ℕ
digest key i = key * 31 + i

abbrev ops : List (Op ℕ)
ops =
    put_op 3 30
    ∷ put_op 1 10
    ∷ put_op 2 20
    ∷ put_op 1 11
    ∷ delete_op 3
    ∷ put_op 5 50
    ∷ get_op 2
    ∷ put_op 7 70
    ∷ []

abbrev final : LsmTree ℕ
final = perform_all digest ops (init 2 2)

overwritten : (lookup digest 1 final).0 ≡ some 11
unfolding perform_all perform lookup write delete flush compact merge update live reversed search
    found zip get put ℕ_discrete might_contain add_all add set_bits all_set positions
    positions_up_to bloom_filter table sorted insert read keys_of values_of bisect_left init
overwritten = refl

lookup-contents_example : (lookup digest 3 final).0 ≡ contents ops (λ k. none) 3
lookup-contents_example = lookup-contents digest 2 2 ops 3

wal_recovers_example : update final.wal [] ≡ final.memtable
wal_recovers_example = wal_recovers digest 2 2 ops
