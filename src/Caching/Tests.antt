-- ===== src/Caching/Tests.antt =====
-- A run of calls under two strategies, and the theorems at it.
use learn_system_design.Prelude.{ℕ, ◌+◌, ◌≡◌, refl, none, some, List, [], ◌∷◌, length, ℕ_discrete}
use learn_system_design.Prelude.Dict.{get, put, remove}
use learn_system_design.Caching.{write_back, new_store, read, write, flush, write_all, Store}
use learn_system_design.Caching.Calls.{
  Op, read_op, write_op, flush_op, flush_if, perform_all, perform, contents,
}
use learn_system_design.Caching.Contents.{read-contents, flush-contents}

abbrev ops : List (Op ℕ ℕ)
ops = write_op 1 10 ∷ read_op 1 ∷ flush_op ∷ write_op 1 11 ∷ write_op 1 12 ∷ read_op 2 ∷ []

abbrev final : Store ℕ ℕ
final = perform_all ℕ_discrete write_back ops new_store

behind : get ℕ_discrete 1 final.db.rows ≡ some 10
unfolding perform_all perform read write flush write_all get put remove new_store ℕ_discrete
behind = refl

read-contents_example : (read ℕ_discrete 1 final).0 ≡ contents ℕ_discrete ops (λ j. none) 1
read-contents_example = read-contents ℕ_discrete write_back ops 1

flush-contents_run :
    (get ℕ_discrete 1 (flush_if ℕ_discrete write_back final).db.rows
      ≡ contents ℕ_discrete ops (λ j. none) 1)
    × ((flush_if ℕ_discrete write_back final).db.writes ≡ final.db.writes + length final.dirty)
flush-contents_run = flush-contents ℕ_discrete write_back ops 1
