-- ===== src/Eviction/Lfu/Tests.antt =====
-- A full least-frequently-used cache: key 1 was read once, key 2 never.
use learn_system_design.Prelude.{
  ℕ, ℕ_discrete, ◌≡◌, ◌≤◌, refl, Option, none, some, List, [], ◌∷◌, arith, ite, length,
}
use learn_system_design.Prelude.Dict.{get, put}
use learn_system_design.Eviction.{Call, get_of, put_of}
use learn_system_design.Eviction.Lfu.{LfuCache, new_lfu, store}
use learn_system_design.Eviction.Lfu.Runs.{run, run-IsKept, IsKept, new_lfu-IsKept, store-least}
use learn_system_design.Eviction.Lfu.Steps.{touched, touch-IsSound}
use learn_system_design.Eviction.Lfu.Evicts.{inserted, inserted-IsSound}

abbrev calls : List (Call ℕ ℕ)
calls = put_of 1 10 ∷ put_of 2 20 ∷ get_of 1 ∷ put_of 3 30 ∷ get_of 2 ∷ []

run-IsKept_example :
    (returned : List (Option ℕ)) × (d : LfuCache ℕ ℕ) × (run ℕ_discrete calls (new_lfu 2)
      ≡ some (returned, d))
    × IsKept ℕ_discrete 1 d
run-IsKept_example = run-IsKept ℕ_discrete 1 calls

-- Key 1 is put and read, and key 2 is put.
abbrev one_key : LfuCache ℕ ℕ
one_key = inserted ℕ_discrete (new_lfu 2) 1 10

abbrev two_keys : LfuCache ℕ ℕ
two_keys = inserted ℕ_discrete (touched ℕ_discrete one_key 1 1) 2 20

two_keys-IsKept : IsKept ℕ_discrete 1 two_keys
unfolding new_lfu get put ℕ_discrete
two_keys-IsKept =
    let first =
      inserted-IsSound ℕ_discrete (new_lfu 2) 1 10 (new_lfu-IsKept ℕ_discrete 1).sound.places
        refl in
    let read = touch-IsSound ℕ_discrete one_key 1 1 first refl in
    record {
      sound = inserted-IsSound ℕ_discrete (touched ℕ_discrete one_key 1 1) 2 20 read.1.places refl;
      room = refl;
      fits = omega arith;
    }

two_long : length two_keys.values ≡ 2
unfolding new_lfu put ℕ_discrete
two_long = refl

three_absent : get ℕ_discrete 3 two_keys.values ≡ none
unfolding new_lfu get put ℕ_discrete
three_absent = refl

store-least_example :
    (victim : ℕ) × (f : ℕ) × (d : LfuCache ℕ ℕ) × (get ℕ_discrete victim two_keys.freq ≡ some f)
    × ((j : ℕ) (g : ℕ) → get ℕ_discrete j two_keys.freq ≡ some g → f ≤ g)
    × (store ℕ_discrete 3 30 two_keys ≡ some d)
    × ((j : ℕ)
        → get ℕ_discrete j d.values
          ≡ ite
              (ℕ_discrete 3 j)
              (some 30)
              (ite (ℕ_discrete victim j) none (get ℕ_discrete j two_keys.values)))
store-least_example = store-least ℕ_discrete 1 3 30 two_keys two_keys-IsKept two_long three_absent
