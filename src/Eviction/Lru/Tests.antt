-- ===== src/Eviction/Lru/Tests.antt =====
-- The operations of the demonstration: capacity 3, with numbers for the letters.
use learn_system_design.Eviction.{Call, get_of, put_of}
use learn_system_design.Prelude.{ℕ, ℕ_discrete, ◌≡◌, refl, Option, none, some, List, [], ◌∷◌}
use learn_system_design.Eviction.Lru.{LruCache, new_cache, keys_mru_to_lru}
use learn_system_design.Eviction.Lru.Refines.{run, answers, entries_after, keys, run-entries}

abbrev demo : List (Call ℕ ℕ)
demo = put_of 1 10 ∷ put_of 2 20 ∷ put_of 3 30 ∷ get_of 1 ∷ put_of 4 40 ∷ get_of 2 ∷ get_of 3 ∷ []

letters_returned :
    answers ℕ_discrete 3 demo [] ≡ none ∷ none ∷ none ∷ some 10 ∷ none ∷ none ∷ some 30 ∷ []
unfolding answers learn_system_design.Prelude.Dict.get ℕ_discrete
    learn_system_design.Prelude.Dict.remove
letters_returned = refl

letters_left : keys (entries_after ℕ_discrete 3 demo []) ≡ some 3 ∷ some 4 ∷ some 1 ∷ []
unfolding entries_after learn_system_design.Prelude.Dict.get ℕ_discrete
    learn_system_design.Prelude.Dict.remove
letters_left = refl

run-entries_example :
    (d : LruCache ℕ ℕ) × (run ℕ_discrete demo (new_cache 3)
      ≡ some (answers ℕ_discrete 3 demo [], d))
    × (keys_mru_to_lru d ≡ keys (entries_after ℕ_discrete 3 demo []))
run-entries_example = run-entries ℕ_discrete 2 demo
