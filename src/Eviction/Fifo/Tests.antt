-- ===== src/Eviction/Fifo/Tests.antt =====
-- A full first-in-first-out cache.
use learn_system_design.Prelude.{
  ℕ, ℕ_discrete, ◌≡◌, ◌≤◌, refl, true, some, [], ◌∷◌, length, leb, arith,
}
use learn_system_design.Prelude.Dict.{has}
use learn_system_design.Eviction.Fifo.{FifoCache, store}
use learn_system_design.Eviction.Fifo.Queue.{queued, store-queued}

abbrev full_queue : FifoCache ℕ ℕ
full_queue = record { capacity = 2; contents = (1, 10) ∷ (2, 20) ∷ []; hits = 0; misses = 0 }

first_goes :
    queued ℕ_discrete (has ℕ_discrete 3 full_queue.contents) true 3 30 full_queue.contents
    ≡ (2, 20) ∷ (3, 30) ∷ []
unfolding has ℕ_discrete
first_goes = refl

third_in :
    (store ℕ_discrete 3 30 full_queue
      ≡ some (record full_queue {
        contents =
            queued ℕ_discrete
              (has ℕ_discrete 3 full_queue.contents)
              (leb 2 (length full_queue.contents))
              3
              30
              full_queue.contents;
      }))
    × (length (
          queued ℕ_discrete
            (has ℕ_discrete 3 full_queue.contents)
            (leb 2 (length full_queue.contents))
            3
            30
            full_queue.contents)
        ≤ 2)
third_in = store-queued ℕ_discrete 1 3 30 full_queue refl (omega arith)
