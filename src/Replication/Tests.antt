-- ===== src/Replication/Tests.antt =====
-- Runs of the replicated database, and the theorems at them.
use learn_system_design.Prelude.{
  ℕ, ◌+◌, ◌≡◌, ◌≢◌, refl, subst, Option, none, some, List, [], ◌∷◌, ◌++◌, length, ℕ_discrete,
}
use learn_system_design.Replication.{
  Mode, async, sync, semi, Follower, ReplicatedDb, new_replica, new_followers, new_db, apply,
  apply_at, queue_at, write_followers, slowest, fastest, wait, draw_rtts, acknowledge, write,
  apply_batch, catch_up, catch_up_all, replicate_some, better, longest, is_in, missing, promote,
  fail_leader_and_promote,
}
use learn_system_design.Replication.Failover.{
  Op, write_op, replicate_op, perform, perform_all, entries_of, All,
}
use learn_system_design.Replication.Lost.{lost-AllIn, nothing_lost, AllIn, IsWithin}

abbrev uniform : ℕ → ℕ
uniform k = 1000 + k

-- Each follower copies one entry.
abbrev randint : ℕ → ℕ → ℕ → ℕ
randint k lo hi = 1

abbrev ops : List (Op ℕ)
ops = write_op 10 ∷ write_op 11 ∷ replicate_op ∷ write_op 12 ∷ []

abbrev run : Mode → ReplicatedDb ℕ
run mode = perform_all uniform randint ops (new_db mode 2)

abbrev lost_by : Option (Follower ℕ × List ℕ) → List ℕ
lost_by none = []
lost_by (some (f, lost)) = lost

async_loses : lost_by (fail_leader_and_promote ℕ_discrete (run async)).1 ≡ 11 ∷ 12 ∷ []
unfolding perform_all perform write wait slowest fastest draw_rtts acknowledge write_followers
    queue_at apply_at apply new_db new_followers new_replica replicate_some catch_up_all catch_up
    apply_batch fail_leader_and_promote promote longest better missing is_in ℕ_discrete
async_loses = refl

async_losses :
    (f : Follower ℕ) × (lost : List ℕ) × ((fail_leader_and_promote ℕ_discrete (run async)).1
      ≡ some (f, lost))
    × (f.replica.log ++ f.pending ≡ entries_of ops)
    × All (IsWithin (length f.replica.log)) (run async).followers
    × AllIn ℕ_discrete lost f.pending
async_losses = lost-AllIn ℕ_discrete uniform randint async 1 ops

semi_waits : semi ≢ async
semi_waits e = subst distinguish e tt
  where
    distinguish : Mode → Type 0
    distinguish semi = Unit
    distinguish sync = Unit
    distinguish async = ⊥

nothing_lost_example :
    (f : Follower ℕ) × ((fail_leader_and_promote ℕ_discrete (run semi)).1 ≡ some (f, []))
    × (f.replica.log ≡ entries_of ops)
nothing_lost_example = nothing_lost ℕ_discrete uniform randint semi 1 ops semi_waits
