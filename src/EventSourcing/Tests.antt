-- ===== src/EventSourcing/Tests.antt =====
-- A run of the program's commands, and the theorems at it. Accounts are numbers: alice 0, bob 1.
use learn_system_design.Prelude.{ℕ, ◌≡◌, refl, none, some, List, [], ◌∷◌, take, length, ℕ_discrete}
use learn_system_design.Prelude.Int.{pos, ◌≤ℤ◌, ◌+ℤ◌, ◌-ℤ◌}
use learn_system_design.EventSourcing.{
  EventStore, change, Subscriber, balances, alerts, balance, stream, fold_balance, append, deposit,
  withdraw,
}
use learn_system_design.EventSourcing.Commands.{
  Command, deposit_to, withdraw_from, perform, perform_all, open_store,
}
use learn_system_design.EventSourcing.Projection.{AreCurrent, read_models_current}
use learn_system_design.EventSourcing.Ledger.{no_overdraft, time_travel}

abbrev commands : List (Command ℕ)
commands =
    deposit_to 0 (pos 100)
    ∷ deposit_to 1 (pos 50)
    ∷ withdraw_from 0 (pos 30)
    ∷ deposit_to 0 (pos 5000)
    ∷ withdraw_from 1 (pos 80)
    ∷ withdraw_from 0 (pos 1200)
    ∷ []

abbrev subscribers : List (Subscriber ℕ)
subscribers = balances (λ a. pos 0) ∷ alerts (pos 1000) [] ∷ []

abbrev final : EventStore ℕ
final = perform_all ℕ_discrete commands (open_store subscribers)

final_balances :
    (length final.events ≡ 5)
    × (balance ℕ_discrete final 0 ≡ pos 3870)
    × (balance ℕ_discrete final 1 ≡ pos 50)
unfolding perform_all perform deposit withdraw append balance stream fold_balance open_store ◌+ℤ◌
    ◌-ℤ◌ ℕ_discrete change
final_balances = (refl, refl, refl)

at_three : fold_balance (stream ℕ_discrete final.events 0 (some 3)) (pos 0) ≡ pos 70
unfolding perform_all perform deposit withdraw append balance stream fold_balance open_store ◌+ℤ◌
    ◌-ℤ◌ ℕ_discrete change
at_three = refl

read_models_current_example : AreCurrent ℕ_discrete final final.subscribers
read_models_current_example =
    read_models_current ℕ_discrete commands (open_store subscribers)
      (unfold open_store balance stream fold_balance in ((λ a. refl), (refl, tt)))

no_overdraft_example : pos 0 ≤ℤ balance ℕ_discrete final 0
no_overdraft_example = no_overdraft ℕ_discrete commands subscribers 0

past_balance :
    stream ℕ_discrete final.events 0 (some 3) ≡ stream ℕ_discrete (take 3 final.events) 0 none
past_balance = time_travel ℕ_discrete commands subscribers 0 3
