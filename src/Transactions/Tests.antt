-- ===== src/Transactions/Tests.antt =====
-- Two-phase commit and a saga at concrete participants and services.
use learn_system_design.Prelude.{
  ℕ, ◌≡◌, refl, true, false, some, List, [], ◌∷◌, ℕ_discrete, arith, ◌⊎◌, map,
}
use learn_system_design.Prelude.Int.{pos, ◌+ℤ◌, ◌-ℤ◌}
use learn_system_design.Prelude.Dict.{get, put, has}
use learn_system_design.Transactions.TwoPhase.{
  Participant, participant, committed, aborted, two_phase_commit, prepare_all, prepare, commit,
  abort, all_yes,
}
use learn_system_design.Transactions.TwoPhase.Atomicity.{
  AllOf, VotesYes, Ended, InDoubt, two_phase_commit_atomic, two_phase_commit_blocked,
}
use learn_system_design.Transactions.Saga.{
  Services, schedule_shipping, run_saga, run_steps, action, compensate, compensation, fails,
  cancel_order, release_stock, refund_card,
}
use learn_system_design.Transactions.Saga.Compensation.{IsFulfilled, IsUndone, run_saga_outcome}

abbrev willing : List (Participant ℕ)
willing = participant 0 true ∷ participant 1 true ∷ []

abbrev split : List (Participant ℕ)
split = participant 0 true ∷ participant 1 false ∷ []

split_aborts : map (λ p. p.state) (two_phase_commit ℕ_discrete split false) ≡ aborted ∷ aborted ∷ []
unfolding two_phase_commit prepare_all prepare commit abort all_yes put participant ℕ_discrete
split_aborts = refl

two_phase_commit_atomic_example :
    (AllOf VotesYes willing × AllOf (Ended committed) (two_phase_commit ℕ_discrete willing false))
    ⊎ (¬ AllOf VotesYes willing × AllOf (Ended aborted) (two_phase_commit ℕ_discrete willing false))
two_phase_commit_atomic_example =
    two_phase_commit_atomic ℕ_discrete willing
      (unfold participant in (((λ e. ground arith), tt), (tt, tt)))

votes_then_crash : AllOf InDoubt (two_phase_commit ℕ_discrete willing true)
votes_then_crash =
    two_phase_commit_blocked ℕ_discrete willing (unfold participant in (refl, (refl, tt)))

abbrev services : Services ℕ
services = record {
  orders = [];
  stock = pos 5;
  payments = [];
  shipments = [];
  fail_at = some schedule_shipping;
}

stock_released : (run_saga ℕ_discrete 7 services).0.stock ≡ pos 5
unfolding run_saga run_steps action compensate compensation fails cancel_order release_stock
    refund_card get put has ℕ_discrete ◌+ℤ◌ ◌-ℤ◌
stock_released = refl

run_saga_outcome_example :
    (((run_saga ℕ_discrete 7 services).1 ≡ true)
      × IsFulfilled ℕ_discrete 7 services (run_saga ℕ_discrete 7 services).0)
    ⊎ (((run_saga ℕ_discrete 7 services).1 ≡ false)
        × IsUndone ℕ_discrete 7 services (run_saga ℕ_discrete 7 services).0)
run_saga_outcome_example =
    run_saga_outcome ℕ_discrete 7 services (unfold get in refl) (unfold get in refl)
