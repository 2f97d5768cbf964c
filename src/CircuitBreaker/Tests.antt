-- ===== src/CircuitBreaker/Tests.antt =====
-- Runs of the breaker, and the theorems at inputs.
use learn_system_design.Prelude.{ℕ, ◌+◌, ◌<◌, ◌≡◌, refl, ◌↔◌, false, none, some, [], ◌∷◌, arith}
use learn_system_design.CircuitBreaker.{
  closed, opened, Breaker, fast_failed, call, is_tripped, failures, record_outcome, last_n,
}
use learn_system_design.CircuitBreaker.Invariant.{call-fast_failed, call_unchanged}
use learn_system_design.CircuitBreaker.Recovery.{succeed, succeed-closed}

-- The defaults of `__init__`, and a breaker that two failures open.
abbrev fresh : Breaker
fresh = record {
  threshold_num = 1;
  threshold_den = 2;
  window = 10;
  min_calls = 2;
  cooldown = 5;
  half_open_trials = 2;
  state = closed;
  results = [];
  opened_at = 0;
  trial_successes = 0;
  transitions = [];
}

abbrev tripped : Breaker
tripped = record fresh {
  state = opened;
  results = false ∷ false ∷ [];
  opened_at = 4;
  transitions = (4, closed, opened) ∷ [];
}

two_failures : (call {R = ℕ} none 4 (call {R = ℕ} none 3 fresh).0).0 ≡ tripped
unfolding call record_outcome is_tripped last_n failures
two_failures = refl

tripped_fails_fast :
    ((call {R = ℕ} (some 7) 8 tripped).1 ≡ fast_failed) ↔ ((tripped.state ≡ opened) × (8 < 4 + 5))
tripped_fails_fast = call-fast_failed {R = ℕ} (some 7) 8 tripped

tripped_unchanged : (call {R = ℕ} (some 7) 8 tripped).0 ≡ tripped
tripped_unchanged =
    call_unchanged {R = ℕ} (some 7) 8 tripped (tripped_fails_fast.1 (refl, omega arith))

succeed-closed_example : (succeed (9 ∷ 10 ∷ []) tripped).state ≡ closed
succeed-closed_example = succeed-closed 9 (10 ∷ []) tripped refl (omega arith) (omega arith) refl
