-- ===== src/CircuitBreaker/Recovery.antt =====
-- A breaker whose service is well again closes.
use learn_system_design.Prelude.{
  ℕ, zero, suc, ◌+◌, ◌≤◌, ◌<◌, ◌≡◌, refl, some, List, [], ◌∷◌, arith, length,
}
use learn_system_design.CircuitBreaker.{
  closed, opened, half_open, Breaker, record_outcome, attempt, call,
}

-- The guarded function returns at each of these times.
unfoldable pub succeed : List ℕ → Breaker → Breaker
succeed [] b = b
succeed (now ∷ times) b = succeed times (call (some tt) now b).0

-- A breaker that waits for `left` more trials.
succeed_trials :
    (left : ℕ) (times : List ℕ) (b : Breaker)
    → b.state ≡ half_open
    → b.trial_successes + suc left ≡ b.half_open_trials
    → length times ≡ suc left
    → (succeed times b).state ≡ closed
unfolding succeed
succeed_trials left [] b e t l = absurd (omega arith)
succeed_trials zero (now ∷ []) b e t l = unfold call attempt record_outcome in ground arith
succeed_trials zero (now ∷ now' ∷ times) b e t l = absurd (omega arith)
succeed_trials (suc left) (now ∷ times) b e t l =
    let b' = (call (some tt) now b).0 in
    succeed_trials left times b' (unfold call attempt record_outcome in ground arith)
      (unfold call attempt record_outcome in ground arith) (omega arith)

-- An open breaker is closed again by as many successes as it wants trials, if the first comes when
-- the cool-down is over.
pub succeed-closed :
    (now : ℕ) (times : List ℕ) (b : Breaker)
    → b.state ≡ opened
    → b.opened_at + b.cooldown ≤ now
    → 0 < b.half_open_trials
    → length (now ∷ times) ≡ b.half_open_trials
    → (succeed (now ∷ times) b).state ≡ closed
unfolding succeed
succeed-closed now [] b e h p l = unfold call attempt record_outcome in ground arith
succeed-closed now (now' ∷ times) b e h p l =
    succeed_trials (length times) (now' ∷ times) (call (some tt) now b).0
      (unfold call attempt record_outcome in ground arith)
      (unfold call attempt record_outcome in ground arith) refl
