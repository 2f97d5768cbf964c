-- ===== src/CircuitBreaker.antt =====
-- 08_reliability/02_circuit_breaker.py: `CircuitBreaker`. Times are whole ticks, and the failure
-- threshold is a fraction, `threshold_num / threshold_den`, for the source's float. The call that
-- the breaker guards is its outcome: a value, or `none` where it raises.
pub mod Invariant
pub mod Recovery
pub mod Service
mod Tests
use learn_system_design.Prelude.{
  ℕ, zero, suc, ◌+◌, ◌-◌, ◌*◌, Bool, true, false, not, ◌&&◌, Option, none, some, List, [], ◌∷◌,
  ◌++◌, leb, if◌then◌else◌, length, drop,
}

pub data State : Type 0 where
  closed opened half_open : State

pub record Breaker : Type 0 where
  pub threshold_num : ℕ
  pub threshold_den : ℕ
  pub window : ℕ
  pub min_calls : ℕ
  pub cooldown : ℕ
  pub half_open_trials : ℕ
  pub state : State
  pub results : List Bool
  pub opened_at : ℕ
  pub trial_successes : ℕ
  pub transitions : List (ℕ × State × State)

-- `_to`
unfoldable pub to_state : State → ℕ → Breaker → Breaker
to_state state now b = record b {
  transitions = b.transitions ++ (now, b.state, state) ∷ [];
  state = state;
}

-- `results.count(False)`
unfoldable pub failures : List Bool → ℕ
failures [] = 0
failures (ok ∷ results) = (if ok then 0 else 1) + failures results

-- `xs[-n:]`, which is all of `xs` at `n` = 0
unfoldable pub last_n : ℕ → List Bool → List Bool
last_n zero xs = xs
last_n (suc n) xs = drop (length xs - suc n) xs

-- `len(results) >= min_calls and failures / len(results) >= failure_threshold`
unfoldable pub is_tripped : Breaker → List Bool → Bool
is_tripped b results =
    leb b.min_calls (length results)
    && leb (b.threshold_num * length results) (failures results * b.threshold_den)

-- the part of `_record` for a half-open breaker
unfoldable pub record_trial : Bool → ℕ → Breaker → Breaker
unfolding to_state
record_trial false now b = to_state opened now (record b { opened_at = now })
record_trial true now b =
    let b' = record b { trial_successes = b.trial_successes + 1 } in
    if leb b.half_open_trials (b.trial_successes + 1)
    then to_state closed now (record b' { results = [] })
    else b'

-- the part of `_record` for the other states
unfoldable pub record_result : Bool → ℕ → Breaker → Breaker
unfolding to_state
record_result ok now b =
    let results = last_n b.window (b.results ++ ok ∷ []) in
    let b' = record b { results = results } in
    if is_tripped b results then to_state opened now (record b' { opened_at = now }) else b'

unfoldable pub record_in : State → Bool → ℕ → Breaker → Breaker
unfolding record_trial record_result
record_in half_open ok now b = record_trial ok now b
record_in _ ok now b = record_result ok now b

-- `_record`
unfoldable pub record_outcome : Bool → ℕ → Breaker → Breaker
unfolding record_in
record_outcome ok now b = record_in b.state ok now b

pub data Reply (R : Type 0) : Type 0 where
  fast_failed : Reply R
  failed : Reply R
  returned : R → Reply R

-- The call went through: what `try`, `except` and the return do.
unfoldable pub attempt : {R : Type 0} → Option R → ℕ → Breaker → Breaker × Reply R
attempt none now b = (record_outcome false now b, failed)
attempt (some r) now b = (record_outcome true now b, returned r)

unfoldable pub call_in : {R : Type 0} → State → Option R → ℕ → Breaker → Breaker × Reply R
unfolding attempt to_state
call_in opened fn now b =
    if leb (b.opened_at + b.cooldown) now
    then attempt fn now (record (to_state half_open now b) { trial_successes = 0 })
    else (b, fast_failed)
call_in _ fn now b = attempt fn now b

-- `call`
unfoldable pub call : {R : Type 0} → Option R → ℕ → Breaker → Breaker × Reply R
unfolding call_in
call fn now b = call_in b.state fn now b
